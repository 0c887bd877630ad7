-- ===== src/Engine/Verify/Votes.antt =====
-- What internal/engine/verify.go counts as a vote.
use sdlc_orchestrator.Common.{
  ℕ, ◌+◌, ◌≡◌, ap, sym, ◌∙◌, subst, ◌≤◌, refl, ltb, Bool, true, false, ◌||◌, ◌&&◌, not, List, [],
  ◌∷◌, Option, none, some, String, str_eq, has, length, arith, if_cases, if◌then◌else◌, Bool-cases,
  inl, inr,
}
use sdlc_orchestrator.Artifact.{Verdict, Finding}
use sdlc_orchestrator.Artifact.Load.{Loaded, loaded, unreadable, invalid, load_verdict, empty_text}
use sdlc_orchestrator.Artifact.Load.Problems.{passed, loaded_inj}
use sdlc_orchestrator.Engine.Verify.{
  reserve_invocations, Failure, is_suspension, Ran, Vote, lost, cast, Tally, suspended, counted,
  with_lost, with_cast, tally, read_vote, vote_of, votes_of, run_verifiers,
}

-- The verdicts among the votes, and the failures, in their order.
abbrev pub casts_of : List Vote → List Verdict
casts_of [] = []
casts_of (cast v ∷ votes) = v ∷ casts_of votes
casts_of (lost e ∷ votes) = casts_of votes

abbrev pub losses_of : List Vote → List Failure
losses_of [] = []
losses_of (cast v ∷ votes) = losses_of votes
losses_of (lost e ∷ votes) = e ∷ losses_of votes

-- The first end of a quota or unreachable backend among failures.
abbrev pub first_suspension : List Failure → Option Failure
first_suspension [] = none
first_suspension (e ∷ es) =
    let rest = first_suspension es in if is_suspension e then some e else rest

-- A fan-out is suspended by the first of its votes that suspends; where there is none, exactly the
-- verdicts are counted and exactly the failures are dropped.
abbrev pub TallyOf : List Vote → Tally → Type 0
TallyOf votes (suspended e) =
    (first_suspension (losses_of votes) ≡ some e) × (is_suspension e ≡ true)
TallyOf votes (counted vs es) =
    (first_suspension (losses_of votes) ≡ none) × (vs ≡ casts_of votes) × (es ≡ losses_of votes)

cast-TallyOf :
    (v : Verdict) (votes : List Vote) (t : Tally)
    → TallyOf votes t
    → TallyOf (cast v ∷ votes) (with_cast v t)
cast-TallyOf v votes (suspended e) h = h
cast-TallyOf v votes (counted vs es) h = (h.0, ap (λ l. v ∷ l) (h.1), h.2)

lost-TallyOf :
    (e : Failure) (votes : List Vote) (t : Tally)
    → is_suspension e ≡ false
    → TallyOf votes t
    → TallyOf (lost e ∷ votes) (with_lost e t)
lost-TallyOf e votes (suspended s) k h = rw k h
lost-TallyOf e votes (counted vs es) k h = (rw k (h.0), h.1, ap (λ l. e ∷ l) (h.2))

-- The loop over the votes of a finding stops with the first vote that met a quota or an unreachable
-- backend; where there is none, it counts exactly the verdicts, and drops exactly the other failures,
-- each in the order of the votes.
pub tally-TallyOf : (votes : List Vote) → TallyOf votes (tally votes)
unfolding tally
tally-TallyOf [] = (refl, refl, refl)
tally-TallyOf (cast v ∷ votes) = cast-TallyOf v votes (tally votes) (tally-TallyOf votes)
tally-TallyOf (lost e ∷ votes) =
    if_cases (TallyOf (lost e ∷ votes)) (is_suspension e) _ _ (λ k. (rw k refl, k))
      (λ k. lost-TallyOf e votes (tally votes) k (tally-TallyOf votes))

not_ltb : (a b : ℕ) → ltb a b ≡ false → b ≤ a
not_ltb a b h = ground arith

is_not-false : (b : Bool) → not b ≡ false → b ≡ true
is_not-false b h = ground arith

module _ (trim_space : String → String) (mint : ℕ → String) where
  load_verdict-IsWord :
      (file : Option Verdict) (v : Verdict)
      → load_verdict trim_space file ≡ loaded v
      → has ("confirmed" ∷ "refuted" ∷ []) v.verdict ≡ true
  unfolding load_verdict
  load_verdict-IsWord none v h = ground arith
  load_verdict-IsWord (some r) v h =
      let h1 = (passed (not (str_eq r.schema "verdict/1")) _ _ v h).1 in
      let h2 = passed (not (has ("confirmed" ∷ "refuted" ∷ []) r.verdict)) _ _ v h1 in
      let h3 = (passed (empty_text (trim_space r.evidence)) _ _ v (h2.1)).1 in
      let h4 = (passed (empty_text (trim_space r.reasoning)) _ _ v h3).1 in
      rw (← loaded_inj r v h4) (is_not-false (has ("confirmed" ∷ "refuted" ∷ []) r.verdict) (h2.0))

  -- The verdict that a verifier's run leaves about the finding: its process ran to its end, and its file
  -- is a valid verdict that names this finding or none.
  abbrev pub Answers : Finding → Ran → Verdict → Type 0
  Answers f r v =
      (r.spawned ≡ true)
      × (r.unreachable ≡ false)
      × (r.quota_hit ≡ false)
      × (load_verdict trim_space r.file ≡ loaded v)
      × ((str_eq v.finding_id "" || str_eq v.finding_id f.id) ≡ true)

  -- What one run may have as its vote.
  abbrev pub VoteIsAbout : Finding → Ran → Vote → Type 0
  VoteIsAbout f r (lost e) = (v : Verdict) → Answers f r v → ⊥
  VoteIsAbout f r (cast v) =
      (v0 : Verdict) × Answers f r v0
      × (v ≡ record v0 { finding_id = f.id })
      × (has ("confirmed" ∷ "refuted" ∷ []) v.verdict ≡ true)

  -- The verdicts are those of the runs that leave one, in the order of the runs.
  pub data Drawn (f : Finding) : List Ran → List Verdict → Type 0 where
    drawn_none : Drawn f [] []
    dropped :
        {r : Ran} {rs : List Ran} {vs : List Verdict}
        → ((v : Verdict) → Answers f r v → ⊥)
        → Drawn f rs vs
        → Drawn f (r ∷ rs) vs
    taken :
        {r : Ran} {rs : List Ran} {v : Verdict} {vs : List Verdict}
        → VoteIsAbout f r (cast v)
        → Drawn f rs vs
        → Drawn f (r ∷ rs) (v ∷ vs)

  -- What is counted for a finding on these runs, if no vote suspends and if the fan-out fits.
  abbrev pub TallyIsAbout : Finding → List Ran → Tally → Type 0
  TallyIsAbout f rs (suspended e) = Unit
  TallyIsAbout f rs (counted vs es) = Drawn f rs vs

  cast-IsAbout :
      (f : Finding) (r : Ran) (rs : List Ran) (v : Verdict) (t : Tally)
      → VoteIsAbout f r (cast v)
      → TallyIsAbout f rs t
      → TallyIsAbout f (r ∷ rs) (with_cast v t)
  cast-IsAbout f r rs v (suspended e) a h = tt
  cast-IsAbout f r rs v (counted vs es) a h = taken a h

  lost-IsAbout :
      (f : Finding) (r : Ran) (rs : List Ran) (e : Failure) (t : Tally)
      → VoteIsAbout f r (lost e)
      → TallyIsAbout f rs t
      → TallyIsAbout f (r ∷ rs) (with_lost e t)
  lost-IsAbout f r rs e (suspended s) a h = tt
  lost-IsAbout f r rs e (counted vs es) a h = dropped a h

  names_it :
      (name id : String)
      → (not (str_eq name "") && not (str_eq name id)) ≡ false
      → (str_eq name "" || str_eq name id) ≡ true
  names_it name id h = ground arith

  names_other :
      (name id : String)
      → (not (str_eq name "") && not (str_eq name id)) ≡ true
      → (str_eq name "" || str_eq name id) ≡ true
      → ⊥
  names_other name id h k = ground arith

  read_vote-IsAbout :
      (f : Finding) (r : Ran) (l : Loaded Verdict)
      → r.spawned ≡ true
      → r.unreachable ≡ false
      → r.quota_hit ≡ false
      → load_verdict trim_space r.file ≡ l
      → VoteIsAbout f r (read_vote trim_space mint f l)
  unfolding read_vote
  read_vote-IsAbout f r (loaded v) s u q e =
      if_cases (VoteIsAbout f r) (not (str_eq v.finding_id "") && not (str_eq v.finding_id f.id)) _
        _
        (λ k v' a.
          names_other v'.finding_id f.id
            (subst
              (λ (x : Verdict).
                (not (str_eq x.finding_id "") && not (str_eq x.finding_id f.id)) ≡ true)
              (loaded_inj v v' (sym e ∙ a.3)) k)
            (a.4))
        (λ k. (v, (s, u, q, e, names_it v.finding_id f.id k), refl, load_verdict-IsWord r.file v e))
  read_vote-IsAbout f r unreadable s u q e = λ v a. not_loaded v (sym e ∙ a.3)
    where
      not_loaded : (v : Verdict) → unreadable ≡ loaded v → ⊥
      not_loaded v k = ground arith
  read_vote-IsAbout f r (invalid msg) s u q e = λ v a. not_loaded v (sym e ∙ a.3)
    where
      not_loaded : (v : Verdict) → invalid msg ≡ loaded v → ⊥
      not_loaded v k = ground arith

  vote_of-IsAbout : (f : Finding) (r : Ran) → VoteIsAbout f r (vote_of trim_space mint f r)
  unfolding vote_of
  vote_of-IsAbout f r =
      if_cases (VoteIsAbout f r) (not r.spawned) _ _ (λ e v a. ground (arith, e, a.0))
        (λ e.
          if_cases (VoteIsAbout f r) r.unreachable _ _ (λ e' v a. ground (arith, e', a.1))
            (λ e'.
              if_cases (VoteIsAbout f r) r.quota_hit _ _ (λ e'' v a. ground (arith, e'', a.2))
                (λ e''.
                  read_vote-IsAbout f r (load_verdict trim_space r.file) (is_not-false r.spawned e)
                    e' e'' refl)))

  tally-IsAbout :
      (f : Finding) (r : Ran) (rs : List Ran) (v : Vote) (votes : List Vote)
      → VoteIsAbout f r v
      → TallyIsAbout f rs (tally votes)
      → TallyIsAbout f (r ∷ rs) (tally (v ∷ votes))
  unfolding tally
  tally-IsAbout f r rs (cast v) votes a h = cast-IsAbout f r rs v (tally votes) a h
  tally-IsAbout f r rs (lost e) votes a h =
      if_cases (TallyIsAbout f (r ∷ rs)) (is_suspension e) _ _ (λ k. tt)
        (λ k. lost-IsAbout f r rs e (tally votes) a h)

  votes_of-IsAbout :
      (f : Finding) (rs : List Ran) → TallyIsAbout f rs (tally (votes_of trim_space mint f rs))
  unfolding votes_of tally
  votes_of-IsAbout f [] = drawn_none
  votes_of-IsAbout f (r ∷ rs) =
      tally-IsAbout f r rs (vote_of trim_space mint f r) (votes_of trim_space mint f rs)
        (vote_of-IsAbout f r) (votes_of-IsAbout f rs)

  -- What the fan-out of a finding may give: over the budget it counts nothing, else what the runs left.
  abbrev pub FannedOut : Finding → List Ran → Bool → Tally → Type 0
  FannedOut f rs true t = t ≡ counted [] []
  FannedOut f rs false t = TallyIsAbout f rs t

  -- The verifiers of a finding never push a job over its budget of agent invocations. Where the fan-out does not
  -- fit the budget nothing is counted. Where it fits and no vote suspends, exactly the runs that ended with a valid
  -- verdict file which names this finding or none are counted, in their order, each with one verdict that confirms or
  -- refutes and is recorded under the id of the finding.
  pub run_verifiers-IsAbout :
      (budget : ℕ) (f : Finding) (runs : List Ran) (used : ℕ)
      → used ≤ budget
      → ((run_verifiers trim_space mint budget f runs used).1 ≤ budget)
        × FannedOut f runs
            (ltb budget (used + length runs))
            ((run_verifiers trim_space mint budget f runs used).0)
  unfolding run_verifiers reserve_invocations
  run_verifiers-IsAbout budget f runs used h = elim (Bool-cases (ltb budget (used + length runs))) [
    | inl e ↦ rw e (h, refl)
    | inr e ↦ rw e (not_ltb budget (used + length runs) e, votes_of-IsAbout f runs)
  ]

  tally-suspended :
      (votes : List Vote) (t : Tally) (e : Failure)
      → TallyOf votes t
      → t ≡ suspended e
      → is_suspension e ≡ true
  tally-suspended votes (suspended s) e h k = grind arith
  tally-suspended votes (counted vs es) e h k = ground arith

  -- What stops a fan-out is a suspension.
  pub run_verifiers-Suspends :
      (budget : ℕ) (f : Finding) (runs : List Ran) (used : ℕ) (e : Failure)
      → (run_verifiers trim_space mint budget f runs used).0 ≡ suspended e
      → is_suspension e ≡ true
  unfolding run_verifiers reserve_invocations
  run_verifiers-Suspends budget f runs used e =
      if_cases (λ (t : Tally × ℕ). t.0 ≡ suspended e → is_suspension e ≡ true)
        ((reserve_invocations budget (length runs) used).0) _ _
        (λ k h.
          tally-suspended (votes_of trim_space mint f runs) _ e
            (tally-TallyOf (votes_of trim_space mint f runs)) h)
        (λ k h. ground arith)
