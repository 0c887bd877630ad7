-- ===== src/Engine/Verify/Pass.antt =====
-- The verify pass as a whole: the budget, the suspensions and the findings it leaves.
use sdlc_orchestrator.Common.{
  ℕ, ◌≡◌, ◌≤◌, refl, true, List, [], ◌∷◌, String, if_cases, is_empty, ◌==◌, ◌⊎◌, inl, inr,
}
use sdlc_orchestrator.Artifact.{
  Severity, Verdict, Finding, Review, blocking, apply_verdicts, at_least_one,
}
use sdlc_orchestrator.Artifact.Verdicts.{ids, ids-judge_all}
use sdlc_orchestrator.Engine.Verify.{
  Failure, is_suspension, Ran, Tally, suspended, counted, run_verifiers, fan_out, Gathered,
  interrupted, gathered, with_entry, gather, entry, Verified, no_pass, stopped, verified,
  decide_all, normalise_finding_ids, verify_findings,
}
use sdlc_orchestrator.Engine.Verify.Votes.{run_verifiers-IsAbout, run_verifiers-Suspends}

-- Within the budget, and stopped only for a quota or a backend that cannot be reached.
abbrev GatheredWithin : ℕ → Gathered → Type 0
GatheredWithin budget (interrupted e used) = (is_suspension e ≡ true) × (used ≤ budget)
GatheredWithin budget (gathered by used) = used ≤ budget

with_entry-GatheredWithin :
    (budget : ℕ) (id : String) (vs : List Verdict) (g : Gathered)
    → GatheredWithin budget g
    → GatheredWithin budget (with_entry id vs g)
with_entry-GatheredWithin budget id vs (interrupted e used) h = h
with_entry-GatheredWithin budget id [] (gathered by used) h = h
with_entry-GatheredWithin budget id (v ∷ vs) (gathered by used) h = h

on_tally :
    (budget used : ℕ) (id : String) (t : Tally) (rest : Gathered)
    → used ≤ budget
    → ((e : Failure) → t ≡ suspended e → is_suspension e ≡ true)
    → GatheredWithin budget rest
    → GatheredWithin budget
        (elim t [ suspended e ↦ interrupted e used | counted vs es ↦ with_entry id vs rest ])
on_tally budget used id (suspended e) rest within sus h = (sus e refl, within)
on_tally budget used id (counted vs es) rest within sus h =
    with_entry-GatheredWithin budget id vs rest h

-- What a verify pass may leave of a review: at most its budget is used; it is stopped only by a suspension;
-- and where it decides, it keeps every finding, in its order.
abbrev pub PassOf : ℕ → Review → Review → Verified → Type 0
PassOf budget r named (no_pass r') = ids r'.findings ≡ ids r.findings ⊎ (r' ≡ named)
PassOf budget r named (stopped e used) = (is_suspension e ≡ true) × (used ≤ budget)
PassOf budget r named (verified r' s d used) =
    (ids r'.findings ≡ ids named.findings) × (used ≤ budget)

decide_all-PassOf :
    (budget : ℕ) (r named : Review) (min : ℕ) (g : Gathered)
    → GatheredWithin budget g
    → PassOf budget r named (decide_all named min g)
unfolding decide_all apply_verdicts
decide_all-PassOf budget r named min (interrupted e used) h = h
decide_all-PassOf budget r named min (gathered by used) h =
    (ids-judge_all (entry by) (at_least_one min) named.findings, h)

module _ (trim_space : String → String) (mint : ℕ → String) where
  gather-GatheredWithin :
      (budget votes : ℕ) (ran : Finding → ℕ → Ran) (fs : List Finding) (used : ℕ)
      → used ≤ budget
      → GatheredWithin budget (gather trim_space mint budget votes ran fs used)
  unfolding gather
  gather-GatheredWithin budget votes ran [] used h = h
  gather-GatheredWithin budget votes ran (f ∷ fs) used h =
      let r = run_verifiers trim_space mint budget f (fan_out votes 0 (ran f)) used in
      let within =
        (run_verifiers-IsAbout trim_space mint budget f (fan_out votes 0 (ran f)) used h).0 in
      on_tally budget (r.1) f.id (r.0) (gather trim_space mint budget votes ran fs (r.1)) within
        (run_verifiers-Suspends trim_space mint budget f (fan_out votes 0 (ran f)) used)
        (gather-GatheredWithin budget votes ran fs (r.1) within)

  -- A verify pass never pushes a job over its budget of invocations; it is interrupted only by a quota or an
  -- unreachable backend; and where it decides, every finding of the review, with the id that the
  -- normalisation gave it, is still there in its place.
  pub verify_findings-PassOf :
      (budget votes min : ℕ) (ran : Finding → ℕ → Ran) (threshold : Severity) (r : Review)
      (used : ℕ)
      → used ≤ budget
      → PassOf budget r
          (normalise_finding_ids trim_space mint r)
          (verify_findings trim_space mint budget votes min ran threshold r used)
  unfolding verify_findings
  verify_findings-PassOf budget votes min ran threshold r used h =
      let named = normalise_finding_ids trim_space mint r in
      if_cases (PassOf budget r named) (votes == 0) _ _ (λ e. inl refl)
        (λ e.
          if_cases (PassOf budget r named) (is_empty (blocking threshold named)) _ _
            (λ e'. inr refl)
            (λ e'.
              decide_all-PassOf budget r named min _
                (gather-GatheredWithin budget votes ran (blocking threshold named) used h)))
