-- ===== src/Engine/Verify.antt =====
-- internal/engine/verify.go: the verify pass over the gating findings of a review. The processes, the
-- files and the clock of a verifier are the record `Ran`; what the event log gets is left out.
pub mod Names
pub mod Votes
pub mod Pass
pub mod Spent
mod Examples
use sdlc_orchestrator.Common.{
  ℕ, zero, suc, ◌+◌, ltb, Bool, true, false, ◌||◌, ◌&&◌, not, List, [], ◌∷◌, Option, none, some,
  String, str_eq, has, length, is_empty, if◌then◌else◌, ◌==◌,
}
use sdlc_orchestrator.Artifact.{Severity, Verdict, Finding, Review, blocking, apply_verdicts}
use sdlc_orchestrator.Artifact.Load.{Loaded, loaded, load_verdict}

-- `reserveInvocations`: whether the whole fan-out fits the budget, and the invocations counted then.
unfoldable pub reserve_invocations : ℕ → ℕ → ℕ → Bool × ℕ
reserve_invocations budget n used =
    if ltb budget (used + n) then (false, used) else (true, used + n)

-- The errors of `suspendErr`, with the backend, what it said and the backoff, and any other.
pub data Failure : Type 0 where
  quota : String → ℕ → Failure
  unreachable_backend : String → String → ℕ → Failure
  other_failure : String → Failure

-- `suspendErr`.
unfoldable pub is_suspension : Failure → Bool
is_suspension (other_failure s) = false
is_suspension _ = true

-- How a verifier's process ended, and the verdict file that it left; `spawned` is false too where its prompt
-- could not be rendered.
pub record Ran : Type 0 where
  pub spawned : Bool
  pub unreachable : Bool
  pub quota_hit : Bool
  pub backend : String
  pub detail : String
  pub backoff : ℕ
  pub file : Option Verdict

-- `slot`.
pub data Vote : Type 0 where
  lost : Failure → Vote
  cast : Verdict → Vote

-- What the loop over the slots returns: the suspension, or the verdicts and the dropped votes.
pub data Tally : Type 0 where
  suspended : Failure → Tally
  counted : List Verdict → List Failure → Tally

abbrev pub with_lost : Failure → Tally → Tally
with_lost e (suspended s) = suspended s
with_lost e (counted vs es) = counted vs (e ∷ es)

abbrev pub with_cast : Verdict → Tally → Tally
with_cast v (suspended s) = suspended s
with_cast v (counted vs es) = counted (v ∷ vs) es

-- The loop over the slots, which returns at the first suspension.
unfoldable pub tally : List Vote → Tally
unfolding is_suspension
tally [] = counted [] []
tally (cast v ∷ votes) = with_cast v (tally votes)
tally (lost e ∷ votes) =
    let rest = tally votes in if is_suspension e then suspended e else with_lost e rest

-- The runs of the `n` verifiers from number `i` on.
unfoldable pub fan_out : ℕ → ℕ → (ℕ → Ran) → List Ran
fan_out zero i ran = []
fan_out (suc n) i ran = ran i ∷ fan_out n (suc i) ran

-- The loop of `verifyFindings` over the gating findings, with the map `byFinding` as a list of entries.
pub data Gathered : Type 0 where
  interrupted : Failure → ℕ → Gathered
  gathered : List (String × List Verdict) → ℕ → Gathered

-- A finding without a usable verdict gets no entry, and goes on gating.
abbrev pub with_entry : String → List Verdict → Gathered → Gathered
with_entry id vs (interrupted e used) = interrupted e used
with_entry id [] (gathered by used) = gathered by used
with_entry id (v ∷ vs) (gathered by used) = gathered ((id, v ∷ vs) ∷ by) used

-- `byFinding[id]`.
unfoldable pub entry : List (String × List Verdict) → String → List Verdict
entry [] id = []
entry ((k, vs) ∷ by) id = let rest = entry by id in if str_eq k id then vs else rest

-- What `verifyFindings` leaves: the review where no pass ran; the suspension that stopped it; or the review
-- with the survivors and the downgraded, and the invocations used.
pub data Verified : Type 0 where
  no_pass : Review → Verified
  stopped : Failure → ℕ → Verified
  verified : Review → List Finding → List Finding → ℕ → Verified

unfoldable pub decide_all : Review → ℕ → Gathered → Verified
unfolding entry apply_verdicts
decide_all r min (interrupted e used) = stopped e used
decide_all r min (gathered by used) =
    let d = apply_verdicts r (entry by) min in verified (d.0) (d.1) (d.2) used

-- `strings.TrimSpace`, and `fmt.Sprintf("F%d", n)`.
module _ (trim_space : String → String) (mint : ℕ → String) where
  -- The first free name from `n` on; there is one among as many as there are names and one more.
  unfoldable pub minted : ℕ → ℕ → List String → String
  unfolding has
  minted zero n seen = mint n
  minted (suc fuel) n seen =
      let rest = minted fuel (suc n) seen in if has seen (mint n) then rest else mint n

  unfoldable pub chosen_id : List String → ℕ → Finding → String
  unfolding minted has
  chosen_id seen i f =
      let id = trim_space f.id in
      if str_eq id "" || has seen id then minted (suc (length seen)) (suc i) seen else id

  -- The loop of `normaliseFindingIDs` from position `i`.
  unfoldable pub normalise_from : List String → ℕ → List Finding → List Finding
  unfolding chosen_id
  normalise_from seen i [] = []
  normalise_from seen i (f ∷ fs) =
      record f { id = chosen_id seen i f } ∷ normalise_from (chosen_id seen i f ∷ seen) (suc i) fs

  unfoldable pub normalise_finding_ids : Review → Review
  unfolding normalise_from
  normalise_finding_ids r = record r { findings = normalise_from [] 0 r.findings }

  -- The verdict that a file holds for the finding.
  unfoldable pub read_vote : Finding → Loaded Verdict → Vote
  read_vote f (loaded v) =
      if not (str_eq v.finding_id "") && not (str_eq v.finding_id f.id)
      then lost (other_failure "verdict names another finding")
      else cast (record v { finding_id = f.id })
  read_vote f _ = lost (other_failure "no valid verdict")

  -- What one goroutine of `runVerifiers` leaves in its slot.
  unfoldable pub vote_of : Finding → Ran → Vote
  unfolding read_vote load_verdict
  vote_of f r =
      if not r.spawned
      then lost (other_failure "spawn")
      else if r.unreachable
      then lost (unreachable_backend r.backend r.detail r.backoff)
      else if r.quota_hit
      then lost (quota r.backend r.backoff)
      else read_vote f (load_verdict trim_space r.file)

  unfoldable pub votes_of : Finding → List Ran → List Vote
  unfolding vote_of
  votes_of f [] = []
  votes_of f (r ∷ rs) = vote_of f r ∷ votes_of f rs

  -- `runVerifiers` on the verifiers' runs, with the invocations used so far; the errors of the configuration
  -- and of the directories that it makes first are left out.
  unfoldable pub run_verifiers : ℕ → Finding → List Ran → ℕ → Tally × ℕ
  unfolding reserve_invocations tally votes_of
  run_verifiers budget f runs used =
      let r = reserve_invocations budget (length runs) used in
      if r.0 then (tally (votes_of f runs), r.1) else (counted [] [], used)

  unfoldable pub gather : ℕ → ℕ → (Finding → ℕ → Ran) → List Finding → ℕ → Gathered
  unfolding run_verifiers fan_out
  gather budget votes ran [] used = gathered [] used
  gather budget votes ran (f ∷ fs) used =
      let r = run_verifiers budget f (fan_out votes 0 (ran f)) used in
      let rest = gather budget votes ran fs (r.1) in
      elim (r.0) [ suspended e ↦ interrupted e (r.1) | counted vs es ↦ with_entry f.id vs rest ]

  -- `verifyFindings`; writing the verified copy is left out.
  unfoldable pub verify_findings :
      ℕ → ℕ → ℕ → (Finding → ℕ → Ran) → Severity → Review → ℕ → Verified
  unfolding normalise_finding_ids blocking gather decide_all
  verify_findings budget votes min ran threshold r used =
      let r' = normalise_finding_ids r in
      if votes == 0
      then no_pass r
      else if is_empty (blocking threshold r')
      then no_pass r'
      else decide_all r' min (gather budget votes ran (blocking threshold r') used)
