-- ===== src/Engine/Verify/Spent.antt =====
-- The invocations that a verify pass leaves counted; internal/engine/verify.go.
use sdlc_orchestrator.Common.{
  ℕ, ◌≤◌, Bool, true, false, List, [], ◌∷◌, String, if_both, is_empty, ◌==◌, arith, ltb, ◌+◌,
  length,
}
use sdlc_orchestrator.Artifact.{Severity, Verdict, Finding, Review, blocking, apply_verdicts}
use sdlc_orchestrator.Engine.Verify.{
  Ran, Tally, suspended, counted, run_verifiers, reserve_invocations, fan_out, Gathered,
  interrupted, gathered, with_entry, gather, Verified, no_pass, stopped, verified, decide_all,
  normalise_finding_ids, verify_findings,
}
use sdlc_orchestrator.Engine.Verify.Pass.{PassOf, verify_findings-PassOf}

abbrev GatheredFrom : ℕ → Gathered → Type 0
GatheredFrom n (interrupted e used) = n ≤ used
GatheredFrom n (gathered by used) = n ≤ used

-- A pass takes no invocation back, and within the budget it stays there.
abbrev pub SpentFrom : ℕ → ℕ → Verified → Type 0
SpentFrom budget n (no_pass r) = Unit {0}
SpentFrom budget n (stopped e used) = (n ≤ used) × (n ≤ budget → used ≤ budget)
SpentFrom budget n (verified r survivors downgraded used) =
    (n ≤ used) × (n ≤ budget → used ≤ budget)

abbrev From : ℕ → Verified → Type 0
From n (no_pass r) = Unit {0}
From n (stopped e used) = n ≤ used
From n (verified r survivors downgraded used) = n ≤ used

with_entry-GatheredFrom :
    (n : ℕ) (id : String) (vs : List Verdict) (g : Gathered)
    → GatheredFrom n g
    → GatheredFrom n (with_entry id vs g)
with_entry-GatheredFrom n id vs (interrupted e used) h = h
with_entry-GatheredFrom n id [] (gathered by used) h = h
with_entry-GatheredFrom n id (v ∷ vs) (gathered by used) h = h

GatheredFrom-le : (m n : ℕ) (g : Gathered) → m ≤ n → GatheredFrom n g → GatheredFrom m g
GatheredFrom-le m n (interrupted e used) le h = omega arith
GatheredFrom-le m n (gathered by used) le h = omega arith

on_tally-From :
    (m n : ℕ) (id : String) (t : Tally) (rest : Gathered)
    → m ≤ n
    → GatheredFrom n rest
    → GatheredFrom m
        (elim t [ suspended e ↦ interrupted e n | counted vs es ↦ with_entry id vs rest ])
on_tally-From m n id (suspended e) rest le h = le
on_tally-From m n id (counted vs es) rest le h =
    with_entry-GatheredFrom m id vs rest (GatheredFrom-le m n rest le h)

decide_all-From :
    (n : ℕ) (r : Review) (min : ℕ) (g : Gathered) → GatheredFrom n g → From n (decide_all r min g)
unfolding decide_all apply_verdicts
decide_all-From n r min (interrupted e used) h = h
decide_all-From n r min (gathered by used) h = h

module _ (trim_space : String → String) (mint : ℕ → String) where
  run_verifiers-le :
      (budget : ℕ) (f : Finding) (runs : List Ran) (used : ℕ)
      → used ≤ (run_verifiers trim_space mint budget f runs used).1
  unfolding run_verifiers reserve_invocations
  run_verifiers-le budget f runs used =
      if_both (λ (x : Tally × ℕ). used ≤ x.1) _ _ (counted [] [], used)
        (if_both (λ (x : Bool × ℕ). used ≤ x.1) (ltb budget (used + length runs)) (false, used)
          (true, used + length runs) (omega arith) (omega arith))
        (omega arith)

  gather-From :
      (budget votes : ℕ) (ran : Finding → ℕ → Ran) (fs : List Finding) (used : ℕ)
      → GatheredFrom used (gather trim_space mint budget votes ran fs used)
  unfolding gather
  gather-From budget votes ran [] used = omega arith
  gather-From budget votes ran (f ∷ fs) used =
      let r = run_verifiers trim_space mint budget f (fan_out votes 0 (ran f)) used in
      on_tally-From used (r.1) f.id (r.0) (gather trim_space mint budget votes ran fs (r.1))
        (run_verifiers-le budget f (fan_out votes 0 (ran f)) used)
        (gather-From budget votes ran fs (r.1))

  verify_findings-From :
      (budget votes min : ℕ) (ran : Finding → ℕ → Ran) (threshold : Severity) (r : Review)
      (used : ℕ)
      → From used (verify_findings trim_space mint budget votes min ran threshold r used)
  unfolding verify_findings
  verify_findings-From budget votes min ran threshold r used =
      let r' = normalise_finding_ids trim_space mint r in
      if_both (From used) (votes == 0) _ _ tt (
        if_both (From used) (is_empty (blocking threshold r')) _ _ tt (
          decide_all-From used r' min
            (gather trim_space mint budget votes ran (blocking threshold r') used)
            (gather-From budget votes ran (blocking threshold r') used)))

  both-SpentFrom :
      (budget n : ℕ) (r named : Review) (v : Verified)
      → From n v
      → (n ≤ budget → PassOf budget r named v)
      → SpentFrom budget n v
  both-SpentFrom budget n r named (no_pass x) h k = tt
  both-SpentFrom budget n r named (stopped e used) h k = (h, λ l. (k l).1)
  both-SpentFrom budget n r named (verified x s d used) h k = (h, λ l. (k l).1)

  pub verify_findings-SpentFrom :
      (budget votes min : ℕ) (ran : Finding → ℕ → Ran) (threshold : Severity) (r : Review)
      (used : ℕ)
      → SpentFrom budget used
          (verify_findings trim_space mint budget votes min ran threshold r used)
  verify_findings-SpentFrom budget votes min ran threshold r used =
      both-SpentFrom budget used r (normalise_finding_ids trim_space mint r)
        (verify_findings trim_space mint budget votes min ran threshold r used)
        (verify_findings-From budget votes min ran threshold r used)
        (λ h. verify_findings-PassOf trim_space mint budget votes min ran threshold r used h)
