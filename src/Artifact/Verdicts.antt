-- ===== src/Artifact/Verdicts.antt =====
-- What the verify pass of internal/artifact/artifact.go does to the gate.
use sdlc_orchestrator.Common.{
  ℕ, ◌+◌, ◌≤◌, ◌<◌, ◌≡◌, refl, ap, ◌∙◌, leb, Bool, true, ◌&&◌, List, [], ◌∷◌, some, String, arith,
  length, select, if◌then◌else◌, if_cases,
}
use sdlc_orchestrator.Artifact.{
  Severity, nit, rank, threshold_rank, gates, Verdict, count_confirmed, Verification, Finding,
  Review, blocking, Judgement, at_least_one, annotated, judge, judge_all, firsts, apply_verdicts,
}

abbrev pub ids : List Finding → List String
ids [] = []
ids (f ∷ fs) = f.id ∷ ids fs

-- A finding that nobody voted on, or that enough verifiers confirmed.
abbrev pub upheld : ℕ → List Verdict → Bool
upheld min [] = true
upheld min (v ∷ vs) = leb min (count_confirmed (v ∷ vs))

judge_id : (min : ℕ) (vs : List Verdict) (f : Finding) → (judge min vs f).0.id ≡ f.id
unfolding judge annotated
judge_id min [] f = refl
judge_id min (v ∷ vs) f = ground arith

-- Above the lowest threshold a finding gates after its vote exactly if it did before and was upheld.
gates-judge :
    (t : Severity) (min : ℕ) (vs : List Verdict) (f : Finding)
    → 0 < threshold_rank t
    → gates t (judge min vs f).0 ≡ (gates t f && upheld min vs)
unfolding judge annotated gates rank
gates-judge t min [] f h = ground arith
gates-judge t min (v ∷ vs) f h = ground arith

-- The findings that a review gates on before the vote and that the vote upholds.
abbrev pub upheld_blocking : Severity → (String → List Verdict) → ℕ → List Finding → List Finding
upheld_blocking t by min = select (λ f. gates t f && upheld min (by f.id))

blocking-judge_all :
    (t : Severity) (by : String → List Verdict) (min : ℕ) (fs : List Finding)
    → 0 < threshold_rank t
    → ids (select (gates t) (firsts (judge_all by min fs))) ≡ ids (upheld_blocking t by min fs)
unfolding judge_all
blocking-judge_all t by min [] h = refl
blocking-judge_all t by min (f ∷ fs) h =
    ground (
      arith,
      blocking-judge_all t by min fs,
      gates-judge t min (by f.id) f,
      judge_id min (by f.id) f,
    )

pub ids-judge_all :
    (by : String → List Verdict) (min : ℕ) (fs : List Finding)
    → ids (firsts (judge_all by min fs)) ≡ ids fs
unfolding judge_all
ids-judge_all by min [] = refl
ids-judge_all by min (f ∷ fs) = cc (ids-judge_all by min fs, judge_id min (by f.id) f)

-- With a threshold above the lowest severity, the findings that gate after the verify pass are, in
-- their order, those that gated before it and that either got no verdict or were confirmed by at
-- least `min` verifiers, and by at least one.
pub blocking-apply_verdicts :
    (t : Severity) (r : Review) (by : String → List Verdict) (min : ℕ)
    → 0 < threshold_rank t
    → ids (blocking t (apply_verdicts r by min).0)
      ≡ ids (upheld_blocking t by (at_least_one min) r.findings)
unfolding blocking apply_verdicts
blocking-apply_verdicts t r by min h = blocking-judge_all t by (at_least_one min) r.findings h

select_all_gates :
    (t : Severity) (fs : List Finding) → threshold_rank t ≡ 0 → select (gates t) fs ≡ fs
unfolding gates
select_all_gates t [] h = refl
select_all_gates t (f ∷ fs) h = ground (arith, select_all_gates t fs)

-- With the lowest severity as the threshold the verify pass changes nothing about the gate: every
-- finding of the review gates after it, the refuted ones too.
pub refuted_still_gates :
    (t : Severity) (r : Review) (by : String → List Verdict) (min : ℕ)
    → threshold_rank t ≡ 0
    → ids (blocking t (apply_verdicts r by min).0) ≡ ids r.findings
unfolding blocking apply_verdicts
refuted_still_gates t r by min h =
    ap ids (select_all_gates t (firsts (judge_all by (at_least_one min) r.findings)) h)
    ∙ ids-judge_all by (at_least_one min) r.findings

-- What a finding's verdicts leave of it: none leave it untouched.
abbrev pub RecordedAs : List Verdict → Finding → Finding → Type 0
RecordedAs [] f g = g ≡ f
RecordedAs (x ∷ xs) f g =
    (g.id ≡ f.id)
    × ((v : Verification) × (g.verification ≡ some v)
        × (v.verdicts ≡ x ∷ xs)
        × (v.original_severity ≡ f.severity)
        × (v.confirmed + v.refuted ≡ v.votes)
        × (g.severity ≡ (if v.survived then f.severity else nit)))

-- What it leaves of a list, place by place.
abbrev pub Recorded : (String → List Verdict) → List Finding → List Finding → Type 0
Recorded by [] [] = Unit
Recorded by [] (g ∷ gs) = ⊥
Recorded by (f ∷ fs) [] = ⊥
Recorded by (f ∷ fs) (g ∷ gs) = RecordedAs (by f.id) f g × Recorded by fs gs

count_le : (vs : List Verdict) → count_confirmed vs ≤ length vs
unfolding count_confirmed
count_le [] = ground arith
count_le (v ∷ vs) = ground (arith, count_le vs)

judge-Recorded : (min : ℕ) (f : Finding) (vs : List Verdict) → RecordedAs vs f ((judge min vs f).0)
unfolding judge annotated
judge-Recorded min f [] = refl
judge-Recorded min f (v ∷ vs) =
    if_cases (λ (r : Finding × Judgement). RecordedAs (v ∷ vs) f (r.0))
      (leb min (count_confirmed (v ∷ vs))) _ _
      (λ h. (refl, (_, refl, refl, refl, ground (arith, count_le (v ∷ vs)), rw h refl)))
      (λ h. (refl, (_, refl, refl, refl, ground (arith, count_le (v ∷ vs)), rw h refl)))

judge_all-Recorded :
    (by : String → List Verdict) (min : ℕ) (fs : List Finding)
    → Recorded by fs (firsts (judge_all by min fs))
unfolding judge_all
judge_all-Recorded by min [] = tt
judge_all-Recorded by min (f ∷ fs) = (judge-Recorded min f (by f.id), judge_all-Recorded by min fs)

-- The verify pass deletes no finding: each keeps its place and its id; one without a verdict is left exactly as
-- it was; any other records all its verdicts, votes that add up and its first severity, and has that severity
-- exactly where it survived and the lowest one where it did not.
pub apply_verdicts-Recorded :
    (r : Review) (by : String → List Verdict) (min : ℕ)
    → Recorded by r.findings (Review.findings ((apply_verdicts r by min).0))
unfolding apply_verdicts
apply_verdicts-Recorded r by min = judge_all-Recorded by (at_least_one min) r.findings
