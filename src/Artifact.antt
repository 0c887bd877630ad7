-- ===== src/Artifact.antt =====
-- internal/artifact/artifact.go: the artifacts that the states exchange, the gate on a review and the
-- verdicts of the verify pass.
pub mod Verdicts
pub mod Load
mod Examples
use sdlc_orchestrator.Common.{
  ℕ, ◌+◌, ◌-◌, ltb, leb, Bool, true, false, List, [], ◌∷◌, ◌++◌, Option, none, some, String, str_eq,
  has, length, select, is_empty, if◌then◌else◌,
}

-- A severity is a string in Go: `unknown` is one that is no constant.
pub data Severity : Type 0 where
  nit minor major blocker : Severity
  unknown : String → Severity

-- `SeverityRank[s]`; a key that is not in the map reads as 0.
unfoldable pub rank : Severity → ℕ
rank nit = 0
rank minor = 1
rank major = 2
rank blocker = 3
rank (unknown s) = 0

unfoldable pub valid_severity : Severity → Bool
valid_severity (unknown s) = false
valid_severity s = true

pub record Verdict : Type 0 where
  pub schema : String
  pub finding_id : String
  pub verdict : String
  pub evidence : String
  pub reasoning : String

unfoldable pub confirmed : Verdict → Bool
confirmed v = str_eq v.verdict "confirmed"

pub record Verification : Type 0 where
  pub votes : ℕ
  pub confirmed : ℕ
  pub refuted : ℕ
  pub min_confirm : ℕ
  pub survived : Bool
  pub original_severity : Severity
  pub verdicts : List Verdict

pub record Finding : Type 0 where
  pub id : String
  pub severity : Severity
  pub file : String
  pub description : String
  pub recommendation : String
  pub verification : Option Verification

pub record Review : Type 0 where
  pub schema : String
  pub reviewed : String
  pub findings : List Finding
  pub summary : String

-- The rank that a threshold asks for; an unknown one falls back to blocker.
unfoldable pub threshold_rank : Severity → ℕ
unfolding rank
threshold_rank (unknown s) = rank blocker
threshold_rank s = rank s

unfoldable pub gates : Severity → Finding → Bool
unfolding rank threshold_rank
gates threshold f = leb (threshold_rank threshold) (rank f.severity)

unfoldable pub blocking : Severity → Review → List Finding
unfolding gates
blocking threshold r = select (gates threshold) r.findings

-- How many verdicts confirm.
unfoldable pub count_confirmed : List Verdict → ℕ
unfolding confirmed
count_confirmed [] = 0
count_confirmed (v ∷ vs) = (if confirmed v then 1 else 0) + count_confirmed vs

-- What `ApplyVerdicts` does to one finding.
pub data Judgement : Type 0 where
  untouched survived downgraded : Judgement

unfoldable pub at_least_one : ℕ → ℕ
at_least_one n = if ltb n 1 then 1 else n

unfoldable pub annotated : ℕ → List Verdict → Finding → Finding
unfolding count_confirmed
annotated min vs f = record f {
  verification = some (record {
    votes = length vs;
    confirmed = count_confirmed vs;
    refuted = length vs - count_confirmed vs;
    min_confirm = min;
    survived = leb min (count_confirmed vs);
    original_severity = f.severity;
    verdicts = vs;
  });
}

unfoldable pub judge : ℕ → List Verdict → Finding → Finding × Judgement
unfolding annotated count_confirmed
judge min [] f = (f, untouched)
judge min (v ∷ vs) f =
    if leb min (count_confirmed (v ∷ vs))
    then (annotated min (v ∷ vs) f, survived)
    else (record (annotated min (v ∷ vs) f) { severity = nit }, downgraded)

-- `byFinding` is a map: the empty list where it has no entry.
unfoldable pub judge_all : (String → List Verdict) → ℕ → List Finding → List (Finding × Judgement)
unfolding judge
judge_all by min [] = []
judge_all by min (f ∷ fs) = judge min (by f.id) f ∷ judge_all by min fs

unfoldable pub is_survived : Finding × Judgement → Bool
is_survived (f, survived) = true
is_survived (f, _) = false

unfoldable pub is_downgraded : Finding × Judgement → Bool
is_downgraded (f, downgraded) = true
is_downgraded (f, _) = false

abbrev pub firsts : List (Finding × Judgement) → List Finding
firsts [] = []
firsts ((f, j) ∷ js) = f ∷ firsts js

-- The review as it is left, the surviving findings and the downgraded ones.
unfoldable pub apply_verdicts :
    Review → (String → List Verdict) → ℕ → Review × List Finding × List Finding
unfolding judge_all at_least_one is_survived is_downgraded
apply_verdicts r by min =
    let js = judge_all by (at_least_one min) r.findings in
    (
      record r { findings = firsts js },
      firsts (select is_survived js),
      firsts (select is_downgraded js),
    )

pub record PlanStep : Type 0 where
  pub id : String
  pub description : String
  pub files : List String
  pub verification : String

pub record Plan : Type 0 where
  pub schema : String
  pub steps : List PlanStep
  pub risks : List String

pub record StepResult : Type 0 where
  pub id : String
  pub status : String
  pub note : String

pub record Implementation : Type 0 where
  pub schema : String
  pub summary : String
  pub files_changed : List String
  pub tests_added_or_changed : List String
  pub steps_completed : List StepResult
  pub test_change_requested : Option String

abbrev pub result_ids : List StepResult → List String
result_ids [] = []
result_ids (s ∷ ss) = s.id ∷ result_ids ss

unfoldable pub missing_from : List String → List PlanStep → List String
unfolding has
missing_from seen [] = []
missing_from seen (s ∷ ss) =
    let rest = missing_from seen ss in if has seen s.id then rest else s.id ∷ rest

unfoldable pub check_step_coverage : Implementation → Plan → List String
unfolding missing_from
check_step_coverage im p = missing_from (result_ids im.steps_completed) p.steps

unfoldable pub skipped_steps : Implementation → List StepResult
skipped_steps im = select (λ s. str_eq s.status "skipped") im.steps_completed

pub record OpenQuestion : Type 0 where
  pub id : String
  pub question : String
  pub why_it_matters : String
  pub blocking : Bool

pub record Assumption : Type 0 where
  pub assumption : String
  pub basis : String

pub record Problem : Type 0 where
  pub schema : String
  pub problem_statement : String
  pub in_scope : List String
  pub out_of_scope : List String
  pub success_criteria : List String
  pub assumptions : List Assumption
  pub open_questions : List OpenQuestion
  pub clarity : String

unfoldable pub blocking_questions : Problem → List OpenQuestion
blocking_questions p = select (λ q. q.blocking) p.open_questions

pub record Spec : Type 0 where
  pub schema : String
  pub issue_summary : String
  pub approach : String
  pub affected_files : List String
  pub acceptance_criteria : List String
  pub error_paths : List String
  pub out_of_scope : List String
  pub compatibility_concerns : List String

pub record Analysis : Type 0 where
  pub schema : String
  pub classification : String
  pub reasoning : String
  pub failing_targets : List String
  pub fix_hint : String
