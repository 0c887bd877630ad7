-- ===== src/Artifact/Load.antt =====
-- The validation of the artifacts in internal/artifact/artifact.go, on what `ReadJSON` decoded (`none`
-- where it failed). An error keeps the words of its message that do not depend on the values.
pub mod Problems
use sdlc_orchestrator.Common.{
  ℕ, ◌+◌, ltb, Bool, true, false, ◌&&◌, ◌||◌, not, List, [], ◌∷◌, Option, none, some, String,
  str_eq, has, length, is_empty, if◌then◌else◌,
}
use sdlc_orchestrator.Artifact.{
  Spec, Analysis, Verdict, Finding, Review, valid_severity, Plan, PlanStep, StepResult,
  Implementation, OpenQuestion, Problem, blocking_questions,
}

pub data Loaded {ℓ} (A : Type ℓ) : Type ℓ where
  loaded : A → Loaded A
  unreadable : Loaded A
  invalid : String → Loaded A

-- `if wrong { return nil, vErr(…) }`.
infixr 3 ◌!◌
abbrev pub ◌!◌ {ℓ} : {A : Type ℓ} → Bool × String → Loaded A → Loaded A
(true, msg) ! k = invalid msg
(false, msg) ! k = k

abbrev pub decoded {ℓ} : {A : Type ℓ} → Option A → (A → Loaded A) → Loaded A
decoded none k = unreadable
decoded (some a) k = k a

abbrev pub empty_text : String → Bool
empty_text s = str_eq s ""

unfoldable pub load_spec : Option Spec → Loaded Spec
load_spec file = decoded file λ s.
    (not (str_eq s.schema "spec/1"), "schema must be spec/1")
    ! (
      empty_text s.issue_summary || empty_text s.approach,
      "issue_summary and approach are required",
    )
    ! (is_empty s.affected_files, "affected_files must be non-empty")
    ! (is_empty s.acceptance_criteria, "acceptance_criteria must be non-empty")
    ! loaded s

-- `validClassifications`.
abbrev pub valid_classifications : List String
valid_classifications = "code_bug" ∷ "test_bug" ∷ "environment" ∷ "unknown" ∷ []

unfoldable pub load_analysis : Option Analysis → Loaded Analysis
unfolding has
load_analysis file = decoded file λ a.
    (not (str_eq a.schema "analysis/1"), "schema must be analysis/1")
    ! (not (has valid_classifications a.classification), "classification invalid")
    ! (empty_text a.reasoning, "reasoning required")
    ! loaded a

unfoldable pub bad_steps : List PlanStep → Bool
bad_steps [] = false
bad_steps (s ∷ ss) = (empty_text s.id || empty_text s.description) || bad_steps ss

unfoldable pub load_plan : Option Plan → Loaded Plan
unfolding bad_steps
load_plan file = decoded file λ p.
    (not (str_eq p.schema "plan/1"), "schema must be plan/1")
    ! (is_empty p.steps, "steps must be non-empty")
    ! (bad_steps p.steps, "id and description are required")
    ! loaded p

-- The loop over the findings stops at the first that is wrong.
unfoldable pub bad_finding : List Finding → Option String
unfolding valid_severity
bad_finding [] = none
bad_finding (f ∷ fs) =
    let rest = bad_finding fs in
    if not (valid_severity f.severity)
    then some "severity invalid"
    else if empty_text f.description
    then some "description required"
    else rest

abbrev pub or_invalid {ℓ} : {A : Type ℓ} → Option String → Loaded A → Loaded A
or_invalid none k = k
or_invalid (some msg) k = invalid msg

unfoldable pub load_review : Option Review → Loaded Review
unfolding bad_finding
load_review file = decoded file λ r.
    (not (str_eq r.schema "review/1"), "schema must be review/1")
    ! (not (has ("spec" ∷ "diff" ∷ "final" ∷ []) r.reviewed), "reviewed must be spec|diff|final")
    ! or_invalid (bad_finding r.findings) ((empty_text r.summary, "summary required") ! loaded r)

unfoldable pub bad_result : List StepResult → Option String
bad_result [] = none
bad_result (s ∷ ss) =
    let rest = bad_result ss in
    if empty_text s.id
    then some "id required"
    else if str_eq s.status "done"
    then rest
    else if str_eq s.status "skipped"
    then (if empty_text s.note then some "must have a note explaining why" else rest)
    else some "status invalid"

unfoldable pub load_implementation : Option Implementation → Loaded Implementation
unfolding bad_result
load_implementation file = decoded file λ im.
    (
      not (str_eq im.schema "implementation/1") || empty_text im.summary,
      "missing or invalid required field(s)",
    )
    ! or_invalid (bad_result im.steps_completed) (loaded im)

-- `strings.TrimSpace` of package strings.
module _ (trim_space : String → String) where
  unfoldable pub load_verdict : Option Verdict → Loaded Verdict
  load_verdict file = decoded file λ v.
      (not (str_eq v.schema "verdict/1"), "schema must be verdict/1")
      ! (not (has ("confirmed" ∷ "refuted" ∷ []) v.verdict), "verdict must be confirmed|refuted")
      ! (empty_text (trim_space v.evidence), "evidence required")
      ! (empty_text (trim_space v.reasoning), "reasoning required")
      ! loaded v

  -- The loop over the questions, with the ids seen so far.
  unfoldable pub bad_question : List String → List OpenQuestion → Option String
  unfolding has
  bad_question seen [] = none
  bad_question seen (q ∷ qs) =
      let rest = bad_question (q.id ∷ seen) qs in
      if empty_text q.id || empty_text (trim_space q.question)
      then some "id and question are required"
      else if has seen q.id
      then some "duplicate id"
      else rest

  unfoldable pub missing_field : Problem → Bool
  missing_field p =
      not (str_eq p.schema "problem/1")
      || (empty_text (trim_space p.problem_statement)
          || (is_empty p.in_scope || (is_empty p.out_of_scope || is_empty p.success_criteria)))

  unfoldable pub bad_clarity : Problem → Option String
  unfolding blocking_questions
  bad_clarity p =
      let blocking = length (blocking_questions p) in
      if str_eq p.clarity "blocked" && not (ltb 0 blocking)
      then some "clarity is blocked but no open_questions entry has blocking: true"
      else if not (str_eq p.clarity "blocked") && ltb 0 blocking
      then some "open_questions entries are blocking: true, so clarity must be blocked"
      else if str_eq p.clarity "assumed" && is_empty p.assumptions
      then some "clarity is assumed but assumptions is empty"
      else none

  unfoldable pub load_problem : Option Problem → Loaded Problem
  unfolding missing_field bad_question bad_clarity has
  load_problem file = decoded file λ p.
      (missing_field p, "missing or invalid required field(s)")
      ! (not (has ("clear" ∷ "assumed" ∷ "blocked" ∷ []) p.clarity), "clarity invalid")
      ! or_invalid (bad_question [] p.open_questions) (or_invalid (bad_clarity p) (loaded p))
