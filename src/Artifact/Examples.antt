-- ===== src/Artifact/Examples.antt =====
-- Runs of the models of internal/artifact at small inputs.
use sdlc_orchestrator.Common.{
  ◌≡◌, ◌<◌, ◌↔◌, refl, Bool, true, false, List, [], ◌∷◌, none, some, String, str_eq, length, arith,
  if◌then◌else◌,
}
use sdlc_orchestrator.Artifact.{
  threshold_rank, nit, major, Verdict, Finding, Review, blocking, apply_verdicts, at_least_one,
  OpenQuestion, Problem, blocking_questions,
}
use sdlc_orchestrator.Artifact.Verdicts.{
  ids, upheld_blocking, blocking-apply_verdicts, refuted_still_gates, Recorded,
  apply_verdicts-Recorded,
}
use sdlc_orchestrator.Artifact.Load.{loaded, load_problem}
use sdlc_orchestrator.Artifact.Load.Problems.{DistinctIds, load_problem-IsConsistent}

abbrev finding : String → Finding
finding name = record {
  id = name;
  severity = major;
  file = "main.go";
  description = "leaks";
  recommendation = "close it";
  verification = none;
}

abbrev a_review : Review
a_review = record {
  schema = "review/1";
  reviewed = "diff";
  findings = finding "F1" ∷ finding "F2" ∷ finding "F3" ∷ [];
  summary = "three";
}

abbrev vote : String → Verdict
vote v = record {
  schema = "verdict/1";
  finding_id = "F";
  verdict = v;
  evidence = "e";
  reasoning = "r";
}

-- The first finding is confirmed, the second refuted, the third gets no verdict.
abbrev votes_of : String → List Verdict
votes_of name =
    if str_eq name "F1"
    then vote "confirmed" ∷ []
    else if str_eq name "F2"
    then vote "refuted" ∷ []
    else []

blocking-apply_verdicts_example :
    ids (blocking major ((apply_verdicts a_review votes_of 1).0))
    ≡ ids (upheld_blocking major votes_of (at_least_one 1) a_review.findings)
unfolding threshold_rank
blocking-apply_verdicts_example = blocking-apply_verdicts major a_review votes_of 1 (omega arith)

refuted_still_gates_example :
    ids (blocking nit ((apply_verdicts a_review votes_of 1).0)) ≡ ids a_review.findings
unfolding threshold_rank
refuted_still_gates_example = refuted_still_gates nit a_review votes_of 1 refl

apply_verdicts-Recorded_example :
    Recorded votes_of a_review.findings (Review.findings ((apply_verdicts a_review votes_of 1).0))
apply_verdicts-Recorded_example = apply_verdicts-Recorded a_review votes_of 1

abbrev question : String → Bool → OpenQuestion
question name stops = record {
  id = name;
  question = "which?";
  why_it_matters = "scope";
  blocking = stops;
}

abbrev a_problem : Problem
a_problem = record {
  schema = "problem/1";
  problem_statement = "slow";
  in_scope = "query" ∷ [];
  out_of_scope = "cache" ∷ [];
  success_criteria = "fast" ∷ [];
  assumptions = [];
  open_questions = question "Q1" true ∷ question "Q2" false ∷ [];
  clarity = "blocked";
}

loads : load_problem (λ s. s) (some a_problem) ≡ loaded a_problem
unfolding load_problem
loads = refl

load_problem-IsConsistent_example :
    (a_problem ≡ a_problem)
    × ((str_eq a_problem.clarity "blocked" ≡ true) ↔ (0 < length (blocking_questions a_problem)))
    × DistinctIds [] a_problem.open_questions
load_problem-IsConsistent_example = load_problem-IsConsistent (λ s. s) a_problem a_problem loads
