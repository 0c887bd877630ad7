-- ===== src/Engine/Verify/Examples.antt =====
-- A verify pass over a small review.
use sdlc_orchestrator.Common.{
  ℕ, zero, suc, refl, ap, sym, ◌∙◌, codes, length, ◌≡◌, ◌≤◌, true, false, List, [], ◌∷◌, none, some,
  String, arith,
}
use sdlc_orchestrator.Artifact.{major, Finding, Review}
use sdlc_orchestrator.Engine.Verify.{
  quota, Ran, Vote, lost, cast, tally, run_verifiers, normalise_finding_ids, normalise_from,
  verify_findings,
}
use sdlc_orchestrator.Engine.Verify.Names.{
  DistinctFrom, normalise_finding_ids-DistinctFrom, normalise_from_renames,
}
use sdlc_orchestrator.Engine.Verify.Votes.{TallyOf, tally-TallyOf, FannedOut, run_verifiers-IsAbout}
use sdlc_orchestrator.Engine.Verify.Pass.{PassOf, verify_findings-PassOf}

abbrev trim : String → String
trim s = s

abbrev finding : String → Finding
finding name = record {
  id = name;
  severity = major;
  file = "main.go";
  description = "leaks";
  recommendation = "close it";
  verification = none;
}

abbrev a_review : Review
a_review = record {
  schema = "review/1";
  reviewed = "diff";
  findings = finding "F1" ∷ finding "F1" ∷ finding "" ∷ [];
  summary = "three";
}

-- As many strokes as the number.
abbrev strokes : ℕ → String
strokes zero = String.[]
strokes (suc n) = String.◌∷◌ "I" (strokes n)

abbrev a_run : Ran
a_run = record {
  spawned = true;
  unreachable = false;
  quota_hit = false;
  backend = "claude";
  detail = "";
  backoff = 60;
  file = some (record {
    schema = "verdict/1";
    finding_id = "";
    verdict = "refuted";
    evidence = "e";
    reasoning = "r";
  });
}

length-strokes : (n : ℕ) → length (codes (strokes n)) ≡ n
length-strokes zero = refl
length-strokes (suc n) = ap suc (length-strokes n)

strokes_inj : (a b : ℕ) → strokes a ≡ strokes b → a ≡ b
strokes_inj a b e = sym (length-strokes a) ∙ ap (λ s. length (codes s)) e ∙ length-strokes b

normalise_finding_ids-DistinctFrom_example :
    DistinctFrom [] (Review.findings (normalise_finding_ids trim strokes a_review))
normalise_finding_ids-DistinctFrom_example =
    normalise_finding_ids-DistinctFrom trim strokes a_review strokes_inj

abbrev some_votes : List Vote
some_votes =
    cast (record {
      schema = "verdict/1";
      finding_id = "F1";
      verdict = "refuted";
      evidence = "e";
      reasoning = "r";
    })
    ∷ lost (quota "claude" 60)
    ∷ []

tally-TallyOf_example : TallyOf some_votes (tally some_votes)
tally-TallyOf_example = tally-TallyOf some_votes

run_verifiers-IsAbout_example :
    ((run_verifiers trim strokes 20 (finding "F1") (a_run ∷ a_run ∷ a_run ∷ []) 17).1 ≤ 20)
    × FannedOut trim strokes
        (finding "F1")
        (a_run ∷ a_run ∷ a_run ∷ [])
        false
        ((run_verifiers trim strokes 20 (finding "F1") (a_run ∷ a_run ∷ a_run ∷ []) 17).0)
run_verifiers-IsAbout_example =
    run_verifiers-IsAbout trim strokes 20 (finding "F1") (a_run ∷ a_run ∷ a_run ∷ []) 17
      (omega arith)

verify_findings-PassOf_example :
    PassOf 20 a_review
      (normalise_finding_ids trim strokes a_review)
      (verify_findings trim strokes 20 3 2 (λ f i. a_run) major a_review 4)
verify_findings-PassOf_example =
    verify_findings-PassOf trim strokes 20 3 2 (λ f i. a_run) major a_review 4 (omega arith)

normalise_from_renames_example :
    normalise_from trim strokes [] 0 (finding "" ∷ finding "I" ∷ [])
    ≡ finding "I" ∷ finding "II" ∷ []
normalise_from_renames_example =
    normalise_from_renames trim strokes (finding "") (finding "I") strokes_inj refl refl
