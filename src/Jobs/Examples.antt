-- ===== src/Jobs/Examples.antt =====
-- A submission.
use sdlc_orchestrator.Common.{◌≡◌, refl, true, [], ◌∷◌, ◌++◌, some, Bytes, codes}
use sdlc_orchestrator.Jobs.{Request, Outside, submit, title_and_body}
use sdlc_orchestrator.Jobs.Heading.{title_and_body-heading}
use sdlc_orchestrator.Jobs.Accepted.{SoundOr, submit-SoundOr}

abbrev as_is : Bytes → Bytes
as_is s = s

abbrev a_place : Outside
a_place = record {
  trim_space = as_is;
  runes = λ s. s;
  join = λ d s. d ++ s;
  find_target = λ s. some (record { branch_prefix = codes "sdlc/"; worktrees_dir = codes "/w/" });
  next_job_id = some (codes "JOB-1");
  creates = λ j. true;
}

abbrev a_request : Request
a_request = record { target = codes "app"; title = codes "Fix it"; body = [] }

submit-SoundOr_example : SoundOr a_place a_request (submit a_place a_request)
submit-SoundOr_example = submit-SoundOr a_place a_request (λ s. refl)

title_and_body-heading_example :
    title_and_body as_is [] (codes "## Fix it" ++ (10 ∷ codes "It leaks."))
    ≡ (codes " Fix it", codes "It leaks.")
title_and_body-heading_example =
    title_and_body-heading as_is 2 (codes "Fix it") (codes "It leaks.")
      (refl, (refl, (refl, (refl, (refl, (refl, tt)))))) refl
