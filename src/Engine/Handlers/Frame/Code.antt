-- ===== src/Engine/Handlers/Frame/Code.antt =====
-- The frames of the handlers that write and review code; internal/engine/handlers.go.
use sdlc_orchestrator.Common.{ℕ, List, String, Bytes, Option, none, some}
use sdlc_orchestrator.Engine.Guard.{Glob}
use sdlc_orchestrator.Artifact.{Plan, Implementation}
use sdlc_orchestrator.Engine.Rules.{Rules}
use sdlc_orchestrator.Engine.Bench.Frame.{Frame, Keeps}
use sdlc_orchestrator.Engine.Handlers.Frame.{calm, calms}
use sdlc_orchestrator.Engine.Handlers.Code.{
  claims_true, implementation_valid, note_skipped, implementing_done, handle_implementing,
  to_fixing, code_blocked, code_cleared, stage_diff_patch, handle_code_review, fix_valid,
  fix_discarded, or_bad_glob, fix_checked, fix_kept, fix_judged, handle_fixing, handle_final_review,
}

module _ (rules : Rules) where
  module _ (trim_path : Bytes → Bytes) where
    pub implementation_valid-Keeps :
        (fr : Frame) (plan : Plan) → Keeps fr (implementation_valid rules trim_path plan)
    unfolding implementation_valid claims_true
    implementation_valid-Keeps fr plan = search calms depth 40

    pub implementing_done-calm :
        (im : Implementation) → Keeps (calm rules) (implementing_done rules trim_path im)
    unfolding implementing_done note_skipped
    implementing_done-calm im = search calms depth 40

    pub handle_implementing-calm : Keeps (calm rules) (handle_implementing rules trim_path)
    unfolding handle_implementing
    handle_implementing-calm =
        search (calms, implementation_valid-Keeps, implementing_done-calm) depth 60

  pub to_fixing-calm : (source : String) → Keeps (calm rules) (to_fixing rules source)
  unfolding to_fixing
  to_fixing-calm source = search calms depth 40

  pub stage_diff_patch-Keeps : (fr : Frame) → Keeps fr stage_diff_patch
  unfolding stage_diff_patch
  stage_diff_patch-Keeps fr = search calms depth 20

  pub code_cleared-calm : Keeps (calm rules) (code_cleared rules)
  unfolding code_cleared
  code_cleared-calm = search calms depth 40

  pub code_blocked-calm : (round : ℕ) → Keeps (calm rules) (code_blocked rules round)
  unfolding code_blocked
  code_blocked-calm round = search (calms, to_fixing-calm) depth 40

  pub handle_code_review-calm : Keeps (calm rules) (handle_code_review rules)
  unfolding handle_code_review
  handle_code_review-calm =
      search (calms, code_cleared-calm, code_blocked-calm, stage_diff_patch-Keeps) depth 60

  pub fix_valid-Keeps : (fr : Frame) → Keeps fr fix_valid
  unfolding fix_valid
  fix_valid-Keeps fr = search calms depth 20

  or_bad_glob-calm : (globs : Option (List Glob)) → Keeps (calm rules) (or_bad_glob globs)
  unfolding or_bad_glob
  or_bad_glob-calm none = search calms
  or_bad_glob-calm (some gs) = search calms

  pub fix_judged-calm :
      (head classification : String) (changed : List String)
      → Keeps (calm rules) (fix_judged rules head classification changed)
  unfolding fix_judged fix_checked fix_kept fix_discarded
  fix_judged-calm head classification changed = search (calms, or_bad_glob-calm) depth 40

  pub handle_fixing-calm : Keeps (calm rules) (handle_fixing rules)
  unfolding handle_fixing
  handle_fixing-calm = search (calms, fix_valid-Keeps, fix_judged-calm) depth 60

  pub handle_final_review-calm : Keeps (calm rules) (handle_final_review rules)
  unfolding handle_final_review
  handle_final_review-calm = search (calms, to_fixing-calm, stage_diff_patch-Keeps) depth 60
