-- ===== src/Engine/Handlers/Frame/Phases.antt =====
-- The frames of the handlers that run commands, and of the analysis; internal/engine/handlers.go.
use sdlc_orchestrator.Common.{ℕ, zero, suc, List, [], ◌∷◌, Option, none, some, String}
use sdlc_orchestrator.Artifact.{Analysis}
use sdlc_orchestrator.Engine.States.{State}
use sdlc_orchestrator.Engine.Rules.{Rules}
use sdlc_orchestrator.Engine.Bench.{with_job}
use sdlc_orchestrator.Engine.Bench.Frame.{Frame, Keeps}
use sdlc_orchestrator.Engine.Handlers.Frame.{calm, calms}
use sdlc_orchestrator.Engine.Handlers.Phases.{
  fail_to, build_all, build_list, handle_building, wait_for_device, no_device, ui_on, on_device,
  test_ui, test_lint, handle_testing, rerun, flaky, count_passes, leased, lease_for, rerun_phase,
  handle_flake_check, analysis_valid, fix_analysed, act_on, handle_analyzing,
}

module _ (rules : Rules) where
  fail_to-calm : (phase log : String) (s : State) → Keeps (calm rules) (fail_to phase log s)
  unfolding fail_to
  fail_to-calm phase log s = search calms depth 20

  build_all-calm : (cmds : List (List String)) → Keeps (calm rules) (build_all cmds)
  unfolding build_all
  build_all-calm [] = search calms
  build_all-calm (argv ∷ cmds) =
      let h = build_all-calm cmds in search (calms, h, fail_to-calm) depth 20

  pub handle_building-calm : Keeps (calm rules) (handle_building rules)
  unfolding handle_building
  handle_building-calm = build_all-calm (build_list rules)

  no_device-calm : (policy : String) → Keeps (calm rules) (no_device policy)
  unfolding no_device wait_for_device with_job
  no_device-calm policy = search (calms, fail_to-calm) depth 40

  on_device-calm : (d : Option String) → Keeps (calm rules) (on_device rules d)
  unfolding on_device ui_on
  on_device-calm none = no_device-calm rules.on_no_device
  on_device-calm (some serial) = search (calms, fail_to-calm) depth 40

  pub handle_testing-calm : Keeps (calm rules) (handle_testing rules)
  unfolding handle_testing test_lint test_ui
  handle_testing-calm = search (calms, fail_to-calm, on_device-calm) depth 60

  pub rerun-calm :
      (n : ℕ) (argv : List String) (passes : ℕ) → Keeps (calm rules) (rerun n argv passes)
  unfolding rerun
  rerun-calm zero argv passes = search calms
  rerun-calm (suc n) argv passes = search (calms, rerun-calm n) depth 20

  pub leased-Keeps : (fr : Frame) (d : Option String) → Keeps fr (leased d)
  unfolding leased
  leased-Keeps fr none = search calms
  leased-Keeps fr (some serial) = search calms

  pub handle_flake_check-calm : Keeps (calm rules) (handle_flake_check rules)
  unfolding handle_flake_check rerun_phase lease_for count_passes flaky
  handle_flake_check-calm = search (calms, rerun-calm, leased-Keeps) depth 60

  pub analysis_valid-Keeps : (fr : Frame) → Keeps fr (analysis_valid rules)
  unfolding analysis_valid
  analysis_valid-Keeps fr = search calms depth 20

  pub act_on-calm : (a : Analysis) → Keeps (calm rules) (act_on rules a)
  unfolding act_on fix_analysed
  act_on-calm a = search calms depth 40

  pub handle_analyzing-calm : Keeps (calm rules) (handle_analyzing rules)
  unfolding handle_analyzing
  handle_analyzing-calm = search (calms, analysis_valid-Keeps, act_on-calm) depth 60
