-- ===== src/Engine/Handlers/Frame/Delivery.antt =====
-- The frames of the merge and of the release; internal/engine/handlers.go.
use sdlc_orchestrator.Common.{false, List, [], ◌∷◌, some, String}
use sdlc_orchestrator.Engine.Rules.{Rules}
use sdlc_orchestrator.Engine.Bench.{with_job}
use sdlc_orchestrator.Engine.Bench.Frame.{Frame, Keeps, merged-Keeps}
use sdlc_orchestrator.Engine.Handlers.Frame.{calm, calms}
use sdlc_orchestrator.Engine.Handlers.Delivery.{
  or_escalate, fetch, verify_builds, rebase, checkout, push_if, handle_merging, retry_later,
  ship_failed, resume_ship, handle_releasing,
}

module _ (rules : Rules) where
  -- The merge merges.
  abbrev pub merging : Frame
  merging = record { apart = false; quiet = false; cap = some rules.max_agent_invocations }

  or_escalate-Keeps : (fr : Frame) (what : String) → Keeps fr (or_escalate what)
  unfolding or_escalate
  or_escalate-Keeps fr what = search calms depth 20

  verify_builds-Keeps : (fr : Frame) (cmds : List (List String)) → Keeps fr (verify_builds cmds)
  unfolding verify_builds
  verify_builds-Keeps fr [] = search calms
  verify_builds-Keeps fr (argv ∷ cmds) =
      let h = verify_builds-Keeps fr cmds in search (calms, h) depth 20

  rebase-Keeps : (fr : Frame) → Keeps fr (rebase rules)
  unfolding rebase
  rebase-Keeps fr = search (calms, or_escalate-Keeps, verify_builds-Keeps) depth 40

  pub handle_merging-Keeps : Keeps merging (handle_merging rules)
  unfolding handle_merging fetch checkout push_if
  handle_merging-Keeps = search (calms, rebase-Keeps, or_escalate-Keeps, merged-Keeps) depth 60

  pub handle_releasing-calm : Keeps (calm rules) (handle_releasing rules)
  unfolding handle_releasing resume_ship ship_failed retry_later with_job
  handle_releasing-calm = search calms depth 60
