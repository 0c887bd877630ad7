-- ===== src/Engine/Handlers/Frame/Design.antt =====
-- The frames of the handlers up to the design review; internal/engine/handlers.go.
use sdlc_orchestrator.Common.{ℕ}
use sdlc_orchestrator.Artifact.{Review, Problem}
use sdlc_orchestrator.Engine.Rules.{Rules}
use sdlc_orchestrator.Engine.Bench.Frame.{Frame, Keeps}
use sdlc_orchestrator.Engine.Handlers.Frame.{calm, calms}
use sdlc_orchestrator.Engine.Handlers.Design.{
  handle_created, problem_valid, scoped, handle_scoping, plan_valid, handle_planning,
  design_blocked, remember_findings, design_findings, design_cleared, handle_design_review,
}

module _ (rules : Rules) where
  pub handle_created-calm : Keeps (calm rules) (handle_created rules)
  unfolding handle_created
  handle_created-calm = search calms depth 60

  pub problem_valid-Keeps : (fr : Frame) → Keeps fr (problem_valid rules)
  unfolding problem_valid
  problem_valid-Keeps fr = search calms depth 20

  pub scoped-calm : (p : Problem) → Keeps (calm rules) (scoped rules p)
  unfolding scoped
  scoped-calm p = search calms depth 40

  pub handle_scoping-calm : Keeps (calm rules) (handle_scoping rules)
  unfolding handle_scoping
  handle_scoping-calm = search (calms, problem_valid-Keeps, scoped-calm) depth 60

  pub plan_valid-Keeps : (fr : Frame) → Keeps fr plan_valid
  unfolding plan_valid
  plan_valid-Keeps fr = search calms depth 20

  pub handle_planning-calm : Keeps (calm rules) (handle_planning rules)
  unfolding handle_planning
  handle_planning-calm = search (calms, plan_valid-Keeps) depth 60

  pub design_cleared-calm :
      (r : Review) (round : ℕ) → Keeps (calm rules) (design_cleared rules r round)
  unfolding design_cleared design_findings remember_findings
  design_cleared-calm r round = search calms depth 40

  pub design_blocked-calm : (round : ℕ) → Keeps (calm rules) (design_blocked rules round)
  unfolding design_blocked
  design_blocked-calm round = search calms depth 40

  pub handle_design_review-calm : Keeps (calm rules) (handle_design_review rules)
  unfolding handle_design_review
  handle_design_review-calm = search (calms, design_cleared-calm, design_blocked-calm) depth 60
