-- ===== src/Engine/Handlers/Bounds.antt =====
-- What a handler of internal/engine/handlers.go may change of a job, for the states together.
use sdlc_orchestrator.Common.{◌≡◌, subst, Bool, true, false, Option, none, some, Bytes}
use sdlc_orchestrator.Engine.States
use sdlc_orchestrator.Engine.States.{State, same_state}
use sdlc_orchestrator.Engine.Rules.{Rules}
use sdlc_orchestrator.Engine.Bench.{Act}
use sdlc_orchestrator.Engine.Bench.Frame.{Frame, Keeps}
use sdlc_orchestrator.Engine.Handlers.Frame.Design.{
  handle_created-calm, handle_scoping-calm, handle_planning-calm, handle_design_review-calm,
}
use sdlc_orchestrator.Engine.Handlers.Frame.Code.{
  handle_implementing-calm, handle_code_review-calm, handle_fixing-calm, handle_final_review-calm,
}
use sdlc_orchestrator.Engine.Handlers.Frame.Phases.{
  handle_building-calm, handle_testing-calm, handle_flake_check-calm, handle_analyzing-calm,
}
use sdlc_orchestrator.Engine.Handlers.Frame.Delivery.{handle_releasing-calm, handle_merging-Keeps}
use sdlc_orchestrator.Engine.Handlers.{handler}

-- Only the handler of MERGING may merge.
abbrev pub elsewhere : State → Bool
elsewhere States.merging = false
elsewhere _ = true

abbrev pub frame_of : Rules → State → Frame
frame_of rules s = record {
  apart = elsewhere s;
  quiet = false;
  cap = some rules.max_agent_invocations;
}

module _ (rules : Rules) (trim_path : Bytes → Bytes) where
  Bounded : State → Option (Act State) → Type 0
  Bounded s none = Unit {0}
  Bounded s (some m) = Keeps (frame_of rules s) m

  handler-Bounded : (s : State) → Bounded s (handler rules trim_path s)
  unfolding handler Bounded
  handler-Bounded States.created = handle_created-calm rules
  handler-Bounded States.scoping = handle_scoping-calm rules
  handler-Bounded States.planning = handle_planning-calm rules
  handler-Bounded States.design_review = handle_design_review-calm rules
  handler-Bounded States.implementing = handle_implementing-calm rules trim_path
  handler-Bounded States.code_review = handle_code_review-calm rules
  handler-Bounded States.building = handle_building-calm rules
  handler-Bounded States.testing = handle_testing-calm rules
  handler-Bounded States.flake_check = handle_flake_check-calm rules
  handler-Bounded States.analyzing = handle_analyzing-calm rules
  handler-Bounded States.fixing = handle_fixing-calm rules
  handler-Bounded States.final_review = handle_final_review-calm rules
  handler-Bounded States.merging = handle_merging-Keeps rules
  handler-Bounded States.releasing = handle_releasing-calm rules
  handler-Bounded States.await_scope = tt
  handler-Bounded States.await_spec = tt
  handler-Bounded States.await_code = tt
  handler-Bounded States.await_merge = tt
  handler-Bounded States.await_release = tt
  handler-Bounded States.completed = tt
  handler-Bounded States.cancelled = tt
  handler-Bounded States.failed = tt
  handler-Bounded States.escalated = tt
  handler-Bounded States.timed_out = tt
  handler-Bounded States.blocked_quota = tt
  handler-Bounded States.blocked_network = tt
  handler-Bounded (States.other x) = tt

  pub handler-Keeps :
      (s : State) (m : Act State) → handler rules trim_path s ≡ some m → Keeps (frame_of rules s) m
  unfolding Bounded
  handler-Keeps s m e = subst (Bounded s) e (handler-Bounded s)
