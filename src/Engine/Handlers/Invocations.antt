-- ===== src/Engine/Handlers/Invocations.antt =====
-- The states of internal/engine whose handlers run an agent: none of them goes on without an invocation.
use sdlc_orchestrator.Common.{◌≡◌, ◌<◌, subst, refl, true, Option, none, some, Bytes, arith}
use sdlc_orchestrator.Artifact.{Severity}
use sdlc_orchestrator.Engine.States
use sdlc_orchestrator.Engine.States.{State, is_agent_state}
use sdlc_orchestrator.Engine.Rules.{Rules}
use sdlc_orchestrator.Engine.Bench.{Act, Result, ok, err, ◌>>=◌, counters_of}
use sdlc_orchestrator.Engine.Bench.Frame.{Keeps}
use sdlc_orchestrator.Engine.Bench.Returns.{Value, Invokes, first-Invokes, then-Invokes}
use sdlc_orchestrator.Engine.Context.Agent.{run_agent}
use sdlc_orchestrator.Engine.Context.Agent.Budget.{quietly, run_agent-checked}
use sdlc_orchestrator.Engine.Handlers.Review.{reviewed}
use sdlc_orchestrator.Engine.Handlers.Frame.{calm, calms, verify_pass-calm, review_valid-Keeps}
use sdlc_orchestrator.Engine.Handlers.Frame.Design.{
  problem_valid-Keeps, plan_valid-Keeps, design_cleared-calm, design_blocked-calm, scoped-calm,
}
use sdlc_orchestrator.Engine.Handlers.Frame.Code.{
  implementation_valid-Keeps, implementing_done-calm, code_cleared-calm, code_blocked-calm,
  fix_valid-Keeps, fix_judged-calm, to_fixing-calm, stage_diff_patch-Keeps,
}
use sdlc_orchestrator.Engine.Handlers.Frame.Phases.{analysis_valid-Keeps, act_on-calm}
use sdlc_orchestrator.Engine.Handlers.{handler}
use sdlc_orchestrator.Engine.Handlers.Design.{handle_scoping, handle_planning, handle_design_review}
use sdlc_orchestrator.Engine.Handlers.Code.{
  handle_implementing, handle_code_review, handle_fixing, handle_final_review,
}
use sdlc_orchestrator.Engine.Handlers.Phases.{handle_analyzing}

run_agent-Invokes :
    (rules : Rules) (validate : Act (Unit {0}))
    → Keeps quietly validate
    → Invokes (run_agent rules validate)
unfolding Invokes
run_agent-Invokes rules validate keeps o b = by_result ((run_agent rules validate o b).0) refl
  where
    by_result :
        (r : Result (Unit {0}))
        → (run_agent rules validate o b).0 ≡ r
        → Value
            (λ a.
              (counters_of b).agent_invocations
              < (counters_of (run_agent rules validate o b).1).agent_invocations)
            r
    by_result (ok tt) e = (run_agent-checked rules validate o keeps b e).0
    by_result (err x) e = tt

module _ (rules : Rules) where
  first :
      {A : Type 0} {B : Type 0} (m : Act A) (k : A → Act B)
      → Invokes m
      → ((a : A) → Keeps (calm rules) (k a))
      → Invokes (m >>= k)
  first m k = first-Invokes (calm rules) m k

  behind :
      {A : Type 0} {B : Type 0} (m : Act A) (k : A → Act B)
      → Keeps (calm rules) m
      → ((a : A) → Invokes (k a))
      → Invokes (m >>= k)
  behind m k = then-Invokes (calm rules) m k

  reviewed-Invokes : (threshold : Severity) → Invokes (reviewed rules threshold)
  unfolding reviewed
  reviewed-Invokes threshold =
      search (first, run_agent-Invokes, calms, review_valid-Keeps, verify_pass-calm) depth 40

  handle_scoping-Invokes : Invokes (handle_scoping rules)
  unfolding handle_scoping
  handle_scoping-Invokes =
      search (first, behind, run_agent-Invokes, calms, problem_valid-Keeps, scoped-calm) depth 60

  handle_planning-Invokes : Invokes (handle_planning rules)
  unfolding handle_planning
  handle_planning-Invokes =
      search (first, behind, run_agent-Invokes, calms, plan_valid-Keeps) depth 60

  handle_design_review-Invokes : Invokes (handle_design_review rules)
  unfolding handle_design_review
  handle_design_review-Invokes =
      search (first, behind, reviewed-Invokes, calms, design_blocked-calm, design_cleared-calm)
        depth 60

  handle_implementing-Invokes :
      (trim_path : Bytes → Bytes) → Invokes (handle_implementing rules trim_path)
  unfolding handle_implementing
  handle_implementing-Invokes trim_path =
      search
        (
          first, behind, run_agent-Invokes, calms, implementation_valid-Keeps,
          implementing_done-calm,
        )
        depth 60

  handle_code_review-Invokes : Invokes (handle_code_review rules)
  unfolding handle_code_review
  handle_code_review-Invokes =
      search
        (
          first, behind, reviewed-Invokes, calms, stage_diff_patch-Keeps, code_cleared-calm,
          code_blocked-calm,
        )
        depth 60

  handle_fixing-Invokes : Invokes (handle_fixing rules)
  unfolding handle_fixing
  handle_fixing-Invokes =
      search (first, behind, run_agent-Invokes, calms, fix_valid-Keeps, fix_judged-calm) depth 60

  handle_final_review-Invokes : Invokes (handle_final_review rules)
  unfolding handle_final_review
  handle_final_review-Invokes =
      search (first, behind, reviewed-Invokes, calms, stage_diff_patch-Keeps, to_fixing-calm) depth
        60

  handle_analyzing-Invokes : Invokes (handle_analyzing rules)
  unfolding handle_analyzing
  handle_analyzing-Invokes =
      search (first, behind, run_agent-Invokes, calms, analysis_valid-Keeps, act_on-calm) depth 60

module _ (rules : Rules) (trim_path : Bytes → Bytes) where
  Invoking : State → Option (Act State) → Type 0
  Invoking s none = Unit {0}
  Invoking s (some m) = is_agent_state s ≡ true → Invokes m

  handler-Invoking : (s : State) → Invoking s (handler rules trim_path s)
  unfolding handler Invoking is_agent_state
  handler-Invoking States.created = λ e. ground (arith, e)
  handler-Invoking States.scoping = λ e. handle_scoping-Invokes rules
  handler-Invoking States.planning = λ e. handle_planning-Invokes rules
  handler-Invoking States.design_review = λ e. handle_design_review-Invokes rules
  handler-Invoking States.implementing = λ e. handle_implementing-Invokes rules trim_path
  handler-Invoking States.code_review = λ e. handle_code_review-Invokes rules
  handler-Invoking States.building = λ e. ground (arith, e)
  handler-Invoking States.testing = λ e. ground (arith, e)
  handler-Invoking States.flake_check = λ e. ground (arith, e)
  handler-Invoking States.analyzing = λ e. handle_analyzing-Invokes rules
  handler-Invoking States.fixing = λ e. handle_fixing-Invokes rules
  handler-Invoking States.final_review = λ e. handle_final_review-Invokes rules
  handler-Invoking States.merging = λ e. ground (arith, e)
  handler-Invoking States.releasing = λ e. ground (arith, e)
  handler-Invoking States.await_scope = tt
  handler-Invoking States.await_spec = tt
  handler-Invoking States.await_code = tt
  handler-Invoking States.await_merge = tt
  handler-Invoking States.await_release = tt
  handler-Invoking States.completed = tt
  handler-Invoking States.cancelled = tt
  handler-Invoking States.failed = tt
  handler-Invoking States.escalated = tt
  handler-Invoking States.timed_out = tt
  handler-Invoking States.blocked_quota = tt
  handler-Invoking States.blocked_network = tt
  handler-Invoking (States.other x) = tt

  -- A state of an agent is left for another only behind an invocation of its agent that met the post-condition.
  pub handler-Invokes :
      (s : State) (m : Act State)
      → handler rules trim_path s ≡ some m
      → is_agent_state s ≡ true
      → Invokes m
  unfolding Invoking
  handler-Invokes s m e = subst (Invoking s) e (handler-Invoking s)
