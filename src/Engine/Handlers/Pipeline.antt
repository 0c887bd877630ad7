-- ===== src/Engine/Handlers/Pipeline.antt =====
-- The pipeline that the handlers of internal/engine/handlers.go walk: where each may take a job.
use sdlc_orchestrator.Common.{
  ◌≡◌, subst, true, false, List, [], ◌∷◌, Option, none, some, String, str_eq, Bytes, if_cases,
  if◌then◌else◌,
}
use sdlc_orchestrator.Engine.States
use sdlc_orchestrator.Engine.States.{State}
use sdlc_orchestrator.Engine.Rules.{Rules}
use sdlc_orchestrator.Engine.Bench.{Outside, Bench, Act, ok}
use sdlc_orchestrator.Engine.Bench.Returns.{Returns, Value, returns}
use sdlc_orchestrator.Engine.Handlers.{handler}
use sdlc_orchestrator.Engine.Handlers.Design.{
  handle_created, scoped, handle_scoping, handle_planning, design_blocked, design_cleared,
  handle_design_review,
}
use sdlc_orchestrator.Engine.Handlers.Code.{
  implementing_done, handle_implementing, to_fixing, code_blocked, code_cleared, handle_code_review,
  fix_discarded, fix_checked, fix_kept, fix_judged, handle_fixing, handle_final_review,
}
use sdlc_orchestrator.Engine.Handlers.Phases.{
  fail_to, build_all, build_list, handle_building, wait_for_device, no_device, ui_on, on_device,
  test_ui, test_lint, handle_testing, flaky, count_passes, rerun_phase, handle_flake_check,
  fix_analysed, act_on, handle_analyzing,
}
use sdlc_orchestrator.Engine.Handlers.Delivery.{
  handle_merging, retry_later, ship_failed, handle_releasing,
}

-- The edges of the pipeline, with the policy that each depends on. None leads to MERGING, and the only one to
-- RELEASING is a retry.
pub data Next (rules : Rules) : State → State → Type 0 where
  to_scoping : rules.scoping_enabled ≡ true → Next rules States.created States.scoping
  past_scoping : rules.scoping_enabled ≡ false → Next rules States.created States.planning
  scope_gate : Next rules States.scoping States.await_scope
  scope_open : rules.human_gate "scope" ≡ false → Next rules States.scoping States.planning
  planned : Next rules States.planning States.design_review
  replan : Next rules States.design_review States.planning
  spec_gate : rules.human_gate "spec" ≡ true → Next rules States.design_review States.await_spec
  spec_open : rules.human_gate "spec" ≡ false → Next rules States.design_review States.implementing
  implemented : Next rules States.implementing States.code_review
  code_blocks : Next rules States.code_review States.fixing
  code_gate : rules.human_gate "code" ≡ true → Next rules States.code_review States.await_code
  code_open : rules.human_gate "code" ≡ false → Next rules States.code_review States.building
  built : Next rules States.building States.testing
  build_failed : Next rules States.building States.analyzing
  device_wait : str_eq rules.on_no_device "wait" ≡ true → Next rules States.testing States.testing
  tested : Next rules States.testing States.final_review
  test_failed : Next rules States.testing States.flake_check
  device_fail : str_eq rules.on_no_device "fail" ≡ true → Next rules States.testing States.analyzing
  test_again : Next rules States.flake_check States.testing
  broken : Next rules States.flake_check States.analyzing
  to_fix : Next rules States.analyzing States.fixing
  rebuild : Next rules States.fixing States.building
  merge_gate : Next rules States.final_review States.await_merge
  final_blocks : Next rules States.final_review States.fixing
  merged : Next rules States.merging States.await_release
  shipped : Next rules States.releasing States.completed
  ship_again : Next rules States.releasing States.releasing

pub ruleset edges = (
  to_scoping, past_scoping, scope_gate, scope_open, planned, replan, spec_gate, spec_open,
  implemented, code_blocks, code_gate, code_open, built, build_failed, device_wait, tested,
  test_failed, device_fail, test_again, broken, to_fix, rebuild, merge_gate, final_blocks, merged,
  shipped, ship_again,
)

module _ (rules : Rules) where
  first-Next :
      Next rules States.created (if rules.scoping_enabled then States.scoping else States.planning)
  first-Next =
      if_cases (Next rules States.created) rules.scoping_enabled _ _ (λ h. to_scoping h)
        (λ h. past_scoping h)

  handle_created-Next : Returns (Next rules States.created) (handle_created rules)
  unfolding handle_created
  handle_created-Next = search (returns, first-Next) depth 60

  handle_scoping-Next : Returns (Next rules States.scoping) (handle_scoping rules)
  unfolding handle_scoping scoped
  handle_scoping-Next = search (returns, edges) depth 60

  handle_planning-Next : Returns (Next rules States.planning) (handle_planning rules)
  unfolding handle_planning
  handle_planning-Next = search (returns, edges) depth 60

  handle_design_review-Next : Returns (Next rules States.design_review) (handle_design_review rules)
  unfolding handle_design_review design_cleared design_blocked
  handle_design_review-Next = search (returns, edges) depth 60

  to_fixing-Returns :
      (P : State → Type 0) (source : String) → P States.fixing → Returns P (to_fixing rules source)
  unfolding to_fixing
  to_fixing-Returns P source h = search (returns, h) depth 60

  handle_implementing-Next :
      (trim_path : Bytes → Bytes)
      → Returns (Next rules States.implementing) (handle_implementing rules trim_path)
  unfolding handle_implementing implementing_done
  handle_implementing-Next trim_path = search (returns, edges) depth 60

  handle_code_review-Next : Returns (Next rules States.code_review) (handle_code_review rules)
  unfolding handle_code_review code_cleared code_blocked
  handle_code_review-Next = search (returns, edges, to_fixing-Returns) depth 60

  handle_fixing-Next : Returns (Next rules States.fixing) (handle_fixing rules)
  unfolding handle_fixing fix_judged fix_checked fix_kept fix_discarded
  handle_fixing-Next = search (returns, edges) depth 60

  handle_final_review-Next : Returns (Next rules States.final_review) (handle_final_review rules)
  unfolding handle_final_review
  handle_final_review-Next = search (returns, edges, to_fixing-Returns) depth 60

  fail_to-Returns :
      (P : State → Type 0) (phase log : String) (s : State) → P s → Returns P (fail_to phase log s)
  unfolding fail_to
  fail_to-Returns P phase log s h = search (returns, h) depth 20

  build_all-Next :
      (cmds : List (List String)) → Returns (Next rules States.building) (build_all cmds)
  unfolding build_all
  build_all-Next [] = search (returns, edges)
  build_all-Next (argv ∷ cmds) =
      let h = build_all-Next cmds in search (returns, edges, h, fail_to-Returns) depth 20

  on_device-Next : (d : Option String) → Returns (Next rules States.testing) (on_device rules d)
  unfolding on_device no_device wait_for_device ui_on
  on_device-Next none = search (returns, edges, fail_to-Returns) depth 40
  on_device-Next (some serial) = search (returns, edges, fail_to-Returns) depth 40

  handle_testing-Next : Returns (Next rules States.testing) (handle_testing rules)
  unfolding handle_testing test_lint test_ui
  handle_testing-Next = search (returns, edges, fail_to-Returns, on_device-Next) depth 60

  handle_flake_check-Next : Returns (Next rules States.flake_check) (handle_flake_check rules)
  unfolding handle_flake_check rerun_phase count_passes flaky
  handle_flake_check-Next = search (returns, edges) depth 60

  handle_analyzing-Next : Returns (Next rules States.analyzing) (handle_analyzing rules)
  unfolding handle_analyzing act_on fix_analysed
  handle_analyzing-Next = search (returns, edges) depth 60

  handle_merging-Next : Returns (Next rules States.merging) (handle_merging rules)
  unfolding handle_merging
  handle_merging-Next = search (returns, edges) depth 60

  handle_releasing-Next : Returns (Next rules States.releasing) (handle_releasing rules)
  unfolding handle_releasing ship_failed retry_later
  handle_releasing-Next = search (returns, edges) depth 60

module _ (rules : Rules) (trim_path : Bytes → Bytes) where
  Allowed : State → Option (Act State) → Type 0
  Allowed s none = Unit {0}
  Allowed s (some m) = Returns (Next rules s) m

  handler-Allowed : (s : State) → Allowed s (handler rules trim_path s)
  unfolding handler Allowed handle_building
  handler-Allowed States.created = handle_created-Next rules
  handler-Allowed States.scoping = handle_scoping-Next rules
  handler-Allowed States.planning = handle_planning-Next rules
  handler-Allowed States.design_review = handle_design_review-Next rules
  handler-Allowed States.implementing = handle_implementing-Next rules trim_path
  handler-Allowed States.code_review = handle_code_review-Next rules
  handler-Allowed States.building = build_all-Next rules (build_list rules)
  handler-Allowed States.testing = handle_testing-Next rules
  handler-Allowed States.flake_check = handle_flake_check-Next rules
  handler-Allowed States.analyzing = handle_analyzing-Next rules
  handler-Allowed States.fixing = handle_fixing-Next rules
  handler-Allowed States.final_review = handle_final_review-Next rules
  handler-Allowed States.merging = handle_merging-Next rules
  handler-Allowed States.releasing = handle_releasing-Next rules
  handler-Allowed States.await_scope = tt
  handler-Allowed States.await_spec = tt
  handler-Allowed States.await_code = tt
  handler-Allowed States.await_merge = tt
  handler-Allowed States.await_release = tt
  handler-Allowed States.completed = tt
  handler-Allowed States.cancelled = tt
  handler-Allowed States.failed = tt
  handler-Allowed States.escalated = tt
  handler-Allowed States.timed_out = tt
  handler-Allowed States.blocked_quota = tt
  handler-Allowed States.blocked_network = tt
  handler-Allowed (States.other x) = tt

  -- Whatever the agents, the commands, git and the clock answer, a handler that succeeds takes its job along an
  -- edge of the pipeline: a gate is passed over only where the policy turns it off, and no handler enters MERGING
  -- or, but to try again, RELEASING.
  pub handler-Next :
      (s : State) (m : Act State) (o : Outside) (b : Bench) (s' : State)
      → handler rules trim_path s ≡ some m
      → (m o b).0 ≡ ok s'
      → Next rules s s'
  unfolding Returns Allowed
  handler-Next s m o b s' e h =
      subst (Value (Next rules s)) h (subst (Allowed s) e (handler-Allowed s) o b)
