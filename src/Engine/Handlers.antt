-- ===== src/Engine/Handlers.antt =====
-- internal/engine/handlers.go and the dispatch of `step` in engine.go: what each state does. A handler returns
-- the next state or an error.
pub mod Frame
pub mod Pipeline
pub mod Bounds
pub mod Invocations
pub mod Retries
pub mod Progress
pub mod Delays
pub mod Outcomes
pub mod Steps
pub mod Settles
pub mod Protected
mod Examples
pub mod Review
pub mod Design
pub mod Code
pub mod Phases
pub mod Delivery
use sdlc_orchestrator.Common.{
  ℕ, Bool, true, false, ◌&&◌, not, List, [], ◌∷◌, Option, none, some, String, if◌then◌else◌, Bytes,
}
use sdlc_orchestrator.Engine.States
use sdlc_orchestrator.Engine.States.{State, is_agent_state, needs_worktree_reconcile, same_state}
use sdlc_orchestrator.Engine.Job.{Piece, words, Job, Desk, Settings, World, hold}
use sdlc_orchestrator.Engine.Rules.{Rules}
use sdlc_orchestrator.Engine.Step.{
  Outcome, next_state, quota_err, unreachable_err, hold_err, other_err, panicked, over_budget,
  settle_outcome,
}
use sdlc_orchestrator.Engine.Bench.{
  Outside, Bench, Fail, out_of_quota, out_of_reach, held_in, plain, Result, ok, err, Act, pure,
  raise, ◌>>=◌, ◌>>◌,
}
use sdlc_orchestrator.Engine.Context.{reconcile, sync_head}
use Design.{handle_created, handle_scoping, handle_planning, handle_design_review}
use Code.{handle_implementing, handle_code_review, handle_fixing, handle_final_review}
use Phases.{handle_building, handle_testing, handle_flake_check, handle_analyzing}
use Delivery.{handle_merging, handle_releasing}

module _ (rules : Rules) (trim_path : Bytes → Bytes) where
  -- The switch of `step`; `none` where a state has no handler.
  unfoldable pub handler : State → Option (Act State)
  handler States.created = some (handle_created rules)
  handler States.scoping = some (handle_scoping rules)
  handler States.planning = some (handle_planning rules)
  handler States.design_review = some (handle_design_review rules)
  handler States.implementing = some (handle_implementing rules trim_path)
  handler States.code_review = some (handle_code_review rules)
  handler States.building = some (handle_building rules)
  handler States.testing = some (handle_testing rules)
  handler States.flake_check = some (handle_flake_check rules)
  handler States.analyzing = some (handle_analyzing rules)
  handler States.fixing = some (handle_fixing rules)
  handler States.final_review = some (handle_final_review rules)
  handler States.merging = some (handle_merging rules)
  handler States.releasing = some (handle_releasing rules)
  handler _ = none

-- What `step` reads off a handler's result.
unfoldable pub outcome_of : Result State → Outcome
outcome_of (ok s) = next_state s
outcome_of (err (out_of_quota backend backoff)) = quota_err backend backoff
outcome_of (err (out_of_reach backend detail backoff)) = unreachable_err backend detail backoff
outcome_of (err (held_in reason)) = hold_err States.escalated reason
outcome_of (err (plain reason)) = other_err reason

-- The commit of `preserveWork`, where git makes one.
abbrev pub work_commit : Outside → Bench → Option String
work_commit o b = if o.yes b.calls then some (o.sha b.calls) else none

-- `CREATED` has no worktree yet.
abbrev pub looks_at_worktree : State → Bool
looks_at_worktree s = not (same_state s States.created) && needs_worktree_reconcile s

module _ (rules : Rules) (trim_path : Bytes → Bytes) (c : Settings) (w : World) (o : Outside) where
  -- The handler of the job's state, and what its outcome does to the job.
  unfoldable pub run_handler : Option (Act State) → Bench → Bench
  unfolding hold settle_outcome outcome_of
  run_handler none b = record b {
    desk = hold w States.escalated (words "no handler for state" ∷ []) b.desk;
  }
  run_handler (some m) b =
      let (r, b') = m o b in
      record b' { desk = settle_outcome c w (work_commit o b') (outcome_of r) b'.desk }

  -- The budget of invocations, and then the handler.
  unfoldable pub budgeted : Bench → Bench
  unfolding over_budget run_handler handler
  budgeted b = elim (over_budget rules.max_agent_invocations w b.desk) [
    | some k ↦ record b { desk = k }
    | none ↦ run_handler (handler rules trim_path b.desk.job.state) b
  ]

  -- The branch may have moved without the engine: its head is read again first.
  unfoldable pub dispatch : Bench → Bench
  unfolding sync_head budgeted
  dispatch b = budgeted (if looks_at_worktree b.desk.job.state then (sync_head o b).1 else b)

  unfoldable pub reconciled : Result (Unit {0}) → Bench → Bench
  unfolding dispatch hold
  reconciled (ok u) b = dispatch b
  reconciled (err e) b = record b {
    desk = hold w States.escalated (words "resume reconciliation failed" ∷ []) b.desk;
  }

  -- `step` of a job whose target is configured; `need_rec` where this run of the engine has not seen the job yet.
  unfoldable pub step : Bool → Bench → Bench
  unfolding reconcile reconciled dispatch
  step need_rec b =
      if need_rec && looks_at_worktree b.desk.job.state
      then reconciled ((reconcile o b).0) ((reconcile o b).1)
      else dispatch b
