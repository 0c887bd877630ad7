-- ===== src/Engine/Handlers/Progress.antt =====
-- `step` of internal/engine/engine.go brings a job to rest: every step takes it nearer to a gate, a hold or its end.
use sdlc_orchestrator.Common.{
  ℕ, suc, ◌+◌, ◌-◌, ◌*◌, ◌≡◌, ◌≤◌, ◌<◌, sym, refl, ap, Bool, true, false, str_eq, arith, ◌⊎◌, inl,
  inr, if_both, if_cases, if◌then◌else◌, ◌||◌, ◌&&◌, not,
}
use sdlc_orchestrator.Engine.States
use sdlc_orchestrator.Engine.States.{State, same_state, is_agent_state, completed}
use sdlc_orchestrator.Engine.Job.{
  Job, Desk, Settings, World, cleanup, removed, transition, moved_job, event,
}
use sdlc_orchestrator.Engine.Rules.{Rules}
use sdlc_orchestrator.Engine.Step.{go_on}
use sdlc_orchestrator.Engine.Handlers.Pipeline.{Next, handler-Next}
use sdlc_orchestrator.Engine.Handlers.Pipeline

-- The states that have a handler.
abbrev pub has_handler : State → Bool
has_handler States.created = true
has_handler States.scoping = true
has_handler States.planning = true
has_handler States.design_review = true
has_handler States.implementing = true
has_handler States.code_review = true
has_handler States.building = true
has_handler States.testing = true
has_handler States.flake_check = true
has_handler States.analyzing = true
has_handler States.fixing = true
has_handler States.final_review = true
has_handler States.merging = true
has_handler States.releasing = true
has_handler _ = false

-- How far a state without an agent is from the next one with an agent.
abbrev pub rank : State → ℕ
rank States.created = 4
rank States.building = 3
rank States.testing = 2
rank States.flake_check = 1
rank _ = 0

-- What is left to do: the invocations, and the retries of flaky phases.
abbrev pub left_over : Rules → State → ℕ → ℕ → ℕ
left_over rules s used flakes =
    5 * (rules.max_agent_invocations - used) + (3 * (suc rules.max_flake_retries - flakes) + rank s)

-- The two states that a step may leave a job waiting in.
pub data Waits (rules : Rules) : State → State → Type 0 where
  for_device : str_eq rules.on_no_device "wait" ≡ true → Waits rules States.testing States.testing
  for_shipping : Waits rules States.releasing States.releasing

-- A job at rest, or waiting, or nearer to one of these.
abbrev pub Onward : Rules → State → State → ℕ → ℕ → ℕ → ℕ → Type 0
Onward rules s s' i f i' f' =
    (has_handler s' ≡ false)
    ⊎ (Waits rules s s' ⊎ (left_over rules s' i' f' < left_over rules s i f))

module _ (rules : Rules) (i f i' f' : ℕ) where
  pub Next-Onward :
      (s s' : State)
      → Next rules s s'
      → i ≤ i'
      → i' ≤ rules.max_agent_invocations
      → f ≤ f'
      → (is_agent_state s ≡ true → i < i')
      → (s ≡ States.flake_check → s' ≡ States.testing → (f < f') × (f' ≤ rules.max_flake_retries))
      → Onward rules s s' i f i' f'
  unfolding is_agent_state
  Next-Onward s s' (Pipeline.to_scoping h) li lm lf grow retry = inr (inr (omega arith))
  Next-Onward s s' (Pipeline.past_scoping h) li lm lf grow retry = inr (inr (omega arith))
  Next-Onward s s' (Pipeline.scope_gate) li lm lf grow retry = inl refl
  Next-Onward s s' (Pipeline.scope_open h) li lm lf grow retry =
      inr (inr (omega (arith, grow refl)))
  Next-Onward s s' (Pipeline.planned) li lm lf grow retry = inr (inr (omega (arith, grow refl)))
  Next-Onward s s' (Pipeline.replan) li lm lf grow retry = inr (inr (omega (arith, grow refl)))
  Next-Onward s s' (Pipeline.spec_gate h) li lm lf grow retry = inl refl
  Next-Onward s s' (Pipeline.spec_open h) li lm lf grow retry = inr (inr (omega (arith, grow refl)))
  Next-Onward s s' (Pipeline.implemented) li lm lf grow retry = inr (inr (omega (arith, grow refl)))
  Next-Onward s s' (Pipeline.code_blocks) li lm lf grow retry = inr (inr (omega (arith, grow refl)))
  Next-Onward s s' (Pipeline.code_gate h) li lm lf grow retry = inl refl
  Next-Onward s s' (Pipeline.code_open h) li lm lf grow retry = inr (inr (omega (arith, grow refl)))
  Next-Onward s s' (Pipeline.built) li lm lf grow retry = inr (inr (omega arith))
  Next-Onward s s' (Pipeline.build_failed) li lm lf grow retry = inr (inr (omega arith))
  Next-Onward s s' (Pipeline.device_wait h) li lm lf grow retry = inr (inl (for_device h))
  Next-Onward s s' (Pipeline.tested) li lm lf grow retry = inr (inr (omega arith))
  Next-Onward s s' (Pipeline.test_failed) li lm lf grow retry = inr (inr (omega arith))
  Next-Onward s s' (Pipeline.device_fail h) li lm lf grow retry = inr (inr (omega arith))
  Next-Onward s s' (Pipeline.test_again) li lm lf grow retry =
      let h = retry refl refl in inr (inr (omega (arith, h.0, h.1)))
  Next-Onward s s' (Pipeline.broken) li lm lf grow retry = inr (inr (omega arith))
  Next-Onward s s' (Pipeline.to_fix) li lm lf grow retry = inr (inr (omega (arith, grow refl)))
  Next-Onward s s' (Pipeline.rebuild) li lm lf grow retry = inr (inr (omega (arith, grow refl)))
  Next-Onward s s' (Pipeline.merge_gate) li lm lf grow retry = inl refl
  Next-Onward s s' (Pipeline.final_blocks) li lm lf grow retry =
      inr (inr (omega (arith, grow refl)))
  Next-Onward s s' (Pipeline.merged) li lm lf grow retry = inl refl
  Next-Onward s s' (Pipeline.shipped) li lm lf grow retry = inl refl
  Next-Onward s s' (Pipeline.ship_again) li lm lf grow retry = inr (inl for_shipping)

-- Where a handler returns the state that it is in, nothing moves; the names of the others differ.
pub Next-same : (rules : Rules) (s s' : State) → Next rules s s' → same_state s' s ≡ true → s' ≡ s
unfolding same_state
Next-same rules s s' (Pipeline.to_scoping h) e = ground (arith, e)
Next-same rules s s' (Pipeline.past_scoping h) e = ground (arith, e)
Next-same rules s s' (Pipeline.scope_gate) e = ground (arith, e)
Next-same rules s s' (Pipeline.scope_open h) e = ground (arith, e)
Next-same rules s s' (Pipeline.planned) e = ground (arith, e)
Next-same rules s s' (Pipeline.replan) e = ground (arith, e)
Next-same rules s s' (Pipeline.spec_gate h) e = ground (arith, e)
Next-same rules s s' (Pipeline.spec_open h) e = ground (arith, e)
Next-same rules s s' (Pipeline.implemented) e = ground (arith, e)
Next-same rules s s' (Pipeline.code_blocks) e = ground (arith, e)
Next-same rules s s' (Pipeline.code_gate h) e = ground (arith, e)
Next-same rules s s' (Pipeline.code_open h) e = ground (arith, e)
Next-same rules s s' (Pipeline.built) e = ground (arith, e)
Next-same rules s s' (Pipeline.build_failed) e = ground (arith, e)
Next-same rules s s' (Pipeline.device_wait h) e = refl
Next-same rules s s' (Pipeline.tested) e = ground (arith, e)
Next-same rules s s' (Pipeline.test_failed) e = ground (arith, e)
Next-same rules s s' (Pipeline.device_fail h) e = ground (arith, e)
Next-same rules s s' (Pipeline.test_again) e = ground (arith, e)
Next-same rules s s' (Pipeline.broken) e = ground (arith, e)
Next-same rules s s' (Pipeline.to_fix) e = ground (arith, e)
Next-same rules s s' (Pipeline.rebuild) e = ground (arith, e)
Next-same rules s s' (Pipeline.merge_gate) e = ground (arith, e)
Next-same rules s s' (Pipeline.final_blocks) e = ground (arith, e)
Next-same rules s s' (Pipeline.merged) e = ground (arith, e)
Next-same rules s s' (Pipeline.shipped) e = ground (arith, e)
Next-same rules s s' (Pipeline.ship_again) e = refl

pub cleanup-job : (c : Settings) (w : World) (k : Desk) → (cleanup c w k).job ≡ k.job
unfolding cleanup removed
cleanup-job c w k =
    let success = same_state k.job.state completed in
    if_both (λ (x : Desk). x.job ≡ k.job)
      (str_eq c.cleanup_worktrees "never"
        || (str_eq c.cleanup_worktrees "on_success" && not success))
      k
      (if c.has_target k.job.target then removed (success && c.delete_branch_on_success) w k else k)
      refl
      (if_both (λ (x : Desk). x.job ≡ k.job) (c.has_target k.job.target)
        (removed (success && c.delete_branch_on_success) w k) k refl refl)

-- Where `step` takes a job that its handler sends to `s'`.
pub go_on-state :
    (c : Settings) (w : World) (s' : State) (k : Desk)
    → (same_state s' k.job.state ≡ true → s' ≡ k.job.state)
    → (go_on c w s' k).job.state ≡ s'
unfolding go_on transition moved_job event
go_on-state c w s' k same =
    if_cases (λ (x : Desk). x.job.state ≡ s') (same_state s' k.job.state) _ _ (λ e. sym (same e))
      (λ e.
        if_both (λ (x : Desk). x.job.state ≡ s') (same_state s' completed) _ _
          (ap (λ (j : Job). j.state) (cleanup-job c w _)) refl)
