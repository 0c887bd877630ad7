-- ===== src/Engine/Handlers/Outcomes.antt =====
-- What `step` of internal/engine/engine.go does to the counters and the state of a job when its handler has ended.
use sdlc_orchestrator.Common.{ℕ, ◌≡◌, refl, ap, false, [], Option, none, some, String, if_both}
use sdlc_orchestrator.Engine.States.{State, same_state, completed}
use sdlc_orchestrator.Engine.Job.{
  Job, Desk, Settings, World, transition, moved_job, hold, held_for, event, cleanup,
}
use sdlc_orchestrator.Engine.Step.{
  Outcome, next_state, quota_err, unreachable_err, hold_err, other_err, panicked, go_on,
  settle_outcome, preserve_work, with_resume_after, with_head,
}
use sdlc_orchestrator.Engine.Bench.{Fail, out_of_quota, out_of_reach, held_in, plain, err}
use sdlc_orchestrator.Engine.Handlers.{outcome_of}
use sdlc_orchestrator.Engine.Handlers.Progress.{has_handler, cleanup-job}

abbrev pub used_by : Desk → ℕ
used_by k = k.job.counters.agent_invocations

abbrev pub flakes_of : Desk → ℕ
flakes_of k = k.job.counters.flake_retries

-- The same invocations and retries.
abbrev pub Same : Desk → Desk → Type 0
Same k k' = (used_by k' ≡ used_by k) × (flakes_of k' ≡ flakes_of k)

preserve_work-Same : (commit : Option String) (k : Desk) → Same k (preserve_work commit k)
unfolding preserve_work with_head event
preserve_work-Same none k = (refl, refl)
preserve_work-Same (some sha) k = (refl, refl)

pub go_on-Same : (c : Settings) (w : World) (s : State) (k : Desk) → Same k (go_on c w s k)
unfolding go_on transition moved_job event
go_on-Same c w s k =
    let k' = transition w s [] k in
    let e = cleanup-job c w k' in
    if_both (Same k) (same_state s k.job.state) _ _ (refl, refl)
      (if_both (Same k) (same_state s completed) (cleanup c w k') k'
        (
          ap (λ (j : Job). j.counters.agent_invocations) e,
          ap (λ (j : Job). j.counters.flake_retries) e,
        )
        (refl, refl))

pub settle_outcome-Same :
    (c : Settings) (w : World) (commit : Option String) (x : Outcome) (k : Desk)
    → Same k (settle_outcome c w commit x k)
unfolding settle_outcome hold held_for transition moved_job event with_resume_after
settle_outcome-Same c w commit (next_state s) k = go_on-Same c w s k
settle_outcome-Same c w commit (quota_err b n) k = (refl, refl)
settle_outcome-Same c w commit (unreachable_err b d n) k = (refl, refl)
settle_outcome-Same c w commit (hold_err s r) k = preserve_work-Same commit k
settle_outcome-Same c w commit (other_err r) k = preserve_work-Same commit k
settle_outcome-Same c w commit (panicked r) k = (refl, refl)

-- An error parks the job.
pub err-parks :
    (c : Settings) (w : World) (commit : Option String) (e : Fail) (k : Desk)
    → has_handler (settle_outcome c w commit (outcome_of (err e)) k).job.state ≡ false
unfolding settle_outcome outcome_of hold held_for transition moved_job event with_resume_after
err-parks c w commit (out_of_quota b n) k = refl
err-parks c w commit (out_of_reach b d n) k = refl
err-parks c w commit (held_in r) k = refl
err-parks c w commit (plain r) k = refl
