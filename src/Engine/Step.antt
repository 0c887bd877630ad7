-- ===== src/Engine/Step.antt =====
-- `step` of internal/engine/engine.go around the handler of a state: the budget of invocations before it, and
-- what its outcome does to the job. The handlers are in Engine/Handlers.
pub mod Suspends
use sdlc_orchestrator.Common.{
  ℕ, ◌+◌, leb, Bool, true, false, ◌&&◌, List, [], ◌∷◌, Option, none, some, String, if◌then◌else◌,
}
use sdlc_orchestrator.Engine.States.{
  State, completed, escalated, blocked_quota, blocked_network, is_agent_state, same_state,
}
use sdlc_orchestrator.Engine.Job.{
  Piece, words, number, Job, Detail, quota_note, network_note, preserved, Desk, Settings, World,
  event, transition, hold, held_for, cleanup,
}

-- What a handler returns: the next state, or an error; or it panics, as which a state without a handler counts.
pub data Outcome : Type 0 where
  next_state : State → Outcome
  quota_err : String → ℕ → Outcome
  unreachable_err : String → String → ℕ → Outcome
  hold_err : State → List Piece → Outcome
  other_err : List Piece → Outcome
  panicked : List Piece → Outcome

-- The guardrail on the agent's invocations: `none` where the handler may run.
unfoldable pub over_budget : ℕ → World → Desk → Option Desk
unfolding is_agent_state hold
over_budget max_invocations w k =
    if is_agent_state k.job.state && leb max_invocations k.job.counters.agent_invocations
    then some (
        hold w escalated
          (words "agent budget exhausted ("
            ∷ number k.job.counters.agent_invocations
            ∷ words " invocations)"
            ∷ [])
          k)
    else none

unfoldable pub with_resume_after : ℕ → Desk → Desk
with_resume_after t k = record k { job = record (k.job) { resume_after = some t } }

unfoldable pub with_head : String → Desk → Desk
with_head sha k = record k { job = record (k.job) { head_sha = sha } }

-- `preserveWork`; the commit that git made is given, and none where the worktree is clean or missing or git
-- failed.
unfoldable pub preserve_work : Option String → Desk → Desk
unfolding with_head event
preserve_work none k = k
preserve_work (some sha) k = event (preserved k.job.state sha) (with_head sha k)

unfoldable pub go_on : Settings → World → State → Desk → Desk
unfolding transition cleanup same_state
go_on c w s k =
    let k' = transition w s [] k in
    if same_state s k.job.state then k else if same_state s completed then cleanup c w k' else k'

-- What `step` does with the outcome.
unfoldable pub settle_outcome : Settings → World → Option String → Outcome → Desk → Desk
unfolding go_on with_resume_after event transition held_for preserve_work hold
settle_outcome c w commit (next_state s) k = go_on c w s k
settle_outcome c w commit (quota_err backend backoff) k =
    transition w blocked_quota (words "quota/rate limit on backend " ∷ words backend ∷ [])
      (event (quota_note backend (w.now + backoff)) (with_resume_after (w.now + backoff) k))
settle_outcome c w commit (unreachable_err backend detail backoff) k =
    hold w blocked_network
      (words "backend " ∷ words backend ∷ words " unreachable: " ∷ words detail ∷ [])
      (event (network_note backend detail (w.now + backoff))
        (with_resume_after (w.now + backoff) k))
settle_outcome c w commit (hold_err s reason) k = hold w s reason (preserve_work commit k)
settle_outcome c w commit (other_err reason) k = hold w escalated reason (preserve_work commit k)
settle_outcome c w commit (panicked reason) k = hold w escalated reason k
