-- ===== src/Engine/Tick.antt =====
-- `tick` of internal/engine/engine.go: one pass over the jobs, and the slots of the semaphore.
pub mod Slots
pub mod Budget
use sdlc_orchestrator.Common.{
  ℕ, suc, ◌-◌, ltb, Bool, true, false, ◌&&◌, ◌||◌, not, List, [], ◌∷◌, Option, none, some, is_some,
  String, if◌then◌else◌,
}
use sdlc_orchestrator.Engine.States.{
  State, timed_out, blocked_network, Gate, gate_for, is_terminal, is_held, is_suspended, is_parked,
  same_state,
}
use sdlc_orchestrator.Engine.Job.{
  Piece, words, duration, Job, Desk, Settings, World, transition, hold,
}
use sdlc_orchestrator.Engine.Job.Announce.{announce_gate}
use sdlc_orchestrator.Engine.Controls.{handle_controls}
use sdlc_orchestrator.Engine.Gates.{handle_gate}
use sdlc_orchestrator.Artifact.{Problem}
use sdlc_orchestrator.Artifact.Load.{Loaded}

unfoldable pub without_delay : Desk → Desk
without_delay k = record k { job = record (k.job) { resume_after = none } }

abbrev pub why_of : State → String
why_of s = if same_state s blocked_network then "network backoff" else "quota backoff"

-- A backoff that has elapsed puts the job where it was; `none` where it has not.
unfoldable pub elapsed : World → Desk → Option ℕ → Option Desk
unfolding transition without_delay same_state
elapsed w k none = none
elapsed w k (some t) =
    if ltb t w.now
    then some (
        transition w k.job.prev_state (words (why_of k.job.state) ∷ words " elapsed" ∷ [])
          (without_delay k))
    else none

unfoldable pub end_backoff : World → Desk → Option Desk
unfolding is_suspended elapsed
end_backoff w k = if is_suspended k.job.state then elapsed w k k.job.resume_after else some k

-- The delay of a state; `none` where it has not passed.
unfoldable pub end_delay : World → Desk → Option Desk
unfolding without_delay
end_delay w k = elim (k.job.resume_after) [
  | none ↦ some k
  | some t ↦ if ltb w.now t then none else some (without_delay k)
]

-- What the pass leaves of a job, and whether the job may run.
abbrev pub Passed : Type 0
Passed = Desk × Bool

unfoldable pub at_gate : Settings → World → Loaded Problem → Desk → Passed
unfolding handle_gate is_parked is_terminal is_held
at_gate c w prob k =
    if is_parked k.job.state
    then (let k' = handle_gate c w prob k in
        (k', not (is_parked k'.job.state || (is_terminal k'.job.state || is_held k'.job.state))))
    else (k, true)

unfoldable pub past_delay : Settings → World → Loaded Problem → Desk → Passed
unfolding end_delay at_gate
past_delay c w prob k = elim (end_delay w k) [ none ↦ (k, false) | some k' ↦ at_gate c w prob k' ]

unfoldable pub past_backoff : Settings → World → Loaded Problem → Desk → Passed
unfolding end_backoff past_delay
past_backoff c w prob k = elim (end_backoff w k) [
  | none ↦ (k, false)
  | some k' ↦ past_delay c w prob k'
]

unfoldable pub too_old : Settings → World → Job → Bool
too_old c w j = ltb c.max_job_duration (w.now - j.created_at)

unfoldable pub past_budget : Settings → World → Loaded Problem → Desk → Passed
unfolding is_held too_old hold past_backoff
past_budget c w prob k =
    if is_held k.job.state
    then (k, false)
    else if too_old c w k.job
    then (
      hold w timed_out
          (words "exceeded limits.max_job_duration ("
            ∷ duration c.max_job_duration
            ∷ words ")"
            ∷ [])
          k,
      false,
    )
    else past_backoff c w prob k

unfoldable pub announce : Settings → World → Desk → Desk
unfolding gate_for announce_gate
announce c w k = elim (gate_for k.job.state) [ none ↦ k | some g ↦ announce_gate c w g k ]

-- A job, with whether its handler runs. `problem` is what `LoadProblem` returns for it.
pub record Slot : Type 0 where
  pub desk : Desk
  pub problem : Loaded Problem
  pub in_flight : Bool

-- The jobs, the tokens in the semaphore, the jobs counted as pending and whether one was dispatched.
pub record Pass : Type 0 where
  pub slots : List Slot
  pub used : ℕ
  pub pending : ℕ
  pub dispatched : Bool

-- The `select` on the semaphore, for a job that may run.
unfoldable pub dispatch : ℕ → Slot → Pass → Pass
dispatch limit s p =
    if ltb p.used limit
    then record {
      slots = record s { in_flight = true } ∷ p.slots;
      used = suc p.used;
      pending = suc p.pending;
      dispatched = true;
    }
    else record p { slots = s ∷ p.slots; pending = suc p.pending }

module _ (trim_space : String → String) where
  unfoldable pub past_controls : Settings → World → Loaded Problem → Desk → Passed
  unfolding is_terminal announce past_budget
  past_controls c w prob k =
      if is_terminal k.job.state then (k, false) else past_budget c w prob (announce c w k)

  -- The pass over a job that is not in flight.
  unfoldable pub pass_job : Settings → World → Loaded Problem → Desk → Passed
  unfolding is_terminal handle_controls past_controls
  pass_job c w prob k =
      if is_terminal k.job.state
      then (k, false)
      else past_controls c w prob (handle_controls trim_space c w k)

  unfoldable pub tick_job : Settings → World → ℕ → Slot → Pass → Pass
  unfolding pass_job dispatch is_terminal
  tick_job c w limit s p =
      if is_terminal s.desk.job.state
      then record p { slots = s ∷ p.slots }
      else if s.in_flight
      then record p { slots = s ∷ p.slots; pending = suc p.pending }
      else (let r = pass_job c w s.problem s.desk in
          if r.1
          then dispatch limit (record s { desk = r.0 }) p
          else record p { slots = record s { desk = r.0 } ∷ p.slots })

  -- The loop; the jobs that are done stand in front, the last first.
  unfoldable pub tick_from : Settings → World → ℕ → List Slot → Pass → Pass
  unfolding tick_job
  tick_from c w limit [] p = p
  tick_from c w limit (s ∷ ss) p = tick_from c w limit ss (tick_job c w limit s p)

  -- `tick` on the jobs that `ListJobs` returns, with the tokens taken so far.
  unfoldable pub tick : Settings → World → ℕ → List Slot → ℕ → Pass
  unfolding tick_from
  tick c w limit jobs used =
      tick_from c w limit jobs (record { slots = []; used = used; pending = 0; dispatched = false })
