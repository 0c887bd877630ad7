-- ===== src/Engine/Controls/Resumed.antt =====
-- What the control rows of internal/engine/engine.go may do to a job's state.
use sdlc_orchestrator.Common.{
  ◌≡◌, refl, Bool, true, false, ◌||◌, not, Option, none, some, String, arith, if_cases,
}
use sdlc_orchestrator.Engine.States.{
  State, cancelled, Gate, is_held, is_suspended, is_resumable_state,
}
use sdlc_orchestrator.Engine.Job.{
  Approval, Desk, Settings, World, event, transition, moved_job, cleanup, removed, pending_approval,
  oldest, consume,
}
use sdlc_orchestrator.Engine.Controls.{
  no_state, resume_target, resume_into, resume_held, resume_row, cancel_row, handle_resume,
  handle_controls,
}

-- The removal of the worktree leaves the job as it is.
pub job-cleanup : (c : Settings) (w : World) (k : Desk) → Desk.job (cleanup c w k) ≡ k.job
unfolding cleanup removed
job-cleanup c w k = ground arith

-- What a job may become by its control rows: left in its state; cancelled by a row; or, out of a hold or a
-- backoff, put where work is done.
pub data Controlled (w : World) (k : Desk) : State → State → Type 0 where
  kept : Controlled w k k.job.state k.job.prev_state
  stopped :
      (a : Approval) → oldest Gate.cancel k.rows ≡ some a → Controlled w k cancelled k.job.state
  restarted :
      (to : State) (a : Approval)
      → oldest Gate.resume k.rows ≡ some a
      → is_held k.job.state || is_suspended k.job.state ≡ true
      → is_resumable_state to ≡ true
      → Controlled w k to k.job.state

abbrev pub ControlledTo : World → Desk → Desk → Type 0
ControlledTo w k k' = Controlled w k k'.job.state k'.job.prev_state

pub pending-oldest :
    (w : World) (g : Gate) (k : Desk) (a : Approval)
    → pending_approval w g k ≡ some (some a)
    → oldest g k.rows ≡ some a
unfolding pending_approval
pending-oldest w g k a h = grind arith

not-false : (b : Bool) → not b ≡ false → b ≡ true
not-false b h = ground arith

module _ (trim_space : String → String) where
  resume_held-Controlled :
      (w : World) (a : Approval) (k : Desk)
      → oldest Gate.resume k.rows ≡ some a
      → is_held k.job.state || is_suspended k.job.state ≡ true
      → ControlledTo w k (resume_held trim_space w a (consume a.id k))
  unfolding resume_held resume_into event transition moved_job consume
  resume_held-Controlled w a k row held =
      let to = resume_target trim_space a k.job in
      if_cases (ControlledTo w k) (no_state to) _ _ (λ _. kept)
        (λ _.
          if_cases (ControlledTo w k) (not (is_resumable_state to)) _ _ (λ _. kept)
            (λ e. restarted to a row held (not-false (is_resumable_state to) e)))

  resume_row-Controlled :
      (w : World) (a : Approval) (k : Desk)
      → oldest Gate.resume k.rows ≡ some a
      → ControlledTo w k (resume_row trim_space w a k)
  unfolding resume_row consume
  resume_row-Controlled w a k row =
      if_cases (ControlledTo w k) (is_held k.job.state || is_suspended k.job.state) _ _
        (resume_held-Controlled w a k row) (λ _. kept)

  handle_resume-Controlled :
      (w : World) (k : Desk) → ControlledTo w k (handle_resume trim_space w k)
  unfolding handle_resume
  handle_resume-Controlled w k = split (pending_approval w Gate.resume k) refl
    where
      split :
          (o : Option (Option Approval))
          → pending_approval w Gate.resume k ≡ o
          → ControlledTo w k
              (elim o [ none ↦ k | some none ↦ k | some (some a) ↦ resume_row trim_space w a k ])
      split none e = kept
      split (some none) e = kept
      split (some (some a)) e = resume_row-Controlled w a k (pending-oldest w Gate.resume k a e)

  cancel_row-Controlled :
      (c : Settings) (w : World) (a : Approval) (k : Desk)
      → oldest Gate.cancel k.rows ≡ some a
      → ControlledTo w k (cancel_row trim_space c w a k)
  unfolding cancel_row consume event transition moved_job
  cancel_row-Controlled c w a k row = rw (job-cleanup c w _) (stopped a row)

  -- The control rows leave a job in its state, or cancel it by a cancel row of its own, or by a resume row
  -- move it out of a hold or a backoff, and then only into one of the states that run work.
  pub handle_controls-Controlled :
      (c : Settings) (w : World) (k : Desk) → ControlledTo w k (handle_controls trim_space c w k)
  unfolding handle_controls
  handle_controls-Controlled c w k = split (pending_approval w Gate.cancel k) refl
    where
      split :
          (o : Option (Option Approval))
          → pending_approval w Gate.cancel k ≡ o
          → ControlledTo w k (elim o [
            | none ↦ k
            | some none ↦ handle_resume trim_space w k
            | some (some a) ↦ cancel_row trim_space c w a k
          ])
      split none e = kept
      split (some none) e = handle_resume-Controlled w k
      split (some (some a)) e = cancel_row-Controlled c w a k (pending-oldest w Gate.cancel k a e)
