-- ===== src/Engine/Controls.antt =====
-- `handleControls` of internal/engine/engine.go: the cancel and resume rows of a job.
pub mod Resumed
use sdlc_orchestrator.Common.{
  ℕ, Bool, true, false, ◌||◌, not, List, [], ◌∷◌, Option, none, some, String, str_eq, if◌then◌else◌,
}
use sdlc_orchestrator.Engine.States.{
  State, other, cancelled, Gate, is_held, is_suspended, is_resumable_state, of_text,
}
use sdlc_orchestrator.Engine.Job.{
  Piece, words, Counters, Job, Approval, Detail, cancelled_by, resumed, resume_rejected, Desk,
  Settings, World, event, transition, cleanup, pending_approval, consume,
}

-- The empty string is no state.
unfoldable pub no_state : State → Bool
no_state (other s) = str_eq s ""
no_state _ = false

-- `strings.TrimSpace` of package strings.
module _ (trim_space : String → String) where
  -- Where a resume row sends the job: its reason, or the state it came from.
  unfoldable pub resume_target : Approval → Job → State
  unfolding no_state of_text
  resume_target a j =
      let to = of_text (trim_space a.reason) in if no_state to then j.prev_state else to

  -- A note for the agent takes the channel of a human's rejection.
  unfoldable pub noted : Approval → Counters → Counters
  noted a c = if str_eq (trim_space a.note) "" then c else record c {
    human_reject_reason = trim_space a.note;
    fix_source = "human";
    last_analysis = "";
  }

  unfoldable pub note_of : Approval → Option String
  note_of a = if str_eq (trim_space a.note) "" then none else some (trim_space a.note)

  unfoldable pub released : Approval → Job → Job
  unfolding noted
  released a j = record j { resume_after = none; hold_reason = []; counters = noted a j.counters }

  unfoldable pub resume_into : World → Approval → State → Desk → Desk
  unfolding released note_of event transition
  resume_into w a to k =
      transition w to (words "resumed by user" ∷ [])
        (event (resumed to (note_of a)) (record k { job = released a k.job }))

  -- The row is consumed already.
  unfoldable pub resume_held : World → Approval → Desk → Desk
  unfolding resume_target resume_into no_state is_resumable_state event
  resume_held w a k =
      let to = resume_target a k.job in
      if no_state to
      then k
      else if not (is_resumable_state to)
      then event (resume_rejected to) k
      else resume_into w a to k

  unfoldable pub resume_row : World → Approval → Desk → Desk
  unfolding resume_held consume
  resume_row w a k =
      if is_held k.job.state || is_suspended k.job.state
      then resume_held w a (consume a.id k)
      else consume a.id k

  unfoldable pub cancel_row : Settings → World → Approval → Desk → Desk
  unfolding consume event transition cleanup
  cancel_row c w a k = cleanup c w (
      transition w cancelled (words "cancelled by user: " ∷ words a.reason ∷ [])
        (event (cancelled_by a.reason) (consume a.id k)))

  unfoldable pub handle_resume : World → Desk → Desk
  unfolding pending_approval resume_row
  handle_resume w k = elim (pending_approval w Gate.resume k) [
    | none ↦ k
    | some none ↦ k
    | some (some a) ↦ resume_row w a k
  ]

  unfoldable pub handle_controls : Settings → World → Desk → Desk
  unfolding pending_approval cancel_row handle_resume
  handle_controls c w k = elim (pending_approval w Gate.cancel k) [
    | none ↦ k
    | some none ↦ handle_resume w k
    | some (some a) ↦ cancel_row c w a k
  ]
