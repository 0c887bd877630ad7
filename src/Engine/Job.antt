-- ===== src/Engine/Job.antt =====
-- What internal/engine/engine.go keeps of a job: the fields of store.Job and store.Counters that the loop
-- reads or writes, the job's approval rows, its events and the notice of its gate.
-- A write to the store succeeds, so the row is what the engine holds in memory.
pub mod Announce
use sdlc_orchestrator.Common.{
  ℕ, ltb, Bool, true, false, ◌&&◌, ◌||◌, not, List, [], ◌∷◌, ◌++◌, Option, none, some, String,
  str_eq, if◌then◌else◌, ◌==◌,
}
use sdlc_orchestrator.Engine.States.{State, completed, Gate, same_state}

-- A message that the code formats, by its parts.
pub data Piece : Type 0 where
  words : String → Piece
  number : ℕ → Piece
  duration : ℕ → Piece

-- `Counters`. The review and the log that it names are text.
pub record Counters : Type 0 where
  pub scope_rounds : ℕ
  pub design_review_rounds : ℕ
  pub code_review_rounds : ℕ
  pub fix_attempts : ℕ
  pub flake_retries : ℕ
  pub agent_retries : ℕ
  pub release_retries : ℕ
  pub agent_invocations : ℕ
  pub last_analysis : String
  pub fix_source : String
  pub analysis_round : ℕ
  pub ui_skipped : Bool
  pub failed_phase : String
  pub base_sha : String
  pub state_entry_head : String
  pub last_failure_log : String
  pub human_reject_reason : String
  pub last_design_review : List Piece

-- `resume_after` is `none` for the zero time.
pub record Job : Type 0 where
  pub target : String
  pub state : State
  pub prev_state : State
  pub branch : String
  pub head_sha : String
  pub created_at : ℕ
  pub state_entered_at : ℕ
  pub resume_after : Option ℕ
  pub hold_reason : List Piece
  pub counters : Counters

pub data Decision : Type 0 where
  approve reject : Decision
  other_decision : String → Decision

pub record Approval : Type 0 where
  pub id : ℕ
  pub gate : Gate
  pub decision : Decision
  pub reason : String
  pub note : String
  pub cancel : Bool
  pub consumed : Bool

pub data Detail : Type 0 where
  cancelled_by : String → Detail
  resumed : State → Option String → Detail
  resume_rejected : State → Detail
  decided : Gate → Decision → String → Detail
  waived : List String → Detail
  moved : State → State → List Piece → Detail
  quota_note : String → ℕ → Detail
  network_note : String → String → ℕ → Detail
  preserved : State → String → Detail
  noted : List Piece → Detail

-- An event, with the state its job has when it is recorded.
pub record Event : Type 0 where
  pub state : State
  pub detail : Detail

-- `gateNotice`, less the text it shows.
pub record Notice : Type 0 where
  pub gate : Gate
  pub state : State
  pub last : ℕ

-- A job and what belongs to it. `printed` is the console: for each notice, whether it is a reminder.
pub record Desk : Type 0 where
  pub job : Job
  pub rows : List Approval
  pub events : List Event
  pub announced : Option Notice
  pub printed : List Bool
  pub worktree : Bool
  pub branch : Bool

-- The configuration that the loop reads.
pub record Settings : Type 0 where
  pub max_job_duration : ℕ
  pub max_scope_rounds : ℕ
  pub gate_reminder_interval : ℕ
  pub cleanup_worktrees : String
  pub delete_branch_on_success : Bool
  pub has_target : String → Bool

-- What the clock, the database and git answer.
pub record World : Type 0 where
  pub now : ℕ
  pub read_fails : Gate → Bool
  pub removes_worktree : Bool
  pub deletes_branch : Bool

unfoldable pub event : Detail → Desk → Desk
event d k = record k { events = k.events ++ (record { state = k.job.state; detail = d } ∷ []) }

-- The job as `transition` leaves it.
unfoldable pub moved_job : ℕ → State → Job → Job
moved_job now next j = record j {
  prev_state = j.state;
  state = next;
  state_entered_at = now;
  counters = record (j.counters) { agent_retries = 0; state_entry_head = "" };
}

unfoldable pub transition : World → State → List Piece → Desk → Desk
unfolding moved_job event
transition w next note k =
    event (moved k.job.state next note)
      (record k { job = moved_job w.now next k.job; announced = none })

unfoldable pub held_for : List Piece → Desk → Desk
held_for reason k = record k { job = record (k.job) { hold_reason = reason } }

unfoldable pub hold : World → State → List Piece → Desk → Desk
unfolding transition held_for
hold w s reason k = transition w s reason (held_for reason k)

unfoldable pub removed : Bool → World → Desk → Desk
removed delete w k = record k {
  worktree = k.worktree && not w.removes_worktree;
  branch = k.branch && not (delete && w.deletes_branch);
}

unfoldable pub cleanup : Settings → World → Desk → Desk
unfolding removed same_state
cleanup c w k =
    let success = same_state k.job.state completed in
    if str_eq c.cleanup_worktrees "never"
      || (str_eq c.cleanup_worktrees "on_success" && not success)
    then k
    else if c.has_target k.job.target
    then removed (success && c.delete_branch_on_success) w k
    else k

unfoldable pub same_gate : Gate → Gate → Bool
same_gate Gate.scope Gate.scope = true
same_gate Gate.spec Gate.spec = true
same_gate Gate.code Gate.code = true
same_gate Gate.merge Gate.merge = true
same_gate Gate.release Gate.release = true
same_gate Gate.hold Gate.hold = true
same_gate Gate.cancel Gate.cancel = true
same_gate Gate.resume Gate.resume = true
same_gate _ _ = false

-- The oldest row of the gate that is not consumed; the rows stand in the order of their ids.
unfoldable pub oldest : Gate → List Approval → Option Approval
unfolding same_gate
oldest g [] = none
oldest g (a ∷ rows) =
    let rest = oldest g rows in if same_gate a.gate g && not a.consumed then some a else rest

-- What `PendingApproval` returns: the outer `none` is its error.
unfoldable pub pending_approval : World → Gate → Desk → Option (Option Approval)
unfolding oldest
pending_approval w g k = if w.read_fails g then none else some (oldest g k.rows)

unfoldable pub consume_row : ℕ → List Approval → List Approval
consume_row id [] = []
consume_row id (a ∷ rows) =
    (if a.id == id then record a { consumed = true } else a) ∷ consume_row id rows

unfoldable pub consume : ℕ → Desk → Desk
unfolding consume_row
consume id k = record k { rows = consume_row id k.rows }
