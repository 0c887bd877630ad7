-- ===== src/Engine/Examples.antt =====
-- Runs of the models of internal/engine and internal/server at small inputs.
use sdlc_orchestrator.Common.{
  ℕ, ◌≡◌, ◌≢◌, ◌≤◌, inr, refl, length, true, false, List, [], ◌∷◌, none, String, arith,
}
use sdlc_orchestrator.Engine.States
use sdlc_orchestrator.Engine.States.{
  State, Gate, is_terminal, is_parked, is_held, is_suspended, is_resumable_state, text, of_text,
}
use sdlc_orchestrator.Engine.Job.{Job, Decision, approve, Approval, Desk, Settings, World, oldest}
use sdlc_orchestrator.Engine.Job.Announce.{announce_gate}
use sdlc_orchestrator.Engine.Job.Announce.Once.{announce_gate-once}
use sdlc_orchestrator.Engine.Controls.{handle_controls}
use sdlc_orchestrator.Engine.Controls.Resumed.{ControlledTo, handle_controls-Controlled}
use sdlc_orchestrator.Engine.Gates.{handle_gate}
use sdlc_orchestrator.Engine.Gates.Edges.{Decided, handle_gate-Decided}
use sdlc_orchestrator.Engine.Tick.{pass_job, Slot, Pass, tick}
use sdlc_orchestrator.Engine.Tick.Budget.{Runs, pass_job-Runs, resume_past_budget}
use sdlc_orchestrator.Engine.Step.{quota_err, settle_outcome}
use sdlc_orchestrator.Engine.Step.Suspends.{IsBack, by_quota, settle_outcome-IsBack}
use sdlc_orchestrator.Common.{◌+◌, ◌<◌}
use sdlc_orchestrator.Engine.Tick.Slots.{flying, tick-Fits}
use sdlc_orchestrator.Artifact.Load.{unreadable}

abbrev trim : String → String
trim s = s

abbrev pub job_at : State → State → Job
job_at s prev = record {
  target = "app";
  state = s;
  prev_state = prev;
  branch = "sdlc/JOB-1";
  head_sha = "abc";
  created_at = 10;
  state_entered_at = 20;
  resume_after = none;
  hold_reason = [];
  counters = record {
    scope_rounds = 0;
    design_review_rounds = 0;
    code_review_rounds = 0;
    fix_attempts = 0;
    flake_retries = 0;
    agent_retries = 2;
    release_retries = 0;
    agent_invocations = 3;
    last_analysis = "";
    fix_source = "";
    analysis_round = 0;
    ui_skipped = false;
    failed_phase = "";
    base_sha = "abc";
    state_entry_head = "abc";
    last_failure_log = "";
    human_reject_reason = "";
    last_design_review = [];
  };
}

abbrev row : ℕ → Gate → Decision → Approval
row n g d = record {
  id = n;
  gate = g;
  decision = d;
  reason = "";
  note = "";
  cancel = false;
  consumed = false;
}

abbrev pub desk_of : Job → List Approval → Desk
desk_of j rows = record {
  job = j;
  rows = rows;
  events = [];
  announced = none;
  printed = [];
  worktree = true;
  branch = true;
}

abbrev pub settings : Settings
settings = record {
  max_job_duration = 100;
  max_scope_rounds = 2;
  gate_reminder_interval = 30;
  cleanup_worktrees = "on_success";
  delete_branch_on_success = true;
  has_target = λ s. true;
}

abbrev pub at : ℕ → World
at t = record { now = t; read_fails = λ g. false; removes_worktree = true; deletes_branch = true }

-- A job at the merge gate, with an approval.
abbrev approved : Desk
approved = desk_of (job_at States.await_merge States.final_review) (row 1 Gate.merge approve ∷ [])

-- An escalated job with a resume row.
abbrev escalated_desk : Desk
escalated_desk = desk_of (job_at States.escalated States.building) (row 1 Gate.resume approve ∷ [])

not_suspended :
    is_suspended States.await_merge ≡ true → is_resumable_state States.final_review ≡ true
unfolding is_suspended
not_suspended h = ground arith

approved_runs : (pass_job trim settings (at 50) unreadable approved).1 ≡ true
unfolding pass_job
approved_runs = refl

pass_job-Runs_example :
    Runs (Job.state (Desk.job ((pass_job trim settings (at 50) unreadable approved).0)))
pass_job-Runs_example =
    pass_job-Runs trim settings (at 50) unreadable approved not_suspended approved_runs

handle_gate-Decided_example :
    Decided settings approved
      (Job.state (Desk.job (handle_gate settings (at 50) unreadable approved)))
handle_gate-Decided_example = handle_gate-Decided settings (at 50) unreadable approved

handle_controls-Controlled_example :
    ControlledTo (at 50) escalated_desk (handle_controls trim settings (at 50) escalated_desk)
handle_controls-Controlled_example = handle_controls-Controlled trim settings (at 50) escalated_desk

resumed_state :
    is_resumable_state
      (Job.state (Desk.job (handle_controls trim settings (at 200) escalated_desk)))
    ≡ true
unfolding is_resumable_state handle_controls is_held text
resumed_state = refl

not_done : is_terminal States.escalated ≡ false
unfolding is_terminal
not_done = refl

resume_past_budget_example :
    (Job.state (Desk.job ((pass_job trim settings (at 200) unreadable escalated_desk).0))
      ≡ States.timed_out)
    × ((pass_job trim settings (at 200) unreadable escalated_desk).1 ≡ false)
resume_past_budget_example =
    resume_past_budget trim settings (at 200) unreadable escalated_desk not_done resumed_state
      (omega arith)

abbrev two_slots : List Slot
two_slots =
    record { desk = approved; problem = unreadable; in_flight = false }
    ∷ record { desk = escalated_desk; problem = unreadable; in_flight = true }
    ∷ []

one_flies : flying two_slots ≤ 1
unfolding flying
one_flies = omega arith

tick-Fits_example :
    (let p : Pass = tick trim settings (at 50) 1 two_slots (flying two_slots) in
      (p.used ≡ flying p.slots) × (flying p.slots ≤ 1))
tick-Fits_example = tick-Fits trim settings (at 50) 1 two_slots one_flies

abbrev unnoticed : Desk
unnoticed = desk_of (job_at States.await_spec States.design_review) []

prints :
    length unnoticed.printed < length (announce_gate settings (at 50) Gate.spec unnoticed).printed
unfolding announce_gate
prints = omega arith

announce_gate-once_example :
    announce_gate settings (at 70) Gate.spec (announce_gate settings (at 50) Gate.spec unnoticed)
    ≡ announce_gate settings (at 50) Gate.spec unnoticed
announce_gate-once_example =
    announce_gate-once settings (at 50) (at 70) Gate.spec unnoticed prints (inr (omega arith))

building_constant : (t : String) → States.building ≢ States.other t
building_constant t h = ground arith

building_not_created : States.building ≢ States.created
building_not_created h = ground arith

abbrev fixing_desk : Desk
fixing_desk = desk_of (job_at States.fixing States.building) []

abbrev blocked_desk : Desk
blocked_desk = settle_outcome settings (at 50) none (quota_err "claude" 30) fixing_desk

fixing-Runs : Runs States.fixing
unfolding is_terminal is_held is_parked is_suspended
fixing-Runs = (refl, refl, refl, refl)

no_row : (g : Gate) → oldest g [] ≡ none
unfolding oldest
no_row g = refl

settle_outcome-IsBack_example :
    ((at 90).now ≤ (at 50).now + 30
      → pass_job trim settings (at 90) unreadable blocked_desk ≡ (blocked_desk, false))
    × ((at 50).now + 30 < (at 90).now
        → IsBack fixing_desk (pass_job trim settings (at 90) unreadable blocked_desk))
settle_outcome-IsBack_example =
    settle_outcome-IsBack trim settings (at 50) (at 90) unreadable none (quota_err "claude" 30) 30
      fixing_desk by_quota fixing-Runs (no_row Gate.cancel) (no_row Gate.resume) (omega arith)
