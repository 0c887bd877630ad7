-- ===== src/Engine/Tick/Budget.antt =====
-- The age budget of a job in `tick`, and which jobs a pass lets run.
use sdlc_orchestrator.Common.{
  ℕ, ◌-◌, ◌<◌, ◌≡◌, refl, lt→ltb, if_both, Bool, true, false, ◌||◌, not, Option, none, some, String,
  arith, if_cases, if◌then◌else◌,
}
use sdlc_orchestrator.Engine.States
use sdlc_orchestrator.Engine.States.{
  State, timed_out, cancelled, Gate, gate_for, is_terminal, is_held, is_suspended, is_parked,
  is_resumable_state, member, same_state,
}
use sdlc_orchestrator.Engine.Job.{
  Job, Approval, Desk, Settings, World, consume, pending_approval, transition, moved_job, event,
  hold, held_for,
}
use sdlc_orchestrator.Engine.Job.Announce.{announce_gate}
use sdlc_orchestrator.Engine.Controls.{
  handle_controls, handle_resume, cancel_row, resume_row, resume_held, resume_into, resume_target,
  released, no_state,
}
use sdlc_orchestrator.Engine.Controls.Resumed.{
  Controlled, kept, stopped, restarted, job-cleanup, handle_controls-Controlled,
}
use sdlc_orchestrator.Engine.Gates.{handle_gate}
use sdlc_orchestrator.Engine.Gates.Edges.{Edge, Decided, handle_gate-Decided}
use sdlc_orchestrator.Engine.Gates.Edges
use sdlc_orchestrator.Engine.Tick.{
  without_delay, elapsed, end_backoff, end_delay, Passed, at_gate, past_delay, past_backoff,
  too_old, past_budget, announce, past_controls, pass_job,
}
use sdlc_orchestrator.Artifact.{Problem}
use sdlc_orchestrator.Artifact.Load.{Loaded}

-- The state is one whose handler runs: no gate, no hold, no backoff, no end.
abbrev pub Runs : State → Type 0
Runs s =
    (is_terminal s ≡ false) × (is_held s ≡ false) × (is_parked s ≡ false) × (is_suspended s ≡ false)

announce_job : (c : Settings) (w : World) (k : Desk) → Desk.job (announce c w k) ≡ k.job
unfolding announce announce_gate
announce_job c w k = ground arith

-- The states that `sdlc resume` accepts.
resumable-Runs : (s : State) → is_resumable_state s ≡ true → Runs s
unfolding is_resumable_state is_terminal is_held is_parked is_suspended
resumable-Runs States.scoping h = (refl, refl, refl, refl)
resumable-Runs _ h = ground arith

after_delay : (w : World) (k k' : Desk) → end_delay w k ≡ some k' → (Job.state k'.job ≡ k.job.state)
unfolding end_delay without_delay
after_delay w k k' h = grind arith

Edge-not_suspended :
    (limit : ℕ) (g : Gate) (d : _) (b : Bool) (n : ℕ) (s : State)
    → Edge limit g d b n s
    → is_suspended s ≡ false
unfolding is_suspended
Edge-not_suspended limit g d b n s Edges.plan_it = refl
Edge-not_suspended limit g d b n s _ = refl

Decided-not_suspended :
    (c : Settings) (k : Desk) (s : State)
    → is_suspended k.job.state ≡ false
    → Decided c k s
    → is_suspended s ≡ false
Decided-not_suspended c k s h Edges.waiting = h
Decided-not_suspended c k s h (Edges.passed g a t at row edge) = Edge-not_suspended _ g _ _ _ t edge

none_of : (a b d : Bool) → not (a || (b || d)) ≡ true → (a ≡ false) × (b ≡ false) × (d ≡ false)
none_of a b d h = ground arith

at_gate-Runs :
    (c : Settings) (w : World) (prob : Loaded Problem) (k : Desk)
    → is_terminal k.job.state ≡ false
    → is_held k.job.state ≡ false
    → is_suspended k.job.state ≡ false
    → (at_gate c w prob k).1 ≡ true
    → Runs (Job.state (Desk.job ((at_gate c w prob k).0)))
unfolding at_gate
at_gate-Runs c w prob k t h s =
    if_cases (λ (r : Passed). r.1 ≡ true → Runs (Job.state (Desk.job (r.0))))
      (is_parked k.job.state) _ _
      (λ parked runs.
        let k' = handle_gate c w prob k in
        let f =
          none_of (is_parked k'.job.state) (is_terminal k'.job.state) (is_held k'.job.state) runs in
        (f.1, f.2, f.0, Decided-not_suspended c k k'.job.state s (handle_gate-Decided c w prob k)))
      (λ parked runs. (t, h, parked, s))

Started : Desk → Type 0
Started k = (is_suspended k.job.state ≡ true → is_resumable_state k.job.prev_state ≡ true)

past_delay-Runs :
    (c : Settings) (w : World) (prob : Loaded Problem) (k : Desk)
    → is_terminal k.job.state ≡ false
    → is_held k.job.state ≡ false
    → is_suspended k.job.state ≡ false
    → (past_delay c w prob k).1 ≡ true
    → Runs (Job.state (Desk.job ((past_delay c w prob k).0)))
unfolding past_delay
past_delay-Runs c w prob k t h s = by_delay (end_delay w k) refl
  where
    by_delay :
        (o : Option Desk)
        → end_delay w k ≡ o
        → (let r : Passed = elim o [ none ↦ (k, false) | some k' ↦ at_gate c w prob k' ] in
            r.1 ≡ true → Runs (Job.state (Desk.job (r.0))))
    by_delay none e runs = ground arith
    by_delay (some k') e runs =
        let same = after_delay w k k' e in
        at_gate-Runs c w prob k' (rw same t) (rw same h) (rw same s) runs

elapsed_state :
    (w : World) (k k' : Desk) (o : Option ℕ)
    → elapsed w k o ≡ some k'
    → Job.state k'.job ≡ k.job.prev_state
unfolding elapsed without_delay transition moved_job event
elapsed_state w k k' none h = ground arith
elapsed_state w k k' (some t) h = grind arith

past_backoff-Runs :
    (c : Settings) (w : World) (prob : Loaded Problem) (k : Desk)
    → is_terminal k.job.state ≡ false
    → is_held k.job.state ≡ false
    → Started k
    → (past_backoff c w prob k).1 ≡ true
    → Runs (Job.state (Desk.job ((past_backoff c w prob k).0)))
unfolding past_backoff end_backoff Started
past_backoff-Runs c w prob k t h started =
    by_backoff (is_suspended k.job.state) (elapsed w k k.job.resume_after) refl refl
  where
    by_backoff :
        (b : Bool) (o : Option Desk)
        → is_suspended k.job.state ≡ b
        → elapsed w k k.job.resume_after ≡ o
        → (let r : Passed = elim (if b then o else some k) [
          | none ↦ (k, false)
          | some k' ↦ past_delay c w prob k'
        ] in
            r.1 ≡ true → Runs (Job.state (Desk.job (r.0))))
    by_backoff false o e e' runs = past_delay-Runs c w prob k t h e runs
    by_backoff true none e e' runs = ground arith
    by_backoff true (some k') e e' runs =
        let back = elapsed_state w k k' _ e' in
        let f = resumable-Runs k.job.prev_state (started e) in
        past_delay-Runs c w prob k' (rw back (f.0)) (rw back (f.1)) (rw back (f.3)) runs

past_budget-Runs :
    (c : Settings) (w : World) (prob : Loaded Problem) (k : Desk)
    → is_terminal k.job.state ≡ false
    → Started k
    → (past_budget c w prob k).1 ≡ true
    → Runs (Job.state (Desk.job ((past_budget c w prob k).0)))
unfolding past_budget
past_budget-Runs c w prob k t started =
    if_cases (λ (r : Passed). r.1 ≡ true → Runs (Job.state (Desk.job (r.0)))) (is_held k.job.state)
      _ _ (λ held runs. ground arith)
      (λ held.
        if_cases (λ (r : Passed). r.1 ≡ true → Runs (Job.state (Desk.job (r.0))))
          (too_old c w k.job) _ _ (λ old runs. ground arith)
          (λ old runs. past_backoff-Runs c w prob k t held started runs))

-- A control row leaves a backoff that can end.
Controlled-started :
    (w : World) (k : Desk) (s p : State)
    → Controlled w k s p
    → (is_suspended k.job.state ≡ true → is_resumable_state k.job.prev_state ≡ true)
    → is_suspended s ≡ true
    → is_resumable_state p ≡ true
unfolding is_suspended
Controlled-started w k s p kept started suspended = started suspended
Controlled-started w k s p (stopped a row) started suspended = ground arith
Controlled-started w k s p (restarted to a row was fits) started suspended =
    let f = resumable-Runs to fits in ground arith

module _ (trim_space : String → String) where
  -- A job that a pass lets run is in a state whose handler does work: it has not ended, is not held, waits at
  -- no gate and for no backoff. The job of a backoff comes from a state that `sdlc resume` accepts.
  pub pass_job-Runs :
      (c : Settings) (w : World) (prob : Loaded Problem) (k : Desk)
      → (is_suspended k.job.state ≡ true → is_resumable_state k.job.prev_state ≡ true)
      → (pass_job trim_space c w prob k).1 ≡ true
      → Runs (Job.state (Desk.job ((pass_job trim_space c w prob k).0)))
  unfolding pass_job past_controls Started
  pass_job-Runs c w prob k started =
      let k' = handle_controls trim_space c w k in
      let same = announce_job c w k' in
      let still =
        Controlled-started w k _ _ (handle_controls-Controlled trim_space c w k) started in
      if_cases (λ (r : Passed). r.1 ≡ true → Runs (Job.state (Desk.job (r.0))))
        (is_terminal k.job.state) _ _ (λ e runs. ground arith)
        (λ e.
          if_cases (λ (r : Passed). r.1 ≡ true → Runs (Job.state (Desk.job (r.0))))
            (is_terminal k'.job.state) _ _ (λ t runs. ground arith)
            (λ t runs.
              past_budget-Runs c w prob (announce c w k') (rw same t) (rw same still) runs))

  resume_row-created :
      (w : World) (a : Approval) (k : Desk)
      → (resume_row trim_space w a k).job.created_at ≡ k.job.created_at
  unfolding resume_row resume_held resume_into released event transition moved_job consume
  resume_row-created w a k =
      let C : (Desk → Type 0) = λ x. x.job.created_at ≡ k.job.created_at in
      if_both C (is_held k.job.state || is_suspended k.job.state)
        (resume_held trim_space w a (consume a.id k)) (consume a.id k)
        (if_both C (no_state (resume_target trim_space a k.job)) _ _ refl
          (if_both C (not (is_resumable_state (resume_target trim_space a k.job))) _ _ refl refl))
        refl

  cancel_row-created :
      (c : Settings) (w : World) (a : Approval) (k : Desk)
      → (cancel_row trim_space c w a k).job.created_at ≡ k.job.created_at
  unfolding cancel_row consume event transition moved_job
  cancel_row-created c w a k = rw (job-cleanup c w _) refl

  handle_controls-created :
      (c : Settings) (w : World) (k : Desk)
      → (handle_controls trim_space c w k).job.created_at ≡ k.job.created_at
  unfolding handle_controls handle_resume
  handle_controls-created c w k =
      by_cancel (pending_approval w Gate.cancel k) (pending_approval w Gate.resume k)
    where
      by_resume :
          (o : Option (Option Approval))
          → (let x : Desk = elim o [
            | none ↦ k
            | some none ↦ k
            | some (some a) ↦ resume_row trim_space w a k
          ] in
              x.job.created_at ≡ k.job.created_at)
      by_resume none = refl
      by_resume (some none) = refl
      by_resume (some (some a)) = resume_row-created w a k

      by_cancel :
          (o p : Option (Option Approval))
          → (let x : Desk = elim o [
            | none ↦ k
            | some none ↦ elim p [
              | none ↦ k
              | some none ↦ k
              | some (some a) ↦ resume_row trim_space w a k
            ]
            | some (some a) ↦ cancel_row trim_space c w a k
          ] in
              x.job.created_at ≡ k.job.created_at)
      by_cancel none p = refl
      by_cancel (some none) p = by_resume p
      by_cancel (some (some a)) p = cancel_row-created c w a k

  -- A job that is past `limits.max_job_duration` before the pass and that a row resumes in it ends in TIMED_OUT in
  -- that same pass, and its handler does not run: `sdlc resume` does not clear the budget.
  pub resume_past_budget :
      (c : Settings) (w : World) (prob : Loaded Problem) (k : Desk)
      → is_terminal k.job.state ≡ false
      → (is_resumable_state (Job.state (Desk.job (handle_controls trim_space c w k))) ≡ true)
      → c.max_job_duration < w.now - k.job.created_at
      → (Job.state (Desk.job ((pass_job trim_space c w prob k).0)) ≡ timed_out)
        × ((pass_job trim_space c w prob k).1 ≡ false)
  unfolding pass_job past_controls past_budget hold held_for transition moved_job event too_old
  resume_past_budget c w prob k t fits old =
      let k' = handle_controls trim_space c w k in
      let same = announce_job c w k' in
      let f = resumable-Runs k'.job.state fits in
      let late = lt→ltb c.max_job_duration (w.now - k.job.created_at) old in
      rw (t, f.0, same, f.1, handle_controls-created c w k, late) (refl, refl)
