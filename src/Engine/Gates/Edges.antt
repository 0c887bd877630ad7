-- ===== src/Engine/Gates/Edges.antt =====
-- The state changes that a decision at a gate can make.
use sdlc_orchestrator.Common.{
  ℕ, suc, ◌≡◌, ◌≤◌, ◌<◌, ◌⊎◌, inl, inr, refl, leb, Bool, true, false, Option, none, some, String,
  arith, if_cases,
}
use sdlc_orchestrator.Engine.States.{
  State, scoping, planning, implementing, building, fixing, merging, releasing, completed,
  cancelled, escalated, Gate, gate_for,
}
use sdlc_orchestrator.Engine.Job.{
  Job, Decision, approve, reject, Approval, decided, Desk, Settings, World, event, transition,
  moved_job, hold, held_for, pending_approval, oldest, consume,
}
use sdlc_orchestrator.Engine.Controls.Resumed.{job-cleanup, pending-oldest}
use sdlc_orchestrator.Engine.Gates.{
  waive, with_counters, cancel_at, resumes_at, scope_again, back_to, decide, gate_row, await_row,
  handle_gate, one_more_round,
}
use sdlc_orchestrator.Artifact.{Problem}
use sdlc_orchestrator.Artifact.Load.{Loaded}

-- The pipeline's edges out of a gate: by the gate, the decision, whether the row cancels, the rounds
-- spent with this decision, and the limit on them.
pub data Edge (limit : ℕ) : Gate → Decision → Bool → ℕ → State → Type 0 where
  plan_it : {b : Bool} {n : ℕ} → Edge limit Gate.scope approve b n planning
  scope_it : {n : ℕ} → suc n < limit → Edge limit Gate.scope reject false n scoping
  give_up : {n : ℕ} → limit ≤ suc n → Edge limit Gate.scope reject false n escalated
  implement_it : {b : Bool} {n : ℕ} → Edge limit Gate.spec approve b n implementing
  plan_again : {n : ℕ} → Edge limit Gate.spec reject false n planning
  build_it : {b : Bool} {n : ℕ} → Edge limit Gate.code approve b n building
  fix_code : {n : ℕ} → Edge limit Gate.code reject false n fixing
  merge_it : {b : Bool} {n : ℕ} → Edge limit Gate.merge approve b n merging
  fix_merge : {n : ℕ} → Edge limit Gate.merge reject false n fixing
  release_it : {b : Bool} {n : ℕ} → Edge limit Gate.release approve b n releasing
  finish_it : {b : Bool} {n : ℕ} → Edge limit Gate.release reject b n completed
  cancel_scope : {n : ℕ} → Edge limit Gate.scope reject true n cancelled
  cancel_spec : {n : ℕ} → Edge limit Gate.spec reject true n cancelled
  cancel_code : {n : ℕ} → Edge limit Gate.code reject true n cancelled
  cancel_merge : {n : ℕ} → Edge limit Gate.merge reject true n cancelled

-- A job that a decision leaves: in its state, or along an edge that the oldest row at its gate grants.
pub data Decided (c : Settings) (k : Desk) : State → Type 0 where
  waiting : Decided c k k.job.state
  passed :
      (g : Gate) (a : Approval) (s : State)
      → gate_for k.job.state ≡ some g
      → oldest g k.rows ≡ some a
      → Edge c.max_scope_rounds g a.decision a.cancel k.job.counters.scope_rounds s
      → Decided c k s

-- What an arm of the switch leaves: the state it found, or an edge's.
Armed : (limit : ℕ) → Gate → Decision → Bool → Job → State → Type 0
Armed limit g d b j s = (s ≡ j.state) ⊎ Edge limit g d b j.counters.scope_rounds s

waive_job : (prob : Loaded Problem) (k : Desk) → Desk.job (waive prob k) ≡ k.job
unfolding waive event
waive_job prob k = ground arith

not_leb : (a b : ℕ) → leb a b ≡ false → b < a
not_leb a b h = ground arith

is_leb : (a b : ℕ) → leb a b ≡ true → a ≤ b
is_leb a b h = ground arith

scope_again-Edge :
    (c : Settings) (w : World) (a : Approval) (k : Desk)
    → Edge c.max_scope_rounds Gate.scope reject false k.job.counters.scope_rounds
        (Job.state (Desk.job (scope_again c w a (with_counters one_more_round k))))
unfolding scope_again with_counters resumes_at hold held_for transition moved_job event
scope_again-Edge c w a k =
    if_cases
      (λ (k' : Desk).
        Edge c.max_scope_rounds Gate.scope reject false k.job.counters.scope_rounds k'.job.state)
      (leb c.max_scope_rounds (suc k.job.counters.scope_rounds)) _ _ (λ e. give_up (is_leb _ _ e))
      (λ e. scope_it (not_leb _ _ e))

cancel_at_state :
    (c : Settings) (w : World) (note : String) (a : Approval) (k : Desk)
    → Job.state (Desk.job (cancel_at c w note a k)) ≡ cancelled
unfolding cancel_at transition moved_job event
cancel_at_state c w note a k = rw (job-cleanup c w _) refl

decide-Armed :
    (c : Settings) (w : World) (prob : Loaded Problem) (a : Approval) (k : Desk) (g : Gate)
    (d : Decision) (b : Bool)
    → Armed c.max_scope_rounds g d b k.job (Job.state (Desk.job (decide c w prob a k g d b)))
unfolding decide Armed back_to with_counters held_for transition moved_job event
decide-Armed c w prob a k Gate.scope approve b = inr plan_it
decide-Armed c w prob a k Gate.scope reject true = rw (cancel_at_state c w _ a k) (inr cancel_scope)
decide-Armed c w prob a k Gate.scope reject false = inr (scope_again-Edge c w a k)
decide-Armed c w prob a k Gate.spec approve b = inr implement_it
decide-Armed c w prob a k Gate.spec reject true = rw (cancel_at_state c w _ a k) (inr cancel_spec)
decide-Armed c w prob a k Gate.spec reject false = inr plan_again
decide-Armed c w prob a k Gate.code approve b = inr build_it
decide-Armed c w prob a k Gate.code reject true = rw (cancel_at_state c w _ a k) (inr cancel_code)
decide-Armed c w prob a k Gate.code reject false = inr fix_code
decide-Armed c w prob a k Gate.merge approve b = inr merge_it
decide-Armed c w prob a k Gate.merge reject true = rw (cancel_at_state c w _ a k) (inr cancel_merge)
decide-Armed c w prob a k Gate.merge reject false = inr fix_merge
decide-Armed c w prob a k Gate.release approve b = inr release_it
decide-Armed c w prob a k Gate.release reject b = rw (job-cleanup c w _) (inr finish_it)
decide-Armed c w prob a k _ _ _ = inl refl

gate_row-Decided :
    (c : Settings) (w : World) (prob : Loaded Problem) (g : Gate) (a : Approval) (k : Desk)
    → gate_for k.job.state ≡ some g
    → oldest g k.rows ≡ some a
    → Decided c k (Job.state (Desk.job (gate_row c w prob g a k)))
unfolding gate_row event consume Armed
gate_row-Decided c w prob g a k at row =
    elim (decide-Armed c w prob a (event (decided g a.decision a.reason) (consume a.id k)) g
      a.decision a.cancel) [ inl e ↦ rw e waiting | inr edge ↦ passed g a _ at row edge ]

await_row-Decided :
    (c : Settings) (w : World) (prob : Loaded Problem) (g : Gate) (k : Desk)
    → gate_for k.job.state ≡ some g
    → Decided c k (Job.state (Desk.job (await_row c w prob g k)))
unfolding await_row
await_row-Decided c w prob g k at = by_row (pending_approval w g k) refl
  where
    by_row :
        (o : Option (Option Approval))
        → pending_approval w g k ≡ o
        → Decided c k (
            Job.state (
              Desk.job
                (elim o [ none ↦ k | some none ↦ k | some (some a) ↦ gate_row c w prob g a k ])))
    by_row none e = waiting
    by_row (some none) e = waiting
    by_row (some (some a)) e = gate_row-Decided c w prob g a k at (pending-oldest w g k a e)

-- `handleGate` leaves a job in its state, or moves it along an edge of the pipeline that the oldest row at
-- the job's own gate grants: in particular it merges and releases only on an approval of that gate, and
-- it scopes again only while the rounds are below `limits.max_scope_rounds`.
pub handle_gate-Decided :
    (c : Settings) (w : World) (prob : Loaded Problem) (k : Desk)
    → Decided c k (Job.state (Desk.job (handle_gate c w prob k)))
unfolding handle_gate
handle_gate-Decided c w prob k = by_gate (gate_for k.job.state) refl
  where
    by_gate :
        (o : Option Gate)
        → gate_for k.job.state ≡ o
        → Decided c k (
            Job.state (
              Desk.job
                (elim o [ none ↦ k | some Gate.hold ↦ k | some g ↦ await_row c w prob g k ])))
    by_gate none e = waiting
    by_gate (some Gate.hold) e = waiting
    by_gate (some g) e = await_row-Decided c w prob g k e

-- A scoping that is given up can be resumed without naming a state: it goes back to the scoping itself.
pub give_up_resumes_at :
    (c : Settings) (w : World) (a : Approval) (k : Desk)
    → c.max_scope_rounds ≤ suc k.job.counters.scope_rounds
    → Job.prev_state (Desk.job (scope_again c w a (with_counters one_more_round k))) ≡ scoping
unfolding scope_again with_counters resumes_at
give_up_resumes_at c w a k h = ground arith
