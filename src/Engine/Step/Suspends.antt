-- ===== src/Engine/Step/Suspends.antt =====
-- A suspension by a quota or a network failure, and the end of its backoff in `tick`.
use sdlc_orchestrator.Common.{
  ℕ, ◌+◌, ◌-◌, ◌≡◌, ◌≤◌, ◌<◌, ◌⊎◌, inl, inr, refl, ltb, true, false, Option, none, some, String,
  arith, lt→ltb, if_both,
}
use sdlc_orchestrator.Artifact.{Problem}
use sdlc_orchestrator.Artifact.Load.{Loaded}
use sdlc_orchestrator.Engine.States.{Gate, is_suspended, is_terminal, is_held, is_parked, gate_for}
use sdlc_orchestrator.Engine.Job.{
  Approval, Counters, Desk, Settings, World, event, transition, moved_job, hold, held_for, oldest,
  pending_approval,
}
use sdlc_orchestrator.Engine.Controls.{handle_controls, handle_resume}
use sdlc_orchestrator.Engine.Tick.{
  Passed, end_backoff, elapsed, without_delay, past_backoff, past_delay, end_delay, at_gate,
  past_budget, past_controls, too_old, announce, pass_job,
}
use sdlc_orchestrator.Engine.Tick.Budget.{Runs}
use sdlc_orchestrator.Engine.Step.{
  Outcome, quota_err, unreachable_err, settle_outcome, with_resume_after,
}

-- No budget of one is spent in the other.
abbrev pub SpendsNothing : Counters → Counters → Type 0
SpendsNothing c d =
    (d.scope_rounds ≡ c.scope_rounds)
    × (d.design_review_rounds ≡ c.design_review_rounds)
    × (d.code_review_rounds ≡ c.code_review_rounds)
    × (d.fix_attempts ≡ c.fix_attempts)
    × (d.agent_invocations ≡ c.agent_invocations)

-- The outcome is a suspension of this length.
pub data IsSuspension : Outcome → ℕ → Type 0 where
  by_quota : {backend : String} {n : ℕ} → IsSuspension (quota_err backend n) n
  by_network : {backend detail : String} {n : ℕ} → IsSuspension (unreachable_err backend detail n) n

-- The pass lets the job run: it is back where it was, with no delay, and nothing spent.
abbrev pub IsBack : Desk → Passed → Type 0
IsBack k r =
    (r.1 ≡ true)
    × (r.0.job.state ≡ k.job.state)
    × (r.0.job.resume_after ≡ none)
    × SpendsNothing k.job.counters r.0.job.counters

not_lt : (a b : ℕ) → b ≤ a → ltb a b ≡ false
not_lt a b h = ground arith

-- Nobody asks for a control of the job.
no_controls :
    (w : World) (g : Gate) (k : Desk)
    → oldest g k.rows ≡ none
    → (pending_approval w g k ≡ none) ⊎ (pending_approval w g k ≡ some none)
unfolding pending_approval
no_controls w g k h =
    if_both (λ (o : Option (Option Approval)). (o ≡ none) ⊎ (o ≡ some none)) (w.read_fails g) _ _
      (inl refl) (rw h (inr refl))

module _ (trim_space : String → String) where
  untouched :
      (c : Settings) (w : World) (k : Desk)
      → oldest Gate.cancel k.rows ≡ none
      → oldest Gate.resume k.rows ≡ none
      → handle_controls trim_space c w k ≡ k
  unfolding handle_controls handle_resume
  untouched c w k h r = elim (no_controls w Gate.cancel k h) [
    | inl e ↦ rw (e, handle_controls) refl
    | inr e ↦ elim (no_controls w Gate.resume k r) [
      | inl e' ↦ rw (e, e', handle_controls, handle_resume) refl
      | inr e' ↦ rw (e, e', handle_controls, handle_resume) refl
    ]
  ]

  silent : (c : Settings) (w : World) (k : Desk) → gate_for k.job.state ≡ none → announce c w k ≡ k
  unfolding announce
  silent c w k h = rw (h, announce) refl

  -- What a pass does with a job in a backoff that no row is about.
  suspended_pass :
      (c : Settings) (w : World) (prob : Loaded Problem) (k : Desk)
      → is_terminal k.job.state ≡ false
      → is_held k.job.state ≡ false
      → gate_for k.job.state ≡ none
      → oldest Gate.cancel k.rows ≡ none
      → oldest Gate.resume k.rows ≡ none
      → w.now - k.job.created_at ≤ c.max_job_duration
      → pass_job trim_space c w prob k ≡ past_backoff c w prob k
  unfolding pass_job past_controls past_budget too_old
  suspended_pass c w prob k t h g ca re young =
      rw
        (
          untouched c w k ca re,
          t,
          silent c w k g,
          h,
          not_lt c.max_job_duration (w.now - k.job.created_at) young,
        )
        refl

  -- The backoff of a job that came from the state `s` ends at `t`.
  backoff_ends :
      (c : Settings) (w : World) (prob : Loaded Problem) (k : Desk) (t : ℕ)
      → is_suspended k.job.state ≡ true
      → k.job.resume_after ≡ some t
      → is_parked k.job.prev_state ≡ false
      → (w.now ≤ t → past_backoff c w prob k ≡ (k, false))
        × (t < w.now
            → ((past_backoff c w prob k).1 ≡ true)
              × ((past_backoff c w prob k).0.job.state ≡ k.job.prev_state)
              × ((past_backoff c w prob k).0.job.resume_after ≡ none)
              × SpendsNothing k.job.counters (past_backoff c w prob k).0.job.counters)
  unfolding past_backoff end_backoff elapsed past_delay end_delay at_gate without_delay transition
      moved_job event
  backoff_ends c w prob k t s r p = (
    λ h. simp (s, r, not_lt t w.now h, past_backoff, end_backoff, elapsed),
    λ h.
        rw
          (
            s,
            r,
            lt→ltb t w.now h,
            p,
            past_backoff,
            end_backoff,
            elapsed,
            past_delay,
            end_delay,
            at_gate,
          )
          (refl, refl, refl, (refl, refl, refl, refl, refl)),
  )

  -- A job that does its work, within the age budget and with no control row, is suspended by its handler for `n`. Up to
  -- the end of that backoff a pass leaves it exactly as it is and does not run it. The first pass behind the end
  -- lets it run, in the state that it was in, with no delay left, and with the counters of rounds, fix attempts
  -- and agent invocations that its handler left.
  pub settle_outcome-IsBack :
      (c : Settings) (w w' : World) (prob : Loaded Problem) (commit : Option String) (o : Outcome)
      (n : ℕ) (k : Desk)
      → IsSuspension o n
      → Runs k.job.state
      → oldest Gate.cancel k.rows ≡ none
      → oldest Gate.resume k.rows ≡ none
      → w'.now - k.job.created_at ≤ c.max_job_duration
      → (w'.now ≤ w.now + n
          → pass_job trim_space c w' prob (settle_outcome c w commit o k)
            ≡ (settle_outcome c w commit o k, false))
        × (w.now + n < w'.now
            → IsBack k (pass_job trim_space c w' prob (settle_outcome c w commit o k)))
  unfolding settle_outcome is_suspended is_terminal is_held gate_for hold held_for transition
      moved_job event with_resume_after
  settle_outcome-IsBack c w w' prob commit o n k by_quota runs ca re young =
      let k1 = settle_outcome c w commit o k in
      rw (suspended_pass c w' prob k1 refl refl refl ca re young)
        (backoff_ends c w' prob k1 (w.now + n) refl refl (runs.2))
  settle_outcome-IsBack c w w' prob commit o n k by_network runs ca re young =
      let k1 = settle_outcome c w commit o k in
      rw (suspended_pass c w' prob k1 refl refl refl ca re young)
        (backoff_ends c w' prob k1 (w.now + n) refl refl (runs.2))
