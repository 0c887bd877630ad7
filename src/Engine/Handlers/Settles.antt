-- ===== src/Engine/Handlers/Settles.antt =====
-- The steps of one job one after the other, as the engine of internal/engine/engine.go takes them while nobody
-- intervenes, and that they come to an end.
use sdlc_orchestrator.Common.{ℕ, zero, suc, ◌≡◌, ◌≤◌, ◌<◌, Bool, false, Bytes, arith, ◌⊎◌, inl, inr}
use sdlc_orchestrator.Engine.Job.{Settings, World}
use sdlc_orchestrator.Engine.Rules.{Rules}
use sdlc_orchestrator.Engine.Bench.{Outside, Bench}
use sdlc_orchestrator.Engine.Handlers.{step}
use sdlc_orchestrator.Engine.Handlers.Progress.{has_handler, left_over, Waits, Onward}
use sdlc_orchestrator.Engine.Handlers.Delays.{ResumesIn, Resumes, delay_of}
use sdlc_orchestrator.Engine.Handlers.Outcomes.{used_by, flakes_of}
use sdlc_orchestrator.Engine.Handlers.Steps.{Stepped, step-Stepped}

-- What the world holds for one step: its clock and answers, and whether the engine was started anew.
pub record Moment : Type 0 where
  pub world : World
  pub outside : Outside
  pub fresh : Bool

module _ (rules : Rules) (trim_path : Bytes → Bytes) (c : Settings) where
  unfoldable pub steps : ℕ → (ℕ → Moment) → Bench → Bench
  unfolding step
  steps zero ms b = b
  steps (suc n) ms b =
      let m = ms 0 in steps n (λ t. ms (suc t)) (step rules trim_path c m.world m.outside m.fresh b)

  -- What is left to do at most before the job rests.
  abbrev pub left_of : Bench → ℕ
  left_of b = left_over rules b.desk.job.state (used_by b.desk) (flakes_of b.desk)

  -- Behind `n` steps the job has no handler, or the next step leaves it to wait until a time behind the clock.
  abbrev pub RestsAt : (ℕ → Moment) → Bench → ℕ → Type 0
  RestsAt ms b n =
      (has_handler (steps n ms b).desk.job.state ≡ false)
      ⊎ (Waits rules (steps n ms b).desk.job.state (steps (suc n) ms b).desk.job.state
          × ResumesIn (delay_of rules (steps n ms b).desk.job.state) ((ms n).outside)
              (steps (suc n) ms b).desk)

  abbrev pub Settled : (ℕ → Moment) → Bench → ℕ → Type 0
  Settled ms b k = (n : ℕ) × (n ≤ k) × RestsAt ms b n

  one_more :
      (k : ℕ) (ms : ℕ → Moment) (b : Bench)
      → (let m = ms 0 in
          Settled (λ t. ms (suc t)) (step rules trim_path c m.world m.outside m.fresh b) k)
      → Settled ms b (suc k)
  unfolding steps
  one_more k ms b (n, le, rest) = (suc n, omega (arith, le), rest)

  abbrev pub next_bench : (ℕ → Moment) → Bench → Bench
  next_bench ms b = let m = ms 0 in step rules trim_path c m.world m.outside m.fresh b

  next-Stepped :
      (ms : ℕ → Moment) (b : Bench)
      → used_by b.desk ≤ rules.max_agent_invocations
      → Stepped rules ((ms 0).outside) b.desk.job.state b (next_bench ms b)
  next-Stepped ms b le =
      let m = ms 0 in step-Stepped rules trim_path c m.world m.outside m.fresh b le

  -- At rest, waiting, or on.
  rest_or_on :
      (k : ℕ) (ms : ℕ → Moment) (b : Bench)
      → Onward rules b.desk.job.state
          (next_bench ms b).desk.job.state
          (used_by b.desk)
          (flakes_of b.desk)
          (used_by (next_bench ms b).desk)
          (flakes_of (next_bench ms b).desk)
      → Resumes rules ((ms 0).outside) b.desk.job.state (next_bench ms b).desk
      → (left_of (next_bench ms b) < left_of b → Settled ms b (suc k))
      → Settled ms b (suc k)
  unfolding steps
  rest_or_on k ms b (inl rest) due on = (1, omega arith, inl rest)
  rest_or_on k ms b (inr (inl waits)) due on = (0, omega arith, inr (waits, due waits))
  rest_or_on k ms b (inr (inr less)) due on = on less

  -- A job within its budget comes to rest within as many steps as there is left to do, and one.
  pub settles :
      (k : ℕ) (ms : ℕ → Moment) (b : Bench)
      → used_by b.desk ≤ rules.max_agent_invocations
      → left_of b ≤ k
      → Settled ms b (suc k)
  settles zero ms b le lo =
      rest_or_on zero ms b ((next-Stepped ms b le).0) ((next-Stepped ms b le).3)
        (λ less. ground (arith, less, lo))
  settles (suc k) ms b le lo =
      let st = next-Stepped ms b le in
      rest_or_on (suc k) ms b (st.0) (st.3) (λ less.
        one_more (suc k) ms b
          (settles k (λ t. ms (suc t)) (next_bench ms b) (st.1) (omega (arith, less, lo))))

  -- Whatever agents, commands, git and the clock answer, a job within its budget of invocations that nobody touches is,
  -- behind a number of steps that its budgets bound, in a state without a handler (a gate, a hold, a suspension or
  -- an end), or its next step leaves it to wait for a device or for the next try to ship, with the time to resume at set:
  -- an answer of the clock in that step and five minutes, or the configured backoff of a release.
  pub engine_settles :
      (ms : ℕ → Moment) (b : Bench)
      → used_by b.desk ≤ rules.max_agent_invocations
      → Settled ms b (suc (left_of b))
  engine_settles ms b le = settles (left_of b) ms b le (omega arith)
