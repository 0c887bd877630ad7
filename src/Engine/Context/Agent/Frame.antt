-- ===== src/Engine/Context/Agent/Frame.antt =====
-- A run of an agent, `runAgent` of internal/engine/jobctx.go, merges nothing and takes no invocation back.
use sdlc_orchestrator.Common.{
  ℕ, zero, suc, ◌≡◌, refl, Bool, false, List, [], ◌∷◌, none, String, arith,
}
use sdlc_orchestrator.Engine.Rules.{Rules}
use sdlc_orchestrator.Engine.Bench.{AgentRun, Bench, Result, ok, err, Act, modify, with_job, count}
use sdlc_orchestrator.Engine.Bench.Frame.{
  Frame, Framed, Framed-trans, merges, Keeps, count-Keeps, frames, same_le, next_le, merges-append,
}
use sdlc_orchestrator.Engine.Context.Frame.{state_baseline-Keeps}
use sdlc_orchestrator.Engine.Context.Agent.{
  trace_of, steps_of, left_by, invoked, start_agent, noted_exit, check, judge_run, attempt_agent,
  attempts, run_agent,
}

-- Agents are invoked, and merges are told apart or not.
abbrev pub loud : Bool → Frame
loud apart = record { apart = apart; quiet = false; cap = none }

merges-trace_of : (shas : List String) → merges (trace_of shas) ≡ 0
merges-trace_of [] = refl
merges-trace_of (s ∷ ss) = omega (arith, merges-trace_of ss)

module _ (apart : Bool) where
  left_by-Keeps : (r : AgentRun) → Keeps (loud apart) (modify (left_by r))
  unfolding Keeps modify left_by with_job
  left_by-Keeps r o b =
      ground (arith, merges-append b.git (trace_of (steps_of r b)), merges-trace_of (steps_of r b))

  invoked-Keeps : (n : ℕ) → Keeps (loud apart) (count (invoked n))
  unfolding invoked
  invoked-Keeps n =
      count-Keeps (loud apart) (invoked n) (λ c. next_le c.agent_invocations)
        (λ e c. ground (arith, e)) (λ c. same_le c.flake_retries) (λ m e c. ground (arith, e))

  start_agent-Keeps : (n : ℕ) → Keeps (loud apart) (start_agent n)
  unfolding start_agent
  start_agent-Keeps n = search (frames, left_by-Keeps, invoked-Keeps) depth 20

  noted_exit-Keeps : (code : ℕ) → Keeps (loud apart) (noted_exit code)
  unfolding noted_exit
  noted_exit-Keeps code = search frames depth 20

  check-Keeps :
      (validate again done : Act (Unit {0}))
      → Keeps (loud apart) validate
      → Keeps (loud apart) again
      → Keeps (loud apart) done
      → Keeps (loud apart) (check validate again done)
  unfolding check Keeps
  check-Keeps validate again done hv ha hd o b =
      by_result ((validate o b).0) ((validate o b).1) (hv o b)
    where
      by_result :
          (r : Result (Unit {0})) (b' : Bench)
          → Framed (loud apart) b b'
          → Framed
              (loud apart)
              b
              (elim r as (λ x. Result (Unit {0}) × Bench) [
                | ok a ↦ done o b'
                | err e ↦ again o b'
              ]).1
      by_result (ok a) b' h = Framed-trans (loud apart) b b' ((done o b').1) h (hd o b')
      by_result (err e) b' h = Framed-trans (loud apart) b b' ((again o b').1) h (ha o b')

  module _ (rules : Rules) (validate : Act (Unit {0})) (keeps : Keeps (loud apart) validate) where
    attempt_agent-Keeps :
        (n : ℕ) (again : Act (Unit {0}))
        → Keeps (loud apart) again
        → Keeps (loud apart) (attempt_agent n validate again)
    unfolding attempt_agent judge_run
    attempt_agent-Keeps n again h =
        search (frames, keeps, h, check-Keeps, start_agent-Keeps, noted_exit-Keeps) depth 40

    attempts-Keeps : (k n : ℕ) → Keeps (loud apart) (attempts rules validate k n)
    unfolding attempts
    attempts-Keeps zero n = search frames depth 20
    attempts-Keeps (suc k) n =
        let h = attempts-Keeps k (suc n) in search (frames, h, attempt_agent-Keeps) depth 20

    pub run_agent-Keeps : Keeps (loud apart) (run_agent rules validate)
    unfolding run_agent
    run_agent-Keeps = search (frames, state_baseline-Keeps, attempts-Keeps) depth 20
