-- ===== src/Engine/Context/Agent/Budget.antt =====
-- The budget and the post-condition of `runAgent` in internal/engine/jobctx.go.
use sdlc_orchestrator.Common.{
  ℕ, zero, suc, ◌+◌, ◌≡◌, ◌≤◌, ◌<◌, refl, sym, ap, subst, leb, true, not, none, String, arith,
  if_cases, if_both, ◌==◌,
}
use sdlc_orchestrator.Engine.Rules.{Rules}
use sdlc_orchestrator.Engine.Bench.{
  AgentRun, Outside, Bench, Fail, out_of_reach, out_of_quota, Result, ok, err, Act, pure, raise,
  ask, call, gets, ◌>>=◌, ◌>>◌, modify, attempt, count, with_job, with_counters, note, counters_of,
}
use sdlc_orchestrator.Engine.Bench.Frame.{Frame, Keeps, bind_cases}
use sdlc_orchestrator.Engine.Context.Frame.{state_baseline-Keeps}
use sdlc_orchestrator.Engine.Context.{state_baseline}
use sdlc_orchestrator.Engine.Context.Agent.{
  left_by, invoked, start_agent, noted_exit, check, judge_run, attempt_agent, attempts, run_agent,
}

abbrev pub used : Bench → ℕ
used b = (counters_of b).agent_invocations

abbrev pub quietly : Frame
quietly = record { apart = true; quiet = true; cap = none }

-- The post-condition was met on a bench with at least `n` invocations, and all that happened behind that is the
-- note on the exit code of the agent.
abbrev pub Passed : Act (Unit {0}) → Outside → ℕ → Result (Unit {0}) × Bench → Type 0
Passed validate o n r =
    (b : Bench) × (code : ℕ) × (n ≤ used b)
    × ((validate o b).0 ≡ ok tt)
    × (r ≡ noted_exit code o (validate o b).1)

-- What an ended loop of at most `k` attempts has spent, and what its success means.
abbrev pub Spent : Rules → Act (Unit {0}) → Outside → ℕ → Bench → Result (Unit {0}) × Bench → Type 0
Spent rules validate o k b r =
    (used r.1 ≤ used b + k)
    × (used b ≤ rules.max_agent_invocations → used r.1 ≤ rules.max_agent_invocations)
    × (r.0 ≡ ok tt → (used b < used r.1) × Passed validate o (suc (used b)) r)

-- The same behind the end of a process that is counted already.
abbrev Judged : Rules → Act (Unit {0}) → Outside → ℕ → Bench → Result (Unit {0}) × Bench → Type 0
Judged rules validate o k b r =
    (used r.1 ≤ used b + k)
    × (used b ≤ rules.max_agent_invocations → used r.1 ≤ rules.max_agent_invocations)
    × (r.0 ≡ ok tt → (used b ≤ used r.1) × Passed validate o (used b) r)

module _ (rules : Rules) (validate : Act (Unit {0})) (o : Outside) where
  Spent-Judged :
      (k : ℕ) (b : Bench) (r : Result (Unit {0}) × Bench)
      → Spent rules validate o k b r
      → Judged rules validate o k b r
  Spent-Judged k b r h = (
    h.0,
    h.1,
    λ e. let p = (h.2 e).1 in (omega (arith, (h.2 e).0), (p.0, p.1, omega (arith, p.2), p.3, p.4)),
  )

  failed-Judged : (k : ℕ) (b : Bench) (e : Fail) → Judged rules validate o k b (err e, b)
  failed-Judged k b e = ground arith

  noted_same : (code : ℕ) (b : Bench) → used (noted_exit code o b).1 ≡ used b
  unfolding noted_exit note pure
  noted_same code b =
      if_both (λ (m : Act (Unit {0})). used (m o b).1 ≡ used b) (code == 0) _ _ refl refl

  noted-Judged :
      (k code : ℕ) (b : Bench)
      → Passed validate o (used b) (noted_exit code o b)
      → Judged rules validate o k b (noted_exit code o b)
  noted-Judged k code b p =
      let same = noted_same code b in
      (omega (arith, same), λ h. omega (arith, same, h), λ e. (omega (arith, same), p))

  check-Judged :
      (k code : ℕ) (again : Act (Unit {0})) (b : Bench)
      → Keeps quietly validate
      → ((b' : Bench) → used b' ≡ used b → Judged rules validate o k b' (again o b'))
      → Judged rules validate o k b (check validate again (noted_exit code) o b)
  unfolding check Keeps
  check-Judged k code again b keeps hagain =
      by_result ((validate o b).0) ((validate o b).1) refl refl ((keeps o b).3 refl)
    where
      by_result :
          (r : Result (Unit {0})) (b' : Bench)
          → (validate o b).0 ≡ r
          → (validate o b).1 ≡ b'
          → used b' ≡ used b
          → Judged rules validate o k b (elim r as (λ x. Result (Unit {0}) × Bench) [
            | ok a ↦ noted_exit code o b'
            | err e ↦ again o b'
          ])
      by_result (ok a) b' e at same =
          let h =
            noted-Judged k code b'
              (b, code, omega (arith, same), e, ap (λ (x : Bench). noted_exit code o x) (sym at)) in
          rw (← same) h
      by_result (err e) b' e' at same = rw (← same) (hagain b' same)

  judge_run-Judged :
      (k : ℕ) (r : AgentRun) (again : Act (Unit {0})) (b : Bench)
      → Keeps quietly validate
      → ((b' : Bench) → used b' ≡ used b → Judged rules validate o k b' (again o b'))
      → Judged rules validate o k b (judge_run r validate again o b)
  unfolding judge_run raise
  judge_run-Judged k r again b keeps h =
      let J : (Act (Unit {0}) → Type 0) = λ m. Judged rules validate o k b (m o b) in
      if_both J (not r.spawned) _ _ (h b refl) (
        if_both J r.unreachable _ _ (failed-Judged k b (out_of_reach r.backend r.detail r.backoff))
          (if_both J r.quota_hit _ _ (failed-Judged k b (out_of_quota r.backend r.backoff)) (
            if_both J r.timed_out _ _ (h b refl) (
              if_both J r.model_mismatch _ _ (h b refl)
                (check-Judged k r.exit_code again b keeps h)))))

-- An attempt that was started is counted, and none other.
abbrev Started : ℕ → Result AgentRun × Bench → Type 0
Started n r = elim (r.0) as (λ x. Type 0) [ ok a ↦ used r.1 ≡ suc n | err e ↦ used r.1 ≡ n ]

start_agent-Started : (n : ℕ) (o : Outside) (b : Bench) → Started (used b) (start_agent n o b)
unfolding start_agent ◌>>=◌ call ask modify left_by count invoked with_counters with_job pure
start_agent-Started n o b =
    bind_cases (attempt "render prompt")
      (λ u. ask (λ o t. o.agent t) >>= λ r. modify (left_by r) >> (count (invoked n) >> pure r)) o b
      (Started (used b))
      (λ e b' h. subst (λ (x : Result (Unit {0}) × Bench). used x.1 ≡ used b) h refl)
      (λ u b' h. ap suc (subst (λ (x : Result (Unit {0}) × Bench). used x.1 ≡ used b) h refl))

start_agent-err :
    (n : ℕ) (o : Outside) (b : Bench) (e : Fail) (b' : Bench)
    → start_agent n o b ≡ (err e, b')
    → used b' ≡ used b
start_agent-err n o b e b' h = subst (Started (used b)) h (start_agent-Started n o b)

start_agent-ok :
    (n : ℕ) (o : Outside) (b : Bench) (r : AgentRun) (b' : Bench)
    → start_agent n o b ≡ (ok r, b')
    → used b' ≡ suc (used b)
start_agent-ok n o b r b' h = subst (Started (used b)) h (start_agent-Started n o b)

baseline_same :
    (o : Outside) (b : Bench) (r : Result String) (b' : Bench)
    → state_baseline o b ≡ (r, b')
    → used b' ≡ used b
unfolding Keeps
baseline_same o b r b' h =
    subst (λ (x : Result String × Bench). used x.1 ≡ used b) h
      ((state_baseline-Keeps quietly o b).3 refl)

module _ (rules : Rules) (validate : Act (Unit {0})) (o : Outside)
    (keeps : Keeps quietly validate) where
  -- One attempt more behind `k`.
  more-Spent :
      (k : ℕ) (b b' : Bench) (r : Result (Unit {0}) × Bench)
      → used b < rules.max_agent_invocations
      → used b' ≡ suc (used b)
      → Judged rules validate o k b' r
      → Spent rules validate o (suc k) b r
  more-Spent k b b' r hless next j = (
    omega (arith, j.0),
    λ l. j.1 (omega arith),
    λ e.
        let p = (j.2 e).1 in
        (omega (arith, (j.2 e).0), (p.0, p.1, omega (arith, p.2, next), p.3, p.4)),
  )

  attempt_agent-Spent :
      (k n : ℕ) (again : Act (Unit {0})) (b : Bench)
      → used b < rules.max_agent_invocations
      → ((b' : Bench) → Spent rules validate o k b' (again o b'))
      → Spent rules validate o (suc k) b (attempt_agent n validate again o b)
  unfolding attempt_agent
  attempt_agent-Spent k n again b hless hagain =
      bind_cases (start_agent n) (λ r. judge_run r validate again) o b
        (Spent rules validate o (suc k) b) (λ e b' h. ground (arith, start_agent-err n o b e b' h))
        (λ r b' h.
          more-Spent k b b' (judge_run r validate again o b') hless (start_agent-ok n o b r b' h) (
            judge_run-Judged rules validate o k r again b' keeps
              (λ b2 e. Spent-Judged rules validate o k b2 (again o b2) (hagain b2))))

  attempts-Spent :
      (k n : ℕ) (b : Bench) → Spent rules validate o k b (attempts rules validate k n o b)
  unfolding attempts raise gets ◌>>=◌
  attempts-Spent zero n b = ground arith
  attempts-Spent (suc k) n b =
      if_cases (λ (m : Act (Unit {0})). Spent rules validate o (suc k) b (m o b))
        (leb rules.max_agent_invocations (used b)) _ _ (λ h. ground arith)
        (λ h.
          attempt_agent-Spent k n (attempts rules validate k (suc n)) b (ground (arith, h))
            (attempts-Spent k (suc n)))

  pub run_agent-Spent :
      (b : Bench)
      → Spent rules validate o (suc rules.max_agent_retries) b (run_agent rules validate o b)
  unfolding run_agent
  run_agent-Spent b =
      bind_cases state_baseline (λ r. attempts rules validate (suc rules.max_agent_retries) 0) o b
        (Spent rules validate o (suc rules.max_agent_retries) b)
        (λ e b' h. ground (arith, baseline_same o b (err e) b' h))
        (λ r b' h.
          rw (← baseline_same o b (ok r) b' h) (attempts-Spent (suc rules.max_agent_retries) 0 b'))

  -- Where the budget holds, a run keeps it, and it starts at most one attempt more than there are retries.
  pub run_agent-budget :
      (b : Bench)
      → used b ≤ rules.max_agent_invocations
      → (used (run_agent rules validate o b).1 ≤ rules.max_agent_invocations)
        × (used (run_agent rules validate o b).1 ≤ used b + suc rules.max_agent_retries)
  run_agent-budget b h = let s = run_agent-Spent b in (s.1 h, s.0)

  -- A run that succeeds has invoked the agent, and behind one of its own invocations the post-condition of the state
  -- was met; but for the note on the exit code, that check is the last thing that the run did.
  pub run_agent-checked :
      (b : Bench)
      → (run_agent rules validate o b).0 ≡ ok tt
      → (used b < used (run_agent rules validate o b).1)
        × Passed validate o (suc (used b)) (run_agent rules validate o b)
  run_agent-checked b h = (run_agent-Spent b).2 h
