-- ===== src/Engine/Tick/Slots.antt =====
-- The semaphore of `tick` in internal/engine/engine.go against the jobs whose handlers run.
use sdlc_orchestrator.Common.{
  ℕ, ◌+◌, ◌≡◌, ◌≤◌, false, List, [], ◌∷◌, String, arith, if_cases, if◌then◌else◌,
}
use sdlc_orchestrator.Engine.States.{is_terminal}
use sdlc_orchestrator.Engine.Job.{Settings, World}
use sdlc_orchestrator.Engine.Tick.{Slot, Pass, dispatch, tick_job, tick_from, tick, pass_job}

-- How many handlers run.
unfoldable pub flying : List Slot → ℕ
flying [] = 0
flying (s ∷ ss) = (if s.in_flight then 1 else 0) + flying ss

-- One token is taken for each handler that runs, of those `ahead` too, and no more than there are.
Fits : ℕ → ℕ → Pass → Type 0
Fits limit ahead p = (p.used ≡ flying p.slots + ahead) × (p.used ≤ limit)

module _ (trim_space : String → String) where
  dispatch-Fits :
      (limit ahead : ℕ) (s : Slot) (p : Pass)
      → s.in_flight ≡ false
      → Fits limit ahead p
      → Fits limit ahead (dispatch limit s p)
  unfolding Fits dispatch flying
  dispatch-Fits limit ahead s p idle h = ground arith

  tick_job-Fits :
      (c : Settings) (w : World) (limit ahead : ℕ) (s : Slot) (p : Pass)
      → Fits limit (flying (s ∷ []) + ahead) p
      → Fits limit ahead (tick_job trim_space c w limit s p)
  unfolding Fits tick_job flying
  tick_job-Fits c w limit ahead s p h =
      if_cases (Fits limit ahead) (is_terminal s.desk.job.state) _ _ (λ t. ground arith)
        (λ t.
          if_cases (Fits limit ahead) s.in_flight _ _ (λ f. ground arith)
            (λ f.
              let r = pass_job trim_space c w s.problem s.desk in
              let s' : Slot = record s { desk = r.0 } in
              if_cases (Fits limit ahead) (r.1) (dispatch limit s' p) _
                (λ runs. dispatch-Fits limit ahead s' p f (ground arith)) (λ runs. ground arith)))

  tick_from-Fits :
      (c : Settings) (w : World) (limit : ℕ) (ss : List Slot) (p : Pass)
      → Fits limit (flying ss) p
      → Fits limit 0 (tick_from trim_space c w limit ss p)
  unfolding Fits tick_from flying
  tick_from-Fits c w limit [] p h = h
  tick_from-Fits c w limit (s ∷ ss) p h =
      tick_from-Fits c w limit ss _ (tick_job-Fits c w limit (flying ss) s p (ground arith))

  -- Where the semaphore holds a token for each handler that runs, and no more than its capacity, a pass of
  -- the loop keeps both: no more than `orchestrator.max_parallel_jobs` handlers run at once.
  pub tick-Fits :
      (c : Settings) (w : World) (limit : ℕ) (jobs : List Slot)
      → flying jobs ≤ limit
      → (let p : Pass = tick trim_space c w limit jobs (flying jobs) in
          (p.used ≡ flying p.slots) × (flying p.slots ≤ limit))
  unfolding tick Fits flying
  tick-Fits c w limit jobs h =
      let f =
        tick_from-Fits c w limit jobs
          (record { slots = []; used = flying jobs; pending = 0; dispatched = false })
          (ground arith, h) in
      ground arith
