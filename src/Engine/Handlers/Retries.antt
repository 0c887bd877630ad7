-- ===== src/Engine/Handlers/Retries.antt =====
-- handleFlakeCheck of internal/engine/handlers.go: a phase is tried again at most as often as the limit says.
use sdlc_orchestrator.Common.{
  suc, ◌≡◌, ◌≤◌, ◌<◌, subst, Bool, Option, some, Bytes, arith, ltb, if_both, if_cases,
  if◌then◌else◌,
}
use sdlc_orchestrator.Engine.States
use sdlc_orchestrator.Engine.States.{State}
use sdlc_orchestrator.Engine.Rules.{Rules}
use sdlc_orchestrator.Engine.Bench.{
  Outside, Bench, Act, Result, ok, err, pure, raise, gets, ◌>>=◌, modify, count, with_counters,
  with_job, counters_of,
}
use sdlc_orchestrator.Engine.Bench.Frame.{Framed, Keeps}
use sdlc_orchestrator.Engine.Handlers.{handler}
use sdlc_orchestrator.Engine.Handlers.Frame.{calm, calms}
use sdlc_orchestrator.Engine.Handlers.Frame.Phases.{rerun-calm, leased-Keeps}
use sdlc_orchestrator.Engine.Handlers.Phases.{
  one_more_flake, flaky, count_passes, lease_for, rerun_phase, handle_flake_check,
}

-- Back in TESTING, one more retry is counted, and the limit is kept.
abbrev pub RetryOf : Rules → Bench → State → Bench → Type 0
RetryOf rules b States.testing b' =
    ((counters_of b).flake_retries < (counters_of b').flake_retries)
    × ((counters_of b').flake_retries ≤ rules.max_flake_retries)
RetryOf rules b _ b' = Unit {0}

abbrev Retry : Rules → Bench → Result State × Bench → Type 0
Retry rules b r = elim (r.0) as (λ x. Type 0) [ ok s ↦ RetryOf rules b s r.1 | err e ↦ Unit {0} ]

unfoldable pub Retries : Rules → Act State → Type 0
Retries rules m = (o : Outside) (b : Bench) → Retry rules b (m o b)

module _ (rules : Rules) where
  RetryOf-le :
      (b b' c : Bench) (s : State)
      → (counters_of b).flake_retries ≤ (counters_of b').flake_retries
      → RetryOf rules b' s c
      → RetryOf rules b s c
  RetryOf-le b b' c States.testing le h = (omega (arith, h.0), h.1)
  RetryOf-le b b' c States.created le h = tt
  RetryOf-le b b' c States.scoping le h = tt
  RetryOf-le b b' c States.planning le h = tt
  RetryOf-le b b' c States.design_review le h = tt
  RetryOf-le b b' c States.implementing le h = tt
  RetryOf-le b b' c States.code_review le h = tt
  RetryOf-le b b' c States.building le h = tt
  RetryOf-le b b' c States.flake_check le h = tt
  RetryOf-le b b' c States.analyzing le h = tt
  RetryOf-le b b' c States.fixing le h = tt
  RetryOf-le b b' c States.final_review le h = tt
  RetryOf-le b b' c States.await_scope le h = tt
  RetryOf-le b b' c States.await_spec le h = tt
  RetryOf-le b b' c States.await_code le h = tt
  RetryOf-le b b' c States.await_merge le h = tt
  RetryOf-le b b' c States.merging le h = tt
  RetryOf-le b b' c States.await_release le h = tt
  RetryOf-le b b' c States.releasing le h = tt
  RetryOf-le b b' c States.completed le h = tt
  RetryOf-le b b' c States.cancelled le h = tt
  RetryOf-le b b' c States.failed le h = tt
  RetryOf-le b b' c States.escalated le h = tt
  RetryOf-le b b' c States.timed_out le h = tt
  RetryOf-le b b' c States.blocked_quota le h = tt
  RetryOf-le b b' c States.blocked_network le h = tt
  RetryOf-le b b' c (States.other x) le h = tt

  bind-Retries :
      {A : Type 0} (m : Act A) (k : A → Act State)
      → Keeps (calm rules) m
      → ((a : A) → Retries rules (k a))
      → Retries rules (m >>= k)
  unfolding Retries Keeps ◌>>=◌
  bind-Retries {A} m k hm hk o b = by_result ((m o b).0) ((m o b).1) (hm o b)
    where
      later :
          (r : Result State) (b' c : Bench)
          → Framed (calm rules) b b'
          → Retry rules b' (r, c)
          → Retry rules b (r, c)
      later (ok s) b' c f h = RetryOf-le b b' c s (f.1) h
      later (err e) b' c f h = tt

      by_result :
          (r : Result A) (b' : Bench)
          → Framed (calm rules) b b'
          → Retry rules b
              (elim r as (λ x. Result State × Bench) [ ok a ↦ k a o b' | err e ↦ (err e, b') ])
      by_result (ok a) b' f = later ((k a o b').0) b' ((k a o b').1) f (hk a o b')
      by_result (err e) b' f = tt

  if-Retries :
      (t : Bool) (m n : Act State)
      → Retries rules m
      → Retries rules n
      → Retries rules (if t then m else n)
  if-Retries t m n hm hn = if_both (Retries rules) t m n hm hn

  analyzing-Retries : Retries rules (pure States.analyzing)
  unfolding Retries pure
  analyzing-Retries o b = tt

  flaky-Retries : Retries rules (flaky rules)
  unfolding Retries flaky ◌>>=◌ count modify gets with_counters with_job raise pure
  flaky-Retries o b =
      if_cases (λ (m : Act State). Retry rules b (m o (with_counters one_more_flake b)))
        (ltb rules.max_flake_retries (suc (counters_of b).flake_retries)) _ _ (λ e. tt)
        (λ e. ground (arith, e))

  pub handle_flake_check-Retries : Retries rules (handle_flake_check rules)
  unfolding handle_flake_check rerun_phase lease_for count_passes
  handle_flake_check-Retries =
      search
        (
          bind-Retries, if-Retries, analyzing-Retries, flaky-Retries, calms, rerun-calm,
          leased-Keeps,
        )
        depth 60

  -- A flake check that sends its job back to TESTING has counted one more retry, and not one more than the limit.
  pub back_to_testing :
      (o : Outside) (b : Bench)
      → (handle_flake_check rules o b).0 ≡ ok States.testing
      → ((counters_of b).flake_retries
          < (counters_of (handle_flake_check rules o b).1).flake_retries)
        × ((counters_of (handle_flake_check rules o b).1).flake_retries ≤ rules.max_flake_retries)
  unfolding Retries
  back_to_testing o b e =
      subst (λ (r : Result State). Retry rules b (r, (handle_flake_check rules o b).1)) e
        (handle_flake_check-Retries o b)

  Retrying : State → Option (Act State) → Type 0
  Retrying States.flake_check (some m) = Retries rules m
  Retrying _ _ = Unit {0}

  handler-Retrying :
      (trim_path : Bytes → Bytes) (s : State) → Retrying s (handler rules trim_path s)
  unfolding handler Retrying
  handler-Retrying trim_path States.flake_check = handle_flake_check-Retries
  handler-Retrying trim_path States.created = tt
  handler-Retrying trim_path States.scoping = tt
  handler-Retrying trim_path States.planning = tt
  handler-Retrying trim_path States.design_review = tt
  handler-Retrying trim_path States.implementing = tt
  handler-Retrying trim_path States.code_review = tt
  handler-Retrying trim_path States.building = tt
  handler-Retrying trim_path States.testing = tt
  handler-Retrying trim_path States.analyzing = tt
  handler-Retrying trim_path States.fixing = tt
  handler-Retrying trim_path States.final_review = tt
  handler-Retrying trim_path States.merging = tt
  handler-Retrying trim_path States.releasing = tt
  handler-Retrying trim_path States.await_scope = tt
  handler-Retrying trim_path States.await_spec = tt
  handler-Retrying trim_path States.await_code = tt
  handler-Retrying trim_path States.await_merge = tt
  handler-Retrying trim_path States.await_release = tt
  handler-Retrying trim_path States.completed = tt
  handler-Retrying trim_path States.cancelled = tt
  handler-Retrying trim_path States.failed = tt
  handler-Retrying trim_path States.escalated = tt
  handler-Retrying trim_path States.timed_out = tt
  handler-Retrying trim_path States.blocked_quota = tt
  handler-Retrying trim_path States.blocked_network = tt
  handler-Retrying trim_path (States.other x) = tt

  pub handler-Retries :
      (trim_path : Bytes → Bytes) (m : Act State)
      → handler rules trim_path States.flake_check ≡ some m
      → Retries rules m
  unfolding Retrying
  handler-Retries trim_path m e =
      subst (Retrying States.flake_check) e (handler-Retrying trim_path States.flake_check)

  pub Retries-testing :
      (m : Act State) (o : Outside) (b : Bench) (s : State) (b' : Bench)
      → Retries rules m
      → m o b ≡ (ok s, b')
      → s ≡ States.testing
      → RetryOf rules b States.testing b'
  unfolding Retries
  Retries-testing m o b s b' h e t =
      subst (λ (x : State). RetryOf rules b x b') t (subst (Retry rules b) e (h o b))
