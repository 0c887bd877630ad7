-- ===== src/Engine/Handlers/Delays.antt =====
-- handleTesting and handleReleasing of internal/engine/handlers.go: a job that stays in its state has a time to resume at.
use sdlc_orchestrator.Common.{
  ℕ, ◌+◌, ◌≡◌, refl, sym, subst, Bool, true, false, Option, none, some, String, arith, if_both,
  if◌then◌else◌, Bytes,
}
use sdlc_orchestrator.Engine.States
use sdlc_orchestrator.Engine.States.{State, same_state}
use sdlc_orchestrator.Engine.Job.{Desk, Settings, World}
use sdlc_orchestrator.Engine.Step.{go_on}
use sdlc_orchestrator.Engine.Rules.{Rules}
use sdlc_orchestrator.Engine.Bench.{
  Outside, Bench, Fail, Act, Result, ok, err, pure, raise, ask, ◌>>=◌, modify, note, with_job,
}
use sdlc_orchestrator.Engine.Handlers.{handler}
use sdlc_orchestrator.Engine.Handlers.Progress.{has_handler, Waits, for_device, for_shipping}
use sdlc_orchestrator.Engine.Handlers.Phases.{
  five_minutes, wait_for_device, no_device, ui_on, on_device, test_ui, test_lint, handle_testing,
  fail_to,
}
use sdlc_orchestrator.Engine.Handlers.Delivery.{retry_later, ship_failed, handle_releasing}

-- The job resumes `n` behind an answer of the clock.
abbrev pub ResumesIn : ℕ → Outside → Desk → Type 0
ResumesIn n o k = (t : ℕ) × (k.job.resume_after ≡ some (o.clock t + n))

-- How long the two states wait.
abbrev pub delay_of : Rules → State → ℕ
delay_of rules States.testing = five_minutes
delay_of rules _ = rules.release_retry_backoff

abbrev Delayed : ℕ → State → Outside → Result State × Bench → Type 0
Delayed n s o r = elim (r.0) as (λ x. Type 0) [
  | ok s' ↦ (s' ≡ s → ResumesIn n o r.1.desk)
  | err e ↦ Unit {0}
]

unfoldable pub Delays : ℕ → State → Act State → Type 0
Delays n s m = (o : Outside) (b : Bench) → Delayed n s o (m o b)

unfoldable DelaysIf : ℕ → State → Option (Act State) → Type 0
DelaysIf n s none = Unit {0}
DelaysIf n s (some m) = Delays n s m

module _ (n : ℕ) (s : State) where
  bind-Delays :
      {A : Type 0} (m : Act A) (k : A → Act State)
      → ((a : A) → Delays n s (k a))
      → Delays n s (m >>= k)
  unfolding Delays ◌>>=◌
  bind-Delays {A} m k hk o b = by_result ((m o b).0) ((m o b).1)
    where
      by_result :
          (r : Result A) (b' : Bench)
          → Delayed n s o
              (elim r as (λ x. Result State × Bench) [ ok a ↦ k a o b' | err e ↦ (err e, b') ])
      by_result (ok a) b' = hk a o b'
      by_result (err e) b' = tt

  if-Delays :
      (t : Bool) (m m' : Act State)
      → Delays n s m
      → Delays n s m'
      → Delays n s (if t then m else m')
  if-Delays t m m' h h' = if_both (Delays n s) t m m' h h'

  raise-Delays : (e : Fail) → Delays n s (raise e)
  unfolding Delays raise
  raise-Delays e o b = tt

  moves-Delays : (s' : State) → (s' ≡ s → ⊥) → Delays n s (pure s')
  unfolding Delays pure
  moves-Delays s' h o b = λ e. absurd (h e)

module _ (rules : Rules) where
  wait_for_device-Delays : Delays five_minutes States.testing wait_for_device
  unfolding Delays wait_for_device ◌>>=◌ ask modify note pure with_job
  wait_for_device-Delays o b = λ e. (_, refl)

  retry_later-Delays :
      (n : ℕ) → Delays rules.release_retry_backoff States.releasing (retry_later rules n)
  unfolding Delays retry_later ◌>>=◌ ask modify note pure with_job
  retry_later-Delays n o b = λ e. (_, refl)

  not_final : States.final_review ≡ States.testing → ⊥
  not_final e = ground arith

  not_flake : States.flake_check ≡ States.testing → ⊥
  not_flake e = ground arith

  not_analyzing : States.analyzing ≡ States.testing → ⊥
  not_analyzing e = ground arith

  not_completed : States.completed ≡ States.releasing → ⊥
  not_completed e = ground arith

  on_device-Delays : (d : Option String) → Delays five_minutes States.testing (on_device rules d)
  unfolding on_device no_device ui_on fail_to
  on_device-Delays none =
      search
        (bind-Delays, if-Delays, moves-Delays, wait_for_device-Delays, not_final, not_analyzing)
        depth 30
  on_device-Delays (some serial) =
      search (bind-Delays, if-Delays, moves-Delays, not_final, not_flake) depth 30

  handle_testing-Delays : Delays five_minutes States.testing (handle_testing rules)
  unfolding handle_testing test_lint test_ui fail_to
  handle_testing-Delays =
      search (bind-Delays, if-Delays, moves-Delays, on_device-Delays, not_final, not_flake) depth 40

  handle_releasing-Delays :
      Delays rules.release_retry_backoff States.releasing (handle_releasing rules)
  unfolding handle_releasing ship_failed
  handle_releasing-Delays =
      search (bind-Delays, if-Delays, moves-Delays, raise-Delays, retry_later-Delays, not_completed)
        depth 40

  -- The handler of a state that waits.
  pub Waits-ResumesIn :
      (trim_path : Bytes → Bytes) (m : Act State) (o : Outside) (b b' : Bench) (s s' : State)
      → handler rules trim_path s ≡ some m
      → m o b ≡ (ok s', b')
      → Waits rules s s'
      → ResumesIn (delay_of rules s) o b'.desk
  unfolding handler Delays DelaysIf
  Waits-ResumesIn trim_path m o b b' s s' hm h (for_device policy) =
      subst (Delayed five_minutes States.testing o) h
        (subst (λ (x : Option (Act State)). DelaysIf five_minutes States.testing x) hm
          handle_testing-Delays o b)
        refl
  Waits-ResumesIn trim_path m o b b' s s' hm h for_shipping =
      subst (Delayed rules.release_retry_backoff States.releasing o) h
        (subst (λ (x : Option (Act State)). DelaysIf rules.release_retry_backoff States.releasing x)
          hm handle_releasing-Delays o b)
        refl

-- What a job that waits has.
abbrev pub Resumes : Rules → Outside → State → Desk → Type 0
Resumes rules o s k = Waits rules s k.job.state → ResumesIn (delay_of rules s) o k

Waits-has_handler : (rules : Rules) (s s' : State) → Waits rules s s' → has_handler s' ≡ true
Waits-has_handler rules s s' (for_device policy) = refl
Waits-has_handler rules s s' for_shipping = refl

-- A job that is parked does not wait.
pub parked-Resumes :
    (rules : Rules) (o : Outside) (s : State) (k : Desk)
    → has_handler k.job.state ≡ false
    → Resumes rules o s k
parked-Resumes rules o s k h = λ w. ground (arith, Waits-has_handler rules s k.job.state w)

Waits-same_state : (rules : Rules) (s s' : State) → Waits rules s s' → same_state s' s ≡ true
unfolding same_state
Waits-same_state rules s s' (for_device policy) = refl
Waits-same_state rules s s' for_shipping = refl

-- Where the handler's next state is the state that the job is in, its delay is kept.
pub go_on-Resumes :
    (rules : Rules) (c : Settings) (w : World) (o : Outside) (s s' : State) (k : Desk)
    → k.job.state ≡ s
    → (go_on c w s' k).job.state ≡ s'
    → (Waits rules s s' → ResumesIn (delay_of rules s) o k)
    → Resumes rules o s (go_on c w s' k)
unfolding go_on
go_on-Resumes rules c w o s s' k at there h = λ waits.
    let to = subst (λ (x : State). Waits rules s x) there waits in
    let same =
      subst (λ (x : State). same_state s' x ≡ true) (sym at) (Waits-same_state rules s s' to) in
    rw (same, go_on) (h to)
