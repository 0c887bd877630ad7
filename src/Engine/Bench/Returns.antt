-- ===== src/Engine/Bench/Returns.antt =====
-- What an action of the engine's handlers returns where it succeeds, and whether an agent was invoked by then.
use sdlc_orchestrator.Common.{
  ℕ, suc, ◌≡◌, ◌≤◌, ◌<◌, refl, Bool, true, false, List, [], ◌∷◌, String, arith, if_both, if_cases,
  if◌then◌else◌,
}
use sdlc_orchestrator.Engine.Bench.{
  Outside, Bench, Fail, Result, ok, err, Act, pure, raise, ◌>>=◌, counters_of,
}
use sdlc_orchestrator.Engine.Bench.Frame.{Frame, Framed, Keeps}

-- What holds of a value where there is one.
abbrev pub Value {ℓ} : {A : Type ℓ} → (A → Type 0) → Result A → Type 0
Value P (ok a) = P a
Value P (err e) = Unit {0}

unfoldable pub Returns {ℓ} : {A : Type ℓ} → (A → Type 0) → Act A → Type 0
Returns P m = (o : Outside) (b : Bench) → Value P (m o b).0

pub bind-Returns {ℓ κ} :
    {A : Type ℓ} {B : Type κ} (P : B → Type 0) (m : Act A) (k : A → Act B)
    → ((a : A) → Returns P (k a))
    → Returns P (m >>= k)
unfolding Returns ◌>>=◌
bind-Returns {A} {B} P m k h o b = by_result ((m o b).0) ((m o b).1)
  where
    by_result :
        (r : Result A) (b' : Bench)
        → Value P (elim r as (λ x. Result B × Bench) [ ok a ↦ k a o b' | err e ↦ (err e, b') ]).0
    by_result (ok a) b' = h a o b'
    by_result (err e) b' = tt

pub raise-Returns {ℓ} : (A : Type ℓ) (P : A → Type 0) (e : Fail) → Returns P (raise {A = A} e)
unfolding Returns raise
raise-Returns A P e o b = tt

module _ {ℓ} {A : Type ℓ} (P : A → Type 0) where
  pub pure-Returns : (a : A) → P a → Returns P (pure a)
  unfolding Returns pure
  pure-Returns a h o b = h

  pub if-Returns :
      (t : Bool) (m n : Act A)
      → (t ≡ true → Returns P m)
      → (t ≡ false → Returns P n)
      → Returns P (if t then m else n)
  if-Returns t m n hm hn = if_cases (Returns P) t m n hm hn

pub ruleset returns = (bind-Returns, raise-Returns, pure-Returns, if-Returns, if_cases)

-- An agent was invoked, where the action succeeds.
abbrev Grown {ℓ} : {A : Type ℓ} → Bench → Result A × Bench → Type 0
Grown b r =
    Value (λ a. (counters_of b).agent_invocations < (counters_of (r.1)).agent_invocations) r.0

unfoldable pub Invokes {ℓ} : {A : Type ℓ} → Act A → Type 0
Invokes m = (o : Outside) (b : Bench) → Grown b (m o b)

pub first-Invokes {ℓ κ} :
    {A : Type ℓ} {B : Type κ} (fr : Frame) (m : Act A) (k : A → Act B)
    → Invokes m
    → ((a : A) → Keeps fr (k a))
    → Invokes (m >>= k)
unfolding Invokes Keeps ◌>>=◌
first-Invokes {A} {B} fr m k hm hk o b = by_result ((m o b).0) ((m o b).1) (hm o b)
  where
    keeps :
        (r : Result B) (b' c : Bench)
        → (counters_of b).agent_invocations < (counters_of b').agent_invocations
        → Framed fr b' c
        → Grown b (r, c)
    keeps (ok a) b' c h f = omega (arith, f.0)
    keeps (err e) b' c h f = tt

    by_result :
        (r : Result A) (b' : Bench)
        → Grown b (r, b')
        → Grown b (elim r as (λ x. Result B × Bench) [ ok a ↦ k a o b' | err e ↦ (err e, b') ])
    by_result (ok a) b' h = keeps ((k a o b').0) b' ((k a o b').1) h (hk a o b')
    by_result (err e) b' h = tt

pub then-Invokes {ℓ κ} :
    {A : Type ℓ} {B : Type κ} (fr : Frame) (m : Act A) (k : A → Act B)
    → Keeps fr m
    → ((a : A) → Invokes (k a))
    → Invokes (m >>= k)
unfolding Invokes Keeps ◌>>=◌
then-Invokes {A} {B} fr m k hm hk o b = by_result ((m o b).0) ((m o b).1) (hm o b)
  where
    grown : (r : Result B) (b' c : Bench) → Framed fr b b' → Grown b' (r, c) → Grown b (r, c)
    grown (ok a) b' c f h = omega (arith, f.0)
    grown (err e) b' c f h = tt

    by_result :
        (r : Result A) (b' : Bench)
        → Framed fr b b'
        → Grown b (elim r as (λ x. Result B × Bench) [ ok a ↦ k a o b' | err e ↦ (err e, b') ])
    by_result (ok a) b' f = grown ((k a o b').0) b' ((k a o b').1) f (hk a o b')
    by_result (err e) b' f = tt
