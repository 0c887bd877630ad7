-- ===== src/Engine/Bench/Frame.antt =====
-- What an action of the engine's handlers leaves as it was: the counters that never go down, and the merges.
use sdlc_orchestrator.Common.{
  ℕ, suc, ◌+◌, ◌≡◌, ◌≤◌, refl, ap, ◌∙◌, Bool, true, false, List, [], ◌∷◌, ◌++◌, Option, some,
  String, arith, if◌then◌else◌,
}
use sdlc_orchestrator.Engine.Job.{Piece, Counters, event}
use sdlc_orchestrator.Engine.Bench.{
  GitOp, merged_no_ff, Outside, Bench, Fail, Result, ok, err, Act, pure, raise, ask, call, gets,
  ◌>>=◌, modify, raise_if, with_job, with_counters, count, traced, note, set_head, counters_of,
}

abbrev pub one_if_merge : GitOp → ℕ
one_if_merge merged_no_ff = 1
one_if_merge _ = 0

-- How often the default branch was merged into.
abbrev pub merges : List GitOp → ℕ
merges [] = 0
merges (g ∷ gs) = one_if_merge g + merges gs

-- What is asked of an action: to merge nothing, to invoke no agent, and to stay within a number of invocations.
pub record Frame : Type 0 where
  pub apart : Bool
  pub quiet : Bool
  pub cap : Option ℕ

-- The invocations and the retries never go down, the job's state stays, and the frame's demands are met.
abbrev pub Framed : Frame → Bench → Bench → Type 0
Framed fr b b' =
    ((counters_of b).agent_invocations ≤ (counters_of b').agent_invocations)
    × ((counters_of b).flake_retries ≤ (counters_of b').flake_retries)
    × (fr.apart ≡ true → merges b'.git ≡ merges b.git)
    × (fr.quiet ≡ true → (counters_of b').agent_invocations ≡ (counters_of b).agent_invocations)
    × (b'.desk.job.state ≡ b.desk.job.state)
    × ((n : ℕ)
        → fr.cap ≡ some n
        → (counters_of b).agent_invocations ≤ n
        → (counters_of b').agent_invocations ≤ n)

unfoldable pub Keeps {ℓ} : {A : Type ℓ} → Frame → Act A → Type 0
Keeps fr m = (o : Outside) (b : Bench) → Framed fr b (m o b).1

pub Framed-trans : (fr : Frame) (a b c : Bench) → Framed fr a b → Framed fr b c → Framed fr a c
Framed-trans fr a b c h k = (
  omega (arith, h.0, k.0),
  omega (arith, h.1, k.1),
  λ e. k.2 e ∙ h.2 e,
  λ e. k.3 e ∙ h.3 e,
  k.4 ∙ h.4,
  λ n e l. k.5 n e (h.5 n e l),
)

pub bind-Keeps {ℓ κ} :
    {A : Type ℓ} {B : Type κ} (fr : Frame) (m : Act A) (k : A → Act B)
    → Keeps fr m
    → ((a : A) → Keeps fr (k a))
    → Keeps fr (m >>= k)
unfolding Keeps ◌>>=◌
bind-Keeps {A} {B} fr m k hm hk o b = by_result ((m o b).0) ((m o b).1) (hm o b)
  where
    by_result :
        (r : Result A) (b' : Bench)
        → Framed fr b b'
        → Framed fr b
            (elim r as (λ x. Result B × Bench) [ ok a ↦ k a o b' | err e ↦ (err e, b') ]).1
    by_result (ok a) b' h = Framed-trans fr b b' ((k a o b').1) h (hk a o b')
    by_result (err e) b' h = h

-- A chain by how its first action ends.
pub bind_cases {ℓ κ μ} :
    {A : Type ℓ} {B : Type κ} (m : Act A) (k : A → Act B) (o : Outside) (b : Bench)
    (P : Result B × Bench → Type μ)
    → ((e : Fail) (b' : Bench) → m o b ≡ (err e, b') → P (err e, b'))
    → ((a : A) (b' : Bench) → m o b ≡ (ok a, b') → P (k a o b'))
    → P ((m >>= k) o b)
unfolding ◌>>=◌
bind_cases {A} {B} m k o b P he hk = by_result ((m o b).0) ((m o b).1) refl
  where
    by_result :
        (r : Result A) (b' : Bench)
        → m o b ≡ (r, b')
        → P (elim r as (λ x. Result B × Bench) [ ok a ↦ k a o b' | err e ↦ (err e, b') ])
    by_result (ok a) b' e = hk a b' e
    by_result (err e) b' e' = he e b' e'

module _ {ℓ} {A : Type ℓ} (fr : Frame) where
  pub pure-Keeps : (a : A) → Keeps fr (pure a)
  unfolding Keeps pure
  pure-Keeps a o b = ground arith

  pub ask-Keeps : (f : Outside → ℕ → A) → Keeps fr (ask f)
  unfolding Keeps ask
  ask-Keeps f o b = ground arith

  pub call-Keeps : (what : String) (f : Outside → ℕ → A) → Keeps fr (call what f)
  unfolding Keeps call
  call-Keeps what f o b = ground arith

  pub gets-Keeps : (f : Bench → A) → Keeps fr (gets f)
  unfolding Keeps gets
  gets-Keeps f o b = ground arith

  pub if-Keeps : (t : Bool) (m n : Act A) → Keeps fr m → Keeps fr n → Keeps fr (if t then m else n)
  if-Keeps true m n hm hn = hm
  if-Keeps false m n hm hn = hn

pub raise-Keeps {ℓ} : (A : Type ℓ) (fr : Frame) (e : Fail) → Keeps fr (raise {A = A} e)
unfolding Keeps raise
raise-Keeps A fr e o b = ground arith

pub raise_if-Keeps : (fr : Frame) (t : Bool) (e : Fail) → Keeps fr (raise_if t e)
unfolding Keeps raise_if
raise_if-Keeps fr t e o b = ground arith

-- A change of the counters that lets the three grow.
pub count-Keeps :
    (fr : Frame) (f : Counters → Counters)
    → ((c : Counters) → c.agent_invocations ≤ (f c).agent_invocations)
    → (fr.quiet ≡ true → (c : Counters) → (f c).agent_invocations ≡ c.agent_invocations)
    → ((c : Counters) → c.flake_retries ≤ (f c).flake_retries)
    → ((n : ℕ)
        → fr.cap ≡ some n
        → (c : Counters) → c.agent_invocations ≤ n
        → (f c).agent_invocations ≤ n)
    → Keeps fr (count f)
unfolding Keeps with_counters count
count-Keeps fr f h1 h h2 h3 o b =
    let c = counters_of b in (h1 c, h2 c, λ e. refl, λ e. h e c, refl, λ n e l. h3 n e c l)

pub same_le : (n : ℕ) → n ≤ n
same_le n = omega arith

pub same_cap : (n m : ℕ) → n ≤ m → n ≤ m
same_cap n m h = h

pub next_le : (n : ℕ) → n ≤ suc n
next_le n = omega arith

pub merges-append : (gs hs : List GitOp) → merges (gs ++ hs) ≡ merges gs + merges hs
merges-append [] hs = omega arith
merges-append (x ∷ gs) hs = omega (arith, merges-append gs hs)

merges-snoc : (gs : List GitOp) (g : GitOp) → merges (gs ++ (g ∷ [])) ≡ merges gs + one_if_merge g
merges-snoc gs g = omega (arith, merges-append gs (g ∷ []))

pub traced-Keeps : (fr : Frame) (g : GitOp) → one_if_merge g ≡ 0 → Keeps fr (traced g)
unfolding Keeps traced
traced-Keeps fr g h o b = ground (arith, merges-snoc b.git g)

-- Where merging is no breach, so is a merge.
pub merged-Keeps :
    (quiet : Bool) (cap : Option ℕ)
    → Keeps (record { apart = false; quiet = quiet; cap = cap }) (traced merged_no_ff)
unfolding Keeps traced
merged-Keeps quiet cap o b = ground arith

pub note-Keeps : (fr : Frame) (text : List Piece) → Keeps fr (note text)
unfolding Keeps event note
note-Keeps fr text o b = ground arith

pub set_head-Keeps : (fr : Frame) (sha : String) → Keeps fr (set_head sha)
unfolding Keeps with_job set_head
set_head-Keeps fr sha o b = ground arith

-- A change of anything but the counters, the state and the trace.
pub modify-Keeps :
    (fr : Frame) (f : Bench → Bench)
    → ((b : Bench)
        → (counters_of (f b) ≡ counters_of b)
          × ((f b).git ≡ b.git)
          × ((f b).desk.job.state ≡ b.desk.job.state))
    → Keeps fr (modify f)
unfolding Keeps modify
modify-Keeps fr f h o b =
    rw (h b).0 (omega arith, omega arith, λ e. ap merges ((h b).1), λ e. refl, (h b).2, λ n e l. l)

pub ruleset frames = (
  bind-Keeps, pure-Keeps, ask-Keeps, call-Keeps, gets-Keeps, if-Keeps, raise_if-Keeps, raise-Keeps,
  note-Keeps, set_head-Keeps, modify-Keeps, traced-Keeps, count-Keeps, same_le, next_le, same_cap,
)
