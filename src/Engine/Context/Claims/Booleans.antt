-- ===== src/Engine/Context/Claims/Booleans.antt =====
-- The tests that `reconcileClaims` of internal/engine/jobctx.go comes to, on Booleans.
use sdlc_orchestrator.Common.{◌≡◌, refl, Bool, true, false, ◌&&◌, ◌||◌, not, arith}

-- One path more, on Booleans: `q` where it is the one asked about, `s` where that was seen, `e` where it is empty, `h` and
-- `a` where the later claims and the changed files have it.
pub or_nothing : (s e : Bool) → s ≡ (s || (not e && false))
or_nothing true e = refl
or_nothing false true = refl
or_nothing false false = refl

pub seen_skipped : (s e h : Bool) → (e || s) ≡ true → (s || (not e && h)) ≡ (s || (not e && true))
seen_skipped true e h k = refl
seen_skipped false true h k = refl
seen_skipped false false h k = ground (arith, k)

pub seen_added : (s e h : Bool) → (e || s) ≡ false → (true || (not e && h)) ≡ (s || (not e && true))
seen_added true true h k = refl
seen_added true false h k = refl
seen_added false true h k = ground (arith, k)
seen_added false false h k = refl

pub phantom_none : (s e a : Bool) → false ≡ (((not e && false) && not s) && not a)
phantom_none s true a = refl
phantom_none s false a = refl

pub phantom_skipped :
    (s e h a : Bool)
    → (e || s) ≡ true
    → (((not e && h) && not s) && not a) ≡ (((not e && true) && not s) && not a)
phantom_skipped s true h a k = refl
phantom_skipped true false true a k = refl
phantom_skipped true false false a k = refl
phantom_skipped false false h a k = ground (arith, k)

-- A claim that was not changed, and one that was.
pub phantom_added :
    (s e h a x : Bool) → (e || s) ≡ false → a ≡ false → true ≡ (((not e && true) && not s) && not a)
phantom_added true true h a x k l = ground (arith, k)
phantom_added true false h a x k l = ground (arith, k)
phantom_added false true h a x k l = ground (arith, k)
phantom_added false false h true x k l = ground (arith, l)
phantom_added false false h false x k l = refl

pub phantom_true :
    (s e h a : Bool)
    → a ≡ true
    → (((not e && h) && false) && not a) ≡ (((not e && true) && not s) && not a)
phantom_true s e h false l = ground (arith, l)
phantom_true s true h true l = refl
phantom_true true false true true l = refl
phantom_true true false false true l = refl
phantom_true false false true true l = refl
phantom_true false false false true l = refl

pub unreported_added : (s e : Bool) → (not e && not s) ≡ true → true ≡ ((not e && true) && not s)
unreported_added true true k = ground (arith, k)
unreported_added true false k = ground (arith, k)
unreported_added false true k = ground (arith, k)
unreported_added false false k = refl

pub unreported_skipped :
    (s e h : Bool) → (not e && not s) ≡ false → ((not e && h) && not s) ≡ ((not e && true) && not s)
unreported_skipped s true h k = refl
unreported_skipped true false true k = refl
unreported_skipped true false false k = refl
unreported_skipped false false h k = ground (arith, k)

pub unreported_none : (s e : Bool) → false ≡ ((not e && false) && not s)
unreported_none s true = refl
unreported_none s false = refl

pub first_difference :
    (e h a : Bool) → (((not e && h) && true) && not a) ≡ ((not e && h) && not (not e && a))
first_difference true h a = refl
first_difference false true a = refl
first_difference false false a = refl
