-- ===== src/Common/Text.antt =====
-- Go strings that the program reads byte by byte, with the functions of package strings that it
-- calls on them.
use Prim.Native.Nat.{ℕ, zero, suc, ◌+◌, ◌/◌, ◌%◌}
use Prim.Native.Char.{code}
use Prim.Native.String.{String}
use mathlib.Core.Path.{◌≡◌, refl}
use mathlib.Core.Bool.{Bool, true, false, ◌&&◌, ◌||◌}
use mathlib.Core.List.{List, [], ◌∷◌, reverse}
use native.Mathlib.Omega.{arith}
use sdlc_orchestrator.Common.Tests.{◌==◌, if◌then◌else◌}
use sdlc_orchestrator.Common.Lists.{length, drop}

abbrev pub Bytes : Type 0
Bytes = List ℕ

-- The bytes of an ASCII literal.
abbrev pub codes : String → Bytes
codes String.[] = []
codes (String.◌∷◌ c s) = code c ∷ codes s

-- `a == b` on strings.
unfoldable pub same : Bytes → Bytes → Bool
same [] [] = true
same (a ∷ s) (b ∷ t) = (a == b) && same s t
same _ _ = false

pub same→eq : (s t : Bytes) → same s t ≡ true → s ≡ t
unfolding same
same→eq [] [] h = refl
same→eq (a ∷ s) (b ∷ t) h = ground (arith, same→eq s t)
same→eq [] (b ∷ t) h = ground arith
same→eq (a ∷ s) [] h = ground arith

pub same_refl : (s : Bytes) → same s s ≡ true
unfolding same
same_refl [] = refl
same_refl (a ∷ s) = ground (arith, same_refl s)

-- `strings.HasPrefix(s, prefix)`.
unfoldable pub has_prefix : Bytes → Bytes → Bool
has_prefix s [] = true
has_prefix [] (b ∷ t) = false
has_prefix (a ∷ s) (b ∷ t) = (a == b) && has_prefix s t

-- `strings.HasSuffix(s, suffix)`.
unfoldable pub has_suffix : Bytes → Bytes → Bool
unfolding has_prefix
has_suffix s suffix = has_prefix (reverse s) (reverse suffix)

-- `strings.TrimPrefix(s, prefix)`.
unfoldable pub trim_prefix : Bytes → Bytes → Bytes
unfolding has_prefix
trim_prefix s prefix = if has_prefix s prefix then drop (length prefix) s else s

-- `strings.TrimSuffix(s, suffix)` for a suffix of one byte.
unfoldable pub trim_last : Bytes → ℕ → Bytes
trim_last [] c = []
trim_last (a ∷ []) c = if a == c then [] else a ∷ []
trim_last (a ∷ b ∷ s) c = a ∷ trim_last (b ∷ s) c

-- `s[:strings.IndexByte(s, c)]`, or all of `s` where the byte does not occur.
unfoldable pub before : Bytes → ℕ → Bytes
before [] c = []
before (a ∷ s) c = if a == c then [] else a ∷ before s c

-- `strings.Contains(s, sub)`.
unfoldable pub contains : Bytes → Bytes → Bool
unfolding has_prefix
contains [] sub = has_prefix [] sub
contains (a ∷ s) sub = has_prefix (a ∷ s) sub || contains s sub

-- Splits off the first piece: `cur` is the reverse of what was read of it.
split_from : ℕ → Bytes → Bytes → List Bytes
split_from sep cur [] = reverse cur ∷ []
split_from sep cur (a ∷ s) = elim (a == sep) [
  | true ↦ reverse cur ∷ split_from sep [] s
  | false ↦ split_from sep (a ∷ cur) s
]

-- `strings.Split(s, sep)` for a separator of one byte.
unfoldable pub split_on : Bytes → ℕ → List Bytes
unfolding split_from
split_on s sep = split_from sep [] s

decimal_from : ℕ → ℕ → Bytes → Bytes
decimal_from zero n out = out
decimal_from (suc f) n out = elim (n == 0) [
  | true ↦ out
  | false ↦ decimal_from f (n / 10) ((b'0' + n % 10) ∷ out)
]

-- `%d` of an int that is not negative; an int has at most nineteen digits.
unfoldable pub decimal : ℕ → Bytes
unfolding decimal_from
decimal n = if n == 0 then b'0' ∷ [] else decimal_from 20 n []
