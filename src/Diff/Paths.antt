-- ===== src/Diff/Paths.antt =====
-- Header paths of internal/diff/diff.go: `headerPath`, `renamePath`, `splitDiffGitPaths`.
use sdlc_orchestrator.Common.{
  ℕ, ◌+◌, Bool, false, ◌&&◌, ◌||◌, [], ◌∷◌, Option, none, some, Bytes, codes, before, has_prefix,
  same, is_empty, take, drop, if◌then◌else◌, ◌==◌,
}
use sdlc_orchestrator.Diff.{GoText}

-- "\x00/dev/null".
abbrev pub dev_null : Bytes
dev_null = 0 ∷ codes "/dev/null"

starts_with_quote : Bytes → Bool
starts_with_quote (c ∷ d ∷ s) = c == b'"'
starts_with_quote _ = false

or_else : Option Bytes → Bytes → Bytes
or_else none s = s
or_else (some u) s = u

unfoldable pub strip_src_prefix : Bytes → Bytes
strip_src_prefix (c ∷ d ∷ s) = if (c == b'a' || c == b'b') && d == b'/' then s else c ∷ d ∷ s
strip_src_prefix s = s

-- `isSplitPoint(s, i)`, of the byte at `i` and what follows it.
split_point : Bytes → Bool
unfolding has_prefix
split_point [] = false
split_point (c ∷ r) = c == b' ' && (has_prefix r (codes "b/") || has_prefix r (codes "\"b/"))

-- `closingQuote`: `i` is the position of the first byte of the text. An escape skips a byte.
closing_from : ℕ → Bytes → Option ℕ
closing_from i [] = none
closing_from i (c ∷ []) = if c == 92 then none else if c == b'"' then some (i + 1) else none
closing_from i (c ∷ d ∷ s) =
    let skip = closing_from (i + 2) s in
    let go = closing_from (i + 1) (d ∷ s) in
    if c == 92 then skip else if c == b'"' then some (i + 1) else go

unfoldable pub closing_quote : Bytes → Option ℕ
unfolding closing_from
closing_quote [] = none
closing_quote (c ∷ s) = closing_from 1 s

module _ (go : GoText) where
  unfoldable pub unquote_path : Bytes → Bytes
  unfolding starts_with_quote or_else
  unquote_path s = if starts_with_quote s then or_else (go.unquote s) s else s

  unfoldable pub raw_header_path : Bytes → Bytes
  unfolding unquote_path before same
  raw_header_path s =
      let u = unquote_path (before s b'\t') in if same u (codes "/dev/null") then dev_null else u

  unfoldable pub header_path : Bytes → Bytes
  unfolding raw_header_path strip_src_prefix
  header_path s =
      let r = raw_header_path s in if same r dev_null then dev_null else strip_src_prefix r

  unfoldable pub rename_path : Bytes → Bytes
  unfolding raw_header_path
  rename_path s = raw_header_path s

  -- Both halves of `rest` around the separator at `i`.
  halves : Bytes → ℕ → Bytes × Bytes
  unfolding header_path
  halves rest i = (header_path (take i rest), header_path (drop (i + 1) rest))

  equal_halves : Bytes × Bytes → Bool
  unfolding same
  equal_halves (o, n) = if is_empty o then false else same o n

  -- The scan for split points: the last one, and the last one with equal halves.
  scan : Bytes → ℕ → Bytes → Option ℕ → Option ℕ → Option ℕ × Option ℕ
  unfolding split_point halves equal_halves
  scan rest i [] last eq = (last, eq)
  scan rest i (c ∷ s) last eq =
      scan rest (i + 1) s (if split_point (c ∷ s) then some i else last)
        (if split_point (c ∷ s) && equal_halves (halves rest i) then some i else eq)

  chosen : Bytes → Option ℕ × Option ℕ → Bytes × Bytes
  unfolding halves header_path
  chosen rest (last, some eq) = halves rest eq
  chosen rest (some last, none) = halves rest last
  chosen rest (none, none) = (header_path rest, header_path rest)

  quoted_halves : Bytes → Option ℕ → Bytes × Bytes
  unfolding header_path chosen scan
  quoted_halves rest (some i) =
      (header_path (take i rest), header_path (go.trim_space (drop i rest)))
  quoted_halves rest none = chosen rest (scan rest 0 rest none none)

  unfoldable pub split_diff_git_paths : Bytes → Bytes × Bytes
  unfolding quoted_halves closing_quote has_prefix
  split_diff_git_paths rest =
      quoted_halves rest (if has_prefix rest (b'"' ∷ []) then closing_quote rest else none)
