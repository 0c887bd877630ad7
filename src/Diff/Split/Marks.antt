-- ===== src/Diff/Split/Marks.antt =====
-- The intra-line marks of internal/diff/split.go: offsets that a template may slice with.
use sdlc_orchestrator.Common.{
  ℕ, zero, suc, ◌+◌, ◌-◌, ◌≤◌, ◌<◌, ◌≡◌, true, false, ◌&&◌, List, [], ◌∷◌, arith, length, drop,
  take, length-drop, if_both, Bool-cases, inl, inr, same, All, All-append, ltb, Bytes, ◌==◌,
  is_empty,
}
use sdlc_orchestrator.Diff.{Line, Hunk}
use sdlc_orchestrator.Diff.Split.{
  Utf8, Row, zero_row, prefix_from, common_prefix, suffix_from, common_suffix, mark_span,
  mark_intra_line, pair_rows, is_context, is_del, is_add, run_of, block, split_from, split,
}

-- A decoder reads no more than the bytes that are there.
abbrev pub WithinText : Utf8 → Type 0
WithinText u = (s : Bytes) → (u.decode s).1 ≤ length s

-- It reads at least a byte where there is one.
abbrev pub Advances : Utf8 → Type 0
Advances u = (s : Bytes) → 0 < length s → 0 < (u.decode s).1

abbrev pub InBounds : Row → Type 0
InBounds r =
    (r.left_start ≤ r.left_end)
    × (r.left_end ≤ length r.left.text)
    × (r.right_start ≤ r.right_end)
    × (r.right_end ≤ length r.right.text)

module _ (u : Utf8) (within : WithinText u) where
  prefix_from_le :
      (fuel i : ℕ) (a b : Bytes)
      → i ≤ length a
      → i ≤ length b
      → (prefix_from u fuel i a b ≤ length a) × (prefix_from u fuel i a b ≤ length b)
  unfolding prefix_from
  prefix_from_le zero i a b h k = (h, k)
  prefix_from_le (suc fuel) i a b h k = ground (
    arith,
    prefix_from_le fuel (i + (u.decode (drop i a)).1) a b,
    within (drop i a),
    within (drop i b),
    length-drop i a,
    length-drop i b,
  )

suffix_from_le :
    (u : Utf8) (fuel ea eb : ℕ) (a b : Bytes)
    → ((suffix_from u fuel ea eb a b).0 ≤ ea) × ((suffix_from u fuel ea eb a b).1 ≤ eb)
unfolding suffix_from
suffix_from_le u zero ea eb a b = omega arith
suffix_from_le u (suc fuel) ea eb a b = ground (
  arith,
  suffix_from_le u fuel (ea - (u.decode_last (take ea a)).1) (eb - (u.decode_last (take eb b)).1) a
      b,
)

mark_span-InBounds :
    (u : Utf8) (start ea eb : ℕ) (r : Row)
    → start ≤ ea
    → ea ≤ length r.left.text
    → start ≤ eb
    → eb ≤ length r.right.text
    → InBounds r
    → InBounds (mark_span u start ea eb r)
unfolding mark_span
mark_span-InBounds u start ea eb r h1 h2 h3 h4 i = ground arith

module _ (u : Utf8) (within : WithinText u) where
  mark_intra_line-InBounds : (r : Row) → InBounds r → InBounds (mark_intra_line u r)
  unfolding mark_intra_line common_prefix common_suffix
  mark_intra_line-InBounds r i = elim (Bool-cases (same r.left.text r.right.text)) [
    | inl e ↦ rw e i
    | inr e ↦
        let a = r.left.text in
        let b = r.right.text in
        let start = common_prefix u a b in
        let p = prefix_from_le u within (length a) 0 a b (omega arith) (omega arith) in
        let ra = drop start a in
        let rb = drop start b in
        let s = suffix_from_le u (length ra) (length ra) (length rb) ra rb in
        let ends = common_suffix u ra rb in
        rw e (
          mark_span-InBounds u start (ends.0 + start) (ends.1 + start) r (omega arith)
            (omega (arith, s.0, p.0, length-drop start a)) (omega arith)
            (omega (arith, s.1, p.1, length-drop start b)) i)
  ]

  pair_rows-InBounds : (ds as' : List Line) → All InBounds (pair_rows u ds as')
  unfolding pair_rows
  pair_rows-InBounds [] [] = tt
  pair_rows-InBounds (d ∷ ds) [] = (omega arith, pair_rows-InBounds ds [])
  pair_rows-InBounds [] (a ∷ as') = (omega arith, pair_rows-InBounds [] as')
  pair_rows-InBounds (d ∷ ds) (a ∷ as') = (
    mark_intra_line-InBounds
        (record zero_row { left = d; has_left = true; right = a; has_right = true }) (omega arith),
    pair_rows-InBounds ds as',
  )

  block-InBounds : (l : Line) (ls : List Line) → All InBounds (block u l ls).0
  unfolding block
  block-InBounds l ls =
      let ds = run_of is_del (l ∷ ls) in
      let as' = run_of is_add ds.1 in
      elim (Bool-cases (is_empty ds.0 && is_empty as'.0)) [
        | inl e ↦ rw e tt
        | inr e ↦ rw e (pair_rows-InBounds ds.0 as'.0)
      ]

  split_from-InBounds : (fuel : ℕ) (ls : List Line) → All InBounds (split_from u fuel ls)
  unfolding split_from
  split_from-InBounds zero ls = tt
  split_from-InBounds (suc fuel) [] = tt
  split_from-InBounds (suc fuel) (l ∷ ls) =
      if_both (All InBounds) (is_context l.kind) _ _ (omega arith, split_from-InBounds fuel ls)
        (All-append InBounds _ _ (block-InBounds l ls) (split_from-InBounds fuel (block u l ls).1))

  -- Every marked span of every row lies within the text that it marks, so that a template may slice
  -- with it, if the rune decoder reads no more than the text holds.
  pub split-InBounds : (h : Hunk) → All InBounds (split u h)
  unfolding split
  split-InBounds h = split_from-InBounds (length h.lines) h.lines

-- Where the scan for the common prefix stops: at the end of a text or at two different runes.
abbrev pub Stopped : Utf8 → Bytes → Bytes → ℕ → Type 0
Stopped u a b i =
    (ltb i (length a)
      && ltb i (length b)
      && ((u.decode (drop i a)).0 == (u.decode (drop i b)).0
          && (u.decode (drop i a)).1 == (u.decode (drop i b)).1))
    ≡ false

prefix_from_stops :
    (u : Utf8)
    → Advances u
    → (fuel i : ℕ) (a b : Bytes) → length a ≤ i + fuel
    → Stopped u a b (prefix_from u fuel i a b)
unfolding prefix_from
prefix_from_stops u adv zero i a b h = ground arith
prefix_from_stops u adv (suc fuel) i a b h = ground (
  arith,
  prefix_from_stops u adv fuel (i + (u.decode (drop i a)).1) a b,
  adv (drop i a),
  length-drop i a,
)

-- The scan for the common prefix goes on as long as both texts have a rune left and the two runes are
-- equal: it stops at the first difference or at the end of a text, never for want of rounds, if the
-- rune decoder reads at least a byte of a text that is not empty.
pub common_prefix_stops :
    (u : Utf8) → Advances u → (a b : Bytes) → Stopped u a b (common_prefix u a b)
unfolding common_prefix
common_prefix_stops u adv a b = prefix_from_stops u adv (length a) 0 a b (omega arith)
