-- ===== src/Diff/Split.antt =====
-- internal/diff/split.go: the lines of a hunk paired for side-by-side display. The rune decoders of
-- package unicode/utf8 and the comparison of the guard, which Go makes on floats, are parameters.
pub mod Sides
pub mod Marks
use sdlc_orchestrator.Common.{
  ℕ, zero, suc, ◌+◌, ◌-◌, ltb, leb, Bool, true, false, ◌&&◌, ◌||◌, not, List, [], ◌∷◌, ◌++◌, Option,
  none, some, Bytes, same, length, take, drop, if◌then◌else◌, ◌==◌, is_empty,
}
use sdlc_orchestrator.Diff.{Kind, context, add, del, other, Line, Hunk}

-- `utf8.DecodeRuneInString` and `utf8.DecodeLastRuneInString`, as (rune, width), and the test
-- `float64(span) > intraLineGuard*float64(longer)`.
pub record Utf8 : Type 0 where
  pub decode : Bytes → ℕ × ℕ
  pub decode_last : Bytes → ℕ × ℕ
  pub past_guard : ℕ → ℕ → Bool

pub record Row : Type 0 where
  pub left : Line
  pub right : Line
  pub has_left : Bool
  pub has_right : Bool
  pub left_start : ℕ
  pub left_end : ℕ
  pub right_start : ℕ
  pub right_end : ℕ

-- `Line{}`.
abbrev pub zero_line : Line
zero_line = record { kind = context; old_no = 0; new_no = 0; text = []; no_newline = false }

-- `Row{}`.
abbrev pub zero_row : Row
zero_row = record {
  left = zero_line;
  right = zero_line;
  has_left = false;
  has_right = false;
  left_start = 0;
  left_end = 0;
  right_start = 0;
  right_end = 0;
}

module _ (u : Utf8) where
  -- The runes that `a` and `b` begin with: the bytes that both share from offset `i`. Each round
  -- reads at least a byte, so as many rounds as `a` has bytes are enough.
  unfoldable pub prefix_from : ℕ → ℕ → Bytes → Bytes → ℕ
  prefix_from zero i a b = i
  prefix_from (suc fuel) i a b =
      let ra = u.decode (drop i a) in
      let rb = u.decode (drop i b) in
      let rest = prefix_from fuel (i + ra.1) a b in
      if ltb i (length a) && ltb i (length b)
      then (if ra.0 == rb.0 && ra.1 == rb.1 then rest else i)
      else i

  unfoldable pub common_prefix : Bytes → Bytes → ℕ
  unfolding prefix_from
  common_prefix a b = prefix_from (length a) 0 a b

  unfoldable pub suffix_from : ℕ → ℕ → ℕ → Bytes → Bytes → ℕ × ℕ
  suffix_from zero ea eb a b = (ea, eb)
  suffix_from (suc fuel) ea eb a b =
      let ra = u.decode_last (take ea a) in
      let rb = u.decode_last (take eb b) in
      let rest = suffix_from fuel (ea - ra.1) (eb - rb.1) a b in
      if ltb 0 ea && ltb 0 eb
      then (if ra.0 == rb.0 && ra.1 == rb.1 then rest else (ea, eb))
      else (ea, eb)

  unfoldable pub common_suffix : Bytes → Bytes → ℕ × ℕ
  unfolding suffix_from
  common_suffix a b = suffix_from (length a) (length a) (length b) a b

  larger : ℕ → ℕ → ℕ
  larger x y = if ltb x y then y else x

  -- The span between the common prefix and the common suffix, marked unless the guard refuses.
  unfoldable pub mark_span : ℕ → ℕ → ℕ → Row → Row
  unfolding larger
  mark_span start ea eb r =
      let longer = larger (length r.left.text) (length r.right.text) in
      if longer == 0 || u.past_guard (larger (ea - start) (eb - start)) longer
      then r
      else record r { left_start = start; left_end = ea; right_start = start; right_end = eb }

  unfoldable pub mark_intra_line : Row → Row
  unfolding same common_prefix common_suffix mark_span
  mark_intra_line r =
      let a = r.left.text in
      let b = r.right.text in
      let start = common_prefix a b in
      let ends = common_suffix (drop start a) (drop start b) in
      if same a b then r else mark_span start (ends.0 + start) (ends.1 + start) r

  -- The rows of one change block: the i-th deletion opposite the i-th addition.
  unfoldable pub pair_rows : List Line → List Line → List Row
  unfolding mark_intra_line
  pair_rows [] [] = []
  pair_rows (d ∷ ds) [] = record zero_row { left = d; has_left = true } ∷ pair_rows ds []
  pair_rows [] (a ∷ as') = record zero_row { right = a; has_right = true } ∷ pair_rows [] as'
  pair_rows (d ∷ ds) (a ∷ as') =
      mark_intra_line (record zero_row { left = d; has_left = true; right = a; has_right = true })
      ∷ pair_rows ds as'

abbrev pub is_context : Kind → Bool
is_context context = true
is_context _ = false

abbrev pub is_del : Kind → Bool
is_del del = true
is_del _ = false

abbrev pub is_add : Kind → Bool
is_add add = true
is_add _ = false

-- The longest run of lines of a kind, and what follows it.
unfoldable pub run_of : (Kind → Bool) → List Line → List Line × List Line
run_of p [] = ([], [])
run_of p (l ∷ ls) = let r = run_of p ls in if p l.kind then (l ∷ r.0, r.1) else ([], l ∷ ls)

module _ (u : Utf8) where
  -- One round of the loop on a block that does not begin with a context line: the rows, and the
  -- lines that are left. An empty block skips one line.
  unfoldable pub block : Line → List Line → List Row × List Line
  unfolding run_of pair_rows
  block l ls =
      let ds = run_of is_del (l ∷ ls) in
      let as' = run_of is_add ds.1 in
      if is_empty ds.0 && is_empty as'.0 then ([], ls) else (pair_rows u ds.0 as'.0, as'.1)

  -- Each round takes at least a line, so as many rounds as there are lines are enough.
  unfoldable pub split_from : ℕ → List Line → List Row
  unfolding block
  split_from zero ls = []
  split_from (suc fuel) [] = []
  split_from (suc fuel) (l ∷ ls) =
      let plain =
        record zero_row { left = l; right = l; has_left = true; has_right = true }
        ∷ split_from fuel ls in
      let b = block l ls in
      let changed = b.0 ++ split_from fuel b.1 in if is_context l.kind then plain else changed

  unfoldable pub split : Hunk → List Row
  unfolding split_from
  split h = split_from (length h.lines) h.lines
