-- ===== src/Diff/Split/Sides.antt =====
-- The two columns of the side-by-side view of internal/diff/split.go against the unified view.
use sdlc_orchestrator.Common.{
  ℕ, zero, suc, ◌+◌, ◌≤◌, ◌≡◌, refl, ◌∙◌, ap, Bool, true, false, ◌&&◌, ◌||◌, List, [], ◌∷◌, ◌++◌,
  arith, length, length-append, select, is_empty, if◌then◌else◌, Bool-cases, inl, inr, same,
}
use sdlc_orchestrator.Diff.{Kind, Line, Hunk}
use sdlc_orchestrator.Diff.Split.{
  Utf8, Row, zero_row, mark_span, mark_intra_line, pair_rows, is_context, is_del, is_add, run_of,
  block, split_from, split,
}

-- The lines of a column, in order.
abbrev pub lefts : List Row → List Line
lefts [] = []
lefts (r ∷ rs) = let rest = lefts rs in if r.has_left then r.left ∷ rest else rest

abbrev pub rights : List Row → List Line
rights [] = []
rights (r ∷ rs) = let rest = rights rs in if r.has_right then r.right ∷ rest else rest

-- The lines of the unified view that exist on a side.
abbrev pub on_left : Line → Bool
on_left l = is_context l.kind || is_del l.kind

abbrev pub on_right : Line → Bool
on_right l = is_context l.kind || is_add l.kind

module _ (u : Utf8) where
  mark_span_lines :
      (start ea eb : ℕ) (r : Row)
      → ((mark_span u start ea eb r).left ≡ r.left)
        × ((mark_span u start ea eb r).right ≡ r.right)
        × ((mark_span u start ea eb r).has_left ≡ r.has_left)
        × ((mark_span u start ea eb r).has_right ≡ r.has_right)
  unfolding mark_span
  mark_span_lines start ea eb r = ground arith

  -- Marking a row changes its offsets only.
  mark_lines :
      (r : Row)
      → ((mark_intra_line u r).left ≡ r.left)
        × ((mark_intra_line u r).right ≡ r.right)
        × ((mark_intra_line u r).has_left ≡ r.has_left)
        × ((mark_intra_line u r).has_right ≡ r.has_right)
  unfolding mark_intra_line
  mark_lines r = elim (Bool-cases (same r.left.text r.right.text)) [
    | inl e ↦ rw e (refl, refl, refl, refl)
    | inr e ↦ rw e (mark_span_lines _ _ _ r)
  ]

  lefts-pair_rows : (ds as' : List Line) → lefts (pair_rows u ds as') ≡ ds
  unfolding pair_rows
  lefts-pair_rows [] [] = refl
  lefts-pair_rows (d ∷ ds) [] = ap (λ x. d ∷ x) (lefts-pair_rows ds [])
  lefts-pair_rows [] (a ∷ as') = lefts-pair_rows [] as'
  lefts-pair_rows (d ∷ ds) (a ∷ as') =
      let m =
        mark_lines (record zero_row { left = d; has_left = true; right = a; has_right = true }) in
      rw (m.2, m.0) (ap (λ x. d ∷ x) (lefts-pair_rows ds as'))

  rights-pair_rows : (ds as' : List Line) → rights (pair_rows u ds as') ≡ as'
  unfolding pair_rows
  rights-pair_rows [] [] = refl
  rights-pair_rows (d ∷ ds) [] = rights-pair_rows ds []
  rights-pair_rows [] (a ∷ as') = ap (λ x. a ∷ x) (rights-pair_rows [] as')
  rights-pair_rows (d ∷ ds) (a ∷ as') =
      let m =
        mark_lines (record zero_row { left = d; has_left = true; right = a; has_right = true }) in
      rw (m.3, m.1) (ap (λ x. a ∷ x) (rights-pair_rows ds as'))

lefts-append : (rs qs : List Row) → lefts (rs ++ qs) ≡ lefts rs ++ lefts qs
lefts-append [] qs = refl
lefts-append (r ∷ rs) qs = ground (arith, lefts-append rs qs)

rights-append : (rs qs : List Row) → rights (rs ++ qs) ≡ rights rs ++ rights qs
rights-append [] qs = refl
rights-append (r ∷ rs) qs = ground (arith, rights-append rs qs)

select-append :
    (q : Line → Bool) (ls ms : List Line) → select q (ls ++ ms) ≡ select q ls ++ select q ms
select-append q [] ms = refl
select-append q (l ∷ ls) ms = ground (arith, select-append q ls ms)

module _ (p : Kind → Bool) where
  run_of-append : (ls : List Line) → (run_of p ls).0 ++ (run_of p ls).1 ≡ ls
  unfolding run_of
  run_of-append [] = refl
  run_of-append (l ∷ ls) = ground (arith, run_of-append ls)

  select-run_of_keep :
      (q : Line → Bool)
      → ((l : Line) → p l.kind ≡ true → q l ≡ true)
      → (ls : List Line) → select q (run_of p ls).0 ≡ (run_of p ls).0
  unfolding run_of
  select-run_of_keep q k [] = refl
  select-run_of_keep q k (l ∷ ls) = ground (arith, select-run_of_keep q k ls, k l)

  select-run_of_drop :
      (q : Line → Bool)
      → ((l : Line) → p l.kind ≡ true → q l ≡ false)
      → (ls : List Line) → select q (run_of p ls).0 ≡ []
  unfolding run_of
  select-run_of_drop q k [] = refl
  select-run_of_drop q k (l ∷ ls) = ground (arith, select-run_of_drop q k ls, k l)

run_of_empty :
    (p : Kind → Bool) (l : Line) (ls : List Line)
    → is_empty (run_of p (l ∷ ls)).0 ≡ true
    → p l.kind ≡ false
unfolding run_of
run_of_empty p l ls h = ground arith

run_of_none :
    (p : Kind → Bool) (l : Line) (ls : List Line)
    → p l.kind ≡ false
    → run_of p (l ∷ ls) ≡ ([], l ∷ ls)
unfolding run_of
run_of_none p l ls h = rw h

is_empty→nil : (ls : List Line) → is_empty ls ≡ true → ls ≡ []
is_empty→nil [] h = refl
is_empty→nil (l ∷ ls) h = cc

del_left : (l : Line) → is_del l.kind ≡ true → on_left l ≡ true
del_left l h = ground arith

add_left : (l : Line) → is_add l.kind ≡ true → on_left l ≡ false
add_left l h = ground arith

del_right : (l : Line) → is_del l.kind ≡ true → on_right l ≡ false
del_right l h = ground arith

add_right : (l : Line) → is_add l.kind ≡ true → on_right l ≡ true
add_right l h = ground arith

neither_left : (l : Line) → is_context l.kind ≡ false → is_del l.kind ≡ false → on_left l ≡ false
neither_left l h k = ground arith

neither_right : (l : Line) → is_context l.kind ≡ false → is_add l.kind ≡ false → on_right l ≡ false
neither_right l h k = ground arith

module _ (xs : List Line) where
  abbrev removed : List Line × List Line
  removed = run_of is_del xs

  abbrev inserted : List Line × List Line
  inserted = run_of is_add removed.1

  block_left : removed.0 ++ select on_left inserted.1 ≡ select on_left xs
  block_left = cc (
    ap (select on_left) (run_of-append is_del xs),
    ap (select on_left) (run_of-append is_add removed.1),
    select-append on_left removed.0 removed.1,
    select-append on_left inserted.0 inserted.1,
    select-run_of_keep is_del on_left del_left xs,
    select-run_of_drop is_add on_left add_left removed.1,
  )

  block_right : inserted.0 ++ select on_right inserted.1 ≡ select on_right xs
  block_right = cc (
    ap (select on_right) (run_of-append is_del xs),
    ap (select on_right) (run_of-append is_add removed.1),
    select-append on_right removed.0 removed.1,
    select-append on_right inserted.0 inserted.1,
    select-run_of_drop is_del on_right del_right xs,
    select-run_of_keep is_add on_right add_right removed.1,
  )

  block_length : length removed.0 + (length inserted.0 + length inserted.1) ≡ length xs
  block_length = omega (
    arith,
    ap length (run_of-append is_del xs),
    ap length (run_of-append is_add removed.1),
    length-append removed.0 removed.1,
    length-append inserted.0 inserted.1,
  )

one_of_two : (xs ys : List Line) → (is_empty xs && is_empty ys) ≡ false → 1 ≤ length xs + length ys
one_of_two [] [] h = ground arith
one_of_two [] (y ∷ ys) h = omega arith
one_of_two (x ∷ xs) ys h = omega arith

select_skip :
    (q : Line → Bool) (l : Line) (ls : List Line) → q l ≡ false → select q ls ≡ select q (l ∷ ls)
select_skip q l ls h = ground arith

select_take :
    (q : Line → Bool) (l : Line) (ls : List Line) → q l ≡ true → l ∷ select q ls ≡ select q (l ∷ ls)
select_take q l ls h = ground arith

context_left : (l : Line) → is_context l.kind ≡ true → on_left l ≡ true
context_left l h = ground arith

context_right : (l : Line) → is_context l.kind ≡ true → on_right l ≡ true
context_right l h = ground arith

and_both : (a b : Bool) → (a && b) ≡ true → (a ≡ true) × (b ≡ true)
and_both a b h = ground arith

-- What one block shows on the two sides, and how many lines it leaves.
abbrev BlockFaithful : Utf8 → Line → List Line → Type 0
BlockFaithful u l ls =
    (lefts (block u l ls).0 ++ select on_left (block u l ls).1 ≡ select on_left (l ∷ ls))
    × (rights (block u l ls).0 ++ select on_right (block u l ls).1 ≡ select on_right (l ∷ ls))
    × (length (block u l ls).1 ≤ length ls)

block_faithful :
    (u : Utf8) (l : Line) (ls : List Line) → is_context l.kind ≡ false → BlockFaithful u l ls
unfolding block
block_faithful u l ls h =
    let ds = removed (l ∷ ls) in
    let as' = inserted (l ∷ ls) in
    elim (Bool-cases (is_empty ds.0 && is_empty as'.0)) [
      | inl e ↦
          let both = and_both (is_empty ds.0) (is_empty as'.0) e in
          let not_del = run_of_empty is_del l ls both.0 in
          let empty : is_empty (run_of is_add (l ∷ ls)).0 ≡ true =
            rw (run_of_none is_del l ls not_del) at both.1 in
          let not_add = run_of_empty is_add l ls empty in
          rw e (
            select_skip on_left l ls (neither_left l h not_del),
            select_skip on_right l ls (neither_right l h not_add),
            omega arith,
          )
      | inr e ↦
          rw (e, lefts-pair_rows, rights-pair_rows)
            (
              block_left (l ∷ ls),
              block_right (l ∷ ls),
              omega (arith, block_length (l ∷ ls), one_of_two ds.0 as'.0 e),
            )
    ]

-- What the loop shows on the two sides.
abbrev Faithful : List Row → List Line → Type 0
Faithful rs ls = (lefts rs ≡ select on_left ls) × (rights rs ≡ select on_right ls)

split_from-Faithful :
    (u : Utf8) (fuel : ℕ) (ls : List Line) → length ls ≤ fuel → Faithful (split_from u fuel ls) ls
unfolding split_from
split_from-Faithful u zero [] h = (refl, refl)
split_from-Faithful u zero (l ∷ ls) h = absurd (omega arith)
split_from-Faithful u (suc fuel) [] h = (refl, refl)
split_from-Faithful u (suc fuel) (l ∷ ls) h = elim (Bool-cases (is_context l.kind)) [
  | inl e ↦
      let ih = split_from-Faithful u fuel ls (omega arith) in
      rw e (
        ap (λ x. l ∷ x) ih.0 ∙ select_take on_left l ls (context_left l e),
        ap (λ x. l ∷ x) ih.1 ∙ select_take on_right l ls (context_right l e),
      )
  | inr e ↦
      let (bl, br, shorter) = block_faithful u l ls e in
      let b = block u l ls in
      let ih = split_from-Faithful u fuel b.1 (omega arith) in
      rw e (
        cc (lefts-append b.0 (split_from u fuel b.1), ih.0, bl),
        cc (rights-append b.0 (split_from u fuel b.1), ih.1, br),
      )
]

-- The side-by-side view tells the story of the unified one: its left column is the context and
-- deleted lines of the hunk in their order, its right column the context and added lines, and
-- nothing is lost, repeated or moved. The loop ends for every hunk, whatever kinds its lines have.
pub split_columns :
    (u : Utf8) (h : Hunk)
    → (lefts (split u h) ≡ select on_left h.lines) × (rights (split u h) ≡ select on_right h.lines)
unfolding split
split_columns u h = split_from-Faithful u (length h.lines) h.lines (omega arith)
