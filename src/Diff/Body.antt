-- ===== src/Diff/Body.antt =====
-- The body of a hunk as git writes it, read by `stepHunk` of internal/diff/diff.go.
use sdlc_orchestrator.Common.{
  ℕ, zero, suc, ◌+◌, ◌≡◌, ◌≢◌, refl, sym, ap, ◌∙◌, false, List, [], ◌∷◌, ◌++◌, append_assoc, some,
  Bytes, map, append-nil,
}
use sdlc_orchestrator.Diff.{Kind, context, add, del, Line, Hunk, File, GoText}
use sdlc_orchestrator.Diff.Parser.{
  Parser, owes, inc, st_header, st_hunk, next, step, step_in, step_hunk, settle, fed_pair, add_line,
  add_to,
}
use sdlc_orchestrator.Diff.Parse.{first_pass, feed, run}

-- One line of a hunk: kept, inserted or removed text.
pub data Change : Type 0 where
  keep insert remove : Bytes → Change

-- As git prints it: a prefix byte, and the text whatever it holds.
abbrev pub print : Change → Bytes
print (keep s) = b' ' ∷ s
print (insert s) = b'+' ∷ s
print (remove s) = b'-' ∷ s

-- The numbers of lines on the two sides, which a hunk header declares.
abbrev pub old_count : List Change → ℕ
old_count [] = 0
old_count (keep s ∷ cs) = suc (old_count cs)
old_count (insert s ∷ cs) = old_count cs
old_count (remove s ∷ cs) = suc (old_count cs)

abbrev pub new_count : List Change → ℕ
new_count [] = 0
new_count (keep s ∷ cs) = suc (new_count cs)
new_count (insert s ∷ cs) = suc (new_count cs)
new_count (remove s ∷ cs) = new_count cs

abbrev line : Kind → ℕ → ℕ → Bytes → Line
line k o n s = record { kind = k; old_no = o; new_no = n; text = s; no_newline = false }

-- The lines that the changes stand for, numbered from `o` and `n`.
abbrev pub lines_from : ℕ → ℕ → List Change → List Line
lines_from o n [] = []
lines_from o n (keep s ∷ cs) = line context o n s ∷ lines_from (inc o) (inc n) cs
lines_from o n (insert s ∷ cs) = line add 0 n s ∷ lines_from o (inc n) cs
lines_from o n (remove s ∷ cs) = line del o 0 s ∷ lines_from (inc o) n cs

abbrev pub old_end : ℕ → List Change → ℕ
old_end o [] = o
old_end o (keep s ∷ cs) = old_end (inc o) cs
old_end o (insert s ∷ cs) = old_end o cs
old_end o (remove s ∷ cs) = old_end (inc o) cs

abbrev pub new_end : ℕ → List Change → ℕ
new_end n [] = n
new_end n (keep s ∷ cs) = new_end (inc n) cs
new_end n (insert s ∷ cs) = new_end (inc n) cs
new_end n (remove s ∷ cs) = new_end n cs

abbrev pub with_counts : File → List Change → File
with_counts f [] = f
with_counts f (keep s ∷ cs) = with_counts f cs
with_counts f (insert s ∷ cs) = with_counts (record f { adds = f.adds + 1 }) cs
with_counts f (remove s ∷ cs) = with_counts (record f { dels = f.dels + 1 }) cs

-- A parser inside a hunk that owes `a` and `b` lines.
abbrev pub inside : Parser → File → Hunk → ℕ → ℕ → ℕ → ℕ → Parser
inside p f h o n a b = record p {
  state = st_hunk;
  cur = some f;
  hunk = some h;
  old_no = o;
  new_no = n;
  old_rem = owes a;
  new_rem = owes b;
}

-- The same with the hunk complete.
abbrev pub complete : Parser → File → Hunk → ℕ → ℕ → Parser
complete p f h o n = record p {
  state = st_header;
  cur = some f;
  hunk = some h;
  old_no = o;
  new_no = n;
  old_rem = owes 0;
  new_rem = owes 0;
}

-- What one printed line does: the counts left decide the state.
after_line : Parser → File → Hunk → ℕ → ℕ → ℕ → ℕ → Parser
after_line p f h o n zero zero = complete p f h o n
after_line p f h o n (suc a) b = inside p f h o n (suc a) b
after_line p f h o n zero (suc b) = inside p f h o n zero (suc b)

module _ (go : GoText) (p : Parser) where
  feed_keep :
      (f : File) (h : Hunk) (o n a b : ℕ) (s : Bytes)
      → feed go (print (keep s)) (inside p f h o n (suc a) (suc b))
        ≡ next (
            after_line p f
              (record h { lines = h.lines ++ line context o n s ∷ [] })
              (inc o)
              (inc n)
              a
              b)
  unfolding feed first_pass step step_in fed_pair step_hunk settle add_line add_to after_line
  feed_keep f h o n zero zero s = refl
  feed_keep f h o n zero (suc b) s = refl
  feed_keep f h o n (suc a) b s = refl

  feed_insert :
      (f : File) (h : Hunk) (o n a b : ℕ) (s : Bytes)
      → feed go (print (insert s)) (inside p f h o n a (suc b))
        ≡ next (
            after_line p
              (record f { adds = f.adds + 1 })
              (record h { lines = h.lines ++ line add 0 n s ∷ [] })
              o
              (inc n)
              a
              b)
  unfolding feed first_pass step step_in fed_pair step_hunk settle add_line add_to after_line
  feed_insert f h o n zero zero s = refl
  feed_insert f h o n zero (suc b) s = refl
  feed_insert f h o n (suc a) b s = refl

  feed_remove :
      (f : File) (h : Hunk) (o n a b : ℕ) (s : Bytes)
      → feed go (print (remove s)) (inside p f h o n (suc a) b)
        ≡ next (
            after_line p
              (record f { dels = f.dels + 1 })
              (record h { lines = h.lines ++ line del o 0 s ∷ [] })
              (inc o)
              n
              a
              b)
  unfolding feed first_pass step step_in fed_pair step_hunk settle add_line add_to after_line
  feed_remove f h o n zero zero s = refl
  feed_remove f h o n zero (suc b) s = refl
  feed_remove f h o n (suc a) b s = refl

  after_line_new :
      (f : File) (h : Hunk) (o n a b : ℕ)
      → after_line p f h o n a (suc b) ≡ inside p f h o n a (suc b)
  unfolding after_line
  after_line_new f h o n zero b = refl
  after_line_new f h o n (suc a) b = refl

  after_line_old :
      (f : File) (h : Hunk) (o n a b : ℕ)
      → after_line p f h o n (suc a) b ≡ inside p f h o n (suc a) b
  unfolding after_line
  after_line_old f h o n a b = refl

  run_cons :
      (l : Bytes) (ls : List Bytes) (q r : Parser)
      → feed go l q ≡ next r
      → run go (l ∷ ls) q ≡ run go ls r
  unfolding run
  run_cons l ls q r e = rw (e, run)

  run_body :
      (cs : List Change) (f : File) (h : Hunk) (o n : ℕ)
      → run go (map print cs) (after_line p f h o n (old_count cs) (new_count cs))
        ≡ next (
            complete p
              (with_counts f cs)
              (record h { lines = h.lines ++ lines_from o n cs })
              (old_end o cs)
              (new_end n cs))
  run_body [] f h o n =
      unfold run after_line in
      ap (λ ls. next (complete p f (record h { lines = ls }) o n)) (sym (append-nil h.lines))
  run_body (keep s ∷ cs) f h o n =
      rw
        (
          after_line_old,
          run_cons (print (keep s)) (map print cs) _ _
              (feed_keep f h o n (old_count cs) (new_count cs) s),
        )
        (rw
          (run_body cs f (record h { lines = h.lines ++ line context o n s ∷ [] }) (inc o) (inc n))
          (rw append_assoc))
  run_body (insert s ∷ cs) f h o n =
      rw
        (
          after_line_new,
          run_cons (print (insert s)) (map print cs) _ _
              (feed_insert f h o n (old_count cs) (new_count cs) s),
        )
        (rw
          (run_body cs (record f { adds = f.adds + 1 })
            (record h { lines = h.lines ++ line add 0 n s ∷ [] }) o (inc n))
          (rw append_assoc))
  run_body (remove s ∷ cs) f h o n =
      rw
        (
          after_line_old,
          run_cons (print (remove s)) (map print cs) _ _
              (feed_remove f h o n (old_count cs) (new_count cs) s),
        )
        (rw
          (run_body cs (record f { dels = f.dels + 1 })
            (record h { lines = h.lines ++ line del o 0 s ∷ [] }) (inc o) n)
          (rw append_assoc))

  -- The body of a hunk that owes one line more on each side.
  pub run-inside :
      (ls : List Bytes) (cs : List Change) (f : File) (h : Hunk) (o n : ℕ)
      → run go (map print cs ++ ls) (inside p f h o n (suc (old_count cs)) (suc (new_count cs)))
        ≡ run go ls (
            inside p
              (with_counts f cs)
              (record h { lines = h.lines ++ lines_from o n cs })
              (old_end o cs)
              (new_end n cs)
              1
              1)
  unfolding after_line
  run-inside ls [] f h o n =
      ap (λ xs. run go ls (inside p f (record h { lines = xs }) o n 1 1)) (sym (append-nil h.lines))
  run-inside ls (keep s ∷ cs) f h o n =
      run_cons (print (keep s)) (map print cs ++ ls) _ _ (feed_keep f h o n _ _ s)
      ∙ run-inside ls cs f (record h { lines = h.lines ++ line context o n s ∷ [] }) (inc o) (inc n)
      ∙ rw append_assoc
  run-inside ls (insert s ∷ cs) f h o n =
      run_cons (print (insert s)) (map print cs ++ ls) _ _ (feed_insert f h o n _ _ s)
      ∙ run-inside ls cs (record f { adds = f.adds + 1 })
          (record h { lines = h.lines ++ line add 0 n s ∷ [] }) o (inc n)
      ∙ rw append_assoc
  run-inside ls (remove s ∷ cs) f h o n =
      run_cons (print (remove s)) (map print cs ++ ls) _ _ (feed_remove f h o n _ _ s)
      ∙ run-inside ls cs (record f { dels = f.dels + 1 })
          (record h { lines = h.lines ++ line del o 0 s ∷ [] }) (inc o) n
      ∙ rw append_assoc

-- The printed body of a hunk is read back exactly. In a parser whose open hunk owes what its header
-- declares, the lines of the body, whatever texts they carry, are appended to the hunk in order,
-- numbered from the hunk's position, the file's counters advance by what they hold, no message is
-- recorded, and the parser is back in the header state with nothing owed.
pub run-body :
    (go : GoText) (p : Parser) (cs : List Change) (f : File) (h : Hunk) (o n : ℕ)
    → cs ≢ []
    → run go (map print cs) (inside p f h o n (old_count cs) (new_count cs))
      ≡ next (
          complete p
            (with_counts f cs)
            (record h { lines = h.lines ++ lines_from o n cs })
            (old_end o cs)
            (new_end n cs))
run-body go p [] f h o n ne = absurd (ne refl)
run-body go p (keep s ∷ cs) f h o n ne =
    rw (← after_line_old go p f h o n _ _) (run_body go p (keep s ∷ cs) f h o n)
run-body go p (insert s ∷ cs) f h o n ne =
    rw (← after_line_new go p f h o n _ _) (run_body go p (insert s ∷ cs) f h o n)
run-body go p (remove s ∷ cs) f h o n ne =
    rw (← after_line_old go p f h o n _ _) (run_body go p (remove s ∷ cs) f h o n)
