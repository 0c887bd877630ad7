-- ===== src/Diff/Counts.antt =====
-- What holds of the parser of internal/diff/diff.go between two lines: the counters of a file are
-- those of its hunks, and the lines of every hunk are numbered one after the other.
use sdlc_orchestrator.Common.{
  ℕ, ◌+◌, ◌≡◌, ◌≢◌, refl, true, List, [], ◌∷◌, ◌++◌, Option, none, some, arith, All,
}
use sdlc_orchestrator.Diff.{path, Kind, context, add, del, other, Line, Hunk, File, unset}
use sdlc_orchestrator.Diff.Parser.{Parser, inc, mark_last}

-- The line numbers of a line that stands at `o` on the old side and at `n` on the new one.
abbrev pub KindAt : Kind → ℕ → ℕ → Line → Type 0
KindAt context o n l = (l.old_no ≡ o) × (l.new_no ≡ n)
KindAt add o n l = (l.old_no ≡ 0) × (l.new_no ≡ n)
KindAt del o n l = (l.old_no ≡ o) × (l.new_no ≡ 0)
KindAt (other k) o n l = ⊥

abbrev pub next_old : Kind → ℕ → ℕ
next_old context o = inc o
next_old add o = o
next_old del o = inc o
next_old (other k) o = o

abbrev pub next_new : Kind → ℕ → ℕ
next_new context n = inc n
next_new add n = inc n
next_new del n = n
next_new (other k) n = n

-- The lines are numbered in order from `o` and `n`, and end before `o'` and `n'`.
abbrev pub NumberedTo : ℕ → ℕ → List Line → ℕ → ℕ → Type 0
NumberedTo o n [] o' n' = (o ≡ o') × (n ≡ n')
NumberedTo o n (l ∷ ls) o' n' =
    KindAt l.kind o n l × NumberedTo (next_old l.kind o) (next_new l.kind n) ls o' n'

abbrev pub Numbered : ℕ → ℕ → List Line → Type 0
Numbered o n [] = Unit
Numbered o n (l ∷ ls) = KindAt l.kind o n l × Numbered (next_old l.kind o) (next_new l.kind n) ls

abbrev pub one_if_add : Kind → ℕ
one_if_add add = 1
one_if_add _ = 0

abbrev pub one_if_del : Kind → ℕ
one_if_del del = 1
one_if_del _ = 0

-- How many of the lines are additions, and deletions.
abbrev pub adds_in : List Line → ℕ
adds_in [] = 0
adds_in (l ∷ ls) = one_if_add l.kind + adds_in ls

abbrev pub dels_in : List Line → ℕ
dels_in [] = 0
dels_in (l ∷ ls) = one_if_del l.kind + dels_in ls

abbrev pub hunk_adds : List Hunk → ℕ
hunk_adds [] = 0
hunk_adds (h ∷ hs) = adds_in h.lines + hunk_adds hs

abbrev pub hunk_dels : List Hunk → ℕ
hunk_dels [] = 0
hunk_dels (h ∷ hs) = dels_in h.lines + hunk_dels hs

abbrev pub HunkNumbered : Hunk → Type 0
HunkNumbered h = Numbered h.old_start h.new_start h.lines

-- A file whose counters and line numbers are right.
abbrev pub FileCounted : File → Type 0
FileCounted f =
    (f.adds ≡ hunk_adds f.hunks) × (f.dels ≡ hunk_dels f.hunks) × All HunkNumbered f.hunks

-- The same with a hunk still open; there is no open hunk without a file.
abbrev pub OpenCounted : Option File → Option Hunk → ℕ → ℕ → Type 0
OpenCounted none none o n = Unit
OpenCounted none (some h) o n = ⊥
OpenCounted (some f) none o n = FileCounted f
OpenCounted (some f) (some h) o n =
    (f.adds ≡ hunk_adds f.hunks + adds_in h.lines)
    × (f.dels ≡ hunk_dels f.hunks + dels_in h.lines)
    × All HunkNumbered f.hunks
    × NumberedTo h.old_start h.new_start h.lines o n

-- A finished file has a name to show and a status.
abbrev pub FileNamed : File → Type 0
FileNamed f = (path f ≢ []) × (f.status ≢ unset)

abbrev pub FileDone : File → Type 0
FileDone f = FileCounted f × FileNamed f

abbrev pub IsCounted : Parser → Type 0
IsCounted p = All FileDone p.files × OpenCounted p.cur p.hunk p.old_no p.new_no

-- Counting and numbering under the changes that the parser makes to a list of lines.
pub adds_in-snoc :
    (ls : List Line) (l : Line) → adds_in (ls ++ l ∷ []) ≡ adds_in ls + one_if_add l.kind
adds_in-snoc [] l = omega arith
adds_in-snoc (m ∷ ls) l = omega (arith, adds_in-snoc ls l)

pub dels_in-snoc :
    (ls : List Line) (l : Line) → dels_in (ls ++ l ∷ []) ≡ dels_in ls + one_if_del l.kind
dels_in-snoc [] l = omega arith
dels_in-snoc (m ∷ ls) l = omega (arith, dels_in-snoc ls l)

pub hunk_adds-snoc :
    (hs : List Hunk) (h : Hunk) → hunk_adds (hs ++ h ∷ []) ≡ hunk_adds hs + adds_in h.lines
hunk_adds-snoc [] h = omega arith
hunk_adds-snoc (g ∷ hs) h = omega (arith, hunk_adds-snoc hs h)

pub hunk_dels-snoc :
    (hs : List Hunk) (h : Hunk) → hunk_dels (hs ++ h ∷ []) ≡ hunk_dels hs + dels_in h.lines
hunk_dels-snoc [] h = omega arith
hunk_dels-snoc (g ∷ hs) h = omega (arith, hunk_dels-snoc hs h)

pub NumberedTo-snoc :
    (ls : List Line) (l : Line) (o n o' n' : ℕ)
    → NumberedTo o n ls o' n'
    → KindAt l.kind o' n' l
    → NumberedTo o n (ls ++ l ∷ []) (next_old l.kind o') (next_new l.kind n')
NumberedTo-snoc [] l o n o' n' h k = rw (h.0, h.1) (k, (refl, refl))
NumberedTo-snoc (m ∷ ls) l o n o' n' h k = (h.0, NumberedTo-snoc ls l _ _ o' n' h.1 k)

pub NumberedTo→Numbered :
    (ls : List Line) (o n o' n' : ℕ) → NumberedTo o n ls o' n' → Numbered o n ls
NumberedTo→Numbered [] o n o' n' h = tt
NumberedTo→Numbered (l ∷ ls) o n o' n' h = (h.0, NumberedTo→Numbered ls _ _ o' n' h.1)

pub adds_in-mark_last : (ls : List Line) → adds_in (mark_last ls) ≡ adds_in ls
unfolding mark_last
adds_in-mark_last [] = refl
adds_in-mark_last (l ∷ []) = refl
adds_in-mark_last (l ∷ m ∷ ls) = omega (arith, adds_in-mark_last (m ∷ ls))

pub dels_in-mark_last : (ls : List Line) → dels_in (mark_last ls) ≡ dels_in ls
unfolding mark_last
dels_in-mark_last [] = refl
dels_in-mark_last (l ∷ []) = refl
dels_in-mark_last (l ∷ m ∷ ls) = omega (arith, dels_in-mark_last (m ∷ ls))

KindAt-mark :
    (k : Kind) (o n : ℕ) (l : Line) → KindAt k o n l → KindAt k o n (record l { no_newline = true })
KindAt-mark context o n l h = h
KindAt-mark add o n l h = h
KindAt-mark del o n l h = h
KindAt-mark (other k) o n l h = h

pub NumberedTo-mark_last :
    (ls : List Line) (o n o' n' : ℕ) → NumberedTo o n ls o' n' → NumberedTo o n (mark_last ls) o' n'
unfolding mark_last
NumberedTo-mark_last [] o n o' n' h = h
NumberedTo-mark_last (l ∷ []) o n o' n' h = (KindAt-mark l.kind o n l h.0, h.1)
NumberedTo-mark_last (l ∷ m ∷ ls) o n o' n' h = (h.0, NumberedTo-mark_last (m ∷ ls) _ _ o' n' h.1)
