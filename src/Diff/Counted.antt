-- ===== src/Diff/Counted.antt =====
-- Every operation of the parser of internal/diff/diff.go on the open hunk and the current file keeps
-- its counters and line numbers right. The children do the same for the steps
-- of the machine and for a whole patch.
pub mod Steps
pub mod Patch
use sdlc_orchestrator.Common.{
  ℕ, zero, suc, ◌+◌, ◌≡◌, refl, sym, ◌∙◌, ◌⊎◌, inl, inr, Bool, true, false, ◌||◌, List, [], ◌∷◌,
  ◌++◌, Option, none, some, arith, Bytes, codes, All, All-snoc, Bool-cases, Option-cases, is_some,
  is_empty, if◌then◌else◌,
}
use sdlc_orchestrator.Diff.{Kind, context, add, del, other, Line, Hunk, File, GoText}
use sdlc_orchestrator.Diff.Flags
use sdlc_orchestrator.Diff.Headers
use sdlc_orchestrator.Diff.Headers.{Header, Match}
use sdlc_orchestrator.Diff.Parser
use sdlc_orchestrator.Diff.Parser.{
  Parser, on_file, counted, numbered, start_file, ensure_file, flag, add_line, add_to,
  mark_no_newline, close_hunk, finish_file, close_file, mark_hunk, append_hunk, close_open,
  short_message, positive, open_hunk, step_hunk,
}
use sdlc_orchestrator.Diff.Counts.{
  KindAt, one_if_add, one_if_del, next_old, next_new, NumberedTo, NumberedTo-snoc,
  NumberedTo→Numbered, NumberedTo-mark_last, adds_in, dels_in, adds_in-snoc, dels_in-snoc,
  adds_in-mark_last, dels_in-mark_last, hunk_adds, hunk_dels, hunk_adds-snoc, hunk_dels-snoc,
  HunkNumbered, FileCounted, FileDone, OpenCounted, IsCounted,
}

-- A change of a file that leaves its counters and hunks alone.
abbrev pub Keeps : File → File → Type 0
Keeps f g = (g.adds ≡ f.adds) × (g.dels ≡ f.dels) × (g.hunks ≡ f.hunks)

pub Keeps-FileCounted : (f g : File) → Keeps f g → FileCounted f → FileCounted g
Keeps-FileCounted f g k h = rw (k.0, k.1, k.2) h

pub on_file-OpenCounted :
    (φ : File → File)
    → ((f : File) → Keeps f (φ f))
    → (c : Option File) (h : Option Hunk) (o n : ℕ) → OpenCounted c h o n
    → OpenCounted (on_file φ c) h o n
on_file-OpenCounted φ k none none o n i = i
on_file-OpenCounted φ k none (some h) o n i = i
on_file-OpenCounted φ k (some f) none o n i = Keeps-FileCounted f (φ f) (k f) i
on_file-OpenCounted φ k (some f) (some h) o n i = rw ((k f).0, (k f).1, (k f).2) i

pub flag-Keeps : (msg : Bytes) (f : File) → Keeps f (Flags.flag msg f)
unfolding Flags.flag
flag-Keeps msg f = ground arith

pub start_file-IsCounted : (p : Parser) → IsCounted p → IsCounted (start_file p)
unfolding start_file
start_file-IsCounted p i = (i.0, (refl, refl, tt))

pub ensure_file-IsCounted : (p : Parser) → IsCounted p → IsCounted (ensure_file p)
unfolding ensure_file
ensure_file-IsCounted p i = elim (Bool-cases (is_some p.cur)) [
  | inl e ↦ rw e i
  | inr e ↦ rw e (start_file-IsCounted p i)
]

pub flag-IsCounted : (msg : Bytes) (p : Parser) → IsCounted p → IsCounted (flag msg p)
unfolding flag
flag-IsCounted msg p i =
    let q = ensure_file p in
    let j = ensure_file-IsCounted p i in
    (j.0, on_file-OpenCounted (Flags.flag msg) (flag-Keeps msg) q.cur q.hunk q.old_no q.new_no j.1)

-- A line of one of the three kinds is counted and numbered.
snoc-OpenCounted :
    (φ : File → File) (c c' : Option File) (h : Hunk) (l : Line) (o n : ℕ)
    → c' ≡ on_file φ c
    → ((f : File)
        → ((φ f).adds ≡ f.adds + one_if_add l.kind)
          × ((φ f).dels ≡ f.dels + one_if_del l.kind)
          × ((φ f).hunks ≡ f.hunks))
    → KindAt l.kind o n l
    → OpenCounted c (some h) o n
    → OpenCounted c'
        (some (record h { lines = h.lines ++ l ∷ [] }))
        (next_old l.kind o)
        (next_new l.kind n)
snoc-OpenCounted φ none c' h l o n e k a i = absurd i
snoc-OpenCounted φ (some f) c' h l o n e k a i =
    let (ka, kd, kh) = k f in
    let (ia, id, ih, il) = i in
    rw (e, ka, kd, kh, adds_in-snoc h.lines l, dels_in-snoc h.lines l)
      (omega arith, omega arith, ih, NumberedTo-snoc h.lines l _ _ o n il a)

on_file_id : (c : Option File) → c ≡ on_file (λ f. f) c
on_file_id none = refl
on_file_id (some f) = refl

add_to-IsCounted :
    (k : Kind) (text : Bytes) (p : Parser) (h : Hunk)
    → ((j : ℕ) → ¬ (k ≡ other j))
    → All FileDone p.files
    → OpenCounted p.cur (some h) p.old_no p.new_no
    → IsCounted (add_to (some h) k text p)
unfolding add_to
add_to-IsCounted context text p h three a i = (
  a,
  snoc-OpenCounted (λ f. f) p.cur p.cur h (numbered context text p) p.old_no p.new_no
      (on_file_id p.cur) (λ f. (omega arith, omega arith, refl)) (refl, refl) i,
)
add_to-IsCounted add text p h three a i = (
  a,
  snoc-OpenCounted (λ f. record f { adds = f.adds + 1 }) p.cur _ h (numbered add text p) p.old_no
      p.new_no refl (λ f. (refl, omega arith, refl)) (refl, refl) i,
)
add_to-IsCounted del text p h three a i = (
  a,
  snoc-OpenCounted (λ f. record f { dels = f.dels + 1 }) p.cur _ h (numbered del text p) p.old_no
      p.new_no refl (λ f. (omega arith, refl, refl)) (refl, refl) i,
)
add_to-IsCounted (other j) text p h three a i = absurd (three j refl)

add_to_any-IsCounted :
    (k : Kind) (text : Bytes) (p : Parser) (h : Option Hunk)
    → ((j : ℕ) → ¬ (k ≡ other j))
    → IsCounted p
    → OpenCounted p.cur h p.old_no p.new_no
    → IsCounted (add_to h k text p)
add_to_any-IsCounted k text p none three i j = unfold add_to in i
add_to_any-IsCounted k text p (some h) three i j = add_to-IsCounted k text p h three i.0 j

pub add_line-IsCounted :
    (k : Kind) (text : Bytes) (p : Parser)
    → ((j : ℕ) → ¬ (k ≡ other j))
    → IsCounted p
    → IsCounted (add_line k text p)
unfolding add_line
add_line-IsCounted k text p three i = add_to_any-IsCounted k text p p.hunk three i i.1

mark_hunk-OpenCounted :
    (c : Option File) (h : Option Hunk) (o n : ℕ)
    → OpenCounted c h o n
    → OpenCounted c (mark_hunk h) o n
unfolding mark_hunk
mark_hunk-OpenCounted none none o n i = i
mark_hunk-OpenCounted none (some h) o n i = i
mark_hunk-OpenCounted (some f) none o n i = i
mark_hunk-OpenCounted (some f) (some h) o n i =
    rw (adds_in-mark_last h.lines, dels_in-mark_last h.lines)
      (i.0, i.1, i.2, NumberedTo-mark_last h.lines _ _ o n i.3)

pub mark_no_newline-IsCounted : (p : Parser) → IsCounted p → IsCounted (mark_no_newline p)
unfolding mark_no_newline
mark_no_newline-IsCounted p i = (i.0, mark_hunk-OpenCounted p.cur p.hunk p.old_no p.new_no i.1)

-- A file with no open hunk.
abbrev pub OpenReady : Option File → Option Hunk → Type 0
OpenReady none h = ⊥
OpenReady (some f) none = FileCounted f
OpenReady (some f) (some h) = ⊥

abbrev pub IsReady : Parser → Type 0
IsReady p = All FileDone p.files × OpenReady p.cur p.hunk

is_some-IsReady :
    (c : Option File) (h : Option Hunk) (o n : ℕ)
    → is_some c ≡ true
    → h ≡ none
    → OpenCounted c h o n
    → OpenReady c h
is_some-IsReady none h o n s e i = cc
is_some-IsReady (some f) none o n s e i = i
is_some-IsReady (some f) (some h) o n s e i = cc

on_file-OpenReady :
    (φ : File → File)
    → ((f : File) → Keeps f (φ f))
    → (c : Option File) (h : Option Hunk) → OpenReady c h
    → OpenReady (on_file φ c) h
on_file-OpenReady φ k none h i = i
on_file-OpenReady φ k (some f) none i = Keeps-FileCounted f (φ f) (k f) i
on_file-OpenReady φ k (some f) (some h) i = i

OpenReady-is_some : (c : Option File) (h : Option Hunk) → OpenReady c h → is_some c ≡ true
OpenReady-is_some none h i = absurd i
OpenReady-is_some (some f) h i = refl

OpenCounted-is_some :
    (c : Option File) (h : Hunk) (o n : ℕ) → OpenCounted c (some h) o n → is_some c ≡ true
OpenCounted-is_some none h o n i = absurd i
OpenCounted-is_some (some f) h o n i = refl

pub flag-IsReady : (msg : Bytes) (p : Parser) → IsReady p → IsReady (flag msg p)
unfolding flag
flag-IsReady msg p i =
    simp (OpenReady-is_some p.cur p.hunk i.1)
      (i.0, on_file-OpenReady (Flags.flag msg) (flag-Keeps msg) p.cur p.hunk i.1)

append-OpenReady :
    (c : Option File) (h : Hunk) (o n : ℕ)
    → OpenCounted c (some h) o n
    → OpenReady (on_file (λ f. record f { hunks = f.hunks ++ h ∷ [] }) c) none
append-OpenReady none h o n i = i
append-OpenReady (some f) h o n i =
    let (ia, id, ih, il) = i in
    (
      ia ∙ sym (hunk_adds-snoc f.hunks h),
      id ∙ sym (hunk_dels-snoc f.hunks h),
      All-snoc HunkNumbered f.hunks h ih (NumberedTo→Numbered h.lines _ _ o n il),
    )

append_hunk-IsReady :
    (h : Hunk) (p : Parser)
    → All FileDone p.files
    → OpenCounted p.cur (some h) p.old_no p.new_no
    → IsReady (append_hunk h p)
unfolding append_hunk
append_hunk-IsReady h p a i = (a, append-OpenReady p.cur h p.old_no p.new_no i)

flag-OpenCounted :
    (msg : Bytes) (p : Parser) (h : Hunk)
    → All FileDone p.files
    → OpenCounted p.cur (some h) p.old_no p.new_no
    → IsReady (append_hunk h (flag msg p))
unfolding flag
flag-OpenCounted msg p h a i = simp (OpenCounted-is_some p.cur h p.old_no p.new_no i) (
    append_hunk-IsReady h (record p { cur = on_file (Flags.flag msg) p.cur }) a
      (on_file-OpenCounted (Flags.flag msg) (flag-Keeps msg) p.cur (some h) p.old_no p.new_no i))

close_open-IsReady :
    (h : Option Hunk) (p : Parser)
    → p.hunk ≡ h
    → is_some p.cur ≡ true
    → IsCounted p
    → OpenCounted p.cur h p.old_no p.new_no
    → IsReady (close_open h p)
unfolding close_open
close_open-IsReady none p e s i j = (i.0, is_some-IsReady p.cur p.hunk p.old_no p.new_no s e i.1)
close_open-IsReady (some h) p e s i j =
    elim (Bool-cases (positive p.old_rem || positive p.new_rem)) [
      | inl t ↦ rw t (flag-OpenCounted (short_message h p.old_rem p.new_rem) p h i.0 j)
      | inr t ↦ rw t (append_hunk-IsReady h p i.0 j)
    ]

pub close_hunk-IsReady : (p : Parser) → is_some p.cur ≡ true → IsCounted p → IsReady (close_hunk p)
unfolding close_hunk
close_hunk-IsReady p s i = close_open-IsReady p.hunk p refl s i i.1
