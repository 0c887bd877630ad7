-- ===== src/Diff/Counted/Steps.antt =====
-- The steps of the parser of internal/diff/diff.go keep its counters and line numbers right.
use sdlc_orchestrator.Common.{
  ℕ, ◌≡◌, ◌≢◌, refl, ◌∙◌, inl, inr, Bool, true, false, not, ◌||◌, ◌&&◌, [], ◌∷◌, Option, none, some,
  arith, Bytes, codes, All, All-snoc, Bool-cases, Option-cases, is_some, is_empty, if◌then◌else◌,
  same, ◌==◌,
}
use sdlc_orchestrator.Diff.{Status, unset, path, path_or, context, add, del, Hunk, File, GoText}
use sdlc_orchestrator.Diff.Flags
use sdlc_orchestrator.Diff.Paths.{dev_null, header_path}
use sdlc_orchestrator.Diff.Headers
use sdlc_orchestrator.Diff.Headers.{Header, Match, hunk_match, atoi, classify}
use sdlc_orchestrator.Diff.Parser
use sdlc_orchestrator.Diff.Parser.{
  Parser, ParseState, st_header, st_hunk, st_binary_payload, on_file, start_file, ensure_file, flag,
  add_line, mark_no_newline, close_hunk, finish_file, fill_path, fill_status, fill_file, name_file,
  push_file, close_file_of, close_file, num, enter_hunk, matched_hunk, open_matched, open_hunk,
  settle, step_hunk, old_header_file, set_old_path, set_new_path, set_index_mode, header_fields,
  header_case, step_header, Outcome, combined_diff, next, Step, failed, fed, step_in, step,
  positive, new_parser, three_fields,
}
use sdlc_orchestrator.Diff.Counts.{FileNamed, FileDone, OpenCounted, IsCounted}
use sdlc_orchestrator.Diff.Counted.{
  Keeps, Keeps-FileCounted, on_file-OpenCounted, flag-Keeps, start_file-IsCounted,
  ensure_file-IsCounted, flag-IsCounted, add_line-IsCounted, mark_no_newline-IsCounted, OpenReady,
  IsReady, flag-IsReady, close_hunk-IsReady,
}

seal-Keeps : (f : File) → Keeps f (Flags.seal_malformed f)
unfolding Flags.seal_malformed
seal-Keeps f = ground arith

name_file-Keeps : (f : File) → Keeps f (name_file f)
unfolding name_file
name_file-Keeps f = ground (
  arith,
  flag-Keeps (codes "the file header names no path") (record f { new_path = Parser.unknown_path }),
)

finish_file-Keeps : (p : Parser) (f : File) → Keeps f (finish_file p f)
unfolding finish_file fill_file
finish_file-Keeps p f =
    let (sa, sd, sh) = seal-Keeps f in
    let (na, nd, nh) = name_file-Keeps (fill_file p (Flags.seal_malformed f)) in
    (na ∙ sa, nd ∙ sd, nh ∙ sh)

fill_status-ne : (s : Status) (b : Bool) (f : File) → fill_status s b f ≢ unset
unfolding fill_status
fill_status-ne unset b f = ground arith
fill_status-ne s b f = λ e. cc

-- `flag` leaves the paths and the status alone.
flag_paths :
    (msg : Bytes) (f : File)
    → ((Flags.flag msg f).new_path ≡ f.new_path) × ((Flags.flag msg f).status ≡ f.status)
unfolding Flags.flag
flag_paths msg f = ground arith

path_or_ne : (n o : Bytes) → (is_empty o && is_empty n) ≡ false → path_or n o ≢ []
unfolding path_or
path_or_ne [] [] h = λ e. cc
path_or_ne [] (c ∷ o) h = λ e. cc
path_or_ne (c ∷ n) o h = λ e. cc

name_file-FileNamed : (f : File) → f.status ≢ unset → FileNamed (name_file f)
unfolding name_file path
name_file-FileNamed f h = elim (Bool-cases (is_empty f.old_path && is_empty f.new_path)) [
  | inl e ↦
      let msg = codes "the file header names no path" in
      let g = record f { new_path = Parser.unknown_path } in
      rw (e, (flag_paths msg g).0, (flag_paths msg g).1) (unfold path_or in (λ p. cc), h)
  | inr e ↦ rw e (path_or_ne f.new_path f.old_path e, h)
]

finish_file-FileNamed : (p : Parser) (f : File) → FileNamed (finish_file p f)
unfolding finish_file fill_file
finish_file-FileNamed p f =
    let g = Flags.seal_malformed f in
    name_file-FileNamed (fill_file p g) (fill_status-ne g.status p.saw_mode_line g)

push_file-IsCounted :
    (c : Option File) (p : Parser)
    → All FileDone p.files
    → OpenReady c p.hunk
    → IsCounted (push_file c p)
unfolding push_file
push_file-IsCounted none p a i = absurd i
push_file-IsCounted (some f) p a i = elim (Option-cases p.hunk) [
  | inl e ↦ (
    All-snoc FileDone p.files (finish_file p f) a (
      Keeps-FileCounted f (finish_file p f) (finish_file-Keeps p f) (rw e at i),
      finish_file-FileNamed p f,
    ),
    tt,
  )
  | inr (h, e) ↦ absurd (rw e at i)
]

close_file_of-IsCounted :
    (c : Option File) (p : Parser) → p.cur ≡ c → IsCounted p → IsCounted (close_file_of c p)
unfolding close_file_of
close_file_of-IsCounted none p e i = i
close_file_of-IsCounted (some f) p e i =
    let q = close_hunk p in
    let r = close_hunk-IsReady p (rw e) i in push_file-IsCounted q.cur q r.0 r.1

pub close_file-IsCounted : (p : Parser) → IsCounted p → IsCounted (close_file p)
unfolding close_file
close_file-IsCounted p i = close_file_of-IsCounted p.cur p refl i

num-IsReady :
    (go : GoText) (field raw : Bytes) (dflt : ℕ) (p : Parser)
    → IsReady p
    → IsReady (num go field raw dflt p).1
unfolding num
num-IsReady go field raw dflt p i = elim (Bool-cases (is_empty raw)) [
  | inl e ↦ rw e i
  | inr e ↦ elim (Option-cases (atoi raw)) [
    | inl n ↦ rw (e, n) (flag-IsReady _ p i)
    | inr (n, a) ↦ rw (e, a) i
  ]
]

enter_hunk-OpenCounted :
    (c : Option File) (b : Option Hunk) (h : Hunk)
    → h.lines ≡ []
    → OpenReady c b
    → OpenCounted c (some h) h.old_start h.new_start
enter_hunk-OpenCounted none b h e i = i
enter_hunk-OpenCounted (some f) none h e i = simp e (ground arith, ground arith, i.2, (refl, refl))
enter_hunk-OpenCounted (some f) (some g) h e i = absurd i

enter_hunk-IsCounted :
    (h : Hunk) (p : Parser) → h.lines ≡ [] → IsReady p → IsCounted (enter_hunk h p)
unfolding enter_hunk
enter_hunk-IsCounted h p e i = (i.0, enter_hunk-OpenCounted p.cur p.hunk h e i.1)

matched_hunk-IsCounted :
    (go : GoText) (m : Match) (p : Parser) → IsReady p → IsCounted (matched_hunk go m p)
unfolding matched_hunk
matched_hunk-IsCounted go m p i =
    let p1 = (num go (codes "old start") m.old_start 0 p).1 in
    let p2 = (num go (codes "old count") m.old_count 1 p1).1 in
    let p3 = (num go (codes "new start") m.new_start 0 p2).1 in
    let p4 = (num go (codes "new count") m.new_count 1 p3).1 in
    let r1 = num-IsReady go (codes "old start") m.old_start 0 p i in
    let r2 = num-IsReady go (codes "old count") m.old_count 1 p1 r1 in
    let r3 = num-IsReady go (codes "new start") m.new_start 0 p2 r2 in
    let r4 = num-IsReady go (codes "new count") m.new_count 1 p3 r3 in
    enter_hunk-IsCounted _ p4 refl r4

ensure_file-is_some : (p : Parser) → is_some (ensure_file p).cur ≡ true
unfolding ensure_file start_file
ensure_file-is_some p = elim (Bool-cases (is_some p.cur)) [ inl e ↦ rw e e | inr e ↦ rw e ]

open_matched-IsCounted :
    (go : GoText) (m : Option Match) (line : Bytes) (p : Parser)
    → IsCounted p
    → IsCounted (open_matched go m line p)
unfolding open_matched
open_matched-IsCounted go none line p i = flag-IsCounted _ _ (ensure_file-IsCounted p i)
open_matched-IsCounted go (some m) line p i =
    matched_hunk-IsCounted go m (close_hunk (ensure_file p))
      (close_hunk-IsReady (ensure_file p) (ensure_file-is_some p) (ensure_file-IsCounted p i))

open_hunk-IsCounted :
    (go : GoText) (line : Bytes) (p : Parser) → IsCounted p → IsCounted (open_hunk go line p)
unfolding open_hunk
open_hunk-IsCounted go line p i = open_matched-IsCounted go (hunk_match line) line p i

settle-IsCounted : (p : Parser) → IsCounted p → IsCounted (settle p)
unfolding settle
settle-IsCounted p i = elim (Bool-cases (positive p.old_rem || positive p.new_rem)) [
  | inl e ↦ rw e i
  | inr e ↦ rw e i
]

if-IsCounted :
    (b : Bool) (p q : Parser × Bool)
    → IsCounted p.0
    → IsCounted q.0
    → IsCounted (if b then p else q).0
if-IsCounted true p q i j = i
if-IsCounted false p q i j = j

pub step_hunk-IsCounted : (line : Bytes) (p : Parser) → IsCounted p → IsCounted (step_hunk line p).0
unfolding step_hunk
step_hunk-IsCounted [] p i = add_line-IsCounted context [] p (λ j e. cc) i
step_hunk-IsCounted (c ∷ text) p i =
    if-IsCounted (c == b' ') _ _
      (settle-IsCounted _ (add_line-IsCounted context text p (λ j e. cc) i))
      (if-IsCounted (c == b'+') _ _
        (settle-IsCounted _ (add_line-IsCounted add text p (λ j e. cc) i))
        (if-IsCounted (c == b'-') _ _
          (settle-IsCounted _ (add_line-IsCounted del text p (λ j e. cc) i))
          (if-IsCounted (c == 92) _ _ (settle-IsCounted _ (mark_no_newline-IsCounted p i))
            (flag-IsCounted _ p i))))

old_header_file-IsCounted : (p : Parser) → IsCounted p → IsCounted (old_header_file p)
unfolding old_header_file
old_header_file-IsCounted p i =
    elim (Bool-cases (not (is_some p.cur) || (p.saw_old_header || is_some p.hunk))) [
      | inl e ↦ rw e (start_file-IsCounted (close_file p) (close_file-IsCounted p i))
      | inr e ↦ rw e i
    ]

-- A change of the current file that keeps its counters, beside changes that nothing here reads.
on_cur-IsCounted :
    (φ : File → File) (p : Parser)
    → ((f : File) → Keeps f (φ f))
    → IsCounted p
    → IsCounted (record p { cur = on_file φ p.cur })
on_cur-IsCounted φ p k i = (i.0, on_file-OpenCounted φ k p.cur p.hunk p.old_no p.new_no i.1)

set_old_path-IsCounted : (path : Bytes) (p : Parser) → IsCounted p → IsCounted (set_old_path path p)
unfolding set_old_path
set_old_path-IsCounted path p i = elim (Bool-cases (same path dev_null)) [
  | inl e ↦ rw e i
  | inr e ↦ rw e (on_cur-IsCounted _ p (λ f. (refl, refl, refl)) i)
]

set_new_path-IsCounted : (path : Bytes) (p : Parser) → IsCounted p → IsCounted (set_new_path path p)
unfolding set_new_path
set_new_path-IsCounted path p i = elim (Bool-cases (same path dev_null)) [
  | inl e ↦ rw e i
  | inr e ↦ rw e (on_cur-IsCounted _ p (λ f. (refl, refl, refl)) i)
]

set_index_mode-Keeps : (m : Option Bytes) (f : File) → Keeps f (set_index_mode m f)
unfolding set_index_mode
set_index_mode-Keeps none f = (refl, refl, refl)
set_index_mode-Keeps (some mode) f = ground arith

module _ (go : GoText) (line : Bytes) where
  header_fields-IsCounted :
      (h : Header) (p : Parser) → IsCounted p → IsCounted (header_fields go line h p)
  unfolding header_fields
  header_fields-IsCounted (Headers.new_header s) p i =
      set_new_path-IsCounted (header_path go s) (ensure_file p) (ensure_file-IsCounted p i)
  header_fields-IsCounted (Headers.new_file_mode s) p i =
      on_cur-IsCounted _ p (λ f. (refl, refl, refl)) i
  header_fields-IsCounted (Headers.deleted_file_mode s) p i =
      on_cur-IsCounted _ p (λ f. (refl, refl, refl)) i
  header_fields-IsCounted (Headers.old_mode s) p i =
      on_cur-IsCounted _ p (λ f. (refl, refl, refl)) i
  header_fields-IsCounted (Headers.new_mode s) p i =
      on_cur-IsCounted _ p (λ f. (refl, refl, refl)) i
  header_fields-IsCounted (Headers.rename_from s) p i =
      on_cur-IsCounted _ p (λ f. (refl, refl, refl)) i
  header_fields-IsCounted (Headers.rename_to s) p i =
      on_cur-IsCounted _ p (λ f. (refl, refl, refl)) i
  header_fields-IsCounted (Headers.copy_from s) p i =
      on_cur-IsCounted _ p (λ f. (refl, refl, refl)) i
  header_fields-IsCounted (Headers.copy_to s) p i = on_cur-IsCounted _ p (λ f. (refl, refl, refl)) i
  header_fields-IsCounted Headers.index p i =
      on_cur-IsCounted _ p (set_index_mode-Keeps (three_fields (go.fields line))) i
  header_fields-IsCounted Headers.binary_files p i =
      on_cur-IsCounted _ p (λ f. (refl, refl, refl)) i
  header_fields-IsCounted Headers.git_binary p i = on_cur-IsCounted _ p (λ f. (refl, refl, refl)) i
  header_fields-IsCounted _ p i = i

  -- The parser behind an outcome.
  abbrev pub OutcomeCounted : Outcome → Type 0
  OutcomeCounted combined_diff = Unit
  OutcomeCounted (next p) = IsCounted p

  pub header_case-IsCounted :
      (h : Header) (p : Parser) → IsCounted p → OutcomeCounted (header_case go line h p)
  unfolding header_case
  header_case-IsCounted Headers.combined p i = tt
  header_case-IsCounted (Headers.diff_git rest) p i =
      start_file-IsCounted (close_file p) (close_file-IsCounted p i)
  header_case-IsCounted Headers.at_sign p i = open_hunk-IsCounted go line p i
  header_case-IsCounted Headers.marker p i = mark_no_newline-IsCounted p i
  header_case-IsCounted (Headers.old_header s) p i =
      set_old_path-IsCounted (header_path go s) (old_header_file p) (old_header_file-IsCounted p i)
  header_case-IsCounted Headers.over_body p i =
      step_hunk-IsCounted line _
        (flag-IsCounted (codes "hunk body is longer than its header declares") p i)
  header_case-IsCounted h p i = header_fields-IsCounted h p i
