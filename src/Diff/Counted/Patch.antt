-- ===== src/Diff/Counted/Patch.antt =====
-- The counters and line numbers of the files that `Parse` of internal/diff/diff.go returns.
use sdlc_orchestrator.Common.{
  ◌≡◌, subst, List, [], ◌∷◌, Option, none, some, true, false, Bytes, codes, All, All-map,
  Bool-cases, has_prefix, inl, inr, is_some,
}
use sdlc_orchestrator.Diff.{File, GoText}
use sdlc_orchestrator.Diff.Headers.{classify}
use sdlc_orchestrator.Diff.Parser.{
  Parser, ParseState, st_header, st_hunk, st_binary_payload, Outcome, combined_diff, next, Step,
  failed, fed, consumed, fed_pair, header_case, step_header, step_in, step, new_parser,
}
use sdlc_orchestrator.Diff.Parse.{second_pass, first_pass, feed, run, finish, parse, split_lines}
use sdlc_orchestrator.Diff.Counts.{FileCounted, FileNamed, FileDone, IsCounted}
use sdlc_orchestrator.Diff.Counted.Steps.{
  close_file-IsCounted, step_hunk-IsCounted, OutcomeCounted, header_case-IsCounted,
}

abbrev StepCounted : Step → Type 0
StepCounted failed = Unit
StepCounted (fed p b) = IsCounted p

module _ (go : GoText) (line : Bytes) where
  consumed-StepCounted : (o : Outcome) → OutcomeCounted go line o → StepCounted (consumed o)
  unfolding consumed
  consumed-StepCounted combined_diff i = tt
  consumed-StepCounted (next p) i = i

  step_in-StepCounted :
      (s : ParseState) (p : Parser) → IsCounted p → StepCounted (step_in go s line p)
  unfolding step_in fed_pair step_header
  step_in-StepCounted st_hunk p i = step_hunk-IsCounted line p i
  step_in-StepCounted st_header p i =
      consumed-StepCounted (header_case go line (classify (is_some p.hunk) line) p)
        (header_case-IsCounted go line (classify (is_some p.hunk) line) p i)
  step_in-StepCounted st_binary_payload p i = elim (Bool-cases (has_prefix line (codes "diff "))) [
    | inl e ↦ rw e i
    | inr e ↦ rw e i
  ]

  step-StepCounted : (p : Parser) → IsCounted p → StepCounted (step go line p)
  unfolding step
  step-StepCounted p i = step_in-StepCounted p.state p i

  second_pass-Counted : (s : Step) → StepCounted s → OutcomeCounted go line (second_pass s)
  unfolding second_pass
  second_pass-Counted failed i = tt
  second_pass-Counted (fed p b) i = i

  first_pass-Counted : (s : Step) → StepCounted s → OutcomeCounted go line (first_pass go line s)
  unfolding first_pass
  first_pass-Counted failed i = tt
  first_pass-Counted (fed p true) i = i
  first_pass-Counted (fed p false) i = second_pass-Counted (step go line p) (step-StepCounted p i)

  feed-Counted : (p : Parser) → IsCounted p → OutcomeCounted go line (feed go line p)
  unfolding feed
  feed-Counted p i = first_pass-Counted (step go line p) (step-StepCounted p i)

abbrev AllCounted : Option (List File) → Type 0
AllCounted none = Unit
AllCounted (some fs) = All FileDone fs

run-Counted :
    (go : GoText) (ls : List Bytes) (p : Parser) → IsCounted p → AllCounted (finish (run go ls p))
unfolding run finish
run-Counted go [] p i = (close_file-IsCounted p i).0
run-Counted go (l ∷ ls) p i = go_on (feed go l p) (feed-Counted go l p i) (run-Counted go ls)
  where
    go_on :
        (o : Outcome)
        → OutcomeCounted go l o
        → ((q : Parser) → IsCounted q → AllCounted (finish (run go ls q)))
        → AllCounted (finish (elim o [ combined_diff ↦ combined_diff | next q ↦ run go ls q ]))
    go_on combined_diff i rec = tt
    go_on (next q) i rec = rec q i

parse-FileDone :
    (go : GoText) (patch : Bytes) {fs : List File} → parse go patch ≡ some fs → All FileDone fs
unfolding parse
parse-FileDone go patch h = rw h at (run-Counted go (split_lines patch) new_parser (tt, tt))

-- In every file that `Parse` returns, `Adds` and `Dels` are the numbers of added and deleted lines
-- in its hunks, every line is a context, added or deleted line, and the lines of each hunk are
-- numbered one after the other from the starts that its header declares, with 0 on the side where
-- a line does not exist.
pub parse-FileCounted :
    (go : GoText) (patch : Bytes) {fs : List File} → parse go patch ≡ some fs → All FileCounted fs
parse-FileCounted go patch {fs} h =
    All-map FileDone FileCounted fs (λ f d. d.0) (parse-FileDone go patch h)

-- Every file that `Parse` returns can be named and has a status: its path is not empty, whatever its
-- headers say or leave out, and neither is its status.
pub parse-FileNamed :
    (go : GoText) (patch : Bytes) {fs : List File} → parse go patch ≡ some fs → All FileNamed fs
parse-FileNamed go patch {fs} h =
    All-map FileDone FileNamed fs (λ f d. d.1) (parse-FileDone go patch h)

-- What holds of a parser that has read some lines.
abbrev ReadCounted : Outcome → Type 0
ReadCounted combined_diff = Unit
ReadCounted (next q) = IsCounted q

run-ReadCounted :
    (go : GoText) (ls : List Bytes) (p : Parser) → IsCounted p → ReadCounted (run go ls p)
unfolding run
run-ReadCounted go [] p i = i
run-ReadCounted go (l ∷ ls) p i =
    go_on (feed go l p) (feed-Counted go l p i) (run-ReadCounted go ls)
  where
    go_on :
        (o : Outcome)
        → OutcomeCounted go l o
        → ((q : Parser) → IsCounted q → ReadCounted (run go ls q))
        → ReadCounted (elim o [ combined_diff ↦ combined_diff | next q ↦ run go ls q ])
    go_on combined_diff i rec = tt
    go_on (next q) i rec = rec q i

-- Behind any lines, a parser that has an open hunk has an open file, so that no line of a hunk meets a nil `cur`; the
-- counters of that file are the added and deleted lines of its closed hunks and of the open one, the lines of the open
-- hunk are numbered up to the next numbers of the parser, and all files before it are counted, named and
-- have a status.
pub run-IsCounted :
    (go : GoText) (ls : List Bytes) {q : Parser} → run go ls new_parser ≡ next q → IsCounted q
run-IsCounted go ls {q} h = subst ReadCounted h (run-ReadCounted go ls new_parser (tt, tt))
