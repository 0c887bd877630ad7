-- ===== src/Diff/Parser/Hunks.antt =====
-- `openHunk` and `stepHunk` of internal/diff/diff.go.
use sdlc_orchestrator.Common.{
  ℕ, Bool, true, false, ◌||◌, [], ◌∷◌, ◌++◌, Option, none, some, Bytes, codes, trim_prefix,
  is_empty, if◌then◌else◌, ◌==◌,
}
use sdlc_orchestrator.Diff.{context, add, del, Hunk, GoText}
use sdlc_orchestrator.Diff.Flags.{clip}
use sdlc_orchestrator.Diff.Headers.{Match, hunk_match, atoi}
use sdlc_orchestrator.Diff.Parser.Lines.{
  Parser, add_line, ensure_file, flag, mark_no_newline, positive, st_header, st_hunk, owes,
}
use sdlc_orchestrator.Diff.Parser.Files.{close_hunk}

-- The closure `num` of `openHunk`: the number, and what it did to the parser.
unfoldable pub num : GoText → Bytes → Bytes → ℕ → Parser → ℕ × Parser
unfolding atoi flag clip
num go field raw dflt p = if is_empty raw then (dflt, p) else elim (atoi raw) [
  | some n ↦ (n, p)
  | none ↦ (
    dflt,
    flag
        (codes "hunk header "
          ++ (field ++ (codes " " ++ (go.quote (clip raw 24) ++ codes " is not a usable number"))))
        p,
  )
]

unfoldable pub enter_hunk : Hunk → Parser → Parser
enter_hunk h p = record p {
  hunk = some h;
  old_rem = owes h.old_lines;
  new_rem = owes h.new_lines;
  old_no = h.old_start;
  new_no = h.new_start;
  state = if positive (owes h.old_lines) || positive (owes h.new_lines) then st_hunk else st_header;
}

unfoldable pub matched_hunk : GoText → Match → Parser → Parser
unfolding num enter_hunk trim_prefix
matched_hunk go m p =
    let (os, p1) = num go (codes "old start") m.old_start 0 p in
    let (ol, p2) = num go (codes "old count") m.old_count 1 p1 in
    let (ns, p3) = num go (codes "new start") m.new_start 0 p2 in
    let (nl, p4) = num go (codes "new count") m.new_count 1 p3 in
    enter_hunk
      (record {
        old_start = os;
        old_lines = ol;
        new_start = ns;
        new_lines = nl;
        section = trim_prefix m.section (codes " ");
        lines = [];
      })
      p4

unfoldable pub open_matched : GoText → Option Match → Bytes → Parser → Parser
unfolding matched_hunk close_hunk ensure_file flag clip
open_matched go none line p =
    flag (codes "unparsable hunk header: " ++ clip line 60) (ensure_file p)
open_matched go (some m) line p = matched_hunk go m (close_hunk (ensure_file p))

unfoldable pub open_hunk : GoText → Bytes → Parser → Parser
unfolding open_matched hunk_match
open_hunk go line p = open_matched go (hunk_match line) line p

-- The end of `stepHunk`: an exhausted hunk returns to the header state.
unfoldable pub settle : Parser → Parser
settle p = if positive p.old_rem || positive p.new_rem then p else record p { state = st_header }

-- `stepHunk`: the parser, and whether the line was consumed.
unfoldable pub step_hunk : Bytes → Parser → Parser × Bool
unfolding add_line mark_no_newline flag settle
step_hunk [] p = (add_line context [] p, true)
step_hunk (c ∷ text) p =
    if c == b' '
    then (settle (add_line context text p), true)
    else if c == b'+'
    then (settle (add_line add text p), true)
    else if c == b'-'
    then (settle (add_line del text p), true)
    else if c == 92
    then (settle (mark_no_newline p), true)
    else (
      record (flag (codes "hunk body is shorter than its header declares") p) { state = st_header },
      false,
    )
