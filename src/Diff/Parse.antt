-- ===== src/Diff/Parse.antt =====
-- `Parse` of internal/diff/diff.go: the lines of a patch, each offered to at most two states.
use sdlc_orchestrator.Common.{
  Bool, true, false, List, [], ◌∷◌, Option, none, some, Bytes, has_suffix, is_empty, map, split_on,
  trim_last, if◌then◌else◌,
}
use sdlc_orchestrator.Diff.{File, GoText}
use sdlc_orchestrator.Diff.Parser.{
  Parser, new_parser, Outcome, combined_diff, next, Step, failed, fed, step, close_file,
}

-- `seen` tells whether a line that is not empty came before.
unfoldable pub crlf_from : Bool → List Bytes → Bool
unfolding has_suffix
crlf_from seen [] = seen
crlf_from seen ([] ∷ ls) = crlf_from seen ls
crlf_from seen ((c ∷ l) ∷ ls) = elim (has_suffix (c ∷ l) (13 ∷ [])) [
  | true ↦ crlf_from true ls
  | false ↦ false
]

unfoldable pub patch_is_crlf : List Bytes → Bool
unfolding crlf_from
patch_is_crlf lines = crlf_from false lines

-- `lines[:n-1]` where the last line is empty.
unfoldable pub drop_last_empty : List Bytes → List Bytes
drop_last_empty [] = []
drop_last_empty (l ∷ []) = if is_empty l then [] else l ∷ []
drop_last_empty (l ∷ m ∷ ls) = l ∷ drop_last_empty (m ∷ ls)

unfoldable pub strip_cr : List Bytes → List Bytes
unfolding trim_last
strip_cr lines = map (λ l. trim_last l 13) lines

unfoldable pub split_lines : Bytes → List Bytes
unfolding split_on drop_last_empty patch_is_crlf strip_cr
split_lines [] = []
split_lines (c ∷ s) =
    let lines = drop_last_empty (split_on (c ∷ s) b'\n') in
    if patch_is_crlf lines then strip_cr lines else lines

unfoldable pub second_pass : Step → Outcome
second_pass failed = combined_diff
second_pass (fed p b) = next p

unfoldable pub first_pass : GoText → Bytes → Step → Outcome
unfolding second_pass
first_pass go line failed = combined_diff
first_pass go line (fed p true) = next p
first_pass go line (fed p false) = second_pass (step go line p)

-- The inner loop of `Parse`: one line.
unfoldable pub feed : GoText → Bytes → Parser → Outcome
unfolding first_pass
feed go line p = first_pass go line (step go line p)

-- The outer loop. The rest of the lines is read only if this one is not refused.
unfoldable pub run : GoText → List Bytes → Parser → Outcome
run go [] p = next p
run go (l ∷ ls) p = elim (feed go l p) [ combined_diff ↦ combined_diff | next q ↦ run go ls q ]

unfoldable pub finish : Outcome → Option (List File)
finish combined_diff = none
finish (next p) = some ((close_file p).files)

-- `none` is `ErrCombinedDiff`.
unfoldable pub parse : GoText → Bytes → Option (List File)
unfolding finish run feed split_lines
parse go patch = finish (run go (split_lines patch) new_parser)
