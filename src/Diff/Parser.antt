-- ===== src/Diff/Parser.antt =====
-- The state machine of internal/diff/diff.go: `stepHeader` and `step`, on the parser and the steps of a hunk,
-- whose names it passes on.
mod Lines
mod Files
mod Hunks
unfoldable pub use Lines.*
unfoldable pub use Files.*
unfoldable pub use Hunks.*
use sdlc_orchestrator.Common.{
  ℕ, zero, suc, ◌+◌, ◌%◌, ◌^◌, Bool, true, false, ◌&&◌, ◌||◌, not, List, [], ◌∷◌, ◌++◌, Option,
  none, some, Bytes, codes, decimal, same, has_prefix, has_suffix, trim_prefix, is_empty, is_some,
  if◌then◌else◌, ◌==◌,
}
use sdlc_orchestrator.Diff.{
  Status, unset, added, deleted, modified, renamed, copied, mode_only, Kind, context, add, del,
  other, Line, Hunk, File, GoText,
}
use sdlc_orchestrator.Diff.Flags
use sdlc_orchestrator.Diff.Flags.{clip}
use sdlc_orchestrator.Diff.Paths.{dev_null, header_path, rename_path, split_diff_git_paths}
use sdlc_orchestrator.Diff.Headers
use sdlc_orchestrator.Diff.Headers.{Header, Match, classify, hunk_match, atoi}

-- The file that a `--- ` header belongs to.
unfoldable pub old_header_file : Parser → Parser
unfolding close_file start_file
old_header_file p =
    if not (is_some p.cur) || (p.saw_old_header || is_some p.hunk)
    then start_file (close_file p)
    else p

-- What a `--- ` line does once its file is there.
unfoldable pub set_old_path : Bytes → Parser → Parser
unfolding same
set_old_path path p =
    if same path dev_null
    then record p { saw_old_header = true; saw_old_null = true }
    else record p { saw_old_header = true; cur = on_file (λ f. record f { old_path = path }) p.cur }

unfoldable pub set_new_path : Bytes → Parser → Parser
unfolding same
set_new_path path p =
    if same path dev_null
    then record p { saw_new_null = true }
    else record p { cur = on_file (λ f. record f { new_path = path }) p.cur }

-- `p.sawModeLine = true` stands inside the nil test.
unfoldable pub saw_mode : Parser → Bool
saw_mode p = if is_some p.cur then true else p.saw_mode_line

unfoldable pub three_fields : List Bytes → Option Bytes
three_fields (a ∷ b ∷ c ∷ []) = some c
three_fields _ = none

unfoldable pub set_index_mode : Option Bytes → File → File
set_index_mode none f = f
set_index_mode (some mode) f =
    if is_empty f.old_mode && is_empty f.new_mode
    then record f { old_mode = mode; new_mode = mode }
    else f

-- Result of `stepHeader`: the combined-diff error, or the parser.
pub data Outcome : Type 0 where
  combined_diff : Outcome
  next : Parser → Outcome

module _ (go : GoText) (line : Bytes) where
  -- The cases that leave the current hunk alone.
  unfoldable pub header_fields : Header → Parser → Parser
  unfolding saw_mode three_fields set_index_mode set_new_path ensure_file header_path rename_path
  header_fields (Headers.new_header s) p = set_new_path (header_path go s) (ensure_file p)
  header_fields (Headers.new_file_mode s) p = record p {
    cur = on_file (λ f. record f { status = added; new_mode = go.trim_space s }) p.cur;
  }
  header_fields (Headers.deleted_file_mode s) p = record p {
    cur = on_file (λ f. record f { status = deleted; old_mode = go.trim_space s }) p.cur;
  }
  header_fields (Headers.old_mode s) p = record p {
    cur = on_file (λ f. record f { old_mode = go.trim_space s }) p.cur;
    saw_mode_line = saw_mode p;
  }
  header_fields (Headers.new_mode s) p = record p {
    cur = on_file (λ f. record f { new_mode = go.trim_space s }) p.cur;
    saw_mode_line = saw_mode p;
  }
  header_fields (Headers.rename_from s) p = record p {
    cur = on_file (λ f. record f { status = renamed; old_path = rename_path go s }) p.cur;
  }
  header_fields (Headers.rename_to s) p = record p {
    cur = on_file (λ f. record f { status = renamed; new_path = rename_path go s }) p.cur;
  }
  header_fields (Headers.copy_from s) p = record p {
    cur = on_file (λ f. record f { status = copied; old_path = rename_path go s }) p.cur;
  }
  header_fields (Headers.copy_to s) p = record p {
    cur = on_file (λ f. record f { status = copied; new_path = rename_path go s }) p.cur;
  }
  header_fields Headers.index p = record p {
    cur = on_file (set_index_mode (three_fields (go.fields line))) p.cur;
  }
  header_fields Headers.binary_files p = record p {
    cur = on_file (λ f. record f { binary = true }) p.cur;
  }
  header_fields Headers.git_binary p = record p {
    cur = on_file (λ f. record f { binary = true }) p.cur;
    state = st_binary_payload;
  }
  header_fields _ p = p

  unfoldable pub header_case : Header → Parser → Outcome
  unfolding header_fields old_header_file set_old_path open_hunk mark_no_newline close_file
      start_file flag step_hunk split_diff_git_paths header_path
  header_case Headers.combined p = combined_diff
  header_case (Headers.diff_git rest) p =
      let (o, n) = split_diff_git_paths go rest in
      let q = start_file (close_file p) in next (record q { hdr_old = o; hdr_new = n })
  header_case Headers.at_sign p = next (open_hunk go line p)
  header_case Headers.marker p = next (mark_no_newline p)
  header_case (Headers.old_header s) p = next (set_old_path (header_path go s) (old_header_file p))
  header_case Headers.over_body p =
      let q = flag (codes "hunk body is longer than its header declares") p in
      next (step_hunk line (record q { state = st_hunk })).0
  header_case h p = next (header_fields h p)

  unfoldable pub step_header : Parser → Outcome
  unfolding header_case classify Headers.classify_modes Headers.classify_tail Headers.is_combined
      Headers.starts_body Headers.is_body_byte Headers.after has_prefix has_suffix same
  step_header p = header_case (classify (is_some p.hunk) line) p

-- Result of `step`: the error, or the parser and whether the line was consumed.
pub data Step : Type 0 where
  failed : Step
  fed : Parser → Bool → Step

unfoldable pub consumed : Outcome → Step
consumed combined_diff = failed
consumed (next p) = fed p true

unfoldable pub fed_pair : Parser × Bool → Step
fed_pair (p, b) = fed p b

unfoldable pub step_in : GoText → ParseState → Bytes → Parser → Step
unfolding consumed fed_pair step_header step_hunk has_prefix
step_in go st_hunk line p = fed_pair (step_hunk line p)
step_in go st_binary_payload line p =
    if has_prefix line (codes "diff ")
    then fed (record p { state = st_header }) false
    else fed p true
step_in go st_header line p = consumed (step_header go line p)

unfoldable pub step : GoText → Bytes → Parser → Step
unfolding step_in
step go line p = step_in go p.state line p
