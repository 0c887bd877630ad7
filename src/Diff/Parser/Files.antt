-- ===== src/Diff/Parser/Files.antt =====
-- `closeHunk` and `closeFile` of internal/diff/diff.go.
use sdlc_orchestrator.Common.{
  Bool, ◌&&◌, ◌||◌, not, [], ◌∷◌, ◌++◌, Option, none, some, Bytes, codes, decimal, is_empty,
  if◌then◌else◌,
}
use sdlc_orchestrator.Diff.{Status, unset, modified, mode_only, Hunk, File}
use sdlc_orchestrator.Diff.Flags
use sdlc_orchestrator.Diff.Flags.{clip}
use sdlc_orchestrator.Diff.Parser.Lines.{
  Owed, Parser, at_least_zero, flag, on_file, positive, st_header, owes,
}

unfoldable pub short_message : Hunk → Owed → Owed → Bytes
unfolding decimal
short_message h o n =
    codes "hunk @@ -"
    ++ (decimal h.old_start
        ++ (codes ","
            ++ (decimal h.old_lines
                ++ (codes " +"
                    ++ (decimal h.new_start
                        ++ (codes ","
                            ++ (decimal h.new_lines
                                ++ (codes " @@ is short by "
                                    ++ (decimal (at_least_zero o)
                                        ++ (codes " old and "
                                            ++ (decimal (at_least_zero n)
                                                ++ codes " new lines")))))))))))

unfoldable pub append_hunk : Hunk → Parser → Parser
append_hunk h p = record p {
  cur = on_file (λ f. record f { hunks = f.hunks ++ h ∷ [] }) p.cur;
  hunk = none;
  old_rem = owes 0;
  new_rem = owes 0;
}

unfoldable pub close_open : Option Hunk → Parser → Parser
unfolding append_hunk flag short_message
close_open none p = p
close_open (some h) p = append_hunk h (
    if positive p.old_rem || positive p.new_rem
    then flag (short_message h p.old_rem p.new_rem) p
    else p)

unfoldable pub close_hunk : Parser → Parser
unfolding close_open
close_hunk p = close_open p.hunk p

abbrev pub unknown_path : Bytes
unknown_path = codes "(unknown path)"

-- A path that the unambiguous headers left empty is the one of the `diff --git` line, unless the
-- headers said /dev/null.
unfoldable pub fill_path : Bytes → Bool → Bytes → Bytes
fill_path path saw_null hdr = if is_empty path && not saw_null then hdr else path

unfoldable pub fill_status : Status → Bool → File → Status
fill_status unset saw_mode f =
    if saw_mode && (is_empty f.hunks && not f.binary) then mode_only else modified
fill_status s saw_mode f = s

unfoldable pub name_file : File → File
unfolding Flags.flag
name_file f =
    if is_empty f.old_path && is_empty f.new_path
    then Flags.flag (codes "the file header names no path") (record f { new_path = unknown_path })
    else f

unfoldable pub fill_file : Parser → File → File
unfolding fill_path fill_status
fill_file p g = record g {
  old_path = fill_path g.old_path p.saw_old_null p.hdr_old;
  new_path = fill_path g.new_path p.saw_new_null p.hdr_new;
  status = fill_status g.status p.saw_mode_line g;
}

unfoldable pub finish_file : Parser → File → File
unfolding Flags.seal_malformed fill_file name_file
finish_file p f = name_file (fill_file p (Flags.seal_malformed f))

unfoldable pub push_file : Option File → Parser → Parser
unfolding finish_file
push_file none p = p
push_file (some f) p = record p {
  files = p.files ++ finish_file p f ∷ [];
  cur = none;
  hunk = none;
  state = st_header;
}

unfoldable pub close_file_of : Option File → Parser → Parser
unfolding push_file close_hunk
close_file_of none p = p
close_file_of (some f) p = let q = close_hunk p in push_file q.cur q

unfoldable pub close_file : Parser → Parser
unfolding close_file_of
close_file p = close_file_of p.cur p
