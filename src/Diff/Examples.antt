-- ===== src/Diff/Examples.antt =====
-- Runs of the models of internal/diff at small inputs.
use sdlc_orchestrator.Common.{
  ℕ, ◌≡◌, ◌≢◌, ◌≤◌, ◌<◌, ◌⊎◌, refl, true, false, List, [], ◌∷◌, ◌++◌, none, some, Bytes, codes, All,
  arith, length, select, map,
}
use sdlc_orchestrator.Diff.{File, Hunk, Status, GoText, context, add, del}
use sdlc_orchestrator.Diff.Counts.{FileCounted, FileNamed, IsCounted}
use sdlc_orchestrator.Diff.Counted.Patch.{parse-FileCounted, parse-FileNamed, run-IsCounted}
use sdlc_orchestrator.Diff.Parser.{
  Parser, combined_diff, empty_file, new_parser, step, fed, failed, next, st_binary_payload,
}
use sdlc_orchestrator.Diff.Parse.{parse, run, feed}
use sdlc_orchestrator.Diff.Rounds.{step_twice}
use sdlc_orchestrator.Diff.Body.{
  Change, keep, insert, remove, print, lines_from, with_counts, inside, complete, run-body,
}
use sdlc_orchestrator.Diff.Caps.{
  flag_all, malformed_bound, swallowed, with_blank, behind, blank_swallows_header,
}
use sdlc_orchestrator.Diff.Split.{Utf8, split}
use sdlc_orchestrator.Diff.Split.Sides.{lefts, rights, on_left, on_right, split_columns}
use sdlc_orchestrator.Diff.Split.Marks.{InBounds, split-InBounds}

-- Names that need no quoting.
abbrev plain_text : GoText
plain_text = record {
  unquote = λ s. none;
  quote = λ s. s;
  trim_space = λ s. s;
  fields = λ s. s ∷ [];
}

abbrev unlines : List Bytes → Bytes
unlines [] = []
unlines (l ∷ ls) = l ++ (10 ∷ unlines ls)

abbrev one_change : Bytes
one_change = unlines (
    codes "diff --git a/x b/x"
    ∷ codes "--- a/x"
    ∷ codes "+++ b/x"
    ∷ codes "@@ -1 +1,2 @@"
    ∷ codes "-old"
    ∷ codes "+new"
    ∷ codes "+more"
    ∷ [])

abbrev changed : List File
changed =
    record {
      old_path = codes "x";
      new_path = codes "x";
      status = Status.modified;
      old_mode = [];
      new_mode = [];
      binary = false;
      hunks =
          record {
            old_start = 1;
            old_lines = 1;
            new_start = 1;
            new_lines = 2;
            section = [];
            lines =
                record {
                  kind = del;
                  old_no = 1;
                  new_no = 0;
                  text = codes "old";
                  no_newline = false;
                }
                ∷ record {
                  kind = add;
                  old_no = 0;
                  new_no = 1;
                  text = codes "new";
                  no_newline = false;
                }
                ∷ record {
                  kind = add;
                  old_no = 0;
                  new_no = 2;
                  text = codes "more";
                  no_newline = false;
                }
                ∷ [];
          }
          ∷ [];
      adds = 2;
      dels = 1;
      malformed = [];
      malformed_over = false;
      malformed_dropped = 0;
    }
    ∷ []

parse-changed : parse plain_text one_change ≡ some changed
unfolding parse step
parse-changed = refl

parse-FileCounted_example : All FileCounted changed
parse-FileCounted_example = parse-FileCounted plain_text one_change parse-changed

-- The parser behind the first lines of the change, with its hunk open.
abbrev some_lines : List Bytes
some_lines =
    codes "--- a/x" ∷ codes "+++ b/x" ∷ codes "@@ -1,2 +1,2 @@" ∷ codes " one" ∷ codes "-two" ∷ []

abbrev half_read : Parser
half_read = elim (run plain_text some_lines new_parser) [ combined_diff ↦ new_parser | next q ↦ q ]

reads : run plain_text some_lines new_parser ≡ next half_read
unfolding run step feed
reads = refl

run-IsCounted_example : IsCounted half_read
run-IsCounted_example = run-IsCounted plain_text some_lines reads

parse-FileNamed_example : All FileNamed changed
parse-FileNamed_example = parse-FileNamed plain_text one_change parse-changed

abbrev empty_hunk : Hunk
empty_hunk = record {
  old_start = 1;
  old_lines = 2;
  new_start = 1;
  new_lines = 2;
  section = [];
  lines = [];
}

abbrev small_body : List Change
small_body = keep (codes "-- a") ∷ remove [] ∷ insert (codes "@@") ∷ []

small_body_nonempty : small_body ≢ []
small_body_nonempty h = ground arith

run-body_example :
    run plain_text (map print small_body) (inside new_parser empty_file empty_hunk 1 1 2 2)
    ≡ next (
        complete new_parser
          (with_counts empty_file small_body)
          (record empty_hunk { lines = lines_from 1 1 small_body })
          3
          3)
run-body_example =
    run-body plain_text new_parser small_body empty_file empty_hunk 1 1 small_body_nonempty

abbrev in_payload : Parser
in_payload = record new_parser { state = st_binary_payload }

declines : step plain_text (codes "diff --git a/x b/x") in_payload ≡ fed new_parser false
unfolding step
declines = refl

step_twice_example :
    (step plain_text (codes "diff --git a/x b/x") new_parser ≡ failed)
    ⊎ ((r : Parser) × (step plain_text (codes "diff --git a/x b/x") new_parser ≡ fed r true))
step_twice_example = step_twice plain_text (codes "diff --git a/x b/x") in_payload declines

malformed_bound_example :
    length (File.malformed (flag_all (codes "bad" ∷ codes "x" ∷ []) empty_file)) ≤ 1029
malformed_bound_example =
    malformed_bound 3 (codes "bad" ∷ codes "x" ∷ []) (omega arith, (omega arith, tt))

-- The lines of the second file's header, behind an empty line that ends a hunk.
blank_swallows_header_example :
    (run plain_text
        (map print small_body ++ codes " " ∷ [])
        (inside new_parser empty_file empty_hunk 1 1 3 3)
      ≡ run plain_text [] (
          complete new_parser
            (with_counts empty_file small_body)
            (with_blank empty_hunk 1 1 small_body)
            4
            4))
    × (run plain_text
          (map print small_body ++ [] ∷ codes "--- a/y" ∷ [])
          (inside new_parser empty_file empty_hunk 1 1 3 3)
        ≡ run plain_text [] (
            swallowed new_parser
              (with_counts empty_file small_body)
              (behind empty_hunk 1 1 small_body)
              3
              3
              (codes "a/y")))
blank_swallows_header_example =
    blank_swallows_header plain_text new_parser empty_file empty_hunk 1 1 small_body (codes "a/y")
      []

-- One byte is one rune.
abbrev byte_rune : Bytes → ℕ × ℕ
byte_rune [] = (65533, 0)
byte_rune (c ∷ s) = (c, 1)

abbrev bytewise : Utf8
bytewise = record { decode = byte_rune; decode_last = byte_rune; past_guard = λ a b. false }

byte_rune_within : (s : Bytes) → (byte_rune s).1 ≤ length s
byte_rune_within [] = omega arith
byte_rune_within (c ∷ s) = omega arith

byte_rune_advances : (s : Bytes) → 0 < length s → 0 < (byte_rune s).1
byte_rune_advances [] h = h
byte_rune_advances (c ∷ s) h = omega arith

abbrev changed_hunk : Hunk
changed_hunk = record empty_hunk {
  lines =
      record { kind = del; old_no = 1; new_no = 0; text = codes "ab"; no_newline = false }
      ∷ record { kind = add; old_no = 0; new_no = 1; text = codes "ac"; no_newline = false }
      ∷ record { kind = context; old_no = 2; new_no = 2; text = codes "d"; no_newline = false }
      ∷ [];
}

split_columns_example :
    (lefts (split bytewise changed_hunk) ≡ select on_left changed_hunk.lines)
    × (rights (split bytewise changed_hunk) ≡ select on_right changed_hunk.lines)
split_columns_example = split_columns bytewise changed_hunk

split-InBounds_example : All InBounds (split bytewise changed_hunk)
split-InBounds_example = split-InBounds bytewise byte_rune_within changed_hunk
