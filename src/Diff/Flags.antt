-- ===== src/Diff/Flags.antt =====
-- The reconciliation text of a file in internal/diff/diff.go: `flag`, `sealMalformed`, `clip`.
use sdlc_orchestrator.Common.{
  ℕ, ◌+◌, ◌++◌, ltb, Bool, false, Bytes, codes, contains, decimal, length, is_empty, take,
  if◌then◌else◌, leb,
}
use sdlc_orchestrator.Diff.{File}

abbrev pub max_malformed : ℕ
max_malformed = 1024

-- The text after a message: unchanged if it holds the message already.
unfoldable pub joined : Bytes → Bytes → Bytes
unfolding contains
joined old msg =
    if is_empty old then msg else if contains old msg then old else old ++ (codes "; " ++ msg)

-- A message that the text holds already.
unfoldable pub repeats : Bytes → Bytes → Bool
unfolding contains
repeats old msg = if is_empty old then false else contains old msg

-- A repeated message returns early, before the test of the length; so does one past the cap.
unfoldable pub flag : Bytes → File → File
unfolding joined repeats
flag msg f =
    if f.malformed_over
    then record f { malformed_dropped = f.malformed_dropped + 1 }
    else if repeats f.malformed msg
    then f
    else record f {
      malformed = joined f.malformed msg;
      malformed_over = ltb max_malformed (length (joined f.malformed msg));
    }

unfoldable pub seal_malformed : File → File
unfolding decimal
seal_malformed f =
    if ltb 0 f.malformed_dropped
    then record f {
      malformed =
          f.malformed
          ++ (codes "; and "
              ++ (decimal f.malformed_dropped ++ codes " further problem(s) not recorded"));
    }
    else f

unfoldable pub clip : Bytes → ℕ → Bytes
clip s n = if leb (length s) n then s else take n s ++ codes "..."
