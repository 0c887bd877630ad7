-- ===== src/Diff/Parser/Lines.antt =====
-- The state of the parser of internal/diff/diff.go, and its operations on the current line. A line counter is
-- an int64, kept as its bit pattern; what a hunk still owes on a side is an integer, which falls below zero in
-- an over-long body.
use sdlc_orchestrator.Common.{
  ℕ, zero, suc, ◌+◌, ◌%◌, ◌^◌, Bool, true, false, List, [], ◌∷◌, ◌++◌, Option, none, some, Bytes,
  is_some, if◌then◌else◌,
}
use sdlc_orchestrator.Diff.{unset, Kind, context, add, del, other, Line, Hunk, File}
use sdlc_orchestrator.Diff.Flags
use sdlc_orchestrator.Diff.Flags.{clip}

pub data ParseState : Type 0 where
  st_header st_hunk st_binary_payload : ParseState

-- A count of lines owed: `owes n`, or `n + 1` lines too many.
pub data Owed : Type 0 where
  owes : ℕ → Owed
  over : ℕ → Owed

abbrev pub less_one : Owed → Owed
less_one (owes zero) = over 0
less_one (owes (suc n)) = owes n
less_one (over n) = over (suc n)

-- `r > 0`.
abbrev pub positive : Owed → Bool
positive (owes zero) = false
positive (owes (suc n)) = true
positive (over n) = false

-- `max(r, 0)`.
abbrev pub at_least_zero : Owed → ℕ
at_least_zero (owes n) = n
at_least_zero (over n) = 0

-- `n++` on an int64.
abbrev pub inc : ℕ → ℕ
inc n = (n + 1) % 2 ^ 64

pub record Parser : Type 0 where
  pub state : ParseState
  pub files : List File
  pub cur : Option File
  pub hunk : Option Hunk
  pub hdr_old : Bytes
  pub hdr_new : Bytes
  pub saw_old_header : Bool
  pub saw_old_null : Bool
  pub saw_new_null : Bool
  pub saw_mode_line : Bool
  pub old_rem : Owed
  pub new_rem : Owed
  pub old_no : ℕ
  pub new_no : ℕ

-- `&parser{}`.
abbrev pub new_parser : Parser
new_parser = record {
  state = st_header;
  files = [];
  cur = none;
  hunk = none;
  hdr_old = [];
  hdr_new = [];
  saw_old_header = false;
  saw_old_null = false;
  saw_new_null = false;
  saw_mode_line = false;
  old_rem = owes 0;
  new_rem = owes 0;
  old_no = 0;
  new_no = 0;
}

-- `&File{}`.
abbrev pub empty_file : File
empty_file = record {
  old_path = [];
  new_path = [];
  status = unset;
  old_mode = [];
  new_mode = [];
  binary = false;
  hunks = [];
  adds = 0;
  dels = 0;
  malformed = [];
  malformed_over = false;
  malformed_dropped = 0;
}

-- A change of the current file: `if p.cur != nil { … }`. Where the code takes `p.cur` without that test it panics on a
-- nil file, and here nothing changes; a file is open there: `ensure_file` or `start_file` went before, or a hunk is
-- open.
abbrev pub on_file : (File → File) → Option File → Option File
on_file f none = none
on_file f (some c) = some (f c)

unfoldable pub start_file : Parser → Parser
start_file p = record p {
  cur = some empty_file;
  hunk = none;
  hdr_old = [];
  hdr_new = [];
  saw_old_header = false;
  saw_old_null = false;
  saw_new_null = false;
  saw_mode_line = false;
  old_rem = owes 0;
  new_rem = owes 0;
}

-- `if p.cur == nil { p.startFile() }`.
unfoldable pub ensure_file : Parser → Parser
unfolding start_file
ensure_file p = if is_some p.cur then p else start_file p

unfoldable pub flag : Bytes → Parser → Parser
unfolding ensure_file
flag msg p = let q = ensure_file p in record q { cur = on_file (Flags.flag msg) q.cur }

-- `addLine` on the open hunk, by kind.
abbrev pub numbered : Kind → Bytes → Parser → Line
numbered context text p = record {
  kind = context;
  old_no = p.old_no;
  new_no = p.new_no;
  text = text;
  no_newline = false;
}
numbered add text p = record {
  kind = add;
  old_no = 0;
  new_no = p.new_no;
  text = text;
  no_newline = false;
}
numbered del text p = record {
  kind = del;
  old_no = p.old_no;
  new_no = 0;
  text = text;
  no_newline = false;
}
numbered (other k) text p = record {
  kind = other k;
  old_no = 0;
  new_no = 0;
  text = text;
  no_newline = false;
}

abbrev pub counted : Kind → Parser → Parser
counted context p = record p {
  old_no = inc p.old_no;
  new_no = inc p.new_no;
  old_rem = less_one p.old_rem;
  new_rem = less_one p.new_rem;
}
counted add p = record p {
  new_no = inc p.new_no;
  new_rem = less_one p.new_rem;
  cur = on_file (λ f. record f { adds = f.adds + 1 }) p.cur;
}
counted del p = record p {
  old_no = inc p.old_no;
  old_rem = less_one p.old_rem;
  cur = on_file (λ f. record f { dels = f.dels + 1 }) p.cur;
}
counted (other k) p = p

unfoldable pub add_to : Option Hunk → Kind → Bytes → Parser → Parser
add_to none k text p = p
add_to (some h) k text p =
    let q = counted k p in
    record q { hunk = some (record h { lines = h.lines ++ numbered k text p ∷ [] }) }

unfoldable pub add_line : Kind → Bytes → Parser → Parser
unfolding add_to
add_line k text p = add_to p.hunk k text p

-- Sets `NoNewline` on the last line, where there is one.
unfoldable pub mark_last : List Line → List Line
mark_last [] = []
mark_last (l ∷ []) = record l { no_newline = true } ∷ []
mark_last (l ∷ m ∷ ls) = l ∷ mark_last (m ∷ ls)

unfoldable pub mark_hunk : Option Hunk → Option Hunk
unfolding mark_last
mark_hunk none = none
mark_hunk (some h) = some (record h { lines = mark_last h.lines })

unfoldable pub mark_no_newline : Parser → Parser
unfolding mark_hunk
mark_no_newline p = record p { hunk = mark_hunk p.hunk }
