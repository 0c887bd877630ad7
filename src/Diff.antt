-- ===== src/Diff.antt =====
-- The data of internal/diff/diff.go: files, hunks and lines of a parsed patch, and the functions
-- of the Go library that the parser calls and that the model takes as parameters.
pub mod Flags
pub mod Paths
pub mod Headers
pub mod Parser
pub mod Parse
pub mod Counts
pub mod Counted
pub mod Rounds
pub mod Body
pub mod Caps
pub mod Split
mod Examples
use sdlc_orchestrator.Common.{ℕ, suc, ◌+◌, Bool, true, false, List, [], ◌∷◌, Option, Bytes, length}

-- The zero value of `Status` is the empty string, `unset` here.
pub data Status : Type 0 where
  unset added deleted modified renamed copied mode_only : Status

-- `Kind` is an int: the three constants, and any other value.
pub data Kind : Type 0 where
  context add del : Kind
  other : ℕ → Kind

-- Line numbers are ints, kept as 64-bit patterns.
pub record Line : Type 0 where
  pub kind : Kind
  pub old_no : ℕ
  pub new_no : ℕ
  pub text : Bytes
  pub no_newline : Bool

pub record Hunk : Type 0 where
  pub old_start : ℕ
  pub old_lines : ℕ
  pub new_start : ℕ
  pub new_lines : ℕ
  pub section : Bytes
  pub lines : List Line

pub record File : Type 0 where
  pub old_path : Bytes
  pub new_path : Bytes
  pub status : Status
  pub old_mode : Bytes
  pub new_mode : Bytes
  pub binary : Bool
  pub hunks : List Hunk
  pub adds : ℕ
  pub dels : ℕ
  pub malformed : Bytes
  pub malformed_over : Bool
  pub malformed_dropped : ℕ

-- What package strconv and the Unicode-aware part of package strings do: `strconv.Unquote`
-- (`none` is its error), `%q`, `strings.TrimSpace` and `strings.Fields`.
pub record GoText : Type 0 where
  pub unquote : Bytes → Option Bytes
  pub quote : Bytes → Bytes
  pub trim_space : Bytes → Bytes
  pub fields : Bytes → List Bytes

-- The name to show: the new path, or the old one for a deletion.
unfoldable pub path_or : Bytes → Bytes → Bytes
path_or [] old = old
path_or (c ∷ s) old = c ∷ s

unfoldable pub path : File → Bytes
unfolding path_or
path f = path_or f.new_path f.old_path

rows_of : List Hunk → ℕ
rows_of [] = 0
rows_of (h ∷ hs) = length h.lines + rows_of hs

-- The number of diff lines across every hunk.
unfoldable pub rows : File → ℕ
unfolding rows_of
rows f = rows_of f.hunks
