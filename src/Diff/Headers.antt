-- ===== src/Diff/Headers.antt =====
-- The switch of `stepHeader` in internal/diff/diff.go, as a classification of one line, and the
-- hunk header pattern `hunkRe`.
use sdlc_orchestrator.Common.{
  ℕ, ◌+◌, ◌-◌, ◌*◌, leb, Bool, false, ◌&&◌, ◌||◌, [], ◌∷◌, Option, none, some, Bytes, codes,
  has_prefix, has_suffix, same, length, drop, if◌then◌else◌, ◌==◌,
}

-- One constructor for each case, with the text behind its prefix.
pub data Header : Type 0 where
  combined : Header
  diff_git : Bytes → Header
  at_sign : Header
  marker : Header
  old_header : Bytes → Header
  new_header : Bytes → Header
  new_file_mode : Bytes → Header
  deleted_file_mode : Bytes → Header
  old_mode : Bytes → Header
  new_mode : Bytes → Header
  rename_from : Bytes → Header
  rename_to : Bytes → Header
  copy_from : Bytes → Header
  copy_to : Bytes → Header
  index : Header
  binary_files : Header
  git_binary : Header
  over_body : Header
  prose : Header

unfoldable pub is_body_byte : ℕ → Bool
is_body_byte c = c == b' ' || (c == b'+' || c == b'-')

unfoldable pub starts_body : Bytes → Bool
unfolding is_body_byte
starts_body [] = false
starts_body (c ∷ s) = is_body_byte c

-- The rest of `line` behind a prefix, given as text.
unfoldable pub after : Bytes → Bytes → Bytes
after line prefix = drop (length prefix) line

-- The cases from `index ` on. `in_hunk` tells whether `p.hunk != nil`.
unfoldable pub classify_tail : Bool → Bytes → Header
classify_tail in_hunk line =
    if has_prefix line (codes "index ")
    then index
    else if has_prefix line (codes "Binary files ") && has_suffix line (codes " differ")
        || has_prefix line (codes "Files ") && has_suffix line (codes " differ")
    then binary_files
    else if same line (codes "GIT binary patch")
    then git_binary
    else if in_hunk && starts_body line
    then over_body
    else prose

-- The cases that name modes and the two ends of a rename or a copy.
unfoldable pub classify_modes : Bool → Bytes → Header
classify_modes in_hunk line =
    if has_prefix line (codes "new file mode ")
    then new_file_mode (after line (codes "new file mode "))
    else if has_prefix line (codes "deleted file mode ")
    then deleted_file_mode (after line (codes "deleted file mode "))
    else if has_prefix line (codes "old mode ")
    then old_mode (after line (codes "old mode "))
    else if has_prefix line (codes "new mode ")
    then new_mode (after line (codes "new mode "))
    else if has_prefix line (codes "rename from ")
    then rename_from (after line (codes "rename from "))
    else if has_prefix line (codes "rename to ")
    then rename_to (after line (codes "rename to "))
    else if has_prefix line (codes "copy from ")
    then copy_from (after line (codes "copy from "))
    else if has_prefix line (codes "copy to ")
    then copy_to (after line (codes "copy to "))
    else classify_tail in_hunk line

unfoldable pub is_combined : Bytes → Bool
unfolding has_prefix
is_combined line =
    has_prefix line (codes "@@@")
    || (has_prefix line (codes "diff --cc ") || has_prefix line (codes "diff --combined "))

unfoldable pub classify : Bool → Bytes → Header
classify in_hunk line =
    if is_combined line
    then combined
    else if has_prefix line (codes "diff --git ")
    then diff_git (after line (codes "diff --git "))
    else if has_prefix line (codes "@@")
    then at_sign
    else if has_prefix line (codes "\\")
    then marker
    else if has_prefix line (codes "--- ")
    then old_header (after line (codes "--- "))
    else if has_prefix line (codes "+++ ")
    then new_header (after line (codes "+++ "))
    else classify_modes in_hunk line

unfoldable pub is_digit : ℕ → Bool
is_digit c = leb b'0' c && leb c b'9'

-- The longest run of digits, and what follows it.
unfoldable pub span_digits : Bytes → Bytes × Bytes
unfolding is_digit
span_digits [] = ([], [])
span_digits (c ∷ s) =
    let (ds, rest) = span_digits s in if is_digit c then (c ∷ ds, rest) else ([], c ∷ s)

unfoldable pub at_least_one : Bytes × Bytes → Option (Bytes × Bytes)
at_least_one ([], rest) = none
at_least_one (c ∷ ds, rest) = some (c ∷ ds, rest)

-- `(\d+)`: at least one digit.
unfoldable pub digits1 : Bytes → Option (Bytes × Bytes)
unfolding span_digits at_least_one
digits1 s = at_least_one (span_digits s)

-- `(?:,(\d+))?`: an absent group is the empty string.
unfoldable pub count_group : Bytes → Bytes × Bytes
unfolding digits1
count_group [] = ([], [])
count_group (c ∷ s) =
    if c == b','
    then elim (digits1 s) [ none ↦ ([], c ∷ s) | some (ds, rest) ↦ (ds, rest) ]
    else ([], c ∷ s)

unfoldable pub literally : Bytes → Bytes → Option Bytes
unfolding has_prefix
literally text s = if has_prefix s text then some (drop (length text) s) else none

infixl 5 ◌>>=◌
abbrev ◌>>=◌ {ℓ κ} : {A : Type ℓ} {B : Type κ} → Option A → (A → Option B) → Option B
none >>= f = none
some a >>= f = f a

-- The submatches of `hunkRe`.
pub record Match : Type 0 where
  pub old_start : Bytes
  pub old_count : Bytes
  pub new_start : Bytes
  pub new_count : Bytes
  pub section : Bytes

unfoldable pub hunk_match : Bytes → Option Match
unfolding literally digits1 count_group
hunk_match line = do
  s ← literally (codes "@@ -") line
  (o, s1) ← digits1 s
  let oc = count_group s1
  s2 ← literally (codes " +") (oc.1)
  (n, s3) ← digits1 s2
  let nc = count_group s3
  rest ← literally (codes " @@") (nc.1)
  some (record { old_start = o; old_count = oc.0; new_start = n; new_count = nc.0; section = rest })

unfoldable pub number_from : ℕ → Bytes → ℕ
number_from n [] = n
number_from n (c ∷ s) = number_from (n * 10 + (c - b'0')) s

-- `strconv.Atoi` of a run of digits: an error where the value does not fit an int64.
unfoldable pub atoi : Bytes → Option ℕ
unfolding number_from
atoi s = let n = number_from 0 s in if leb n 9223372036854775807 then some n else none
