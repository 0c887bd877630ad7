-- ===== src/Jobs.antt =====
-- internal/jobs/submit.go: what a submission must hold, the job it becomes, and the issue file that the
-- command line splits. The database, the configured targets and package strings are parameters.
pub mod Accepted
pub mod Heading
mod Examples
use sdlc_orchestrator.Common.{
  ℕ, ltb, leb, Bool, true, false, ◌&&◌, ◌||◌, not, List, [], ◌∷◌, ◌++◌, Option, none, some, length,
  is_empty, Bytes, if◌then◌else◌, ◌==◌,
}
use sdlc_orchestrator.Engine.States.{State, created}

abbrev pub max_title_bytes : ℕ
max_title_bytes = 500

-- 1 MiB.
abbrev pub max_body_bytes : ℕ
max_body_bytes = 1048576

-- The sentinel errors, and the errors of the configuration and the database.
pub data SubmitError : Type 0 where
  unknown_target no_title title_too_long title_control_chars : SubmitError
  body_too_long body_control_chars no_id not_created : SubmitError

pub record Request : Type 0 where
  pub target : Bytes
  pub title : Bytes
  pub body : Bytes

-- The fields of store.Job that a submission sets.
pub record Submitted : Type 0 where
  pub id : Bytes
  pub target : Bytes
  pub issue_title : Bytes
  pub issue_body : Bytes
  pub branch : Bytes
  pub worktree_path : Bytes
  pub state : State

pub record Target : Type 0 where
  pub branch_prefix : Bytes
  pub worktrees_dir : Bytes

-- `strings.TrimSpace`, the runes of a string, `filepath.Join`, the configured targets, the next id that
-- the database hands out and whether it takes the row.
pub record Outside : Type 0 where
  pub trim_space : Bytes → Bytes
  pub runes : Bytes → List ℕ
  pub join : Bytes → Bytes → Bytes
  pub find_target : Bytes → Option Target
  pub next_job_id : Option Bytes
  pub creates : Submitted → Bool

unfoldable pub is_control : ℕ → Bool
is_control r = ltb r 32 || (r == 127 || (leb 128 r && leb r 159))

unfoldable pub any_control : List ℕ → Bool
unfolding is_control
any_control [] = false
any_control (r ∷ rs) = is_control r || any_control rs

-- `strings.ContainsRune(s, 0)`.
unfoldable pub has_nul : Bytes → Bool
has_nul [] = false
has_nul (c ∷ s) = c == 0 || has_nul s

pub data Submission : Type 0 where
  accepted : Submitted → Submission
  refused : SubmitError → Submission

-- `if wrong { return nil, err }`.
infixr 3 ◌otherwise◌
abbrev pub ◌otherwise◌ : Bool × SubmitError → Submission → Submission
(true, e) otherwise k = refused e
(false, e) otherwise k = k

module _ (out : Outside) where
  unfoldable pub has_control_chars : Bytes → Bool
  unfolding any_control
  has_control_chars s = any_control (out.runes s)

  unfoldable pub body_or_title : Bytes → Bytes → Bytes
  body_or_title body title = if is_empty (out.trim_space body) then title else body

  unfoldable pub new_job : Request → Target → Bytes → Submitted
  unfolding body_or_title
  new_job r t id = record {
    id = id;
    target = r.target;
    issue_title = out.trim_space r.title;
    issue_body = body_or_title r.body (out.trim_space r.title);
    branch = t.branch_prefix ++ id;
    worktree_path = out.join t.worktrees_dir id;
    state = created;
  }

  unfoldable pub create_job : Submitted → Submission
  create_job j = if out.creates j then accepted j else refused not_created

  -- The request is valid: its id is drawn and its row written.
  unfoldable pub allocate : Request → Target → Submission
  unfolding new_job create_job
  allocate r t = elim (out.next_job_id) [
    | none ↦ refused no_id
    | some id ↦ create_job (new_job r t id)
  ]

  unfoldable pub checked : Request → Target → Submission
  unfolding has_control_chars has_nul allocate
  checked r t =
      let title = out.trim_space r.title in
      (is_empty title, no_title)
      otherwise (ltb max_title_bytes (length title), title_too_long)
      otherwise (has_control_chars title, title_control_chars)
      otherwise (ltb max_body_bytes (length r.body), body_too_long)
      otherwise (has_nul r.body, body_control_chars)
      otherwise allocate r t

  unfoldable pub submit : Request → Submission
  unfolding checked
  submit r = elim (out.find_target r.target) [
    | none ↦ refused unknown_target
    | some t ↦ checked r t
  ]

-- `strings.TrimLeft(s, "#")`.
unfoldable pub trim_left_hash : Bytes → Bytes
trim_left_hash [] = []
trim_left_hash (c ∷ s) = let rest = trim_left_hash s in if c == 35 then rest else c ∷ s

-- `strings.SplitN(s, "\n", 2)`: the first line and, behind a line end, the rest.
unfoldable pub cut_line : Bytes → Bytes × Option Bytes
cut_line [] = ([], none)
cut_line (c ∷ s) = let rest = cut_line s in if c == 10 then ([], some s) else (c ∷ rest.0, rest.1)

module _ (trim_space : Bytes → Bytes) where
  unfoldable pub split_issue : Bytes → Bytes × Option Bytes → Bytes × Bytes
  unfolding trim_left_hash
  split_issue content (first, none) = (trim_space (trim_left_hash first), trim_space content)
  split_issue content (first, some rest) = (trim_space (trim_left_hash first), trim_space rest)

  unfoldable pub title_and_body : Bytes → Bytes → Bytes × Bytes
  unfolding split_issue cut_line
  title_and_body [] content = split_issue content (cut_line (trim_space content))
  title_and_body (c ∷ title) content = (c ∷ title, content)
