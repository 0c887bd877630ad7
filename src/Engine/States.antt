-- ===== src/Engine/States.antt =====
-- internal/engine/states.go: the states of a job and what the engine asks of them. A state is a string
-- in Go: `other` stands for one that is none of the constants, and `of_text` reads a string.
pub mod Sets
use sdlc_orchestrator.Common.{
  ℕ, Bool, true, false, ◌||◌, List, [], ◌∷◌, Option, none, some, String, str_eq, if◌then◌else◌,
  ◌==◌,
}

pub data State : Type 0 where
  created scoping planning design_review implementing code_review : State
  building testing flake_check analyzing fixing final_review : State
  await_scope await_spec await_code await_merge merging await_release releasing : State
  completed cancelled failed escalated timed_out blocked_quota blocked_network : State
  other : String → State

unfoldable pub text : State → String
text created = "CREATED"
text scoping = "SCOPING"
text planning = "PLANNING"
text design_review = "DESIGN_REVIEW"
text implementing = "IMPLEMENTING"
text code_review = "CODE_REVIEW"
text building = "BUILDING"
text testing = "TESTING"
text flake_check = "FLAKE_CHECK"
text analyzing = "ANALYZING"
text fixing = "FIXING"
text final_review = "FINAL_REVIEW"
text await_scope = "AWAITING_SCOPE_APPROVAL"
text await_spec = "AWAITING_SPEC_APPROVAL"
text await_code = "AWAITING_CODE_APPROVAL"
text await_merge = "AWAITING_MERGE_APPROVAL"
text merging = "MERGING"
text await_release = "AWAITING_RELEASE_APPROVAL"
text releasing = "RELEASING"
text completed = "COMPLETED"
text cancelled = "CANCELLED"
text failed = "FAILED"
text escalated = "ESCALATED"
text timed_out = "TIMED_OUT"
text blocked_quota = "BLOCKED_ON_QUOTA"
text blocked_network = "BLOCKED_ON_NETWORK"
text (other s) = s

abbrev pub constants : List State
constants =
    created ∷ scoping ∷ planning ∷ design_review ∷ implementing ∷ code_review ∷ building ∷ testing
    ∷ flake_check ∷ analyzing ∷ fixing ∷ final_review ∷ await_scope ∷ await_spec ∷ await_code
    ∷ await_merge ∷ merging ∷ await_release ∷ releasing ∷ completed ∷ cancelled ∷ failed ∷ escalated
    ∷ timed_out ∷ blocked_quota ∷ blocked_network ∷ []

find_state : List State → String → State
find_state [] t = other t
find_state (s ∷ ss) t = if str_eq (text s) t then s else find_state ss t

unfoldable pub of_text : String → State
unfolding find_state
of_text t = find_state constants t

-- The place of a constant, by which two states are compared.
unfoldable pub index : State → ℕ
index created = 0
index scoping = 1
index planning = 2
index design_review = 3
index implementing = 4
index code_review = 5
index building = 6
index testing = 7
index flake_check = 8
index analyzing = 9
index fixing = 10
index final_review = 11
index await_scope = 12
index await_spec = 13
index await_code = 14
index await_merge = 15
index merging = 16
index await_release = 17
index releasing = 18
index completed = 19
index cancelled = 20
index failed = 21
index escalated = 22
index timed_out = 23
index blocked_quota = 24
index blocked_network = 25
index (other s) = 26

-- `s == t` on states.
unfoldable pub same_state : State → State → Bool
unfolding index
same_state (other s) (other t) = str_eq s t
same_state s t = index s == index t

unfoldable pub is_suspended : State → Bool
is_suspended blocked_quota = true
is_suspended blocked_network = true
is_suspended _ = false

unfoldable pub is_terminal : State → Bool
is_terminal completed = true
is_terminal cancelled = true
is_terminal failed = true
is_terminal _ = false

unfoldable pub is_held : State → Bool
is_held escalated = true
is_held timed_out = true
is_held _ = false

unfoldable pub is_parked : State → Bool
is_parked await_scope = true
is_parked await_spec = true
is_parked await_code = true
is_parked await_merge = true
is_parked await_release = true
is_parked _ = false

-- The list `resumable`.
abbrev pub resumable : List State
resumable =
    scoping ∷ planning ∷ design_review ∷ implementing ∷ code_review ∷ building ∷ testing
    ∷ flake_check ∷ analyzing ∷ fixing ∷ final_review ∷ merging ∷ releasing ∷ []

-- A loop over a list of states that returns at the first that is `s`.
unfoldable pub member : List State → State → Bool
unfolding same_state
member [] s = false
member (r ∷ rs) s = same_state s r || member rs s

unfoldable pub is_resumable_state : State → Bool
unfolding member
is_resumable_state s = member resumable s

-- `config.AgentStates`; its last member is the configuration key of the verify pass.
abbrev pub agent_states : List State
agent_states =
    scoping
    ∷ planning
    ∷ design_review
    ∷ implementing
    ∷ code_review
    ∷ analyzing
    ∷ fixing
    ∷ final_review
    ∷ other "VERIFYING"
    ∷ []

unfoldable pub is_agent_state : State → Bool
unfolding member
is_agent_state s = member agent_states s

unfoldable pub produces_code : State → Bool
unfolding same_state
produces_code s = same_state s implementing || same_state s fixing

is_restartable : State → Bool
is_restartable building = true
is_restartable testing = true
is_restartable flake_check = true
is_restartable merging = true
is_restartable _ = false

unfoldable pub needs_worktree_reconcile : State → Bool
unfolding is_agent_state is_restartable
needs_worktree_reconcile s = if is_agent_state s then true else is_restartable s

-- The gates of internal/review, and the two control rows.
pub data Gate : Type 0 where
  scope spec code merge release hold : Gate
  cancel resume : Gate

-- `review.GateFor`; `none` is the empty string.
unfoldable pub gate_for : State → Option Gate
gate_for await_scope = some scope
gate_for await_spec = some spec
gate_for await_code = some code
gate_for await_merge = some merge
gate_for await_release = some release
gate_for escalated = some hold
gate_for timed_out = some hold
gate_for _ = none
