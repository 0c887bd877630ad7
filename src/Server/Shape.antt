-- ===== src/Server/Shape.antt =====
-- internal/server/shape.go: the pipeline strip, the progress bar and the membership sets.
pub mod Agrees
pub mod Strip
use sdlc_orchestrator.Common.{
  ℕ, zero, suc, ◌+◌, ◌*◌, ◌/◌, ltb, Bool, true, false, ◌&&◌, ◌||◌, not, List, [], ◌∷◌, Option, none,
  some, String, str_eq, length, if◌then◌else◌, ◌==◌,
}
use package.text.Mathlib.Text.{starts_with}
use sdlc_orchestrator.Engine.States
use sdlc_orchestrator.Engine.States.{State, Gate, member, text}

pub record Phase : Type 0 where
  pub label : String
  pub states : List State

abbrev pub phases : List Phase
phases =
    record {
      label = "PLANNING";
      states = States.created ∷ States.scoping ∷ States.await_scope ∷ States.planning ∷ [];
    }
    ∷ record { label = "DESIGN_REVIEW"; states = States.design_review ∷ States.await_spec ∷ [] }
    ∷ record { label = "IMPLEMENTING"; states = States.implementing ∷ [] }
    ∷ record { label = "CODE_REVIEW"; states = States.code_review ∷ States.await_code ∷ [] }
    ∷ record { label = "BUILDING"; states = States.building ∷ [] }
    ∷ record {
      label = "TESTING";
      states = States.testing ∷ States.flake_check ∷ States.analyzing ∷ States.fixing ∷ [];
    }
    ∷ record { label = "FINAL_REVIEW"; states = States.final_review ∷ [] }
    ∷ record { label = "MERGE"; states = States.await_merge ∷ States.merging ∷ [] }
    ∷ record {
      label = "RELEASE";
      states = States.await_release ∷ States.releasing ∷ States.completed ∷ [];
    }
    ∷ []

pub data Class : Type 0 where
  done now todo : Class

pub record PhaseView : Type 0 where
  pub label : String
  pub class : Class

-- The loop of `indexOfState` from phase `i` on; `none` is -1.
unfoldable pub index_from : ℕ → List Phase → State → Option ℕ
unfolding member
index_from i [] s = none
index_from i (p ∷ ps) s =
    let rest = index_from (i + 1) ps s in if member p.states s then some i else rest

unfoldable pub is_empty_text : State → Bool
is_empty_text (States.other t) = str_eq t ""
is_empty_text s = false

unfoldable pub index_of_state : State → Option ℕ
unfolding index_from is_empty_text
index_of_state s = if is_empty_text s then none else index_from 0 phases s

unfoldable pub or_prev : Option ℕ → Option ℕ → Option ℕ
or_prev (some i) prev = some i
or_prev none prev = prev

unfoldable pub phase_index : State → State → Option ℕ
unfolding index_of_state or_prev
phase_index s prev = or_prev (index_of_state s) (index_of_state prev)

unfoldable pub class_at : Option ℕ → ℕ → Class
class_at none i = todo
class_at (some at) i = if ltb i at then done else if i == at then now else todo

unfoldable pub views_from : Option ℕ → ℕ → List Phase → List PhaseView
unfolding class_at
views_from at i [] = []
views_from at i (p ∷ ps) =
    record { label = p.label; class = class_at at i } ∷ views_from at (i + 1) ps

unfoldable pub pipeline_for : State → State → List PhaseView
unfolding phase_index views_from
pipeline_for s prev = views_from (phase_index s prev) 0 phases

unfoldable pub percent : Option ℕ → ℕ
percent none = 0
percent (some at) = (at * 100) / length phases

unfoldable pub is_completed : State → Bool
is_completed States.completed = true
is_completed s = false

unfoldable pub phase_pct : State → State → ℕ
unfolding phase_index percent is_completed
phase_pct s prev = if is_completed s then 100 else percent (phase_index s prev)

-- The colours of `stateClass`.
pub data Colour : Type 0 where
  ok bad warn run : Colour

unfoldable pub state_class : State → Colour
unfolding text
state_class States.completed = ok
state_class States.failed = bad
state_class States.cancelled = bad
state_class States.escalated = warn
state_class States.timed_out = warn
state_class States.blocked_quota = warn
state_class States.blocked_network = warn
state_class s = if starts_with (text s) "AWAITING_" then warn else run

pub data Pill : Type 0 where
  bad_pill warn_pill info_pill neutral : Pill

unfoldable pub gate_class : Gate → Pill
gate_class States.hold = bad_pill
gate_class States.merge = warn_pill
gate_class States.release = warn_pill
gate_class States.scope = info_pill
gate_class States.spec = info_pill
gate_class States.code = info_pill
gate_class _ = neutral

abbrev pub terminal_states : List State
terminal_states = States.completed ∷ States.cancelled ∷ States.failed ∷ []

abbrev pub parked_states : List State
parked_states =
    States.await_scope ∷ States.await_spec ∷ States.await_code ∷ States.await_merge
    ∷ States.await_release ∷ []

abbrev pub held_states : List State
held_states = States.escalated ∷ States.timed_out ∷ []

abbrev pub backoff_states : List State
backoff_states = States.blocked_quota ∷ States.blocked_network ∷ []

unfoldable pub in_set : List State → State → Bool
unfolding member
in_set set s = member set s

unfoldable pub is_terminal_state : State → Bool
unfolding in_set
is_terminal_state s = in_set terminal_states s

unfoldable pub is_backoff_state : State → Bool
unfolding in_set
is_backoff_state s = in_set backoff_states s

unfoldable pub is_running : State → Bool
unfolding is_terminal_state is_backoff_state in_set
is_running s =
    not (is_terminal_state s)
    && (not (in_set parked_states s) && (not (in_set held_states s) && not (is_backoff_state s)))
