-- ===== src/Engine/States/Sets.antt =====
-- How the predicates of internal/engine/states.go divide the states between them.
use sdlc_orchestrator.Common.{
  ◌≡◌, ◌≢◌, refl, ◌↔◌, inl, inr, true, false, ◌||◌, List, [], ◌∷◌, String, arith, str_eq, str_eq→eq,
  Bool-cases,
}
use sdlc_orchestrator.Engine.States
use sdlc_orchestrator.Engine.States.{
  State, other, text, find_state, of_text, constants, is_suspended, is_terminal, is_held, is_parked,
  is_resumable_state, is_agent_state, needs_worktree_reconcile, gate_for, Gate,
}

-- Nobody dispatches work in these states.
abbrev pub Idle : State → Type 0
Idle s = (is_terminal s || (is_parked s || (is_held s || is_suspended s))) ≡ true

text-find_state : (ss : List State) (t : String) → text (find_state ss t) ≡ t
unfolding find_state
text-find_state [] t = unfold text in refl
text-find_state (s ∷ ss) t = elim (Bool-cases (str_eq (text s) t)) [
  | inl e ↦ rw e (str_eq→eq (text s) t e)
  | inr e ↦ rw e (text-find_state ss t)
]

-- Reading a string and writing it gives the string back, whatever it is.
pub text-of_text : (t : String) → text (of_text t) ≡ t
unfolding of_text
text-of_text t = text-find_state constants t

-- Every constant is read back from its own text.
of_text-text : (s : State) → ((t : String) → s ≢ other t) → of_text (text s) ≡ s
unfolding of_text text
of_text-text (other t) h = absurd (h t refl)
of_text-text s h = refl

-- A state that `sdlc resume` may enter is none of the terminal, parked, held and suspended ones, and
-- every constant is one or the other, but CREATED.
pub resumable_iff :
    (s : State)
    → ((t : String) → s ≢ other t)
    → s ≢ States.created
    → (is_resumable_state s ≡ true)
      ↔ ((is_terminal s || (is_parked s || (is_held s || is_suspended s))) ≡ false)
unfolding is_resumable_state is_terminal is_parked is_held is_suspended
resumable_iff (other t) h k = absurd (h t refl)
resumable_iff States.created h k = absurd (k refl)
resumable_iff s h k = ground arith
