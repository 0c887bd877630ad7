-- ===== src/Server/Shape/Agrees.antt =====
-- The sets that internal/server/shape.go restates, against the engine's own predicates.
use sdlc_orchestrator.Common.{◌≡◌, refl, not, ◌||◌}
use sdlc_orchestrator.Engine.States
use sdlc_orchestrator.Engine.States.{
  State, other, is_terminal, is_parked, is_held, is_suspended, is_resumable_state, gate_for, Gate,
}
use sdlc_orchestrator.Server.Shape.{
  is_running, is_terminal_state, is_backoff_state, in_set, parked_states, held_states,
}

-- The dashboard's four sets are the engine's four predicates, on every state and on every other
-- string, and it counts a job as running exactly if the engine's predicates name none of them.
pub is_running_lem :
    (s : State)
    → (is_terminal_state s ≡ is_terminal s)
      × (in_set parked_states s ≡ is_parked s)
      × (in_set held_states s ≡ is_held s)
      × (is_backoff_state s ≡ is_suspended s)
      × (is_running s ≡ not (is_terminal s || (is_parked s || (is_held s || is_suspended s))))
unfolding is_running is_terminal is_parked is_held is_suspended
is_running_lem States.created = (refl, refl, refl, refl, refl)
is_running_lem _ = (refl, refl, refl, refl, refl)
