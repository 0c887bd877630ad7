-- ===== src/Server/Examples.antt =====
-- Runs of the model of internal/server/shape.go at one state.
use sdlc_orchestrator.Common.{◌≡◌, not, ◌||◌, map}
use sdlc_orchestrator.Engine.States
use sdlc_orchestrator.Engine.States.{
  State, member, same_state, index, is_terminal, is_parked, is_held, is_suspended,
}
use sdlc_orchestrator.Server.Shape.{
  is_running, is_terminal_state, is_backoff_state, in_set, parked_states, held_states, phases,
  pipeline_for,
}
use sdlc_orchestrator.Server.Shape.Agrees.{is_running_lem}
use sdlc_orchestrator.Server.Shape.Strip.{labels, count_now, Marks, pipeline_for_lem}

is_running_lem_example :
    (is_terminal_state States.fixing ≡ is_terminal States.fixing)
    × (in_set parked_states States.fixing ≡ is_parked States.fixing)
    × (in_set held_states States.fixing ≡ is_held States.fixing)
    × (is_backoff_state States.fixing ≡ is_suspended States.fixing)
    × (is_running States.fixing
        ≡ not (
            is_terminal States.fixing
            || (is_parked States.fixing || (is_held States.fixing || is_suspended States.fixing))))
is_running_lem_example = is_running_lem States.fixing

pipeline_for_lem_example :
    (labels (pipeline_for States.escalated States.fixing) ≡ map (λ p. p.label) phases)
    × Marks States.fixing phases (pipeline_for States.escalated States.fixing)
    × (count_now (pipeline_for States.escalated States.fixing) ≡ 1)
unfolding member same_state index
pipeline_for_lem_example = pipeline_for_lem States.escalated States.fixing
