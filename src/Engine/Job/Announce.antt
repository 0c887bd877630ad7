-- ===== src/Engine/Job/Announce.antt =====
-- internal/engine/gate.go: when the notice of a gate is printed.
pub mod Once
use sdlc_orchestrator.Common.{
  ℕ, ◌-◌, ltb, Bool, true, false, ◌&&◌, ◌||◌, not, List, [], ◌∷◌, ◌++◌, Option, none, some, is_some,
  if◌then◌else◌, ◌==◌,
}
use sdlc_orchestrator.Engine.States.{State, Gate, same_state}
use sdlc_orchestrator.Engine.Job.{
  Approval, Notice, Desk, Settings, World, same_gate, pending_approval,
}

abbrev pub pending_gates_for : Gate → List Gate
pending_gates_for Gate.hold = Gate.resume ∷ Gate.cancel ∷ []
pending_gates_for g = g ∷ Gate.cancel ∷ []

-- The notice that is remembered, where it is about this gate in this state.
unfoldable pub seen_notice : Gate → Desk → Option Notice
unfolding same_gate same_state
seen_notice g k = elim (k.announced) [
  | none ↦ none
  | some n ↦
      if not (same_gate n.gate g) || not (same_state n.state k.job.state) then none else some n
]

-- Whether the notice was printed too recently to be printed again.
unfoldable pub too_soon : Settings → World → Option Notice → Bool
too_soon c w none = false
too_soon c w (some n) =
    c.gate_reminder_interval == 0 || ltb (w.now - n.last) c.gate_reminder_interval

-- Whether one of the gates has a row; a read that fails counts as none.
unfoldable pub some_pending : World → Desk → List Gate → Bool
unfolding pending_approval
some_pending w k [] = false
some_pending w k (g ∷ gs) = elim (pending_approval w g k) [
  | none ↦ some_pending w k gs
  | some a ↦ is_some a || some_pending w k gs
]

unfoldable pub announced_at : World → Gate → Desk → Notice
announced_at w g k = record { gate = g; state = k.job.state; last = w.now }

unfoldable pub announce_gate : Settings → World → Gate → Desk → Desk
unfolding seen_notice too_soon some_pending announced_at
announce_gate c w g k =
    if too_soon c w (seen_notice g k) || some_pending w k (pending_gates_for g)
    then k
    else record k {
      announced = some (announced_at w g k);
      printed = k.printed ++ (is_some (seen_notice g k) ∷ []);
    }
