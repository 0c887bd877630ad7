-- ===== src/Engine/Job/Announce/Once.antt =====
-- How often the notice of internal/engine/gate.go is printed.
use sdlc_orchestrator.Common.{
  ◌+◌, ◌≡◌, ◌<◌, ◌⊎◌, inl, inr, refl, sym, ap, ◌∙◌, ◌||◌, length, if_cases, true, some, arith,
  str_eq_refl,
}
use sdlc_orchestrator.Engine.States
use sdlc_orchestrator.Engine.States.{State, Gate, same_state, index}
use sdlc_orchestrator.Engine.Job.{Desk, Settings, World, same_gate}
use sdlc_orchestrator.Engine.Job.Announce.{
  seen_notice, too_soon, some_pending, pending_gates_for, announced_at, announce_gate,
}

same_gate_refl : (g : Gate) → same_gate g g ≡ true
unfolding same_gate
same_gate_refl Gate.scope = refl
same_gate_refl _ = refl

same_state_refl : (s : State) → same_state s s ≡ true
unfolding same_state index
same_state_refl (States.other s) = str_eq_refl s
same_state_refl States.created = refl
same_state_refl _ = refl

-- The notice just remembered is the one that is seen.
seen_after :
    (w : World) (g : Gate) (k : Desk)
    → k.announced ≡ some (announced_at w g k)
    → seen_notice g k ≡ some (announced_at w g k)
unfolding seen_notice announced_at
seen_after w g k h = rw (h, same_gate_refl g, same_state_refl k.job.state) refl

soon :
    (c : Settings) (w w' : World) (g : Gate) (k : Desk)
    → (c.gate_reminder_interval ≡ 0) ⊎ (w'.now < w.now + c.gate_reminder_interval)
    → too_soon c w' (some (announced_at w g k)) ≡ true
unfolding too_soon announced_at
soon c w w' g k (inl h) = ground arith
soon c w w' g k (inr h) = ground arith

at_same :
    (w : World) (g : Gate) (x k : Desk)
    → x.job.state ≡ k.job.state
    → announced_at w g x ≡ announced_at w g k
unfolding announced_at
at_same w g x k same = ap (λ (s : State). record { gate = g; state = s; last = w.now }) same

silent :
    (c : Settings) (w w' : World) (g : Gate) (x k : Desk)
    → x.announced ≡ some (announced_at w g k)
    → x.job.state ≡ k.job.state
    → (c.gate_reminder_interval ≡ 0) ⊎ (w'.now < w.now + c.gate_reminder_interval)
    → announce_gate c w' g x ≡ x
unfolding announce_gate
silent c w w' g x k h same close =
    rw (seen_after w g x (h ∙ ap some (sym (at_same w g x k same))), soon c w w' g x close) refl

-- A notice just printed is not printed again before the reminder interval has passed, and where the
-- interval is 0 it is never repeated while the job stays at its gate: a second call leaves all as it is.
pub announce_gate-once :
    (c : Settings) (w w' : World) (g : Gate) (k : Desk)
    → length k.printed < length (announce_gate c w g k).printed
    → (c.gate_reminder_interval ≡ 0) ⊎ (w'.now < w.now + c.gate_reminder_interval)
    → announce_gate c w' g (announce_gate c w g k) ≡ announce_gate c w g k
unfolding announce_gate
announce_gate-once c w w' g k more close =
    if_cases (λ (x : Desk). length k.printed < length x.printed → announce_gate c w' g x ≡ x)
      (too_soon c w (seen_notice g k) || some_pending w k (pending_gates_for g)) _ _
      (λ e less. ground (arith, less)) (λ e less. silent c w w' g _ k refl refl close) more
