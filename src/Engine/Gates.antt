-- ===== src/Engine/Gates.antt =====
-- `handleGate` of internal/engine/engine.go: the decision that a parked job waits for.
pub mod Edges
use sdlc_orchestrator.Common.{
  ℕ, suc, ltb, leb, Bool, true, false, List, [], ◌∷◌, Option, none, some, String, length, map,
  is_empty, if◌then◌else◌,
}
use sdlc_orchestrator.Engine.States.{
  State, scoping, planning, implementing, building, fixing, merging, releasing, completed,
  cancelled, escalated, Gate, gate_for,
}
use sdlc_orchestrator.Engine.Job.{
  Piece, words, number, Counters, Job, Decision, approve, reject, Approval, Detail, decided, waived,
  Desk, Settings, World, event, transition, hold, held_for, cleanup, pending_approval, consume,
}
use sdlc_orchestrator.Artifact.{OpenQuestion, Problem, blocking_questions}
use sdlc_orchestrator.Artifact.Load.{Loaded, loaded}

abbrev pub question_ids : List OpenQuestion → List String
question_ids [] = []
question_ids (q ∷ qs) = q.id ∷ question_ids qs

-- The questions that an approval waives, where `LoadProblem` returns a problem.
unfoldable pub waive : Loaded Problem → Desk → Desk
unfolding blocking_questions event
waive (loaded p) k =
    if is_empty (blocking_questions p)
    then k
    else event (waived (question_ids (blocking_questions p))) k
waive _ k = k

unfoldable pub with_counters : (Counters → Counters) → Desk → Desk
with_counters f k = record k { job = record (k.job) { counters = f k.job.counters } }

abbrev pub one_more_round : Counters → Counters
one_more_round c = record c { scope_rounds = suc c.scope_rounds }

abbrev pub objection : String → Counters → Counters
objection reason c = record c { human_reject_reason = reason }

abbrev pub human_fix : String → Counters → Counters
human_fix reason c = record c { human_reject_reason = reason; fix_source = "human" }

unfoldable pub cancel_at : Settings → World → String → Approval → Desk → Desk
unfolding transition cleanup
cancel_at c w note a k = cleanup c w (transition w cancelled (words note ∷ words a.reason ∷ []) k)

unfoldable pub resumes_at : State → Desk → Desk
resumes_at s k = record k { job = record (k.job) { prev_state = s } }

abbrev pub unresolved : ℕ → String → List Piece
unresolved n reason =
    words "scope still unresolved after "
    ∷ number n
    ∷ words " round(s); see problem.json and the gate history. Last answer: "
    ∷ words reason
    ∷ []

-- A rejection at the scope gate, the round counted already.
unfoldable pub scope_again : Settings → World → Approval → Desk → Desk
unfolding resumes_at hold with_counters transition
scope_again c w a k =
    if leb c.max_scope_rounds k.job.counters.scope_rounds
    then resumes_at scoping (hold w escalated (unresolved k.job.counters.scope_rounds a.reason) k)
    else transition w scoping (words "scope rejected: " ∷ words a.reason ∷ [])
        (with_counters (objection a.reason) k)

unfoldable pub back_to : World → (Counters → Counters) → State → String → Approval → Desk → Desk
unfolding with_counters transition
back_to w f s note a k = transition w s (words note ∷ words a.reason ∷ []) (with_counters f k)

-- The arms of the switch, on the row that is consumed and recorded already.
unfoldable pub decide :
    Settings → World → Loaded Problem → Approval → Desk → Gate → Decision → Bool → Desk
unfolding waive with_counters cancel_at scope_again back_to held_for transition cleanup
decide c w prob a k Gate.scope approve _ =
    transition w planning (words "scope approved" ∷ []) (waive prob k)
decide c w prob a k Gate.scope reject true = cancel_at c w "scope rejected (cancelled): " a k
decide c w prob a k Gate.scope reject false = scope_again c w a (with_counters one_more_round k)
decide c w prob a k Gate.spec approve _ = transition w implementing (words "spec approved" ∷ []) k
decide c w prob a k Gate.spec reject true = cancel_at c w "spec rejected (cancelled): " a k
decide c w prob a k Gate.spec reject false =
    back_to w (objection a.reason) planning "spec rejected: " a k
decide c w prob a k Gate.code approve _ = transition w building (words "code approved" ∷ []) k
decide c w prob a k Gate.code reject true = cancel_at c w "code rejected (cancelled): " a k
decide c w prob a k Gate.code reject false =
    back_to w (human_fix a.reason) fixing "code rejected: " a k
decide c w prob a k Gate.merge approve _ = transition w merging (words "merge approved" ∷ []) k
decide c w prob a k Gate.merge reject true = cancel_at c w "merge rejected (cancelled): " a k
decide c w prob a k Gate.merge reject false =
    back_to w (human_fix a.reason) fixing "merge rejected: " a k
decide c w prob a k Gate.release approve _ =
    transition w releasing (words "release approved" ∷ []) k
decide c w prob a k Gate.release reject _ = cleanup c w (
    transition w completed (words "merged; release rejected: " ∷ words a.reason ∷ [])
      (held_for (words "merged; release rejected: " ∷ words a.reason ∷ []) k))
decide c w prob a k _ _ _ = k

unfoldable pub gate_row : Settings → World → Loaded Problem → Gate → Approval → Desk → Desk
unfolding decide consume event
gate_row c w prob g a k =
    decide c w prob a (event (decided g a.decision a.reason) (consume a.id k)) g a.decision a.cancel

unfoldable pub await_row : Settings → World → Loaded Problem → Gate → Desk → Desk
unfolding pending_approval gate_row
await_row c w prob g k = elim (pending_approval w g k) [
  | none ↦ k
  | some none ↦ k
  | some (some a) ↦ gate_row c w prob g a k
]

unfoldable pub handle_gate : Settings → World → Loaded Problem → Desk → Desk
unfolding gate_for await_row
handle_gate c w prob k = elim (gate_for k.job.state) [
  | none ↦ k
  | some Gate.hold ↦ k
  | some g ↦ await_row c w prob g k
]
