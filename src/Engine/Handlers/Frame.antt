-- ===== src/Engine/Handlers/Frame.antt =====
-- The state handlers of internal/engine/handlers.go: what they leave of the counters, the merges and the state
-- of a job, whatever the world answers and however they end.
pub mod Design
pub mod Code
pub mod Phases
pub mod Delivery
use sdlc_orchestrator.Common.{
  ℕ, zero, suc, ◌≡◌, ◌≤◌, refl, ap, sym, subst, Bool, true, false, List, [], ◌∷◌, Option, none,
  some, String, arith, Bytes,
}
use sdlc_orchestrator.Artifact.{Severity, Review}
use sdlc_orchestrator.Artifact.Load.{Loaded, loaded, unreadable, invalid}
use sdlc_orchestrator.Engine.Verify.{Verified, no_pass, stopped, verified, verify_findings}
use sdlc_orchestrator.Engine.Verify.Spent.{SpentFrom, verify_findings-SpentFrom}
use sdlc_orchestrator.Engine.Rules.{Rules}
use sdlc_orchestrator.Engine.Bench.{
  Outside, Bench, Result, Act, pure, raise, call, ask, gets, ◌>>=◌, ◌>>◌, modify, count, with_job,
  with_counters, counters_of, attempt,
}
use sdlc_orchestrator.Engine.Bench.Frame.{
  Frame, Framed, Framed-trans, Keeps, bind-Keeps, pure-Keeps, raise-Keeps, ask-Keeps, call-Keeps,
  gets-Keeps, if-Keeps, raise_if-Keeps, count-Keeps, traced-Keeps, note-Keeps, set_head-Keeps,
  modify-Keeps, frames, same_le, next_le, same_cap,
}
use sdlc_orchestrator.Engine.Context.{reset_exchange, harvest}
use sdlc_orchestrator.Engine.Context.Frame.{
  reset_exchange-Keeps, harvest-Keeps, state_baseline-Keeps, commit-Keeps,
  discard_tree_changes-Keeps, require_clean_tree-Keeps, run_phase-Keeps, exit_of-Keeps,
}
use sdlc_orchestrator.Engine.Context.Agent.{run_agent}
use sdlc_orchestrator.Engine.Context.Agent.Frame.{loud, run_agent-Keeps}
use sdlc_orchestrator.Engine.Context.Agent.Budget.{quietly, run_agent-Spent}
use sdlc_orchestrator.Engine.Handlers.Review.{
  or_raise, used_now, after_pass, verify_pass, review_valid, reviewed,
}

-- A handler may invoke agents, within the job's budget.
abbrev pub calm : Rules → Frame
calm rules = record { apart = true; quiet = false; cap = some rules.max_agent_invocations }

pub or_raise-Keeps {ℓ} : {A : Type ℓ} (fr : Frame) (l : Loaded A) → Keeps fr (or_raise l)
unfolding or_raise
or_raise-Keeps fr (loaded a) = search frames
or_raise-Keeps fr unreadable = search frames
or_raise-Keeps fr (invalid msg) = search frames

from_some : Option ℕ → ℕ
from_some none = 0
from_some (some n) = n

module _ (rules : Rules) where
  pub run_agent-calm :
      (validate : Act (Unit {0}))
      → Keeps quietly validate
      → Keeps (loud true) validate
      → Keeps (calm rules) (run_agent rules validate)
  unfolding Keeps from_some
  run_agent-calm validate hq hl o b =
      let f = run_agent-Keeps true rules validate hl o b in
      let within = (run_agent-Spent rules validate o hq b).1 in
      (f.0, f.1, f.2, λ e. ground (arith, e), f.4, λ n e. rw (← ap from_some e) within)

  used_now-calm :
      (used : ℕ) (b : Bench)
      → (counters_of b).agent_invocations ≤ used
      → ((counters_of b).agent_invocations ≤ rules.max_agent_invocations
          → used ≤ rules.max_agent_invocations)
      → Framed (calm rules) b (with_counters (used_now used) b)
  unfolding with_counters with_job from_some
  used_now-calm used b h k =
      (h, omega arith, λ e. refl, λ e. ground (arith, e), refl, λ n e. rw (← ap from_some e) k)

  written-calm : (r : Review) → Keeps (calm rules) (attempt "write verified artifact" >> pure r)
  written-calm r = search frames depth 20

  after_pass-calm :
      (v : Verified) (o : Outside) (b : Bench)
      → SpentFrom rules.max_agent_invocations (counters_of b).agent_invocations v
      → Framed (calm rules) b (after_pass v o b).1
  unfolding Keeps after_pass ◌>>=◌ count modify raise pure
  after_pass-calm (no_pass r) o b h =
      (omega arith, omega arith, λ e. refl, λ e. refl, refl, λ n e l. l)
  after_pass-calm (stopped e used) o b h = used_now-calm used b (h.0) (h.1)
  after_pass-calm (verified r survivors downgraded used) o b h =
      let b' = with_counters (used_now used) b in
      Framed-trans (calm rules) b b' (((attempt "write verified artifact" >> pure r) o b').1)
        (used_now-calm used b (h.0) (h.1)) (written-calm r o b')

  pub verify_pass-calm :
      (threshold : Severity) (r : Review) → Keeps (calm rules) (verify_pass rules threshold r)
  unfolding Keeps verify_pass ◌>>=◌ gets ask
  verify_pass-calm threshold r o b =
      after_pass-calm _ o (record b { calls = suc b.calls })
        (verify_findings-SpentFrom rules.trim_space rules.mint rules.max_agent_invocations
          rules.verify_votes rules.verify_min_confirm (o.verifier b.calls) threshold r
          ((counters_of b).agent_invocations))

  pub review_valid-Keeps : (fr : Frame) → Keeps fr (review_valid rules)
  unfolding review_valid
  review_valid-Keeps fr = search (frames, or_raise-Keeps, require_clean_tree-Keeps) depth 40

  pub reviewed-calm : (threshold : Severity) → Keeps (calm rules) (reviewed rules threshold)
  unfolding reviewed
  reviewed-calm threshold =
      search
        (
          frames, run_agent-calm, review_valid-Keeps, harvest-Keeps, or_raise-Keeps,
          verify_pass-calm,
        )
        depth 40

-- What the frames of the handlers are made of.
pub ruleset calms = (
  bind-Keeps, pure-Keeps, ask-Keeps, call-Keeps, gets-Keeps, if-Keeps, raise_if-Keeps, raise-Keeps,
  note-Keeps, set_head-Keeps, modify-Keeps, traced-Keeps, count-Keeps, same_le, next_le, same_cap,
  reset_exchange-Keeps, harvest-Keeps, state_baseline-Keeps, commit-Keeps,
  discard_tree_changes-Keeps, require_clean_tree-Keeps, run_phase-Keeps, exit_of-Keeps,
  or_raise-Keeps, run_agent-calm, reviewed-calm,
)
