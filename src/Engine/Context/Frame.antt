-- ===== src/Engine/Context/Frame.antt =====
-- The shared actions of internal/engine/jobctx.go merge nothing and leave the counters of retries alone.
use sdlc_orchestrator.Common.{ℕ, List, [], ◌∷◌, String, Option, none, some}
use sdlc_orchestrator.Engine.Bench.{Act, Exchange, Kept, PhaseRun, plain, pure, raise}
use sdlc_orchestrator.Engine.Bench.Frame.{Frame, Keeps, frames}
use sdlc_orchestrator.Engine.Job.{words}
use sdlc_orchestrator.Engine.Rules.{Rules}
use sdlc_orchestrator.Engine.Context.{
  reset_exchange, harvest, read_baseline, state_baseline, commit, discarded, discard_tree_changes,
  reviewer_dirt, require_clean_tree, exit_of, run_phase, adopt_head, sync_from, sync_present,
  sync_head, adopt, behind_or_diverged, moved_branch, reconcile_target, discard_to,
  reconcile_present, provision, reconcile,
}

module _ (fr : Frame) where
  pub reset_exchange-Keeps : Keeps fr reset_exchange
  unfolding reset_exchange
  reset_exchange-Keeps = search frames depth 20

  pub harvest-Keeps : (put : Exchange → Kept → Kept) → Keeps fr (harvest put)
  unfolding harvest
  harvest-Keeps put = search frames depth 40

  pub state_baseline-Keeps : Keeps fr state_baseline
  unfolding state_baseline read_baseline
  state_baseline-Keeps = search frames depth 40

  pub commit-Keeps : Keeps fr commit
  unfolding commit
  commit-Keeps = search frames depth 40

  pub discard_tree_changes-Keeps : Keeps fr discard_tree_changes
  unfolding discard_tree_changes discarded
  discard_tree_changes-Keeps = search frames depth 40

  pub require_clean_tree-Keeps : (rules : Rules) → Keeps fr (require_clean_tree rules)
  unfolding require_clean_tree reviewer_dirt
  require_clean_tree-Keeps rules = search frames depth 40

  -- How a command ended.
  pub exit_of-Keeps : (r : PhaseRun) → Keeps fr (exit_of r)
  unfolding exit_of
  exit_of-Keeps r = by_exit (r.exit)
    where
      by_exit :
          (e : Option ℕ)
          → Keeps fr (elim e as (λ x. Act (ℕ × String)) [
            | none ↦ raise (plain (words "could not run the command" ∷ []))
            | some n ↦ pure (n, r.log)
          ])
      by_exit none = search frames
      by_exit (some n) = search frames

  pub run_phase-Keeps : (phase : String) (argv : List String) → Keeps fr (run_phase phase argv)
  unfolding run_phase
  run_phase-Keeps phase argv = search (frames, exit_of-Keeps) depth 40

  pub sync_head-Keeps : Keeps fr sync_head
  unfolding sync_head sync_present sync_from adopt_head
  sync_head-Keeps = search frames depth 40

  pub reconcile-Keeps : Keeps fr reconcile
  unfolding reconcile reconcile_present provision reconcile_target moved_branch behind_or_diverged
      adopt discard_to
  reconcile-Keeps = search frames depth 40
