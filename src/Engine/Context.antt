-- ===== src/Engine/Context.antt =====
-- What the state handlers share, in internal/engine/jobctx.go: the exchange directory, the baseline of a
-- state, commits, clean trees, commands, and the crash-resume of a worktree.
pub mod Frame
pub mod Claims
pub mod Agent
use sdlc_orchestrator.Common.{
  ℕ, zero, suc, ◌+◌, Bool, true, false, ◌&&◌, ◌||◌, not, List, [], ◌∷◌, ◌++◌, Option, none, some,
  String, str_eq, is_empty, if◌then◌else◌,
}
use sdlc_orchestrator.Engine.Job.{Piece, words, number, Job, Counters}
use sdlc_orchestrator.Engine.Rules.{Rules}
use sdlc_orchestrator.Engine.Bench.{
  Exchange, no_outputs, PhaseRun, GitOp, committed, reset_hard_clean, ensured_worktree, Outside,
  Kept, Bench, Fail, plain, Result, Act, pure, raise, ask, call, gets, ◌>>=◌, ◌>>◌, modify,
  raise_if, attempt, count, traced, note, set_head, job_of, counters_of,
}

unfoldable pub reset_exchange : Act (Unit {0})
reset_exchange = do
  attempt "remove .sdlc"
  modify (λ b. record b { exchange = no_outputs })
  attempt "make .sdlc/context"

-- `harvest`: reads the agent's file and writes it into the artifacts directory.
unfoldable pub harvest : (Exchange → Kept → Kept) → Act (Unit {0})
harvest put = do
  attempt "expected agent output missing"
  attempt "write artifact"
  modify (λ b. record b { kept = put b.exchange b.kept })

-- `stateBaseline`.
unfoldable pub read_baseline : Act String
read_baseline = do
  sha ← call "read branch head" (λ o t. o.sha t)
  count (λ c. record c { state_entry_head = sha })
  set_head sha
  pure sha

unfoldable pub state_baseline : Act String
unfolding read_baseline
state_baseline = do
  h ← gets (λ b. (counters_of b).state_entry_head)
  if str_eq h "" then read_baseline else pure h

unfoldable pub commit : Act (Unit {0})
commit = do
  sha ← call "commit" (λ o t. o.sha t)
  traced (committed sha)
  set_head sha
  attempt "update the job"

unfoldable pub discarded : Act (Unit {0})
discarded = do note (words "discarded_stray_edits" ∷ []); traced (reset_hard_clean "")

-- `discardTreeChanges`.
unfoldable pub discard_tree_changes : Act (Unit {0})
unfolding discarded
discard_tree_changes = do
  dirty ← ask (λ o t. not (o.fails t) && o.yes t)
  if dirty then discarded else pure tt

unfoldable pub reviewer_dirt : Act (Unit {0})
reviewer_dirt =
    traced (reset_hard_clean "") >> raise (plain (words "reviewer modified the tree" ∷ []))

-- `requireCleanTree`.
unfoldable pub require_clean_tree : Rules → Act (Unit {0})
unfolding reviewer_dirt
require_clean_tree r =
    if r.reviewer_diff_must_be_empty
    then (do dirty ← call "git status" (λ o t. o.yes t); if dirty then reviewer_dirt else pure tt)
    else pure tt

unfoldable pub exit_of : PhaseRun → Act (ℕ × String)
exit_of r = elim (r.exit) [
  | none ↦ raise (plain (words "could not run the command" ∷ []))
  | some n ↦ pure (n, r.log)
]

-- `runPhase`, under the semaphore of package resource: the exit code and the log.
unfoldable pub run_phase : String → List String → Act (ℕ × String)
unfolding exit_of
run_phase phase argv = do
  attempt "acquire build slot"
  note (words phase ∷ words " started" ∷ [])
  r ← ask (λ o t. o.phase t)
  exit_of r

-- `syncHead` on the head that git gives; the job's own is the one recorded.
unfoldable pub adopt_head : String → Act (Unit {0})
adopt_head actual = do
  set_head actual
  attempt "update the job"
  note (words "head_sha_resynced to " ∷ words actual ∷ [])

unfoldable pub sync_from : String → String → Act (Unit {0})
unfolding adopt_head
sync_from recorded actual =
    if str_eq actual "" || str_eq actual recorded then pure tt else adopt_head actual

unfoldable pub sync_present : Act (Unit {0})
unfolding sync_from
sync_present = do
  actual ← call "git rev-parse" (λ o t. o.sha t)
  recorded ← gets (λ b. (job_of b).head_sha)
  sync_from recorded actual

unfoldable pub sync_head : Act (Unit {0})
unfolding sync_present
sync_head = do present ← ask (λ o t. o.yes t); if present then sync_present else pure tt

-- The heads compared by `reconcile`.
unfoldable pub adopt : String → String → Act String
adopt what actual = do
  note (words what ∷ words actual ∷ [])
  set_head actual
  attempt "update the job"
  pure actual

unfoldable pub behind_or_diverged : String → Act String
unfolding adopt
behind_or_diverged actual = do
  behind ← ask (λ o t. not (o.fails t) && o.yes t)
  if behind
      then adopt "branch_behind_recorded" actual
      else (note (words "branch_diverged" ∷ [])
          >> raise (plain (words "branch diverged from the recorded head" ∷ [])))

unfoldable pub moved_branch : String → Act String
unfolding adopt behind_or_diverged
moved_branch actual = do
  ahead ← call "classify branch" (λ o t. o.yes t)
  if ahead then adopt "branch_advanced_outside_orchestrator" actual else behind_or_diverged actual

unfoldable pub reconcile_target : String → String → Act String
unfolding moved_branch
reconcile_target recorded actual =
    if str_eq recorded "" || str_eq recorded actual then pure actual else moved_branch actual

unfoldable pub discard_to : String → Act (Unit {0})
discard_to target = do
  note (words "reconcile_to " ∷ words target ∷ [])
  attempt "git reset"
  traced (reset_hard_clean target)

unfoldable pub reconcile_present : Act (Unit {0})
unfolding reconcile_target discard_to
reconcile_present = do
  recorded ← gets (λ b. (job_of b).head_sha)
  actual ← call "git rev-parse" (λ o t. o.sha t)
  dirty ← call "git status" (λ o t. o.yes t)
  target ← reconcile_target recorded actual
  if not dirty && str_eq target actual then pure tt else discard_to target

unfoldable pub provision : Act (Unit {0})
provision = attempt "provision worktree" >> traced ensured_worktree

-- `reconcile`.
unfoldable pub reconcile : Act (Unit {0})
unfolding reconcile_present provision
reconcile = do present ← ask (λ o t. o.yes t); if present then reconcile_present else provision
