-- ===== src/Engine/Handlers/Delivery.antt =====
-- handleMerging and handleReleasing of internal/engine/handlers.go.
use sdlc_orchestrator.Common.{
  ℕ, suc, ◌+◌, ltb, Bool, ◌&&◌, not, List, [], ◌∷◌, some, String, str_eq, is_empty, if◌then◌else◌,
  ◌==◌,
}
use sdlc_orchestrator.Engine.States
use sdlc_orchestrator.Engine.States.{State}
use sdlc_orchestrator.Engine.Job.{words, number, Counters}
use sdlc_orchestrator.Engine.Rules.{Rules}
use sdlc_orchestrator.Engine.Bench.{
  PhaseRun, rebased_onto, checked_out, merged_no_ff, pushed, Act, pure, escalate, ask, call, gets,
  ◌>>=◌, ◌>>◌, modify, count, traced, with_job, note, set_head, counters_of,
}
use sdlc_orchestrator.Engine.Context.{run_phase, exit_of}

-- A call whose failure escalates the job.
unfoldable pub or_escalate : String → Act (Unit {0})
or_escalate what = do
  failed ← ask (λ o t. o.fails t)
  if failed then escalate (words what ∷ []) else pure tt

unfoldable pub fetch : Act (Unit {0})
fetch = do
  failed ← ask (λ o t. o.fails t)
  if failed then note (words "fetch_failed" ∷ []) else pure tt

unfoldable pub verify_builds : List (List String) → Act (Unit {0})
unfolding run_phase
verify_builds [] = pure tt
verify_builds (argv ∷ cmds) =
    let rest = verify_builds cmds in
    run_phase "verify-rebase" argv >>= λ r.
    if r.0 == 0
    then rest
    else escalate (words "post-rebase verification build failed; log: " ∷ words (r.1) ∷ [])

unfoldable pub rebase : Rules → Act (Unit {0})
unfolding or_escalate verify_builds
rebase rules = do
  or_escalate "rebase"
  traced (rebased_onto rules.default_branch)
  sha ← ask (λ o t. o.sha t)
  set_head sha
  if str_eq rules.verify_after_rebase "build" then verify_builds rules.build_commands else pure tt

unfoldable pub checkout : Rules → Act (Unit {0})
unfolding or_escalate
checkout rules = do
  cur ← call "current branch" (λ o t. o.branch t)
  if str_eq cur rules.default_branch
      then pure tt
      else (or_escalate "checkout" >> traced (checked_out rules.default_branch))

unfoldable pub push_if : Rules → Bool → Act (Unit {0})
unfolding or_escalate
push_if rules has_remote =
    if str_eq rules.push "auto" && has_remote
    then (or_escalate "merged locally but push failed" >> traced (pushed rules.default_branch))
    else pure tt

unfoldable pub handle_merging : Rules → Act State
unfolding fetch rebase checkout or_escalate push_if
handle_merging rules = do
  has_remote ← call "git remote" (λ o t. o.yes t)
  if has_remote then fetch else pure tt
  if rules.rebase_before_merge then rebase rules else pure tt
  checkout rules
  or_escalate "merge"
  traced merged_no_ff
  push_if rules has_remote
  note (words "merged into " ∷ words rules.default_branch ∷ [])
  pure States.await_release

abbrev pub release_tried : ℕ → Counters → Counters
release_tried n c = record c { release_retries = n }

-- The next try waits for its backoff.
unfoldable pub retry_later : Rules → ℕ → Act State
unfolding with_job
retry_later rules n = do
  now ← ask (λ o t. o.clock t)
  modify (with_job (λ j. record j { resume_after = some (now + rules.release_retry_backoff) }))
  note (words "ship_failed, attempt " ∷ number n ∷ [])
  pure States.releasing

unfoldable pub ship_failed : Rules → ℕ → Act State
unfolding retry_later
ship_failed rules n = do
  count (release_tried n)
  if ltb rules.max_release_retries n
      then escalate (words "ship command failed " ∷ number n ∷ words " times" ∷ [])
      else retry_later rules n

unfoldable pub resume_ship : Rules → ℕ → Act PhaseRun
resume_ship rules n =
    if ltb 1 n && rules.auto_resume_halt && not (is_empty rules.resume_command)
    then (ask (λ o t. o.phase t) >>= λ r. ask (λ o t. o.phase t))
    else ask (λ o t. o.phase t)

unfoldable pub handle_releasing : Rules → Act State
unfolding resume_ship exit_of ship_failed
handle_releasing rules = do
  n ← gets (λ b. suc (counters_of b).release_retries)
  run ← resume_ship rules n
  r ← exit_of run
  if r.0 == 0 then (note (words "shipped" ∷ []) >> pure States.completed) else ship_failed rules n
