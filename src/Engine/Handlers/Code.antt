-- ===== src/Engine/Handlers/Code.antt =====
-- handleImplementing, handleCodeReview, handleFixing and handleFinalReview of internal/engine/handlers.go.
use sdlc_orchestrator.Common.{
  ℕ, suc, leb, Bool, false, not, List, [], ◌∷◌, ◌++◌, Option, none, some, String, str_eq, is_empty,
  length, if◌then◌else◌, Bytes, codes,
}
use sdlc_orchestrator.Artifact.{Plan, Implementation, blocking, check_step_coverage, skipped_steps}
use sdlc_orchestrator.Artifact.Load.{load_plan, load_implementation}
use sdlc_orchestrator.Engine.States
use sdlc_orchestrator.Engine.States.{State}
use sdlc_orchestrator.Engine.Job.{words, number, Counters}
use sdlc_orchestrator.Engine.Rules.{Rules}
use sdlc_orchestrator.Engine.Guard.{Glob, compile_globs, check_fix_diff}
use sdlc_orchestrator.Engine.Bench.{
  reset_hard_clean, plain, Act, pure, escalate, raise, call, gets, ◌>>=◌, ◌>>◌, raise_if, attempt,
  count, traced, note, set_head, counters_of,
}
use sdlc_orchestrator.Engine.Context.{reset_exchange, harvest, state_baseline, commit}
use sdlc_orchestrator.Engine.Context.Claims.{reconcile_claims}
use sdlc_orchestrator.Engine.Context.Agent.{run_agent}
use sdlc_orchestrator.Engine.Handlers.Review.{or_raise, reviewed}

abbrev pub all_codes : List String → List Bytes
all_codes [] = []
all_codes (s ∷ ss) = codes s ∷ all_codes ss

-- What the agent says it touched.
abbrev pub claimed_files : Implementation → List Bytes
claimed_files im = all_codes (im.files_changed ++ im.tests_added_or_changed)

-- `strings.TrimSpace` on the paths of an implementation's report.
module _ (rules : Rules) (trim_path : Bytes → Bytes) where
  unfoldable pub claims_true : Implementation → List String → Act (Unit {0})
  unfolding reconcile_claims
  claims_true im changed =
      raise_if
        (not (is_empty ((reconcile_claims trim_path (claimed_files im) (all_codes changed)).0)))
        (plain (words "reported as changed but unmodified in the worktree" ∷ []))

  unfoldable pub implementation_valid : Plan → Act (Unit {0})
  unfolding load_implementation or_raise check_step_coverage claims_true
  implementation_valid plan = do
    file ← gets (λ b. b.exchange.implementation)
    im ← or_raise (load_implementation file)
    raise_if (not (is_empty (check_step_coverage im plan)))
        (plain (words "steps_completed does not account for plan step(s)" ∷ []))
    changed ← call "git diff" (λ o t. o.names t)
    raise_if (is_empty changed) (plain (words "implementation produced no code changes" ∷ []))
    claims_true im changed

  -- The steps that were deliberately not done.
  unfoldable pub note_skipped : Implementation → Act (Unit {0})
  unfolding skipped_steps
  note_skipped im =
      if is_empty (skipped_steps im)
      then pure tt
      else note (words "plan_steps_skipped " ∷ number (length (skipped_steps im)) ∷ [])

  -- The note of the files that were changed and not reported is left out.
  unfoldable pub implementing_done : Implementation → Act State
  unfolding note_skipped commit
  implementing_done im = do note_skipped im; commit; pure States.code_review

  unfoldable pub handle_implementing : Act State
  unfolding reset_exchange load_plan or_raise state_baseline run_agent implementation_valid harvest
      load_implementation implementing_done
  handle_implementing = do
    reset_exchange
    plan_file ← gets (λ b. b.kept.plan)
    plan ← or_raise (load_plan plan_file)
    head ← state_baseline
    run_agent rules (implementation_valid plan)
    harvest (λ e k. record k { implementation = e.implementation })
    file ← gets (λ b. b.kept.implementation)
    im ← or_raise (load_implementation file)
    implementing_done im

abbrev pub code_round : ℕ → Counters → Counters
code_round n c = record c { code_review_rounds = n }

abbrev pub fix_for : String → Counters → Counters
fix_for source c = record c { fix_source = source }

-- Into FIXING, while there are attempts.
unfoldable pub to_fixing : Rules → String → Act State
to_fixing rules source = do
  attempts ← gets (λ b. (counters_of b).fix_attempts)
  if leb rules.max_fix_attempts attempts
      then escalate (words "fix budget is exhausted" ∷ [])
      else (count (fix_for source) >> pure States.fixing)

unfoldable pub code_blocked : Rules → ℕ → Act State
unfolding to_fixing
code_blocked rules round = do
  count (code_round round)
  if leb rules.max_code_review_rounds round
      then escalate
          (words "code review still blocks after " ∷ number round ∷ words " round(s)" ∷ [])
      else to_fixing rules "code_review"

unfoldable pub code_cleared : Rules → Act State
code_cleared rules =
    if rules.human_gate "code"
    then (note (words "awaiting_code_approval" ∷ []) >> pure States.await_code)
    else pure States.building

-- `stageDiffPatch` hands the whole change to the reviewer.
unfoldable pub stage_diff_patch : Act (Unit {0})
stage_diff_patch = attempt "git diff" >> attempt "write diff.patch"

unfoldable pub handle_code_review : Rules → Act State
unfolding reset_exchange stage_diff_patch reviewed blocking code_cleared code_blocked
handle_code_review rules = do
  round ← gets (λ b. suc (counters_of b).code_review_rounds)
  reset_exchange
  stage_diff_patch
  r ← reviewed rules rules.code_review_blocks_at
  if is_empty (blocking rules.code_review_blocks_at r)
      then code_cleared rules
      else code_blocked rules round

-- The classification that the test-file policy reads.
unfoldable pub fix_classification : Counters → String
fix_classification c = if str_eq c.fix_source "analysis" then c.last_analysis else ""

abbrev pub attempted : ℕ → Counters → Counters
attempted n c = record c { fix_attempts = n }

abbrev pub fixed : Counters → Counters
fixed c = record c { fix_source = ""; human_reject_reason = "" }

unfoldable pub fix_valid : Act (Unit {0})
unfolding load_implementation or_raise
fix_valid = do file ← gets (λ b. b.exchange.fix); im ← or_raise (load_implementation file); pure tt

-- A fix that touched tests is thrown away, back to where the state began.
unfoldable pub fix_discarded : String → Act State
fix_discarded head = do
  traced (reset_hard_clean head)
  set_head head
  escalate (words "fix for code_bug touched test files" ∷ [])

unfoldable pub fix_kept : Act State
unfolding commit
fix_kept = do commit; count fixed; pure States.building

abbrev pub requests_test_change : Implementation → Bool
requests_test_change im = elim (im.test_change_requested) [
  | none ↦ false
  | some s ↦ not (str_eq s "")
]

-- The error of `CompileGlobs`.
unfoldable pub or_bad_glob : Option (List Glob) → Act (List Glob)
or_bad_glob none = raise (plain (words "bad glob" ∷ []))
or_bad_glob (some globs) = pure globs

unfoldable pub fix_checked : Rules → String → String → List String → List Glob → Act State
unfolding check_fix_diff fix_discarded fix_kept
fix_checked rules head classification changed globs =
    if is_empty (check_fix_diff changed classification rules.protect_tests_on_code_bug_fix globs)
    then fix_kept
    else fix_discarded head

unfoldable pub fix_judged : Rules → String → String → List String → Act State
unfolding compile_globs or_bad_glob fix_checked
fix_judged rules head classification changed =
    if is_empty changed
    then escalate (words "fix attempt produced no changes" ∷ [])
    else (or_bad_glob (compile_globs rules.regexp rules.test_file_globs)
        >>= fix_checked rules head classification changed)

unfoldable pub handle_fixing : Rules → Act State
unfolding reset_exchange fix_classification state_baseline run_agent fix_valid load_implementation
    or_raise harvest fix_judged
handle_fixing rules = do
  n ← gets (λ b. suc (counters_of b).fix_attempts)
  reset_exchange
  classification ← gets (λ b. fix_classification (counters_of b))
  head ← state_baseline
  run_agent rules fix_valid
  file ← gets (λ b. b.exchange.fix)
  im ← or_raise (load_implementation file)
  harvest (λ e k. k)
  count (attempted n)
  if requests_test_change im
      then escalate (words "fix agent requests a test change" ∷ [])
      else (call "git diff" (λ o t. o.names t) >>= fix_judged rules head classification)

unfoldable pub handle_final_review : Rules → Act State
unfolding reset_exchange stage_diff_patch reviewed blocking to_fixing
handle_final_review rules = do
  reset_exchange
  stage_diff_patch
  r ← reviewed rules rules.final_review_blocks_at
  if is_empty (blocking rules.final_review_blocks_at r)
      then (note (words "awaiting_merge_approval" ∷ []) >> pure States.await_merge)
      else to_fixing rules "final_review"
