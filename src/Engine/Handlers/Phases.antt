-- ===== src/Engine/Handlers/Phases.antt =====
-- handleBuilding, handleTesting, handleFlakeCheck and handleAnalyzing of internal/engine/handlers.go.
use sdlc_orchestrator.Common.{
  ℕ, zero, suc, ◌+◌, leb, ltb, Bool, true, false, ◌&&◌, not, List, [], ◌∷◌, ◌++◌, Option, none,
  some, String, str_eq, is_empty, if◌then◌else◌, ◌==◌,
}
use sdlc_orchestrator.Artifact.{Analysis}
use sdlc_orchestrator.Artifact.Load.{load_analysis}
use sdlc_orchestrator.Engine.States
use sdlc_orchestrator.Engine.States.{State}
use sdlc_orchestrator.Engine.Job.{words, number, Counters}
use sdlc_orchestrator.Engine.Rules.{Rules}
use sdlc_orchestrator.Engine.Bench.{
  Act, pure, escalate, ask, call, gets, ◌>>=◌, ◌>>◌, modify, count, with_job, note, counters_of,
}
use sdlc_orchestrator.Engine.Context.{reset_exchange, harvest, require_clean_tree, run_phase}
use sdlc_orchestrator.Engine.Context.Agent.{run_agent}
use sdlc_orchestrator.Engine.Handlers.Review.{or_raise}

abbrev pub failed_in : String → String → Counters → Counters
failed_in phase log c = record c { failed_phase = phase; last_failure_log = log }

-- The failed phase and its log are recorded, and the job goes to `s`.
unfoldable pub fail_to : String → String → State → Act State
fail_to phase log s = count (failed_in phase log) >> pure s

unfoldable pub build_all : List (List String) → Act State
unfolding run_phase fail_to
build_all [] = pure States.testing
build_all (argv ∷ cmds) =
    let rest = build_all cmds in
    run_phase "build" argv >>= λ r.
    if r.0 == 0 then rest else fail_to "build" (r.1) States.analyzing

-- The commands of the build, and the linter where it runs here.
unfoldable pub build_list : Rules → List (List String)
build_list rules =
    if str_eq rules.lint_run_in "building" && not (is_empty rules.lint_command)
    then rules.build_commands ++ (rules.lint_command ∷ [])
    else rules.build_commands

unfoldable pub handle_building : Rules → Act State
unfolding build_all build_list
handle_building rules = build_all (build_list rules)

-- Five minutes, in nanoseconds, as `time.Duration` counts.
abbrev pub five_minutes : ℕ
five_minutes = 300000000000

unfoldable pub wait_for_device : Act State
unfolding with_job
wait_for_device = do
  now ← ask (λ o t. o.clock t)
  modify (with_job (λ j. record j { resume_after = some (now + five_minutes) }))
  note (words "no device; waiting" ∷ [])
  pure States.testing

abbrev pub ui_was_skipped : Bool → Counters → Counters
ui_was_skipped b c = record c { ui_skipped = b }

-- No device; a policy that is none of the three goes on.
unfoldable pub no_device : String → Act State
unfolding fail_to wait_for_device
no_device policy =
    if str_eq policy "skip"
    then (count (ui_was_skipped true)
        >> (note (words "skipped, no device available" ∷ []) >> pure States.final_review))
    else if str_eq policy "fail"
    then fail_to "ui" "" States.analyzing
    else if str_eq policy "wait"
    then wait_for_device
    else pure States.final_review

unfoldable pub ui_on : Rules → String → Act State
unfolding run_phase fail_to
ui_on rules serial = do
  note (words "ui_device " ∷ words serial ∷ [])
  r ← run_phase "ui" rules.ui_command
  if r.0 == 0
      then (count (ui_was_skipped false) >> pure States.final_review)
      else fail_to "ui" (r.1) States.flake_check

unfoldable pub on_device : Rules → Option String → Act State
unfolding no_device ui_on
on_device rules none = no_device rules.on_no_device
on_device rules (some serial) = ui_on rules serial

unfoldable pub test_ui : Rules → Act State
unfolding on_device
test_ui rules =
    if rules.ui_enabled
    then (call "device acquisition" (λ o t. o.device t) >>= on_device rules)
    else pure States.final_review

unfoldable pub test_lint : Rules → Act State
unfolding run_phase fail_to test_ui
test_lint rules =
    if str_eq rules.lint_run_in "testing" && not (is_empty rules.lint_command)
    then (do
      r ← run_phase "lint" rules.lint_command
      if r.0 == 0 then test_ui rules else fail_to "lint" (r.1) States.flake_check)
    else test_ui rules

unfoldable pub handle_testing : Rules → Act State
unfolding run_phase fail_to test_lint
handle_testing rules = do
  r ← run_phase "unit" rules.unit_command
  if r.0 == 0 then test_lint rules else fail_to "unit" (r.1) States.flake_check

-- `phaseCommand`, less the timeout.
unfoldable pub phase_command : Rules → String → List String
phase_command rules phase =
    if str_eq phase "unit"
    then rules.unit_command
    else if str_eq phase "lint"
    then rules.lint_command
    else if str_eq phase "ui"
    then rules.ui_command
    else []

-- The reruns that are left, and the passes so far.
unfoldable pub rerun : ℕ → List String → ℕ → Act ℕ
unfolding run_phase
rerun zero argv passes = pure passes
rerun (suc n) argv passes =
    note (words "flake_rerun" ∷ [])
    >> (run_phase "flake-rerun" argv >>= λ r.
        rerun n argv (if r.0 == 0 then suc passes else passes))

abbrev pub one_more_flake : Counters → Counters
one_more_flake c = record c { flake_retries = suc c.flake_retries }

-- A phase that passed at least once is flaky.
unfoldable pub flaky : Rules → Act State
flaky rules = do
  count one_more_flake
  n ← gets (λ b. (counters_of b).flake_retries)
  if ltb rules.max_flake_retries n
      then escalate (words "flaky and limits.max_flake_retries exhausted" ∷ [])
      else pure States.testing

unfoldable pub count_passes : Rules → ℕ → Act State
unfolding flaky
count_passes rules passes = do
  note (words "flake_check passes " ∷ number passes ∷ [])
  if ltb 0 passes then flaky rules else pure States.analyzing

unfoldable pub leased : Option String → Act (Unit {0})
leased none = escalate (words "device unavailable during flake check of UI tests" ∷ [])
leased (some serial) = pure tt

unfoldable pub lease_for : String → Act (Unit {0})
unfolding leased
lease_for phase =
    if str_eq phase "ui"
    then (call "device acquisition" (λ o t. o.device t) >>= leased)
    else pure tt

unfoldable pub rerun_phase : Rules → String → List String → Act State
unfolding lease_for rerun count_passes
rerun_phase rules phase argv = do
  lease_for phase
  passes ← rerun rules.flake_rerun_count argv 0
  count_passes rules passes

unfoldable pub handle_flake_check : Rules → Act State
unfolding phase_command rerun_phase
handle_flake_check rules = do
  phase ← gets (λ b. (counters_of b).failed_phase)
  if is_empty (phase_command rules phase)
      then pure States.analyzing
      else rerun_phase rules phase (phase_command rules phase)

unfoldable pub analysis_valid : Rules → Act (Unit {0})
unfolding load_analysis or_raise require_clean_tree
analysis_valid rules = do
  file ← gets (λ b. b.exchange.analysis)
  a ← or_raise (load_analysis file)
  require_clean_tree rules

abbrev pub analysed : ℕ → Counters → Counters
analysed n c = record c { analysis_round = n }

abbrev pub diagnosed : String → Counters → Counters
diagnosed class c = record c { last_analysis = class; fix_source = "analysis" }

-- A failure that an agent may fix, while there are attempts.
unfoldable pub fix_analysed : Rules → String → Act State
fix_analysed rules class = do
  attempts ← gets (λ b. (counters_of b).fix_attempts)
  if leb rules.max_fix_attempts attempts
      then escalate (words class ∷ words " diagnosed but fix budget is exhausted" ∷ [])
      else (count (diagnosed class) >> pure States.fixing)

unfoldable pub act_on : Rules → Analysis → Act State
unfolding fix_analysed
act_on rules a =
    if str_eq a.classification "environment"
    then escalate (words "failure classified as environment problem: " ∷ words a.reasoning ∷ [])
    else if str_eq a.classification "unknown"
    then escalate (words "failure classification unknown: " ∷ words a.reasoning ∷ [])
    else fix_analysed rules a.classification

unfoldable pub handle_analyzing : Rules → Act State
unfolding reset_exchange run_agent analysis_valid harvest load_analysis or_raise act_on
handle_analyzing rules = do
  round ← gets (λ b. suc (counters_of b).analysis_round)
  reset_exchange
  run_agent rules (analysis_valid rules)
  harvest (λ e k. k)
  count (analysed round)
  file ← gets (λ b. b.exchange.analysis)
  a ← or_raise (load_analysis file)
  act_on rules a
