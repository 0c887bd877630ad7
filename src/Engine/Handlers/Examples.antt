-- ===== src/Engine/Handlers/Examples.antt =====
-- One job on its way, for the properties of the handlers.
use sdlc_orchestrator.Common.{
  ℕ, suc, ◌+◌, ◌≡◌, ◌≤◌, ◌<◌, refl, true, false, [], ◌∷◌, none, some, arith, Bytes, codes, ◌&&◌,
  not, str_eq, if◌then◌else◌, leb, ltb, length,
}
use sdlc_orchestrator.Artifact.{Severity}
use sdlc_orchestrator.Engine.States
use sdlc_orchestrator.Engine.States.{State}
use sdlc_orchestrator.Engine.Examples.{job_at, desk_of, settings, at}
use sdlc_orchestrator.Engine.Verify.{Ran}
use sdlc_orchestrator.Engine.Rules.{Rules}
use sdlc_orchestrator.Engine.Bench.{
  no_outputs, AgentRun, Outside, Bench, Act, ok, pure, gets, call, ask, raise, modify, count, note,
  with_counters, with_job, ◌>>=◌, counters_of,
}
use sdlc_orchestrator.Engine.Bench.Frame.{merges, gets-Keeps}
use sdlc_orchestrator.Engine.Context.{run_phase, exit_of, state_baseline, read_baseline}
use sdlc_orchestrator.Engine.Context.Agent.{
  steps_of, left_by, invoked, start_agent, noted_exit, check, judge_run, attempt_agent, attempts,
  run_agent,
}
use sdlc_orchestrator.Engine.Context.Agent.Budget.{
  quietly, used, Passed, run_agent-budget, run_agent-checked,
}
use sdlc_orchestrator.Engine.Context.Claims.{holds, reconcile_claims}
use sdlc_orchestrator.Engine.Context.Claims.Sets.{among, reconcile_claims_lem}
use sdlc_orchestrator.Engine.Guard.{compile_globs}
use sdlc_orchestrator.Artifact.Load.{load_implementation}
use sdlc_orchestrator.Engine.Handlers.Review.{or_raise}
use sdlc_orchestrator.Engine.Handlers.Frame.Code.{fix_valid-Keeps}
use sdlc_orchestrator.Engine.Handlers.{step}
use sdlc_orchestrator.Engine.Handlers.Code.{fix_valid, fix_kept, fix_judged}
use sdlc_orchestrator.Engine.Handlers.Phases.{
  handle_building, build_all, build_list, fail_to, handle_flake_check, phase_command, rerun_phase,
  rerun, lease_for, count_passes, flaky,
}
use sdlc_orchestrator.Engine.Handlers.Pipeline.{Next, handler-Next}
use sdlc_orchestrator.Engine.Handlers.Protected.{Touches, Discarded, fix_judged-Protected}
use sdlc_orchestrator.Engine.Handlers.Retries.{back_to_testing}
use sdlc_orchestrator.Engine.Handlers.Outcomes.{used_by}
use sdlc_orchestrator.Engine.Handlers.Steps.{step-budget, step-merges}
use sdlc_orchestrator.Engine.Handlers.Settles.{Moment, Settled, left_of, engine_settles}
use sdlc_orchestrator.Engine.Handlers.{handler}

abbrev rules : Rules
rules = record {
  max_scope_rounds = 3;
  max_design_review_rounds = 3;
  max_code_review_rounds = 3;
  max_fix_attempts = 4;
  max_flake_retries = 2;
  flake_rerun_count = 2;
  max_agent_retries = 1;
  max_agent_invocations = 40;
  max_release_retries = 2;
  release_retry_backoff = 600;
  verify_votes = 0;
  verify_min_confirm = 1;
  protected_branches = "main" ∷ [];
  scoping_enabled = true;
  human_gate = λ g. str_eq g "spec";
  design_review_blocks_at = Severity.major;
  code_review_blocks_at = Severity.major;
  final_review_blocks_at = Severity.major;
  protect_tests_on_code_bug_fix = true;
  reviewer_diff_must_be_empty = true;
  test_file_globs = codes "*_test.go" ∷ [];
  default_branch = "main";
  build_commands = ("go" ∷ "build" ∷ []) ∷ [];
  lint_command = [];
  lint_run_in = "building";
  unit_command = "go" ∷ "test" ∷ [];
  ui_enabled = false;
  ui_command = [];
  on_no_device = "skip";
  rebase_before_merge = true;
  verify_after_rebase = "build";
  push = "auto";
  auto_resume_halt = false;
  resume_command = [];
  regexp = record { quote_meta = λ s. s; compile = λ s. some (λ path. ltb 6 (length path)) };
  trim_space = λ s. s;
  mint = λ n. "F";
}

abbrev trim_path : Bytes → Bytes
trim_path p = p

abbrev a_run : AgentRun
a_run = record {
  spawned = true;
  unreachable = false;
  quota_hit = false;
  timed_out = false;
  model_mismatch = false;
  exit_code = 1;
  backend = "claude";
  detail = "";
  backoff = 300;
  files = no_outputs;
  checkpoints = "c1" ∷ [];
}

abbrev no_verdict : Ran
no_verdict = record {
  spawned = false;
  unreachable = false;
  quota_hit = false;
  backend = "claude";
  detail = "";
  backoff = 300;
  file = none;
}

-- All is well: every command ends with 0.
abbrev outside : Outside
outside = record {
  clock = λ t. 100 + t;
  fails = λ t. false;
  yes = λ t. true;
  sha = λ t. "def";
  names = λ t. "app.go" ∷ [];
  branch = λ t. "main";
  device = λ t. none;
  agent = λ t. a_run;
  phase = λ t. record { exit = some 0; log = "log" };
  verifier = λ t f i. no_verdict;
}

abbrev bench_at : State → Bench
bench_at s = record {
  desk = desk_of (job_at s States.created) [];
  exchange = no_outputs;
  kept = record { problem = none; spec = none; plan = none; implementation = none };
  git = [];
  calls = 0;
}

-- A job whose unit tests failed.
abbrev failed_unit : Bench
failed_unit = with_counters (λ c. record c { failed_phase = "unit" }) (bench_at States.flake_check)

-- The post-condition of an agent that has nothing to show.
abbrev lenient : Act (Unit {0})
lenient = gets (λ b. tt)

run_agent-budget_example :
    (used (run_agent rules lenient outside (bench_at States.implementing)).1 ≤ 40)
    × (used (run_agent rules lenient outside (bench_at States.implementing)).1 ≤ 5)
run_agent-budget_example =
    run_agent-budget rules lenient outside (gets-Keeps quietly (λ b. tt))
      (bench_at States.implementing) (omega arith)

-- The first agent leaves no fix, every later one leaves one.
abbrev late_fix : Outside
late_fix = record outside {
  agent = λ t.
      if leb 3 t
      then record a_run {
        files = record no_outputs {
          fix = some (record {
            schema = "implementation/1";
            summary = "closes the file";
            files_changed = "app.go" ∷ [];
            tests_added_or_changed = [];
            steps_completed = [];
            test_change_requested = none;
          });
        };
      }
      else a_run;
}

fix_late : (run_agent rules fix_valid late_fix (bench_at States.fixing)).0 ≡ ok tt
unfolding run_agent state_baseline read_baseline attempts attempt_agent start_agent judge_run check
    noted_exit left_by steps_of invoked note pure ◌>>=◌ modify call ask gets count with_counters
    with_job raise fix_valid or_raise load_implementation
fix_late = refl

run_agent-checked_example :
    (3 < used (run_agent rules fix_valid late_fix (bench_at States.fixing)).1)
    × Passed fix_valid late_fix 4 (run_agent rules fix_valid late_fix (bench_at States.fixing))
run_agent-checked_example =
    run_agent-checked rules fix_valid late_fix (fix_valid-Keeps rules quietly)
      (bench_at States.fixing) fix_late

builds : (handle_building rules outside (bench_at States.building)).0 ≡ ok States.testing
unfolding handle_building build_all build_list fail_to run_phase exit_of pure ◌>>=◌ note modify call
    ask gets
builds = refl

handler-Next_example : Next rules States.building States.testing
unfolding handler
handler-Next_example =
    handler-Next rules trim_path States.building (handle_building rules) outside
      (bench_at States.building) States.testing refl builds

flaky_again : (handle_flake_check rules outside failed_unit).0 ≡ ok States.testing
unfolding handle_flake_check phase_command rerun_phase rerun lease_for count_passes flaky run_phase
    exit_of pure ◌>>=◌ note modify call ask gets count with_counters with_job
flaky_again = refl

back_to_testing_example :
    (0 < (counters_of (handle_flake_check rules outside failed_unit).1).flake_retries)
    × ((counters_of (handle_flake_check rules outside failed_unit).1).flake_retries ≤ 2)
unfolding with_counters with_job
back_to_testing_example = back_to_testing rules outside failed_unit flaky_again

-- The pattern is valid.
test_globs :
    compile_globs rules.regexp rules.test_file_globs ≡ some ((λ path. ltb 6 (length path)) ∷ [])
unfolding compile_globs
test_globs = refl

fix_judged-Protected_example :
    (Touches rules.regexp rules.test_file_globs ("app.go" ∷ "app_test.go" ∷ [])
      → Discarded "abc" (bench_at States.fixing) (
          fix_judged rules "abc" "code_bug"
            ("app.go" ∷ "app_test.go" ∷ [])
            outside
            (bench_at States.fixing)))
    × (¬ Touches rules.regexp rules.test_file_globs ("app.go" ∷ "app_test.go" ∷ [])
        → fix_judged rules "abc" "code_bug"
            ("app.go" ∷ "app_test.go" ∷ [])
            outside
            (bench_at States.fixing)
          ≡ fix_kept outside (bench_at States.fixing))
fix_judged-Protected_example =
    fix_judged-Protected rules "abc" ("app.go" ∷ "app_test.go" ∷ [])
      ((λ path. ltb 6 (length path)) ∷ []) outside (bench_at States.fixing) refl refl test_globs

step-budget_example :
    used_by (step rules trim_path settings (at 50) outside true (bench_at States.planning)).desk
    ≤ 40
step-budget_example =
    step-budget rules trim_path settings (at 50) outside true (bench_at States.planning)
      (omega arith)

step-merges_example :
    merges (step rules trim_path settings (at 50) outside true (bench_at States.testing)).git ≡ 0
step-merges_example =
    step-merges rules trim_path settings (at 50) outside true (bench_at States.testing)
      (omega arith) refl

abbrev moments : ℕ → Moment
moments n = record { world = at (50 + n); outside = outside; fresh = false }

engine_settles_example :
    Settled rules trim_path settings moments
      (bench_at States.building)
      (suc (left_of rules trim_path settings (bench_at States.building)))
engine_settles_example =
    engine_settles rules trim_path settings moments (bench_at States.building) (omega arith)

reconcile_claims_lem_example :
    (holds (reconcile_claims trim_path (codes "./a.go" ∷ []) (codes "b.go" ∷ [])).0 (codes "a.go")
      ≡ (among trim_path (codes "./a.go" ∷ []) (codes "a.go")
          && not (among trim_path (codes "b.go" ∷ []) (codes "a.go"))))
    × (holds (reconcile_claims trim_path (codes "./a.go" ∷ []) (codes "b.go" ∷ [])).1 (codes "a.go")
        ≡ (among trim_path (codes "b.go" ∷ []) (codes "a.go")
            && not (among trim_path (codes "./a.go" ∷ []) (codes "a.go"))))
reconcile_claims_lem_example =
    reconcile_claims_lem trim_path (codes "./a.go" ∷ []) (codes "b.go" ∷ []) (codes "a.go")
