-- ===== src/Config/Examples.antt =====
-- A configuration with a verifier on another backend.
use sdlc_orchestrator.Common.{
  ◌≡◌, refl, true, false, [], ◌∷◌, String, str_eq, has, is_empty, has_prefix,
}
use sdlc_orchestrator.Config.{
  Text, pos, Backend, Agent, StateEntry, Target, Config, lookup, validate, first_errs, last_errs,
  policies_errs, human_gate_errs, backend_errs, pattern_errs, agent_errs, state_errs, of_agent,
  independence_errs, name_errs, votes_errs, target_errs, resolved, with_backend, with_agent,
  with_state, agent_for,
}
use sdlc_orchestrator.Config.Valid.{agent_for-differs}
use sdlc_orchestrator.Config.Defaults.{
  fill_backend, fill_backends, fill_states, add_missing, fill_target, fill_targets,
  apply_computed_defaults, loaded_resolves,
}

abbrev text : Text
text = record {
  trim_space = λ s. s;
  to_lower = λ s. s;
  equal_fold = str_eq;
  compiles = λ p. true;
  listens = λ a. true;
}

abbrev backend_of : String → Backend
backend_of kind = record {
  kind = kind;
  binary = kind;
  default_timeout = 1800;
  permission_mode = "skip";
  print_timeout = 0;
  settings_file = "";
  argv_template = [];
  quota_error_patterns = "429" ∷ [];
  quota_backoff = 1800;
  transport_error_patterns = [];
  transport_backoff = 120;
}

abbrev coder : Agent
coder = record { backend = "claude"; model = "opus"; effort = "" }

abbrev checker : Agent
checker = record { backend = "agy"; model = "pro"; effort = "" }

abbrev by_coder : StateEntry
by_coder = record {
  agent = "coder";
  timeout = 60;
  disallowed_tools = [];
  must_differ_backend_from = "";
}

abbrev by_checker : StateEntry
by_checker = record {
  agent = "checker";
  timeout = 60;
  disallowed_tools = [];
  must_differ_backend_from = "IMPLEMENTING";
}

abbrev app : Target
app = record {
  repo_path = "/app";
  default_branch = "main";
  worktrees_dir = "/app/.worktrees";
  build_timeout = 60;
  unit_timeout = 60;
  lint_timeout = 60;
  ui_timeout = 60;
  ship_timeout = 60;
  branch_prefix = "sdlc/";
  build_commands = ("go" ∷ "build" ∷ []) ∷ [];
  unit_command = "go" ∷ "test" ∷ [];
  lint_run_in = "off";
  ui_enabled = false;
  ui_command = [];
  on_no_device = "skip";
  verify_after_rebase = "build";
  push = "auto";
}

abbrev config : Config
config = record {
  max_parallel_jobs = pos 2;
  gradle_slots = pos 1;
  max_scope_rounds = pos 3;
  verify_votes = pos 3;
  verify_min_confirm = pos 2;
  log_error_patterns = [];
  cleanup_worktrees = "on_success";
  design_review_blocks_at = "major";
  code_review_blocks_at = "blocker";
  final_review_blocks_at = "blocker";
  scoping = "on";
  human_gates = "spec" ∷ [];
  protected_branches = "main" ∷ [];
  listen = "127.0.0.1:7777";
  backends = ("claude", backend_of "claude") ∷ ("agy", backend_of "agy") ∷ [];
  agents = ("coder", coder) ∷ ("checker", checker) ∷ [];
  states =
      ("SCOPING", by_coder)
      ∷ ("PLANNING", by_coder)
      ∷ ("DESIGN_REVIEW", by_coder)
      ∷ ("IMPLEMENTING", by_coder)
      ∷ ("CODE_REVIEW", by_checker)
      ∷ ("ANALYZING", by_coder)
      ∷ ("FIXING", by_coder)
      ∷ ("FINAL_REVIEW", by_coder)
      ∷ ("VERIFYING", by_coder)
      ∷ [];
  targets = ("app", app) ∷ [];
}

config_valid : is_empty (validate text config) ≡ true
unfolding validate first_errs last_errs policies_errs human_gate_errs backend_errs pattern_errs
    agent_errs state_errs of_agent independence_errs name_errs votes_errs target_errs has lookup
    has_prefix
config_valid = refl

-- A configuration that leaves a state and the times out.
abbrev partial : Config
partial = record config {
  states = ("PLANNING", record by_coder { agent = "opus" }) ∷ [];
  agents = ("opus", coder) ∷ ("sonnet", coder) ∷ ("gemini", checker) ∷ [];
}

abbrev same_text : String → String
same_text s = s

partial_valid :
    is_empty (validate text (apply_computed_defaults same_text same_text partial)) ≡ true
unfolding validate first_errs last_errs policies_errs human_gate_errs backend_errs pattern_errs
    agent_errs state_errs of_agent independence_errs name_errs votes_errs target_errs has lookup
    has_prefix apply_computed_defaults fill_backends fill_backend fill_states add_missing
    fill_targets fill_target
partial_valid = refl

loaded_resolves_example :
    (agent : String) × (a : Agent) × (b : Backend) × (s : StateEntry) × (agent_for
        (apply_computed_defaults same_text same_text partial)
        "FIXING"
      ≡ resolved agent a b s)
unfolding has
loaded_resolves_example =
    loaded_resolves same_text same_text text partial "FIXING" partial_valid refl

agent_for-differs_example : str_eq "claude" "agy" ≡ false
unfolding agent_for with_state with_agent with_backend has lookup
agent_for-differs_example =
    agent_for-differs text config config_valid "CODE_REVIEW" "checker" "coder" checker coder
      (backend_of "agy") (backend_of "claude") by_checker by_coder refl refl refl refl
