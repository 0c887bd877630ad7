-- ===== src/Config/Defaults.antt =====
-- `Default` and `applyComputedDefaults` of internal/config/config.go, on the keys of the model: the backends, agents and
-- states, and what a target leaves out. The paths of the data directory are left out; joining paths and
-- expanding `${VAR}` are parameters.
use sdlc_orchestrator.Common.{
  ℕ, ◌≡◌, refl, Bool, true, false, ◌||◌, List, [], ◌∷◌, Option, none, some, String, str_eq,
  str_eq→eq, str_eq_refl, has, is_empty, if_both, if_cases, subst, arith, if◌then◌else◌, ◌==◌,
}
use sdlc_orchestrator.Config.{
  Text, pos, Config, Backend, Agent, StateEntry, Target, lookup, is_in, state_or_zero, validate,
  agent_state_names, resolved, agent_for,
}
use sdlc_orchestrator.Config.Valid.{agent_for-resolves}

abbrev pub default_transport_patterns : List String
default_transport_patterns =
    "(?i)\\b(ENOTFOUND|ECONNREFUSED|ECONNRESET|ETIMEDOUT|EAI_AGAIN|EHOSTUNREACH|ENETUNREACH|EPIPE)\\b"
    ∷ "(?i)can'?t reach the API" ∷ "(?i)getaddrinfo" ∷ "(?i)socket hang ?up"
    ∷ "(?i)network (error|is unreachable)" ∷ "(?i)(connection|request) timed out" ∷ []

abbrev pub default_backends : List (String × Backend)
default_backends =
    (
      "claude",
      record {
        kind = "claude";
        binary = "claude";
        default_timeout = 1800000000000;
        permission_mode = "bypassPermissions";
        print_timeout = 0;
        settings_file = "";
        argv_template = [];
        quota_error_patterns =
            "(?i)rate.?limit" ∷ "(?i)usage.?limit" ∷ "(?i)overloaded" ∷ "(?i)quota" ∷ [];
        quota_backoff = 1800000000000;
        transport_error_patterns = default_transport_patterns;
        transport_backoff = 120000000000;
      },
    )
    ∷ (
      "agy",
      record {
        kind = "agy";
        binary = "agy";
        default_timeout = 1800000000000;
        permission_mode = "skip";
        print_timeout = 2700000000000;
        settings_file = "${USERPROFILE}/.gemini/antigravity-cli/settings.json";
        argv_template = [];
        quota_error_patterns = "(?i)rate.?limit" ∷ "(?i)quota" ∷ "(?i)resource.?exhausted" ∷ [];
        quota_backoff = 1800000000000;
        transport_error_patterns = default_transport_patterns;
        transport_backoff = 120000000000;
      },
    )
    ∷ []

abbrev pub default_agents : List (String × Agent)
default_agents =
    ("opus", record { backend = "claude"; model = "opus"; effort = "high" })
    ∷ ("sonnet", record { backend = "claude"; model = "sonnet"; effort = "" })
    ∷ ("gemini", record { backend = "agy"; model = "gemini-3-pro"; effort = "medium" })
    ∷ []

abbrev pub state_of : String → ℕ → List String → String → StateEntry
state_of agent timeout disallowed other = record {
  agent = agent;
  timeout = timeout;
  disallowed_tools = disallowed;
  must_differ_backend_from = other;
}

abbrev pub no_edits : List String
no_edits = "Edit" ∷ "NotebookEdit" ∷ []

abbrev pub no_edits_no_shell : List String
no_edits_no_shell = "Edit" ∷ "NotebookEdit" ∷ "Bash" ∷ []

abbrev pub default_states : List (String × StateEntry)
default_states =
    ("SCOPING", state_of "opus" 900000000000 no_edits "")
    ∷ ("PLANNING", state_of "opus" 1800000000000 [] "")
    ∷ ("DESIGN_REVIEW", state_of "sonnet" 900000000000 no_edits_no_shell "")
    ∷ ("IMPLEMENTING", state_of "gemini" 2700000000000 [] "")
    ∷ ("CODE_REVIEW", state_of "opus" 1200000000000 no_edits_no_shell "IMPLEMENTING")
    ∷ ("ANALYZING", state_of "sonnet" 600000000000 no_edits_no_shell "")
    ∷ ("FIXING", state_of "gemini" 2700000000000 [] "")
    ∷ ("FINAL_REVIEW", state_of "opus" 1200000000000 no_edits_no_shell "IMPLEMENTING")
    ∷ ("VERIFYING", state_of "opus" 900000000000 no_edits "")
    ∷ []

-- The default configuration; its other keys are not in the model.
abbrev pub default_config : Config
default_config = record {
  max_parallel_jobs = pos 2;
  gradle_slots = pos 1;
  max_scope_rounds = pos 2;
  verify_votes = pos 3;
  verify_min_confirm = pos 2;
  log_error_patterns = "(?i)error" ∷ "(?i)exception" ∷ "FAILED" ∷ [];
  cleanup_worktrees = "on_success";
  design_review_blocks_at = "blocker";
  code_review_blocks_at = "blocker";
  final_review_blocks_at = "blocker";
  scoping = "on";
  human_gates = [];
  protected_branches = "main" ∷ "master" ∷ [];
  listen = "127.0.0.1:7777";
  backends = default_backends;
  agents = default_agents;
  states = default_states;
  targets = [];
}

-- The user's value, where it is not the zero value.
abbrev pub or_text : String → String → String
or_text s d = if str_eq s "" then d else s

abbrev pub or_time : ℕ → ℕ → ℕ
or_time n d = if n == 0 then d else n

abbrev pub or_list : List String → List String → List String
or_list xs ds = if is_empty xs then ds else xs

abbrev pub default_kind : String → String
default_kind name = if str_eq name "claude" || str_eq name "agy" then name else "exec"

abbrev pub from_default : Option Backend → Backend → Backend
from_default none b = b
from_default (some d) b = record b {
  binary = or_text b.binary d.binary;
  default_timeout = or_time b.default_timeout d.default_timeout;
  permission_mode = or_text b.permission_mode d.permission_mode;
  print_timeout = or_time b.print_timeout d.print_timeout;
  settings_file = or_text b.settings_file d.settings_file;
  quota_error_patterns = or_list b.quota_error_patterns d.quota_error_patterns;
  quota_backoff = or_time b.quota_backoff d.quota_backoff;
  transport_error_patterns = or_list b.transport_error_patterns d.transport_error_patterns;
  transport_backoff = or_time b.transport_backoff d.transport_backoff;
}

abbrev pub from_state : Option StateEntry → StateEntry → StateEntry
from_state none s = s
from_state (some d) s = record s {
  agent = or_text s.agent d.agent;
  timeout = or_time s.timeout d.timeout;
}

-- The states that the user changed, by the name of each.
unfoldable pub fill_states : List (String × StateEntry) → List (String × StateEntry)
unfolding lookup
fill_states [] = []
fill_states ((name, s) ∷ rest) =
    (name, from_state (lookup default_states name) s) ∷ fill_states rest

-- The states that the user left out; the order of a map does not count.
unfoldable pub add_missing : List String → List (String × StateEntry) → List (String × StateEntry)
unfolding lookup
add_missing [] states = states
add_missing (name ∷ names) states = add_missing names (
    if is_in (lookup states name)
    then states
    else (name, state_or_zero (lookup default_states name)) ∷ states)

-- `expandEnv`, and `filepath.Join` with `.worktrees`.
module _ (expand_env worktrees_of : String → String) where
  unfoldable pub fill_backend : String → Backend → Backend
  unfolding lookup
  fill_backend name b =
      let f =
        from_default (lookup default_backends name)
          (record b { kind = or_text b.kind (default_kind name) }) in
      record f {
        default_timeout = or_time f.default_timeout 1800000000000;
        quota_backoff = or_time f.quota_backoff 1800000000000;
        transport_error_patterns = or_list f.transport_error_patterns default_transport_patterns;
        transport_backoff = or_time f.transport_backoff 120000000000;
        settings_file = expand_env f.settings_file;
      }

  unfoldable pub fill_backends : List (String × Backend) → List (String × Backend)
  unfolding fill_backend
  fill_backends [] = []
  fill_backends ((name, b) ∷ rest) = (name, fill_backend name b) ∷ fill_backends rest

  unfoldable pub fill_target : Target → Target
  fill_target t = record t {
    default_branch = or_text t.default_branch "main";
    branch_prefix = or_text t.branch_prefix "sdlc/";
    worktrees_dir = or_text t.worktrees_dir (worktrees_of t.repo_path);
    build_timeout = or_time t.build_timeout 1800000000000;
    unit_timeout = or_time t.unit_timeout 1800000000000;
    lint_timeout = or_time t.lint_timeout 1200000000000;
    lint_run_in = or_text t.lint_run_in "off";
    ui_timeout = or_time t.ui_timeout 2400000000000;
    on_no_device = or_text t.on_no_device "skip";
    verify_after_rebase = or_text t.verify_after_rebase "build";
    push = or_text t.push "auto";
    ship_timeout = or_time t.ship_timeout 3600000000000;
  }

  unfoldable pub fill_targets : List (String × Target) → List (String × Target)
  unfolding fill_target
  fill_targets [] = []
  fill_targets ((key, t) ∷ rest) = (key, fill_target t) ∷ fill_targets rest

  unfoldable pub apply_computed_defaults : Config → Config
  unfolding fill_backends fill_states add_missing fill_targets
  apply_computed_defaults c = record c {
    backends = fill_backends c.backends;
    states = add_missing agent_state_names (fill_states c.states);
    targets = fill_targets c.targets;
  }

-- No entry is lost.
add_missing-keeps :
    (names : List String) (states : List (String × StateEntry)) (k : String)
    → is_in (lookup states k) ≡ true
    → is_in (lookup (add_missing names states) k) ≡ true
unfolding add_missing lookup
add_missing-keeps [] states k h = h
add_missing-keeps (name ∷ names) states k h = add_missing-keeps names _ k (
    if_both (λ (xs : List (String × StateEntry)). is_in (lookup xs k) ≡ true)
      (is_in (lookup states name)) states
      ((name, state_or_zero (lookup default_states name)) ∷ states) h
      (if_both (λ (x : Option StateEntry). is_in x ≡ true) (str_eq name k)
        (some (state_or_zero (lookup default_states name))) (lookup states k) refl h))

entered :
    (name : String) (states : List (String × StateEntry))
    → is_in (
        lookup
          (if is_in (lookup states name)
            then states
            else (name, state_or_zero (lookup default_states name)) ∷ states)
          name)
      ≡ true
unfolding lookup
entered name states =
    if_cases (λ (xs : List (String × StateEntry)). is_in (lookup xs name) ≡ true)
      (is_in (lookup states name)) states
      ((name, state_or_zero (lookup default_states name)) ∷ states) (λ e. e)
      (λ e. rw (str_eq_refl name) refl)

-- And every name has one.
add_missing-all :
    (names : List String) (states : List (String × StateEntry)) (k : String)
    → has names k ≡ true
    → is_in (lookup (add_missing names states) k) ≡ true
unfolding add_missing lookup has
add_missing-all [] states k h = ground (arith, h)
add_missing-all (name ∷ names) states k h =
    by_name (add_missing-all names states' k) (str_eq name k) refl h
  where
    states' : List (String × StateEntry)
    states' =
        if is_in (lookup states name)
        then states
        else (name, state_or_zero (lookup default_states name)) ∷ states

    by_name :
        (has names k ≡ true → is_in (lookup (add_missing names states') k) ≡ true)
        → (q : Bool) → str_eq name k ≡ q
        → (q || has names k) ≡ true
        → is_in (lookup (add_missing names states') k) ≡ true
    by_name rest true e m = add_missing-keeps names states' k (
        subst (λ (x : String). is_in (lookup states' x) ≡ true) (str_eq→eq name k e)
          (entered name states))
    by_name rest false e m = rest m

-- A configuration as `Load` makes it, with its defaults filled in and let through by Validate, gives every agent state
-- an agent and a backend, whatever states the user left out: no run of an agent fails for want of one.
pub loaded_resolves :
    (expand_env worktrees_of : String → String) (t : Text) (c : Config) (name : String)
    → is_empty (validate t (apply_computed_defaults expand_env worktrees_of c)) ≡ true
    → has agent_state_names name ≡ true
    → (agent : String) × (a : Agent) × (b : Backend) × (s : StateEntry) × (agent_for
          (apply_computed_defaults expand_env worktrees_of c)
          name
        ≡ resolved agent a b s)
unfolding apply_computed_defaults
loaded_resolves expand_env worktrees_of t c name valid h =
    agent_for-resolves t (apply_computed_defaults expand_env worktrees_of c) valid name h
      (add_missing-all agent_state_names (fill_states c.states) name h)
