-- ===== src/Config.antt =====
-- internal/config/config.go: the configuration that is checked when it is loaded, and what the engine looks up in it.
-- A map is a list of entries; a message keeps its fixed words; a duration is a number of nanoseconds. Keys that are only
-- read elsewhere are left out. `strings.TrimSpace`, `strings.ToLower`, `strings.EqualFold`, whether a regular expression compiles and
-- `ValidateListen` are the record `Text`.
pub mod Valid
pub mod Defaults
mod Examples
use sdlc_orchestrator.Common.{
  ℕ, ltb, Bool, true, false, ◌||◌, ◌&&◌, not, List, [], ◌∷◌, ◌++◌, Option, none, some, String,
  str_eq, has, is_empty, has_prefix, codes, if◌then◌else◌,
}

pub record Text : Type 0 where
  pub trim_space : String → String
  pub to_lower : String → String
  pub equal_fold : String → String → Bool
  pub compiles : String → Bool
  pub listens : String → Bool

pub data ℤ : Type 0 where
  pos : ℕ → ℤ
  negsuc : ℕ → ℤ

abbrev pub below : ℤ → ℕ → Bool
below (pos k) n = ltb k n
below (negsuc k) n = true

abbrev pub less : ℤ → ℤ → Bool
less (pos k) (pos n) = ltb k n
less (pos k) (negsuc n) = false
less (negsuc k) (pos n) = true
less (negsuc k) (negsuc n) = ltb n k

pub record Backend : Type 0 where
  pub kind : String
  pub binary : String
  pub default_timeout : ℕ
  pub permission_mode : String
  pub print_timeout : ℕ
  pub settings_file : String
  pub argv_template : List String
  pub quota_error_patterns : List String
  pub quota_backoff : ℕ
  pub transport_error_patterns : List String
  pub transport_backoff : ℕ

pub record Agent : Type 0 where
  pub backend : String
  pub model : String
  pub effort : String

-- `State`, the entry of an agent state.
pub record StateEntry : Type 0 where
  pub agent : String
  pub timeout : ℕ
  pub disallowed_tools : List String
  pub must_differ_backend_from : String

pub record Target : Type 0 where
  pub repo_path : String
  pub default_branch : String
  pub branch_prefix : String
  pub worktrees_dir : String
  pub build_timeout : ℕ
  pub unit_timeout : ℕ
  pub lint_timeout : ℕ
  pub ui_timeout : ℕ
  pub ship_timeout : ℕ
  pub build_commands : List (List String)
  pub unit_command : List String
  pub lint_run_in : String
  pub ui_enabled : Bool
  pub ui_command : List String
  pub on_no_device : String
  pub verify_after_rebase : String
  pub push : String

pub record Config : Type 0 where
  pub max_parallel_jobs : ℤ
  pub gradle_slots : ℤ
  pub max_scope_rounds : ℤ
  pub verify_votes : ℤ
  pub verify_min_confirm : ℤ
  pub log_error_patterns : List String
  pub cleanup_worktrees : String
  pub design_review_blocks_at : String
  pub code_review_blocks_at : String
  pub final_review_blocks_at : String
  pub scoping : String
  pub human_gates : List String
  pub protected_branches : List String
  pub listen : String
  pub backends : List (String × Backend)
  pub agents : List (String × Agent)
  pub states : List (String × StateEntry)
  pub targets : List (String × Target)

abbrev pub agent_state_names : List String
agent_state_names =
    "SCOPING" ∷ "PLANNING" ∷ "DESIGN_REVIEW" ∷ "IMPLEMENTING" ∷ "CODE_REVIEW" ∷ "ANALYZING"
    ∷ "FIXING" ∷ "FINAL_REVIEW" ∷ "VERIFYING" ∷ []

abbrev pub optional_human_gates : List String
optional_human_gates = "scope" ∷ "spec" ∷ "code" ∷ []

-- A map's entry, where it has one.
unfoldable pub lookup {ℓ} : {A : Type ℓ} → List (String × A) → String → Option A
lookup [] k = none
lookup ((j, x) ∷ xs) k = let rest = lookup xs k in if str_eq j k then some x else rest

abbrev pub is_in {ℓ} : {A : Type ℓ} → Option A → Bool
is_in none = false
is_in (some x) = true

-- `fail`, where the test is not met.
abbrev pub unless : Bool → String → List String
unless ok message = if ok then [] else message ∷ []

-- The errors of a loop.
abbrev pub each {ℓ} : {A : Type ℓ} → (A → List String) → List A → List String
each f [] = []
each f (x ∷ xs) = f x ++ each f xs

abbrev pub one_of : List String → String → Bool
one_of options s = has options s

unfoldable pub policies_errs : Text → Config → List String
unfolding has
policies_errs t c =
    unless (has ("blocker" ∷ "major" ∷ "minor" ∷ "nit" ∷ []) c.design_review_blocks_at)
      "policies.design_review_blocks_at must be blocker|major|minor|nit"
    ++ unless (has ("blocker" ∷ "major" ∷ "minor" ∷ "nit" ∷ []) c.code_review_blocks_at)
        "policies.code_review_blocks_at must be blocker|major|minor|nit"
    ++ unless (has ("blocker" ∷ "major" ∷ "minor" ∷ "nit" ∷ []) c.final_review_blocks_at)
        "policies.final_review_blocks_at must be blocker|major|minor|nit"
    ++ unless (has ("on" ∷ "off" ∷ []) (t.to_lower (t.trim_space c.scoping)))
        "policies.scoping must be on|off"

unfoldable pub human_gate_errs : Text → String → List String
unfolding has
human_gate_errs t g =
    let n = t.to_lower (t.trim_space g) in
    unless (has optional_human_gates n || (str_eq n "merge" || str_eq n "release"))
      "policies.human_gates: unknown gate"

unfoldable pub pattern_errs : Text → String → String → List String
pattern_errs t where_ p = unless (t.compiles p) where_

unfoldable pub backend_errs : Text → Backend → List String
unfolding pattern_errs
backend_errs t b =
    (if str_eq b.kind "claude" || str_eq b.kind "agy"
      then []
      else if str_eq b.kind "exec"
      then unless (not (is_empty b.argv_template)) "backends: kind exec requires argv_template"
      else "backends: unknown kind" ∷ [])
    ++ each (pattern_errs t "backends.quota_error_patterns") b.quota_error_patterns
    ++ each (pattern_errs t "backends.transport_error_patterns") b.transport_error_patterns

unfoldable pub agent_errs : Config → Agent → List String
unfolding lookup
agent_errs c a =
    unless (is_in (lookup c.backends a.backend)) "agents.backend is not defined under backends"
    ++ unless (not (str_eq a.model "")) "agents.model must be set"

-- The zero value of a map's missing entry.
abbrev pub state_or_zero : Option StateEntry → StateEntry
state_or_zero none = record {
  agent = "";
  timeout = 0;
  disallowed_tools = [];
  must_differ_backend_from = "";
}
state_or_zero (some s) = s

-- Whether the agent of another state is on the same backend.
abbrev pub shares : Option Agent → Agent → Bool
shares none a = false
shares (some o) a = str_eq o.backend a.backend

abbrev pub differs : Config → Option StateEntry → Agent → List String
differs c none a = "states.must_differ_backend_from is not a configured state" ∷ []
differs c (some other) a =
    unless (not (shares (lookup c.agents other.agent) a))
      "independence violation: states must use a different backend"

unfoldable pub independence_errs : Config → StateEntry → Agent → List String
unfolding lookup
independence_errs c s a =
    if str_eq s.must_differ_backend_from ""
    then []
    else differs c (lookup c.states s.must_differ_backend_from) a

unfoldable pub of_agent : Config → StateEntry → Option Agent → List String
unfolding independence_errs
of_agent c s none = "states.agent is not defined under agents" ∷ []
of_agent c s (some a) = independence_errs c s a

unfoldable pub state_errs : Config → String → List String
unfolding lookup of_agent
state_errs c name =
    let s = state_or_zero (lookup c.states name) in of_agent c s (lookup c.agents s.agent)

unfoldable pub name_errs : String → List String
unfolding has
name_errs name = unless (has agent_state_names name) "states: not an agent state"

unfoldable pub votes_errs : Config → List String
votes_errs c =
    unless (not (below c.verify_votes 0))
      "limits.verify_votes must be >= 0 (0 disables the verify pass)"
    ++ (if not (below c.verify_votes 1)
        then unless (not (below c.verify_min_confirm 1))
            "limits.verify_min_confirm must be >= 1 when verify_votes > 0"
          ++ unless (not (less c.verify_votes c.verify_min_confirm))
              "limits.verify_min_confirm cannot exceed limits.verify_votes"
        else [])

unfoldable pub target_errs : Config → Target → List String
unfolding has has_prefix
target_errs c t =
    unless (not (str_eq t.repo_path "")) "targets.repo_path must be set"
    ++ unless (not (is_empty t.build_commands))
        "targets.build.commands must have at least one command"
    ++ unless (not (is_empty t.unit_command)) "targets.unit_test.command must be set"
    ++ unless (not (t.ui_enabled && is_empty t.ui_command))
        "targets.ui_test.command must be set when ui_test.enabled"
    ++ unless (has ("skip" ∷ "fail" ∷ "wait" ∷ []) t.on_no_device)
        "targets.ui_test.on_no_device must be skip|fail|wait"
    ++ unless (has ("building" ∷ "testing" ∷ "off" ∷ []) t.lint_run_in)
        "targets.lint.run_in must be building|testing|off"
    ++ unless (has ("build" ∷ "none" ∷ []) t.verify_after_rebase)
        "targets.merge.verify_after_rebase must be build|none"
    ++ unless (has ("auto" ∷ "never" ∷ []) t.push) "targets.merge.push must be auto|never"
    ++ each
        (λ pb.
          unless (not (has_prefix (codes pb) (codes t.branch_prefix)))
            "targets.branch_prefix would shadow a protected branch")
        c.protected_branches

-- The tests before those of the agents.
unfoldable pub first_errs : Text → Config → List String
unfolding has policies_errs human_gate_errs backend_errs
first_errs t c =
    unless (not (below c.max_parallel_jobs 1)) "orchestrator.max_parallel_jobs must be >= 1"
    ++ unless (not (below c.gradle_slots 1)) "resources.gradle_slots must be >= 1"
    ++ unless (has ("on_success" ∷ "always" ∷ "never" ∷ []) c.cleanup_worktrees)
        "git.cleanup_worktrees must be on_success|always|never"
    ++ policies_errs t c
    ++ unless (not (below c.max_scope_rounds 1)) "limits.max_scope_rounds must be >= 1"
    ++ each (human_gate_errs t) c.human_gates
    ++ each (λ (kb : String × Backend). backend_errs t (kb.1)) c.backends

-- Those after the states of the agents.
unfoldable pub last_errs : Text → Config → List String
unfolding name_errs votes_errs pattern_errs target_errs
last_errs t c =
    each (λ (ks : String × StateEntry). name_errs (ks.0)) c.states
    ++ votes_errs c
    ++ unless (t.listens c.listen) "server.listen"
    ++ each (pattern_errs t "limits.log_error_patterns") c.log_error_patterns
    ++ each (λ (kt : String × Target). target_errs c (kt.1)) c.targets

abbrev pub all_agent_errs : Config → List String
all_agent_errs c = each (λ (ka : String × Agent). agent_errs c (ka.1)) c.agents

-- `Validate`: the errors, in the order of the code.
unfoldable pub validate : Text → Config → List String
unfolding first_errs state_errs last_errs
validate t c =
    first_errs t c ++ (all_agent_errs c ++ (each (state_errs c) agent_state_names ++ last_errs t c))

-- `ScopingEnabled`, `HumanGate` and `Target`.
unfoldable pub is_scoping_enabled : Text → Config → Bool
is_scoping_enabled t c = t.equal_fold (t.trim_space c.scoping) "on"

unfoldable pub any_gate : Text → List String → String → Bool
any_gate t [] name = false
any_gate t (g ∷ gs) name = t.equal_fold (t.trim_space g) name || any_gate t gs name

unfoldable pub target_for : Config → String → Option Target
unfolding lookup
target_for c key = lookup c.targets key

-- What `AgentFor` returns: the agent's name, the agent, its backend and the state's entry; or one of its errors.
pub data Resolved : Type 0 where
  no_state : Resolved
  no_agent : Resolved
  no_backend : Resolved
  resolved : String → Agent → Backend → StateEntry → Resolved

unfoldable pub with_backend : StateEntry → Agent → Option Backend → Resolved
with_backend s a none = no_backend
with_backend s a (some b) = resolved s.agent a b s

unfoldable pub with_agent : Config → StateEntry → Option Agent → Resolved
unfolding with_backend lookup
with_agent c s none = no_agent
with_agent c s (some a) = with_backend s a (lookup c.backends a.backend)

unfoldable pub with_state : Config → Option StateEntry → Resolved
unfolding with_agent lookup
with_state c none = no_state
with_state c (some s) = with_agent c s (lookup c.agents s.agent)

unfoldable pub agent_for : Config → String → Resolved
unfolding with_state lookup
agent_for c name = with_state c (lookup c.states name)
