-- ===== src/Engine/Rules.antt =====
-- The configuration that the state handlers of internal/engine read: limits, policies and the job's target.
use sdlc_orchestrator.Common.{ℕ, Bool, List, String, Bytes}
use sdlc_orchestrator.Engine.Guard.{Regexp}
use sdlc_orchestrator.Artifact.{Severity}

pub record Rules : Type 0 where
  -- limits
  pub max_scope_rounds : ℕ
  pub max_design_review_rounds : ℕ
  pub max_code_review_rounds : ℕ
  pub max_fix_attempts : ℕ
  pub max_flake_retries : ℕ
  pub flake_rerun_count : ℕ
  pub max_agent_retries : ℕ
  pub max_agent_invocations : ℕ
  pub max_release_retries : ℕ
  pub release_retry_backoff : ℕ
  pub verify_votes : ℕ
  pub verify_min_confirm : ℕ
  -- policies
  pub protected_branches : List String
  pub scoping_enabled : Bool
  pub human_gate : String → Bool
  pub design_review_blocks_at : Severity
  pub code_review_blocks_at : Severity
  pub final_review_blocks_at : Severity
  pub protect_tests_on_code_bug_fix : Bool
  pub reviewer_diff_must_be_empty : Bool
  pub test_file_globs : List Bytes
  -- target
  pub default_branch : String
  pub build_commands : List (List String)
  pub lint_command : List String
  pub lint_run_in : String
  pub unit_command : List String
  pub ui_enabled : Bool
  pub ui_command : List String
  pub on_no_device : String
  pub rebase_before_merge : Bool
  pub verify_after_rebase : String
  pub push : String
  pub auto_resume_halt : Bool
  pub resume_command : List String
  -- packages regexp, strings and fmt
  pub regexp : Regexp
  pub trim_space : String → String
  pub mint : ℕ → String
