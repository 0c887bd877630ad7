-- ===== src/Engine/Bench.antt =====
-- The working context of a state handler, `jobCtx` of internal/engine/jobctx.go: a job with what its agent
-- wrote and what is kept of it, and actions that may fail. What git, the file system, the processes and the
-- clock answer is a parameter, by the number of the call; what the agent is shown is left out.
pub mod Frame
pub mod Returns
use sdlc_orchestrator.Common.{
  ℕ, suc, Bool, true, false, List, [], ◌∷◌, ◌++◌, Option, none, some, String, if◌then◌else◌,
}
use sdlc_orchestrator.Engine.Job.{
  Piece, words, Counters, Job, Detail, noted, preserved, Desk, World, event,
}
use sdlc_orchestrator.Artifact.{
  Severity, Spec, Plan, Review, Implementation, Analysis, Problem, Verdict, Finding,
}
use sdlc_orchestrator.Engine.Verify.{Failure, Ran}

-- The agent's output files in `.sdlc/`, as `ReadJSON` decodes them: `none` where it fails.
pub record Exchange : Type 0 where
  pub problem : Option Problem
  pub spec : Option Spec
  pub plan : Option Plan
  pub implementation : Option Implementation
  pub review : Option Review
  pub analysis : Option Analysis
  pub fix : Option Implementation

abbrev pub no_outputs : Exchange
no_outputs = record {
  problem = none;
  spec = none;
  plan = none;
  implementation = none;
  review = none;
  analysis = none;
  fix = none;
}

-- How an agent's process ended, what it left in `.sdlc/` and the commits that the watcher made of its steps.
pub record AgentRun : Type 0 where
  pub spawned : Bool
  pub unreachable : Bool
  pub quota_hit : Bool
  pub timed_out : Bool
  pub model_mismatch : Bool
  pub exit_code : ℕ
  pub backend : String
  pub detail : String
  pub backoff : ℕ
  pub files : Exchange
  pub checkpoints : List String

-- A command's end: `none` where it could not be run, else its exit code; and its log.
pub record PhaseRun : Type 0 where
  pub exit : Option ℕ
  pub log : String

-- What git was asked to do to the worktree and the repository, where the request did not return an error that
-- ended the handler.
pub data GitOp : Type 0 where
  ensured_worktree : GitOp
  committed : String → GitOp
  reset_hard_clean : String → GitOp
  rebased_onto : String → GitOp
  checked_out : String → GitOp
  merged_no_ff : GitOp
  pushed : String → GitOp

-- The answers, by the number of the call: whether the call fails, and what it returns.
pub record Outside : Type 0 where
  pub clock : ℕ → ℕ
  pub fails : ℕ → Bool
  pub yes : ℕ → Bool
  pub sha : ℕ → String
  pub names : ℕ → List String
  pub branch : ℕ → String
  pub device : ℕ → Option String
  pub agent : ℕ → AgentRun
  pub phase : ℕ → PhaseRun
  pub verifier : ℕ → Finding → ℕ → Ran

-- The artifacts directory, the files that a later state reads.
pub record Kept : Type 0 where
  pub problem : Option Problem
  pub spec : Option Spec
  pub plan : Option Plan
  pub implementation : Option Implementation

pub record Bench : Type 0 where
  pub desk : Desk
  pub exchange : Exchange
  pub kept : Kept
  pub git : List GitOp
  pub calls : ℕ

-- The errors that `step` tells apart; the state of a `holdErr` is always ESCALATED, as `escalate` makes it.
pub data Fail : Type 0 where
  out_of_quota : String → ℕ → Fail
  out_of_reach : String → String → ℕ → Fail
  held_in : List Piece → Fail
  plain : List Piece → Fail

pub data Result {ℓ} (A : Type ℓ) : Type ℓ where
  ok : A → Result A
  err : Fail → Result A

abbrev pub Act {ℓ} : Type ℓ → Type ℓ
Act A = Outside → Bench → Result A × Bench

module _ {ℓ} {A : Type ℓ} where
  unfoldable pub pure : A → Act A
  pure a o b = (ok a, b)

  unfoldable pub raise : Fail → Act A
  raise e o b = (err e, b)

  -- `escalate`.
  abbrev pub escalate : List Piece → Act A
  escalate reason = raise (held_in reason)

  -- A call that cannot fail, or whose error the code drops.
  unfoldable pub ask : (Outside → ℕ → A) → Act A
  ask f o b = (ok (f o b.calls), record b { calls = suc b.calls })

  -- A call whose error the code returns.
  unfoldable pub call : String → (Outside → ℕ → A) → Act A
  call what f o b = (
    if o.fails b.calls then err (plain (words what ∷ [])) else ok (f o b.calls),
    record b { calls = suc b.calls },
  )

  unfoldable pub gets : (Bench → A) → Act A
  gets f o b = (ok (f b), b)

infixl 5 ◌>>=◌ ◌>>◌
unfoldable pub ◌>>=◌ {ℓ κ} : {A : Type ℓ} {B : Type κ} → Act A → (A → Act B) → Act B
◌>>=◌ m f o b = let (r, b') = m o b in elim r [ ok a ↦ f a o b' | err e ↦ (err e, b') ]

abbrev pub ◌>>◌ {κ} : {B : Type κ} → Act (Unit {0}) → Act B → Act B
m >> k = m >>= λ _. k

unfoldable pub modify : (Bench → Bench) → Act (Unit {0})
modify f o b = (ok tt, f b)

unfoldable pub raise_if : Bool → Fail → Act (Unit {0})
raise_if c e o b = (if c then err e else ok tt, b)

-- A call for its effect alone, and the trace that it leaves in git where it succeeds.
abbrev pub attempt : String → Act (Unit {0})
attempt what = call what (λ o t. tt)

unfoldable pub with_job : (Job → Job) → Bench → Bench
with_job f b = record b { desk = record (b.desk) { job = f b.desk.job } }

unfoldable pub with_counters : (Counters → Counters) → Bench → Bench
unfolding with_job
with_counters f b = with_job (λ j. record j { counters = f j.counters }) b

abbrev pub job_of : Bench → Job
job_of b = b.desk.job

abbrev pub counters_of : Bench → Counters
counters_of b = b.desk.job.counters

unfoldable pub count : (Counters → Counters) → Act (Unit {0})
unfolding with_counters modify
count f = modify (with_counters f)

unfoldable pub traced : GitOp → Act (Unit {0})
unfolding modify
traced g = modify (λ b. record b { git = b.git ++ (g ∷ []) })

-- `c.e.event` on a note.
unfoldable pub note : List Piece → Act (Unit {0})
unfolding event modify
note text = modify (λ b. record b { desk = event (noted text) b.desk })

-- `SHA` of the branch in the job record.
unfoldable pub set_head : String → Act (Unit {0})
unfolding with_job modify
set_head sha = modify (with_job (λ j. record j { head_sha = sha }))
