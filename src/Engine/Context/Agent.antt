-- ===== src/Engine/Context/Agent.antt =====
-- `runAgent` of internal/engine/jobctx.go: the attempts of an agent at a state, its budget and its post-condition.
pub mod Frame
pub mod Budget
use sdlc_orchestrator.Common.{
  ℕ, zero, suc, ◌+◌, leb, Bool, true, false, not, List, [], ◌∷◌, ◌++◌, Option, none, some, String,
  if◌then◌else◌, ◌==◌,
}
use sdlc_orchestrator.Engine.Job.{Piece, words, number, Job, Counters}
use sdlc_orchestrator.Engine.States.{produces_code}
use sdlc_orchestrator.Engine.Rules.{Rules}
use sdlc_orchestrator.Engine.Bench.{
  Exchange, AgentRun, GitOp, committed, Outside, Bench, Fail, out_of_quota, out_of_reach, plain,
  Result, ok, err, Act, pure, raise, escalate, ask, call, gets, ◌>>=◌, ◌>>◌, modify, attempt, count,
  with_job, with_counters, note, counters_of,
}
use sdlc_orchestrator.Engine.Context.{state_baseline}

-- The last of the commits that the watcher made, where it made one.
abbrev pub last_head : String → List String → String
last_head head [] = head
last_head head (sha ∷ shas) = last_head sha shas

abbrev pub trace_of : List String → List GitOp
trace_of [] = []
trace_of (sha ∷ shas) = committed sha ∷ trace_of shas

-- The watcher commits steps only in a state whose agent writes code.
unfoldable pub steps_of : AgentRun → Bench → List String
unfolding produces_code
steps_of r b = if produces_code (b.desk.job.state) then r.checkpoints else []

-- What an agent's process leaves: its files, and the commits of its finished steps.
unfoldable pub left_by : AgentRun → Bench → Bench
unfolding with_job steps_of
left_by r b =
    with_job (λ j. record j { head_sha = last_head j.head_sha (steps_of r b) })
      (record b { exchange = r.files; git = b.git ++ trace_of (steps_of r b) })

-- The invocation is counted, whatever came of it.
unfoldable pub invoked : ℕ → Counters → Counters
invoked n c = record c { agent_invocations = suc c.agent_invocations; agent_retries = n }

-- An attempt up to the end of the process.
unfoldable pub start_agent : ℕ → Act AgentRun
unfolding left_by invoked
start_agent n = do
  attempt "render prompt"
  r ← ask (λ o t. o.agent t)
  modify (left_by r)
  count (invoked n)
  pure r

unfoldable pub noted_exit : ℕ → Act (Unit {0})
noted_exit code =
    if code == 0 then pure tt else note (words "post_condition_overrode_exit " ∷ number code ∷ [])

-- The post-condition decides; its failure is a reason to go on.
unfoldable pub check : Act (Unit {0}) → Act (Unit {0}) → Act (Unit {0}) → Act (Unit {0})
check validate again done o b =
    let (r, b') = validate o b in elim r [ ok a ↦ done o b' | err e ↦ again o b' ]

-- What the end of the process means for the attempt.
unfoldable pub judge_run : AgentRun → Act (Unit {0}) → Act (Unit {0}) → Act (Unit {0})
unfolding check noted_exit
judge_run r validate again =
    if not r.spawned
    then again
    else if r.unreachable
    then raise (out_of_reach r.backend r.detail r.backoff)
    else if r.quota_hit
    then raise (out_of_quota r.backend r.backoff)
    else if r.timed_out
    then again
    else if r.model_mismatch
    then again
    else check validate again (noted_exit r.exit_code)

abbrev pub exhausted : ℕ → Act (Unit {0})
exhausted n = escalate (words "agent budget exhausted (" ∷ number n ∷ words " invocations)" ∷ [])

unfoldable pub attempt_agent : ℕ → Act (Unit {0}) → Act (Unit {0}) → Act (Unit {0})
unfolding start_agent judge_run
attempt_agent n validate again = do r ← start_agent n; judge_run r validate again

-- The loop from attempt `n` on, with the attempts that are left.
unfoldable pub attempts : Rules → Act (Unit {0}) → ℕ → ℕ → Act (Unit {0})
unfolding attempt_agent
attempts rules validate zero n =
    escalate (words "failed after " ∷ number n ∷ words " attempts" ∷ [])
attempts rules validate (suc left) n =
    let again = attempts rules validate left (suc n) in
    gets (λ b. (counters_of b).agent_invocations) >>= λ used.
    if leb rules.max_agent_invocations used then exhausted used else attempt_agent n validate again

unfoldable pub run_agent : Rules → Act (Unit {0}) → Act (Unit {0})
unfolding state_baseline attempts
run_agent rules validate = do
  head ← state_baseline
  attempts rules validate (suc rules.max_agent_retries) 0
