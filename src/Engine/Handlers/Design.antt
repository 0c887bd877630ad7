-- ===== src/Engine/Handlers/Design.antt =====
-- handleCreated, handleScoping, handlePlanning and handleDesignReview of internal/engine/handlers.go.
use sdlc_orchestrator.Common.{
  ℕ, suc, leb, Bool, not, List, [], ◌∷◌, String, has, is_empty, length, if◌then◌else◌,
}
use sdlc_orchestrator.Artifact.{Problem, Review, blocking, blocking_questions}
use sdlc_orchestrator.Artifact.Load.{load_problem, load_spec, load_plan}
use sdlc_orchestrator.Engine.States
use sdlc_orchestrator.Engine.States.{State}
use sdlc_orchestrator.Engine.Job.{Piece, words, number, Counters}
use sdlc_orchestrator.Engine.Rules.{Rules}
use sdlc_orchestrator.Engine.Bench.{
  ensured_worktree, plain, Act, pure, escalate, ask, call, gets, ◌>>=◌, ◌>>◌, raise_if, attempt,
  count, traced, note, set_head, job_of, counters_of,
}
use sdlc_orchestrator.Engine.Context.{reset_exchange, harvest, discard_tree_changes}
use sdlc_orchestrator.Engine.Context.Agent.{run_agent}
use sdlc_orchestrator.Engine.Handlers.Review.{or_raise, reviewed}

abbrev pub based_on : String → Counters → Counters
based_on sha c = record c { base_sha = sha }

unfoldable pub handle_created : Rules → Act State
handle_created rules = do
  attempt "not a git repository"
  branch ← gets (λ b. (job_of b).branch)
  raise_if (has rules.protected_branches branch) (plain (words "protected branch" ∷ []))
  attempt "provision worktree"
  traced ensured_worktree
  attempt "exclude .sdlc/"
  attempt "artifact layout"
  sha ← call "git rev-parse" (λ o t. o.sha t)
  set_head sha
  count (based_on sha)
  attempt "update the job"
  pure (if rules.scoping_enabled then States.scoping else States.planning)

abbrev pub answered : Counters → Counters
answered c = record c { human_reject_reason = "" }

unfoldable pub problem_valid : Rules → Act (Unit {0})
unfolding load_problem or_raise
problem_valid rules = do
  file ← gets (λ b. b.exchange.problem)
  p ← or_raise (load_problem rules.trim_space file)
  pure tt

-- Where a scoped problem goes.
unfoldable pub scoped : Rules → Problem → Act State
unfolding blocking_questions
scoped rules p =
    if not (is_empty (blocking_questions p))
    then (note (words "awaiting_scope_approval: agent_blocked" ∷ []) >> pure States.await_scope)
    else if rules.human_gate "scope"
    then (note (words "awaiting_scope_approval: policy_gate" ∷ []) >> pure States.await_scope)
    else pure States.planning

unfoldable pub handle_scoping : Rules → Act State
unfolding reset_exchange run_agent problem_valid harvest load_problem or_raise discard_tree_changes
    scoped
handle_scoping rules = do
  reset_exchange
  run_agent rules (problem_valid rules)
  harvest (λ e k. record k { problem = e.problem })
  file ← gets (λ b. b.kept.problem)
  p ← or_raise (load_problem rules.trim_space file)
  count answered
  discard_tree_changes
  scoped rules p

abbrev pub replanned : Counters → Counters
replanned c = record c { human_reject_reason = ""; fix_source = "" }

unfoldable pub plan_valid : Act (Unit {0})
unfolding load_spec load_plan or_raise
plan_valid = do
  spec_file ← gets (λ b. b.exchange.spec)
  s ← or_raise (load_spec spec_file)
  plan_file ← gets (λ b. b.exchange.plan)
  p ← or_raise (load_plan plan_file)
  pure tt

unfoldable pub handle_planning : Rules → Act State
unfolding reset_exchange run_agent plan_valid harvest discard_tree_changes
handle_planning rules = do
  reset_exchange
  run_agent rules plan_valid
  harvest (λ e k. record k { spec = e.spec })
  harvest (λ e k. record k { plan = e.plan })
  count replanned
  discard_tree_changes
  pure States.design_review

abbrev pub design_round : ℕ → Counters → Counters
design_round n c = record c { design_review_rounds = n }

abbrev pub design_passed : List Piece → Counters → Counters
design_passed name c = record c { last_design_review = name }

abbrev pub design_review_name : ℕ → Bool → List Piece
design_review_name n verified =
    words "design_review.r" ∷ number n ∷ words (if verified then ".verified.json" else ".json") ∷ []

-- The review blocks: another round of planning, while there is one.
unfoldable pub design_blocked : Rules → ℕ → Act State
design_blocked rules round = do
  count (design_round round)
  if leb rules.max_design_review_rounds round
      then escalate
          (words "design review still blocks after " ∷ number round ∷ words " round(s)" ∷ [])
      else pure States.planning

-- The artifact that holds the findings is remembered, in its verified copy where there is one.
unfoldable pub remember_findings : Review → ℕ → Act (Unit {0})
remember_findings r round = do
  verified ← ask (λ o t. o.yes t)
  count (design_passed (design_review_name round verified))
  note (words "design_review_passed_with_findings " ∷ number (length r.findings) ∷ [])

unfoldable pub design_findings : Review → ℕ → Act (Unit {0})
unfolding remember_findings
design_findings r round = do
  count (design_passed [])
  if is_empty r.findings then pure tt else remember_findings r round

unfoldable pub design_cleared : Rules → Review → ℕ → Act State
unfolding design_findings
design_cleared rules r round = do
  design_findings r round
  if rules.human_gate "spec"
      then (note (words "awaiting_spec_approval" ∷ []) >> pure States.await_spec)
      else pure States.implementing

unfoldable pub handle_design_review : Rules → Act State
unfolding reset_exchange reviewed blocking design_blocked design_cleared
handle_design_review rules = do
  round ← gets (λ b. suc (counters_of b).design_review_rounds)
  reset_exchange
  r ← reviewed rules rules.design_review_blocks_at
  if is_empty (blocking rules.design_review_blocks_at r)
      then design_cleared rules r round
      else design_blocked rules round
