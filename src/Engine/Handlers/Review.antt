-- ===== src/Engine/Handlers/Review.antt =====
-- What the three review states of internal/engine/handlers.go share: the reviewer's run, the harvested review
-- and the verify pass over it.
use sdlc_orchestrator.Common.{ℕ, [], ◌∷◌}
use sdlc_orchestrator.Artifact.{Severity, Review}
use sdlc_orchestrator.Artifact.Load.{Loaded, loaded, unreadable, invalid, load_review}
use sdlc_orchestrator.Engine.Job.{words, Counters}
use sdlc_orchestrator.Engine.Verify.{
  Failure, quota, unreachable_backend, other_failure, Verified, no_pass, stopped, verified,
  verify_findings,
}
use sdlc_orchestrator.Engine.Rules.{Rules}
use sdlc_orchestrator.Engine.Bench.{
  Fail, out_of_quota, out_of_reach, plain, Act, pure, raise, ask, gets, ◌>>=◌, ◌>>◌, attempt, count,
  counters_of,
}
use sdlc_orchestrator.Engine.Context.{harvest, require_clean_tree}
use sdlc_orchestrator.Engine.Context.Agent.{run_agent}

-- A loader's result, as an error where it is none.
unfoldable pub or_raise {ℓ} : {A : Type ℓ} → Loaded A → Act A
or_raise (loaded a) = pure a
or_raise unreadable = raise (plain (words "cannot read the artifact" ∷ []))
or_raise (invalid msg) = raise (plain (words msg ∷ []))

abbrev pub used_now : ℕ → Counters → Counters
used_now n c = record c { agent_invocations = n }

unfoldable pub fail_of : Failure → Fail
fail_of (quota backend backoff) = out_of_quota backend backoff
fail_of (unreachable_backend backend detail backoff) = out_of_reach backend detail backoff
fail_of (other_failure s) = plain (words s ∷ [])

-- What a verify pass leaves: the review to gate on, and the invocations; the verified copy is written.
unfoldable pub after_pass : Verified → Act Review
unfolding fail_of
after_pass (no_pass r) = pure r
after_pass (stopped e used) = count (used_now used) >> raise (fail_of e)
after_pass (verified r survivors downgraded used) = do
  count (used_now used)
  attempt "write verified artifact"
  pure r

unfoldable pub verify_pass : Rules → Severity → Review → Act Review
unfolding after_pass verify_findings
verify_pass rules threshold r = do
  used ← gets (λ b. (counters_of b).agent_invocations)
  ran ← ask (λ o t. o.verifier t)
  after_pass (
      verify_findings rules.trim_space rules.mint rules.max_agent_invocations rules.verify_votes
        rules.verify_min_confirm ran threshold r used)

-- The post-condition of a reviewer.
unfoldable pub review_valid : Rules → Act (Unit {0})
unfolding load_review or_raise require_clean_tree
review_valid rules = do
  file ← gets (λ b. b.exchange.review)
  r ← or_raise (load_review file)
  require_clean_tree rules

-- A reviewer's run, and its review with the findings that the verify pass upholds.
unfoldable pub reviewed : Rules → Severity → Act Review
unfolding run_agent review_valid harvest load_review or_raise verify_pass
reviewed rules threshold = do
  run_agent rules (review_valid rules)
  harvest (λ e k. k)
  file ← gets (λ b. b.exchange.review)
  r ← or_raise (load_review file)
  verify_pass rules threshold r
