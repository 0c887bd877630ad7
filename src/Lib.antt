-- ===== src/Lib.antt =====
-- The core of sdlc-orchestrator, a Go program that takes an issue through scoping, planning, implementing,
-- reviewing, building, merging and releasing with coding agents, and stops at gates where a human decides.
-- An engine polls a database of jobs; the command line and the web UI write approval rows; agents leave
-- artifacts (plan, review, verdicts, problem statement) that the engine validates; a viewer parses the patch.
--
-- The parts and their files:
-- - Diff: internal/diff. Diff.antt has the data of diff.go; Diff/Flags, Diff/Paths and Diff/Headers its helpers;
--   Diff/Parser the parser (`step`, `stepHeader`; its children `addLine`, `closeFile`, `openHunk`, `stepHunk`); Diff/Parse
--   the lines of a patch and `Parse`; Diff/Split is split.go. A Go string is a list of bytes, an int a 64-bit
--   pattern on the line numbers. `strconv.Unquote`, `%q`, `strings.TrimSpace` and `strings.Fields` are the record
--   `GoText`, the rune decoders of unicode/utf8 and the float comparison of the intra-line guard the record `Utf8`.
--   `p.oldRem` may pass below zero: `Owed` keeps its sign.
-- - Artifact: internal/artifact/artifact.go, the types, `Blocking`, `ApplyVerdicts`, `CheckStepCoverage` and, in
--   Artifact/Load, the checks of LoadPlan, LoadReview, LoadImplementation, LoadVerdict and LoadProblem on what
--   `ReadJSON` decoded. A severity that is no constant is `unknown`.
-- - Engine: internal/engine. Engine/States is states.go and `review.GateFor`; Engine/Job the fields of store.Job
--   that the loop uses, `transition`, `hold`, `event`, `cleanup` and the approval rows; Engine/Job/Announce is
--   `announceGate` of gate.go without the text of the notice; Engine/Controls is `handleControls`; Engine/Gates is
--   `handleGate`; Engine/Tick is `tick` and its semaphore. A `Desk` is one job with its rows, events, notice,
--   worktree and branch; `World` holds the answers of the clock, the database and git, `Settings` the configuration.
-- - Engine/Step: the ends of `step` in engine.go, the budget of invocations before a handler and what its
--   outcome does to the job, with `preserveWork` of jobctx.go, whose commit git answers.
-- - Engine/Bench: the `jobCtx` of jobctx.go as the state of actions that may fail: the desk of the job, what the
--   agent left in `.sdlc/`, what is kept in the artifacts directory, and what git was asked to do. Every answer of
--   git, the file system, processes, devices and the clock is a function of the number of the call (`Outside`).
-- - Engine/Rules: the limits, policies and target of the configuration that the handlers read.
-- - Engine/Guard: internal/guard, `CompileGlob` up to the text of the regular expression, `CompileGlobs`, `Match`, `Matching`
--   and `CheckFixDiff`. Package regexp is the record `Regexp`.
-- - Engine/Context: the shared operations of jobctx.go, with `syncHead` and `reconcile`; Engine/Context/Agent is
--   `runAgent`, Engine/Context/Claims `reconcileClaims`.
-- - Engine/Handlers: the fourteen handlers of handlers.go (Design up to the design review, Code, Phases for the builds and
--   tests, Delivery for the merge and the release, Review for what the three reviews share), and `step` of engine.go
--   as a whole. The proofs follow two frames (Bench/Frame, Bench/Returns): what an action leaves as it was, and what it returns.
-- - Engine/Verify: verify.go, the verify pass: the ids of findings, the votes of a fan-out, the budget of
--   invocations and `verifyFindings`. A verifier's process is the record `Ran`.
-- - Config: internal/config/config.go, `Validate`, `AgentFor` and `Target`; Config/Defaults is `Default` and
--   `applyComputedDefaults`. A number that a user writes is an integer there.
-- - Jobs: internal/jobs/submit.go, `Submit` and `TitleAndBody`.
-- - Server: internal/server/shape.go, the pipeline strip, the classes and the sets of states of the dashboard.
-- - Common: the lists, bytes, Boolean tests and strings that the parts share.
--
-- How they meet: `tick` calls `handleControls`, `announceGate` and `handleGate` on a job, in this order; a gate
-- names its questions by `LoadProblem`; a job that `tick` lets run goes through `step`, which reconciles the worktree, looks
-- at the budget and runs the handler of the job's state; a review's findings go through the verify pass; the dashboard
-- asks its own sets of states.
--
-- Bounds and fuel: `split` runs on as much fuel as the hunk has lines and the scans for common prefixes and
-- suffixes on as much as the text has bytes; each round uses at least one. The search for a free finding id has one try more
-- than there are ids. `runAgent` makes one attempt more than there are retries, and reruns of a flaky phase are
-- counted down. The parser has no fuel. The counters of jobs are natural numbers; times are numbers of one clock, and a zero time is `none`.
--
-- Assumed: a write to the database succeeds where the code drops its error. A handler ends between two
-- passes of the loop, not within one.
--
-- Left out of the handlers: what the agent is shown (`stageArtifact`, the prompt's context, the notes on retries), the rows
-- of `agent_run` and `exec_run` events, timeouts and environments of commands, the note on changed files that an
-- implementation did not report, the order of the paths in its message, a panic, and the errors of `AgentFor` and `Target`; the limits are natural numbers.
--
-- Not modelled: the watcher of progress.go but for the commits that it leaves, the SQL of internal/store, git,
-- subprocesses, the agents' command lines, the reading of configuration files and
-- `NormalizeListen`, rendering and HTTP.
mod Common
pub mod Diff
pub mod Artifact
pub mod Config
pub mod Engine
pub mod Server
pub mod Jobs
