-- ===== src/Engine/Handlers/Steps.antt =====
-- `step` of internal/engine/engine.go as a whole, with its reconciliation, its budget and what it makes of an error.
use sdlc_orchestrator.Common.{
  ℕ, ◌≡◌, ◌≤◌, ◌<◌, sym, subst, refl, ap, ◌∙◌, Bool, true, List, [], ◌∷◌, Option, none, some, Bytes,
  arith, inl, inr, if_both, if◌then◌else◌, ◌&&◌, leb,
}
use sdlc_orchestrator.Engine.States
use sdlc_orchestrator.Engine.States.{State, same_state, is_agent_state, completed}
use sdlc_orchestrator.Engine.Job.{
  Piece, words, number, Desk, Settings, World, transition, moved_job, hold, held_for, event,
}
use sdlc_orchestrator.Engine.Rules.{Rules}
use sdlc_orchestrator.Engine.Step.{over_budget, settle_outcome, go_on}
use sdlc_orchestrator.Engine.Bench.{Outside, Bench, Act, Result, ok, err, counters_of}
use sdlc_orchestrator.Engine.Bench.Frame.{Frame, Framed, Keeps, merges}
use sdlc_orchestrator.Engine.Bench.Returns.{Value, Invokes}
use sdlc_orchestrator.Engine.Context.{reconcile, sync_head}
use sdlc_orchestrator.Engine.Context.Frame.{reconcile-Keeps, sync_head-Keeps}
use sdlc_orchestrator.Engine.Handlers.{
  handler, outcome_of, work_commit, looks_at_worktree, run_handler, budgeted, dispatch, reconciled,
  step,
}
use sdlc_orchestrator.Engine.Handlers.Pipeline.{handler-Next}
use sdlc_orchestrator.Engine.Handlers.Bounds.{elsewhere, frame_of, handler-Keeps}
use sdlc_orchestrator.Engine.Handlers.Invocations.{handler-Invokes}
use sdlc_orchestrator.Engine.Handlers.Retries.{handler-Retries, Retries-testing}
use sdlc_orchestrator.Engine.Handlers.Progress.{Onward, Next-Onward, Next-same, go_on-state}
use sdlc_orchestrator.Engine.Handlers.Delays.{
  Resumes, Waits-ResumesIn, parked-Resumes, go_on-Resumes,
}
use sdlc_orchestrator.Engine.Handlers.Outcomes.{
  used_by, flakes_of, go_on-Same, settle_outcome-Same, err-parks,
}

-- What a step may leave of a bench whose job was in `s`.
abbrev pub Stepped : Rules → Outside → State → Bench → Bench → Type 0
Stepped rules o s b b' =
    Onward rules s b'.desk.job.state (used_by b.desk) (flakes_of b.desk) (used_by b'.desk)
      (flakes_of b'.desk)
    × (used_by b'.desk ≤ rules.max_agent_invocations)
    × (elsewhere s ≡ true → merges b'.git ≡ merges b.git)
    × Resumes rules o s b'.desk

module _ (rules : Rules) where
  Onward-le :
      (s s' : State) (i f j g i' f' : ℕ)
      → i ≤ j
      → f ≤ g
      → Onward rules s s' j g i' f'
      → Onward rules s s' i f i' f'
  Onward-le s s' i f j g i' f' li lf (inl h) = inl h
  Onward-le s s' i f j g i' f' li lf (inr (inl h)) = inr (inl h)
  Onward-le s s' i f j g i' f' li lf (inr (inr h)) = inr (inr (omega (arith, h)))

  module _ (trim_path : Bytes → Bytes) (c : Settings) (w : World) (o : Outside) where
    ended-Framed :
        (s : State) (m : Act State) (b : Bench) (r : Result State) (b' : Bench)
        → handler rules trim_path s ≡ some m
        → m o b ≡ (r, b')
        → Framed (frame_of rules s) b b'
    unfolding Keeps
    ended-Framed s m b r b' hm h =
        subst (λ (x : Result State × Bench). Framed (frame_of rules s) b x.1) h
          (handler-Keeps rules trim_path s m hm o b)

    ended-grown :
        (s : State) (m : Act State) (b : Bench) (s' : State) (b' : Bench)
        → handler rules trim_path s ≡ some m
        → m o b ≡ (ok s', b')
        → is_agent_state s ≡ true
        → (counters_of b).agent_invocations < (counters_of b').agent_invocations
    unfolding Invokes
    ended-grown s m b s' b' hm h agent =
        subst
          (λ (x : Result State × Bench).
            Value
              (λ (a : State).
                (counters_of b).agent_invocations < (counters_of (x.1)).agent_invocations)
              x.0)
          h (handler-Invokes rules trim_path s m hm agent o b)

    ended-retry :
        (s : State) (m : Act State) (b : Bench) (s' : State) (b' : Bench)
        → handler rules trim_path s ≡ some m
        → m o b ≡ (ok s', b')
        → s ≡ States.flake_check
        → s' ≡ States.testing
        → ((counters_of b).flake_retries < (counters_of b').flake_retries)
          × ((counters_of b').flake_retries ≤ rules.max_flake_retries)
    ended-retry s m b s' b' hm h es et =
        Retries-testing rules m o b s' b'
          (handler-Retries rules trim_path m
            (subst (λ (x : State). handler rules trim_path x ≡ some m) es hm))
          h et

    -- A handler that ended.
    ended-Stepped :
        (s : State) (m : Act State) (b : Bench) (r : Result State) (b' : Bench)
        → handler rules trim_path s ≡ some m
        → m o b ≡ (r, b')
        → b.desk.job.state ≡ s
        → used_by b.desk ≤ rules.max_agent_invocations
        → Stepped rules o s b
            (record b' { desk = settle_outcome c w (work_commit o b') (outcome_of r) b'.desk })
    unfolding outcome_of settle_outcome
    ended-Stepped s m b (err e) b' hm h hs le =
        let f = ended-Framed s m b (err e) b' hm h in
        let same = settle_outcome-Same c w (work_commit o b') (outcome_of (err e)) b'.desk in
        (
          inl (err-parks c w (work_commit o b') e b'.desk),
          omega (arith, same.0, f.5 rules.max_agent_invocations refl le),
          f.2,
          parked-Resumes rules o s
              (settle_outcome c w (work_commit o b') (outcome_of (err e)) b'.desk)
              (err-parks c w (work_commit o b') e b'.desk),
        )
    ended-Stepped s m b (ok s') b' hm h hs le =
        let f = ended-Framed s m b (ok s') b' hm h in
        let same = go_on-Same c w s' b'.desk in
        let next =
          handler-Next rules trim_path s m o b s' hm (ap (λ (x : Result State × Bench). x.0) h) in
        let within = f.5 rules.max_agent_invocations refl le in
        let at = f.4 ∙ hs in
        let onward =
          Next-Onward rules _ _ _ _ s s' next (f.0) within (f.1) (ended-grown s m b s' b' hm h)
            (ended-retry s m b s' b' hm h) in
        let there = go_on-state c w s' b'.desk (λ e.
          Next-same rules s s' next (subst (λ (x : State). same_state s' x ≡ true) at e)
          ∙ sym at) in
        let resumes =
          go_on-Resumes rules c w o s s' b'.desk at there
            (Waits-ResumesIn rules trim_path m o b b' s s' hm h) in
        let k' = go_on c w s' b'.desk in
        let counted : (Onward rules s k'.job.state (used_by b.desk) (flakes_of b.desk) (used_by k')
              (flakes_of k')
            × (used_by k' ≤ rules.max_agent_invocations)) =
          rw (there, same.0, same.1) (onward, within) in
        (counted.0, counted.1, f.2, resumes)

    -- Parked for want of a handler, of a reconciled worktree or of invocations.
    parked-Stepped :
        (s : State) (b : Bench) (reason : List Piece)
        → used_by b.desk ≤ rules.max_agent_invocations
        → Stepped rules o s b (record b { desk = hold w States.escalated reason b.desk })
    unfolding hold held_for transition moved_job event
    parked-Stepped s b reason le = (
      inl refl,
      le,
      λ x. refl,
      parked-Resumes rules o s (hold w States.escalated reason b.desk) refl,
    )

    run_handler-Stepped :
        (s : State) (b : Bench)
        → b.desk.job.state ≡ s
        → used_by b.desk ≤ rules.max_agent_invocations
        → Stepped rules o s b (run_handler rules trim_path c w o (handler rules trim_path s) b)
    unfolding run_handler
    run_handler-Stepped s b hs le = by_handler (handler rules trim_path s) refl
      where
        by_handler :
            (m : Option (Act State))
            → handler rules trim_path s ≡ m
            → Stepped rules o s b (run_handler rules trim_path c w o m b)
        by_handler none e = parked-Stepped s b (words "no handler for state" ∷ []) le
        by_handler (some m) e = ended-Stepped s m b ((m o b).0) ((m o b).1) e refl hs le

    -- What stands before the handler changes nothing that counts.
    abbrev quiet : Frame
    quiet = record { apart = true; quiet = true; cap = some rules.max_agent_invocations }

    Stepped-from :
        (s : State) (b b1 b' : Bench)
        → Framed quiet b b1
        → Stepped rules o s b1 b'
        → Stepped rules o s b b'
    Stepped-from s b b1 b' f (onward, within, apart, resumes) = (
      Onward-le s b'.desk.job.state (used_by b.desk) (flakes_of b.desk) (used_by b1.desk)
          (flakes_of b1.desk) _ _ (f.0) (f.1) onward,
      within,
      λ e. apart e ∙ f.2 refl,
      resumes,
    )

    budgeted-Stepped :
        (b : Bench)
        → used_by b.desk ≤ rules.max_agent_invocations
        → Stepped rules o b.desk.job.state b (budgeted rules trim_path c w o b)
    unfolding budgeted over_budget
    budgeted-Stepped b le =
        if_both
          (λ (x : Option Desk). Stepped rules o b.desk.job.state b (elim x as (λ y. Bench) [
            | some k ↦ record b { desk = k }
            | none ↦ run_handler rules trim_path c w o (handler rules trim_path b.desk.job.state) b
          ]))
          (is_agent_state b.desk.job.state && leb rules.max_agent_invocations (used_by b.desk)) _
          none
          (parked-Stepped b.desk.job.state b
            (words "agent budget exhausted ("
              ∷ number (used_by b.desk)
              ∷ words " invocations)"
              ∷ [])
            le)
          (run_handler-Stepped b.desk.job.state b refl le)

    synced-Framed :
        (b : Bench)
        → Framed quiet b (if looks_at_worktree b.desk.job.state then (sync_head o b).1 else b)
    unfolding Keeps
    synced-Framed b =
        if_both (Framed quiet b) (looks_at_worktree b.desk.job.state) ((sync_head o b).1) b
          (sync_head-Keeps quiet o b)
          (omega arith, omega arith, λ e. refl, λ e. refl, refl, λ n e l. l)

    dispatch-Stepped :
        (s : State) (b : Bench)
        → b.desk.job.state ≡ s
        → used_by b.desk ≤ rules.max_agent_invocations
        → Stepped rules o s b (dispatch rules trim_path c w o b)
    unfolding dispatch
    dispatch-Stepped s b hs le =
        let b1 = if looks_at_worktree b.desk.job.state then (sync_head o b).1 else b in
        let f = synced-Framed b in
        Stepped-from s b b1 (budgeted rules trim_path c w o b1) f (
          subst (λ (x : State). Stepped rules o x b1 (budgeted rules trim_path c w o b1)) (f.4 ∙ hs)
            (budgeted-Stepped b1 (f.5 rules.max_agent_invocations refl le)))

    pub step-Stepped :
        (need_rec : Bool) (b : Bench)
        → used_by b.desk ≤ rules.max_agent_invocations
        → Stepped rules o b.desk.job.state b (step rules trim_path c w o need_rec b)
    unfolding step Keeps reconciled
    step-Stepped need_rec b le =
        let s = b.desk.job.state in
        if_both (Stepped rules o s b) (need_rec && looks_at_worktree s) _ _
          (by_result ((reconcile o b).0) ((reconcile o b).1) (reconcile-Keeps quiet o b))
          (dispatch-Stepped s b refl le)
      where
        by_result :
            (r : Result (Unit {0})) (b1 : Bench)
            → Framed quiet b b1
            → Stepped rules o b.desk.job.state b (reconciled rules trim_path c w o r b1)
        by_result (ok u) b1 f =
            Stepped-from b.desk.job.state b b1 (dispatch rules trim_path c w o b1) f
              (dispatch-Stepped b.desk.job.state b1 (f.4) (f.5 rules.max_agent_invocations refl le))
        by_result (err e) b1 f =
            Stepped-from b.desk.job.state b b1
              (record b1 {
                desk = hold w States.escalated (words "resume reconciliation failed" ∷ []) b1.desk;
              })
              f
              (parked-Stepped b.desk.job.state b1 (words "resume reconciliation failed" ∷ [])
                (f.5 rules.max_agent_invocations refl le))

    -- A step of a job within its budget of agent invocations leaves it within its budget, whatever agents, verifiers,
    -- commands and git answer, and however its handler ends.
    pub step-budget :
        (need_rec : Bool) (b : Bench)
        → used_by b.desk ≤ rules.max_agent_invocations
        → used_by (step rules trim_path c w o need_rec b).desk ≤ rules.max_agent_invocations
    step-budget need_rec b le = (step-Stepped need_rec b le).1

    -- A step of a job within its budget that is not MERGING never merges into the default branch.
    pub step-merges :
        (need_rec : Bool) (b : Bench)
        → used_by b.desk ≤ rules.max_agent_invocations
        → elsewhere b.desk.job.state ≡ true
        → merges (step rules trim_path c w o need_rec b).git ≡ merges b.git
    step-merges need_rec b le e = (step-Stepped need_rec b le).2 e
