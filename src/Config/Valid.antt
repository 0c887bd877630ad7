-- ===== src/Config/Valid.antt =====
-- What a configuration that `Validate` of internal/config/config.go lets through is good for.
use sdlc_orchestrator.Common.{
  ◌≡◌, refl, ap, ◌∙◌, subst, Bool, true, false, not, ◌||◌, List, [], ◌∷◌, ◌++◌, Option, none, some,
  String, str_eq, has, str_eq→eq, if_both, is_empty, arith, if◌then◌else◌,
}
use sdlc_orchestrator.Config.{
  Text, Config, Agent, Backend, StateEntry, lookup, is_in, unless, each, validate, agent_errs,
  state_errs, of_agent, independence_errs, differs, shares, first_errs, last_errs, all_agent_errs,
  state_or_zero, agent_state_names, Resolved, no_state, no_agent, no_backend, resolved,
  with_backend, with_agent, with_state, agent_for,
}

-- No errors in a chain are no errors in its parts.
append-empty :
    (xs ys : List String) → is_empty (xs ++ ys) ≡ true → (is_empty xs ≡ true) × (is_empty ys ≡ true)
append-empty [] ys h = (refl, h)
append-empty (x ∷ xs) ys h = ground (arith, h)

unless-met : (ok : Bool) (m : String) → is_empty (unless ok m) ≡ true → ok ≡ true
unless-met true m h = refl
unless-met false m h = ground (arith, h)

not-true : (q : Bool) → not q ≡ true → q ≡ false
not-true true h = ground (arith, h)
not-true false h = refl

-- The errors of an entry, where there is one.
Met {ℓ} : {A : Type ℓ} → (A → List String) → Option A → Type 0
Met f none = Unit {0}
Met f (some v) = is_empty (f v) ≡ true

each-lookup {ℓ} :
    {A : Type ℓ} (f : A → List String) (xs : List (String × A)) (k : String)
    → is_empty (each (λ (x : String × A). f (x.1)) xs) ≡ true
    → Met f (lookup xs k)
unfolding lookup Met
each-lookup f [] k h = tt
each-lookup f ((j, v) ∷ xs) k h =
    let a = append-empty (f v) _ h in
    if_both (Met f) (str_eq j k) (some v) (lookup xs k) (a.0) (each-lookup f xs k (a.1))

each-has :
    (f : String → List String) (xs : List String) (k : String)
    → is_empty (each f xs) ≡ true
    → has xs k ≡ true
    → is_empty (f k) ≡ true
unfolding has
each-has f [] k h e = ground (arith, e)
each-has f (x ∷ xs) k h e = by_head (each-has f xs k) (str_eq x k) refl e
  where
    by_head :
        (is_empty (each f xs) ≡ true → has xs k ≡ true → is_empty (f k) ≡ true)
        → (t : Bool) → str_eq x k ≡ t
        → (t || has xs k) ≡ true
        → is_empty (f k) ≡ true
    by_head rest true q r =
        subst (λ (y : String). is_empty (f y) ≡ true) (str_eq→eq x k q)
          ((append-empty (f x) (each f xs) h).0)
    by_head rest false q r = rest ((append-empty (f x) (each f xs) h).1) r

-- What `AgentFor` found, where it found it.
abbrev pub Found : Config → String → Resolved → Type 0
Found c name (resolved agent a b s) =
    (lookup c.states name ≡ some s)
    × (s.agent ≡ agent)
    × (lookup c.agents agent ≡ some a)
    × (lookup c.backends a.backend ≡ some b)
Found c name _ = Unit {0}

agent_for-Found : (c : Config) (name : String) → Found c name (agent_for c name)
unfolding agent_for with_state with_agent with_backend
agent_for-Found c name = by_state (lookup c.states name) refl
  where
    by_backend :
        (s : StateEntry) (a : Agent)
        → lookup c.states name ≡ some s
        → lookup c.agents s.agent ≡ some a
        → (b : Option Backend) → lookup c.backends a.backend ≡ b
        → Found c name (with_backend s a b)
    by_backend s a es ea none eb = tt
    by_backend s a es ea (some b) eb = (es, refl, ea, eb)

    by_agent :
        (s : StateEntry)
        → lookup c.states name ≡ some s
        → (a : Option Agent) → lookup c.agents s.agent ≡ a
        → Found c name (with_agent c s a)
    by_agent s es none ea = tt
    by_agent s es (some a) ea = by_backend s a es ea (lookup c.backends a.backend) refl

    by_state : (s : Option StateEntry) → lookup c.states name ≡ s → Found c name (with_state c s)
    by_state none es = tt
    by_state (some s) es = by_agent s es (lookup c.agents s.agent) refl

module _ (t : Text) (c : Config) (valid : is_empty (validate t c) ≡ true) where
  from_agents :
      is_empty (all_agent_errs c ++ (each (state_errs c) agent_state_names ++ last_errs t c)) ≡ true
  unfolding validate
  from_agents = (append-empty (first_errs t c) _ valid).1

  agents_met : is_empty (all_agent_errs c) ≡ true
  agents_met = (append-empty (all_agent_errs c) _ from_agents).0

  states_met : is_empty (each (state_errs c) agent_state_names) ≡ true
  states_met =
      (append-empty (each (state_errs c) agent_state_names) _
        ((append-empty (all_agent_errs c) _ from_agents).1)).0

  state_met :
      (name : String) → has agent_state_names name ≡ true → is_empty (state_errs c name) ≡ true
  state_met name h = each-has (state_errs c) agent_state_names name states_met h

  -- The backend of an agent that is defined.
  backend_defined :
      (k : String) (a : Agent)
      → lookup c.agents k ≡ some a
      → is_in (lookup c.backends a.backend) ≡ true
  unfolding Met agent_errs
  backend_defined k a e =
      let m : (is_empty (agent_errs c a) ≡ true) =
        subst (Met (agent_errs c)) e (each-lookup (agent_errs c) c.agents k agents_met) in
      unless-met (is_in (lookup c.backends a.backend))
        "agents.backend is not defined under backends"
        ((append-empty
          (unless (is_in (lookup c.backends a.backend))
            "agents.backend is not defined under backends")
          _ m).0)

  IsResolved : Resolved → Type 0
  IsResolved (resolved agent a b s) = Unit {0}
  IsResolved _ = ⊥

  with_agent-IsResolved :
      (s : StateEntry) (a : Option Agent)
      → lookup c.agents s.agent ≡ a
      → is_empty (of_agent c s a) ≡ true
      → IsResolved (with_agent c s a)
  unfolding with_agent of_agent with_backend IsResolved
  with_agent-IsResolved s none e h = ground (arith, h)
  with_agent-IsResolved s (some a) e h =
      by_backend (lookup c.backends a.backend) (backend_defined s.agent a e)
    where
      by_backend : (b : Option Backend) → is_in b ≡ true → IsResolved (with_backend s a b)
      by_backend none k = ground (arith, k)
      by_backend (some b) k = tt

  agent_for-IsResolved :
      (name : String)
      → has agent_state_names name ≡ true
      → is_in (lookup c.states name) ≡ true
      → IsResolved (agent_for c name)
  unfolding agent_for with_state state_errs
  agent_for-IsResolved name h k = by_state (lookup c.states name) k (state_met name h)
    where
      by_state :
          (s : Option StateEntry)
          → is_in s ≡ true
          → (let z = state_or_zero s in is_empty (of_agent c z (lookup c.agents z.agent)) ≡ true)
          → IsResolved (with_state c s)
      by_state none q m = ground (arith, q)
      by_state (some s) q m = with_agent-IsResolved s (lookup c.agents s.agent) refl m

  -- AgentFor finds an agent and its backend for every agent state that has an entry.
  pub agent_for-resolves :
      (name : String)
      → has agent_state_names name ≡ true
      → is_in (lookup c.states name) ≡ true
      → (agent : String) × (a : Agent) × (b : Backend) × (s : StateEntry) × (agent_for c name
          ≡ resolved agent a b s)
  unfolding IsResolved
  agent_for-resolves name h k = by_result (agent_for c name) refl (agent_for-IsResolved name h k)
    where
      by_result :
          (r : Resolved)
          → agent_for c name ≡ r
          → IsResolved r
          → (agent : String) × (a : Agent) × (b : Backend) × (s : StateEntry) × (agent_for c name
              ≡ resolved agent a b s)
      by_result (resolved agent a b s) e q = (agent, a, b, s, e)
      by_result no_state e q = elim q [ ]
      by_result no_agent e q = elim q [ ]
      by_result no_backend e q = elim q [ ]

  -- Under such a configuration, where an agent state must differ from another, the two agents that AgentFor gives for
  -- them are on different backends.
  pub agent_for-differs :
      (name : String) (n m : String) (a a' : Agent) (b b' : Backend) (s s' : StateEntry)
      → has agent_state_names name ≡ true
      → agent_for c name ≡ resolved n a b s
      → str_eq s.must_differ_backend_from "" ≡ false
      → agent_for c s.must_differ_backend_from ≡ resolved m a' b' s'
      → str_eq a'.backend a.backend ≡ false
  unfolding state_errs of_agent independence_errs
  agent_for-differs name n m a a' b b' s s' h e d e' =
      let f = subst (Found c name) e (agent_for-Found c name) in
      let f' =
        subst (Found c s.must_differ_backend_from) e'
          (agent_for-Found c s.must_differ_backend_from) in
      let m1 =
        subst
          (λ (x : Option StateEntry).
            (let z = state_or_zero x in is_empty (of_agent c z (lookup c.agents z.agent)) ≡ true))
          (f.0) (state_met name h) in
      let m2 =
        subst (λ (x : Option Agent). is_empty (of_agent c s x) ≡ true)
          (ap (lookup c.agents) (f.1) ∙ f.2) m1 in
      let m3 =
        subst
          (λ (q : Bool).
            is_empty (if q then [] else differs c (lookup c.states s.must_differ_backend_from) a)
            ≡ true)
          d m2 in
      let m4 = subst (λ (x : Option StateEntry). is_empty (differs c x a) ≡ true) (f'.0) m3 in
      let m5 =
        subst
          (λ (x : Option Agent).
            is_empty (
              unless (not (shares x a))
                "independence violation: states must use a different backend")
            ≡ true)
          (ap (lookup c.agents) (f'.1) ∙ f'.2) m4 in
      not-true (str_eq a'.backend a.backend) (unless-met (not (str_eq a'.backend a.backend)) _ m5)
