-- ===== src/Server/Shape/Strip.antt =====
-- The pipeline strip and the progress bar of internal/server/shape.go.
use sdlc_orchestrator.Common.{
  ℕ, ◌+◌, ◌≤◌, ◌<◌, ◌≡◌, refl, ap, sym, ◌∙◌, subst, Bool, true, false, ◌||◌, str_eq, is_some,
  if_cases, if_both, if◌then◌else◌, List, [], ◌∷◌, Option, none, some, String, arith, length, map,
}
use sdlc_orchestrator.Engine.States
use sdlc_orchestrator.Engine.States.{State, other, member, same_state, index}
use sdlc_orchestrator.Server.Shape.{
  Phase, phases, PhaseView, Class, now, index_from, index_of_state, phase_index, views_from,
  pipeline_for, phase_pct, class_at, percent, or_prev, is_completed, is_empty_text,
}

index_from_lt :
    (i : ℕ) (ps : List Phase) (s : State) (k : ℕ) → index_from i ps s ≡ some k → k < i + length ps
unfolding index_from
index_from_lt i [] s k h = ground arith
index_from_lt i (p ∷ ps) s k h = ground (arith, index_from_lt (i + 1) ps s k)

index_of_state_lt : (s : State) (k : ℕ) → index_of_state s ≡ some k → k < 9
unfolding index_of_state
index_of_state_lt s k h = ground (arith, index_from_lt 0 phases s k)

phase_index_lt : (s prev : State) (k : ℕ) → phase_index s prev ≡ some k → k < 9
unfolding phase_index or_prev
phase_index_lt s prev k h = ground (arith, index_of_state_lt s k, index_of_state_lt prev k)

percent_le : (o : Option ℕ) → ((k : ℕ) → o ≡ some k → k < 9) → percent o ≤ 88
unfolding percent
percent_le none h = omega arith
percent_le (some k) h = omega (arith, h k refl)

-- The bar never leaves the range 0 to 100, and is full for a completed job only.
pub phase_pct_le :
    (s prev : State) → (phase_pct s prev ≤ 100) × (phase_pct s prev ≡ 100 → s ≡ States.completed)
unfolding phase_pct is_completed
phase_pct_le States.completed prev = (omega arith, λ e. refl)
phase_pct_le s prev =
    let le = percent_le (phase_index s prev) (λ k e. phase_index_lt s prev k e) in
    (omega (arith, le), λ e. absurd (omega (arith, le)))

abbrev one_if_now : Class → ℕ
one_if_now now = 1
one_if_now _ = 0

-- How many cells of a strip are drawn as the current one.
abbrev pub count_now : List PhaseView → ℕ
count_now [] = 0
count_now (v ∷ vs) = one_if_now v.class + count_now vs

abbrev pub one_if_some : Option ℕ → ℕ
one_if_some none = 0
one_if_some (some k) = 1

abbrev pub labels : List PhaseView → List String
labels [] = []
labels (v ∷ vs) = v.label ∷ labels vs

count_now-none : (i : ℕ) (ps : List Phase) → count_now (views_from none i ps) ≡ 0
unfolding views_from class_at
count_now-none i [] = refl
count_now-none i (p ∷ ps) = omega (arith, count_now-none (i + 1) ps)

count_now-past : (at i : ℕ) (ps : List Phase) → at < i → count_now (views_from (some at) i ps) ≡ 0
unfolding views_from class_at
count_now-past at i [] h = refl
count_now-past at i (p ∷ ps) h = ground (arith, count_now-past at (i + 1) ps)

count_now-some :
    (at i : ℕ) (ps : List Phase)
    → i ≤ at
    → at < i + length ps
    → count_now (views_from (some at) i ps) ≡ 1
unfolding views_from class_at
count_now-some at i [] h k = absurd (omega arith)
count_now-some at i (p ∷ ps) h k =
    ground (arith, count_now-some at (i + 1) ps, count_now-past at (i + 1) ps)

labels-views_from :
    (o : Option ℕ) (i : ℕ) (ps : List Phase) → labels (views_from o i ps) ≡ map (λ p. p.label) ps
unfolding views_from
labels-views_from o i [] = refl
labels-views_from o i (p ∷ ps) = ap (λ ls. p.label ∷ ls) (labels-views_from o (i + 1) ps)

now_of :
    (o : Option ℕ)
    → ((k : ℕ) → o ≡ some k → k < 9)
    → count_now (views_from o 0 phases) ≡ one_if_some o
now_of none h = count_now-none 0 phases
now_of (some k) h = count_now-some k 0 phases (omega arith) (omega (arith, h k refl))

-- Whether one of the phases lists the state.
abbrev pub has_phase : List Phase → State → Bool
has_phase [] s = false
has_phase (p ∷ ps) s = member p.states s || has_phase ps s

-- Only a phase that lists the state is drawn as the current one.
abbrev pub Marks : State → List Phase → List PhaseView → Type 0
Marks s [] [] = Unit
Marks s [] (v ∷ vs) = ⊥
Marks s (p ∷ ps) [] = ⊥
Marks s (p ∷ ps) (v ∷ vs) = (v.class ≡ now → member p.states s ≡ true) × Marks s ps vs

Marks-none : (s : State) (i : ℕ) (ps : List Phase) → Marks s ps (views_from none i ps)
unfolding views_from class_at
Marks-none s i [] = tt
Marks-none s i (p ∷ ps) = (λ e. ground (arith, e), Marks-none s (i + 1) ps)

Marks-past :
    (s : State) (at i : ℕ) (ps : List Phase) → at < i → Marks s ps (views_from (some at) i ps)
unfolding views_from class_at
Marks-past s at i [] h = tt
Marks-past s at i (p ∷ ps) h =
    (λ e. ground (arith, e, h), Marks-past s at (i + 1) ps (omega (arith, h)))

index_from_le : (i : ℕ) (ps : List Phase) (s : State) (k : ℕ) → index_from i ps s ≡ some k → i ≤ k
unfolding index_from
index_from_le i [] s k h = ground arith
index_from_le i (p ∷ ps) s k h = ground (arith, index_from_le (i + 1) ps s k)

Marks-found :
    (s : State) (at i : ℕ) (ps : List Phase)
    → index_from i ps s ≡ some at
    → Marks s ps (views_from (some at) i ps)
unfolding views_from class_at index_from
Marks-found s at i [] h = tt
Marks-found s at i (p ∷ ps) h =
    if_cases (λ (o : Option ℕ). o ≡ some at → Marks s (p ∷ ps) (views_from (some at) i (p ∷ ps)))
      (member p.states s) (some i) (index_from (i + 1) ps s)
      (λ m e. (λ c. m, Marks-past s at (i + 1) ps (ground (arith, e))))
      (λ m e.
        let le = index_from_le (i + 1) ps s at e in
        (λ c. ground (arith, c, le), Marks-found s at (i + 1) ps e))
      h

index_of_state_lem : (s : State) → index_of_state s ≡ index_from 0 phases s
unfolding index_of_state is_empty_text index_from member same_state index
index_of_state_lem (other t) =
    if_both (λ (x : Option ℕ). x ≡ none) (str_eq t "") none none refl refl
index_of_state_lem States.created = refl
index_of_state_lem _ = refl

indexed : (i : ℕ) (ps : List Phase) (s : State) → is_some (index_from i ps s) ≡ has_phase ps s
unfolding index_from
indexed i [] s = refl
indexed i (p ∷ ps) s = ground (arith, indexed (i + 1) ps s)

has_phase_lem : (s : State) → is_some (index_of_state s) ≡ has_phase phases s
has_phase_lem s = ap is_some (index_of_state_lem s) ∙ indexed 0 phases s

Marks-index :
    (s prev : State) (o o' : Option ℕ)
    → index_of_state s ≡ o
    → index_of_state prev ≡ o'
    → Marks (if is_some o then s else prev) phases (views_from (or_prev o o') 0 phases)
unfolding or_prev
Marks-index s prev (some k) o' e e' = Marks-found s k 0 phases (sym (index_of_state_lem s) ∙ e)
Marks-index s prev none (some k) e e' =
    Marks-found prev k 0 phases (sym (index_of_state_lem prev) ∙ e')
Marks-index s prev none none e e' = Marks-none prev 0 phases

one_of : (o o' : Option ℕ) → one_if_some (or_prev o o') ≡ (if is_some o || is_some o' then 1 else 0)
unfolding or_prev
one_of (some k) o' = refl
one_of none (some k) = refl
one_of none none = refl

-- The strip always shows the nine phases in their order. The current one among them is one that lists the state, or,
-- if no phase lists it, one that lists the state before it; exactly one is current if a phase lists either state, and
-- none otherwise.
pub pipeline_for_lem :
    (s prev : State)
    → (labels (pipeline_for s prev) ≡ map (λ p. p.label) phases)
      × Marks (if has_phase phases s then s else prev) phases (pipeline_for s prev)
      × (count_now (pipeline_for s prev)
          ≡ (if has_phase phases s || has_phase phases prev then 1 else 0))
unfolding pipeline_for phase_index
pipeline_for_lem s prev = (
  labels-views_from (phase_index s prev) 0 phases,
  subst
      (λ (c : Bool).
        Marks (if c then s else prev) phases (views_from (phase_index s prev) 0 phases))
      (has_phase_lem s) (Marks-index s prev _ _ refl refl),
  now_of (phase_index s prev) (λ k e. phase_index_lt s prev k e)
      ∙ one_of (index_of_state s) (index_of_state prev)
      ∙ ap (λ (c : Bool). if c || is_some (index_of_state prev) then 1 else 0) (has_phase_lem s)
      ∙ ap (λ (c : Bool). if has_phase phases s || c then 1 else 0) (has_phase_lem prev),
)
