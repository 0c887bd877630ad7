-- ===== src/Artifact/Load/Problems.antt =====
-- What a problem statement that `LoadProblem` of internal/artifact/artifact.go accepts is held to.
use sdlc_orchestrator.Common.{
  ◌<◌, ◌≡◌, ◌↔◌, refl, Bool, true, false, not, List, [], ◌∷◌, Option, none, some, String, str_eq,
  has, length, arith,
}
use sdlc_orchestrator.Artifact.{OpenQuestion, Problem, blocking_questions}
use sdlc_orchestrator.Artifact.Load.{
  Loaded, loaded, missing_field, bad_question, bad_clarity, load_problem, ◌!◌, or_invalid,
}

-- No two questions share an id, nor one with those seen before.
abbrev pub DistinctIds : List String → List OpenQuestion → Type 0
DistinctIds seen [] = Unit
DistinctIds seen (q ∷ qs) = (has seen q.id ≡ false) × DistinctIds (q.id ∷ seen) qs

-- What a check that passed leaves.
pub passed {ℓ} :
    {A : Type ℓ} (b : Bool) (msg : String) (k : Loaded A) (a : A)
    → ((b, msg) ! k) ≡ loaded a
    → (b ≡ false) × (k ≡ loaded a)
passed true msg k a h = ground arith
passed false msg k a h = (refl, h)

or_passed {ℓ} :
    {A : Type ℓ} (o : Option String) (k : Loaded A) (a : A)
    → or_invalid o k ≡ loaded a
    → (o ≡ none) × (k ≡ loaded a)
or_passed none k a h = (refl, h)
or_passed (some msg) k a h = ground arith

pub loaded_inj {ℓ} : {A : Type ℓ} (a b : A) → loaded a ≡ loaded b → a ≡ b
loaded_inj a b h = cc

module _ (trim_space : String → String) where
  bad_question_sound :
      (seen : List String) (qs : List OpenQuestion)
      → bad_question trim_space seen qs ≡ none
      → DistinctIds seen qs
  unfolding bad_question
  bad_question_sound seen [] h = tt
  bad_question_sound seen (q ∷ qs) h = ground (arith, bad_question_sound (q.id ∷ seen) qs)

  bad_clarity_sound :
      (p : Problem)
      → bad_clarity trim_space p ≡ none
      → (str_eq p.clarity "blocked" ≡ true) ↔ (0 < length (blocking_questions p))
  unfolding bad_clarity
  bad_clarity_sound p h = ground arith

  -- The five checks of a problem, in their order.
  accepted :
      (p q : Problem)
      → load_problem trim_space (some p) ≡ loaded q
      → (p ≡ q)
        × (bad_question trim_space [] p.open_questions ≡ none)
        × (bad_clarity trim_space p ≡ none)
  unfolding load_problem
  accepted p q h =
      let h1 = (passed (missing_field trim_space p) _ _ q h).1 in
      let h2 = (passed (not (has ("clear" ∷ "assumed" ∷ "blocked" ∷ []) p.clarity)) _ _ q h1).1 in
      let h3 = or_passed (bad_question trim_space [] p.open_questions) _ q h2 in
      let h4 = or_passed (bad_clarity trim_space p) _ q (h3.1) in
      (loaded_inj p q (h4.1), h3.0, h4.0)

  -- A problem statement that `LoadProblem` accepts is the one that was read; it is blocked exactly if one
  -- of its questions blocks, and no two of its questions share an id.
  pub load_problem-IsConsistent :
      (p q : Problem)
      → load_problem trim_space (some p) ≡ loaded q
      → (p ≡ q)
        × ((str_eq p.clarity "blocked" ≡ true) ↔ (0 < length (blocking_questions p)))
        × DistinctIds [] p.open_questions
  load_problem-IsConsistent p q h =
      let facts = accepted p q h in
      (facts.0, bad_clarity_sound p (facts.2), bad_question_sound [] p.open_questions (facts.1))
