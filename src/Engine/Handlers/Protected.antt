-- ===== src/Engine/Handlers/Protected.antt =====
-- The policy on test files of handleFixing in internal/engine/handlers.go, with CheckFixDiff of internal/guard.
use sdlc_orchestrator.Common.{
  ◌≡◌, ◌⊎◌, inl, inr, refl, sym, subst, ◌∙◌, ap, Bool, true, false, ◌||◌, List, [], ◌∷◌, ◌++◌,
  Option, none, some, String, is_empty, Bool-cases, arith, Bytes, codes,
}
use sdlc_orchestrator.Engine.States.{State}
use sdlc_orchestrator.Engine.Rules.{Rules}
use sdlc_orchestrator.Engine.Guard.{
  Regexp, Glob, to_slashes, glob_source, with_glob, compile_glob, compile_globs, match, any_match,
  matching, check_fix_diff,
}
use sdlc_orchestrator.Engine.Job.{Piece}
use sdlc_orchestrator.Engine.Bench.{
  held_in, reset_hard_clean, Outside, Bench, Result, err, pure, raise, ◌>>=◌, traced, set_head,
  modify, with_job,
}
use sdlc_orchestrator.Engine.Handlers.Code.{
  fix_kept, fix_discarded, or_bad_glob, fix_checked, fix_judged,
}

not_false : (b : Bool) → ¬ (b ≡ false) → b ≡ true
not_false b h = ground arith

-- One of the members.
abbrev pub Any {ℓ} : {A : Type ℓ} → (A → Type 0) → List A → Type 0
Any P [] = ⊥
Any P (x ∷ xs) = P x ⊎ Any P xs

module _ (re : Regexp) where
  -- The regular expression of the pattern matches the path.
  abbrev pub Covers : String → Bytes → Type 0
  Covers path pattern =
      (g : Glob) × (re.compile (glob_source re pattern) ≡ some g)
      × (g (to_slashes (codes path)) ≡ true)

  -- One of the paths is covered by one of the patterns.
  abbrev pub Touches : List Bytes → List String → Type 0
  Touches patterns changed = Any (λ path. Any (Covers path) patterns) changed

  -- What a list of patterns compiles to.
  data Compiled : List Bytes → List Glob → Type 0 where
    no_pattern : Compiled [] []
    one_more :
        {p : Bytes} {ps : List Bytes} {g : Glob} {gs : List Glob}
        → re.compile (glob_source re p) ≡ some g
        → Compiled ps gs
        → Compiled (p ∷ ps) (g ∷ gs)

  compiled : (ps : List Bytes) (gs : List Glob) → compile_globs re ps ≡ some gs → Compiled ps gs
  unfolding compile_globs compile_glob
  compiled [] [] e = no_pattern
  compiled [] (g ∷ gs) e = ground arith
  compiled (p ∷ ps) gs e =
      by_parts (re.compile (glob_source re p)) (compile_globs re ps) gs refl refl e (compiled ps)
    where
      by_parts :
          (c : Option Glob) (r : Option (List Glob)) (gs : List Glob)
          → re.compile (glob_source re p) ≡ c
          → compile_globs re ps ≡ r
          → with_glob re c r ≡ some gs
          → ((gs : List Glob) → compile_globs re ps ≡ some gs → Compiled ps gs)
          → Compiled (p ∷ ps) gs
      by_parts none r gs ec er e rest = ground arith
      by_parts (some g) none gs ec er e rest = ground arith
      by_parts (some g) (some hs) [] ec er e rest = ground arith
      by_parts (some g) (some hs) (k ∷ ks) ec er e rest =
          one_more (ec ∙ ground (arith, e)) (rest ks (er ∙ ground (arith, e)))

  covered_matches :
      (path : String) (ps : List Bytes) (gs : List Glob)
      → Compiled ps gs
      → Any (Covers path) ps
      → any_match gs (codes path) ≡ true
  unfolding any_match match
  covered_matches path _ _ no_pattern a = elim a [ ]
  covered_matches path _ (g ∷ gs) (one_more {p} e c) (inl (h, eh, t)) = covered_head p g h gs e eh t
    where
      covered_head :
          (p : Bytes) (g h : Glob) (gs : List Glob)
          → re.compile (glob_source re p) ≡ some g
          → re.compile (glob_source re p) ≡ some h
          → h (to_slashes (codes path)) ≡ true
          → (g (to_slashes (codes path)) || any_match gs (codes path)) ≡ true
      covered_head p g h gs e eh t = grind arith
  covered_matches path _ (g ∷ gs) (one_more {ps} e c) (inr a) =
      ground (arith, covered_matches path ps gs c a)

  match-Covers :
      (path : String) (ps : List Bytes) (gs : List Glob)
      → Compiled ps gs
      → any_match gs (codes path) ≡ true
      → Any (Covers path) ps
  unfolding any_match match
  match-Covers path _ _ no_pattern a = ground arith
  match-Covers path _ (g ∷ gs) (one_more {ps} e c) a =
      elim (Bool-cases (g (to_slashes (codes path)))) [
        | inl t ↦ inl (g, e, t)
        | inr f ↦ inr (match-Covers path ps gs c (ground (arith, a, f)))
      ]

  matching_one :
      (gs : List Glob) (f : String) (fs : List String)
      → any_match gs (codes f) ≡ true
      → matching gs (f ∷ fs) ≡ f ∷ matching gs fs
  unfolding matching
  matching_one gs f fs h =
      subst
        (λ (t : Bool).
          (elim t as (λ x. List String) [ true ↦ f ∷ matching gs fs | false ↦ matching gs fs ])
          ≡ f ∷ matching gs fs)
        (sym h) refl

  matching_none :
      (gs : List Glob) (f : String) (fs : List String)
      → any_match gs (codes f) ≡ false
      → matching gs (f ∷ fs) ≡ matching gs fs
  unfolding matching
  matching_none gs f fs h =
      subst
        (λ (t : Bool).
          (elim t as (λ x. List String) [ true ↦ f ∷ matching gs fs | false ↦ matching gs fs ])
          ≡ matching gs fs)
        (sym h) refl

  selected_touch :
      (changed : List String) (ps : List Bytes) (gs : List Glob)
      → Compiled ps gs
      → is_empty (matching gs changed) ≡ false
      → Touches ps changed
  selected_touch [] ps gs c h = unfold matching in ground (arith, h)
  selected_touch (f ∷ fs) ps gs c h = elim (Bool-cases (any_match gs (codes f))) [
    | inl t ↦ inl (match-Covers f ps gs c t)
    | inr e ↦ inr (selected_touch fs ps gs c (ap is_empty (sym (matching_none gs f fs e)) ∙ h))
  ]

  touch_selected :
      (changed : List String) (ps : List Bytes) (gs : List Glob)
      → Compiled ps gs
      → Touches ps changed
      → is_empty (matching gs changed) ≡ false
  touch_selected [] ps gs c t = elim t [ ]
  touch_selected (f ∷ fs) ps gs c (inl a) =
      ap is_empty (matching_one gs f fs (covered_matches f ps gs c a))
  touch_selected (f ∷ fs) ps gs c (inr t) = elim (Bool-cases (any_match gs (codes f))) [
    | inl e ↦ ap is_empty (matching_one gs f fs e)
    | inr e ↦ ap is_empty (matching_none gs f fs e) ∙ touch_selected fs ps gs c t
  ]

-- The job is held, and the branch and the record of its head are back at `head`.
abbrev pub Discarded : String → Bench → Result State × Bench → Type 0
Discarded head b r =
    (reason : List Piece) × (r.0 ≡ err (held_in reason))
    × (r.1.git ≡ b.git ++ reset_hard_clean head ∷ [])
    × (r.1.desk.job.head_sha ≡ head)

module _ (rules : Rules) where
  judged_checked :
      (head : String) (changed : List String) (gs : List Glob) (o : Outside) (b : Bench)
      → is_empty changed ≡ false
      → compile_globs rules.regexp rules.test_file_globs ≡ some gs
      → fix_judged rules head "code_bug" changed o b
        ≡ fix_checked rules head "code_bug" changed gs o b
  unfolding fix_judged or_bad_glob pure ◌>>=◌
  judged_checked head changed gs o b ne e = rw (ne, e, fix_judged, or_bad_glob) refl

  policed :
      (changed : List String) (gs : List Glob)
      → rules.protect_tests_on_code_bug_fix ≡ true
      → check_fix_diff changed "code_bug" rules.protect_tests_on_code_bug_fix gs
        ≡ matching gs changed
  unfolding check_fix_diff
  policed changed gs on = rw on refl

  discarded :
      (head : String) (changed : List String) (gs : List Glob) (o : Outside) (b : Bench)
      → is_empty (check_fix_diff changed "code_bug" rules.protect_tests_on_code_bug_fix gs) ≡ false
      → Discarded head b (fix_checked rules head "code_bug" changed gs o b)
  unfolding fix_checked fix_discarded raise traced set_head modify with_job ◌>>=◌
  discarded head changed gs o b h = rw (h, fix_checked) (_, refl, refl, refl)

  kept :
      (head : String) (changed : List String) (gs : List Glob) (o : Outside) (b : Bench)
      → is_empty (check_fix_diff changed "code_bug" rules.protect_tests_on_code_bug_fix gs) ≡ true
      → fix_checked rules head "code_bug" changed gs o b ≡ fix_kept o b
  unfolding fix_checked
  kept head changed gs o b h = rw (h, fix_checked) refl

  -- With the policy on, the test-file globs valid and a fix of a code bug that changed something: where one of the changed
  -- files is matched by the regular expression of one of the configured globs, the job is held, the branch is reset to
  -- the head that the state began with and the job's record of it too. Where none is, the fix is committed and
  -- the job goes on as for any other fix.
  pub fix_judged-Protected :
      (head : String) (changed : List String) (gs : List Glob) (o : Outside) (b : Bench)
      → rules.protect_tests_on_code_bug_fix ≡ true
      → is_empty changed ≡ false
      → compile_globs rules.regexp rules.test_file_globs ≡ some gs
      → (Touches rules.regexp rules.test_file_globs changed
          → Discarded head b (fix_judged rules head "code_bug" changed o b))
        × (¬ Touches rules.regexp rules.test_file_globs changed
            → fix_judged rules head "code_bug" changed o b ≡ fix_kept o b)
  fix_judged-Protected head changed gs o b on ne e =
      let re = rules.regexp in
      let ps = rules.test_file_globs in
      let c = compiled re ps gs e in
      let all = policed changed gs on in
      let same = judged_checked head changed gs o b ne e in
      (
        λ t.
            subst (Discarded head b) (sym same) (
              discarded head changed gs o b
                (ap is_empty all ∙ touch_selected re changed ps gs c t)),
        λ n.
            same
            ∙ kept head changed gs o b (
                ap is_empty all
                ∙ not_false (is_empty (matching gs changed))
                    (λ h. n (selected_touch re changed ps gs c h))),
      )
