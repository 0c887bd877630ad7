-- ===== src/Engine/Verify/Names.antt =====
-- `normaliseFindingIDs` of internal/engine/verify.go: after it no two findings share an id.
use sdlc_orchestrator.Common.{
  ℕ, zero, suc, ◌≡◌, ◌≢◌, ◌≤◌, ◌<◌, refl, sym, ap, ◌∙◌, Bool, true, false, ◌||◌, List, [], ◌∷◌,
  String, str_eq, str_eq→eq, str_eq_refl, has, length, arith, if◌then◌else◌, Bool-cases, inl, inr,
}
use sdlc_orchestrator.Artifact.{Finding, Review}
use sdlc_orchestrator.Engine.Verify.{minted, chosen_id, normalise_from, normalise_finding_ids}

-- The names but one.
without : String → List String → List String
without t [] = []
without t (s ∷ ss) = let rest = without t ss in if str_eq s t then rest else s ∷ rest

length-without_le : (t : String) (ss : List String) → length (without t ss) ≤ length ss
unfolding without
length-without_le t [] = omega arith
length-without_le t (s ∷ ss) = ground (arith, length-without_le t ss)

length-without_lt :
    (t : String) (ss : List String) → has ss t ≡ true → length (without t ss) < length ss
unfolding without has
length-without_lt t [] h = ground arith
length-without_lt t (s ∷ ss) h = ground (arith, length-without_lt t ss, length-without_le t ss)

str_eq-ne : (s t : String) → s ≢ t → str_eq s t ≡ false
str_eq-ne s t ne = elim (Bool-cases (str_eq s t)) [
  | inl e ↦ absurd (ne (str_eq→eq s t e))
  | inr e ↦ e
]

-- Other names are not touched.
has-without : (t u : String) (ss : List String) → t ≢ u → has (without t ss) u ≡ has ss u
unfolding without has
has-without t u [] ne = refl
has-without t u (s ∷ ss) ne = elim (Bool-cases (str_eq s t)) [
  | inl e ↦ rw (e, str_eq-ne s u (λ k. ne (sym (str_eq→eq s t e) ∙ k))) (has-without t u ss ne)
  | inr e ↦ rw e (ap (λ b. str_eq s u || b) (has-without t u ss ne))
]

-- No two findings of the list share an id, nor one with those seen before.
abbrev pub DistinctFrom : List String → List Finding → Type 0
DistinctFrom seen [] = Unit
DistinctFrom seen (f ∷ fs) = (has seen f.id ≡ false) × DistinctFrom (f.id ∷ seen) fs

or_true : (b : Bool) → b || true ≡ true
or_true true = refl
or_true false = refl

or_false : (a b : Bool) → a || b ≡ false → b ≡ false
or_false a b h = ground arith

module _ (trim_space : String → String) (mint : ℕ → String) where
  minted-without :
      (fuel n m : ℕ) (seen : List String)
      → ((a b : ℕ) → mint a ≡ mint b → a ≡ b)
      → m < n
      → minted trim_space mint fuel n (without (mint m) seen) ≡ minted trim_space mint fuel n seen
  unfolding minted
  minted-without zero n m seen inj h = refl
  minted-without (suc fuel) n m seen inj h =
      rw
        (
          has-without (mint m) (mint n) seen (λ e. ground (arith, inj m n e)),
          minted-without fuel (suc n) m seen inj (omega arith),
        )
        refl

  -- The name found is one of those tried.
  minted_tried :
      (fuel n : ℕ) (seen : List String)
      → (k : ℕ) × (minted trim_space mint fuel n seen ≡ mint k) × (n ≤ k)
  unfolding minted
  minted_tried zero n seen = (n, refl, omega arith)
  minted_tried (suc fuel) n seen = elim (Bool-cases (has seen (mint n))) [
    | inl e ↦ let (k, f, le) = minted_tried fuel (suc n) seen in rw e (k, f, omega (arith, le))
    | inr e ↦ rw e (n, refl, omega arith)
  ]

  -- With more fuel than there are names, the name that is found is not one of them.
  minted_fresh :
      (fuel n : ℕ) (seen : List String)
      → ((a b : ℕ) → mint a ≡ mint b → a ≡ b)
      → length seen < fuel
      → has seen (minted trim_space mint fuel n seen) ≡ false
  unfolding minted
  minted_fresh zero n seen inj h = absurd (omega arith)
  minted_fresh (suc fuel) n seen inj h = elim (Bool-cases (has seen (mint n))) [
    | inl e ↦
        let x = minted trim_space mint fuel (suc n) seen in
        let (k, f, le) = minted_tried fuel (suc n) seen in
        let ne : mint n ≢ x = λ same. omega (arith, le, inj n k (same ∙ f)) in
        let ih =
          minted_fresh fuel (suc n) (without (mint n) seen) inj
            (omega (arith, length-without_lt (mint n) seen e)) in
        rw e (
          sym (has-without (mint n) x seen ne)
          ∙ ap (has (without (mint n) seen))
              (sym (minted-without fuel (suc n) n seen inj (omega arith)))
          ∙ ih)
    | inr e ↦ rw e e
  ]

  chosen_id_fresh :
      (seen : List String) (i : ℕ) (f : Finding)
      → ((a b : ℕ) → mint a ≡ mint b → a ≡ b)
      → has seen (chosen_id trim_space mint seen i f) ≡ false
  unfolding chosen_id
  chosen_id_fresh seen i f inj =
      elim (Bool-cases (str_eq (trim_space f.id) "" || has seen (trim_space f.id))) [
        | inl e ↦ rw e (minted_fresh (suc (length seen)) (suc i) seen inj (omega arith))
        | inr e ↦ rw e (or_false (str_eq (trim_space f.id) "") (has seen (trim_space f.id)) e)
      ]

  normalise_from-DistinctFrom :
      (seen : List String) (i : ℕ) (fs : List Finding)
      → ((a b : ℕ) → mint a ≡ mint b → a ≡ b)
      → DistinctFrom seen (normalise_from trim_space mint seen i fs)
  unfolding normalise_from
  normalise_from-DistinctFrom seen i [] inj = tt
  normalise_from-DistinctFrom seen i (f ∷ fs) inj = (
    chosen_id_fresh seen i f inj,
    normalise_from-DistinctFrom (chosen_id trim_space mint seen i f ∷ seen) (suc i) fs inj,
  )

  -- After `normaliseFindingIDs` no two findings share an id, so that no verdict counts for two of them,
  -- if different numbers are printed differently; the search for a free name always ends with one.
  pub normalise_finding_ids-DistinctFrom :
      (r : Review)
      → ((a b : ℕ) → mint a ≡ mint b → a ≡ b)
      → DistinctFrom [] (Review.findings (normalise_finding_ids trim_space mint r))
  unfolding normalise_finding_ids
  normalise_finding_ids-DistinctFrom r inj = normalise_from-DistinctFrom [] 0 r.findings inj

  -- A reviewer's own id is not always kept: where the first of two findings has none and the second is called
  -- by the first name that is minted, the first finding takes that name and the second gets the next one.
  pub normalise_from_renames :
      (f g : Finding)
      → ((a b : ℕ) → mint a ≡ mint b → a ≡ b)
      → str_eq (trim_space f.id) "" ≡ true
      → trim_space g.id ≡ mint 1
      → normalise_from trim_space mint [] 0 (f ∷ g ∷ [])
        ≡ record f { id = mint 1 } ∷ record g { id = mint 2 } ∷ []
  unfolding normalise_from chosen_id minted has
  normalise_from_renames f g inj blank same =
      let ne : mint 1 ≢ mint 2 = λ e. omega (arith, inj 1 2 e) in
      rw
        (
          blank,
          same,
          str_eq_refl (mint 1),
          str_eq-ne (mint 1) (mint 2) ne,
          or_true (str_eq (mint 1) ""),
        )
        refl
