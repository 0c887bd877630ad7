-- ===== src/Engine/Context/Claims/Sets.antt =====
-- `reconcileClaims` of internal/engine/jobctx.go, as the differences of two sets of paths.
use sdlc_orchestrator.Common.{
  ◌≡◌, refl, ap, ◌∙◌, subst, Bool, true, false, ◌&&◌, ◌||◌, not, List, [], ◌∷◌, is_empty,
  if◌then◌else◌, if_cases, Bytes, same, same→eq,
}
use sdlc_orchestrator.Engine.Context.Claims.{
  holds, norm_path, norm_paths, claims_from, unreported_of, reconcile_claims,
}
use sdlc_orchestrator.Engine.Context.Claims.Booleans.{
  or_nothing, seen_skipped, seen_added, phantom_none, phantom_skipped, phantom_added, phantom_true,
  unreported_added, unreported_skipped, unreported_none, first_difference,
}

module _ (trim_space : Bytes → Bytes) where
  -- The non-empty paths of a list, normalised.
  abbrev pub among : List Bytes → Bytes → Bool
  among fs n = not (is_empty n) && holds (norm_paths trim_space fs) n

  -- What is seen behind the claims.
  claims_from-seen :
      (act seen fs : List Bytes) (n : Bytes)
      → holds (claims_from trim_space act seen fs).0 n ≡ (holds seen n || among fs n)
  unfolding claims_from norm_paths holds
  claims_from-seen act seen [] n = or_nothing (holds seen n) (is_empty n)
  claims_from-seen act seen (f ∷ fs) n =
      let m = norm_path trim_space f in
      if_cases (λ (r : List Bytes × List Bytes). holds r.0 n ≡ (holds seen n || among (f ∷ fs) n))
        (is_empty m || holds seen m) _ _
        (λ k. claims_from-seen act seen fs n ∙ by_same (same m n) refl k)
        (λ k. claims_from-seen act (m ∷ seen) fs n ∙ by_new (same m n) refl k)
    where
      rest : Bool
      rest = holds (norm_paths trim_space fs) n

      by_same :
          (q : Bool)
          → same (norm_path trim_space f) n ≡ q
          → (is_empty (norm_path trim_space f) || holds seen (norm_path trim_space f)) ≡ true
          → (holds seen n || (not (is_empty n) && rest))
            ≡ (holds seen n || (not (is_empty n) && (q || rest)))
      by_same true e k = seen_skipped (holds seen n) (is_empty n) rest (
          subst (λ (x : Bytes). (is_empty x || holds seen x) ≡ true)
            (same→eq (norm_path trim_space f) n e) k)
      by_same false e k = refl

      by_new :
          (q : Bool)
          → same (norm_path trim_space f) n ≡ q
          → (is_empty (norm_path trim_space f) || holds seen (norm_path trim_space f)) ≡ false
          → ((q || holds seen n) || (not (is_empty n) && rest))
            ≡ (holds seen n || (not (is_empty n) && (q || rest)))
      by_new true e k = seen_added (holds seen n) (is_empty n) rest (
          subst (λ (x : Bytes). (is_empty x || holds seen x) ≡ false)
            (same→eq (norm_path trim_space f) n e) k)
      by_new false e k = refl

  claims_from-phantom :
      (act seen fs : List Bytes) (n : Bytes)
      → holds (claims_from trim_space act seen fs).1 n
        ≡ ((among fs n && not (holds seen n)) && not (holds act n))
  unfolding claims_from norm_paths holds
  claims_from-phantom act seen [] n = phantom_none (holds seen n) (is_empty n) (holds act n)
  claims_from-phantom act seen (f ∷ fs) n =
      let m = norm_path trim_space f in
      if_cases
        (λ (r : List Bytes × List Bytes).
          holds r.1 n ≡ ((among (f ∷ fs) n && not (holds seen n)) && not (holds act n)))
        (is_empty m || holds seen m) _ _
        (λ k. claims_from-phantom act seen fs n ∙ by_same (same m n) refl k)
        (λ k. by_new (claims_from-phantom act (m ∷ seen) fs n) (same m n) refl k (holds act m) refl)
    where
      m : Bytes
      m = norm_path trim_space f

      rest : Bool
      rest = holds (norm_paths trim_space fs) n

      later : List Bytes
      later = (claims_from trim_space act (m ∷ seen) fs).1

      here :
          holds later n
            ≡ (((not (is_empty n) && rest) && not (same m n || holds seen n)) && not (holds act n))
          → (q : Bool) → same m n ≡ q
          → holds later n
            ≡ (((not (is_empty n) && rest) && not (q || holds seen n)) && not (holds act n))
      here h q e =
          subst
            (λ (y : Bool).
              holds later n
              ≡ (((not (is_empty n) && rest) && not (y || holds seen n)) && not (holds act n)))
            e h

      goal : Bool → Bool
      goal q = ((not (is_empty n) && (q || rest)) && not (holds seen n)) && not (holds act n)

      by_same :
          (q : Bool)
          → same m n ≡ q
          → (is_empty m || holds seen m) ≡ true
          → (((not (is_empty n) && rest) && not (holds seen n)) && not (holds act n)) ≡ goal q
      by_same true e k =
          phantom_skipped (holds seen n) (is_empty n) rest (holds act n)
            (subst (λ (x : Bytes). (is_empty x || holds seen x) ≡ true) (same→eq m n e) k)
      by_same false e k = refl

      by_new :
          holds later n
            ≡ (((not (is_empty n) && rest) && not (same m n || holds seen n)) && not (holds act n))
          → (q : Bool) → same m n ≡ q
          → (is_empty m || holds seen m) ≡ false
          → (t : Bool) → holds act m ≡ t
          → holds (if t then later else m ∷ later) n ≡ goal q
      by_new h true e k true l =
          here h true e
          ∙ phantom_true (holds seen n) (is_empty n) rest (holds act n)
              (subst (λ (x : Bytes). holds act x ≡ true) (same→eq m n e) l)
      by_new h true e k false l =
          ap (λ (y : Bool). y || holds later n) e
          ∙ phantom_added (holds seen n) (is_empty n) rest (holds act n) true
              (subst (λ (x : Bytes). (is_empty x || holds seen x) ≡ false) (same→eq m n e) k)
              (subst (λ (x : Bytes). holds act x ≡ false) (same→eq m n e) l)
      by_new h false e k true l = here h false e
      by_new h false e k false l = ap (λ (y : Bool). y || holds later n) e ∙ here h false e

  unreported_of-difference :
      (seen fs : List Bytes) (n : Bytes)
      → holds (unreported_of trim_space seen fs) n ≡ (among fs n && not (holds seen n))
  unfolding unreported_of norm_paths holds
  unreported_of-difference seen [] n = unreported_none (holds seen n) (is_empty n)
  unreported_of-difference seen (f ∷ fs) n = by_path (unreported_of-difference seen fs n)
    where
      m : Bytes
      m = norm_path trim_space f

      rest : Bool
      rest = holds (norm_paths trim_space fs) n

      later : List Bytes
      later = unreported_of trim_space seen fs

      more :
          holds later n ≡ ((not (is_empty n) && rest) && not (holds seen n))
          → (q : Bool) → same m n ≡ q
          → (not (is_empty m) && not (holds seen m)) ≡ true
          → (q || holds later n) ≡ ((not (is_empty n) && (q || rest)) && not (holds seen n))
      more h true e k =
          unreported_added (holds seen n) (is_empty n) (
            subst (λ (x : Bytes). (not (is_empty x) && not (holds seen x)) ≡ true) (same→eq m n e)
              k)
      more h false e k = h

      less :
          (q : Bool)
          → same m n ≡ q
          → (not (is_empty m) && not (holds seen m)) ≡ false
          → ((not (is_empty n) && rest) && not (holds seen n))
            ≡ ((not (is_empty n) && (q || rest)) && not (holds seen n))
      less true e k = unreported_skipped (holds seen n) (is_empty n) rest (
          subst (λ (x : Bytes). (not (is_empty x) && not (holds seen x)) ≡ false) (same→eq m n e) k)
      less false e k = refl

      by_path :
          holds later n ≡ ((not (is_empty n) && rest) && not (holds seen n))
          → holds (if not (is_empty m) && not (holds seen m) then m ∷ later else later) n
            ≡ ((not (is_empty n) && (same m n || rest)) && not (holds seen n))
      by_path h =
          if_cases
            (λ (r : List Bytes).
              holds r n ≡ ((not (is_empty n) && (same m n || rest)) && not (holds seen n)))
            (not (is_empty m) && not (holds seen m)) (m ∷ later) later
            (λ k. more h (same m n) refl k) (λ k. h ∙ less (same m n) refl k)

  -- The phantom claims are the paths that are claimed and not changed, and the unreported ones those that are changed and not
  -- claimed: as sets of the non-empty paths, normalised, the two differences of what is claimed and what is changed.
  pub reconcile_claims_lem :
      (claimed actual : List Bytes) (n : Bytes)
      → (holds (reconcile_claims trim_space claimed actual).0 n
          ≡ (among claimed n && not (among actual n)))
        × (holds (reconcile_claims trim_space claimed actual).1 n
            ≡ (among actual n && not (among claimed n)))
  unfolding reconcile_claims holds
  reconcile_claims_lem claimed actual n =
      let act = norm_paths trim_space actual in
      (
        claims_from-phantom act [] claimed n
            ∙ first_difference (is_empty n) (holds (norm_paths trim_space claimed) n) (holds act n),
        unreported_of-difference ((claims_from trim_space act [] claimed).0) actual n
            ∙ ap (λ (y : Bool). among actual n && not y) (claims_from-seen act [] claimed n),
      )
