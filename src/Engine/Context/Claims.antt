-- ===== src/Engine/Context/Claims.antt =====
-- `normPath` and `reconcileClaims` of internal/engine/jobctx.go: what an agent said it changed, against what it
-- changed. The two lists are given in the order they are found; the code sorts them for its messages.
pub mod Booleans
pub mod Sets
use sdlc_orchestrator.Common.{
  Bool, false, ◌&&◌, ◌||◌, not, List, [], ◌∷◌, is_empty, if◌then◌else◌, ◌==◌, Bytes, same,
  trim_prefix, codes,
}

-- `strings.Trim(s, "\"")`, first on the left and then, from the end, on the right.
unfoldable pub trim_left_quotes : Bytes → Bytes
trim_left_quotes [] = []
trim_left_quotes (c ∷ s) = let rest = trim_left_quotes s in if c == 34 then rest else c ∷ s

unfoldable pub trim_right_quotes : Bytes → Bytes
trim_right_quotes [] = []
trim_right_quotes (c ∷ s) =
    let rest = trim_right_quotes s in if is_empty rest && c == 34 then [] else c ∷ rest

-- `strings.ReplaceAll(s, "\\", "/")`.
unfoldable pub slashes : Bytes → Bytes
slashes [] = []
slashes (c ∷ s) = (if c == 92 then 47 else c) ∷ slashes s

-- Whether a set of names, kept as a map, holds one.
unfoldable pub holds : List Bytes → Bytes → Bool
unfolding same
holds [] n = false
holds (m ∷ ms) n = same m n || holds ms n

-- `strings.TrimSpace`.
module _ (trim_space : Bytes → Bytes) where
  unfoldable pub norm_path : Bytes → Bytes
  unfolding trim_left_quotes trim_right_quotes slashes trim_prefix
  norm_path p =
      trim_prefix
        (trim_prefix (trim_space (slashes (trim_right_quotes (trim_left_quotes (trim_space p)))))
          (codes "./"))
        (codes "/")

  unfoldable pub norm_paths : List Bytes → List Bytes
  norm_paths [] = []
  norm_paths (p ∷ ps) = norm_path p ∷ norm_paths ps

  -- The loop over the claims, with those seen so far: the seen ones and the phantoms.
  unfoldable pub claims_from : List Bytes → List Bytes → List Bytes → List Bytes × List Bytes
  unfolding norm_path holds
  claims_from act seen [] = (seen, [])
  claims_from act seen (f ∷ fs) =
      let n = norm_path f in
      let skip = claims_from act seen fs in
      let rest = claims_from act (n ∷ seen) fs in
      if is_empty n || holds seen n
      then skip
      else (rest.0, if holds act n then rest.1 else n ∷ rest.1)

  unfoldable pub unreported_of : List Bytes → List Bytes → List Bytes
  unfolding norm_path holds
  unreported_of seen [] = []
  unreported_of seen (f ∷ fs) =
      let rest = unreported_of seen fs in
      let n = norm_path f in if not (is_empty n) && not (holds seen n) then n ∷ rest else rest

  -- The phantom claims and the unreported changes.
  unfoldable pub reconcile_claims : List Bytes → List Bytes → List Bytes × List Bytes
  unfolding norm_paths claims_from unreported_of
  reconcile_claims claimed actual =
      let r = claims_from (norm_paths actual) [] claimed in (r.1, unreported_of (r.0) actual)
