-- ===== src/Engine/Guard.antt =====
-- internal/guard/guard.go: globs, and the test-file policy on the diff of a fix. A glob is a list of bytes; package
-- regexp is a parameter, of which a compiled pattern is a test on bytes.
use sdlc_orchestrator.Common.{
  ℕ, ◌+◌, ◌/◌, ◌%◌, ltb, Bool, false, ◌&&◌, ◌||◌, not, List, [], ◌∷◌, ◌++◌, Option, none, some,
  String, str_eq, select, if◌then◌else◌, ◌==◌, Bytes, codes,
}

-- `regexp.QuoteMeta`, and `regexp.Compile` with the `MatchString` of what it compiles.
pub record Regexp : Type 0 where
  pub quote_meta : Bytes → Bytes
  pub compile : Bytes → Option (Bytes → Bool)

-- A compiled glob: its regular expression.
abbrev pub Glob : Type 0
Glob = Bytes → Bool

-- `strings.ReplaceAll(s, "\\", "/")`.
unfoldable pub to_slashes : Bytes → Bytes
to_slashes [] = []
to_slashes (c ∷ s) = (if c == 92 then b'/' else c) ∷ to_slashes s

-- `string(c)` of a byte: the character with that number, in UTF-8.
unfoldable pub string_of : ℕ → Bytes
string_of c = if ltb c 128 then c ∷ [] else (192 + c / 64) ∷ (128 + c % 64) ∷ []

module _ (re : Regexp) where
  -- What one byte writes.
  unfoldable pub byte_source : ℕ → Bytes
  unfolding string_of
  byte_source c =
      if c == b'*'
      then codes "[^/]*"
      else if c == b'?'
      then codes "[^/]"
      else re.quote_meta (string_of c)

  -- The loop of `CompileGlob` on what is left of the pattern.
  unfoldable pub glob_from : Bytes → Bytes
  unfolding byte_source
  glob_from [] = []
  glob_from (a ∷ []) = byte_source a
  glob_from (a ∷ b ∷ []) =
      if a == b'*' && b == b'*' then codes ".*" else byte_source a ++ byte_source b
  glob_from (a ∷ b ∷ c ∷ p) =
      let behind = glob_from p in
      let rest = glob_from (b ∷ c ∷ p) in
      if a == b'*' && (b == b'*' && c == b'/')
      then codes "(?:[^/]+/)*" ++ behind
      else byte_source a ++ rest

  unfoldable pub glob_source : Bytes → Bytes
  unfolding to_slashes glob_from
  glob_source pattern = codes "(?i)^" ++ (glob_from (to_slashes pattern) ++ codes "$")

  unfoldable pub compile_glob : Bytes → Option Glob
  unfolding glob_source
  compile_glob pattern = re.compile (glob_source pattern)

  abbrev pub with_glob : Option Glob → Option (List Glob) → Option (List Glob)
  with_glob none rest = none
  with_glob (some g) none = none
  with_glob (some g) (some gs) = some (g ∷ gs)

  -- The globs, or an error where one does not compile.
  unfoldable pub compile_globs : List Bytes → Option (List Glob)
  unfolding compile_glob
  compile_globs [] = some []
  compile_globs (p ∷ ps) = with_glob (compile_glob p) (compile_globs ps)

-- `Match`.
unfoldable pub match : Glob → Bytes → Bool
unfolding to_slashes
match g path = g (to_slashes path)

-- The inner loop of `Matching`, which ends at the first glob that matches.
unfoldable pub any_match : List Glob → Bytes → Bool
unfolding match
any_match [] path = false
any_match (g ∷ gs) path = match g path || any_match gs path

unfoldable pub matching : List Glob → List String → List String
unfolding any_match
matching gs paths = select (λ p. any_match gs (codes p)) paths

-- The changed files that the fix of a code bug may not touch.
unfoldable pub check_fix_diff : List String → String → Bool → List Glob → List String
unfolding matching
check_fix_diff changed classification protect test_globs =
    if not protect || not (str_eq classification "code_bug")
    then []
    else matching test_globs changed
