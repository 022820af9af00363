-- ===== src/Utils/Substitute.antt =====
-- `substitute_env_vars`, `resolve_variable_spec` and `get_variable_value` (utils.rs).
pub mod Laws
use segwire.Base.{
  ℕ, zero, suc, ◌+◌, Bool, true, false, Option, none, some, List, [], ◌∷◌, ◌++◌, ◌==◌, leb, ok, err,
  ◌>>=◌, ◌||◌, if◌then◌else◌,
}
use segwire.Text.{Text, lit, is_empty, strip_prefix}
use segwire.Map.{Map, lookup}
use segwire.Error.{SegwireResult, SegwireError, config, env_substitution}

-- A text cut at the matches of `\$\{([^}]+)\}`: single characters, and what stands in the braces.
pub data Piece : Type 0 where
  plain : ℕ → Piece
  reference : Text → Piece

-- Where the scan stands: outside of a match, behind a `$`, or behind `${` and the text that follows.
pub data Mode : Type 0 where
  outside dollar : Mode
  inside : Text → Mode

abbrev plains : Text → List Piece
plains [] = []
plains (c ∷ s) = plain c ∷ plains s

-- One character of the scan. `${}` is no match, since the braces must hold something; a match takes
-- everything up to the first `}`, another `${` too.
step : Mode → ℕ → Mode × List Piece
step outside c = if c == b'$' then (dollar, []) else (outside, plain c ∷ [])
step dollar c =
    if c == b'{'
    then (inside [], [])
    else if c == b'$'
    then (dollar, plain b'$' ∷ [])
    else (outside, plain b'$' ∷ plain c ∷ [])
step (inside s) c =
    if c == b'}'
    then if is_empty s
      then (outside, plain b'$' ∷ plain b'{' ∷ plain b'}' ∷ [])
      else (outside, reference s ∷ [])
    else (inside (s ++ c ∷ []), [])

-- What is left over at the end is no match.
finish : Mode → List Piece
finish outside = []
finish dollar = plain b'$' ∷ []
finish (inside s) = plain b'$' ∷ plain b'{' ∷ plains s

scan : Mode → Text → List Piece
unfolding step finish
scan m [] = finish m
scan m (c ∷ s) = let (m', out) = step m c in out ++ scan m' s

-- var_pattern.find_iter(&result)
unfoldable pub pieces : Text → List Piece
unfolding scan
pieces s = scan outside s

-- str::find with a text, and the two slices
unfoldable pub split_at : Text → Text → Option (Text × Text)
split_at sep [] = none
split_at sep (c ∷ s) = elim (strip_prefix sep (c ∷ s)) [
  | some rest ↦ some ([], rest)
  | none ↦ elim (split_at sep s) as (λ _. Option (Text × Text)) [
    | none ↦ none
    | some (a, b) ↦ some (c ∷ a, b)
  ]
]

module _ (system_env : Text → Option Text) (config_env : Map Text) where
  -- The configuration's own variables first, then those of the process.
  unfoldable pub get_variable_value : Text → Option Text
  get_variable_value name = elim (lookup name config_env) [
    | some value ↦ some value
    | none ↦ system_env name
  ]

  -- ${NAME:-default}
  abbrev with_default : Option Text → Text → Text
  with_default none default = default
  with_default (some value) default = if is_empty value then default else value

  -- ${NAME:+alternate}
  abbrev with_alternate : Option Text → Text → Text
  with_alternate none alternate = []
  with_alternate (some value) alternate = if is_empty value then [] else alternate

  abbrev plain_value : Text → Option Text → SegwireResult Text
  plain_value name none =
      err (config (env_substitution (lit "Environment variable '" ++ (name ++ lit "' not found"))))
  plain_value name (some value) = ok value

  unfoldable pub resolve_variable_spec : Text → SegwireResult Text
  resolve_variable_spec spec = elim (split_at (lit ":-") spec) [
    | some (name, default) ↦ ok (with_default (get_variable_value name) default)
    | none ↦ elim (split_at (lit ":+") spec) [
      | some (name, alternate) ↦ ok (with_alternate (get_variable_value name) alternate)
      | none ↦ plain_value spec (get_variable_value spec)
    ]
  ]

  -- One round: the matches are replaced from the last to the first, and an error ends the round.
  unfoldable pub substitute_pieces : List Piece → SegwireResult Text
  substitute_pieces [] = ok []
  substitute_pieces (plain c ∷ ps) = do rest ← substitute_pieces ps; ok (c ∷ rest)
  substitute_pieces (reference spec ∷ ps) = do
    rest ← substitute_pieces ps
    value ← resolve_variable_spec spec
    ok (value ++ rest)

-- Whether a round changes something: there is a match.
unfoldable pub has_reference : List Piece → Bool
has_reference [] = false
has_reference (plain c ∷ ps) = has_reference ps
has_reference (reference s ∷ ps) = true

abbrev pub max_iterations : ℕ
max_iterations = 10

module _ (system_env : Text → Option Text) (config_env : Map Text) where
  -- Behind the loop.
  abbrev check_count : ℕ → Text → SegwireResult Text
  check_count count result =
      if leb max_iterations count
      then err (
          config (
            env_substitution
              (lit "Maximum substitution iterations exceeded - possible circular reference")))
      else ok result

  -- while changed && iteration_count < MAX_ITERATIONS; `left` is what remains of the bound.
  unfoldable pub substitute_loop : ℕ → ℕ → Text → SegwireResult Text
  unfolding substitute_pieces has_reference pieces
  substitute_loop zero count result = check_count count result
  substitute_loop (suc left) count result =
      let changed = (do
        next ← substitute_pieces system_env config_env (pieces result)
        substitute_loop left (count + 1) next) in
      if has_reference (pieces result) then changed else check_count (count + 1) result

  unfoldable pub substitute_env_vars : Text → SegwireResult Text
  unfolding substitute_loop
  substitute_env_vars input = substitute_loop max_iterations 0 input
