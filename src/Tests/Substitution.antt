-- ===== src/Tests/Substitution.antt =====
-- The substitution of variables.
use segwire.Base.{false, Option, none, [], ◌∷◌, ok, refl, ◌≡◌, is_ok}
use segwire.Text.{Text, lit, strip_prefix}
use segwire.Text.Equality.{text_eq}
use segwire.Map.{Map, lookup}
use segwire.Utils.Substitute.{
  substitute_env_vars, has_reference, pieces, resolve_variable_spec, split_at, get_variable_value,
}
use segwire.Utils.Substitute.Laws.{substitute_env_vars-no_reference}

abbrev no_env : Text → Option Text
no_env name = none

-- A refers to B.
abbrev variables : Map Text
variables = (lit "A", lit "${B}") ∷ (lit "B", lit "x") ∷ []

substitute-nested : substitute_env_vars no_env variables (lit "1${A}2${C:-d}") ≡ ok (lit "1x2d")
unfolding substitute_env_vars lit resolve_variable_spec split_at strip_prefix get_variable_value
    lookup text_eq
substitute-nested = refl

-- The match ends at the first brace.
substitute-nested_default : substitute_env_vars no_env variables (lit "${B:-${A}}") ≡ ok (lit "x}")
unfolding substitute_env_vars lit resolve_variable_spec split_at strip_prefix get_variable_value
    lookup text_eq
substitute-nested_default = refl

substitute-circular :
    is_ok (substitute_env_vars no_env ((lit "A", lit "${A}") ∷ []) (lit "${A}")) ≡ false
unfolding substitute_env_vars lit resolve_variable_spec split_at strip_prefix get_variable_value
    lookup text_eq
substitute-circular = refl

substitute_env_vars-no_reference_example : has_reference (pieces (lit "1x2d")) ≡ false
substitute_env_vars-no_reference_example =
    substitute_env_vars-no_reference no_env variables (lit "1${A}2${C:-d}") (lit "1x2d")
      substitute-nested

lan-no_reference : has_reference (pieces (lit "$lan {")) ≡ false
unfolding has_reference pieces lit
lan-no_reference = refl
