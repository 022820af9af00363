-- ===== src/Map.antt =====
-- `HashMap<String, V>` as an association list. The order of the entries stands for the order of
-- iteration, which the program does not fix.
pub mod Entries
use segwire.Base.{
  ℕ, Bool, true, false, not, Option, none, some, List, [], ◌∷◌, map, filter, ◌≡◌, refl,
  if◌then◌else◌, arith, ◌⊎◌,
}
use segwire.Text.{Text, is_some}
use segwire.Text.Equality.{text_eq, text_eq_iff, text_eq_refl}

abbrev pub Map {ℓ} : Type ℓ → Type ℓ
Map V = List (Text × V)

module _ {ℓ} {V : Type ℓ} where
  unfoldable pub lookup : Text → Map V → Option V
  lookup k [] = none
  lookup k ((j, v) ∷ m) = if text_eq j k then some v else lookup k m

  abbrev pub contains_key : Text → Map V → Bool
  contains_key k m = is_some (lookup k m)

  unfoldable pub insert : Text → V → Map V → Map V
  insert k v [] = (k, v) ∷ []
  insert k v ((j, w) ∷ m) = if text_eq j k then (k, v) ∷ m else (j, w) ∷ insert k v m

  unfoldable pub remove : Text → Map V → Map V
  remove k [] = []
  remove k ((j, w) ∷ m) = let rest = remove k m in if text_eq j k then rest else (j, w) ∷ rest

  -- `if let Some(v) = m.get_mut(k) { f(v) }`
  unfoldable pub update : Text → (V → V) → Map V → Map V
  update k f [] = []
  update k f ((j, w) ∷ m) = if text_eq j k then (j, f w) ∷ m else (j, w) ∷ update k f m

  -- HashMap::retain
  unfoldable pub retain : (Text → V → Bool) → Map V → Map V
  retain p [] = []
  retain p ((j, w) ∷ m) = let rest = retain p m in if p j w then (j, w) ∷ rest else rest

  unfoldable pub keys : Map V → List Text
  keys [] = []
  keys ((j, w) ∷ m) = j ∷ keys m

  pub lookup-insert :
      (k j : Text) (v : V) (m : Map V)
      → lookup j (insert k v m) ≡ (if text_eq k j then some v else lookup j m)
  unfolding lookup insert
  lookup-insert k j v ((i, w) ∷ m) =
      ground (arith, text_eq_iff k j, text_eq_iff i k, text_eq_iff i j, lookup-insert k j v m)
  lookup-insert k j v [] = refl

  pub lookup-remove :
      (k j : Text) (m : Map V) → lookup j (remove k m) ≡ (if text_eq k j then none else lookup j m)
  unfolding lookup remove
  lookup-remove k j [] = ground arith
  lookup-remove k j ((i, w) ∷ m) =
      ground (arith, text_eq_iff k j, text_eq_iff i k, text_eq_iff i j, lookup-remove k j m)

  pub lookup-update :
      (k j : Text) (f : V → V) (m : Map V)
      → lookup j (update k f m) ≡ (
          if text_eq k j
          then elim (lookup j m) [ none ↦ none | some v ↦ some (f v) ]
          else lookup j m)
  unfolding lookup update
  lookup-update k j f [] = ground arith
  lookup-update k j f ((i, w) ∷ m) =
      ground (arith, text_eq_iff k j, text_eq_iff i k, text_eq_iff i j, lookup-update k j f m)
