-- ===== src/Map/Entries.antt =====
-- A predicate on every entry of a map, kept by its operations.
use segwire.Base.{
  Bool, true, none, some, [], ◌∷◌, ◌≡◌, arith, All, if◌then◌else◌, Bool-cases, inl, inr, ap,
}
use segwire.Text.{Text}
use segwire.Text.Equality.{text_eq, text_eq_iff, text_eq_refl}
use segwire.Map.{Map, lookup, insert, remove, update, retain, contains_key}

module _ {ℓ κ} {V : Type ℓ} where
  abbrev pub Entries : (Text → V → Type κ) → Map V → Type κ
  Entries P m = All (λ e. P e.0 e.1) m

  pub Entries-insert :
      (P : Text → V → Type κ) (k : Text) (v : V) (m : Map V)
      → P k v
      → Entries P m
      → Entries P (insert k v m)
  unfolding insert
  Entries-insert P k v [] p h = (p, tt)
  Entries-insert P k v ((j, w) ∷ m) p (q, h) = elim (Bool-cases (text_eq j k)) [
    | inl same ↦ rw same (p, h)
    | inr other ↦ rw other (q, Entries-insert P k v m p h)
  ]

  pub Entries-remove :
      (P : Text → V → Type κ) (k : Text) (m : Map V) → Entries P m → Entries P (remove k m)
  unfolding remove
  Entries-remove P k [] h = tt
  Entries-remove P k ((j, w) ∷ m) (q, h) = elim (Bool-cases (text_eq j k)) [
    | inl same ↦ rw same (Entries-remove P k m h)
    | inr other ↦ rw other (q, Entries-remove P k m h)
  ]

  pub Entries-update :
      (P : Text → V → Type κ) (k : Text) (f : V → V) (m : Map V)
      → ((j : Text) (w : V) → P j w → P j (f w))
      → Entries P m
      → Entries P (update k f m)
  unfolding update
  Entries-update P k f [] keep h = tt
  Entries-update P k f ((j, w) ∷ m) keep (q, h) = elim (Bool-cases (text_eq j k)) [
    | inl same ↦ rw same (keep j w q, h)
    | inr other ↦ rw other (q, Entries-update P k f m keep h)
  ]

  pub Entries-retain :
      (P : Text → V → Type κ) (p : Text → V → Bool) (m : Map V)
      → Entries P m
      → Entries P (retain p m)
  unfolding retain
  Entries-retain P p [] h = tt
  Entries-retain P p ((j, w) ∷ m) (q, h) = elim (Bool-cases (p j w)) [
    | inl keep ↦ rw keep (q, Entries-retain P p m h)
    | inr drop ↦ rw drop (Entries-retain P p m h)
  ]

  pub Entries-lookup :
      (P : Text → V → Type κ) (k : Text) (v : V) (m : Map V)
      → Entries P m
      → lookup k m ≡ some v
      → P k v
  unfolding lookup
  Entries-lookup P k v [] h e = absurd (cc)
  Entries-lookup P k v ((j, w) ∷ m) (q, h) e = elim (Bool-cases (text_eq j k)) [
    | inl same ↦
        let i : j ≡ k = (text_eq_iff j k).0 same in let x : w ≡ v = ground arith in rw (← i, ← x) q
    | inr other ↦ Entries-lookup P k v m h (ground arith)
  ]

-- A filter on the keys alone.
pub lookup-retain_keys {ℓ} :
    {V : Type ℓ} (p : Text → Bool) (k : Text) (m : Map V)
    → lookup k (retain (λ j w. p j) m) ≡ (if p k then lookup k m else none)
unfolding lookup retain
lookup-retain_keys p k [] = ground arith
lookup-retain_keys p k ((j, w) ∷ m) = elim (Bool-cases (text_eq j k)) [
  | inl same ↦ let e = ap p ((text_eq_iff j k).0 same) in ground (arith, lookup-retain_keys p k m)
  | inr other ↦ ground (arith, lookup-retain_keys p k m)
]

-- What holds of every key that the map contains holds of every entry.
pub Entries-contains_key {ℓ κ} :
    {V : Type ℓ} (Q : Text → Type κ) (m : Map V)
    → ((k : Text) → contains_key k m ≡ true → Q k)
    → Entries (λ k v. Q k) m
unfolding lookup
Entries-contains_key Q [] h = tt
Entries-contains_key Q ((j, w) ∷ m) h =
    (h j (rw text_eq_refl), Entries-contains_key Q m (λ k c. h k (ground arith)))
