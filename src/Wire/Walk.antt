-- ===== src/Wire/Walk.antt =====
-- resolve_genl_family_id returns: its loop ends, and it reads inside its buffer.
use segwire.Base.{
  ℕ, zero, suc, ◌+◌, ◌*◌, ◌≤◌, ◌<◌, Bool, true, false, Option, none, some, List, length, Result, ok,
  err, map_err, ◌>>=◌, leb, ◌≡◌, ◌≢◌, refl, ap, ◌∙◌, subst, ◌⊎◌, arith, Bool-cases, inl, inr,
  leb→le, if◌then◌else◌,
}
use segwire.Text.{Text}
use segwire.Error.{NetlinkError}
use segwire.Wire.{read_u16, drop, CallOutcome, returns, reading, ◌>>-◌}
use segwire.Wire.Words.{length-drop, read_u16_inside}
use segwire.Wire.Family.{
  Found, family, absent, out_of_bounds, out_of_fuel, Round, next_offset, finished, read_family_id,
  attribute_round, search_round, search_family_id, family_outcome,
}

-- A round goes on at least four bytes later, and never reports that the fuel is used up.
abbrev IsProgress : ℕ → ℕ → Round → Type 0
IsProgress offset n (next_offset later) = (offset + 4 ≤ n) × (offset + 4 ≤ later)
IsProgress offset n (finished found) = found ≢ out_of_fuel

attribute_round-IsProgress :
    (offset n : ℕ) (nla_len nla_type value : Option ℕ)
    → offset + 4 ≤ n
    → IsProgress offset n (attribute_round offset nla_len nla_type value)
unfolding attribute_round read_family_id
attribute_round-IsProgress offset n len kind value h = ground arith

search_round-IsProgress :
    (offset n : ℕ) (buf : List ℕ) → IsProgress offset n (search_round offset n buf)
unfolding search_round
search_round-IsProgress offset n buf = elim (Bool-cases (leb (offset + 4) n)) [
  | inl inside ↦ rw inside (
      attribute_round-IsProgress offset n (read_u16 (drop offset buf))
        (read_u16 (drop (offset + 2) buf)) (read_u16 (drop (offset + 4) buf))
        (leb→le (offset + 4) n inside))
  | inr past ↦ rw past (λ e. cc)
]

Round-cases :
    (r : Round) → ((later : ℕ) × (r ≡ next_offset later)) ⊎ ((found : Found) × (r ≡ finished found))
Round-cases (next_offset later) = inl (later, refl)
Round-cases (finished found) = inr (found, refl)

pub search_family_id-next :
    (fuel offset n : ℕ) (buf : List ℕ) {later : ℕ}
    → search_round offset n buf ≡ next_offset later
    → search_family_id (suc fuel) offset n buf ≡ search_family_id fuel later n buf
unfolding search_family_id
search_family_id-next fuel offset n buf e = rw (e, search_family_id) refl

pub search_family_id-finished :
    (fuel offset n : ℕ) (buf : List ℕ) {found : Found}
    → search_round offset n buf ≡ finished found
    → search_family_id (suc fuel) offset n buf ≡ found
unfolding search_family_id
search_family_id-finished fuel offset n buf e = rw (e, search_family_id) refl

pub search_family_id_finishes :
    (fuel offset n : ℕ) (buf : List ℕ)
    → n < offset + 4 * suc fuel
    → search_family_id (suc fuel) offset n buf ≢ out_of_fuel
unfolding search_family_id
search_family_id_finishes zero offset n buf h = elim (Round-cases (search_round offset n buf)) [
  | inl (later, e) ↦
      let p = subst (IsProgress offset n) e (search_round-IsProgress offset n buf) in
      absurd (omega (arith, p.0))
  | inr (found, e) ↦
      let p = subst (IsProgress offset n) e (search_round-IsProgress offset n buf) in
      rw (search_family_id-finished zero offset n buf e) p
]
search_family_id_finishes (suc fuel) offset n buf h =
    elim (Round-cases (search_round offset n buf)) [
      | inl (later, e) ↦
          let p = subst (IsProgress offset n) e (search_round-IsProgress offset n buf) in
          rw (search_family_id-next (suc fuel) offset n buf e)
            (search_family_id_finishes fuel later n buf (omega (arith, p.1)))
      | inr (found, e) ↦
          let p = subst (IsProgress offset n) e (search_round-IsProgress offset n buf) in
          rw (search_family_id-finished (suc fuel) offset n buf e) p
    ]

attribute_round-IsInside :
    (offset : ℕ) (nla_len nla_type value : Option ℕ)
    → nla_len ≢ none
    → nla_type ≢ none
    → value ≢ none
    → attribute_round offset nla_len nla_type value ≢ finished out_of_bounds
unfolding attribute_round read_family_id
attribute_round-IsInside offset (some len) (some kind) (some value) h k v = ground arith
attribute_round-IsInside offset none kind value h k v = absurd (h refl)
attribute_round-IsInside offset (some len) none value h k v = absurd (k refl)
attribute_round-IsInside offset (some len) (some kind) none h k v = absurd (v refl)

search_round-IsInside :
    (offset n : ℕ) (buf : List ℕ)
    → n + 2 ≤ length buf
    → search_round offset n buf ≢ finished out_of_bounds
unfolding search_round
search_round-IsInside offset n buf h = elim (Bool-cases (leb (offset + 4) n)) [
  | inl inside ↦
      let le = leb→le (offset + 4) n inside in
      rw inside (
        attribute_round-IsInside offset (read_u16 (drop offset buf))
          (read_u16 (drop (offset + 2) buf)) (read_u16 (drop (offset + 4) buf))
          (read_u16_inside (drop offset buf) (omega (arith, length-drop offset buf)))
          (read_u16_inside (drop (offset + 2) buf) (omega (arith, length-drop (offset + 2) buf)))
          (read_u16_inside (drop (offset + 4) buf) (omega (arith, length-drop (offset + 4) buf))))
  | inr past ↦ rw past (λ e. cc)
]

pub search_family_id_inside :
    (fuel offset n : ℕ) (buf : List ℕ)
    → n + 2 ≤ length buf
    → search_family_id fuel offset n buf ≢ out_of_bounds
unfolding search_family_id
search_family_id_inside zero offset n buf h = λ e. cc
search_family_id_inside (suc fuel) offset n buf h = elim (Round-cases (search_round offset n buf)) [
  | inl (later, e) ↦
      rw (search_family_id-next fuel offset n buf e) (search_family_id_inside fuel later n buf h)
  | inr (found, e) ↦
      let inside = search_round-IsInside offset n buf h in
      rw (search_family_id-finished fuel offset n buf e) (λ f. inside (e ∙ ap finished f))
]

-- A call that has come to a result.
abbrev pub IsReturn {ℓ} : {A : Type ℓ} → CallOutcome A → Type ℓ
IsReturn {A = A} o = (r : Result NetlinkError A) × (o ≡ returns r)

pub family_outcome-IsReturn :
    (name : Text) (found : Found)
    → found ≢ out_of_fuel
    → found ≢ out_of_bounds
    → IsReturn (family_outcome name found)
unfolding family_outcome
family_outcome-IsReturn name (family id) f b = (ok id, refl)
family_outcome-IsReturn name absent f b = (_, refl)
family_outcome-IsReturn name out_of_bounds f b = absurd (b refl)
family_outcome-IsReturn name out_of_fuel f b = absurd (f refl)

pub reading-IsReturn :
    {A B : Type 0} (o : Option A) (next : A → CallOutcome B)
    → o ≢ none
    → ((a : A) → IsReturn (next a))
    → IsReturn (reading o next)
reading-IsReturn none next h later = absurd (h refl)
reading-IsReturn (some a) next h later = later a

pub if-IsReturn :
    {A : Type 0} (b : Bool) {x y : CallOutcome A}
    → (b ≡ true → IsReturn x)
    → (b ≡ false → IsReturn y)
    → IsReturn (if b then x else y)
if-IsReturn true h k = h refl
if-IsReturn false h k = k refl

pub >>--IsReturn :
    {A B : Type 0} (m : Result NetlinkError A) (next : A → CallOutcome B)
    → ((a : A) → IsReturn (next a))
    → IsReturn (m >>- next)
>>--IsReturn (ok a) next h = h a
>>--IsReturn (err e) next h = (err e, refl)

-- The socket that is opened is the same, whatever opening it came to.
pub >>--fresh :
    {A B E : Type 0} (m : Result E (Unit {0})) (f : E → NetlinkError) (a : A)
    (next : A → CallOutcome B)
    → (map_err f m >>= λ _. ok a) >>- next ≡ map_err f m >>- λ _. next a
>>--fresh (ok tt) f a next = refl
>>--fresh (err e) f a next = refl
