-- ===== src/Wire/Roundtrip.antt =====
-- The search of attributes on an answer that is built of whole attributes.
use segwire.Base.{
  ℕ, zero, suc, ◌+◌, ◌-◌, ◌≤◌, ◌<◌, some, List, [], ◌∷◌, ◌++◌, length, length-append, append_assoc,
  All, ◌≡◌, ◌≢◌, sym, ap, ◌∙◌, arith,
}
use segwire.Wire.{u16_bytes, read_u16, align4, drop, zeros}
use segwire.Wire.Words.{drop-drop, drop-append, length-zeros, align4-le}
use segwire.Wire.Family.{
  family, next_offset, finished, attribute, read_family_id, attribute_round, search_round,
  search_family_id,
}
use segwire.Wire.Walk.{search_family_id-next, search_family_id-finished}

-- Attributes by kind and payload, one behind the other.
unfoldable pub attributes : List (ℕ × List ℕ) → List ℕ
unfolding attribute
attributes [] = []
attributes ((kind, payload) ∷ rest) = attribute kind payload ++ attributes rest

-- An attribute that fits its words and is not the id of the family.
abbrev pub IsOther : ℕ × List ℕ → Type 0
IsOther (kind, payload) = (kind < 65536) × (4 + length payload < 65536) × (kind ≢ 1)

pub length-attribute :
    (kind : ℕ) (payload : List ℕ) → length (attribute kind payload) ≡ align4 (4 + length payload)
unfolding attribute
length-attribute kind payload =
    let pad = align4 (4 + length payload) - (4 + length payload) in
    omega
      (arith, length-append payload (zeros pad), length-zeros pad, align4-le (4 + length payload))

-- The words at the front of an attribute.
attribute_words :
    (kind : ℕ) (payload rest : List ℕ)
    → kind < 65536
    → 4 + length payload < 65536
    → (read_u16 (attribute kind payload ++ rest) ≡ some (4 + length payload))
      × (read_u16 (drop 2 (attribute kind payload ++ rest)) ≡ some kind)
unfolding attribute drop
attribute_words kind payload rest hk hl = (ap some (omega arith), ap some (omega arith))

-- The buffer from the offset on, read by the words of a round.
search_round-at :
    (offset n : ℕ) (buf : List ℕ)
    → offset + 4 ≤ n
    → search_round offset n buf
      ≡ attribute_round offset
          (read_u16 (drop offset buf))
          (read_u16 (drop 2 (drop offset buf)))
          (read_u16 (drop 4 (drop offset buf)))
unfolding search_round
search_round-at offset n buf h =
    rw (drop-drop offset 2 buf, drop-drop offset 4 buf) (ground (arith))

skip_other :
    (offset n : ℕ) (buf payload rest : List ℕ) (kind : ℕ)
    → drop offset buf ≡ attribute kind payload ++ rest
    → IsOther (kind, payload)
    → offset + 4 ≤ n
    → search_round offset n buf ≡ next_offset (offset + align4 (4 + length payload))
unfolding attribute_round
skip_other offset n buf payload rest kind at (hk, hl, other) h =
    let (len, typ) = attribute_words kind payload rest hk hl in
    search_round-at offset n buf h ∙ rw (at, len, typ) (ground arith)

find_id :
    (offset n id : ℕ) (buf after : List ℕ)
    → drop offset buf ≡ attribute 1 (u16_bytes id) ++ after
    → id < 65536
    → offset + 6 ≤ n
    → search_round offset n buf ≡ finished (family id)
unfolding attribute_round attribute drop read_family_id
find_id offset n id buf after at hid h =
    search_round-at offset n buf (omega arith) ∙ rw at (ap (λ i. finished (family i)) (omega arith))

-- The attributes from the offset on, behind one of them.
later_attributes :
    (offset kind : ℕ) (payload rest buf : List ℕ)
    → drop offset buf ≡ attribute kind payload ++ rest
    → drop (offset + align4 (4 + length payload)) buf ≡ rest
later_attributes offset kind payload rest buf at =
    ap (λ l. drop (offset + l) buf) (sym (length-attribute kind payload))
    ∙ (sym (drop-drop offset (length (attribute kind payload)) buf)
        ∙ (ap (drop (length (attribute kind payload))) at
            ∙ drop-append (attribute kind payload) rest))

-- Behind attributes that are not the id of the family, the search finds the id.
pub search_family_id-attributes :
    (before : List (ℕ × List ℕ)) (id : ℕ) (after : List ℕ) (fuel offset n : ℕ) (buf : List ℕ)
    → All IsOther before
    → id < 65536
    → drop offset buf ≡ attributes before ++ (attribute 1 (u16_bytes id) ++ after)
    → offset + (length (attributes before) + 6) ≤ n
    → length before < fuel
    → search_family_id fuel offset n buf ≡ family id
unfolding attributes
search_family_id-attributes [] id after (suc fuel) offset n buf o hid at h f =
    search_family_id-finished fuel offset n buf (find_id offset n id buf after at hid h)
search_family_id-attributes ((kind, payload) ∷ before) id after (suc fuel) offset n buf o hid at h
      f =
    let tail = attributes before ++ (attribute 1 (u16_bytes id) ++ after) in
    let at' = at ∙ append_assoc (attribute kind payload) (attributes before) _ in
    let sum = length-append (attribute kind payload) (attributes before) in
    let one = length-attribute kind payload in
    search_family_id-next fuel offset n buf
      (skip_other offset n buf payload tail kind at' o.0 (omega (arith, sum, one, h)))
    ∙ search_family_id-attributes before id after fuel (offset + align4 (4 + length payload)) n buf
        o.1 hid (later_attributes offset kind payload tail buf at') (omega (arith, sum, one, h))
        (omega arith)
search_family_id-attributes before id after zero offset n buf o hid at h f = absurd (omega arith)

pub count_attributes : (l : List (ℕ × List ℕ)) → length l ≤ length (attributes l)
unfolding attributes
count_attributes [] = omega arith
count_attributes ((kind, payload) ∷ rest) = omega (
  arith,
  count_attributes rest,
  length-append (attribute kind payload) (attributes rest),
  length-attribute kind payload,
)
