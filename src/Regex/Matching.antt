-- ===== src/Regex/Matching.antt =====
-- The matcher decides the language of a pattern.
use segwire.Base.{
  ℕ, Bool, true, [], ◌∷◌, ◌++◌, ◌≡◌, refl, ◌↔◌, ◌⊎◌, inl, inr, arith, Bool-cases, &&_left, &&_right,
  ||_cases, ap, sym, ◌∙◌, subst,
}
use segwire.Text.{Text}
use segwire.Regex.{
  Regex, never, epsilon, class, seq, alt, star, Matches, match_epsilon, match_class, match_seq,
  match_left, match_right, match_none, match_more, join_seq, join_alt, nullable, derivative,
  is_match,
}

Matches-never : {s : Text} → Matches never s → ⊥
Matches-never m = elim m [ ]

-- A derivation for a pattern, taken apart by the pattern's shape.
Matches-epsilon : {s : Text} → Matches epsilon s → s ≡ []
Matches-epsilon match_epsilon = refl

Matches-class :
    {p : ℕ → Bool} {s : Text} → Matches (class p) s → (c : ℕ) × (p c ≡ true) × (s ≡ c ∷ [])
Matches-class (match_class c h) = (c, h, refl)

Matches-seq :
    {r q : Regex} {u : Text}
    → Matches (seq r q) u
    → (s : Text) × (t : Text) × (u ≡ s ++ t) × Matches r s × Matches q t
Matches-seq (match_seq s t u j m n) = (s, t, j, m, n)

Matches-alt : {r q : Regex} {u : Text} → Matches (alt r q) u → Matches r u ⊎ Matches q u
Matches-alt (match_left m) = inl m
Matches-alt (match_right m) = inr m

nullable_sound : (r : Regex) → nullable r ≡ true → Matches r []
unfolding nullable
nullable_sound never h = absurd (cc)
nullable_sound epsilon h = match_epsilon
nullable_sound (class p) h = absurd (cc)
nullable_sound (seq r q) h =
    match_seq [] [] [] refl (nullable_sound r (&&_left _ _ h)) (nullable_sound q (&&_right _ _ h))
nullable_sound (alt r q) h = elim (||_cases (nullable r) (nullable q) h) [
  | inl l ↦ match_left (nullable_sound r l)
  | inr l ↦ match_right (nullable_sound q l)
]
nullable_sound (star r) h = match_none

append-eq-nil : (s t : Text) → [] ≡ s ++ t → (s ≡ []) × (t ≡ [])
append-eq-nil [] t h = (refl, sym h)
append-eq-nil (c ∷ s) t h = absurd (cc)

nullable_complete : (r : Regex) (s : Text) → Matches r s → s ≡ [] → nullable r ≡ true
unfolding nullable
nullable_complete never s m e = absurd (Matches-never m)
nullable_complete epsilon s m e = refl
nullable_complete (class p) s m e = let (c, h, j) = Matches-class m in absurd (cc)
nullable_complete (seq r q) s m e =
    let (a, b, j, m', n') = Matches-seq m in
    let (ea, eb) = append-eq-nil a b (sym e ∙ j) in
    ground (arith, nullable_complete r a m' ea, nullable_complete q b n' eb)
nullable_complete (alt r q) s m e = elim (Matches-alt m) [
  | inl l ↦ ground (arith, nullable_complete r s l e)
  | inr l ↦ ground (arith, nullable_complete q s l e)
]
nullable_complete (star r) s m e = refl

-- The joins have the languages of `seq` and `alt`.
join_seq_sound : (r q : Regex) (s : Text) → Matches (join_seq r q) s → Matches (seq r q) s
unfolding join_seq
join_seq_sound never q s m = absurd (Matches-never m)
join_seq_sound epsilon q s m = match_seq [] s s refl match_epsilon m
join_seq_sound _ q s m = m

join_seq_complete : (r q : Regex) (s : Text) → Matches (seq r q) s → Matches (join_seq r q) s
unfolding join_seq
join_seq_complete never q s m = let (a, b, j, n, n') = Matches-seq m in absurd (Matches-never n)
join_seq_complete epsilon q s m =
    let (a, b, j, n, n') = Matches-seq m in
    subst (λ t. Matches q t) (sym (cc (j, Matches-epsilon n))) n'
join_seq_complete _ q s m = m

join_alt_sound : (r q : Regex) (s : Text) → Matches (join_alt r q) s → Matches (alt r q) s
unfolding join_alt
join_alt_sound never q s m = match_right m
join_alt_sound epsilon never s m = match_left m
join_alt_sound (class p) never s m = match_left m
join_alt_sound (seq a b) never s m = match_left m
join_alt_sound (alt a b) never s m = match_left m
join_alt_sound (star a) never s m = match_left m
join_alt_sound _ _ s m = m

Matches-alt_never : {r : Regex} {s : Text} → Matches (alt r never) s → Matches r s
Matches-alt_never (match_left m) = m
Matches-alt_never (match_right m) = absurd (Matches-never m)

join_alt_complete : (r q : Regex) (s : Text) → Matches (alt r q) s → Matches (join_alt r q) s
unfolding join_alt
join_alt_complete never q s (match_left m) = absurd (Matches-never m)
join_alt_complete never q s (match_right m) = m
join_alt_complete epsilon never s m = Matches-alt_never m
join_alt_complete (class p) never s m = Matches-alt_never m
join_alt_complete (seq a b) never s m = Matches-alt_never m
join_alt_complete (alt a b) never s m = Matches-alt_never m
join_alt_complete (star a) never s m = Matches-alt_never m
join_alt_complete _ _ s m = m

seq-cons :
    (c : ℕ) (r q : Regex) (s : Text)
    → ((t : Text) → Matches (derivative c r) t → Matches r (c ∷ t))
    → Matches (join_seq (derivative c r) q) s
    → Matches (seq r q) (c ∷ s)
seq-cons c r q s ih m =
    let (a, b, j, n, n') = Matches-seq (join_seq_sound (derivative c r) q s m) in
    match_seq (c ∷ a) b (c ∷ s) (ap (λ t. c ∷ t) j) (ih a n) n'

derivative_sound : (c : ℕ) (r : Regex) (s : Text) → Matches (derivative c r) s → Matches r (c ∷ s)
unfolding derivative
derivative_sound c never s m = absurd (Matches-never m)
derivative_sound c epsilon s m = absurd (Matches-never m)
derivative_sound c (class p) s m = elim (Bool-cases (p c)) [
  | inl h ↦
      subst (λ t. Matches (class p) (c ∷ t)) (sym (Matches-epsilon (rw h at m))) (match_class c h)
  | inr h ↦ absurd (Matches-never (rw h at m))
]
derivative_sound c (seq r q) s m = elim (Bool-cases (nullable r)) [
  | inl h ↦ elim (Matches-alt (join_alt_sound _ _ s (rw h at m))) [
    | inl l ↦ seq-cons c r q s (derivative_sound c r) l
    | inr l ↦ match_seq [] (c ∷ s) (c ∷ s) refl (nullable_sound r h) (derivative_sound c q s l)
  ]
  | inr h ↦ seq-cons c r q s (derivative_sound c r) (rw h at m)
]
derivative_sound c (alt r q) s m = elim (Matches-alt (join_alt_sound _ _ s m)) [
  | inl l ↦ match_left (derivative_sound c r s l)
  | inr l ↦ match_right (derivative_sound c q s l)
]
derivative_sound c (star r) s m =
    let (a, b, j, n, n') = Matches-seq (join_seq_sound (derivative c r) (star r) s m) in
    match_more (c ∷ a) b (c ∷ s) (ap (λ t. c ∷ t) j) (derivative_sound c r a n) n'

-- The round of a starred pattern that takes the first character.
star_head :
    {r : Regex} {u : Text}
    → Matches (star r) u
    → (c : ℕ) (s : Text) → u ≡ c ∷ s
    → (a : Text) × (b : Text) × (s ≡ a ++ b) × Matches r (c ∷ a) × Matches (star r) b
star_head match_none c s e = absurd (cc)
star_head (match_more [] t u j m n) c s e = star_head n c s (sym j ∙ e)
star_head {r} (match_more (d ∷ a) t u j m n) c s e =
    (a, t, cc, subst (λ x. Matches r (x ∷ a)) (cc) m, n)

-- The first character of a sequence is taken by its second part only if the first part is nullable.
derivative-complete_seq :
    (c : ℕ) (r q : Regex) (s a b : Text)
    → ((t : Text) → Matches r (c ∷ t) → Matches (derivative c r) t)
    → ((t : Text) → Matches q (c ∷ t) → Matches (derivative c q) t)
    → c ∷ s ≡ a ++ b
    → Matches r a
    → Matches q b
    → Matches (derivative c (seq r q)) s
unfolding derivative
derivative-complete_seq c r q s [] b ihr ihq j m n =
    let h = nullable_complete r [] m refl in
    let right = ihq s (subst (λ t. Matches q t) (sym j) n) in
    rw h (join_alt_complete _ _ s (match_right right))
derivative-complete_seq c r q s (d ∷ a) b ihr ihq j m n =
    let first = ihr a (subst (λ x. Matches r (x ∷ a)) (cc) m) in
    let left = join_seq_complete _ q s (match_seq a b s (cc) first n) in
    elim (Bool-cases (nullable r)) [
      | inl h ↦ rw h (join_alt_complete _ _ s (match_left left))
      | inr h ↦ rw h left
    ]

derivative_complete :
    (c : ℕ) (r : Regex) (s : Text) → Matches r (c ∷ s) → Matches (derivative c r) s
unfolding derivative
derivative_complete c never s m = absurd (Matches-never m)
derivative_complete c epsilon s m = absurd (cc (Matches-epsilon m))
derivative_complete c (class p) s m =
    let (d, h, j) = Matches-class m in
    let h' : p c ≡ true = ap p (cc) ∙ h in
    let e : s ≡ [] = cc in rw h' (subst (λ t. Matches epsilon t) (sym e) match_epsilon)
derivative_complete c (seq r q) s m =
    let (a, b, j, n, n') = Matches-seq m in
    derivative-complete_seq c r q s a b (derivative_complete c r) (derivative_complete c q) j n n'
derivative_complete c (alt r q) s m = elim (Matches-alt m) [
  | inl l ↦ join_alt_complete _ _ s (match_left (derivative_complete c r s l))
  | inr l ↦ join_alt_complete _ _ s (match_right (derivative_complete c q s l))
]
derivative_complete c (star r) s m =
    let (a, b, j, n, n') = star_head m c s refl in
    join_seq_complete _ _ s (match_seq a b s j (derivative_complete c r a n) n')

-- The matcher accepts a text exactly if the pattern's language holds it.
pub is_match_iff : (r : Regex) (s : Text) → (is_match r s ≡ true) ↔ Matches r s
unfolding is_match
is_match_iff r [] = (nullable_sound r, λ m. nullable_complete r [] m refl)
is_match_iff r (c ∷ s) = (
  λ h. derivative_sound c r s ((is_match_iff (derivative c r) s).0 h),
  λ m. (is_match_iff (derivative c r) s).1 (derivative_complete c r s m),
)
