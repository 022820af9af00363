-- ===== src/Text/Numbers.antt =====
-- Decimal numbers: `format!("{}", n)`, and `str::parse` into an unsigned type.
use segwire.Base.{
  ℕ, zero, suc, ◌+◌, ◌-◌, ◌*◌, ◌/◌, ◌%◌, ◌≤◌, ◌&&◌, Option, none, some, List, [], ◌∷◌, ◌==◌, leb,
  if◌then◌else◌, ◌≡◌, arith,
}

-- The digits of a positive number before `out`, with fuel.
digits : ℕ → ℕ → List ℕ → List ℕ
digits zero n out = out
digits (suc f) n out =
    let rest = digits f (n / 10) ((n % 10 + b'0') ∷ out) in if n == 0 then out else rest

-- A number below 10 ^ f has at most f digits, and n < 10 ^ n.
unfoldable pub decimal : ℕ → List ℕ
unfolding digits
decimal n = if n == 0 then b'0' ∷ [] else digits n n []

-- The digits of a text read on from `n`; `none` at another character and past `max`.
unfoldable pub parse_digits : ℕ → ℕ → List ℕ → Option ℕ
parse_digits max n [] = some n
parse_digits max n (c ∷ s) =
    let m = n * 10 + (c - b'0') in
    let rest = parse_digits max m s in
    if (leb b'0' c && leb c b'9') && leb m max then rest else none

-- str::parse::<uN>: one optional `+`, at least one digit, no overflow.
unfoldable pub parse_uint : ℕ → List ℕ → Option ℕ
unfolding parse_digits
parse_uint max [] = none
parse_uint max (c ∷ []) = if c == b'+' then none else parse_digits max 0 (c ∷ [])
parse_uint max (c ∷ d ∷ s) =
    if c == b'+' then parse_digits max 0 (d ∷ s) else parse_digits max 0 (c ∷ d ∷ s)

parse_digits-le :
    (max n : ℕ) (s : List ℕ) (m : ℕ) → n ≤ max → parse_digits max n s ≡ some m → m ≤ max
unfolding parse_digits
parse_digits-le max n [] m h e = ground arith
parse_digits-le max n (c ∷ s) m h e = ground (arith, parse_digits-le max (n * 10 + (c - b'0')) s m)

-- A parsed number fits its type.
pub parse_uint-le : (max : ℕ) (s : List ℕ) (m : ℕ) → parse_uint max s ≡ some m → m ≤ max
unfolding parse_uint
parse_uint-le max [] m e = cc
parse_uint-le max (c ∷ []) m e = ground (arith, parse_digits-le max 0 (c ∷ []) m)
parse_uint-le max (c ∷ d ∷ s) m e =
    ground (arith, parse_digits-le max 0 (d ∷ s) m, parse_digits-le max 0 (c ∷ d ∷ s) m)
