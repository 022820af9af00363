-- ===== src/Wire/Words.antt =====
-- Laws of the words and of the lists of bytes.
use segwire.Base.{
  ℕ, zero, suc, ◌+◌, ◌-◌, ◌≤◌, ◌<◌, ◌^◌, none, some, List, [], ◌∷◌, ◌++◌, length, ◌≡◌, ◌≢◌, refl,
  ap, ◌∙◌, arith,
}
use native.Mathlib.Numerals.{unary_clauses}
use segwire.Wire.{u16_bytes, u32_bytes, read_u16, read_u32, align4, drop, take, zeros}

pub length-zeros : (n : ℕ) → length (zeros n) ≡ n
unfolding zeros
length-zeros zero = refl
length-zeros (suc n) = omega (arith, length-zeros n)

pub read_u16-u16_bytes :
    (n : ℕ) (rest : List ℕ) → n < 65536 → read_u16 (u16_bytes n ++ rest) ≡ some n
read_u16-u16_bytes n rest h = ap some (omega arith)

pub read_u32-u32_bytes :
    (n : ℕ) (rest : List ℕ) → n < 2 ^ 32 → read_u32 (u32_bytes n ++ rest) ≡ some n
read_u32-u32_bytes n rest h = ap some (omega arith)

pub align4-le : (n : ℕ) → n ≤ align4 n
align4-le n = omega arith

pub align4_bound : (n : ℕ) → align4 n ≤ n + 3
align4_bound n = omega arith

module _ {ℓ} {A : Type ℓ} where
  pub drop-append : (xs ys : List A) → drop (length xs) (xs ++ ys) ≡ ys
  unfolding drop
  drop-append [] ys = refl
  drop-append (x ∷ xs) ys = drop-append xs ys

  pub take-append : (xs ys : List A) → take (length xs) (xs ++ ys) ≡ xs
  unfolding take
  take-append [] ys = refl
  take-append (x ∷ xs) ys = ap (λ l. x ∷ l) (take-append xs ys)

  pub take-all : (n : ℕ) (xs : List A) → length xs ≤ n → take n xs ≡ xs
  unfolding take
  take-all zero [] h = refl
  take-all zero (x ∷ xs) h = absurd (omega arith)
  take-all (suc n) [] h = refl
  take-all (suc n) (x ∷ xs) h = ap (λ l. x ∷ l) (take-all n xs (omega arith))

  pub drop-drop : (m n : ℕ) (xs : List A) → drop n (drop m xs) ≡ drop (m + n) xs
  unfolding drop
  drop-drop zero n xs = ap (λ k. drop k xs) (omega arith)
  drop-drop (suc m) zero [] = simp unary_clauses refl
  drop-drop (suc m) (suc n) [] = simp unary_clauses refl
  drop-drop (suc m) n (x ∷ xs) =
      let later : suc (m + n) ≡ suc m + n = omega arith in
      drop-drop m n xs ∙ ap (λ k. drop k (x ∷ xs)) later

  pub length-drop : (n : ℕ) (xs : List A) → length (drop n xs) ≡ length xs - n
  unfolding drop
  length-drop zero xs = omega arith
  length-drop (suc n) [] = omega arith
  length-drop (suc n) (x ∷ xs) = omega (arith, length-drop n xs)

  pub length-take : (n : ℕ) (xs : List A) → length (take n xs) ≤ n
  unfolding take
  length-take zero xs = omega arith
  length-take (suc n) [] = omega arith
  length-take (suc n) (x ∷ xs) = omega (arith, length-take n xs)

  pub length-take_all : (n : ℕ) (xs : List A) → length (take n xs) ≤ length xs
  unfolding take
  length-take_all zero xs = omega arith
  length-take_all (suc n) [] = omega arith
  length-take_all (suc n) (x ∷ xs) = omega (arith, length-take_all n xs)

-- A word is there where the bytes reach that far.
pub read_u16_inside : (bytes : List ℕ) → 2 ≤ length bytes → read_u16 bytes ≢ none
read_u16_inside [] h = absurd (omega arith)
read_u16_inside (a ∷ []) h = absurd (omega arith)
read_u16_inside (a ∷ b ∷ rest) h = λ e. cc

pub read_u32_inside : (bytes : List ℕ) → 4 ≤ length bytes → read_u32 bytes ≢ none
read_u32_inside [] h = absurd (omega arith)
read_u32_inside (a ∷ []) h = absurd (omega arith)
read_u32_inside (a ∷ b ∷ []) h = absurd (omega arith)
read_u32_inside (a ∷ b ∷ c ∷ []) h = absurd (omega arith)
read_u32_inside (a ∷ b ∷ c ∷ d ∷ rest) h = λ e. cc
