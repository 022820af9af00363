-- ===== src/Sorting/Duplicates.antt =====
-- Sorting and removing equal neighbours finds every duplicate.
use segwire.Base.{
  suc, ◌≤◌, Bool, true, false, not, ◌&&◌, ◌||◌, none, List, [], ◌∷◌, ◌==◌, ◌≡◌, refl, ◌↔◌, arith,
  length, ◌∙◌, ap,
}
use segwire.Text.{Text}
use segwire.Text.Equality.{text_eq, text_eq_iff}
use segwire.Sorting.{text_leb, insert_sorted, sort, dedup, first_repeat}

abbrev pub contains : Text → List Text → Bool
contains x [] = false
contains x (y ∷ ys) = text_eq x y || contains x ys

-- No text stands in the list twice.
abbrev pub all_distinct : List Text → Bool
all_distinct [] = true
all_distinct (x ∷ xs) = not (contains x xs) && all_distinct xs

text_leb_total : (s t : Text) → text_leb s t ≡ false → text_leb t s ≡ true
unfolding text_leb
text_leb_total [] t h = absurd (cc)
text_leb_total (c ∷ s) [] h = refl
text_leb_total (c ∷ s) (d ∷ t) h = ground (arith, text_leb_total s t)

text_leb_antisymm : (s t : Text) → text_leb s t ≡ true → text_leb t s ≡ true → s ≡ t
unfolding text_leb
text_leb_antisymm [] [] h k = refl
text_leb_antisymm [] (d ∷ t) h k = absurd (cc)
text_leb_antisymm (c ∷ s) [] h k = absurd (cc)
text_leb_antisymm (c ∷ s) (d ∷ t) h k = ground (arith, text_leb_antisymm s t)

text_leb_trans : (s t u : Text) → text_leb s t ≡ true → text_leb t u ≡ true → text_leb s u ≡ true
unfolding text_leb
text_leb_trans [] t u h k = refl
text_leb_trans (c ∷ s) [] u h k = absurd (cc)
text_leb_trans (c ∷ s) (d ∷ t) [] h k = absurd (cc)
text_leb_trans (c ∷ s) (d ∷ t) (e ∷ u) h k = ground (arith, text_leb_trans s t u)

-- Every text of the list is at least `x`.
abbrev above : Text → List Text → Bool
above x [] = true
above x (y ∷ ys) = text_leb x y && above x ys

abbrev is_sorted : List Text → Bool
is_sorted [] = true
is_sorted (x ∷ xs) = above x xs && is_sorted xs

above_trans :
    (x y : Text) (ys : List Text) → text_leb x y ≡ true → above y ys ≡ true → above x ys ≡ true
above_trans x y [] h k = refl
above_trans x y (z ∷ zs) h k = ground (arith, text_leb_trans x y z, above_trans x y zs)

above-insert_sorted :
    (z x : Text) (ys : List Text) → above z (insert_sorted x ys) ≡ (text_leb z x && above z ys)
unfolding insert_sorted
above-insert_sorted z x [] = refl
above-insert_sorted z x (y ∷ ys) = ground (arith, above-insert_sorted z x ys)

insert_sorted-is_sorted :
    (x : Text) (ys : List Text) → is_sorted ys ≡ true → is_sorted (insert_sorted x ys) ≡ true
unfolding insert_sorted
insert_sorted-is_sorted x [] h = refl
insert_sorted-is_sorted x (y ∷ ys) h = ground (
  arith,
  text_leb_total x y,
  above_trans x y ys,
  above-insert_sorted y x ys,
  insert_sorted-is_sorted x ys,
)

sort-is_sorted : (xs : List Text) → is_sorted (sort xs) ≡ true
unfolding sort
sort-is_sorted [] = refl
sort-is_sorted (x ∷ xs) = insert_sorted-is_sorted x (sort xs) (sort-is_sorted xs)

contains-insert_sorted :
    (z x : Text) (ys : List Text) → contains z (insert_sorted x ys) ≡ (text_eq z x || contains z ys)
unfolding insert_sorted
contains-insert_sorted z x [] = refl
contains-insert_sorted z x (y ∷ ys) = ground (arith, contains-insert_sorted z x ys)

all_distinct-insert_sorted :
    (x : Text) (ys : List Text)
    → all_distinct (insert_sorted x ys) ≡ (not (contains x ys) && all_distinct ys)
unfolding insert_sorted
all_distinct-insert_sorted x [] = refl
all_distinct-insert_sorted x (y ∷ ys) = ground (
  arith,
  all_distinct-insert_sorted x ys,
  contains-insert_sorted y x ys,
  text_eq_iff x y,
  text_eq_iff y x,
)

contains-sort : (z : Text) (xs : List Text) → contains z (sort xs) ≡ contains z xs
unfolding sort
contains-sort z [] = refl
contains-sort z (x ∷ xs) = ground (arith, contains-insert_sorted z x (sort xs), contains-sort z xs)

all_distinct-sort : (xs : List Text) → all_distinct (sort xs) ≡ all_distinct xs
unfolding sort
all_distinct-sort [] = refl
all_distinct-sort (x ∷ xs) =
    ground (arith, all_distinct-insert_sorted x (sort xs), contains-sort x xs, all_distinct-sort xs)

-- In a sorted list a text that stands below the head does not stand further on.
contains-above :
    (x y : Text) (ys : List Text)
    → text_leb x y ≡ true
    → text_eq x y ≡ false
    → above y ys ≡ true
    → contains x ys ≡ false
contains-above x y [] h k a = refl
contains-above x y (z ∷ zs) h k a =
    ground
      (arith, text_eq_iff x z, text_eq_iff x y, text_leb_antisymm x y h, contains-above x y zs h k)

length-dedup-le : (xs : List Text) → length (dedup xs) ≤ length xs
unfolding dedup
length-dedup-le [] = omega arith
length-dedup-le (x ∷ []) = omega arith
length-dedup-le (x ∷ y ∷ ys) = ground (arith, length-dedup-le (y ∷ ys))

length-dedup_sorted :
    (xs : List Text) → is_sorted xs ≡ true → (length (dedup xs) == length xs) ≡ all_distinct xs
unfolding dedup
length-dedup_sorted [] h = refl
length-dedup_sorted (x ∷ []) h = refl
length-dedup_sorted (x ∷ y ∷ ys) h =
    ground (arith, length-dedup-le (y ∷ ys), length-dedup_sorted (y ∷ ys), contains-above x y ys)

first_repeat_sorted :
    (xs : List Text) → is_sorted xs ≡ true → (first_repeat xs ≡ none) ↔ (all_distinct xs ≡ true)
unfolding first_repeat
first_repeat_sorted [] h = ((λ e. refl), (λ e. refl))
first_repeat_sorted (x ∷ []) h = ((λ e. refl), (λ e. refl))
first_repeat_sorted (x ∷ y ∷ ys) h =
    let (there, back) = first_repeat_sorted (y ∷ ys) (ground arith) in
    ground (arith, contains-above x y ys)

length-insert_sorted : (x : Text) (ys : List Text) → length (insert_sorted x ys) ≡ suc (length ys)
unfolding insert_sorted
length-insert_sorted x [] = refl
length-insert_sorted x (y ∷ ys) = ground (arith, length-insert_sorted x ys)

length-sort : (xs : List Text) → length (sort xs) ≡ length xs
unfolding sort
length-sort [] = refl
length-sort (x ∷ xs) = length-insert_sorted x (sort xs) ∙ ap suc (length-sort xs)

-- Sorting, dropping equal neighbours and comparing lengths tells exactly whether all texts differ.
pub length-dedup-sort : (xs : List Text) → (length (dedup (sort xs)) == length xs) ≡ all_distinct xs
length-dedup-sort xs =
    rw (← length-sort xs) (length-dedup_sorted (sort xs) (sort-is_sorted xs) ∙ all_distinct-sort xs)

-- So does a comparison of the neighbours of the sorted list.
pub first_repeat-sort :
    (xs : List Text) → (first_repeat (sort xs) ≡ none) ↔ (all_distinct xs ≡ true)
first_repeat-sort xs =
    rw (← all_distinct-sort xs) (first_repeat_sorted (sort xs) (sort-is_sorted xs))
