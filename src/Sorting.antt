-- ===== src/Sorting.antt =====
-- `sort` and `dedup` of a `Vec<String>`, by which config.rs finds duplicates: texts are ordered by
-- their bytes, which is the order of their code points.
pub mod Duplicates
use segwire.Base.{
  ℕ, Bool, true, false, ◌&&◌, ◌||◌, Option, none, some, List, [], ◌∷◌, ◌==◌, ltb, if◌then◌else◌,
}
use segwire.Text.{Text}
use segwire.Text.Equality.{text_eq}

unfoldable pub text_leb : Text → Text → Bool
text_leb [] t = true
text_leb (c ∷ s) [] = false
text_leb (c ∷ s) (d ∷ t) = ltb c d || (c == d && text_leb s t)

insert_sorted : Text → List Text → List Text
insert_sorted x [] = x ∷ []
insert_sorted x (y ∷ ys) = if text_leb x y then x ∷ y ∷ ys else y ∷ insert_sorted x ys

unfoldable pub sort : List Text → List Text
unfolding insert_sorted text_leb
sort [] = []
sort (x ∷ xs) = insert_sorted x (sort xs)

-- Vec::dedup: of equal neighbours the first stays.
unfoldable pub dedup : List Text → List Text
dedup [] = []
dedup (x ∷ []) = x ∷ []
dedup (x ∷ y ∷ ys) = let rest = dedup (y ∷ ys) in if text_eq x y then rest else x ∷ rest

-- The first of two equal neighbours: `windows(2)`.
unfoldable pub first_repeat : List Text → Option Text
first_repeat [] = none
first_repeat (x ∷ []) = none
first_repeat (x ∷ y ∷ ys) = let rest = first_repeat (y ∷ ys) in if text_eq x y then some x else rest
