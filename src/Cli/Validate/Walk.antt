-- ===== src/Cli/Validate/Walk.antt =====
-- validate.rs: what the walk over a directory finds.
use segwire.Base.{
  ok-injective, Bool, true, false, List, [], ◌∷◌, ◌++◌, Result, ok, err, ◌≡◌, ◌↔◌, inl, inr,
  Bool-cases, refl, sym, All, arith, if◌then◌else◌,
}
use segwire.Text.{Text}
use segwire.Security.Files.{components, path_extension}
use segwire.Cli.Validate.Collect.{
  Place, Entries, file, directory, unreadable, neither, no_entries, entry, broken, is_toml,
  components_leb, insert_path, sort_paths, sorted_files, followed_by, place_files, entry_files,
  selected_files,
}

module _ (recursive : Bool) (P : Text → Type 0) where
  abbrev mutual
    -- What holds for each file with the extension under a path, in directories below only if it is recursive.
    pub EachIn : Text → Place → Type 0
    EachIn path file = is_toml (path_extension path) ≡ true → P path
    EachIn path (directory entries) = recursive ≡ true → EachEntry entries
    EachIn path (unreadable e) = Unit {0}
    EachIn path neither = Unit {0}

    pub EachEntry : Entries → Type 0
    EachEntry no_entries = Unit {0}
    EachEntry (entry path place rest) = EachIn path place × EachEntry rest
    EachEntry (broken e) = Unit {0}

  -- What holds for each file that is to be validated.
  abbrev pub EachFile : Text → Place → Type 0
  EachFile path file = P path
  EachFile path (directory entries) = EachEntry entries
  EachFile path (unreadable e) = Unit {0}
  EachFile path neither = Unit {0}

module _ (P : Text → Type 0) where
  All-insert_path : (p : Text) (ps : List Text) → All P (insert_path p ps) ↔ (P p × All P ps)
  unfolding insert_path
  All-insert_path p [] = (λ h. h, λ h. h)
  All-insert_path p (q ∷ qs) =
      let (split_up, back) = All-insert_path p qs in
      elim (Bool-cases (components_leb (components p) (components q))) [
        | inl first ↦ rw first (λ h. h, λ h. h)
        | inr later ↦ rw later (
          λ (of_q, of_rest). let (of_p, of_qs) = split_up of_rest in (of_p, (of_q, of_qs)),
          λ (of_p, (of_q, of_qs)). (of_q, back (of_p, of_qs)),
        )
      ]

  All-sort_paths : (ps : List Text) → All P (sort_paths ps) ↔ All P ps
  unfolding sort_paths
  All-sort_paths [] = (λ h. h, λ h. h)
  All-sort_paths (p ∷ ps) =
      let (there, back) = All-sort_paths ps in
      let (split_up, join) = All-insert_path p (sort_paths ps) in
      (
        λ h. let (of_p, of_ps) = split_up h in (of_p, there of_ps),
        λ (of_p, of_ps). join (of_p, back of_ps),
      )

  All-append : (ps qs : List Text) → All P (ps ++ qs) ↔ (All P ps × All P qs)
  All-append [] qs = (λ h. (tt, h), λ (a, h). h)
  All-append (p ∷ ps) qs =
      let (split_up, join) = All-append ps qs in
      (
        λ (of_p, of_rest). let (of_ps, of_qs) = split_up of_rest in ((of_p, of_ps), of_qs),
        λ ((of_p, of_ps), of_qs). (of_p, join (of_ps, of_qs)),
      )

  All-sorted_files :
      (found : Result Text (List Text)) (files : List Text)
      → sorted_files found ≡ ok files
      → (unsorted : List Text) × (found ≡ ok unsorted) × (All P files ↔ All P unsorted)
  All-sorted_files (ok unsorted) files h =
      (unsorted, refl, rw (ok-injective (sym h)) (All-sort_paths unsorted))
  All-sorted_files (err e) files h = absurd (ground arith)

  All-followed_by :
      (first later : Result Text (List Text)) (files : List Text)
      → followed_by first later ≡ ok files
      → (ps qs : List Text) × (first ≡ ok ps)
        × (later ≡ ok qs)
        × (All P files ↔ (All P ps × All P qs))
  All-followed_by (ok ps) (ok qs) files h =
      (ps, qs, refl, refl, rw (ok-injective (sym h)) (All-append ps qs))
  All-followed_by (ok ps) (err e) files h = absurd (ground arith)
  All-followed_by (err e) later files h = absurd (ground arith)

module _ (recursive : Bool) (P : Text → Type 0) where
  -- What the walk finds is what there is.
  abbrev IsFound : Result Text (List Text) → Type 0 → Type 0
  IsFound found each = (files : List Text) → found ≡ ok files → All P files ↔ each

  nothing-IsFound : IsFound (ok []) Unit
  nothing-IsFound files h = rw (ok-injective (sym h)) (λ h. h, λ h. h)

  unless-IsFound : (each : Type 0) → IsFound (ok []) (false ≡ true → each)
  unless-IsFound each files h =
      rw (ok-injective (sym h)) (λ none_here wrong. absurd (cc), λ later. tt)

  one-IsFound :
      (listed : Bool) (path : Text)
      → IsFound (ok (if listed then path ∷ [] else [])) (listed ≡ true → P path)
  one-IsFound true path = λ files h.
      rw (ok-injective (sym h))
        (λ (of_path, none_else) listed. of_path, λ of_path. (of_path refl, tt))
  one-IsFound false path = unless-IsFound (P path)

  below-IsFound :
      (deep : Bool) (found : Result Text (List Text)) (each : Type 0)
      → IsFound found each
      → IsFound (if deep then sorted_files found else ok []) (deep ≡ true → each)
  below-IsFound true found each below = λ files h.
      let (unsorted, there, same) = All-sorted_files P found files h in
      let (of_each, back) = below unsorted there in
      (λ all_p deep. of_each (same.0 all_p), λ later. same.1 (back (later refl)))
  below-IsFound false found each below = unless-IsFound each

  unread-IsFound : (deep : Bool) (e : Text) → IsFound (if deep then err e else ok []) Unit
  unread-IsFound true e = λ files h. absurd (ground arith)
  unread-IsFound false e = nothing-IsFound

  entry-IsFound :
      (path : Text) (place : Place) (rest : Entries)
      → IsFound (place_files recursive path place) (EachIn recursive P path place)
      → IsFound (entry_files recursive rest) (EachEntry recursive P rest)
      → IsFound
          (entry_files recursive (entry path place rest))
          (EachEntry recursive P (entry path place rest))
  unfolding entry_files
  entry-IsFound path place rest here later files h =
      let (ps, qs, this_one, those, same) =
        All-followed_by P (place_files recursive path place) (entry_files recursive rest) files h in
      let (of_place, place_back) = here ps this_one in
      let (of_rest, rest_back) = later qs those in
      (
        λ all_p. let (of_ps, of_qs) = same.0 all_p in (of_place of_ps, of_rest of_qs),
        λ (each, others). same.1 (place_back each, rest_back others),
      )

  entry_files-IsFound :
      (entries : Entries) → IsFound (entry_files recursive entries) (EachEntry recursive P entries)
  unfolding entry_files
  entry_files-IsFound no_entries = nothing-IsFound
  entry_files-IsFound (entry path file rest) =
      entry-IsFound path file rest (one-IsFound (is_toml (path_extension path)) path)
        (entry_files-IsFound rest)
  entry_files-IsFound (entry path (directory inner) rest) =
      entry-IsFound path (directory inner) rest
        (below-IsFound recursive (entry_files recursive inner) (EachEntry recursive P inner)
          (entry_files-IsFound inner))
        (entry_files-IsFound rest)
  entry_files-IsFound (entry path (unreadable e) rest) =
      entry-IsFound path (unreadable e) rest (unread-IsFound recursive e) (entry_files-IsFound rest)
  entry_files-IsFound (entry path neither rest) =
      entry-IsFound path neither rest nothing-IsFound (entry_files-IsFound rest)
  entry_files-IsFound (broken e) = λ files h. absurd (ground arith)

  pub selected_files-EachFile :
      (path : Text) (place : Place)
      → IsFound (selected_files recursive path place) (EachFile recursive P path place)
  unfolding selected_files
  selected_files-EachFile path file files h =
      rw (ok-injective (sym h)) (λ (of_path, none_else). of_path, λ of_path. (of_path, tt))
  selected_files-EachFile path (directory entries) files h =
      let (unsorted, found, same) = All-sorted_files P (entry_files recursive entries) files h in
      let (of_entries, back) = entry_files-IsFound entries unsorted found in
      (λ all_p. of_entries (same.0 all_p), λ each. same.1 (back each))
  selected_files-EachFile path (unreadable e) files h = absurd (ground arith)
  selected_files-EachFile path neither files h = absurd (ground arith)
