-- ===== src/Text/Prefix.antt =====
-- Laws of `strip_prefix` and `starts_with`.
use segwire.Base.{true, Option, none, some, [], ◌∷◌, ◌++◌, ◌≡◌, refl, ◌↔◌, arith, ==_refl}
use segwire.Text.{Text, strip_prefix, starts_with}

pub strip_prefix-append : (p s : Text) → strip_prefix p (p ++ s) ≡ some s
unfolding strip_prefix
strip_prefix-append [] s = refl
strip_prefix-append (c ∷ p) s = ground (arith, ==_refl c, strip_prefix-append p s)

pub strip_prefix_sound : (p s t : Text) → strip_prefix p s ≡ some t → s ≡ p ++ t
unfolding strip_prefix
strip_prefix_sound [] s t h = cc
strip_prefix_sound (p ∷ ps) [] t h = absurd (cc)
strip_prefix_sound (p ∷ ps) (c ∷ s) t h = ground (arith, strip_prefix_sound ps s t)

pub strip_prefix_iff : (p s t : Text) → (strip_prefix p s ≡ some t) ↔ (s ≡ p ++ t)
strip_prefix_iff p s t = (strip_prefix_sound p s t, λ e. rw e (strip_prefix-append p t))

pub starts_with-append : (p s : Text) → starts_with p (p ++ s) ≡ true
unfolding starts_with
starts_with-append p s = rw strip_prefix-append

pub starts_with_sound : (p s : Text) → starts_with p s ≡ true → (t : Text) × (s ≡ p ++ t)
unfolding starts_with
starts_with_sound p s h = go (strip_prefix p s) refl
  where
    go : (o : Option Text) → strip_prefix p s ≡ o → (t : Text) × (s ≡ p ++ t)
    go none e = absurd (ground arith)
    go (some t) e = (t, strip_prefix_sound p s t e)
