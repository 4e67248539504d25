-- ===== src/Strings/Ends.antt =====
-- The first and the last byte of a text, and the suffix tests on them.
use mathlib.Core.List.{reverse, reverse-cons, reverse-reverse}
use recon_sr.Base.{ℕ, ◌≡◌, refl, ap, sym, Bool, false, [], ◌∷◌, ◌++◌, Text, arith, ◌==◌, ◌∙◌}
use recon_sr.Strings.{has_prefix, has_suffix, trim_suffix}

abbrev pub first_is : ℕ → Text → Bool
first_is b [] = false
first_is b (c ∷ s) = c == b

unfoldable pub last_is : ℕ → Text → Bool
last_is b [] = false
last_is b (c ∷ []) = c == b
last_is b (c ∷ d ∷ s) = last_is b (d ∷ s)

last_is-concat : (b x : ℕ) (s : Text) → last_is b (s ++ x ∷ []) ≡ (x == b)
unfolding last_is
last_is-concat b x [] = refl
last_is-concat b x (c ∷ []) = refl
last_is-concat b x (c ∷ d ∷ s) = last_is-concat b x (d ∷ s)

last_is-reverse : (b : ℕ) (s : Text) → last_is b (reverse s) ≡ first_is b s
last_is-reverse b [] = unfold last_is in refl
last_is-reverse b (c ∷ s) = rw reverse-cons (last_is-concat b c (reverse s))

has_prefix-first_is : (b : ℕ) (s : Text) → has_prefix s (b ∷ []) ≡ first_is b s
unfolding has_prefix
has_prefix-first_is b [] = refl
has_prefix-first_is b (c ∷ []) = ground arith
has_prefix-first_is b (c ∷ d ∷ s) = ground arith

pub has_suffix-last_is : (b : ℕ) (s : Text) → has_suffix s (b ∷ []) ≡ last_is b s
unfolding has_suffix
has_suffix-last_is b s =
    has_prefix-first_is b (reverse s)
    ∙ sym (last_is-reverse b (reverse s))
    ∙ ap (last_is b) (reverse-reverse s)

pub trim_suffix_fixed : (b : ℕ) (s : Text) → last_is b s ≡ false → trim_suffix s (b ∷ []) ≡ s
unfolding trim_suffix
trim_suffix_fixed b s h = rw (has_suffix-last_is b s, h)
