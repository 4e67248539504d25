-- ===== src/Strings/Graphic.antt =====
-- Texts of visible ASCII characters: trimming and lowering leave them alone.
use mathlib.Core.List.{reverse, reverse-cons, reverse-reverse}
use recon_sr.Base.{ℕ, ◌<◌, ◌≡◌, refl, true, List, [], ◌∷◌, map, Text, arith, All, All-append, ◌⊎◌}
use recon_sr.Libs.{Libs}
use recon_sr.Strings.{lower_byte, upper_byte, to_lower, to_upper, is_ascii}
use recon_sr.Strings.Trim.{space_width, space_width_end, skip_space, trim_space}

abbrev pub IsGraphic : ℕ → Type 0
IsGraphic c = (32 < c) × (c < 127)

All-reverse {ℓ κ} : {A : Type ℓ} (P : A → Type κ) (xs : List A) → All P xs → All P (reverse xs)
All-reverse P [] h = tt
All-reverse P (x ∷ xs) (p, h) =
    rw reverse-cons (All-append P (reverse xs) (x ∷ []) (All-reverse P xs h) (p, tt))

space_width-eq-zero : (c : ℕ) (s : Text) → IsGraphic c → space_width (c ∷ s) ≡ 0
unfolding space_width
space_width-eq-zero c s h = ground arith

space_width_end-eq-zero : (c : ℕ) (s : Text) → IsGraphic c → space_width_end (c ∷ s) ≡ 0
unfolding space_width_end
space_width_end-eq-zero c s h = ground arith

skip_space_start : (s : Text) → All IsGraphic s → skip_space space_width 0 s ≡ s
unfolding skip_space
skip_space_start [] h = refl
skip_space_start (c ∷ s) (p, h) = rw (space_width-eq-zero c s p, skip_space) refl

skip_space_end : (s : Text) → All IsGraphic s → skip_space space_width_end 0 s ≡ s
unfolding skip_space
skip_space_end [] h = refl
skip_space_end (c ∷ s) (p, h) = rw (space_width_end-eq-zero c s p, skip_space) refl

pub trim_space_of_IsGraphic : (s : Text) → All IsGraphic s → trim_space s ≡ s
unfolding trim_space
trim_space_of_IsGraphic s h =
    rw (skip_space_start s h, skip_space_end _ (All-reverse IsGraphic s h)) (reverse-reverse s)

is_ascii_of_IsGraphic : (s : Text) → All IsGraphic s → is_ascii s ≡ true
is_ascii_of_IsGraphic [] h = refl
is_ascii_of_IsGraphic (c ∷ s) (p, h) = ground (arith, is_ascii_of_IsGraphic s h)

abbrev pub IsLowerGraphic : ℕ → Type 0
IsLowerGraphic c = IsGraphic c × ((c < b'A') ⊎ (b'Z' < c))

lower_byte-fixed : (c : ℕ) → IsLowerGraphic c → lower_byte c ≡ c
unfolding lower_byte
lower_byte-fixed c h = ground arith

map-lower_byte : (s : Text) → All IsLowerGraphic s → map lower_byte s ≡ s
map-lower_byte [] h = refl
map-lower_byte (c ∷ s) (p, h) = cc (lower_byte-fixed c p, map-lower_byte s h)

pub All-IsGraphic : (s : Text) → All IsLowerGraphic s → All IsGraphic s
All-IsGraphic [] h = tt
All-IsGraphic (c ∷ s) (p, h) = (p.0, All-IsGraphic s h)

pub to_lower_fixed : (lib : Libs) (s : Text) → All IsLowerGraphic s → to_lower lib s ≡ s
unfolding to_lower
to_lower_fixed lib s h = rw (is_ascii_of_IsGraphic s (All-IsGraphic s h)) (map-lower_byte s h)

abbrev pub IsUpperGraphic : ℕ → Type 0
IsUpperGraphic c = IsGraphic c × ((c < b'a') ⊎ (b'z' < c))

upper_byte-fixed : (c : ℕ) → IsUpperGraphic c → upper_byte c ≡ c
unfolding upper_byte
upper_byte-fixed c h = ground arith

map-upper_byte : (s : Text) → All IsUpperGraphic s → map upper_byte s ≡ s
map-upper_byte [] h = refl
map-upper_byte (c ∷ s) (p, h) = cc (upper_byte-fixed c p, map-upper_byte s h)

pub All-IsGraphic_upper : (s : Text) → All IsUpperGraphic s → All IsGraphic s
All-IsGraphic_upper [] h = tt
All-IsGraphic_upper (c ∷ s) (p, h) = (p.0, All-IsGraphic_upper s h)

pub to_upper_fixed : (lib : Libs) (s : Text) → All IsUpperGraphic s → to_upper lib s ≡ s
unfolding to_upper
to_upper_fixed lib s h = rw (is_ascii_of_IsGraphic s (All-IsGraphic_upper s h)) (map-upper_byte s h)
