-- ===== src/Strings/Trim.antt =====
-- White space as `strings.TrimSpace` and `strings.Fields` see it: the runes of `unicode.IsSpace`,
-- recognised by their UTF-8 bytes.
use mathlib.Core.List.{reverse}
use recon_sr.Base.{
  ℕ, zero, suc, ◌≡◌, refl, Bool, ◌&&◌, ◌||◌, List, [], ◌∷◌, ◌++◌, Text, leb, ◌==◌, get_or,
  if◌then◌else◌,
}

abbrev pub is_space : ℕ → Bool
is_space c = c == 32 || leb 9 c && leb c 13

-- U+0085 and U+00A0.
abbrev pub is_space_2 : ℕ → ℕ → Bool
is_space_2 a b = a == 0xC2 && (b == 0x85 || b == 0xA0)

-- U+1680, U+2000 to U+200A, U+2028, U+2029, U+202F, U+205F and U+3000.
abbrev pub is_space_3 : ℕ → ℕ → ℕ → Bool
is_space_3 a b c =
    a == 0xE1 && b == 0x9A && c == 0x80
    || a == 0xE2 && b == 0x80 && (leb 0x80 c && leb c 0x8A || c == 0xA8 || c == 0xA9 || c == 0xAF)
    || a == 0xE2 && b == 0x81 && c == 0x9F
    || a == 0xE3 && b == 0x80 && c == 0x80

-- The bytes of the white space that a text begins with; 0 if it begins with none.
unfoldable pub space_width : Text → ℕ
space_width s =
    let a = get_or s 0 0 in
    let b = get_or s 1 0 in
    let c = get_or s 2 0 in
    if is_space a then 1 else if is_space_2 a b then 2 else if is_space_3 a b c then 3 else 0

-- The same for the end of a text, which is given in reverse.
unfoldable pub space_width_end : Text → ℕ
space_width_end s =
    let a = get_or s 0 0 in
    let b = get_or s 1 0 in
    let c = get_or s 2 0 in
    if is_space a then 1 else if is_space_2 b a then 2 else if is_space_3 c b a then 3 else 0

-- Drops white space from the front; the number counts the bytes left of a rune being skipped.
unfoldable pub skip_space : (Text → ℕ) → ℕ → Text → Text
skip_space width k [] = []
skip_space width (suc k) (c ∷ s) = skip_space width k s
skip_space width zero (c ∷ s) = elim (width (c ∷ s)) [ zero ↦ c ∷ s | suc k ↦ skip_space width k s ]

unfoldable pub trim_space : Text → Text
unfolding skip_space space_width space_width_end
trim_space s = reverse (skip_space space_width_end 0 (reverse (skip_space space_width 0 s)))

-- `strings.Fields`: `word` is the field being read.
abbrev pub emit : Text → List Text → List Text
emit [] rest = rest
emit (c ∷ s) rest = (c ∷ s) ∷ rest

unfoldable pub fields_from : Text → ℕ → Text → List Text
unfolding space_width
fields_from word k [] = emit word []
fields_from word (suc k) (c ∷ s) = fields_from word k s
fields_from word zero (c ∷ s) = elim (space_width (c ∷ s)) [
  | zero ↦ fields_from (word ++ c ∷ []) 0 s
  | suc k ↦ emit word (fields_from [] k s)
]

unfoldable pub fields : Text → List Text
unfolding fields_from
fields s = fields_from [] 0 s

abbrev sample : Text
sample = 32 ∷ 0xC2 ∷ 0xA0 ∷ b'a' ∷ 9 ∷ b'b' ∷ 0xE2 ∷ 0x80 ∷ 0x83 ∷ 10 ∷ []

trim_space_test : trim_space sample ≡ b'a' ∷ 9 ∷ b'b' ∷ []
unfolding trim_space
trim_space_test = refl

fields_test : fields sample ≡ (b'a' ∷ []) ∷ (b'b' ∷ []) ∷ []
unfolding fields
fields_test = refl
