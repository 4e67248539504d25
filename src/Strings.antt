-- ===== src/Strings.antt =====
-- The functions of Go's package `strings` that the program calls, over the bytes of a text.
pub mod Trim
pub mod Split
pub mod Laws
pub mod Graphic
pub mod Ends
use mathlib.Core.List.{reverse}
use recon_sr.Base.{
  ℕ, zero, suc, ◌+◌, ◌-◌, Bool, true, false, ◌&&◌, ◌||◌, List, [], ◌∷◌, ◌++◌, map, Option, none,
  some, Text, length, ltb, leb, ◌==◌, if◌then◌else◌, all, drop, take,
}
use recon_sr.Libs.{Libs}

abbrev pub is_empty : Text → Bool
is_empty [] = true
is_empty (c ∷ s) = false

unfoldable pub has_prefix : Text → Text → Bool
has_prefix s [] = true
has_prefix [] (p ∷ ps) = false
has_prefix (c ∷ s) (p ∷ ps) = c == p && has_prefix s ps

unfoldable pub has_suffix : Text → Text → Bool
unfolding has_prefix
has_suffix s p = has_prefix (reverse s) (reverse p)

unfoldable pub trim_prefix : Text → Text → Text
unfolding has_prefix
trim_prefix s p = if has_prefix s p then drop (length p) s else s

unfoldable pub trim_suffix : Text → Text → Text
unfolding has_suffix
trim_suffix s p = if has_suffix s p then take (length s - length p) s else s

-- `strings.Contains`: some suffix of the text begins with the pattern.
unfoldable pub contains : Text → Text → Bool
unfolding has_prefix
contains [] p = has_prefix [] p
contains (c ∷ s) p = has_prefix (c ∷ s) p || contains s p

-- `strings.IndexByte`, with `none` for -1.
unfoldable pub index_byte : Text → ℕ → Option ℕ
index_byte [] b = none
index_byte (c ∷ s) b =
    let rest = index_byte s b in
    if c == b then some 0 else elim rest [ none ↦ none | some i ↦ some (suc i) ]

unfoldable pub last_index_byte : Text → ℕ → Option ℕ
last_index_byte [] b = none
last_index_byte (c ∷ s) b = elim (last_index_byte s b) [
  | some i ↦ some (suc i)
  | none ↦ if c == b then some 0 else none
]

abbrev pub is_ascii : Text → Bool
is_ascii = all (λ c. ltb c 128)

unfoldable pub lower_byte : ℕ → ℕ
lower_byte c = if leb b'A' c && leb c b'Z' then c + 32 else c

unfoldable pub upper_byte : ℕ → ℕ
upper_byte c = if leb b'a' c && leb c b'z' then c - 32 else c

module _ (lib : Libs) where
  unfoldable pub to_lower : Text → Text
  unfolding lower_byte
  to_lower s = if is_ascii s then map lower_byte s else lib.lower_runes s

  unfoldable pub to_upper : Text → Text
  unfolding upper_byte
  to_upper s = if is_ascii s then map upper_byte s else lib.upper_runes s

-- `strings.ReplaceAll` of one byte by another.
unfoldable pub replace_byte : ℕ → ℕ → Text → Text
replace_byte from to s = map (λ c. if c == from then to else c) s

-- `strings.TrimLeft` with the cutset `"0"`, or any set of bytes.
unfoldable pub trim_left_set : (ℕ → Bool) → Text → Text
trim_left_set cut [] = []
trim_left_set cut (c ∷ s) = let rest = trim_left_set cut s in if cut c then rest else c ∷ s

abbrev pub is_digit : ℕ → Bool
is_digit c = leb b'0' c && leb c b'9'
