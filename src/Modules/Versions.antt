-- ===== src/Modules/Versions.antt =====
-- `compareVersions` and `extractLeadingInt` of modules/vuln_lookup/cpe.go.
use recon_sr.Base.{
  ℕ, zero, suc, ◌+◌, ◌-◌, ◌*◌, ◌^◌, max, Bool, true, false, List, [], ◌∷◌, none, some, Text, codes,
  length, get_elem?, ltb, if◌then◌else◌,
}
use recon_sr.Strings.{is_digit, trim_prefix}
use recon_sr.Strings.Split.{split}

-- The results -1, 0 and 1.
pub data Comparison : Type 0 where
  below level above : Comparison

unfoldable pub leading_digits : Text → Text
leading_digits [] = []
leading_digits (c ∷ s) = let rest = leading_digits s in if is_digit c then c ∷ rest else []

unfoldable pub digits_value : ℕ → Text → ℕ
digits_value acc [] = acc
digits_value acc (c ∷ s) = digits_value (10 * acc + (c - b'0')) s

-- `strconv.Atoi` fails above the greatest 64-bit integer.
unfoldable pub extract_leading_int : Text → ℕ
unfolding leading_digits digits_value
extract_leading_int s =
    let value = digits_value 0 (leading_digits s) in if ltb value (2 ^ 63) then value else 0

unfoldable pub version_parts : Text → List Text
version_parts v = split b'.' (trim_prefix v (codes "v"))

-- The number at a position, which is 0 behind the last part.
unfoldable pub part_number : List Text → ℕ → ℕ
part_number parts i = elim (get_elem? parts i) [ none ↦ 0 | some p ↦ extract_leading_int p ]

-- The loop, for the `n` positions from `i` on.
unfoldable pub compare_parts : List Text → List Text → ℕ → ℕ → Comparison
compare_parts ps qs i zero = level
compare_parts ps qs i (suc n) =
    let rest = compare_parts ps qs (suc i) n in
    if ltb (part_number ps i) (part_number qs i)
    then below
    else if ltb (part_number qs i) (part_number ps i)
    then above
    else rest

unfoldable pub compare_versions : Text → Text → Comparison
unfolding compare_parts
compare_versions v w =
    let ps = version_parts v in
    let qs = version_parts w in compare_parts ps qs 0 (max (length ps) (length qs))

-- The comparisons of the result with 0.
abbrev pub is_below : Comparison → Bool
is_below below = true
is_below _ = false

abbrev pub is_above : Comparison → Bool
is_above above = true
is_above _ = false
