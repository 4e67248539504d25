-- ===== src/Modules/Numbers.antt =====
-- The numbers of a version, described without the code of modules/vuln_lookup/cpe.go that reads
-- them, and that `compareVersions` orders versions by these numbers.
use recon_sr.Base.{
  ℕ, ◌+◌, ◌-◌, ◌*◌, ◌^◌, ◌≤◌, ◌<◌, ◌≡◌, ◌↔◌, ◌⊎◌, inl, inr, refl, sym, codes, subst, ap, arith,
  Bool-cases, Option-cases, true, [], ◌∷◌, ◌++◌, none, some, Text, All, get_elem?, ltb,
  append_assoc, append-nil,
}
use recon_sr.Strings.{is_digit, trim_prefix}
use recon_sr.Strings.Split.{split}
use recon_sr.Modules.Versions.{
  below, level, above, leading_digits, digits_value, extract_leading_int, version_parts,
  part_number, compare_versions,
}
use recon_sr.Modules.VersionOrder.{number, Smaller, compare_versions-number}

abbrev pub IsDigit : ℕ → Type 0
IsDigit c = (b'0' ≤ c) × (c ≤ b'9')

-- The number that digits denote.
pub data Denotes : Text → ℕ → Type 0 where
  no_digit : Denotes [] 0
  next_digit :
      {s : Text} {n : ℕ} (c : ℕ) → Denotes s n → Denotes (s ++ c ∷ []) (10 * n + (c - b'0'))

abbrev pub BeginsWithoutDigit : Text → Type 0
BeginsWithoutDigit [] = Unit
BeginsWithoutDigit (c ∷ s) = ¬ IsDigit c

-- The number of a part: that of the digits it begins with, or 0 if they do not fit into 63 bits.
abbrev pub IsPartNumber : Text → ℕ → Type 0
IsPartNumber p n =
    (digits : Text) × (rest : Text) × (value : ℕ) × (p ≡ digits ++ rest)
    × All IsDigit digits
    × BeginsWithoutDigit rest
    × Denotes digits value
    × (((value < 2 ^ 63) × (n ≡ value)) ⊎ ((2 ^ 63 ≤ value) × (n ≡ 0)))

-- The number at a position, which is 0 behind the last part.
abbrev pub IsNumberAt : Text → ℕ → ℕ → Type 0
IsNumberAt v i n =
    ((get_elem? (split b'.' (trim_prefix v (codes "v"))) i ≡ none) × (n ≡ 0))
    ⊎ ((p : Text) × (get_elem? (split b'.' (trim_prefix v (codes "v"))) i ≡ some p)
        × IsPartNumber p n)

is_digit_iff : (c : ℕ) → (is_digit c ≡ true) ↔ IsDigit c
is_digit_iff c = ground arith

digits_value-Denotes :
    (p s : Text) (acc : ℕ) → Denotes p acc → Denotes (p ++ s) (digits_value acc s)
unfolding digits_value
digits_value-Denotes p [] acc d = subst (λ t. Denotes t acc) (sym (append-nil p)) d
digits_value-Denotes p (c ∷ s) acc d =
    subst (λ t. Denotes t (digits_value (10 * acc + (c - b'0')) s)) (append_assoc p (c ∷ []) s)
      (digits_value-Denotes (p ++ c ∷ []) s (10 * acc + (c - b'0')) (next_digit c d))

leading_digits-parts :
    (p : Text)
    → (rest : Text) × (p ≡ leading_digits p ++ rest)
      × All IsDigit (leading_digits p)
      × BeginsWithoutDigit rest
unfolding leading_digits
leading_digits-parts [] = ([], refl, tt, tt)
leading_digits-parts (c ∷ s) = elim (Bool-cases (is_digit c)) [
  | inl e ↦
      let (rest, same, digits, ends) = leading_digits-parts s in
      rw e (rest, ap (λ t. c ∷ t) same, ((is_digit_iff c).0 e, digits), ends)
  | inr e ↦ rw e (c ∷ s, refl, tt, λ d. let f = (is_digit_iff c).1 d in cc)
]

extract_leading_int-IsPartNumber : (p : Text) → IsPartNumber p (extract_leading_int p)
unfolding extract_leading_int
extract_leading_int-IsPartNumber p =
    let value = digits_value 0 (leading_digits p) in
    let (rest, same, digits, ends) = leading_digits-parts p in
    let denotes : Denotes (leading_digits p) value =
      digits_value-Denotes [] (leading_digits p) 0 no_digit in
    elim (Bool-cases (ltb value (2 ^ 63))) [
      | inl e ↦
          let fits : value < 2 ^ 63 = ground arith in
          rw e (leading_digits p, rest, value, same, digits, ends, denotes, inl (fits, refl))
      | inr e ↦
          let exceeds : 2 ^ 63 ≤ value = ground arith in
          rw e (leading_digits p, rest, value, same, digits, ends, denotes, inr (exceeds, refl))
    ]

number-IsNumberAt : (v : Text) (i : ℕ) → IsNumberAt v i (number v i)
unfolding part_number version_parts split trim_prefix
number-IsNumberAt v i = elim (Option-cases (get_elem? (split b'.' (trim_prefix v (codes "v"))) i)) [
  | inl e ↦ inl (e, rw e refl)
  | inr (p, e) ↦ inr (p, e, rw e (extract_leading_int-IsPartNumber p))
]

-- Two versions have sequences of numbers, the numbers between their dots, with a "v" in front left
-- out and zeros behind the last part; the number of a part is that of the decimal digits it begins
-- with, and 0 when they do not fit into 63 bits. The result of the comparison is -1 when the first
-- sequence is smaller at the first difference, 1 when the second is, and 0 when the two are the
-- same.
pub compare_versions-Smaller :
    (v w : Text)
    → (f : ℕ → ℕ) × (g : ℕ → ℕ) × ((i : ℕ) → IsNumberAt v i (f i))
      × ((i : ℕ) → IsNumberAt w i (g i))
      × ((compare_versions v w ≡ below) ↔ Smaller f g)
      × ((compare_versions v w ≡ above) ↔ Smaller g f)
      × ((compare_versions v w ≡ level) ↔ ((k : ℕ) → f k ≡ g k))
compare_versions-Smaller v w =
    let (smaller, (greater, same)) = compare_versions-number v w in
    (number v, number w, number-IsNumberAt v, number-IsNumberAt w, smaller, greater, same)
