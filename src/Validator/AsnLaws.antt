-- ===== src/Validator/AsnLaws.antt =====
-- The normal form of an autonomous system number.
use recon_sr.Base.{
  ℕ, suc, sym, none, if◌then◌else◌, ◌≡◌, refl, true, [], ◌∷◌, Text, arith, All, codes, length, all,
  some, if_none-eq-some, subst, leb, Bool-cases, inl, inr,
}
use recon_sr.Libs.{Libs}
use recon_sr.Strings.{is_digit, is_empty, has_prefix, to_upper}
use recon_sr.Strings.Trim.{trim_space}
use recon_sr.Strings.Graphic.{
  IsUpperGraphic, All-IsGraphic_upper, trim_space_of_IsGraphic, to_upper_fixed,
}
use recon_sr.Validator.Types.{Result}
use recon_sr.Validator.Hosts.{IsDigit}
use recon_sr.Validator.Asn.{with_as, validate_asn}

has_prefix-as : (s : Text) → has_prefix s (codes "AS") ≡ true → (ds : Text) × (s ≡ b'A' ∷ b'S' ∷ ds)
unfolding has_prefix
has_prefix-as [] h = cc
has_prefix-as (a ∷ []) h = ground arith
has_prefix-as (a ∷ b ∷ ds) h = (ds, ground arith)

with_as-prefix : (s : Text) → (ds : Text) × (with_as s ≡ b'A' ∷ b'S' ∷ ds)
unfolding with_as
with_as-prefix s = elim (Bool-cases (has_prefix s (codes "AS"))) [
  | inl e ↦ let (ds, same) = has_prefix-as s e in (ds, rw e same)
  | inr e ↦ (s, rw e)
]

All-IsDigit : (s : Text) → all is_digit s ≡ true → All IsDigit s
All-IsDigit [] h = tt
All-IsDigit (c ∷ s) h = (ground arith, All-IsDigit s (ground arith))

all-is_digit : (s : Text) → All IsDigit s → all is_digit s ≡ true
all-is_digit [] h = refl
all-is_digit (c ∷ s) (h, hs) = ground (arith, all-is_digit s hs)

digits_graphic : (s : Text) → All IsDigit s → All IsUpperGraphic s
digits_graphic [] h = tt
digits_graphic (c ∷ s) (h, hs) = (ground arith, digits_graphic s hs)

normal_parts :
    (r : Result) (ds : Text)
    → (if leb (suc (suc (length ds))) 2
        then none
        else if all is_digit ds
        then some (record { type = codes "asn"; value = b'A' ∷ b'S' ∷ ds; anchor = [] })
        else none)
      ≡ some r
    → (d : ℕ) × (t : Text) × (r
        ≡ record { type = codes "asn"; value = b'A' ∷ b'S' ∷ d ∷ t; anchor = [] })
      × All IsDigit (d ∷ t)
normal_parts r [] h = ground arith
normal_parts r (d ∷ t) h = (d, t, ground arith, All-IsDigit (d ∷ t) (ground arith))

module _ (lib : Libs) where
  asn_fixed :
      (d : ℕ) (ds : Text)
      → All IsDigit (d ∷ ds)
      → validate_asn lib (b'A' ∷ b'S' ∷ d ∷ ds)
        ≡ some (record { type = codes "asn"; value = b'A' ∷ b'S' ∷ d ∷ ds; anchor = [] })
  unfolding validate_asn with_as has_prefix
  asn_fixed d ds h =
      let g = digits_graphic (d ∷ ds) h in
      let full : All IsUpperGraphic (b'A' ∷ b'S' ∷ d ∷ ds) = (omega arith, (omega arith, g)) in
      rw
        (
          trim_space_of_IsGraphic (b'A' ∷ b'S' ∷ d ∷ ds)
              (All-IsGraphic_upper (b'A' ∷ b'S' ∷ d ∷ ds) full),
          to_upper_fixed lib (b'A' ∷ b'S' ∷ d ∷ ds) full,
        )
        (ground (arith, all-is_digit (d ∷ ds) h))

  -- An accepted system number has the type `asn`, no anchor, and the value `AS` followed by at
  -- least one digit and nothing but digits.
  pub validate_asn-normal :
      (v : Text) (r : Result)
      → validate_asn lib v ≡ some r
      → (d : ℕ) × (ds : Text) × (r
          ≡ record { type = codes "asn"; value = b'A' ∷ b'S' ∷ d ∷ ds; anchor = [] })
        × All IsDigit (d ∷ ds)
  unfolding validate_asn
  validate_asn-normal v r h =
      let (ds, e) = with_as-prefix (to_upper lib (trim_space v)) in
      let (_, rest) = if_none-eq-some (is_empty (trim_space v)) _ h in
      normal_parts r ds (rw e at rest)

  -- Validating the normal form of a number again changes nothing.
  pub validate_asn-stable :
      (v : Text) (r : Result) → validate_asn lib v ≡ some r → validate_asn lib r.value ≡ some r
  validate_asn-stable v r h =
      let (d, ds, same, digits) = validate_asn-normal v r h in
      subst (λ r. validate_asn lib r.value ≡ some r) (sym same) (asn_fixed d ds digits)
