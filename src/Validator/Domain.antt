-- ===== src/Validator/Domain.antt =====
-- `validateDomain` and `getICANNAnchor` of internal/validator/validator.go.
use recon_sr.Base.{
  Bool, ◌&&◌, ◌||◌, not, List, [], ◌∷◌, Option, none, some, Text, codes, length, leb, ltb,
  if◌then◌else◌, ◌>>=◌, all, eq_text,
}
use recon_sr.Libs.{Libs}
use recon_sr.Strings.{is_digit, to_lower, trim_suffix, contains}
use recon_sr.Strings.Ends.{first_is, last_is}
use recon_sr.Strings.Trim.{trim_space}
use recon_sr.Strings.Split.{split, join}
use recon_sr.Validator.Types.{Result, is_label_char}

unfoldable pub last_part : List Text → Text
last_part [] = []
last_part (p ∷ []) = p
last_part (p ∷ q ∷ ps) = last_part (q ∷ ps)

-- The body of the loop over the labels.
unfoldable pub label_ok : Text → Bool
label_ok part = leb 1 (length part) && leb (length part) 63 && all is_label_char part

-- The type is corrected: a name that is its own anchor is a domain.
unfoldable pub host_result : Text → Text → Result
host_result ascii_domain org_domain = record {
  type = if eq_text ascii_domain org_domain then codes "domain" else codes "subdomain";
  value = ascii_domain;
  anchor = org_domain;
}

module _ (lib : Libs) where
  -- The loop of `getICANNAnchor` over the parents of the name: `before` is `parts[i-1]`.
  unfoldable pub anchor_loop : Text → List Text → Option Text
  unfolding join
  anchor_loop before [] = none
  anchor_loop before (part ∷ parts) =
      let sub = join b'.' (part ∷ parts) in
      let rest = anchor_loop part parts in
      if (lib.public_suffix sub).1
      then elim (lib.etld_plus_one sub) [
        | some anchor ↦ some anchor
        | none ↦ some (join b'.' (before ∷ part ∷ parts))
      ]
      else rest

  abbrev anchor_of_parts : List Text → Option Text
  anchor_of_parts [] = none
  anchor_of_parts (part ∷ parts) = anchor_loop part parts

  unfoldable pub icann_anchor : Text → Option Text
  icann_anchor domain =
      if (lib.public_suffix domain).1
      then lib.etld_plus_one domain
      else elim (anchor_of_parts (split b'.' domain)) [
        | some anchor ↦ some anchor
        | none ↦ elim (lib.etld_plus_one domain) [
          | some anchor ↦ some anchor
          | none ↦
              if eq_text (lib.public_suffix domain).0 domain && not (lib.public_suffix domain).1
              then some domain
              else none
        ]
      ]

  -- The tests that `validateDomain` makes of the ASCII form.
  unfoldable pub host_ok : Text → Bool
  host_ok s =
      not (ltb (length s) 3 || ltb 253 (length s))
      && not (first_is b'-' s || last_is b'-' s)
      && not (contains s (codes "..") || contains s (codes ".-") || contains s (codes "-."))
      && leb 2 (length (split b'.' s))
      && all label_ok (split b'.' s)
      && not (all is_digit (last_part (split b'.' s)))
      && (lib.public_suffix (last_part (split b'.' s))).1

  -- What `validateDomain` does with the ASCII form.
  unfoldable pub validate_ascii : Text → Option Result
  validate_ascii ascii_domain =
      if not (host_ok ascii_domain)
      then none
      else icann_anchor ascii_domain >>= λ org_domain. some (host_result ascii_domain org_domain)

  unfoldable pub validate_domain : Text → Option Result
  validate_domain value =
      let domain = to_lower lib (trim_space value) in
      if first_is b'.' domain
      then none
      else lib.to_ascii (trim_suffix domain (codes ".")) >>= validate_ascii
