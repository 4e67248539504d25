-- ===== src/Validator/Asn.antt =====
-- `validateASN` of internal/validator/validator.go.
use recon_sr.Base.{◌++◌, [], Option, none, some, Text, codes, length, leb, if◌then◌else◌, all, drop}
use recon_sr.Libs.{Libs}
use recon_sr.Strings.{is_digit, is_empty, has_prefix, to_upper}
use recon_sr.Strings.Trim.{trim_space}
use recon_sr.Validator.Types.{Result}

unfoldable pub with_as : Text → Text
with_as val = if has_prefix val (codes "AS") then val else codes "AS" ++ val

module _ (lib : Libs) where
  unfoldable pub validate_asn : Text → Option Result
  validate_asn value =
      let trimmed = trim_space value in
      let val = with_as (to_upper lib trimmed) in
      if is_empty trimmed
      then none
      else if leb (length val) 2
      then none
      else if all is_digit (drop 2 val)
      then some (record { type = codes "asn"; value = val; anchor = [] })
      else none
