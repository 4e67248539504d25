-- ===== src/Validator/Ip.antt =====
-- `validateIP` of internal/validator/validator.go.
use recon_sr.Base.{
  Bool, false, ◌&&◌, not, [], ◌∷◌, Option, none, some, Text, codes, length, ◌==◌, if◌then◌else◌,
  all, any, is_some,
}
use recon_sr.Strings.{is_digit, is_empty, index_byte}
use recon_sr.Strings.Trim.{trim_space}
use recon_sr.Strings.Split.{split}
use recon_sr.Net.{to4}
use recon_sr.Net.Parse.{parse_ip}
use recon_sr.Net.Format.{format_ip}
use recon_sr.Validator.Types.{Result}

abbrev pub is_numeric_part : Text → Bool
is_numeric_part p = not (is_empty p) && all is_digit p

abbrev pub has_leading_zero : Text → Bool
has_leading_zero [] = false
has_leading_zero (c ∷ s) = not (is_empty s) && c == b'0'

-- A dotted quad of digits in which some part has a leading zero.
unfoldable pub is_ambiguous_ipv4 : Text → Bool
is_ambiguous_ipv4 val =
    is_some (index_byte val b'.')
    && not (is_some (index_byte val b':'))
    && length (split b'.' val) == 4
    && all is_numeric_part (split b'.' val)
    && any has_leading_zero (split b'.' val)

unfoldable pub validate_ip : Text → Option Result
validate_ip value =
    let val = trim_space value in
    elim (parse_ip val) [
      | some ip ↦ some (record {
        type = if is_some (to4 ip) then codes "ipv4" else codes "ipv6";
        value = format_ip ip;
        anchor = [];
      })
      | none ↦
          if is_ambiguous_ipv4 val
          then some (record { type = codes "ipv4_ambiguous"; value = val; anchor = [] })
          else none
    ]
