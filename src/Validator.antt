-- ===== src/Validator.antt =====
-- internal/validator/validator.go: the type of an entity, its syntax and its normal form.
pub mod Types
pub mod Domain
pub mod Ip
pub mod Asn
pub mod Email
pub mod Labels
pub mod Hosts
pub mod Stable
pub mod AsnLaws
pub mod Words
pub mod EmailLaws
use recon_sr.Base.{
  Bool, ◌||◌, List, [], ◌∷◌, Option, none, some, Text, codes, if◌then◌else◌, eq_text, mem_text,
}
use recon_sr.Libs.{Libs}
use recon_sr.Strings.{is_empty}
use Types.{Result}
use Domain.{validate_domain}
use Ip.{validate_ip}
use Asn.{validate_asn}
use Email.{validate_email}

abbrev pub domain_types : List Text
domain_types = codes "domain" ∷ codes "subdomain" ∷ []

abbrev pub ip_types : List Text
ip_types =
    codes "ip"
    ∷ codes "ipv4"
    ∷ codes "ipv6"
    ∷ codes "ipv4_ambiguous"
    ∷ codes "ip4"
    ∷ codes "ip6"
    ∷ []

abbrev pub email_types : List Text
email_types = codes "email" ∷ codes "email-extra" ∷ []

infixr 20 ◌or_else◌
abbrev pub ◌or_else◌ {ℓ} : {A : Type ℓ} → Option A → Option A → Option A
none or_else b = b
some a or_else b = some a

module _ (lib : Libs) where
  -- `Validate` without a type.
  unfoldable pub detect : Text → Option Result
  detect value =
      validate_ip value
      or_else validate_email lib value
      or_else validate_domain lib value
      or_else validate_asn lib value

  -- `Validate`: an unknown explicit type is accepted as it stands.
  unfoldable pub validate : Text → Text → Option Result
  validate target_type target_value =
      if eq_text target_type (codes "auto") || is_empty target_type
      then detect target_value
      else if mem_text target_type domain_types
      then validate_domain lib target_value
      else if mem_text target_type ip_types
      then validate_ip target_value
      else if mem_text target_type email_types
      then validate_email lib target_value
      else if eq_text target_type (codes "asn")
      then validate_asn lib target_value
      else some (record { type = target_type; value = target_value; anchor = [] })
