-- ===== src/Examples/Domains.antt =====
-- Host names, system numbers and addresses under the one public suffix `com`.
use recon_sr.Base.{◌≡◌, ◌≢◌, ◌⊎◌, ℕ, refl, [], ◌∷◌, some, Text, codes, All}
use recon_sr.Validator.Types.{Result}
use recon_sr.Validator.Domain.{icann_anchor, validate_domain}
use recon_sr.Validator.Asn.{validate_asn}
use recon_sr.Validator.Hosts.{IsDigit, IsHostName}
use recon_sr.Validator.Stable.{validate_domain-IsHostName, validate_domain-stable}
use recon_sr.Validator.AsnLaws.{validate_asn-normal, validate_asn-stable}
use recon_sr.Validator.EmailLaws.{IsPlainEmail, validate_email-IsPlainEmail}
use recon_sr.Examples.Inputs.{com_libs, running}

abbrev mail_host : Result
mail_host = record {
  type = codes "subdomain";
  value = codes "mail.example.com";
  anchor = codes "example.com";
}

validate_domain-IsHostName_example :
    IsHostName mail_host.value
    × (icann_anchor com_libs mail_host.value ≡ some mail_host.anchor)
    × (((mail_host.type ≡ codes "domain") × (mail_host.value ≡ mail_host.anchor))
        ⊎ ((mail_host.type ≡ codes "subdomain") × (mail_host.value ≢ mail_host.anchor)))
unfolding running
validate_domain-IsHostName_example =
    validate_domain-IsHostName com_libs (codes " Mail.Example.com. ") mail_host refl

validate_domain-stable_example :
    validate_domain com_libs (codes "mail.example.com") ≡ some mail_host
unfolding running
validate_domain-stable_example =
    validate_domain-stable com_libs (codes " Mail.Example.com. ") mail_host refl refl

abbrev system_number : Result
system_number = record { type = codes "asn"; value = codes "AS64500"; anchor = [] }

validate_asn-normal_example :
    (d : ℕ) × (ds : Text) × (system_number
      ≡ record { type = codes "asn"; value = b'A' ∷ b'S' ∷ d ∷ ds; anchor = [] })
    × All IsDigit (d ∷ ds)
unfolding running
validate_asn-normal_example = validate_asn-normal com_libs (codes " as64500") system_number refl

validate_asn-stable_example : validate_asn com_libs (codes "AS64500") ≡ some system_number
unfolding running
validate_asn-stable_example = validate_asn-stable com_libs (codes " as64500") system_number refl

abbrev post_box : Result
post_box = record {
  type = codes "email";
  value = codes "J.Doe@mail.example.com";
  anchor = codes "example.com";
}

validate_email-IsPlainEmail_example : IsPlainEmail post_box.value
unfolding running
validate_email-IsPlainEmail_example =
    validate_email-IsPlainEmail com_libs (codes "J.Doe@Mail.example.com") post_box refl refl
