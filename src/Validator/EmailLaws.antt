-- ===== src/Validator/EmailLaws.antt =====
-- What an accepted address looks like.
use recon_sr.Base.{
  ℕ, suc, ◌-◌, ◌≤◌, ◌≡◌, ◌∙◌, ap, sym, Bool, false, List, ◌∷◌, ◌++◌, Text, arith, All, codes,
  length, some, >>=-eq-some, some-inj, if_none-eq-some, ◌==◌, ◌||◌, ◌&&◌, take, drop, ltb,
  if◌then◌else◌, subst, Bool-cases, inl, inr,
}
use recon_sr.Libs.{Libs}
use recon_sr.Strings.{has_prefix, has_suffix, last_index_byte}
use recon_sr.Strings.Trim.{trim_space}
use recon_sr.Strings.Split.{join}
use recon_sr.Validator.Types.{Result}
use recon_sr.Validator.Domain.{validate_domain}
use recon_sr.Validator.Email.{local_words, words_extra, email_domain, email_at, validate_email}
use recon_sr.Validator.Words.{join-local_words, IsStandardAtom, words_extra-standard}
use recon_sr.Validator.Hosts.{IsHostName}
use recon_sr.Validator.Stable.{validate_domain-IsHostName}

-- An address `local@domain` that needs no quoting: atoms of standard characters between dots, and
-- a host name.
pub record IsPlainEmail (value : Text) : Type 0 where
  pub local : Text
  pub host : Text
  pub words : List Text
  pub value_eq : value ≡ local ++ b'@' ∷ host
  pub short : length local ≤ 64
  pub local_eq : join b'.' words ≡ local
  pub atoms : All IsStandardAtom words
  pub host_name : IsHostName host

plain_kind :
    (a b : Bool)
    → (if a || b then codes "email-extra" else codes "email") ≡ codes "email"
    → (a ≡ false) × (b ≡ false)
plain_kind a b h = ground arith

module _ (lib : Libs) where
  email_domain-host : (s dv od : Text) → email_domain lib s ≡ some (false, dv, od) → IsHostName dv
  unfolding email_domain
  email_domain-host s dv od h =
      elim (Bool-cases (has_prefix s (codes "[") && has_suffix s (codes "]"))) [
        | inl e ↦ absurd (ground arith)
        | inr e ↦
            let (r, valid, same) = >>=-eq-some (validate_domain lib s) _ (rw e at h) in
            subst IsHostName (ap (λ (t : Bool × Text × Text). t.1) (some-inj same))
              (validate_domain-IsHostName lib s r valid).0
      ]

  -- `email_at` in one equation for each step that can fail.
  email_at-inv :
      (val : Text) (at : ℕ) (r : Result)
      → email_at lib val at ≡ some r
      → (d : Bool × Text × Text) × (ws : List Text) × (extra : Bool) × (length (take at val) ≤ 64)
        × (email_domain lib (drop (suc at) val) ≡ some d)
        × (local_words (take at val) ≡ some ws)
        × (words_extra ws ≡ some extra)
        × (r ≡ record {
          type = if d.0 || extra then codes "email-extra" else codes "email";
          value = take at val ++ b'@' ∷ d.1;
          anchor = d.2;
        })
  unfolding email_at
  email_at-inv val at r h =
      let (_, h₁) = if_none-eq-some (at == 0 || at == length val - 1) _ h in
      let (short, h₂) = if_none-eq-some (ltb 64 (length (take at val))) _ h₁ in
      let (d, h₃, h₄) = >>=-eq-some (email_domain lib (drop (suc at) val)) _ h₂ in
      let (ws, h₅, h₆) = >>=-eq-some (local_words (take at val)) _ h₄ in
      let (extra, h₇, h₈) = >>=-eq-some (words_extra ws) _ h₆ in
      (d, ws, extra, ground arith, h₃, h₅, h₇, sym (some-inj h₈))

  -- An address that is accepted with the type `email` is `local@host` with a local part of at
  -- most 64 bytes, whose parts between dots are atoms of standard characters, and a host name.
  pub validate_email-IsPlainEmail :
      (v : Text) (r : Result)
      → validate_email lib v ≡ some r
      → r.type ≡ codes "email"
      → IsPlainEmail r.value
  unfolding validate_email
  validate_email-IsPlainEmail v r h plain =
      let (_, h₁) = if_none-eq-some (ltb 254 (length (trim_space v))) _ h in
      let (at, _, h₂) = >>=-eq-some (last_index_byte (trim_space v) b'@') _ h₁ in
      let (d, ws, extra, short, found, cut, kinds, same) = email_at-inv (trim_space v) at r h₂ in
      let no_quote : (d.0 ≡ false) × (extra ≡ false) =
        plain_kind d.0 extra (sym (ap Result.type same) ∙ plain) in
      record {
        local = take at (trim_space v);
        host = d.1;
        words = ws;
        value_eq = ap Result.value same;
        short = short;
        local_eq = join-local_words _ ws cut;
        atoms = words_extra-standard ws (rw (no_quote.1) at kinds);
        host_name = email_domain-host _ d.1 d.2 (
            subst (λ q. email_domain lib (drop (suc at) (trim_space v)) ≡ some (q, d.1, d.2))
              no_quote.0 found);
      }
