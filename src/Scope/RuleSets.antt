-- ===== src/Scope/RuleSets.antt =====
-- internal/scopemanager/scopemanager.go: the rules in memory, and how `processRaw` adds to them.
use recon_sr.Base.{
  Bool, false, List, [], ◌∷◌, ◌++◌, Option, none, some, Text, codes, if◌then◌else◌, eq_text,
  mem_text, lookup, insert, is_some,
}
use recon_sr.Libs.{Libs}
use recon_sr.Strings.{has_prefix, trim_prefix, index_byte, to_lower}
use recon_sr.Net.Cidr.{IpNet, parse_cidr}
use recon_sr.Validator.{validate}

-- The rules of one side. `generic` maps a section to the set of its values.
pub record RuleSet : Type 0 where
  pub dot_domains : List Text
  pub nets : List IpNet
  pub generic : List (Text × List Text)

pub record Rules : Type 0 where
  pub allowed : RuleSet
  pub blocked : RuleSet

abbrev pub no_rules : RuleSet
no_rules = record { dot_domains = []; nets = []; generic = [] }

abbrev pub domain_types : List Text
domain_types = codes "domain" ∷ codes "subdomain" ∷ []

abbrev pub ip_types : List Text
ip_types = codes "ip" ∷ codes "ipv4" ∷ codes "ipv6" ∷ codes "ipv4_ambiguous" ∷ []

unfoldable pub has_generic : Text → Text → RuleSet → Bool
has_generic entity_type value rules = elim (lookup entity_type rules.generic) [
  | none ↦ false
  | some values ↦ mem_text value values
]

unfoldable pub add_set : Text → List Text → List Text
add_set v s = if mem_text v s then s else v ∷ s

abbrev pub values_of : Option (List Text) → List Text
values_of none = []
values_of (some values) = values

abbrev add_generic : Text → Text → RuleSet → RuleSet
add_generic section value rules = record rules {
  generic = insert section (add_set value (values_of (lookup section rules.generic))) rules.generic;
}

unfoldable pub add_dot_domain : Text → RuleSet → RuleSet
add_dot_domain value rules =
    let final_val = trim_prefix value (codes "testscope.") in
    let dotted = if has_prefix final_val (codes ".") then final_val else b'.' ∷ final_val in
    record rules { dot_domains = add_set dotted rules.dot_domains }

-- A bare address becomes the network of that address alone.
unfoldable pub with_prefix_length : Text → Text
with_prefix_length val =
    if is_some (index_byte val b'/')
    then val
    else if is_some (index_byte val b':')
    then val ++ codes "/128"
    else val ++ codes "/32"

module _ (lib : Libs) where
  -- The body of the loops of `processRaw`; a value that is not valid is skipped.
  unfoldable pub process_value : Text → RuleSet → Text → RuleSet
  process_value section rules val =
      if mem_text section domain_types
      then elim (validate lib (codes "domain")
          (codes "testscope." ++ trim_prefix val (codes "."))) [
            | none ↦ rules
            | some res ↦ add_dot_domain res.value rules
          ]
      else if mem_text section ip_types
      then elim (parse_cidr (with_prefix_length val)) [
        | none ↦ rules
        | some net ↦ record rules { nets = rules.nets ++ net ∷ [] }
      ]
      else if eq_text section (codes "asn")
      then elim (validate lib (codes "asn") val) [
        | none ↦ rules
        | some res ↦ add_generic (codes "asn") (to_lower lib res.value) rules
      ]
      else add_generic section val rules

  unfoldable pub process_section : Text → List Text → RuleSet → RuleSet
  process_section section [] rules = rules
  process_section section (v ∷ vs) rules =
      process_section section vs (process_value section rules v)

  -- `processRaw`. Go visits the sections in an order of its own choosing.
  unfoldable pub process_raw : List (Text × List Text) → RuleSet → RuleSet
  process_raw [] rules = rules
  process_raw ((section, values) ∷ raw) rules =
      process_raw raw (process_section section values rules)
