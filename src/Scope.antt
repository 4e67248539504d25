-- ===== src/Scope.antt =====
-- internal/scopemanager/scopemanager.go: which entities lie outside the boundaries of a project.
-- The package's variables are the record `Rules`; a Go set of strings is the list of its members.
pub mod RuleSets
pub mod Suffix
pub mod Precedence
pub mod Parse
pub mod Load
pub mod Reload
pub mod Exceptions
use recon_sr.Base.{
  ℕ, zero, suc, ◌+◌, Bool, true, false, List, [], ◌∷◌, Option, none, some, Text, codes, length, any,
  drop, if◌then◌else◌, eq_text, mem_text, lookup,
}
use recon_sr.Libs.{Libs}
use recon_sr.Strings.{index_byte, to_lower}
use recon_sr.Net.Parse.{parse_ip}
use recon_sr.Net.Cidr.{net_contains}
use RuleSets.{RuleSet, Rules, domain_types, ip_types, has_generic}

-- What the walk from a name to its parents finds first.
pub data Verdict : Type 0 where
  allowed blocked unlisted : Verdict

-- The loop of `IsOutOfScope` over a name with a leading dot and its parents. A round makes
-- `current` shorter, so its length is fuel enough.
unfoldable pub domain_walk : Rules → ℕ → Text → Verdict
domain_walk rules zero current = unlisted
domain_walk rules (suc fuel) current =
    let next : Verdict = elim (index_byte (drop 1 current) b'.') [
      | none ↦ unlisted
      | some idx ↦ domain_walk rules fuel (drop (suc idx) current)
    ] in
    if mem_text current rules.allowed.dot_domains
    then allowed
    else if mem_text current rules.blocked.dot_domains
    then blocked
    else next

abbrev pub is_blocked : Verdict → Bool
is_blocked blocked = true
is_blocked allowed = false
is_blocked unlisted = false

-- The loop of `IsExplicitlyAllowed`.
unfoldable pub allowed_walk : Rules → ℕ → Text → Bool
allowed_walk rules zero current = false
allowed_walk rules (suc fuel) current =
    let next : Bool = elim (index_byte (drop 1 current) b'.') [
      | none ↦ false
      | some idx ↦ allowed_walk rules fuel (drop (suc idx) current)
    ] in
    if mem_text current rules.allowed.dot_domains then true else next

module _ (lib : Libs) (rules : Rules) where
  unfoldable pub is_out_of_scope : Text → Text → Bool
  is_out_of_scope entity_type raw =
      let value = to_lower lib raw in
      if mem_text entity_type domain_types
      then is_blocked (domain_walk rules (suc (length value)) (b'.' ∷ value))
      else if mem_text entity_type ip_types
      then elim (parse_ip value) [
        | none ↦ false
        | some ip ↦
            if any (λ net. net_contains net ip) rules.allowed.nets
            then false
            else any (λ net. net_contains net ip) rules.blocked.nets
      ]
      else if has_generic entity_type value rules.allowed
      then false
      else has_generic entity_type value rules.blocked

  unfoldable pub is_explicitly_allowed : Text → Text → Bool
  is_explicitly_allowed entity_type raw =
      let value = to_lower lib raw in
      if mem_text entity_type domain_types
      then allowed_walk rules (suc (length value)) (b'.' ∷ value)
      else if mem_text entity_type ip_types
      then elim (parse_ip value) [
        | none ↦ false
        | some ip ↦ any (λ net. net_contains net ip) rules.allowed.nets
      ]
      else has_generic entity_type value rules.allowed
