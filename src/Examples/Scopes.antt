-- ===== src/Examples/Scopes.antt =====
-- Names below `example.com`, all of them blocked but the shop.
use recon_sr.Base.{◌≡◌, ◌↔◌, ⊎_elim, inl, refl, true, false, [], ◌∷◌, none, some, Text, codes, Memᴰ}
use mathlib.Core.List.Memᴰ
use recon_sr.Strings.{to_lower}
use recon_sr.Scope.RuleSets.{Rules, domain_types}
use recon_sr.Scope.{is_out_of_scope, is_explicitly_allowed}
use recon_sr.Scope.Load.{Entry, listed, State, loaded, empty_rules, read_rules, load}
use recon_sr.Scope.Precedence.{BlockedBy, is_out_of_scope-BlockedBy}
use recon_sr.Scope.Exceptions.{
  AllowedBy, is_explicitly_allowed-AllowedBy, not_domain_allowed, listed_domain_in_scope,
}
use recon_sr.Scope.Reload.{load_unchanged, load_fresh, load-load}
use recon_sr.Examples.Inputs.{com_libs, example_rules, running}

is_out_of_scope-BlockedBy_example :
    (is_out_of_scope com_libs example_rules (codes "domain") (codes "Mail.example.com") ≡ true)
    ↔ BlockedBy example_rules (b'.' ∷ to_lower com_libs (codes "Mail.example.com"))
is_out_of_scope-BlockedBy_example =
    is_out_of_scope-BlockedBy com_libs example_rules (codes "domain") (codes "Mail.example.com")
      (Memᴰ.head refl)

is_explicitly_allowed-AllowedBy_example :
    (is_explicitly_allowed com_libs example_rules (codes "domain") (codes "a.shop.example.com")
      ≡ true)
    ↔ AllowedBy example_rules (b'.' ∷ to_lower com_libs (codes "a.shop.example.com"))
is_explicitly_allowed-AllowedBy_example =
    is_explicitly_allowed-AllowedBy com_libs example_rules (codes "domain")
      (codes "a.shop.example.com") (Memᴰ.head refl)

asn_is_no_domain : ¬ Memᴰ (codes "asn") domain_types
asn_is_no_domain m =
    ⊎_elim (λ e. cc) (λ n. ⊎_elim (λ e. cc) (λ k. Memᴰ.not-nil k) (Memᴰ.cases_cons n))
      (Memᴰ.cases_cons m)

not_domain_allowed_example :
    is_out_of_scope com_libs example_rules (codes "asn") (codes "AS7") ≡ false
unfolding running
not_domain_allowed_example =
    not_domain_allowed com_libs example_rules (codes "asn") (codes "AS7") asn_is_no_domain refl

listed_domain_in_scope_example :
    is_out_of_scope com_libs example_rules (codes "subdomain") (codes "Shop.example.com") ≡ false
unfolding running
listed_domain_in_scope_example =
    listed_domain_in_scope com_libs example_rules (codes "subdomain") (codes "Shop.example.com")
      (Memᴰ.tail (Memᴰ.head refl)) (Memᴰ.head refl)

-- The digest of an example: it is never empty.
abbrev one_digest : Rules → Text
one_digest rules = codes "digest"

abbrev rule_file : Entry
rule_file = record {
  name = codes "project.txt";
  is_dir = false;
  stamp = some (codes "7");
  lines = some (codes "[domain]" ∷ codes "example.com, !shop.example.com # the shop" ∷ []);
}

abbrev unread_file : Entry
unread_file = record rule_file { lines = none }

abbrev first_state : State
first_state = record { rules = empty_rules; last_dir_fingerprint = []; last_semantic_hash = [] }

load_unchanged_example :
    ((load com_libs one_digest first_state (listed true (unread_file ∷ []))).0.rules ≡ empty_rules)
    × ((load com_libs one_digest first_state (listed true (unread_file ∷ []))).0.last_semantic_hash
        ≡ [])
unfolding running
load_unchanged_example =
    load_unchanged com_libs one_digest first_state (listed true (unread_file ∷ [])) (λ e. cc)

load_fresh_example :
    (new : Rules) × (read_rules com_libs one_digest (rule_file ∷ []) empty_rules ≡ some new)
    × (one_digest (load com_libs one_digest first_state (listed true (rule_file ∷ []))).0.rules
        ≡ one_digest new)
    × ((load com_libs one_digest first_state (listed true (rule_file ∷ []))).0.last_semantic_hash
        ≡ one_digest new)
unfolding running
load_fresh_example =
    load_fresh com_libs one_digest first_state true (rule_file ∷ []) true (inl refl) (λ e. cc) refl

load-load_example :
    load com_libs one_digest
      (load com_libs one_digest first_state (listed true (rule_file ∷ []))).0
      (listed true (rule_file ∷ []))
    ≡ ((load com_libs one_digest first_state (listed true (rule_file ∷ []))).0, loaded false)
unfolding running
load-load_example =
    load-load com_libs one_digest first_state (listed true (rule_file ∷ [])) true (λ rules e. cc)
      refl
