-- ===== src/Scope/Exceptions.antt =====
-- `IsExplicitlyAllowed`, and what an exception does to `IsOutOfScope`.
use recon_sr.Base.{
  ℕ, zero, suc, ◌<◌, ◌≡◌, ◌↔◌, refl, ◌∙◌, ap, sym, subst, Bool, true, false, [], ◌∷◌, Text, arith,
  length, drop, ◌==◌, Bool-cases, Option-cases, inl, inr, Memᴰ, mem_text, mem_text_iff,
  mem_text-false_iff, none, some, ◌&&◌, if◌then◌else◌,
}
use recon_sr.Libs.{Libs}
use recon_sr.Strings.{to_lower, index_byte}
use recon_sr.Scope.RuleSets.{Rules, domain_types}
use recon_sr.Scope.{allowed_walk, is_out_of_scope, is_explicitly_allowed}
use recon_sr.Scope.Suffix.{whole, later, IsSuffix-length, drop_at_dot}
use recon_sr.Scope.Precedence.{IsParent, IsSuffix-cases, is_out_of_scope-BlockedBy}

module _ (rules : Rules) where
  -- Some parent is allowed.
  pub record AllowedBy (s : Text) : Type 0 where
    pub name : Text
    pub parent : IsParent name s
    pub listed : Memᴰ (b'.' ∷ name) rules.allowed.dot_domains

  allowed_search : Text → Bool
  allowed_search [] = false
  allowed_search (c ∷ s) =
      let rest = allowed_search s in
      if c == b'.'
      then (if mem_text (c ∷ s) rules.allowed.dot_domains then true else rest)
      else rest

  allowed_next :
      (s : Text)
      → allowed_search s
        ≡ (elim (index_byte s b'.') [ none ↦ false | some idx ↦ allowed_search (drop idx s) ])
  unfolding allowed_search index_byte
  allowed_next [] = refl
  allowed_next (c ∷ s) = ground (arith, allowed_next s)

  allowed_at :
      (fuel : ℕ) (s t : Text) (i : ℕ)
      → drop i s ≡ b'.' ∷ t
      → allowed_walk rules fuel (b'.' ∷ t) ≡ allowed_search (b'.' ∷ t)
      → allowed_walk rules fuel (drop i s) ≡ allowed_search (drop i s)
  allowed_at fuel s t i at ih = rw at ih

  allowed_walk-search :
      (fuel : ℕ) (s : Text)
      → length s < fuel
      → allowed_walk rules fuel (b'.' ∷ s) ≡ allowed_search (b'.' ∷ s)
  unfolding allowed_walk allowed_search
  allowed_walk-search zero s h = absurd (omega arith)
  allowed_walk-search (suc fuel) s h = elim (Option-cases (index_byte s b'.')) [
    | inl missing ↦ ground (arith, allowed_next s)
    | inr (i, found) ↦
        let (t, at, shorter) = drop_at_dot s i found in
        let ih = allowed_walk-search fuel t (omega arith) in
        ground (arith, allowed_next s, allowed_at fuel s t i at ih)
  ]

  allowed_sound : (s : Text) → allowed_search s ≡ true → AllowedBy s
  unfolding allowed_search
  allowed_sound [] h = cc
  allowed_sound (c ∷ s) h =
      elim (Bool-cases (c == b'.' && mem_text (c ∷ s) rules.allowed.dot_domains)) [
        | inl hit ↦
            let at : c ≡ b'.' = ground arith in
            record {
              name = s;
              parent = whole (ap (λ d. d ∷ s) (sym at));
              listed =
                  subst (λ d. Memᴰ (d ∷ s) rules.allowed.dot_domains) at
                    ((mem_text_iff (c ∷ s) rules.allowed.dot_domains).0 (ground arith));
            }
        | inr miss ↦
            let a = allowed_sound s (ground arith) in
            record { name = a.name; parent = later a.parent; listed = a.listed }
      ]

  allowed_complete : (s : Text) → AllowedBy s → allowed_search s ≡ true
  unfolding allowed_search
  allowed_complete [] a = absurd (omega (arith, IsSuffix-length a.parent))
  allowed_complete (c ∷ s) a = elim (IsSuffix-cases a.parent) [
    | inl e ↦
        let hit =
          (mem_text_iff (c ∷ s) rules.allowed.dot_domains).1
            (subst (λ t. Memᴰ t rules.allowed.dot_domains) e a.listed) in
        ground arith
    | inr p ↦
        let ih = allowed_complete s (record { name = a.name; parent = p; listed = a.listed }) in
        ground arith
  ]

module _ (lib : Libs) (rules : Rules) (entity_type value : Text) where
  allowed_domain :
      mem_text entity_type domain_types ≡ true
      → is_explicitly_allowed lib rules entity_type value
        ≡ allowed_search rules (b'.' ∷ to_lower lib value)
  unfolding is_explicitly_allowed
  allowed_domain known = rw (
    known,
    allowed_walk-search rules (suc (length (to_lower lib value))) (to_lower lib value)
        (omega arith),
  )

  -- An entity of type domain or subdomain is explicitly allowed exactly when its name in lower
  -- case or one of the name's parents is listed as an exception.
  pub is_explicitly_allowed-AllowedBy :
      Memᴰ entity_type domain_types
      → (is_explicitly_allowed lib rules entity_type value ≡ true)
        ↔ AllowedBy rules (b'.' ∷ to_lower lib value)
  is_explicitly_allowed-AllowedBy m =
      let same = allowed_domain ((mem_text_iff entity_type domain_types).1 m) in
      (λ h. allowed_sound rules _ (sym same ∙ h), λ a. same ∙ allowed_complete rules _ a)

  -- For every type but the domain types, what is explicitly allowed is in scope.
  pub not_domain_allowed :
      (¬ Memᴰ entity_type domain_types)
      → is_explicitly_allowed lib rules entity_type value ≡ true
      → is_out_of_scope lib rules entity_type value ≡ false
  unfolding is_explicitly_allowed is_out_of_scope
  not_domain_allowed other h =
      let unknown = (mem_text-false_iff entity_type domain_types).1 other in ground arith

  -- An entity of type domain or subdomain whose own name in lower case is listed as an exception
  -- is in scope, whatever is blocked.
  pub listed_domain_in_scope :
      Memᴰ entity_type domain_types
      → Memᴰ (b'.' ∷ to_lower lib value) rules.allowed.dot_domains
      → is_out_of_scope lib rules entity_type value ≡ false
  listed_domain_in_scope m exception =
      elim (Bool-cases (is_out_of_scope lib rules entity_type value)) [
        | inr e ↦ e
        | inl e ↦
            let b = (is_out_of_scope-BlockedBy lib rules entity_type value m).0 e in
            absurd (
              b.no_exception (to_lower lib value) (whole refl)
                (omega (arith, IsSuffix-length b.parent)) exception)
      ]
