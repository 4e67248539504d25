-- ===== src/Scope/Precedence.antt =====
-- The rule on the most specific name wins, and an exception wins over a block on the same name.
use recon_sr.Base.{
  ℕ, suc, ◌≤◌, ◌≡◌, ◌↔◌, ◌∙◌, ap, sym, subst, true, false, [], ◌∷◌, Text, arith, length, ◌==◌,
  Bool-cases, inl, inr, Memᴰ, mem_text, mem_text_iff, mem_text-false_iff, ◌⊎◌,
}
use recon_sr.Libs.{Libs}
use recon_sr.Strings.{to_lower}
use recon_sr.Scope.RuleSets.{Rules, domain_types}
use recon_sr.Scope.{Verdict, blocked, is_blocked, is_out_of_scope}
use recon_sr.Scope.Suffix.{
  IsSuffix, whole, later, IsSuffix-length, domain_search, domain_walk-search,
}

-- `x` is the name itself or one of its parents, with its leading dot.
abbrev pub IsParent : Text → Text → Type 0
IsParent x s = IsSuffix (b'.' ∷ x) s

-- Some parent is blocked, and no parent that is at least as specific is allowed.
pub record BlockedBy (rules : Rules) (s : Text) : Type 0 where
  pub name : Text
  pub parent : IsParent name s
  pub listed : Memᴰ (b'.' ∷ name) rules.blocked.dot_domains
  pub no_exception :
      (x : Text)
      → IsParent x s
      → length name ≤ length x
      → ¬ Memᴰ (b'.' ∷ x) rules.allowed.dot_domains

pub IsSuffix-cases : {x : Text} {c : ℕ} {s : Text} → IsSuffix x (c ∷ s) → (x ≡ c ∷ s) ⊎ IsSuffix x s
IsSuffix-cases (whole e) = inl e
IsSuffix-cases (later h) = inr h

module _ (rules : Rules) where
  BlockedBy-later :
      (c : ℕ) (s : Text)
      → ((x : Text) → b'.' ∷ x ≡ c ∷ s → ¬ Memᴰ (b'.' ∷ x) rules.allowed.dot_domains)
      → BlockedBy rules s
      → BlockedBy rules (c ∷ s)
  BlockedBy-later c s free b = record {
    name = b.name;
    parent = later b.parent;
    listed = b.listed;
    no_exception =
        λ x p long. elim (IsSuffix-cases p) [ inl e ↦ free x e | inr q ↦ b.no_exception x q long ];
  }

  BlockedBy-here :
      (c : ℕ) (s : Text)
      → (c == b'.') ≡ true
      → mem_text (c ∷ s) rules.allowed.dot_domains ≡ false
      → mem_text (c ∷ s) rules.blocked.dot_domains ≡ true
      → BlockedBy rules (c ∷ s)
  BlockedBy-here c s dot free hit =
      let at : c ≡ b'.' = ground arith in
      record {
        name = s;
        parent = whole (ap (λ d. d ∷ s) (sym at));
        listed =
            subst (λ d. Memᴰ (d ∷ s) rules.blocked.dot_domains) at
              ((mem_text_iff (c ∷ s) rules.blocked.dot_domains).0 hit);
        no_exception = λ x p long. elim (IsSuffix-cases p) [
          | inl e ↦ λ m.
              (mem_text-false_iff (c ∷ s) rules.allowed.dot_domains).0 free
                (subst (λ t. Memᴰ t rules.allowed.dot_domains) e m)
          | inr q ↦ absurd (omega (arith, IsSuffix-length q))
        ];
      }

  search_sound : (s : Text) → domain_search rules s ≡ blocked → BlockedBy rules s
  unfolding domain_search
  search_sound [] h = cc
  search_sound (c ∷ s) h = elim (Bool-cases (c == b'.')) [
    | inr e ↦ BlockedBy-later c s (λ x same. absurd (ground arith)) (search_sound s (ground arith))
    | inl e ↦ elim (Bool-cases (mem_text (c ∷ s) rules.allowed.dot_domains)) [
      | inl yes' ↦ absurd (ground arith)
      | inr free ↦ elim (Bool-cases (mem_text (c ∷ s) rules.blocked.dot_domains)) [
        | inl hit ↦ BlockedBy-here c s e free hit
        | inr miss ↦
            BlockedBy-later c s
              (λ x same m.
                (mem_text-false_iff (c ∷ s) rules.allowed.dot_domains).0 free
                  (subst (λ t. Memᴰ t rules.allowed.dot_domains) same m))
              (search_sound s (ground arith))
      ]
    ]
  ]

  BlockedBy-rest :
      (c : ℕ) (s : Text) (b : BlockedBy rules (c ∷ s)) → IsParent b.name s → BlockedBy rules s
  BlockedBy-rest c s b p = record {
    name = b.name;
    parent = p;
    listed = b.listed;
    no_exception = λ x q long. b.no_exception x (later q) long;
  }

  search_complete : (s : Text) → BlockedBy rules s → domain_search rules s ≡ blocked
  unfolding domain_search
  search_complete [] b = absurd (omega (arith, IsSuffix-length b.parent))
  search_complete (c ∷ s) b = elim (IsSuffix-cases b.parent) [
    | inl e ↦
        let hit =
          (mem_text_iff (c ∷ s) rules.blocked.dot_domains).1
            (subst (λ t. Memᴰ t rules.blocked.dot_domains) e b.listed) in
        let free = (mem_text-false_iff (c ∷ s) rules.allowed.dot_domains).1 (λ m.
          b.no_exception b.name b.parent (omega arith)
            (subst (λ t. Memᴰ t rules.allowed.dot_domains) (sym e) m)) in
        ground arith
    | inr p ↦
        let ih = search_complete s (BlockedBy-rest c s b p) in
        elim (Bool-cases (c == b'.')) [
          | inr other ↦ ground arith
          | inl dot ↦
              let at : b'.' ∷ s ≡ c ∷ s = ground arith in
              let free = (mem_text-false_iff (c ∷ s) rules.allowed.dot_domains).1 (λ m.
                b.no_exception s (whole at) (omega (arith, IsSuffix-length p))
                  (subst (λ t. Memᴰ t rules.allowed.dot_domains) (sym at) m)) in
              ground arith
        ]
  ]

is_blocked_iff : (v : Verdict) → (is_blocked v ≡ true) ↔ (v ≡ blocked)
is_blocked_iff v = ground arith

is_out_of_scope-search :
    (lib : Libs) (rules : Rules) (entity_type value : Text)
    → mem_text entity_type domain_types ≡ true
    → is_out_of_scope lib rules entity_type value
      ≡ is_blocked (domain_search rules (b'.' ∷ to_lower lib value))
unfolding is_out_of_scope
is_out_of_scope-search lib rules entity_type value known = rw (
  known,
  domain_walk-search rules (suc (length (to_lower lib value))) (to_lower lib value) (omega arith),
)

-- An entity of type domain or subdomain is out of scope exactly when its name in lower case or
-- one of the name's parents is blocked and no name that is at least as specific is allowed.
pub is_out_of_scope-BlockedBy :
    (lib : Libs) (rules : Rules) (entity_type value : Text)
    → Memᴰ entity_type domain_types
    → (is_out_of_scope lib rules entity_type value ≡ true)
      ↔ BlockedBy rules (b'.' ∷ to_lower lib value)
is_out_of_scope-BlockedBy lib rules entity_type value m =
    let known = (mem_text_iff entity_type domain_types).1 m in
    let same = is_out_of_scope-search lib rules entity_type value known in
    let s = b'.' ∷ to_lower lib value in
    (
      λ h. search_sound rules s ((is_blocked_iff _).0 (sym same ∙ h)),
      λ b. same ∙ (is_blocked_iff _).1 (search_complete rules s b),
    )
