-- ===== src/Scope/Suffix.antt =====
-- The names that a walk visits: the suffixes of a text that begin with a dot.
use recon_sr.Base.{
  ℕ, zero, suc, ◌≤◌, ◌<◌, ◌≡◌, refl, ap, [], ◌∷◌, none, some, Text, arith, length, drop, ◌==◌,
  Bool-cases, inl, inr, if◌then◌else◌, mem_text, Option-cases,
}
use recon_sr.Strings.{index_byte}
use recon_sr.Scope.RuleSets.{Rules}
use recon_sr.Scope.{Verdict, allowed, blocked, unlisted, domain_walk}

pub data IsSuffix (x : Text) : Text → Type 0 where
  whole : {s : Text} → x ≡ s → IsSuffix x s
  later : {c : ℕ} {s : Text} → IsSuffix x s → IsSuffix x (c ∷ s)

pub IsSuffix-length : {x s : Text} → IsSuffix x s → length x ≤ length s
IsSuffix-length (whole e) = omega (arith, ap length e)
IsSuffix-length (later h) = omega (arith, IsSuffix-length h)

-- What the walk decides, by recursion on the text: the dots are met one after the other.
unfoldable pub domain_search : Rules → Text → Verdict
domain_search rules [] = unlisted
domain_search rules (c ∷ s) =
    let rest = domain_search rules s in
    if c == b'.'
    then (if mem_text (c ∷ s) rules.allowed.dot_domains
        then allowed
        else if mem_text (c ∷ s) rules.blocked.dot_domains
        then blocked
        else rest)
    else rest

-- The walk goes on at the next dot.
search_next :
    (rules : Rules) (s : Text)
    → domain_search rules s
      ≡ (elim (index_byte s b'.') [ none ↦ unlisted | some idx ↦ domain_search rules (drop idx s) ])
unfolding domain_search index_byte
search_next rules [] = refl
search_next rules (c ∷ s) = ground (arith, search_next rules s)

drop-length : (n : ℕ) (s : Text) → length (drop n s) ≤ length s
drop-length zero s = omega arith
drop-length (suc n) [] = omega arith
drop-length (suc n) (c ∷ s) = omega (arith, drop-length n s)

pub drop_at_dot :
    (s : Text) (idx : ℕ)
    → index_byte s b'.' ≡ some idx
    → (t : Text) × (drop idx s ≡ b'.' ∷ t) × (length t < length s)
unfolding index_byte
drop_at_dot [] idx h = cc
drop_at_dot (c ∷ s) idx h = elim (Bool-cases (c == b'.')) [
  | inl e ↦ (s, ground arith, omega arith)
  | inr e ↦ elim (Option-cases (index_byte s b'.')) [
    | inl missing ↦ absurd (ground arith)
    | inr (i, found) ↦
        let (t, at, shorter) = drop_at_dot s i found in (t, ground arith, omega arith)
  ]
]

walk_at :
    (rules : Rules) (fuel : ℕ) (s t : Text) (i : ℕ)
    → drop i s ≡ b'.' ∷ t
    → domain_walk rules fuel (b'.' ∷ t) ≡ domain_search rules (b'.' ∷ t)
    → domain_walk rules fuel (drop i s) ≡ domain_search rules (drop i s)
walk_at rules fuel s t i at ih = rw at ih

-- With enough fuel the walk over a dotted name finds what the search finds.
pub domain_walk-search :
    (rules : Rules) (fuel : ℕ) (s : Text)
    → length s < fuel
    → domain_walk rules fuel (b'.' ∷ s) ≡ domain_search rules (b'.' ∷ s)
unfolding domain_walk domain_search
domain_walk-search rules zero s h = absurd (omega arith)
domain_walk-search rules (suc fuel) s h = elim (Option-cases (index_byte s b'.')) [
  | inl missing ↦ ground (arith, search_next rules s)
  | inr (i, found) ↦
      let (t, at, shorter) = drop_at_dot s i found in
      let ih = domain_walk-search rules fuel t (omega arith) in
      ground (arith, search_next rules s, walk_at rules fuel s t i at ih)
]
