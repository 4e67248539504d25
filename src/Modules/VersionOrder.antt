-- ===== src/Modules/VersionOrder.antt =====
-- What `compareVersions` of modules/vuln_lookup/cpe.go compares: versions are sequences of
-- numbers, in the order of the first difference.
use recon_sr.Base.{
  ℕ, zero, suc, ◌+◌, ◌<◌, ◌≤◌, max, ◌≡◌, refl, ◌∙◌, sym, subst, ◌⊎◌, ◌↔◌, inl, inr, arith, List, [],
  ◌∷◌, none, Text, length, get_elem?, ltb, Bool-cases,
}
use recon_sr.Modules.Versions.{
  below, level, above, version_parts, part_number, compare_parts, compare_versions,
}

-- The number of a version at a position.
abbrev pub number : Text → ℕ → ℕ
number v = part_number (version_parts v)

-- The first sequence is smaller at the first position from `i` on where they differ.
abbrev pub SmallerFrom : ℕ → (ℕ → ℕ) → (ℕ → ℕ) → Type 0
SmallerFrom i f g = (k : ℕ) × (i ≤ k) × ((j : ℕ) → i ≤ j → j < k → f j ≡ g j) × (f k < g k)

abbrev pub Smaller : (ℕ → ℕ) → (ℕ → ℕ) → Type 0
Smaller = SmallerFrom 0

lt-cases : (a b : ℕ) → (a < b) ⊎ ((a ≡ b) ⊎ (b < a))
lt-cases a b = ground arith

Smaller-irrefl : (f g : ℕ → ℕ) → ((k : ℕ) → f k ≡ g k) → ¬ Smaller f g
Smaller-irrefl f g same (k, _, _, less) = let e = same k in omega arith

Smaller-asymm : (f g : ℕ → ℕ) → Smaller f g → ¬ Smaller g f
Smaller-asymm f g (k, _, same, less) (m, _, same', less') =
    let at_k = same' k in let at_m = same m in grind arith

pub Smaller-trans : (f g h : ℕ → ℕ) → Smaller f g → Smaller g h → Smaller f h
Smaller-trans f g h (k, z, same, less) (m, z', same', less') = elim (lt-cases k m) [
  | inl e ↦
      (k, z, λ j y l. same j y l ∙ same' j y (omega arith), let e' = same' k z e in omega arith)
  | inr (inl e) ↦ (
    m,
    z',
    λ j y l. same j y (omega arith) ∙ same' j y l,
    let less_m = subst (λ n. f n < g n) e less in omega arith,
  )
  | inr (inr e) ↦
      (m, z', λ j y l. same j y (omega arith) ∙ same' j y l, let e' = same m z' e in omega arith)
]

-- One more position in front.
SmallerFrom-pred : (f g : ℕ → ℕ) (i : ℕ) → f i ≡ g i → SmallerFrom (suc i) f g → SmallerFrom i f g
SmallerFrom-pred f g i e (k, b, same, less) = (
  k,
  omega arith,
  λ j a l. elim (lt-cases i j) [
    | inl lt ↦ same j lt l
    | inr (inl eq) ↦ subst (λ n. f n ≡ g n) eq e
    | inr (inr gt) ↦ omega arith
  ],
  less,
)

-- The loop finds the first difference among the positions it visits.
compare_parts-cases :
    (ps qs : List Text) (i n : ℕ)
    → ((compare_parts ps qs i n ≡ below) × SmallerFrom i (part_number ps) (part_number qs))
      ⊎ (((compare_parts ps qs i n ≡ above) × SmallerFrom i (part_number qs) (part_number ps))
          ⊎ ((compare_parts ps qs i n ≡ level)
              × ((k : ℕ) → i ≤ k → k < i + n → part_number ps k ≡ part_number qs k)))
unfolding compare_parts
compare_parts-cases ps qs i zero = inr (inr (refl, λ k a b. omega arith))
compare_parts-cases ps qs i (suc n) =
    elim (Bool-cases (ltb (part_number ps i) (part_number qs i))) [
      | inl e ↦ rw e (inl (refl, (i, omega arith, λ j a l. omega arith, ground arith)))
      | inr e ↦ elim (Bool-cases (ltb (part_number qs i) (part_number ps i))) [
        | inl e' ↦
            rw (e, e') (inr (inl (refl, (i, omega arith, λ j a l. omega arith, ground arith))))
        | inr e' ↦
            let same : part_number ps i ≡ part_number qs i = ground arith in
            elim (compare_parts-cases ps qs (suc i) n) [
              | inl (r, d) ↦
                  rw (e, e') (inl (r, SmallerFrom-pred (part_number ps) (part_number qs) i same d))
              | inr (inl (r, d)) ↦
                  rw (e, e')
                    (inr
                      (inl (r, SmallerFrom-pred (part_number qs) (part_number ps) i (sym same) d)))
              | inr (inr (r, all_same)) ↦
                  rw (e, e')
                    (inr (
                      inr (
                        r,
                        λ k a l. elim (lt-cases i k) [
                          | inl lt ↦ all_same k lt (omega arith)
                          | inr (inl eq) ↦ subst (λ j. part_number ps j ≡ part_number qs j) eq same
                          | inr (inr gt) ↦ omega arith
                        ],
                      )))
            ]
      ]
    ]

get_elem?-beyond {ℓ} : {A : Type ℓ} (xs : List A) (k : ℕ) → length xs ≤ k → get_elem? xs k ≡ none
get_elem?-beyond [] k h = refl
get_elem?-beyond (x ∷ xs) zero h = absurd (omega arith)
get_elem?-beyond (x ∷ xs) (suc k) h = get_elem?-beyond xs k (omega arith)

part_number-beyond : (ps : List Text) (k : ℕ) → length ps ≤ k → part_number ps k ≡ 0
unfolding part_number
part_number-beyond ps k h = rw (part_number, get_elem?-beyond ps k h) refl

pub compare_versions-cases :
    (v w : Text)
    → ((compare_versions v w ≡ below) × Smaller (number v) (number w))
      ⊎ (((compare_versions v w ≡ above) × Smaller (number w) (number v))
          ⊎ ((compare_versions v w ≡ level) × ((k : ℕ) → number v k ≡ number w k)))
unfolding compare_versions
compare_versions-cases v w =
    let ps = version_parts v in
    let qs = version_parts w in
    elim (compare_parts-cases ps qs 0 (max (length ps) (length qs))) [
      | inl c ↦ inl c
      | inr (inl c) ↦ inr (inl c)
      | inr (inr (r, same)) ↦ inr (
          inr (
            r,
            λ k. elim (Bool-cases (ltb k (max (length ps) (length qs)))) [
              | inl e ↦ same k (omega arith) (ground arith)
              | inr e ↦
                  let far : max (length ps) (length qs) ≤ k = ground arith in
                  part_number-beyond ps k (omega arith)
                  ∙ sym (part_number-beyond qs k (omega arith))
            ],
          ))
    ]

pub compare_versions-number :
    (v w : Text)
    → ((compare_versions v w ≡ below) ↔ Smaller (number v) (number w))
      × (((compare_versions v w ≡ above) ↔ Smaller (number w) (number v))
          × ((compare_versions v w ≡ level) ↔ ((k : ℕ) → number v k ≡ number w k)))
compare_versions-number v w =
    let f = number v in
    let g = number w in
    elim (compare_versions-cases v w) [
      | inl (r, d) ↦ (
        (λ _. d, λ _. r),
        (
          (λ e. cc, λ d'. absurd (Smaller-asymm f g d d')),
          (λ e. cc, λ same. absurd (Smaller-irrefl f g same d)),
        ),
      )
      | inr (inl (r, d)) ↦ (
        (λ e. cc, λ d'. absurd (Smaller-asymm f g d' d)),
        ((λ _. d, λ _. r), (λ e. cc, λ same. absurd (Smaller-irrefl g f (λ k. sym (same k)) d))),
      )
      | inr (inr (r, same)) ↦ (
        (λ e. cc, λ d. absurd (Smaller-irrefl f g same d)),
        ((λ e. cc, λ d. absurd (Smaller-irrefl g f (λ k. sym (same k)) d)), (λ _. same, λ _. r)),
      )
    ]
