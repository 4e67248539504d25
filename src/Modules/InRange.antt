-- ===== src/Modules/InRange.antt =====
-- `isVersionInRange` of modules/vuln_lookup/cpe.go against the meaning of the entries of a report.
use recon_sr.Base.{
  ℕ, ==_iff, ◌≡◌, ◌↔◌, ◌⊎◌, ◌==◌, inl, inr, refl, sym, subst, ◌∙◌, ap, arith, Bool, true, false,
  not, ◌&&◌, ◌||◌, List, [], ◌∷◌, Text, codes, Memᴰ, Bool-cases, eq_text, eq_text_iff, mem_text,
  mem_text_iff, if◌then◌else◌, ⊎_elim,
}
use recon_sr.Libs.{Libs}
use recon_sr.Strings.{has_prefix, is_empty}
use recon_sr.Strings.Ends.{first_is}
use recon_sr.Strings.Trim.{trim_space}
use recon_sr.Modules.Versions.{compare_versions, is_below, is_above}
use recon_sr.Modules.Ranges.{
  Version, normalize_start_bound, exceeds_upper_bounds, parse_legacy_version_string, is_between,
  is_in_range_from, is_version_in_range,
}
use recon_sr.Modules.RangeSpec.{
  Older, below-Older, above-Older, IsUnder, is_empty_iff, Decides, or-Decides, not-Decides,
  and-Decides, exceeds-IsUnder,
}

first_is_sound : (c : ℕ) (s : Text) → first_is c s ≡ true → (rest : Text) × (s ≡ c ∷ rest)
first_is_sound c [] h = cc
first_is_sound c (d ∷ s) h = (s, ap (λ x. x ∷ s) ((==_iff d c).0 h))

-- The words that stand for no lower bound.
abbrev pub open_starts : List Text
open_starts = [] ∷ codes "0" ∷ codes "unspecified" ∷ codes "any" ∷ codes "*" ∷ []

-- The lower bound that an entry's version stands for, empty if there is none.
abbrev pub IsStart : Text → Text → Type 0
IsStart version start =
    (Memᴰ version open_starts × (start ≡ [])) ⊎ (¬ Memᴰ version open_starts × (start ≡ version))

eq_text-swap : (a b : Text) → eq_text a b ≡ eq_text b a
eq_text-swap a b = ground (arith, eq_text_iff a b, eq_text_iff b a)

normalize-open : (s : Text) → normalize_start_bound s ≡ (if mem_text s open_starts then [] else s)
unfolding normalize_start_bound mem_text
normalize-open s = ground (
  arith,
  eq_text_iff [] s,
  eq_text-swap s (codes "0"),
  eq_text-swap s (codes "unspecified"),
  eq_text-swap s (codes "any"),
  eq_text-swap s (codes "*"),
)

normalize-IsStart : (s start : Text) → (start ≡ normalize_start_bound s) ↔ IsStart s start
normalize-IsStart s start = elim (Bool-cases (mem_text s open_starts)) [
  | inl e ↦
      let m = (mem_text_iff s open_starts).0 e in
      let same : normalize_start_bound s ≡ [] = normalize-open s ∙ rw e refl in
      (λ h. inl (m, h ∙ same), ⊎_elim (λ (m', h). h ∙ sym same) (λ (n, h). absurd (n m)))
  | inr e ↦
      let n : ¬ Memᴰ s open_starts = λ m. let f = (mem_text_iff s open_starts).1 m in cc in
      let same : normalize_start_bound s ≡ s = normalize-open s ∙ rw e refl in
      (λ h. inr (n, h ∙ same), ⊎_elim (λ (m, h). absurd (n m)) (λ (n', h). h ∙ sym same))
]

module _ (lib : Libs) (legacy_matches : Text → List (Text × Text)) where
  -- The range of an entry that does not begin with "<": the versions from its start on and under
  -- its upper bounds. If it has a start that is not the version itself and no upper bound, then
  -- the words of its text must cover the version.
  pub record IsBetween (target start : Text) (v : Version) : Type 0 where
    pub from : (start ≡ []) ⊎ ¬ Older target start
    pub under : IsUnder target v
    pub settled :
        (start ≡ [])
        ⊎ (start ≡ target)
        ⊎ (¬ ((v.less_than ≡ []) × (v.less_than_or_equal ≡ [])))
        ⊎ (parse_legacy_version_string lib legacy_matches target v.version ≡ true)

  between-tests :
      (e b x s l l' t : Bool)
      → (if not e && b
          then false
          else if x
          then false
          else if not e && not s && l && l'
          then t
          else true)
        ≡ ((e || not b) && (not x && (e || (s || (not (l && l') || t)))))
  between-tests e b x s l l' t = ground arith

  is_between-IsBetween :
      (target start : Text) (v : Version)
      → Decides (is_between lib legacy_matches target start v) (IsBetween target start v)
  unfolding is_between
  is_between-IsBetween target start v =
      let e = is_empty start in
      let b = is_below (compare_versions target start) in
      let legacy = parse_legacy_version_string lib legacy_matches target v.version in
      let bounded =
        not-Decides (is_empty v.less_than && is_empty v.less_than_or_equal)
          ((v.less_than ≡ []) × (v.less_than_or_equal ≡ []))
          (and-Decides (is_empty v.less_than) (is_empty v.less_than_or_equal) (v.less_than ≡ [])
            (v.less_than_or_equal ≡ []) (is_empty_iff v.less_than)
            (is_empty_iff v.less_than_or_equal)) in
      let from =
        or-Decides e (not b) (start ≡ []) (¬ Older target start) (is_empty_iff start)
          (not-Decides b (Older target start) (below-Older target start)) in
      let settled = or-Decides e _ (start ≡ []) _ (is_empty_iff start) (
        or-Decides (eq_text start target) _ (start ≡ target) _ (eq_text_iff start target) (
          or-Decides (not (is_empty v.less_than && is_empty v.less_than_or_equal)) legacy
            (¬ ((v.less_than ≡ []) × (v.less_than_or_equal ≡ []))) (legacy ≡ true) bounded
            (λ h. h, λ h. h))) in
      let rest =
        and-Decides (not (exceeds_upper_bounds target v)) _ (IsUnder target v) _
          (exceeds-IsUnder target v) settled in
      let all = and-Decides (e || not b) _ ((start ≡ []) ⊎ ¬ Older target start) _ from rest in
      let same =
        between-tests e b (exceeds_upper_bounds target v) (eq_text start target)
          (is_empty v.less_than) (is_empty v.less_than_or_equal) legacy in
      (
        λ h. let (f, (u, s)) = all.0 (sym same ∙ h) in record { from = f; under = u; settled = s },
        λ i. same ∙ all.1 (i.from, (i.under, i.settled)),
      )

  -- The versions that an entry with the given start covers.
  pub data IsInRangeFrom (target start : Text) (v : Version) : Type 0 where
    up_to :
        (bound : Text)
        → start ≡ b'<' ∷ b'=' ∷ bound
        → ¬ Older (trim_space bound) target
        → IsInRangeFrom target start v
    less_than :
        (bound : Text)
        → start ≡ b'<' ∷ bound
        → first_is b'=' bound ≡ false
        → Older target (trim_space bound)
        → IsInRangeFrom target start v
    between : first_is b'<' start ≡ false → IsBetween target start v → IsInRangeFrom target start v

  start-cases :
      (s : Text)
      → ((b : Text) × (s ≡ b'<' ∷ b'=' ∷ b))
        ⊎ ((b : Text) × (s ≡ b'<' ∷ b) × (first_is b'=' b ≡ false))
        ⊎ (first_is b'<' s ≡ false)
  start-cases [] = inr (inr refl)
  start-cases (c ∷ s) = elim (Bool-cases (c == b'<')) [
    | inr e ↦ inr (inr e)
    | inl e ↦ elim (Bool-cases (first_is b'=' s)) [
      | inr f ↦ inr (inl (s, ap (λ x. x ∷ s) ((==_iff c b'<').0 e), f))
      | inl f ↦
          let (b, g) = first_is_sound b'=' s f in
          inl (b, ap (λ x. x ∷ s) ((==_iff c b'<').0 e) ∙ ap (λ t. b'<' ∷ t) g)
    ]
  ]

  from-up_to :
      (target bound : Text) (v : Version)
      → is_in_range_from lib legacy_matches target (b'<' ∷ b'=' ∷ bound) v
        ≡ not (is_above (compare_versions target (trim_space bound)))
  unfolding is_in_range_from has_prefix
  from-up_to target bound v = refl

  from-less_than :
      (target bound : Text) (v : Version)
      → first_is b'=' bound ≡ false
      → is_in_range_from lib legacy_matches target (b'<' ∷ bound) v
        ≡ is_below (compare_versions target (trim_space bound))
  unfolding is_in_range_from has_prefix
  from-less_than target [] v h = refl
  from-less_than target (c ∷ bound) v h = rw h refl

  from-between :
      (target start : Text) (v : Version)
      → first_is b'<' start ≡ false
      → is_in_range_from lib legacy_matches target start v
        ≡ is_between lib legacy_matches target start v
  unfolding is_in_range_from has_prefix
  from-between target [] v h = refl
  from-between target (c ∷ start) v h = rw h refl

  is_in_range_from-IsInRangeFrom :
      (target start : Text) (v : Version)
      → Decides (is_in_range_from lib legacy_matches target start v) (IsInRangeFrom target start v)
  is_in_range_from-IsInRangeFrom target start v = (
    λ h. elim (start-cases start) [
      | inl (b, e) ↦ up_to b e (
          (not-Decides (is_above (compare_versions target (trim_space b)))
              (Older (trim_space b) target) (above-Older target (trim_space b))).0
            (sym (from-up_to target b v)
              ∙ subst (λ s. is_in_range_from lib legacy_matches target s v ≡ true) e h))
      | inr (inl (b, e, f)) ↦ less_than b e f (
          (below-Older target (trim_space b)).0 (
            sym (from-less_than target b v f)
            ∙ subst (λ s. is_in_range_from lib legacy_matches target s v ≡ true) e h))
      | inr (inr f) ↦
          between f
            ((is_between-IsBetween target start v).0 (sym (from-between target start v f) ∙ h))
    ],
    λ i. elim i [
      | up_to b e n ↦
          subst (λ s. is_in_range_from lib legacy_matches target s v ≡ true) (sym e)
            (from-up_to target b v
              ∙ (not-Decides (is_above (compare_versions target (trim_space b)))
                    (Older (trim_space b) target) (above-Older target (trim_space b))).1
                  n)
      | less_than b e f o ↦
          subst (λ s. is_in_range_from lib legacy_matches target s v ≡ true) (sym e)
            (from-less_than target b v f ∙ (below-Older target (trim_space b)).1 o)
      | between f i' ↦ from-between target start v f ∙ (is_between-IsBetween target start v).1 i'
    ],
  )

  -- The versions that an entry covers.
  abbrev pub IsInRange : Text → Version → Type 0
  IsInRange target v = (start : Text) × IsStart v.version start × IsInRangeFrom target start v

  -- A version is in the range of an entry exactly in these cases. An entry whose start is "<=" or
  -- "<" and a bound covers the versions up to the bound, with it or without it. Any other entry
  -- covers the versions that are not older than its start, that are older than its "lessThan" and
  -- not newer than its "lessThanOrEqual", where these are given; if it has a start that is not the
  -- version itself and no upper bound, the words of its text must cover the version as well. An
  -- empty version, "0", "unspecified", "any" and "*" are no start. "Older" is the order of the
  -- sequences of numbers.
  pub is_version_in_range-IsInRange :
      (target : Text) (v : Version)
      → (is_version_in_range lib legacy_matches target v ≡ true) ↔ IsInRange target v
  unfolding is_version_in_range
  is_version_in_range-IsInRange target v =
      let start = normalize_start_bound v.version in
      (
        λ h. (
          start,
          (normalize-IsStart v.version start).0 refl,
          (is_in_range_from-IsInRangeFrom target start v).0 h,
        ),
        λ (s, at, i).
            (is_in_range_from-IsInRangeFrom target start v).1
              (subst (λ t. IsInRangeFrom target t v) ((normalize-IsStart v.version s).1 at) i),
      )
