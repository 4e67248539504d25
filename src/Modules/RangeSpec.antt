-- ===== src/Modules/RangeSpec.antt =====
-- What an entry of a vulnerability report means, in terms of the order of versions: the versions
-- in its range and the status of a version, for modules/vuln_lookup/cpe.go.
use recon_sr.Base.{
  ◌≡◌, ◌↔◌, ◌⊎◌, inl, inr, refl, sym, subst, ◌∙◌, ap, arith, Bool, true, false, not, ◌&&◌, ◌||◌,
  List, [], ◌∷◌, ◌++◌, Text, All, and_true, or_true, Bool-cases, if◌then◌else◌, ⊎_elim,
}
use recon_sr.Strings.{is_empty}
use recon_sr.Modules.Versions.{
  Comparison, below, level, above, compare_versions, is_below, is_above,
}
use recon_sr.Modules.VersionOrder.{number, Smaller, compare_versions-number}
use recon_sr.Modules.Ranges.{
  Change, Version, status_affected, exceeds_upper_bounds, evaluate_changes, evaluate_status,
}

-- The first version is older than the second.
abbrev pub Older : Text → Text → Type 0
Older v w = Smaller (number v) (number w)

is_below_iff : (c : Comparison) → (is_below c ≡ true) ↔ (c ≡ below)
is_below_iff below = (λ e. refl, λ h. refl)
is_below_iff level = (λ e. cc, λ h. cc)
is_below_iff above = (λ e. cc, λ h. cc)

is_above_iff : (c : Comparison) → (is_above c ≡ true) ↔ (c ≡ above)
is_above_iff below = (λ e. cc, λ h. cc)
is_above_iff level = (λ e. cc, λ h. cc)
is_above_iff above = (λ e. refl, λ h. refl)

pub below-Older : (v w : Text) → (is_below (compare_versions v w) ≡ true) ↔ Older v w
below-Older v w =
    let c = is_below_iff (compare_versions v w) in
    let d = (compare_versions-number v w).0 in (λ e. d.0 (c.0 e), λ o. c.1 (d.1 o))

pub above-Older : (v w : Text) → (is_above (compare_versions v w) ≡ true) ↔ Older w v
above-Older v w =
    let c = is_above_iff (compare_versions v w) in
    let d = (compare_versions-number v w).1.0 in (λ e. d.0 (c.0 e), λ o. c.1 (d.1 o))

-- The bounds "lessThan" (which the range excludes) and "lessThanOrEqual" (which it includes), each
-- where it is given.
pub record IsUnder (target : Text) (v : Version) : Type 0 where
  pub strictly : (v.less_than ≡ []) ⊎ Older target v.less_than
  pub at_most : (v.less_than_or_equal ≡ []) ⊎ ¬ Older v.less_than_or_equal target

pub is_empty_iff : (s : Text) → (is_empty s ≡ true) ↔ (s ≡ [])
is_empty_iff [] = (λ e. refl, λ h. refl)
is_empty_iff (c ∷ s) = (λ e. cc, λ h. cc)

-- A test decides a statement; the tests of two statements combine.
abbrev pub Decides : Bool → Type 0 → Type 0
Decides b P = (b ≡ true) ↔ P

pub or-Decides : (a b : Bool) (P Q : Type 0) → Decides a P → Decides b Q → Decides (a || b) (P ⊎ Q)
or-Decides a b P Q p q = (
  λ e. ⊎_elim (λ h. inl (p.0 h)) (λ h. inr (q.0 h)) ((or_true a b).0 e),
  λ d. (or_true a b).1 (⊎_elim (λ h. inl (p.1 h)) (λ h. inr (q.1 h)) d),
)

pub not-Decides : (a : Bool) (P : Type 0) → Decides a P → Decides (not a) (¬ P)
not-Decides true P p = (λ e h. cc, λ n. absurd (n (p.0 refl)))
not-Decides false P p = (λ e h. let f = p.1 h in cc, λ n. refl)

pub and-Decides : (a b : Bool) (P Q : Type 0) → Decides a P → Decides b Q → Decides (a && b) (P × Q)
and-Decides a b P Q p q = (
  λ e. let (h, k) = (and_true a b).0 e in (p.0 h, q.0 k),
  λ (h, k). (and_true a b).1 (p.1 h, q.1 k),
)

exceeds-tests :
    (e b e' a : Bool)
    → (if not e && not b then true else not e' && a) ≡ not ((e || b) && (e' || not a))
exceeds-tests e b e' a = ground arith

pub exceeds-IsUnder :
    (target : Text) (v : Version) → Decides (not (exceeds_upper_bounds target v)) (IsUnder target v)
unfolding exceeds_upper_bounds
exceeds-IsUnder target v =
    let strict = below-Older target v.less_than in
    let most = above-Older target v.less_than_or_equal in
    let left =
      or-Decides (is_empty v.less_than) (is_below (compare_versions target v.less_than))
        (v.less_than ≡ []) (Older target v.less_than) (is_empty_iff v.less_than) strict in
    let right =
      or-Decides (is_empty v.less_than_or_equal)
        (not (is_above (compare_versions target v.less_than_or_equal))) (v.less_than_or_equal ≡ [])
        (¬ Older v.less_than_or_equal target) (is_empty_iff v.less_than_or_equal)
        (not-Decides (is_above (compare_versions target v.less_than_or_equal))
          (Older v.less_than_or_equal target) most) in
    let both =
      and-Decides (is_empty v.less_than || is_below (compare_versions target v.less_than))
        (is_empty v.less_than_or_equal
          || not (is_above (compare_versions target v.less_than_or_equal)))
        ((v.less_than ≡ []) ⊎ Older target v.less_than)
        ((v.less_than_or_equal ≡ []) ⊎ ¬ Older v.less_than_or_equal target) left right in
    let same = ap not (
      exceeds-tests (is_empty v.less_than) (is_below (compare_versions target v.less_than))
        (is_empty v.less_than_or_equal)
        (is_above (compare_versions target v.less_than_or_equal))) in
    (
      λ e. let (a, b) = both.0 (ground arith) in record { strictly = a; at_most = b },
      λ u. let f = both.1 (u.strictly, u.at_most) in ground arith,
    )

-- The status that the last change reached gives, and the first one if no change is reached.
pub data IsStatus (target : Text) (changes : List Change) (first status : Text) : Type 0 where
  unchanged :
      All (λ (c : Change). Older target c.at) changes
      → status ≡ first
      → IsStatus target changes first status
  changed :
      (before : List Change) (c : Change) (after : List Change)
      → changes ≡ before ++ c ∷ after
      → ¬ Older target c.at
      → All (λ (d : Change). Older target d.at) after
      → status ≡ c.status
      → IsStatus target changes first status

prepend-IsStatus :
    (target : Text) (c : Change) (cs : List Change) (first status : Text)
    → Older target c.at
    → IsStatus target cs first status
    → IsStatus target (c ∷ cs) first status
prepend-IsStatus target c cs first status o (unchanged all e) = unchanged (o, all) e
prepend-IsStatus target c cs first status o (changed before d after e n all s) =
    changed (c ∷ before) d after (ap (λ ds. c ∷ ds) e) n all s

replaced-IsStatus :
    (target : Text) (c : Change) (cs : List Change) (first status : Text)
    → ¬ Older target c.at
    → IsStatus target cs c.status status
    → IsStatus target (c ∷ cs) first status
replaced-IsStatus target c cs first status n (unchanged all e) = changed [] c cs refl n all e
replaced-IsStatus target c cs first status n (changed before d after e n' all s) =
    changed (c ∷ before) d after (ap (λ ds. c ∷ ds) e) n' all s

pub evaluate_changes-IsStatus :
    (target : Text) (changes : List Change) (first : Text)
    → IsStatus target changes first (evaluate_changes target changes first)
unfolding evaluate_changes
evaluate_changes-IsStatus target [] first = unchanged tt refl
evaluate_changes-IsStatus target (c ∷ cs) first =
    let older = below-Older target c.at in
    elim (Bool-cases (is_below (compare_versions target c.at))) [
      | inl e ↦ rw e (
          prepend-IsStatus target c cs first (evaluate_changes target cs first) (older.0 e)
            (evaluate_changes-IsStatus target cs first))
      | inr e ↦ rw e (
          replaced-IsStatus target c cs first (evaluate_changes target cs c.status)
            (λ o. let f = older.1 o in cc) (evaluate_changes-IsStatus target cs c.status))
    ]

evaluate_changes-unchanged :
    (target : Text) (changes : List Change) (first : Text)
    → All (λ (c : Change). Older target c.at) changes
    → evaluate_changes target changes first ≡ first
unfolding evaluate_changes
evaluate_changes-unchanged target [] first all = refl
evaluate_changes-unchanged target (c ∷ cs) first (o, all) =
    rw ((below-Older target c.at).1 o) (evaluate_changes-unchanged target cs first all)

evaluate_changes-reached :
    (target : Text) (after : List Change) (c : Change) (first : Text)
    → ¬ Older target c.at
    → All (λ (d : Change). Older target d.at) after
    → evaluate_changes target (c ∷ after) first ≡ c.status
unfolding evaluate_changes
evaluate_changes-reached target after c first n all =
    elim (Bool-cases (is_below (compare_versions target c.at))) [
      | inl e ↦ absurd (n ((below-Older target c.at).0 e))
      | inr e ↦ rw e (evaluate_changes-unchanged target after c.status all)
    ]

evaluate_changes-changed :
    (target : Text) (before after : List Change) (c : Change) (first : Text)
    → ¬ Older target c.at
    → All (λ (d : Change). Older target d.at) after
    → evaluate_changes target (before ++ c ∷ after) first ≡ c.status
unfolding evaluate_changes
evaluate_changes-changed target [] after c first n all =
    evaluate_changes-reached target after c first n all
evaluate_changes-changed target (d ∷ before) after c first n all =
    evaluate_changes-changed target before after c _ n all

-- What `evaluateStatus` starts with.
abbrev pub first_status : Version → Text
first_status v = if is_empty v.status then status_affected else v.status

pub evaluate_status-IsStatus :
    (target : Text) (v : Version) (status : Text)
    → (evaluate_status target v ≡ status) ↔ IsStatus target v.changes (first_status v) status
unfolding evaluate_status
evaluate_status-IsStatus target v status = (
  λ e.
      subst (IsStatus target v.changes (first_status v)) e
        (evaluate_changes-IsStatus target v.changes (first_status v)),
  λ s. elim s [
    | unchanged all e ↦ evaluate_changes-unchanged target v.changes (first_status v) all ∙ sym e
    | changed before c after e n all e' ↦
        ap (λ cs. evaluate_changes target cs (first_status v)) e
        ∙ evaluate_changes-changed target before after c (first_status v) n all
        ∙ sym e'
  ],
)
