-- ===== src/Modules/Ranges.antt =====
-- Which versions an entry of a vulnerability report covers: `isVersionInRange`, `evaluateStatus`
-- and `isCveApplicable` of modules/vuln_lookup/cpe.go, with the types of types.go. What the regular
-- expression `legacyBoundRe` finds in a text is a parameter: each match is the matched text and
-- the bound in it, which the expression makes non-empty.
use recon_sr.Base.{
  ℕ, Bool, true, false, not, ◌&&◌, ◌||◌, List, [], ◌∷◌, Text, codes, drop, any, eq_text,
  if◌then◌else◌,
}
use recon_sr.Libs.{Libs}
use recon_sr.Strings.{has_prefix, contains, to_lower, replace_byte, is_empty}
use recon_sr.Strings.Trim.{trim_space}
use recon_sr.Strings.Split.{split}
use recon_sr.Modules.Versions.{compare_versions, is_below, is_above}

pub record Change : Type 0 where
  pub at : Text
  pub status : Text

pub record Version : Type 0 where
  pub version : Text
  pub status : Text
  pub version_type : Text
  pub less_than : Text
  pub less_than_or_equal : Text
  pub changes : List Change

pub record Affected : Type 0 where
  pub vendor : Text
  pub product : Text
  pub default_status : Text
  pub versions : List Version

abbrev pub status_affected : Text
status_affected = codes "affected"

-- `ValueNA` and `ValueUnknown`.
unfoldable pub is_unknown : Text → Bool
is_unknown s = eq_text s (codes "n/a") || eq_text s (codes "unknown")

-- The wildcards that stand for no specific version.
unfoldable pub is_wildcard : Text → Bool
is_wildcard s = is_empty s || eq_text s (codes "*") || eq_text s (codes "-")

unfoldable pub version_index : Text → ℕ
version_index cpe = if has_prefix cpe (codes "cpe:2.3:") then 5 else 4

unfoldable pub is_valid_specific_cpe : Text → Bool
is_valid_specific_cpe cpe =
    let rest = drop (version_index cpe) (split b':' cpe) in
    if not (has_prefix cpe (codes "cpe:"))
    then false
    else elim rest [ [] ↦ false | version ∷ _ ↦ not (is_wildcard version) ]

unfoldable pub normalize_start_bound : Text → Text
normalize_start_bound start =
    if eq_text start (codes "0")
      || eq_text start (codes "unspecified")
      || eq_text start (codes "any")
      || eq_text start (codes "*")
    then []
    else start

unfoldable pub exceeds_upper_bounds : Text → Version → Bool
exceeds_upper_bounds target v =
    if not (is_empty v.less_than) && not (is_below (compare_versions target v.less_than))
    then true
    else not (is_empty v.less_than_or_equal)
      && is_above (compare_versions target v.less_than_or_equal)

unfoldable pub evaluate_changes : Text → List Change → Text → Text
evaluate_changes target [] current = current
evaluate_changes target (c ∷ cs) current =
    evaluate_changes target cs
      (if not (is_below (compare_versions target c.at)) then c.status else current)

unfoldable pub evaluate_status : Text → Version → Text
unfolding evaluate_changes
evaluate_status target v =
    evaluate_changes target v.changes (if is_empty v.status then status_affected else v.status)

-- The first part of `strings.Split` at a pattern that is not empty.
unfoldable pub before_first : Text → Text → Text
before_first [] p = []
before_first (c ∷ s) p =
    let rest = before_first s p in if has_prefix (c ∷ s) p then [] else c ∷ rest

unfoldable pub matches_product : Libs → Text → Affected → Bool
matches_product lib target_product affected =
    let product = to_lower lib affected.product in
    let normalized = replace_byte b'_' 32 product in
    contains normalized (replace_byte b'_' 32 target_product)
    || contains normalized target_product
    || is_unknown product

module _ (lib : Libs) (legacy_matches : Text → List (Text × Text)) where
  unfoldable pub under_legacy_bound : Text → Text × Text → Bool
  under_legacy_bound target (matched, bound) =
      let operator = to_lower lib (trim_space (before_first matched bound)) in
      if contains operator (codes "before")
        || (contains operator (codes "<") && not (contains operator (codes "=")))
      then is_below (compare_versions target bound)
      else not (is_above (compare_versions target bound))

  unfoldable pub parse_legacy_version_string : Text → Text → Bool
  parse_legacy_version_string target text =
      if not (is_empty target) && contains text target
      then true
      else any (under_legacy_bound target) (legacy_matches text)

  -- The test of an entry whose version does not begin with "<".
  unfoldable pub is_between : Text → Text → Version → Bool
  is_between target start v =
      if not (is_empty start) && is_below (compare_versions target start)
      then false
      else if exceeds_upper_bounds target v
      then false
      else if not (is_empty start)
          && not (eq_text start target)
          && is_empty v.less_than
          && is_empty v.less_than_or_equal
      then parse_legacy_version_string target v.version
      else true

  unfoldable pub is_in_range_from : Text → Text → Version → Bool
  is_in_range_from target start v =
      if has_prefix start (codes "<=")
      then not (is_above (compare_versions target (trim_space (drop 2 start))))
      else if has_prefix start (codes "<")
      then is_below (compare_versions target (trim_space (drop 1 start)))
      else is_between target start v

  unfoldable pub is_version_in_range : Text → Version → Bool
  is_version_in_range target v = is_in_range_from target (normalize_start_bound v.version) v

  -- The inner loop, which stops at the first entry that covers the version.
  unfoldable pub any_version : Text → List Version → Bool
  any_version target [] = false
  any_version target (v ∷ vs) =
      let rest = any_version target vs in
      if is_unknown v.version
      then rest
      else if is_version_in_range target v
      then (if eq_text (evaluate_status target v) status_affected then true else rest)
      else rest

  -- The outer loop. The flags that the code sets beside it decide nothing: it returns false
  -- whatever they are.
  unfoldable pub any_product : Text → Text → List Affected → Bool
  any_product target_product target_version [] = false
  any_product target_product target_version (a ∷ others) =
      let rest = any_product target_product target_version others in
      if not (matches_product lib target_product a)
      then rest
      else if any_version target_version a.versions
      then true
      else rest

  unfoldable pub is_cve_applicable : Text → Text → List Affected → Bool
  is_cve_applicable target_product target_version affected =
      if is_wildcard target_version
      then true
      else any_product target_product target_version affected
