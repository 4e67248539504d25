-- ===== src/Modules/Applicable.antt =====
-- `isCveApplicable` of modules/vuln_lookup/cpe.go against the meaning of the entries of a report.
use recon_sr.Base.{
  ◌≡◌, ◌↔◌, refl, sym, ◌∙◌, arith, Bool, true, false, not, ◌&&◌, List, [], ◌∷◌, Text, Memᴰ, any,
  any_iff, eq_text, eq_text_iff,
}
use recon_sr.Libs.{Libs}
use recon_sr.Modules.Ranges.{
  Version, Affected, status_affected, is_unknown, is_wildcard, evaluate_status, is_version_in_range,
  matches_product, any_version, any_product, is_cve_applicable,
}
use recon_sr.Modules.RangeSpec.{
  Decides, and-Decides, IsStatus, first_status, evaluate_status-IsStatus,
}
use recon_sr.Modules.InRange.{IsInRange, is_version_in_range-IsInRange}

module _ (lib : Libs) (legacy_matches : Text → List (Text × Text)) where
  -- An entry with a known version that covers the version, and that says "affected" of it.
  abbrev pub IsAffected : Text → Version → Type 0
  IsAffected target v =
      (is_unknown v.version ≡ false)
      × IsInRange lib legacy_matches target v
      × IsStatus target v.changes (first_status v) status_affected

  version_hit : Text → Version → Bool
  version_hit target v =
      not (is_unknown v.version)
      && (is_version_in_range lib legacy_matches target v
          && eq_text (evaluate_status target v) status_affected)

  version_hit-IsAffected :
      (target : Text) (v : Version) → Decides (version_hit target v) (IsAffected target v)
  unfolding version_hit
  version_hit-IsAffected target v =
      let range = is_version_in_range-IsInRange lib legacy_matches target v in
      let same = eq_text_iff (evaluate_status target v) status_affected in
      let status = evaluate_status-IsStatus target v status_affected in
      let later =
        and-Decides (is_version_in_range lib legacy_matches target v)
          (eq_text (evaluate_status target v) status_affected)
          (IsInRange lib legacy_matches target v)
          (IsStatus target v.changes (first_status v) status_affected) range
          (λ e. status.0 (same.0 e), λ s. same.1 (status.1 s)) in
      let known : Decides (not (is_unknown v.version)) (is_unknown v.version ≡ false) =
        (λ e. ground arith, λ e. ground arith) in
      let all =
        and-Decides (not (is_unknown v.version)) _ (is_unknown v.version ≡ false) _ known later in
      (λ h. let (k, (r, s)) = all.0 h in (k, r, s), λ (k, r, s). all.1 (k, (r, s)))

  any_version-hit :
      (target : Text) (vs : List Version)
      → any_version lib legacy_matches target vs ≡ any (version_hit target) vs
  unfolding any_version version_hit
  any_version-hit target [] = refl
  any_version-hit target (v ∷ vs) = ground (arith, any_version-hit target vs)

  product_hit : Text → Text → Affected → Bool
  product_hit product target a =
      matches_product lib product a && any_version lib legacy_matches target a.versions

  any_product-hit :
      (product target : Text) (affected : List Affected)
      → any_product lib legacy_matches product target affected
        ≡ any (product_hit product target) affected
  unfolding any_product product_hit
  any_product-hit product target [] = refl
  any_product-hit product target (a ∷ others) =
      ground (arith, any_product-hit product target others)

  -- A product of the report matches and has an entry that affects the version.
  abbrev pub IsHit : Text → Text → Affected → Type 0
  IsHit product target a =
      (matches_product lib product a ≡ true)
      × ((v : Version) × Memᴰ v a.versions × IsAffected target v)

  product_hit-IsHit :
      (product target : Text) (a : Affected)
      → Decides (product_hit product target a) (IsHit product target a)
  unfolding product_hit
  product_hit-IsHit product target a =
      let same = any_version-hit target a.versions in
      let found = any_iff (version_hit target) a.versions in
      let versions : Decides (any_version lib legacy_matches target a.versions)
          ((v : Version) × Memᴰ v a.versions × IsAffected target v) =
        (
          λ e.
              let (v, m, h) = found.0 (sym same ∙ e) in
              (v, m, (version_hit-IsAffected target v).0 h),
          λ (v, m, h). same ∙ found.1 (v, m, (version_hit-IsAffected target v).1 h),
        ) in
      and-Decides (matches_product lib product a) _ (matches_product lib product a ≡ true) _
        (λ e. e, λ e. e) versions

  -- A report applies to a specific version exactly when one of its products matches and has an
  -- entry that has a known version, has the version in its range, and says "affected" of it: the
  -- status of the last of its changes that is not newer than the version, or else its own status,
  -- or else "affected" if it states none.
  pub is_cve_applicable_iff :
      (product version : Text) (affected : List Affected)
      → is_wildcard version ≡ false
      → (is_cve_applicable lib legacy_matches product version affected ≡ true)
        ↔ ((a : Affected) × Memᴰ a affected × IsHit product version a)
  unfolding is_cve_applicable
  is_cve_applicable_iff product version affected specific =
      let same = any_product-hit product version affected in
      let found = any_iff (product_hit product version) affected in
      (
        λ h.
            let (a, m, e) = found.0 (sym same ∙ rw specific at h) in
            (a, m, (product_hit-IsHit product version a).0 e),
        λ (a, m, e). rw specific (same ∙ found.1 (a, m, (product_hit-IsHit product version a).1 e)),
      )
