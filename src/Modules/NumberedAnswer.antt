-- ===== src/Modules/NumberedAnswer.antt =====
-- The answers of modules/vuln_lookup as wholes keep the numbering of the results: the record of
-- one vulnerability (cve.go), and the pages of those of a software (cpe.go).
use recon_sr.Base.{
  ℕ, refl, inl, inr, is_some, Bool-cases, Option-cases, Bool, List, [], ◌∷◌, Option, none, some,
  codes, eq_text, length, ltb, if◌then◌else◌, ◌||◌, ◌&&◌, not, ◌++◌,
}
use recon_sr.Schema.{EntityRef, InputResult}
use recon_sr.Strings.{is_empty}
use recon_sr.Strings.Trim.{trim_space, fields}
use recon_sr.Strings.Split.{join}
use recon_sr.Modules.Advisory.{
  Description, EpssData, UniversalCvss, Metric, NvdMetrics, NvdData, VulnLookupMeta, Adp,
  CveResponse,
}
use recon_sr.Modules.Writing.{property_result}
use recon_sr.Modules.Extract.{
  Tools, each, add_unless_empty, extract_cpes, extract_problem_types, extract_nvd_weaknesses,
  extract_other_metric, append_cvss, extract_exploits, extract_metrics_from, extract_metrics,
  extract_nvd_metrics, format_as_percentage, cwe_ids, nvd_values, is_valid_cwe, matches_of,
  nodes_of, has_cwe_results,
}
use recon_sr.Modules.Cve.{
  published_day, add_english, add_title, add_published, add_epss, extract_epss, add_nvd,
  extract_nvd, extract_vuln_lookup_meta, extract_adp, extract_cna, extract_cve_results,
}
use recon_sr.Modules.NumberedCve.{
  Keeps, if_Keeps, both_keep, put_result-Keeps, add_unless_empty-Keeps, each-Keeps,
  extract_criteria-Keeps, extract_exploits-Keeps, extract_weaknesses-Keeps,
  extract_other_metric-Keeps,
}

module _ {F : Type 0} (tools : Tools F) (first : ℕ) (source : Option EntityRef) where
  append_cvss-Keeps :
      (version : F) (cvss : UniversalCvss F)
      → Keeps first source (append_cvss tools source version cvss)
  unfolding append_cvss
  append_cvss-Keeps version cvss =
      put_result-Keeps first source
        (record (property_result (codes "cvss")
          (cvss.base_severity
            ++ codes " / "
            ++ cvss.vector_string
            ++ codes " / "
            ++ tools.one_decimal cvss.base_score)
          source) { context = codes "CVSS " ++ tools.one_decimal version })
        refl

  extract_metrics_from-Keeps :
      (version : F) (best : Option (UniversalCvss F)) (metrics : List (Metric F))
      → Keeps first source (extract_metrics_from tools source version best metrics)
  unfolding extract_metrics_from
  extract_metrics_from-Keeps version none [] w n k = (n, k)
  extract_metrics_from-Keeps version (some cvss) [] w n k = append_cvss-Keeps version cvss w n k
  extract_metrics_from-Keeps version best (m ∷ ms) w n k = elim (Option-cases m.other) [
    | inl e ↦ rw e (
        extract_metrics_from-Keeps
          (if is_some m.best_cvss && tools.greater m.best_cvss_version version
            then m.best_cvss_version
            else version)
          (if is_some m.best_cvss && tools.greater m.best_cvss_version version
            then m.best_cvss
            else best)
          ms w n k)
    | inr (other, e) ↦
        let (n', k') = extract_other_metric-Keeps first source other w n k in
        rw e
          (extract_metrics_from-Keeps version best ms (extract_other_metric source other w) n' k')
  ]

  extract_nvd_metrics-Keeps :
      (metrics : NvdMetrics F) → Keeps first source (extract_nvd_metrics tools source metrics)
  unfolding extract_nvd_metrics
  extract_nvd_metrics-Keeps metrics w n k = elim (Option-cases metrics.best_cvss) [
    | inl e ↦ rw e (n, k)
    | inr (cvss, e) ↦ rw e (append_cvss-Keeps metrics.best_cvss_version cvss w n k)
  ]

  add_english-Keeps : (descs : List Description) → Keeps first source (add_english source descs)
  unfolding add_english
  add_english-Keeps [] w n k = (n, k)
  add_english-Keeps (desc ∷ descs) w n k =
      elim (Bool-cases (eq_text desc.lang (codes "en") || eq_text desc.lang (codes "en-US"))) [
        | inl e ↦ rw e (
            put_result-Keeps first source
              (property_result (codes "summary") (join b' ' (fields desc.value)) source) refl w n k)
        | inr e ↦ rw e (add_english-Keeps descs w n k)
      ]

  extract_epss-Keeps :
      (epss : Option EpssData) → Keeps first source (extract_epss tools source epss)
  unfolding extract_epss add_epss
  extract_epss-Keeps none w n k = (n, k)
  extract_epss-Keeps (some epss) w n k =
      let e : InputResult =
        property_result (codes "epss") (format_as_percentage tools epss.epss) source in
      let p : InputResult =
        property_result (codes "ranking_epss") (format_as_percentage tools epss.percentile)
          source in
      both_keep first source (add_unless_empty epss.epss e) (add_unless_empty epss.percentile p)
        (add_unless_empty-Keeps first source epss.epss e refl)
        (add_unless_empty-Keeps first source epss.percentile p refl) w n k

  extract_nvd-Keeps :
      (has_cna_metrics has_cna_cwe : Bool) (nvd : Option (NvdData F))
      → Keeps first source (extract_nvd tools source has_cna_metrics has_cna_cwe nvd)
  unfolding extract_nvd add_nvd extract_nvd_weaknesses
  extract_nvd-Keeps has_cna_metrics has_cna_cwe none w n k = (n, k)
  extract_nvd-Keeps has_cna_metrics has_cna_cwe (some d) w n k =
      both_keep first source
        (λ w. if has_cna_metrics then w else extract_nvd_metrics tools source d.metrics w)
        (λ w. if has_cna_cwe then w else extract_nvd_weaknesses tools source d.weaknesses w)
        (if_Keeps first source has_cna_metrics (extract_nvd_metrics tools source d.metrics)
          (extract_nvd_metrics-Keeps d.metrics))
        (if_Keeps first source has_cna_cwe (extract_nvd_weaknesses tools source d.weaknesses)
          (extract_weaknesses-Keeps first source tools is_valid_cwe [] (nvd_values d.weaknesses)))
        w n k

  extract_vuln_lookup_meta-Keeps :
      (has_cna_metrics has_cna_cwe : Bool) (meta : Option VulnLookupMeta)
      → Keeps first source (extract_vuln_lookup_meta tools source has_cna_metrics has_cna_cwe meta)
  unfolding extract_vuln_lookup_meta
  extract_vuln_lookup_meta-Keeps has_cna_metrics has_cna_cwe none w n k = (n, k)
  extract_vuln_lookup_meta-Keeps has_cna_metrics has_cna_cwe (some meta) w n k =
      both_keep first source (extract_epss tools source meta.epss)
        (λ w.
          if is_empty meta.nvd
          then w
          else extract_nvd tools source has_cna_metrics has_cna_cwe (tools.parse_nvd meta.nvd) w)
        (extract_epss-Keeps meta.epss)
        (if_Keeps first source (is_empty meta.nvd)
          (extract_nvd tools source has_cna_metrics has_cna_cwe (tools.parse_nvd meta.nvd))
          (extract_nvd-Keeps has_cna_metrics has_cna_cwe (tools.parse_nvd meta.nvd)))
        w n k

  extract_adp-Keeps : (adp : Adp F) → Keeps first source (extract_adp tools source adp)
  unfolding extract_adp extract_metrics extract_problem_types
  extract_adp-Keeps adp =
      both_keep first source (extract_problem_types tools source adp.problem_types)
        (extract_metrics tools source adp.metrics)
        (extract_weaknesses-Keeps first source tools (λ id. not (is_empty id)) []
          (cwe_ids adp.problem_types))
        (extract_metrics_from-Keeps tools.zero none adp.metrics)

  extract_cna-Keeps : (resp : CveResponse F) → Keeps first source (extract_cna tools source resp)
  unfolding extract_cna add_published add_title extract_metrics extract_problem_types extract_cpes
  extract_cna-Keeps resp w n k =
      let date = resp.cve_metadata.date_published in
      let (n1, k1) =
        add_unless_empty-Keeps first source date
          (property_result (codes "date") (codes "Published: " ++ published_day tools date) source)
          refl w n k in
      let w1 = add_published tools source date w in
      let (n2, k2) =
        add_unless_empty-Keeps first source resp.cna.title
          (property_result (codes "description") (trim_space resp.cna.title) source) refl w1 n1
          k1 in
      let w2 = add_title source resp.cna.title w1 in
      let (n3, k3) = add_english-Keeps resp.cna.descriptions w2 n2 k2 in
      let w3 = add_english source resp.cna.descriptions w2 in
      let (n4, k4) = extract_exploits-Keeps first source tools [] resp.cna.references w3 n3 k3 in
      let w4 = extract_exploits tools source [] resp.cna.references w3 in
      let (n5, k5) =
        extract_weaknesses-Keeps first source tools (λ id. not (is_empty id)) []
          (cwe_ids resp.cna.problem_types) w4 n4 k4 in
      let w5 = extract_problem_types tools source resp.cna.problem_types w4 in
      let (n6, k6) = extract_metrics_from-Keeps tools.zero none resp.cna.metrics w5 n5 k5 in
      let w6 = extract_metrics tools source resp.cna.metrics w5 in
      extract_criteria-Keeps first source [] (matches_of (nodes_of resp.cna.cpe_applicability)) w6
        n6 k6

  pub extract_cve_results-Keeps :
      (resp : CveResponse F) → Keeps first source (extract_cve_results tools source resp)
  unfolding extract_cve_results
  extract_cve_results-Keeps resp w n k =
      let (n1, k1) = extract_cna-Keeps resp w n k in
      let w1 = extract_cna tools source resp w in
      let (n2, k2) =
        each-Keeps first source (extract_adp tools source) extract_adp-Keeps resp.adp w1 n1 k1 in
      extract_vuln_lookup_meta-Keeps (ltb 0 (length resp.cna.metrics))
        (has_cwe_results resp.cna.problem_types) resp.meta
        (each (extract_adp tools source) resp.adp w1) n2 k2
