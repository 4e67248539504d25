-- ===== src/Modules/Cve.antt =====
-- `extractCVEResults`, `parseCVEResponse` and `enrichCirclCVE` of modules/vuln_lookup/cve.go. What
-- the service answers, and what JSON decoding makes of it, are parameters. Not modelled: the demo
-- data.
use recon_sr.Base.{
  ◌++◌, Bool, true, not, ◌||◌, List, [], ◌∷◌, Option, none, some, Text, codes, length, ltb, eq_text,
  mem_text, if◌then◌else◌,
}
use recon_sr.Schema.{EntityRef}
use recon_sr.Strings.{is_empty}
use recon_sr.Strings.Trim.{trim_space, fields}
use recon_sr.Strings.Split.{join}
use recon_sr.Modules.Advisory.{Description, EpssData, NvdData, VulnLookupMeta, Adp, CveResponse}
use recon_sr.Modules.Dates.{normalize_day}
use recon_sr.Modules.Writing.{Writing, property_result, put_result, note_cve}
use recon_sr.Modules.Extract.{
  Tools, each, add_unless_empty, extract_cpes, has_cwe_results, extract_problem_types,
  extract_nvd_weaknesses, extract_exploits, extract_metrics, extract_nvd_metrics,
  format_as_percentage,
}

-- The error of an execution, its raw data, and what it has collected.
pub record Execution : Type 0 where
  pub error : Option Text
  pub raw_data : Text
  pub writing : Writing

-- What a request gives: the text of the error with what was received, also when no URL could be
-- built, or the body.
pub data Fetched : Type 0 where
  failed : Text → Text → Fetched
  fetched : Text → Fetched

unfoldable pub set_error : Text → Execution → Execution
set_error text exec = record exec { error = some text }

unfoldable pub set_raw_from_bytes : Text → Execution → Execution
set_raw_from_bytes raw exec = if is_empty raw then exec else record exec { raw_data = raw }

unfoldable pub add_english : Option EntityRef → List Description → Writing → Writing
add_english source [] w = w
add_english source (desc ∷ descs) w =
    let rest = add_english source descs w in
    if eq_text desc.lang (codes "en") || eq_text desc.lang (codes "en-US")
    then put_result (property_result (codes "summary") (join b' ' (fields desc.value)) source) w
    else rest

unfoldable pub add_title : Option EntityRef → Text → Writing → Writing
add_title source title =
    add_unless_empty title (property_result (codes "description") (trim_space title) source)

module _ {F : Type 0} (tools : Tools F) where
  unfoldable pub published_day : Text → Text
  published_day published = elim (normalize_day tools.parse_day published) [
    | none ↦ published
    | some day ↦ day
  ]

  unfoldable pub add_published : Option EntityRef → Text → Writing → Writing
  add_published source published =
      add_unless_empty published
        (property_result (codes "date") (codes "Published: " ++ published_day published) source)

  unfoldable pub add_epss : Option EntityRef → EpssData → Writing → Writing
  add_epss source epss w =
      add_unless_empty epss.percentile
        (property_result (codes "ranking_epss") (format_as_percentage tools epss.percentile) source)
        (add_unless_empty epss.epss
          (property_result (codes "epss") (format_as_percentage tools epss.epss) source) w)

  unfoldable pub extract_epss : Option EntityRef → Option EpssData → Writing → Writing
  extract_epss source none w = w
  extract_epss source (some epss) w = add_epss source epss w

  unfoldable pub add_nvd : Option EntityRef → Bool → Bool → NvdData F → Writing → Writing
  add_nvd source has_cna_metrics has_cna_cwe decoded w =
      let with_metrics =
        if has_cna_metrics then w else extract_nvd_metrics tools source decoded.metrics w in
      if has_cna_cwe
      then with_metrics
      else extract_nvd_weaknesses tools source decoded.weaknesses with_metrics

  unfoldable pub extract_nvd :
      Option EntityRef → Bool → Bool → Option (NvdData F) → Writing → Writing
  extract_nvd source has_cna_metrics has_cna_cwe none w = w
  extract_nvd source has_cna_metrics has_cna_cwe (some decoded) w =
      add_nvd source has_cna_metrics has_cna_cwe decoded w

  unfoldable pub extract_vuln_lookup_meta :
      Option EntityRef → Bool → Bool → Option VulnLookupMeta → Writing → Writing
  extract_vuln_lookup_meta source has_cna_metrics has_cna_cwe none w = w
  extract_vuln_lookup_meta source has_cna_metrics has_cna_cwe (some meta) w =
      let with_epss = extract_epss source meta.epss w in
      if is_empty meta.nvd
      then with_epss
      else extract_nvd source has_cna_metrics has_cna_cwe (tools.parse_nvd meta.nvd) with_epss

  unfoldable pub extract_adp : Option EntityRef → Adp F → Writing → Writing
  extract_adp source adp w =
      extract_metrics tools source adp.metrics
        (extract_problem_types tools source adp.problem_types w)

  unfoldable pub extract_cna : Option EntityRef → CveResponse F → Writing → Writing
  extract_cna source resp w =
      let w1 = add_published source resp.cve_metadata.date_published w in
      let w2 = add_title source resp.cna.title w1 in
      let w3 = add_english source resp.cna.descriptions w2 in
      let w4 = extract_exploits tools source [] resp.cna.references w3 in
      let w5 = extract_problem_types tools source resp.cna.problem_types w4 in
      let w6 = extract_metrics tools source resp.cna.metrics w5 in
      extract_cpes source resp.cna.cpe_applicability w6

  unfoldable pub extract_cve_results : Option EntityRef → CveResponse F → Writing → Writing
  extract_cve_results source resp w =
      let has_cna_metrics = ltb 0 (length resp.cna.metrics) in
      extract_vuln_lookup_meta source has_cna_metrics (has_cwe_results resp.cna.problem_types)
        resp.meta (each (extract_adp source) resp.adp (extract_cna source resp w))

  unfoldable pub add_record : Option (CveResponse F) → Text → Writing → Writing
  add_record none target w = w
  add_record (some resp) target w =
      put_result
        (record (property_result (codes "cve") target none) { category = []; applied = true })
        (extract_cve_results none resp w)

  module _ (decode : Text → Option (CveResponse F)) (fetch : Text → Fetched) where
    unfoldable pub parse_cve_response : Text → Text → Writing → Writing
    parse_cve_response raw = add_record (decode raw)

    unfoldable pub take_answer : Fetched → Text → Execution → Execution
    take_answer (failed reason body) cve exec = set_raw_from_bytes body (set_error reason exec)
    take_answer (fetched body) cve exec =
        if is_empty body then exec else record (set_raw_from_bytes body exec) {
          writing = parse_cve_response body cve exec.writing;
        }

    unfoldable pub fetch_and_parse_cve : Text → Execution → Execution
    fetch_and_parse_cve cve = take_answer (fetch cve) cve

    unfoldable pub enrich_circl_cve : Text → Text → Execution → Execution
    enrich_circl_cve target_type target exec =
        if not (eq_text target_type (codes "cve"))
        then set_error (codes "unsupported target type: " ++ target_type) exec
        else if mem_text target exec.writing.cve_cache
        then exec
        else fetch_and_parse_cve target (record exec { writing = note_cve target exec.writing })
