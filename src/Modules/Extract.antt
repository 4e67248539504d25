-- ===== src/Modules/Extract.antt =====
-- `extractCVEResults` of modules/vuln_lookup/cve.go and the functions it calls: the results that
-- an answer about a vulnerability gives.
use recon_sr.Base.{
  Bool, false, not, ◌&&◌, ◌||◌, List, [], ◌∷◌, ◌++◌, map, Option, none, some, Text, codes, length,
  drop, all, any, eq_text, mem_text, lookup, is_some, if◌then◌else◌,
}
use recon_sr.Libs.{Libs}
use recon_sr.Schema.{EntityRef, InputResult}
use recon_sr.Strings.{is_empty, is_digit, has_prefix, contains, to_lower, to_upper}
use recon_sr.Modules.Advisory.{
  Reference, ProblemDescription, ProblemType, CpeMatch, CpeNode, CpeApplicability, SsvcOption,
  OtherMetric, NvdWeaknessDesc, NvdWeakness, UniversalCvss, Metric, NvdMetrics, NvdData,
}
use recon_sr.Modules.Writing.{Writing, property_result, put_result, note_cpe}

-- What the extraction calls and takes from tables: the letters' cases, `float64` (its zero, its
-- order, `strconv.ParseFloat`, and the formats "%.1f" and "%.2f%%" of a hundredfold), the days of
-- `time.Parse`, the decoded NVD data, and the entries of `cweDictionary`.
pub record Tools (F : Type 0) : Type 0 where
  pub lib : Libs
  pub zero : F
  pub greater : F → F → Bool
  pub one_decimal : F → Text
  pub percent : F → Text
  pub parse_float : Text → Option F
  pub parse_nvd : Text → Option (NvdData F)
  pub parse_day : Text → Text → Option Text
  pub cwe_dictionary : List (Text × Text)

-- A loop whose body sees the state that the passes before it leave.
abbrev pub each {ℓ κ} : {A : Type ℓ} {S : Type κ} → (A → S → S) → List A → S → S
each body [] s = s
each body (a ∷ rest) s = each body rest (body a s)

-- A result that is added unless the text it is made of is empty.
unfoldable pub add_unless_empty : Text → InputResult → Writing → Writing
add_unless_empty text r w = if is_empty text then w else put_result r w

-- The loop over the criteria, which tells apart those it has seen.
unfoldable pub extract_criteria : Option EntityRef → List Text → List CpeMatch → Writing → Writing
extract_criteria source seen [] w = w
extract_criteria source seen (match ∷ matches) w =
    if is_empty match.criteria || mem_text match.criteria seen
    then extract_criteria source seen matches w
    else extract_criteria source (match.criteria ∷ seen) matches (
        note_cpe match.criteria
          (put_result (property_result (codes "cpe") match.criteria source) w))

unfoldable pub nodes_of : List CpeApplicability → List CpeNode
nodes_of [] = []
nodes_of (app ∷ apps) = app.nodes ++ nodes_of apps

unfoldable pub matches_of : List CpeNode → List CpeMatch
matches_of [] = []
matches_of (node ∷ nodes) = node.cpe_match ++ matches_of nodes

unfoldable pub extract_cpes : Option EntityRef → List CpeApplicability → Writing → Writing
extract_cpes source applicability = extract_criteria source [] (matches_of (nodes_of applicability))

unfoldable pub has_cwe_results : List ProblemType → Bool
has_cwe_results problem_types =
    any (λ pt. any (λ desc. not (is_empty desc.cwe_id)) pt.descriptions) problem_types

unfoldable pub is_valid_cwe : Text → Bool
is_valid_cwe val =
    let suffix = drop (length (codes "CWE-")) val in
    if not (has_prefix val (codes "CWE-"))
    then false
    else if is_empty suffix
    then false
    else all is_digit suffix

unfoldable pub cwe_ids : List ProblemType → List Text
cwe_ids [] = []
cwe_ids (pt ∷ pts) = map ProblemDescription.cwe_id pt.descriptions ++ cwe_ids pts

unfoldable pub nvd_values : List NvdWeakness → List Text
nvd_values [] = []
nvd_values (w ∷ ws) = map NvdWeaknessDesc.value w.description ++ nvd_values ws

unfoldable pub extract_option : Option EntityRef → SsvcOption → Writing → Writing
extract_option source opt w =
    add_unless_empty opt.automatable
      (property_result (codes "ssvc") (codes "Automatable: " ++ opt.automatable) source)
      (add_unless_empty opt.exploitation
        (property_result (codes "ssvc") (codes "Exploitation: " ++ opt.exploitation) source) w)

unfoldable pub extract_other_metric : Option EntityRef → OtherMetric → Writing → Writing
extract_other_metric source other w =
    if eq_text other.type (codes "ssvc")
    then each (extract_option source) other.options w
    else if eq_text other.type (codes "kev")
    then add_unless_empty other.date_added (property_result (codes "kev") other.date_added source) w
    else w

module _ {F : Type 0} (tools : Tools F) where
  unfoldable pub get_cwe_description : Text → Text
  get_cwe_description id = elim (lookup (to_upper tools.lib id) tools.cwe_dictionary) [
    | none ↦ []
    | some description ↦ description
  ]

  -- A weakness, and its description below it.
  unfoldable pub add_cwe : Option EntityRef → Text → Writing → Writing
  add_cwe source cwe_id w =
      let added = put_result (property_result (codes "cwe") cwe_id source) w in
      let description = get_cwe_description cwe_id in
      let cwe : EntityRef = record {
        type = codes "cwe";
        value = cwe_id;
        anchor = [];
        local_id = w.next_id;
      } in
      add_unless_empty description (property_result (codes "description") description (some cwe))
        added

  -- The two loops over weaknesses: which identifiers they leave out is the test `keeps`.
  unfoldable pub extract_weaknesses :
      (Text → Bool) → Option EntityRef → List Text → List Text → Writing → Writing
  extract_weaknesses keeps source seen [] w = w
  extract_weaknesses keeps source seen (id ∷ ids) w =
      let cwe_id = to_upper tools.lib id in
      if not (keeps cwe_id) || mem_text cwe_id seen
      then extract_weaknesses keeps source seen ids w
      else extract_weaknesses keeps source (cwe_id ∷ seen) ids (add_cwe source cwe_id w)

  unfoldable pub extract_problem_types : Option EntityRef → List ProblemType → Writing → Writing
  extract_problem_types source problem_types =
      extract_weaknesses (λ id. not (is_empty id)) source [] (cwe_ids problem_types)

  unfoldable pub extract_nvd_weaknesses : Option EntityRef → List NvdWeakness → Writing → Writing
  extract_nvd_weaknesses source weaknesses =
      extract_weaknesses is_valid_cwe source [] (nvd_values weaknesses)

  unfoldable pub is_exploit : Reference → Bool
  is_exploit ref = any (λ tag. contains (to_lower tools.lib tag) (codes "exploit")) ref.tags

  unfoldable pub extract_exploits :
      Option EntityRef → List Text → List Reference → Writing → Writing
  extract_exploits source seen [] w = w
  extract_exploits source seen (ref ∷ refs) w =
      if is_empty ref.url || mem_text ref.url seen
      then extract_exploits source seen refs w
      else if is_exploit ref
      then extract_exploits source (ref.url ∷ seen) refs
          (put_result (property_result (codes "exploit") ref.url source) w)
      else extract_exploits source seen refs w

  unfoldable pub append_cvss : Option EntityRef → F → UniversalCvss F → Writing → Writing
  append_cvss source version cvss =
      put_result
        (record (property_result (codes "cvss")
          (cvss.base_severity
            ++ codes " / "
            ++ cvss.vector_string
            ++ codes " / "
            ++ tools.one_decimal cvss.base_score)
          source) { context = codes "CVSS " ++ tools.one_decimal version })

  -- The loop keeps the best score that it has met.
  unfoldable pub extract_metrics_from :
      Option EntityRef → F → Option (UniversalCvss F) → List (Metric F) → Writing → Writing
  extract_metrics_from source version best [] w = elim best [
    | none ↦ w
    | some cvss ↦ append_cvss source version cvss w
  ]
  extract_metrics_from source version best (m ∷ ms) w =
      let better = is_some m.best_cvss && tools.greater m.best_cvss_version version in
      elim m.other [
        | some other ↦
            extract_metrics_from source version best ms (extract_other_metric source other w)
        | none ↦
            extract_metrics_from source (if better then m.best_cvss_version else version)
              (if better then m.best_cvss else best) ms w
      ]

  unfoldable pub extract_metrics : Option EntityRef → List (Metric F) → Writing → Writing
  extract_metrics source = extract_metrics_from source tools.zero none

  unfoldable pub extract_nvd_metrics : Option EntityRef → NvdMetrics F → Writing → Writing
  extract_nvd_metrics source metrics w = elim metrics.best_cvss [
    | none ↦ w
    | some cvss ↦ append_cvss source metrics.best_cvss_version cvss w
  ]

  unfoldable pub format_as_percentage : Text → Text
  format_as_percentage val = elim (tools.parse_float val) [ none ↦ val | some f ↦ tools.percent f ]
