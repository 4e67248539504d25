-- ===== src/Modules/Cpe.antt =====
-- `searchCirclCPE`, `fetchAndParseCPE` and `parseCPEResponse` of modules/vuln_lookup/cpe.go: the
-- vulnerabilities of a software, page by page. The answer for a page, its decoding, and what
-- `legacyBoundRe` finds are parameters. Not modelled: the URL of a page, the pause between two
-- pages, and the demo data.
use recon_sr.Base.{
  ℕ, zero, suc, ◌+◌, max, true, not, ◌||◌, List, [], ◌++◌, Option, none, some, Text, codes, length,
  get_or, ltb, leb, eq_text, mem_text, if◌then◌else◌,
}
use recon_sr.Libs.{Libs}
use recon_sr.Schema.{EntityRef}
use recon_sr.Strings.{is_empty, to_lower}
use recon_sr.Strings.Split.{split}
use recon_sr.Modules.Ranges.{is_valid_specific_cpe, is_cve_applicable}
use recon_sr.Modules.Advisory.{CveResponse}
use recon_sr.Modules.Writing.{Writing, property_result, put_result, note_cve, note_cpe}
use recon_sr.Modules.Extract.{Tools, each}
use recon_sr.Modules.Cve.{
  Execution, Fetched, failed, fetched, set_error, set_raw_from_bytes, extract_cve_results,
}

-- `CIRCLCPEListResponse`.
pub record CpeListResponse (F : Type 0) : Type 0 where
  pub cve_list_v5 : List (CveResponse F)
  pub nvd_list : List (CveResponse F)

-- The product in lower case and the version that the name of a platform has.
unfoldable pub target_parts : Libs → Text → Text × Text
target_parts lib cpe =
    let parts = split b':' cpe in
    if leb 6 (length parts) then (to_lower lib (get_or parts 4 []), get_or parts 5 []) else ([], [])

-- What the search calls: the answer for a name and a page, the decoding, the constants
-- `CirclCPEMaxPages` and `CirclCPEPerPage` of the resolver, and the matches of `legacyBoundRe`.
pub record Search (F : Type 0) : Type 0 where
  pub fetch : Text → ℕ → Fetched
  pub decode : Text → Option (CpeListResponse F)
  pub legacy_matches : Text → List (Text × Text)
  pub cpe_max_pages : ℕ
  pub cpe_per_page : ℕ

module _ {F : Type 0} (tools : Tools F) (service : Search F) where
  -- A vulnerability, and what its record says of it.
  unfoldable pub add_cve : CveResponse F → Writing → Writing
  add_cve resp w =
      let cve_id = resp.cve_metadata.cve_id in
      let source : EntityRef = record {
        type = codes "cve";
        value = cve_id;
        anchor = [];
        local_id = w.next_id;
      } in
      extract_cve_results tools (some source) resp
        (note_cve cve_id (put_result (property_result (codes "cve") cve_id none) w))

  unfoldable pub add_applicable : Text → CveResponse F → Writing → Writing
  add_applicable target resp w =
      let (product, version) = target_parts tools.lib target in
      if not (is_cve_applicable tools.lib service.legacy_matches product version resp.cna.affected)
        || is_empty resp.cve_metadata.cve_id
      then w
      else add_cve resp w

  -- The number of records, those left out included.
  unfoldable pub add_records : Option (CpeListResponse F) → Text → Writing → ℕ × Writing
  add_records none target w = (0, w)
  add_records (some resp) target w =
      let combined = resp.cve_list_v5 ++ resp.nvd_list in
      (
        length combined,
        put_result (record (property_result (codes "cpe") target none) { applied = true })
            (each (add_applicable target) combined w),
      )

  unfoldable pub parse_cpe_response : Text → Text → Writing → ℕ × Writing
  parse_cpe_response raw = add_records (service.decode raw)

  unfoldable pub parse_page : Text → Text → Execution → ℕ × Execution
  parse_page body target exec =
      let (count, writing) = parse_cpe_response body target exec.writing in
      (count, record (set_raw_from_bytes body exec) { writing = writing })

  -- One pass of the loop, `others` being the passes that follow.
  unfoldable pub take_page : Fetched → Text → (Execution → Execution) → Execution → Execution
  take_page (failed reason body) target others exec =
      set_raw_from_bytes body (set_error reason exec)
  take_page (fetched body) target others exec =
      let (count, next) = parse_page body target exec in
      if is_empty body
      then exec
      else if ltb count (max 1 service.cpe_per_page)
      then next
      else others next

  -- The loop over the pages, with `n` pages to go from `page` on.
  unfoldable pub fetch_pages : Text → ℕ → ℕ → Execution → Execution
  fetch_pages target page zero exec = exec
  fetch_pages target page (suc n) exec =
      take_page (service.fetch target page) target (fetch_pages target (page + 1) n) exec

  unfoldable pub fetch_and_parse_cpe : Text → Execution → Execution
  fetch_and_parse_cpe cpe = fetch_pages cpe 1 (max 1 service.cpe_max_pages)

  unfoldable pub search_circl_cpe : Text → Text → Execution → Execution
  search_circl_cpe target_type target exec =
      if not (eq_text target_type (codes "cpe") || eq_text target_type (codes "cpe23"))
      then set_error (codes "unsupported target type: " ++ target_type) exec
      else if not (is_valid_specific_cpe target)
      then exec
      else if mem_text target exec.writing.cpe_cache
      then exec
      else fetch_and_parse_cpe target (record exec { writing = note_cpe target exec.writing })
