-- ===== src/Modules/CpeNumbered.antt =====
-- The pages of a search (modules/vuln_lookup/cpe.go) keep the numbering of the results.
use recon_sr.Base.{
  ℕ, zero, suc, ◌+◌, max, ◌≡◌, refl, subst, sym, inl, inr, Bool-cases, not, ◌||◌, [], ◌++◌, Option,
  none, some, Text, codes, eq_text, mem_text, some-inj, true, ltb,
}
use recon_sr.Schema.{EntityRef, InputResult}
use recon_sr.Strings.{is_empty}
use recon_sr.Modules.Ranges.{is_valid_specific_cpe, is_cve_applicable}
use recon_sr.Modules.Advisory.{CveResponse}
use recon_sr.Modules.Writing.{Writing, property_result, put_result, note_cve, note_cpe}
use recon_sr.Modules.Extract.{Tools, each}
use recon_sr.Modules.Cve.{Execution, Fetched, failed, fetched, set_error, set_raw_from_bytes}
use recon_sr.Modules.Cpe.{
  Search, CpeListResponse, target_parts, add_cve, add_applicable, add_records, take_page,
  parse_cpe_response, parse_page, fetch_pages, fetch_and_parse_cpe, search_circl_cpe,
}
use recon_sr.Modules.Numbered.{IsNumbered, HasSource, IsKnown, new-IsKnown, put_result-IsNumbered}
use recon_sr.Modules.NumberedCve.{Keeps, if_Keeps, each-Keeps}
use recon_sr.Modules.NumberedAnswer.{extract_cve_results-Keeps}

pub no_source : (w : Writing) → HasSource w none
no_source w s e = cc

raw_keeps-writing :
    (raw : Text) (exec : Execution) → (set_raw_from_bytes raw exec).writing ≡ exec.writing
unfolding set_raw_from_bytes
raw_keeps-writing raw exec = elim (Bool-cases (is_empty raw)) [
  | inl e ↦ rw e refl
  | inr e ↦ rw e refl
]

pub set_raw-IsNumbered :
    (first : ℕ) (raw : Text) (exec : Execution)
    → IsNumbered first exec.writing
    → IsNumbered first (set_raw_from_bytes raw exec).writing
set_raw-IsNumbered first raw exec n = subst (IsNumbered first) (sym (raw_keeps-writing raw exec)) n

module _ {F : Type 0} (tools : Tools F) (service : Search F) (first : ℕ) where
  add_cve-Keeps : (resp : CveResponse F) → Keeps first none (add_cve tools service resp)
  unfolding add_cve note_cve
  add_cve-Keeps resp w n k =
      let cve_id = resp.cve_metadata.cve_id in
      let r : InputResult = property_result (codes "cve") cve_id none in
      let s : EntityRef = record {
        type = codes "cve";
        value = cve_id;
        anchor = [];
        local_id = w.next_id;
      } in
      let n' = put_result-IsNumbered r w first n k in
      let (m, _) =
        extract_cve_results-Keeps tools first (some s) resp (note_cve cve_id (put_result r w)) n'
          (λ s' e.
            subst (IsKnown (note_cve cve_id (put_result r w))) (some-inj e)
              (new-IsKnown r w s refl refl refl)) in
      (m, no_source (add_cve tools service resp w))

  add_applicable-Keeps :
      (target : Text) (resp : CveResponse F)
      → Keeps first none (add_applicable tools service target resp)
  unfolding add_applicable
  add_applicable-Keeps target resp =
      if_Keeps first none
        (not (
            is_cve_applicable tools.lib service.legacy_matches (target_parts tools.lib target).0
              (target_parts tools.lib target).1 resp.cna.affected)
          || is_empty resp.cve_metadata.cve_id)
        (add_cve tools service resp) (add_cve-Keeps resp)

  add_records-IsNumbered :
      (answer : Option (CpeListResponse F)) (target : Text) (w : Writing)
      → IsNumbered first w
      → IsNumbered first (add_records tools service answer target w).1
  unfolding add_records
  add_records-IsNumbered none target w n = n
  add_records-IsNumbered (some resp) target w n =
      let combined = resp.cve_list_v5 ++ resp.nvd_list in
      let (n', k) =
        each-Keeps first none (add_applicable tools service target) (add_applicable-Keeps target)
          combined w n (no_source w) in
      put_result-IsNumbered (record (property_result (codes "cpe") target none) { applied = true })
        (each (add_applicable tools service target) combined w) first n'
        (no_source (each (add_applicable tools service target) combined w))

  parse_page-IsNumbered :
      (body target : Text) (exec : Execution)
      → IsNumbered first exec.writing
      → IsNumbered first (parse_page tools service body target exec).1.writing
  unfolding parse_page parse_cpe_response
  parse_page-IsNumbered body target exec n =
      add_records-IsNumbered (service.decode body) target exec.writing n

  take_page-IsNumbered :
      (answer : Fetched) (target : Text) (others : Execution → Execution) (exec : Execution)
      → ((next : Execution)
          → IsNumbered first next.writing
          → IsNumbered first (others next).writing)
      → IsNumbered first exec.writing
      → IsNumbered first (take_page tools service answer target others exec).writing
  unfolding take_page set_error
  take_page-IsNumbered (failed reason body) target others exec h n =
      set_raw-IsNumbered first body (set_error reason exec) n
  take_page-IsNumbered (fetched body) target others exec h n =
      let next = parse_page-IsNumbered body target exec n in
      elim (Bool-cases (is_empty body)) [
        | inl e ↦ rw e n
        | inr e ↦
            elim (Bool-cases
              (ltb (parse_page tools service body target exec).0 (max 1 service.cpe_per_page))) [
                | inl e' ↦ rw (e, e') next
                | inr e' ↦ rw (e, e') (h (parse_page tools service body target exec).1 next)
              ]
      ]

  fetch_pages-IsNumbered :
      (target : Text) (page m : ℕ) (exec : Execution)
      → IsNumbered first exec.writing
      → IsNumbered first (fetch_pages tools service target page m exec).writing
  unfolding fetch_pages
  fetch_pages-IsNumbered target page zero exec n = n
  fetch_pages-IsNumbered target page (suc m) exec n =
      take_page-IsNumbered (service.fetch target page) target
        (fetch_pages tools service target (page + 1) m) exec
        (fetch_pages-IsNumbered target (page + 1) m) n

  pub search_circl_cpe-IsNumbered :
      (target_type target : Text) (exec : Execution)
      → IsNumbered first exec.writing
      → IsNumbered first (search_circl_cpe tools service target_type target exec).writing
  unfolding search_circl_cpe set_error fetch_and_parse_cpe note_cpe
  search_circl_cpe-IsNumbered target_type target exec n =
      let m =
        fetch_pages-IsNumbered target 1 (max 1 service.cpe_max_pages)
          (record exec { writing = note_cpe target exec.writing }) n in
      elim (Bool-cases
        (not (eq_text target_type (codes "cpe") || eq_text target_type (codes "cpe23")))) [
          | inl e ↦ rw e n
          | inr e ↦ elim (Bool-cases (not (is_valid_specific_cpe target))) [
            | inl e' ↦ rw (e, e') n
            | inr e' ↦ elim (Bool-cases (mem_text target exec.writing.cpe_cache)) [
              | inl e'' ↦ rw (e, e', e'') n
              | inr e'' ↦ rw (e, e', e'') m
            ]
          ]
        ]
