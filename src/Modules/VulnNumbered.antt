-- ===== src/Modules/VulnNumbered.antt =====
-- The executions of modules/vuln_lookup number their results.
use recon_sr.Base.{
  ℕ, inl, inr, arith, Bool-cases, not, List, [], ◌∷◌, Option, none, some, Text, codes, eq_text,
  mem_text, true,
}
use mathlib.Core.List.Memᴰ
use recon_sr.Strings.{is_empty}
use recon_sr.Modules.Advisory.{CveResponse}
use recon_sr.Modules.Writing.{Writing, property_result, note_cve}
use recon_sr.Modules.Extract.{Tools}
use recon_sr.Modules.Cve.{
  Execution, Fetched, failed, fetched, set_error, extract_cve_results, add_record, take_answer,
  parse_cve_response, fetch_and_parse_cve, enrich_circl_cve,
}
use recon_sr.Modules.Cpe.{Search}
use recon_sr.Modules.VulnLookup.{new_execution, run_lookup, exec_lookups}
use recon_sr.Modules.CpeNumbered.{no_source, set_raw-IsNumbered, search_circl_cpe-IsNumbered}
use recon_sr.Modules.Numbered.{IsNumbered, put_result-IsNumbered}
use recon_sr.Modules.NumberedAnswer.{extract_cve_results-Keeps}

module _ {F : Type 0} (tools : Tools F) (service : Search F) (first : ℕ) where
  module _ (decode : Text → Option (CveResponse F)) (fetch : Text → Fetched) where
    add_record-IsNumbered :
        (answer : Option (CveResponse F)) (target : Text) (w : Writing)
        → IsNumbered first w
        → IsNumbered first (add_record tools answer target w)
    unfolding add_record
    add_record-IsNumbered none target w n = n
    add_record-IsNumbered (some resp) target w n =
        let (n', k) = extract_cve_results-Keeps tools first none resp w n (no_source w) in
        put_result-IsNumbered
          (record (property_result (codes "cve") target none) { category = []; applied = true })
          (extract_cve_results tools none resp w) first n'
          (no_source (extract_cve_results tools none resp w))

    take_answer-IsNumbered :
        (answer : Fetched) (target : Text) (exec : Execution)
        → IsNumbered first exec.writing
        → IsNumbered first (take_answer tools decode fetch answer target exec).writing
    unfolding take_answer parse_cve_response set_error
    take_answer-IsNumbered (failed reason body) target exec n =
        set_raw-IsNumbered first body (set_error reason exec) n
    take_answer-IsNumbered (fetched body) target exec n = elim (Bool-cases (is_empty body)) [
      | inl e ↦ rw e n
      | inr e ↦ rw e (add_record-IsNumbered (decode body) target exec.writing n)
    ]

    enrich_circl_cve-IsNumbered :
        (target_type target : Text) (exec : Execution)
        → IsNumbered first exec.writing
        → IsNumbered first (enrich_circl_cve tools decode fetch target_type target exec).writing
    unfolding enrich_circl_cve set_error fetch_and_parse_cve note_cve
    enrich_circl_cve-IsNumbered target_type target exec n =
        let noted : Execution = record exec { writing = note_cve target exec.writing } in
        elim (Bool-cases (not (eq_text target_type (codes "cve")))) [
          | inl e ↦ rw e n
          | inr e ↦ elim (Bool-cases (mem_text target exec.writing.cve_cache)) [
            | inl e' ↦ rw (e, e') n
            | inr e' ↦ rw (e, e') (take_answer-IsNumbered (fetch target) target noted n)
          ]
        ]

    run_lookup-IsNumbered :
        (function target_type target : Text) (exec : Execution)
        → IsNumbered first exec.writing
        → IsNumbered first
            (run_lookup tools service decode fetch function target_type target exec).writing
    unfolding run_lookup set_error
    run_lookup-IsNumbered function target_type target exec n =
        elim (Bool-cases (eq_text function (codes "enrich_circl_cve"))) [
          | inl e ↦ rw e (enrich_circl_cve-IsNumbered target_type target exec n)
          | inr e ↦ elim (Bool-cases (eq_text function (codes "search_circl_cpe"))) [
            | inl e' ↦
                rw (e, e')
                  (search_circl_cpe-IsNumbered tools service first target_type target exec n)
            | inr e' ↦ rw (e, e') n
          ]
        ]

-- Each execution numbers its results where the execution before it stopped.
abbrev pub AreNumbered : ℕ → List Execution → Type 0
AreNumbered first [] = Unit
AreNumbered first (exec ∷ execs) =
    IsNumbered first exec.writing × AreNumbered exec.writing.next_id execs

module _ {F : Type 0} (tools : Tools F) (service : Search F)
    (decode : Text → Option (CveResponse F)) (fetch : Text → Fetched) where
  -- Whatever the service answers, all executions of a call number their results consecutively, each
  -- from where the one before it stopped, and each source that a result names is an earlier result
  -- of the same execution, with the type, the value and the identifier that are named.
  pub exec_lookups-AreNumbered :
      (target_type target : Text) (functions : List Text) (w : Writing)
      → AreNumbered w.next_id
          (exec_lookups tools service decode fetch target_type target functions w)
  unfolding exec_lookups new_execution
  exec_lookups-AreNumbered target_type target [] w = tt
  exec_lookups-AreNumbered target_type target (function ∷ functions) w =
      let exec =
        run_lookup tools service decode fetch function target_type target (new_execution w) in
      (
        run_lookup-IsNumbered tools service w.next_id decode fetch function target_type target
            (new_execution w) (omega arith, λ i r e. cc, λ r s m e. absurd (Memᴰ.not-nil m)),
        exec_lookups-AreNumbered target_type target functions exec.writing,
      )
