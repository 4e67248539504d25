-- ===== src/Processor/Rule.antt =====
-- The rule for the main loop of `Process`: what its four kinds of write keep holds at its end.
use recon_sr.Base.{
  refl, Memᴰ, ◌≡◌, ◌≢◌, inl, inr, List, [], ◌∷◌, none, Text, Bool-cases, Option-cases, insert,
}
use recon_sr.Libs.{Libs}
use recon_sr.Scope.RuleSets.{Rules}
use recon_sr.Schema.{InputResult, InputExecution, ProcessorInputData}
use recon_sr.Processor.Keys.{Key}
use recon_sr.Processor.Context.{Messages, is_skipped, failed_text}
use recon_sr.Processor.Run.{
  Run, report, add_to_group, bad_tag, valid_result, declared_scope, source_ref, is_self,
  is_incomplete, process_result, process_results, process_execution, process_executions,
}

-- The result is one that the module returned for the function.
abbrev pub IsGiven : List InputExecution → Text → InputResult → Type 0
IsGiven execs fn res =
    (exec : InputExecution) × Memᴰ exec execs × (exec.function ≡ fn) × Memᴰ res exec.results

module _ (lib : Libs) (rules : Rules) (msg : Messages) (input : ProcessorInputData)
    (reachable : List Key) where
  -- A result is stored.
  abbrev pub found : Text → Run → InputResult → Run
  found fn run res = record run {
    groups =
        add_to_group (source_ref lib rules msg input reachable res)
          (declared_scope lib rules msg input reachable res)
          (valid_result lib rules msg input reachable fn res) run.groups;
    with_findings = fn ∷ run.with_findings;
  }

  pub record Kept {ℓ} (execs : List InputExecution) (P : Run → Type ℓ) : Type ℓ where
    pub at_report : (run : Run) (fn t u : Text) → P run → P (report run fn t u)
    pub at_found :
        (run : Run) (fn : Text) (res : InputResult)
        → IsGiven execs fn res
        → bad_tag res.tags ≡ none
        → run.returned ≢ []
        → P run
        → P (found fn run res)
    pub at_raw : (run : Run) (raw : List (Text × Text)) → P run → P (record run { raw_data = raw })
    pub at_returned :
        (run : Run) (fn : Text) → P run → P (record run { returned = fn ∷ run.returned })

  module _ {ℓ} (all : List InputExecution) (P : Run → Type ℓ) (kept : Kept all P) where
    process_result-keeps :
        (fn : Text) (run : Run) (res : InputResult)
        → IsGiven all fn res
        → P run
        → run.returned ≢ []
        → P (process_result lib rules msg input reachable fn run res)
          × ((process_result lib rules msg input reachable fn run res).returned ≢ [])
    unfolding process_result
    process_result-keeps fn run res given h ne = elim (Option-cases (bad_tag res.tags)) [
      | inr (t, bad) ↦ rw (bad, process_result) (kept.at_report run fn _ _ h, ne)
      | inl good ↦
          rw (good, process_result)
            (elim (Bool-cases (is_self lib rules msg input reachable res)) [
              | inl e ↦ rw e (h, ne)
              | inr e ↦ rw e (elim (Bool-cases (is_incomplete lib rules msg input reachable res)) [
                | inl i ↦ rw i (kept.at_report run fn _ _ h, ne)
                | inr i ↦ rw i (kept.at_found run fn res given good ne h, ne)
              ])
            ])
    ]

    process_results-keeps :
        (fn : Text) (run : Run) (rs : List InputResult)
        → ((res : InputResult) → Memᴰ res rs → IsGiven all fn res)
        → P run
        → run.returned ≢ []
        → P (process_results lib rules msg input reachable fn run rs)
    unfolding process_results
    process_results-keeps fn run [] given h ne = h
    process_results-keeps fn run (res ∷ rs) given h ne =
        let (h', ne') = process_result-keeps fn run res (given res (Memᴰ.head refl)) h ne in
        process_results-keeps fn (process_result lib rules msg input reachable fn run res) rs
          (λ r at. given r (Memᴰ.tail at)) h' ne'

    process_execution-keeps :
        (run : Run) (exec : InputExecution)
        → Memᴰ exec all
        → P run
        → P (process_execution lib rules msg input reachable run exec)
    unfolding process_execution
    process_execution-keeps run exec at h =
        let raw = kept.at_raw run (insert exec.function exec.raw_data run.raw_data) h in
        elim (Bool-cases (is_skipped run.returned input.requested_functions exec.function)) [
          | inl e ↦ rw e raw
          | inr e ↦ rw e (
              let next = kept.at_returned _ exec.function raw in
              elim (Option-cases (failed_text exec.error)) [
                | inr (text, f) ↦
                    rw (f, process_execution) (kept.at_report _ exec.function _ text next)
                | inl f ↦
                    rw (f, process_execution)
                      (process_results-keeps exec.function _ exec.results
                        (λ res m. (exec, at, refl, m)) next (λ e. cc))
              ])
        ]

    pub process_executions-keeps :
        (run : Run) (execs : List InputExecution)
        → ((exec : InputExecution) → Memᴰ exec execs → Memᴰ exec all)
        → P run
        → P (process_executions lib rules msg input reachable run execs)
    unfolding process_executions
    process_executions-keeps run [] sub h = h
    process_executions-keeps run (exec ∷ execs) sub h =
        process_executions-keeps (process_execution lib rules msg input reachable run exec) execs
          (λ e at. sub e (Memᴰ.tail at))
          (process_execution-keeps run exec (sub exec (Memᴰ.head refl)) h)
