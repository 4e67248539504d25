-- ===== src/Processor/Violation.antt =====
-- A module that returns a function that was not requested: nothing of what it returned is kept.
use recon_sr.Base.{
  ◌≡◌, ◌≢◌, refl, ap, sym, subst, ◌∙◌, arith, true, false, List, [], ◌∷◌, map, some, Text, inl, inr,
  Bool-cases, mem_text, mem_text_iff, Memᴰ, ⊎_elim,
}
use mathlib.Core.List.Memᴰ
use recon_sr.Libs.{Libs}
use recon_sr.Scope.RuleSets.{Rules}
use recon_sr.Schema.{ProcessorInputData, ProcessorToRepoData, InputExecution}
use recon_sr.Processor.Keys.{Key}
use recon_sr.Processor.Context.{Messages, is_nil, is_rogue, is_skipped, rogue_functions}
use recon_sr.Processor.Run.{Run, process_execution, process_executions}
use recon_sr.Processor.Process.{start, Processed, to_group, total_results, run_loop, process}
use recon_sr.Processor.Sound.{process-run, finish-groups}

rogue-requested :
    (requested : List Text) (execs : List InputExecution)
    → rogue_functions requested execs ≢ []
    → is_nil requested ≡ false
unfolding rogue_functions is_rogue
rogue-requested requested [] h = absurd (h refl)
rogue-requested [] (exec ∷ execs) h = rogue-requested [] execs h
rogue-requested (r ∷ requested) (exec ∷ execs) h = refl

not_rogue :
    (requested : List Text) (e : InputExecution)
    → requested ≢ []
    → is_rogue requested e.function ≡ false
    → ¬ ¬ Memᴰ e.function requested
unfolding is_rogue
not_rogue [] e h fine unasked = h refl
not_rogue (r ∷ requested) e h fine unasked =
    elim (Bool-cases (mem_text e.function (r ∷ requested))) [
      | inl asked ↦ unasked ((mem_text_iff e.function (r ∷ requested)).0 asked)
      | inr other ↦ ground arith
    ]

rogue-found :
    (requested : List Text) (exec : InputExecution) (execs : List InputExecution)
    → requested ≢ []
    → Memᴰ exec execs
    → ¬ Memᴰ exec.function requested
    → rogue_functions requested execs ≢ []
unfolding rogue_functions
rogue-found requested exec [] h m unasked = absurd (Memᴰ.not-nil m)
rogue-found requested exec (e ∷ execs) h m unasked =
    elim (Bool-cases (is_rogue requested e.function)) [
      | inl rogue ↦ rw rogue (λ q. cc)
      | inr fine ↦ rw fine (
          ⊎_elim
            (λ at.
              absurd (
                not_rogue requested e h fine (subst (λ x. ¬ Memᴰ x.function requested) at unasked)))
            (λ later. rogue-found requested exec execs h later unasked) (Memᴰ.cases_cons m))
    ]

some_rogue : (fns : List Text) → fns ≢ [] → is_nil fns ≡ false
some_rogue [] h = absurd (h refl)
some_rogue (f ∷ fns) h = refl

skips_all :
    (requested : List Text) (fn : Text)
    → is_nil requested ≡ false
    → is_skipped requested requested fn ≡ true
unfolding is_skipped is_rogue
skips_all requested fn h = ground arith

module _ (lib : Libs) (rules : Rules) (msg : Messages) (input : ProcessorInputData) where
  -- Every requested function counts as returned, and nothing is stored.
  abbrev IsVoid : Run → Type 0
  IsVoid run = (run.returned ≡ input.requested_functions) × (run.groups ≡ [])

  start-IsVoid :
      rogue_functions input.requested_functions input.executions ≢ [] → IsVoid (start msg input)
  unfolding start
  start-IsVoid h =
      let requested = rogue-requested input.requested_functions input.executions h in
      let rogue = some_rogue (rogue_functions input.requested_functions input.executions) h in
      rw (rogue, requested) (refl, refl)

  process_execution-IsVoid :
      (ks : List Key) (run : Run) (exec : InputExecution)
      → is_nil input.requested_functions ≡ false
      → IsVoid run
      → IsVoid (process_execution lib rules msg input ks run exec)
  unfolding process_execution
  process_execution-IsVoid ks run exec h (returned, groups) =
      let skipped : is_skipped run.returned input.requested_functions exec.function ≡ true =
        subst (λ r. is_skipped r input.requested_functions exec.function ≡ true) (sym returned)
          (skips_all input.requested_functions exec.function h) in
      rw skipped (returned, groups)

  process_executions-IsVoid :
      (ks : List Key) (run : Run) (execs : List InputExecution)
      → is_nil input.requested_functions ≡ false
      → IsVoid run
      → IsVoid (process_executions lib rules msg input ks run execs)
  unfolding process_executions
  process_executions-IsVoid ks run [] h v = v
  process_executions-IsVoid ks run (exec ∷ execs) h v =
      process_executions-IsVoid ks (process_execution lib rules msg input ks run exec) execs h
        (process_execution-IsVoid ks run exec h v)

  run_loop-IsVoid :
      (ks : List Key)
      → rogue_functions input.requested_functions input.executions ≢ []
      → (run_loop lib rules msg input ks).groups ≡ []
  unfolding run_loop
  run_loop-IsVoid ks h =
      (process_executions-IsVoid ks (start msg input) input.executions
        (rogue-requested input.requested_functions input.executions h) (start-IsVoid h)).1

  no_results : (d : ProcessorToRepoData) → d.groups ≡ [] → total_results d.groups ≡ 0
  unfolding total_results
  no_results d h = rw h refl

  -- If functions were requested and the module returned an execution of a function that was not
  -- among them, then no result of any of its functions is sent to the repository, and no token is
  -- added for the packet.
  pub process-violation :
      (exec : InputExecution) (p : Processed) (d : ProcessorToRepoData)
      → input.requested_functions ≢ []
      → Memᴰ exec input.executions
      → ¬ Memᴰ exec.function input.requested_functions
      → process lib rules msg input ≡ some p
      → p.packet ≡ some d
      → (d.groups ≡ []) × (p.tokens ≡ 0)
  process-violation exec p d some_requested returned unasked run sent =
      let h =
        rogue-found input.requested_functions exec input.executions some_requested returned
          unasked in
      let (ks, same) = process-run lib rules msg input p run in
      let (gs, tokens) =
        finish-groups lib rules msg input (run_loop lib rules msg input ks) p d same sent in
      let void : d.groups ≡ [] = gs ∙ ap (map to_group) (run_loop-IsVoid ks h) in
      (void, tokens ∙ no_results d void)
