-- ===== src/Dispatcher/Routed.antt =====
-- What `Dispatch` starts, and what it does to the counter of outstanding writers.
use recon_sr.Base.{
  ◌≡◌, ◌⊎◌, inl, inr, refl, sym, subst, true, false, List, [], ◌∷◌, Text, Bool-cases, Option-cases,
  mem_text, Memᴰ, ⊎_elim,
}
use mathlib.Core.List.Memᴰ
use recon_sr.Schema.{BatchItem, ProcessorInputData, ModuleCapabilities, InputExecution}
use recon_sr.Dispatcher.Tags.{match_tags}
use recon_sr.Dispatcher.Config.{ModuleEntry, Index}
use recon_sr.Dispatcher.Routing.{
  World, Depths, ExecResult, timed_out, exec_failed, finished, is_completed, claim, run_function,
  run_functions, flight_key, run_entry, run_entries,
}

ExecResult-cases :
    (r : ExecResult)
    → ((r ≡ timed_out) ⊎ (r ≡ exec_failed)) ⊎ ((x : List InputExecution) × (r ≡ finished x))
ExecResult-cases timed_out = inl (inl refl)
ExecResult-cases exec_failed = inl (inr refl)
ExecResult-cases (finished x) = inr (x, refl)

module _ (world : World) (depths : Depths) (index : Index) (project_id : Text) where
  claim-due :
      (item : BatchItem) (name : Text) (fns keys : List Text) (fn : Text)
      → Memᴰ fn (claim world depths index project_id item name fns keys).pending
      → Memᴰ fn fns × (is_completed name fn item.completed_functions ≡ false)
  unfolding claim
  claim-due item name [] keys fn m = absurd (Memᴰ.not-nil m)
  claim-due item name (g ∷ fns) keys fn m =
      elim (Bool-cases (is_completed name g item.completed_functions)) [
        | inl done ↦
            let (at, free) = claim-due item name fns keys fn (rw done at m) in (Memᴰ.tail at, free)
        | inr open_ ↦
            elim (Bool-cases
              (mem_text (flight_key world depths index project_id item name g) keys)) [
                | inl flying ↦
                    let (at, free) = claim-due item name fns keys fn (rw flying at rw open_ at m) in
                    (Memᴰ.tail at, free)
                | inr idle ↦
                    let split : Memᴰ fn (
                        g
                        ∷ (claim world depths index project_id item name fns (
                            flight_key world depths index project_id item name g ∷ keys)).pending) =
                      rw idle at rw open_ at m in
                    ⊎_elim
                      (λ at. (
                        Memᴰ.head at,
                        subst (λ f. is_completed name f item.completed_functions ≡ false) (sym at)
                            open_,
                      ))
                      (λ later.
                        let (at, free) = claim-due item name fns _ fn later in (Memᴰ.tail at, free))
                      (Memᴰ.cases_cons split)
              ]
      ]

  -- The packet is the answer of one function of the module on the item.
  abbrev pub Requests : BatchItem → Text → Text → ProcessorInputData → Type 0
  Requests item name fn p =
      (p.requested_functions ≡ fn ∷ [])
      × (p.module_name ≡ name)
      × (p.source_entity_id ≡ item.source_entity_id)

  Requests-only :
      (item : BatchItem) (name fn : Text) (p q : ProcessorInputData)
      → Requests item name fn q
      → Memᴰ p (q ∷ [])
      → Requests item name fn p
  Requests-only item name fn p q r m =
      ⊎_elim (λ e. subst (Requests item name fn) (sym e) r) (λ n. absurd (Memᴰ.not-nil n))
        (Memᴰ.cases_cons m)

  run_function-Requests :
      (item : BatchItem) (name : Text) (caps : ModuleCapabilities) (fn : Text)
      (p : ProcessorInputData)
      → Memᴰ p (run_function world depths index project_id item name caps fn)
      → Requests item name fn p
  unfolding run_function
  run_function-Requests item name caps fn p m =
      elim (ExecResult-cases (world.exec name item.entity fn)) [
        | inl (inl e) ↦
            Requests-only item name fn p _ (refl, refl, refl) (rw (e, run_function) at m)
        | inl (inr e) ↦ absurd (Memᴰ.not-nil (rw (e, run_function) at m))
        | inr (x, e) ↦ Requests-only item name fn p _ (refl, refl, refl) (rw (e, run_function) at m)
      ]

  run_functions-Requests :
      (item : BatchItem) (name : Text) (caps : ModuleCapabilities) (fns : List Text)
      (p : ProcessorInputData)
      → Memᴰ p (run_functions world depths index project_id item name caps fns)
      → (fn : Text) × Memᴰ fn fns × Requests item name fn p
  unfolding run_functions
  run_functions-Requests item name caps [] p m = absurd (Memᴰ.not-nil m)
  run_functions-Requests item name caps (fn ∷ fns) p m =
      ⊎_elim (λ now. (fn, Memᴰ.head refl, run_function-Requests item name caps fn p now))
        (λ later.
          let (g, at, r) = run_functions-Requests item name caps fns p later in
          (g, Memᴰ.tail at, r))
        (Memᴰ.append_cases (run_function world depths index project_id item name caps fn) m)

  -- What a run of an entry has in common for each of its packets.
  abbrev pub Chosen : BatchItem → ModuleEntry → ProcessorInputData → Type 0
  Chosen item entry p =
      (match_tags item.entity.tags entry.require_tags entry.exclude_tags ≡ true)
      × (fn : Text) × Memᴰ fn entry.functions
      × (is_completed entry.mod_of.name fn item.completed_functions ≡ false)
      × Requests item entry.mod_of.name fn p

  run_entry-Chosen :
      (item : BatchItem) (entry : ModuleEntry) (keys : List Text) (p : ProcessorInputData)
      → Memᴰ p (run_entry world depths index project_id item entry keys).0
      → Chosen item entry p
  unfolding run_entry
  run_entry-Chosen item entry keys p m =
      elim (Bool-cases (match_tags item.entity.tags entry.require_tags entry.exclude_tags)) [
        | inr miss ↦ absurd (Memᴰ.not-nil (rw miss at m))
        | inl hit ↦ elim (Option-cases entry.mod_of.capabilities) [
          | inl missing ↦ absurd (Memᴰ.not-nil (rw (missing, run_entry) at rw hit at m))
          | inr (caps, known) ↦
              let (fn, at, r) =
                run_functions-Requests item entry.mod_of.name caps
                  (claim world depths index project_id item entry.mod_of.name entry.functions
                    keys).pending
                  p (rw (known, run_entry) at rw hit at m) in
              let (offered, open_) = claim-due item entry.mod_of.name entry.functions keys fn at in
              (hit, fn, offered, open_, r)
        ]
      ]

  pub run_entries-Chosen :
      (item : BatchItem) (entries : List ModuleEntry) (keys : List Text) (p : ProcessorInputData)
      → Memᴰ p (run_entries world depths index project_id item entries keys).0
      → (entry : ModuleEntry) × Memᴰ entry entries × Chosen item entry p
  unfolding run_entries
  run_entries-Chosen item [] keys p m = absurd (Memᴰ.not-nil m)
  run_entries-Chosen item (entry ∷ entries) keys p m =
      ⊎_elim (λ now. (entry, Memᴰ.head refl, run_entry-Chosen item entry keys p now))
        (λ later.
          let (e, at, c) = run_entries-Chosen item entries _ p later in (e, Memᴰ.tail at, c))
        (Memᴰ.append_cases (run_entry world depths index project_id item entry keys).0 m)
