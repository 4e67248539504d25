-- ===== src/Pipeline/Balance.antt =====
-- The counter counts what is under way.
use recon_sr.Base.{
  ℕ, ◌+◌, ◌≤◌, ◌≡◌, refl, ap, arith, List, [], ◌∷◌, ◌++◌, Option, none, some, Text, length,
  length-append,
}
use recon_sr.Libs.{Libs}
use recon_sr.Schema.{BatchItem, ProcessorInputData, ProcessorToRepoData}
use recon_sr.Processor.Context.{Messages}
use recon_sr.Processor.Process.{total_results}
use recon_sr.Processor.Sound.{sent_results, process-tokens}
use recon_sr.Dispatcher.Config.{Index}
use recon_sr.Dispatcher.Routing.{Depths, item_results}
use recon_sr.Dispatcher.Due.{settle-length}
use recon_sr.Pipeline.{
  Repository, Flow, packets_of, batch_of, give_back, start_with_input, start_with_batch, Step,
  dispatched, forgotten, processed, done, stored, resumed, Steps, no_step, and_step,
}

-- The results of the packets that wait for the repository.
abbrev pub results_of : List ProcessorToRepoData → ℕ
results_of [] = 0
results_of (d ∷ ds) = total_results d.groups + results_of ds

-- One token for each item, each call of `Process` and each result.
abbrev pub IsBalanced : Flow → Type 0
IsBalanced f = f.writers ≡ length f.items + length f.inputs + f.closing + results_of f.packets

length-removed :
    {A : Type 0} (before after all : List A) (x : A)
    → all ≡ before ++ x ∷ after
    → length all ≡ length (before ++ after) + 1
length-removed before after all x e =
    omega (arith, ap length e, length-append before (x ∷ after), length-append before after)

results_of-append :
    (ds es : List ProcessorToRepoData) → results_of (ds ++ es) ≡ results_of ds + results_of es
results_of-append [] es = omega arith
results_of-append (d ∷ ds) es = omega (arith, results_of-append ds es)

results_of-removed :
    (before after all : List ProcessorToRepoData) (d : ProcessorToRepoData)
    → all ≡ before ++ d ∷ after
    → results_of all ≡ results_of (before ++ after) + total_results d.groups
results_of-removed before after all d e =
    omega
      (arith, ap results_of e, results_of-append before (d ∷ after), results_of-append before after)

results_of-packets_of :
    (o : Option ProcessorToRepoData) → results_of (packets_of o) ≡ sent_results o
results_of-packets_of none = refl
results_of-packets_of (some d) = omega arith

give_back-exact :
    (expected actual writers : ℕ)
    → actual ≤ expected
    → expected ≤ writers
    → give_back expected actual writers + expected ≡ writers + actual
unfolding give_back
give_back-exact expected actual writers h k = ground arith

store-small :
    (r : Repository) (d : ProcessorToRepoData) (answer : Option (List BatchItem))
    → r.store d answer
    → length (batch_of answer) ≤ total_results d.groups
store-small r d none s = omega arith
store-small r d (some batch) s = r.store_small d batch s

empty-length : {A : Type 0} (xs : List A) → length xs ≡ 0 → xs ≡ []
empty-length [] h = refl
empty-length (x ∷ xs) h = absurd (omega arith)

module _ (lib : Libs) (msg : Messages) (depths : Depths) (index : Index) (project_id : Text)
    (repository : Repository) where
  Step-IsBalanced :
      {f g : Flow}
      → Step lib msg depths index project_id repository f g
      → IsBalanced f
      → IsBalanced g
  Step-IsBalanced {f} (dispatched world before after item e) h =
      let results = (item_results world depths index project_id item f.keys).0 in
      let gone = length-removed before after f.items item e in
      omega (arith, settle-length f.writers results (omega arith), length-append results f.inputs)
  Step-IsBalanced (forgotten before after key e) h = h
  Step-IsBalanced {f} (processed rules before after input p e run) h =
      let gone = length-removed before after f.inputs input e in
      let tokens = process-tokens lib rules msg input p run in
      omega
        (arith, results_of-append (packets_of p.packet) f.packets, results_of-packets_of p.packet)
  Step-IsBalanced {f} (done n e) h = omega arith
  Step-IsBalanced {f} (stored before after d answer e s) h =
      let batch = batch_of answer in
      let gone = results_of-removed before after f.packets d e in
      let small = store-small repository d answer s in
      omega (
        arith,
        give_back-exact (total_results d.groups) (length batch) f.writers small (omega arith),
        length-append batch f.items,
      )
  Step-IsBalanced {f} (resumed payload e) h = omega (arith, length-append payload f.items)

  -- If the counter of outstanding writers equals the items under way plus the calls of `Process`
  -- under way plus the results that wait for the repository, then it does so after any sequence
  -- of steps, in whatever order the goroutines act, provided that `Store` returns at most one
  -- item for each result of a packet.
  pub Steps-IsBalanced :
      {f g : Flow}
      → Steps lib msg depths index project_id repository f g
      → IsBalanced f
      → IsBalanced g
  Steps-IsBalanced no_step h = h
  Steps-IsBalanced (and_step steps step) h = Step-IsBalanced step (Steps-IsBalanced steps h)

  start_with_batch-IsBalanced : (batch : List BatchItem) → IsBalanced (start_with_batch batch)
  start_with_batch-IsBalanced batch = omega arith

  -- When the counter of a run that began with a batch reaches 0, no item is left to dispatch, no
  -- call of `Process` is under way, and no packet that waits for the repository has a result,
  -- provided that `Store` returns at most one item for each result of a packet.
  pub close_is_safe :
      (batch : List BatchItem) {f : Flow}
      → Steps lib msg depths index project_id repository (start_with_batch batch) f
      → f.writers ≡ 0
      → (f.items ≡ []) × (f.inputs ≡ []) × (f.closing ≡ 0) × (results_of f.packets ≡ 0)
  close_is_safe batch {f} steps h =
      let b = Steps-IsBalanced steps (start_with_batch-IsBalanced batch) in
      (
        empty-length f.items (omega arith),
        empty-length f.inputs (omega arith),
        omega arith,
        omega arith,
      )

  -- The same holds of a run that began with one packet of a module.
  pub close_is_safe_input :
      (input : ProcessorInputData) {f : Flow}
      → Steps lib msg depths index project_id repository (start_with_input input) f
      → f.writers ≡ 0
      → (f.items ≡ []) × (f.inputs ≡ []) × (f.closing ≡ 0) × (results_of f.packets ≡ 0)
  close_is_safe_input input {f} steps h =
      let b = Steps-IsBalanced steps (omega arith) in
      (
        empty-length f.items (omega arith),
        empty-length f.inputs (omega arith),
        omega arith,
        omega arith,
      )
