-- ===== src/Pipeline.antt =====
-- internal/pipeline/pipeline.go: the loops of `Run` and the counter `repoWritersWg`, as a step
-- relation. `Store` of internal/repository stands for itself in the record `Repository`: the batch
-- that it returns, and that this batch has at most one item for each result of the packet.
pub mod Balance
pub mod Stores
use recon_sr.Base.{
  ℕ, ◌+◌, ◌-◌, ◌≤◌, ◌≡◌, Bool, ltb, List, [], ◌∷◌, ◌++◌, Option, none, some, Text, length,
  if◌then◌else◌,
}
use recon_sr.Libs.{Libs}
use recon_sr.Scope.RuleSets.{Rules}
use recon_sr.Schema.{BatchItem, ProcessorInputData, ProcessorToRepoData}
use recon_sr.Processor.Context.{Messages}
use recon_sr.Processor.Process.{Processed, total_results, process}
use recon_sr.Dispatcher.Config.{Index}
use recon_sr.Dispatcher.Routing.{World, Depths, item_results, settle}

-- What `Store` can answer for a packet, which differs from call to call with what the database
-- holds: `none` if it fails or returns nothing.
pub record Repository : Type 1 where
  pub store : ProcessorToRepoData → Option (List BatchItem) → Type 0
  pub store_small :
      (d : ProcessorToRepoData) (batch : List BatchItem)
      → store d (some batch)
      → length batch ≤ total_results d.groups

-- What is under way: the items of the batches that the dispatcher has taken, the calls of
-- `Process`, those that have sent their packet and have yet to call `Done`, and the packets.
pub record Flow : Type 0 where
  pub items : List BatchItem
  pub inputs : List ProcessorInputData
  pub closing : ℕ
  pub packets : List ProcessorToRepoData
  pub keys : List Text
  pub writers : ℕ

-- `Process` sends its packet, if it has one, after it has added its tokens.
abbrev pub packets_of : Option ProcessorToRepoData → List ProcessorToRepoData
packets_of none = []
packets_of (some d) = d ∷ []

abbrev pub batch_of : Option (List BatchItem) → List BatchItem
batch_of none = []
batch_of (some batch) = batch

-- The counter after `Store`: the tokens of the results that it returned no item for are given back.
unfoldable pub give_back : ℕ → ℕ → ℕ → ℕ
give_back expected actual writers =
    if ltb actual expected then writers - (expected - actual) else writers

-- The two ways in which `Run` starts: `ToProcessor` and `ToDispatcher`.
abbrev pub start_with_input : ProcessorInputData → Flow
start_with_input input = record {
  items = [];
  inputs = input ∷ [];
  closing = 0;
  packets = [];
  keys = [];
  writers = 1;
}

abbrev pub start_with_batch : List BatchItem → Flow
start_with_batch batch = record {
  items = batch;
  inputs = [];
  closing = 0;
  packets = [];
  keys = [];
  writers = length batch;
}

module _ (lib : Libs) (msg : Messages) (depths : Depths) (index : Index) (project_id : Text)
    (repository : Repository) where
  pub data Step : Flow → Flow → Type 0 where
    -- The goroutine of an item of a batch; what its modules answer is the step's own.
    dispatched :
        {f : Flow} (world : World) (before after : List BatchItem) (item : BatchItem)
        → f.items ≡ before ++ item ∷ after
        → Step f (record f {
          items = before ++ after;
          inputs = (item_results world depths index project_id item f.keys).0 ++ f.inputs;
          keys = (item_results world depths index project_id item f.keys).1;
          writers = settle f.writers (item_results world depths index project_id item f.keys).0;
        })
    -- A key is deleted five seconds after its call.
    forgotten :
        {f : Flow} (before after : List Text) (key : Text)
        → f.keys ≡ before ++ key ∷ after
        → Step f (record f { keys = before ++ after })
    -- `Process` adds its tokens and sends its packet. The rules are those of the time of the call,
    -- since the scope may have been loaded again.
    processed :
        {f : Flow} (rules : Rules) (before after : List ProcessorInputData)
        (input : ProcessorInputData) (p : Processed)
        → f.inputs ≡ before ++ input ∷ after
        → process lib rules msg input ≡ some p
        → Step f (record f {
          inputs = before ++ after;
          closing = f.closing + 1;
          packets = packets_of p.packet ++ f.packets;
          writers = f.writers + p.tokens;
        })
    -- `Process` calls `Done`.
    done :
        {f : Flow} (n : ℕ)
        → f.closing ≡ n + 1
        → Step f (record f { closing = n; writers = f.writers - 1 })
    -- The loop over `repoChan`.
    stored :
        {f : Flow} (before after : List ProcessorToRepoData) (d : ProcessorToRepoData)
        (answer : Option (List BatchItem))
        → f.packets ≡ before ++ d ∷ after
        → repository.store d answer
        → Step f (record f {
          items = batch_of answer ++ f.items;
          packets = before ++ after;
          writers = give_back (total_results d.groups) (length (batch_of answer)) f.writers;
        })
    -- `CheckAndResumeScope`, which is called when the counter is 0.
    resumed :
        {f : Flow} (payload : List BatchItem)
        → f.writers ≡ 0
        → Step f (record f { items = payload ++ f.items; writers = f.writers + length payload })

  pub data Steps : Flow → Flow → Type 0 where
    no_step : {f : Flow} → Steps f f
    and_step : {f g h : Flow} → Steps f g → Step g h → Steps f h
