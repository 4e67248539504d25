-- ===== src/Dispatcher/Routing.antt =====
-- `Dispatch`. The goroutines of a batch run in the order of the batch. What a module does, what
-- the timer does to it and how `fmt.Sprintf` prints are the record `World`.
use recon_sr.Base.{
  ℕ, ◌+◌, ◌-◌, Bool, true, false, not, ◌&&◌, ltb, List, [], ◌∷◌, ◌++◌, Option, none, some, Text,
  codes, length, if◌then◌else◌, eq_text, mem_text, lookup,
}
use recon_sr.Schema.{
  Entity, ModuleFunction, BatchItem, InputExecution, ProcessorInputData, ModuleCapabilities,
  FunctionCapabilities,
}
use recon_sr.Dispatcher.Tags.{match_tags}
use recon_sr.Dispatcher.Config.{ModuleEntry, Index, at_key}

-- How a call of `Exec` ends.
pub data ExecResult : Type 0 where
  timed_out exec_failed : ExecResult
  finished : List InputExecution → ExecResult

pub record World : Type 0 where
  -- `Exec` of the module with this name, on this target, for this function.
  pub exec : Text → Entity → Text → ExecResult
  pub timeout_text : Text
  pub show_number : ℕ → Text

-- `MaxDepth` and `StrictDepth`.
pub record Depths : Type 0 where
  pub max_depth : ℕ
  pub strict_depth : Bool

abbrev pub current_depth : Depths → BatchItem → ℕ
current_depth depths item = if depths.strict_depth then item.depth_strict else item.depth_relaxed

-- `completedSet`
unfoldable pub is_completed : Text → Text → List ModuleFunction → Bool
is_completed name fn [] = false
is_completed name fn (c ∷ cs) =
    let rest = is_completed name fn cs in
    if eq_text c.module_name name && eq_text c.function fn then true else rest

-- The types that decide whether a result counts as applied.
abbrev types_or : List Text → List Text → List Text
types_or [] other = other
types_or (t ∷ ts) other = t ∷ ts

abbrev config_types : Option FunctionCapabilities → List Text
config_types none = []
config_types (some c) = c.input_types

unfoldable pub function_types : ModuleCapabilities → Text → List Text
function_types caps fn =
    types_or (config_types (lookup fn caps.custom_functions))
      (types_or (config_types caps.module_config) caps.input_types)

-- What is left to run of an entry, and the keys in flight after it.
pub record Claimed : Type 0 where
  pub pending : List Text
  pub in_flight : List Text

-- `writersWg` after an item: `Done`, or `Add(K - 1)` for K packets.
unfoldable pub settle : ℕ → List ProcessorInputData → ℕ
settle writers [] = writers - 1
settle writers (p ∷ ps) = writers + (length (p ∷ ps) - 1)

-- What the calls of `Process` are started with, the keys in flight, and the counter.
pub record Dispatched : Type 0 where
  pub spawned : List ProcessorInputData
  pub keys : List Text
  pub writers : ℕ

module _ (world : World) (depths : Depths) (index : Index) (project_id : Text) where
  unfoldable pub flight_key : BatchItem → Text → Text → Text
  flight_key item name fn =
      project_id
      ++ (b'|'
          ∷ (world.show_number item.source_entity_id
              ++ (b'|'
                  ∷ (item.entity.type
                      ++ (b'|' ∷ (item.entity.value ++ (b'|' ∷ (name ++ (b'|' ∷ fn)))))))))

  -- The loop over the functions of an entry.
  unfoldable pub claim : BatchItem → Text → List Text → List Text → Claimed
  claim item name [] in_flight = record { pending = []; in_flight = in_flight }
  claim item name (fn ∷ fns) in_flight =
      let key = flight_key item name fn in
      let skipped = claim item name fns in_flight in
      let claimed = claim item name fns (key ∷ in_flight) in
      if is_completed name fn item.completed_functions
      then skipped
      else if mem_text key in_flight
      then skipped
      else record claimed { pending = fn ∷ claimed.pending }

  abbrev pub blank : BatchItem → Text → ModuleCapabilities → Text → ProcessorInputData
  blank item name caps fn = record {
    project_id = project_id;
    module_name = name;
    source_entity_id = item.source_entity_id;
    source_entity = record {
      type = item.entity.type;
      category = [];
      value = item.entity.value;
      tags = [];
    };
    executions = [];
    requested_functions = fn ∷ [];
    function_input_types = (fn, function_types caps fn) ∷ [];
    errors = [];
  }

  -- The goroutine of one function; a call that fails sends nothing.
  unfoldable pub run_function :
      BatchItem → Text → ModuleCapabilities → Text → List ProcessorInputData
  run_function item name caps fn = elim (world.exec name item.entity fn) [
    | timed_out ↦
        record (blank item name caps fn) {
          errors = record { function = fn; type = codes "timeout"; text = world.timeout_text } ∷ [];
        }
        ∷ []
    | exec_failed ↦ []
    | finished executions ↦ record (blank item name caps fn) { executions = executions } ∷ []
  ]

  unfoldable pub run_functions :
      BatchItem → Text → ModuleCapabilities → List Text → List ProcessorInputData
  run_functions item name caps [] = []
  run_functions item name caps (fn ∷ fns) =
      run_function item name caps fn ++ run_functions item name caps fns

  -- The goroutine of one entry: what it sends, and the keys in flight after it. If the module
  -- cannot tell its capabilities, its keys are taken back.
  unfoldable pub run_entry :
      BatchItem → ModuleEntry → List Text → List ProcessorInputData × List Text
  run_entry item entry in_flight =
      let claimed = claim item entry.mod_of.name entry.functions in_flight in
      if not (match_tags item.entity.tags entry.require_tags entry.exclude_tags)
      then ([], in_flight)
      else elim entry.mod_of.capabilities [
        | none ↦ ([], in_flight)
        | some caps ↦ (run_functions item entry.mod_of.name caps claimed.pending, claimed.in_flight)
      ]

  unfoldable pub run_entries :
      BatchItem → List ModuleEntry → List Text → List ProcessorInputData × List Text
  run_entries item [] in_flight = ([], in_flight)
  run_entries item (entry ∷ entries) in_flight =
      let (sent, after) = run_entry item entry in_flight in
      let (more, last) = run_entries item entries after in (sent ++ more, last)

  -- What an item starts, after the early returns.
  unfoldable pub item_results : BatchItem → List Text → List ProcessorInputData × List Text
  item_results item in_flight =
      if item.out_of_scope
      then ([], in_flight)
      else if ltb depths.max_depth (current_depth depths item)
      then ([], in_flight)
      else run_entries item (at_key item.entity.type index) in_flight

  unfoldable pub dispatch_items : List BatchItem → List Text → ℕ → Dispatched
  dispatch_items [] in_flight writers = record { spawned = []; keys = in_flight; writers = writers }
  dispatch_items (item ∷ batch) in_flight writers =
      let (results, after) = item_results item in_flight in
      let rest = dispatch_items batch after (settle writers results) in
      record rest { spawned = results ++ rest.spawned }
