-- ===== src/Examples/Dispatches.antt =====
-- One module with one function, and an item that it is run on.
use recon_sr.Base.{
  ℕ, ◌+◌, ◌≤◌, ◌≡◌, refl, arith, true, false, List, [], ◌∷◌, ◌++◌, ◌-◌, none, some, codes, length,
  Memᴰ,
}
use recon_sr.Schema.{
  BatchItem, ModuleCapabilities, FunctionCapabilities, ProcessorInputData, ProcessorToRepoData,
}
use recon_sr.Processor.Process.{Processed, total_results, process}
use recon_sr.Dispatcher.Config.{
  Module, Limits, ModuleLimit, Switches, Index, cascade, load_memory_config,
}
use recon_sr.Dispatcher.Actionable.{IsRunnable, is_actionable-IsRunnable}
use recon_sr.Dispatcher.Routing.{
  World, Depths, finished, function_types, blank, item_results, dispatch_items,
}
use recon_sr.Dispatcher.TypesAgree.{function_types-cascade, module_limits-le}
use recon_sr.Dispatcher.Due.{IsDue, dispatch_items-IsDue, dispatch_items-writers}
use recon_sr.Pipeline.{
  Repository, Flow, packets_of, give_back, start_with_batch, dispatched, processed, done, stored,
  Steps, no_step, and_step,
}
use recon_sr.Pipeline.Balance.{IsBalanced, results_of, Steps-IsBalanced, close_is_safe}
use recon_sr.Examples.Inputs.{
  com_libs, example_rules, short_messages, example_entity, mail_execution, running,
}

-- The function `sub` has a configuration of its own, which asks for too much.
abbrev sub_function : FunctionCapabilities
sub_function = record {
  limit = 500;
  delay_ms = none;
  input_types = codes "domain" ∷ codes "subdomain" ∷ [];
  required_tags = (codes "!private" ∷ []) ∷ [];
}

abbrev dns_caps : ModuleCapabilities
dns_caps = record {
  functions = [];
  input_types = codes "ipv4" ∷ [];
  module_config = none;
  custom_functions = (codes "sub", sub_function) ∷ [];
}

abbrev registry : List Module
registry = record { name = codes "dns"; capabilities = some dns_caps } ∷ []

abbrev limits : Limits
limits = record {
  default_concurrency = 30;
  max_concurrency = 100;
  default_delay = 200;
  cfg_limits = [];
  cfg_delays = [];
}

abbrev settings : Switches
settings = (codes "dns", (codes "sub", true) ∷ []) ∷ []

is_actionable-IsRunnable_example :
    IsRunnable limits registry settings (codes "domain") (codes "dns") (codes "sub") []
unfolding running
is_actionable-IsRunnable_example =
    is_actionable-IsRunnable limits registry settings (codes "domain") (codes "dns") (codes "sub")
      [] refl

function_types-cascade_example :
    function_types dns_caps (codes "sub") ≡ (cascade limits dns_caps (codes "sub")).input_types
function_types-cascade_example = function_types-cascade limits dns_caps (codes "sub")

abbrev sub_limit : ModuleLimit
sub_limit = record { concurrency = 100; pause_ms = 200 }

module_limits-le_example : sub_limit.concurrency ≤ limits.max_concurrency
unfolding running
module_limits-le_example =
    module_limits-le limits registry settings (codes "dns|sub") sub_limit refl

abbrev pub loaded_index : Index
loaded_index = (load_memory_config limits registry settings).index

abbrev pub calm_world : World
calm_world = record {
  exec = λ name target fn. finished (mail_execution ∷ []);
  timeout_text = codes "timeout";
  show_number = λ n. codes "1";
}

abbrev pub two_deep : Depths
two_deep = record { max_depth = 2; strict_depth = true }

abbrev pub first_item : BatchItem
first_item = record {
  source_entity_id = 1;
  entity = example_entity;
  out_of_scope = false;
  depth_strict = 0;
  depth_relaxed = 0;
  completed_functions = [];
}

abbrev pub shut_item : BatchItem
shut_item = record first_item { out_of_scope = true }

abbrev first_packet : ProcessorInputData
first_packet =
    record (blank calm_world two_deep loaded_index (codes "p") first_item (codes "dns") dns_caps
      (codes "sub")) { executions = mail_execution ∷ [] }

dispatch_items-IsDue_example :
    IsDue two_deep loaded_index (shut_item ∷ first_item ∷ []) first_packet
unfolding running
dispatch_items-IsDue_example =
    dispatch_items-IsDue calm_world two_deep loaded_index (codes "p") (shut_item ∷ first_item ∷ [])
      [] 2 first_packet (Memᴰ.head refl)

dispatch_items-writers_example :
    (dispatch_items calm_world two_deep loaded_index
        (codes "p")
        (shut_item ∷ first_item ∷ [])
        []
        2).writers
      + 2
    ≡ 2
      + length
          (dispatch_items calm_world two_deep loaded_index
            (codes "p")
            (shut_item ∷ first_item ∷ [])
            []
            2).spawned
dispatch_items-writers_example =
    dispatch_items-writers calm_world two_deep loaded_index (codes "p")
      (shut_item ∷ first_item ∷ []) [] 2 (omega arith)

idle_small : (batch : List BatchItem) (n : ℕ) → none ≡ some batch → length batch ≤ n
idle_small batch n h = absurd (ground arith)

-- A repository that has no new work.
abbrev idle_repository : Repository
idle_repository = record {
  store = λ d answer. none ≡ answer;
  store_small = λ d batch h. idle_small batch (total_results d.groups) h;
}

abbrev start_flow : Flow
start_flow = start_with_batch (first_item ∷ [])

abbrev after_dispatch : Flow
after_dispatch = record start_flow {
  items = [];
  inputs = (item_results calm_world two_deep loaded_index (codes "p") first_item []).0;
  keys = (item_results calm_world two_deep loaded_index (codes "p") first_item []).1;
  writers = 1;
}

one_dispatch :
    Steps com_libs short_messages two_deep loaded_index
      (codes "p")
      idle_repository
      start_flow
      after_dispatch
unfolding running
one_dispatch = and_step no_step (dispatched calm_world [] [] first_item refl)

Steps-IsBalanced_example : IsBalanced after_dispatch
Steps-IsBalanced_example =
    Steps-IsBalanced com_libs short_messages two_deep loaded_index (codes "p") idle_repository
      one_dispatch refl

abbrev first_processed : Processed
unfolding running
first_processed = elim (process com_libs example_rules short_messages first_packet) [
  | none ↦ record { packet = none; tokens = 0 }
  | some p ↦ p
]

abbrev after_process : Flow
after_process = record after_dispatch {
  inputs = [];
  closing = 1;
  packets = packets_of first_processed.packet ++ [];
  writers = 1 + first_processed.tokens;
}

abbrev after_done : Flow
after_done = record after_process { closing = 0; writers = 1 + first_processed.tokens - 1 }

first_sent : ProcessorToRepoData
unfolding running
first_sent = elim first_processed.packet [
  | none ↦ record {
    project_id = [];
    module_name = [];
    source_entity_id = 0;
    source_entity = example_entity;
    groups = [];
    functions_without_results = [];
    function_raw_data = [];
    errors = [];
  }
  | some d ↦ d
]

abbrev after_store : Flow
unfolding running first_sent
after_store = record after_done {
  items = [];
  packets = [];
  writers = give_back (total_results first_sent.groups) 0 after_done.writers;
}

-- The item is dispatched, its packet is processed and stored, and the counter is 0.
whole_run :
    Steps com_libs short_messages two_deep loaded_index
      (codes "p")
      idle_repository
      start_flow
      after_store
unfolding running first_processed first_sent after_store
whole_run =
    and_step
      (and_step
        (and_step one_dispatch
          (processed example_rules [] [] first_packet first_processed refl refl))
        (done 0 refl))
      (stored [] [] first_sent none refl refl)

close_is_safe_example :
    (after_store.items ≡ [])
    × (after_store.inputs ≡ [])
    × (after_store.closing ≡ 0)
    × (results_of after_store.packets ≡ 0)
unfolding running first_processed first_sent after_store
close_is_safe_example =
    close_is_safe com_libs short_messages two_deep loaded_index (codes "p") idle_repository
      (first_item ∷ []) whole_run refl
