-- ===== src/Examples/Batches.antt =====
-- A packet with a node, a property of the node, and a property of that property.
use recon_sr.Base.{
  ℕ, ◌+◌, map, ◌≤◌, ◌≡◌, inr, refl, arith, true, false, List, [], ◌∷◌, none, some, Text, codes,
  length, Memᴰ, ◌==◌, if◌then◌else◌,
}
use recon_sr.Schema.{EntityRef, ValidResult, ResultGroup, RepoError, ProcessorToRepoData, BatchItem}
use recon_sr.Processor.Process.{total_results}
use recon_sr.Repository.Batch.{
  EntityFields, StoreBatch, Built, built, find, put, normalize_category, append_unique_tags,
  update_at, note_local, with_node, add_node, merge_property, with_property, add_property,
  eq_property_key, resolve_source, place_target, place_anchor, place_result, place_results, round,
  rounds, root_batch, build_store_batch,
}
use recon_sr.Repository.Shape.{InRange}
use recon_sr.Repository.Rounds.{IsBuilt, build_store_batch_total, build_store_batch-IsBuilt}
use recon_sr.Repository.Layers.{mem_id, next_layer, resolved_all, resolve_layers}
use recon_sr.Repository.LayersEnd.{resolve_layers_all}
use recon_sr.Repository.States.{
  EntityState, States, unresolved_depth, mark_scope, mark_result, mark_results, lower_strict,
  lower_relaxed, lower_anchored, relax_relaxed, relax_result, relax_results, relax_rounds,
  relax_depths,
}
use recon_sr.Repository.Shortest.{Chain, relax_depths-IsShortest}
use recon_sr.Repository.Logs.{
  eq_log_key, keeps_old, add_log, raw_id, log_result, log_results, log_errors, log_empty, all_logs,
}
use recon_sr.Repository.Logged.{IsLogged, all_logs-IsLogged}
use recon_sr.Repository.Store.{
  Database, PropertyRow, merge_row, raw_ids, property_states, first_states, work_states, row,
  result_items, store_targets, build_batch_items, store_rows, store_batch, store,
}
use recon_sr.Repository.Stored.{store-le}
use recon_sr.Pipeline.{Flow, start_with_batch, Step, stored}
use recon_sr.Pipeline.Stores.{store_repository}
use recon_sr.Examples.Inputs.{com_libs, short_messages, example_entity, running}
use recon_sr.Examples.Dispatches.{two_deep, loaded_index}

storing : Unit {0}
unfolding running find put normalize_category append_unique_tags update_at note_local with_node
    add_node merge_property with_property add_property eq_property_key resolve_source place_target
    place_anchor place_result place_results round rounds root_batch build_store_batch mem_id
    next_layer resolve_layers mark_scope mark_result mark_results lower_strict lower_relaxed
    lower_anchored relax_relaxed relax_result relax_results relax_rounds relax_depths eq_log_key
    keeps_old add_log raw_id log_result log_results log_errors log_empty all_logs first_states
    work_states merge_row raw_ids property_states row result_items store_targets build_batch_items
    store_rows store_batch store
storing = tt

abbrev mail_node : ValidResult
mail_node = record {
  function = codes "sub";
  type = codes "subdomain";
  category = codes "node";
  value = codes "mail.example.com";
  context = [];
  applied = true;
  out_of_scope = false;
  tags = [];
  anchor = codes "example.com";
  local_id = 7;
}

abbrev mail_software : ValidResult
mail_software = record mail_node {
  type = codes "software";
  category = codes "property";
  value = codes "postfix";
  anchor = [];
  local_id = 8;
}

abbrev mail_version : ValidResult
mail_version = record mail_software { type = codes "version"; value = codes "3.8"; local_id = 0 }

abbrev local_source : ℕ → EntityRef
local_source n = record { type = []; value = []; anchor = []; local_id = n }

-- The groups come in the wrong order: each waits for the one after it.
abbrev mail_groups : List ResultGroup
mail_groups =
    record { source = local_source 8; results = mail_version ∷ [] }
    ∷ record { source = local_source 7; results = mail_software ∷ [] }
    ∷ record {
      source = record (local_source 0) { type = codes "domain"; value = codes "example.com" };
      results = mail_node ∷ [];
    }
    ∷ []

abbrev root_fields : EntityFields
root_fields = record {
  entity_type = codes "domain";
  value = codes "example.com";
  category = codes "node";
}

build_store_batch_total_example : (r : Built) × (build_store_batch mail_groups root_fields ≡ some r)
build_store_batch_total_example = build_store_batch_total mail_groups root_fields

abbrev mail_batch : StoreBatch
unfolding storing
mail_batch = elim (build_store_batch mail_groups root_fields) [
  | none ↦ root_batch root_fields
  | some r ↦ elim r [ built b ↦ b | _ ↦ root_batch root_fields ]
]

build_store_batch-IsBuilt_example : IsBuilt mail_groups mail_batch
unfolding storing mail_batch
build_store_batch-IsBuilt_example =
    build_store_batch-IsBuilt mail_groups root_fields mail_batch refl

resolve_layers_all_example :
    (rs : List ℕ) × (resolve_layers mail_batch
        (λ layer. layer)
        (length mail_batch.property_ids)
        mail_batch.property_ids
        (mail_batch.root_id ∷ mail_batch.node_ids)
      ≡ some (resolved_all rs))
    × ((id : ℕ) → InRange (length mail_batch.entities) id → Memᴰ id rs)
unfolding storing mail_batch
resolve_layers_all_example =
    resolve_layers_all mail_groups root_fields mail_batch (λ layer. layer) refl (λ layer id m. m)

abbrev far : EntityState
far = record {
  db_id = 0;
  out_of_scope = false;
  depth_strict = unresolved_depth;
  depth_relaxed = unresolved_depth;
  anchor = [];
  is_anchor = false;
}

abbrev mail_states : States
mail_states id = if id == 1 then record far { depth_strict = 0; depth_relaxed = 0 } else far

far-le : (id : ℕ) → (mail_states id).depth_strict ≤ unresolved_depth
far-le id = ground arith

relax_depths-IsShortest_example :
    ((k : ℕ) × Chain mail_batch mail_states 3
        (relax_depths mail_batch mail_states 3).depth_strict
        k)
    × ((d j : ℕ)
        → Chain mail_batch mail_states 3 d j
        → j ≤ length mail_batch.entities
        → (relax_depths mail_batch mail_states 3).depth_strict ≤ d)
relax_depths-IsShortest_example = relax_depths-IsShortest mail_batch mail_states 3 far-le

-- The property of the property is as deep as the node.
version_depth :
    ((relax_depths mail_batch mail_states 4).depth_strict ≡ 1)
    × ((relax_depths mail_batch mail_states 2).depth_strict ≡ 1)
unfolding storing mail_batch
version_depth = (refl, refl)

all_logs-IsLogged_example : IsLogged 1 (codes "txt") (all_logs [] 1 [] [] (codes "txt" ∷ []))
all_logs-IsLogged_example =
    all_logs-IsLogged [] 1 (codes "txt") [] [] (codes "txt" ∷ []) (λ e. cc) (λ e. cc)
      (inr (inr (Memᴰ.head refl)))

abbrev shut_property : PropertyRow
shut_property = record { out_of_scope = true; depth_strict = 0; depth_relaxed = 9 }

abbrev plain_database : Database
plain_database = record {
  stored = λ id. some (record {
    id = id;
    entity = root_fields;
    out_of_scope = false;
    depth_strict = 0;
    depth_relaxed = 0;
    anchor = [];
    is_anchor = false;
  });
  node_states = λ b states. some states;
  upsert_nodes = λ b states. some b.node_ids;
  upsert_layer = λ layer. layer;
  row_of = λ id. 100 + id;
  upserts_properties = true;
  old_property = λ id. if id == 3 then some shut_property else none;
  raw_row = λ fn. 0;
  commits = λ logs. true;
  functions_of = λ id. [];
  tags_of = λ id. [];
  answers = true;
}

abbrev plain_error : Text → RepoError
plain_error fn = record {
  function = fn;
  error_type = codes "invalid_batch(core)";
  error_text = codes "refused";
}

abbrev mail_data : ProcessorToRepoData
mail_data = record {
  project_id = codes "p";
  module_name = codes "dns";
  source_entity_id = 1;
  source_entity = example_entity;
  groups = mail_groups;
  functions_without_results = [];
  function_raw_data = [];
  errors = [];
}

abbrev mail_items : List BatchItem
unfolding storing
mail_items = elim (store plain_database plain_error [] mail_data) [ none ↦ [] | some items ↦ items ]

-- A property that was shut out before stays shut out, and keeps its smaller depth.
merged_property :
    (map BatchItem.out_of_scope mail_items ≡ false ∷ true ∷ false ∷ [])
    × (map BatchItem.depth_strict mail_items ≡ 1 ∷ 0 ∷ 1 ∷ [])
unfolding storing mail_items
merged_property = (refl, refl)

-- All three results get an item.
three_items : length mail_items ≡ 3
unfolding storing mail_items
three_items = refl

store-le_example : length mail_items ≤ total_results mail_groups
unfolding storing mail_items
store-le_example = store-le plain_database plain_error [] mail_data mail_items refl

abbrev waiting_flow : Flow
waiting_flow = record (start_with_batch []) { packets = mail_data ∷ []; writers = 3 }

abbrev stored_flow : Flow
unfolding storing mail_items
stored_flow = record waiting_flow { packets = []; items = mail_items }

-- The pipeline takes the three items of `Store`, and gives no token back.
stored_of_packet :
    Step com_libs short_messages two_deep loaded_index
      (codes "p")
      (store_repository plain_error)
      waiting_flow
      stored_flow
unfolding storing mail_items stored_flow
stored_of_packet = stored [] [] mail_data (some mail_items) refl (plain_database, [], refl)
