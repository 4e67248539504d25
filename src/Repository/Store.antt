-- ===== src/Repository/Store.antt =====
-- `Store` as a whole. What the database does is the record `Database`: a step that fails is `none`,
-- and the statements that only write (raw data, tags, relations, observations, errors, the log)
-- and the commit are one test.
use recon_sr.Base.{
  ℕ, ◌==◌, Bool, false, not, ◌&&◌, ◌||◌, min, List, [], ◌∷◌, ◌++◌, map, Option, none, some, Text,
  length, if◌then◌else◌, ◌>>=◌,
}
use recon_sr.Strings.{is_empty}
use recon_sr.Schema.{Entity, ModuleFunction, BatchItem, ProcessorToRepoData, RepoError}
use recon_sr.Processor.Context.{is_nil}
use recon_sr.Repository.Batch.{
  StoreBatch, BatchResult, EntityFields, item, Built, built, ambiguous, unresolved,
  build_store_batch, root_batch,
}
use recon_sr.Repository.Layers.{mem_id, Layers, resolved_all, stuck, resolve_layers}
use recon_sr.Repository.States.{
  EntityState, States, unresolved_depth, modify, mark_results, relax_depths,
}
use recon_sr.Repository.Logs.{LogMap, ResultItem, all_logs}

-- `storedEntity`
pub record StoredEntity : Type 0 where
  pub id : ℕ
  pub entity : EntityFields
  pub out_of_scope : Bool
  pub depth_strict : ℕ
  pub depth_relaxed : ℕ
  pub anchor : Text
  pub is_anchor : Bool

-- The columns that the statement of `upsertPropertyLayer` merges and returns.
pub record PropertyRow : Type 0 where
  pub out_of_scope : Bool
  pub depth_strict : ℕ
  pub depth_relaxed : ℕ

pub record Database : Type 0 where
  -- `loadStoredEntity`, after the project's database is opened.
  pub stored : ℕ → Option StoredEntity
  -- `loadNodeStates`
  pub node_states : StoreBatch → States → Option States
  -- The nodes that the three calls for nodes have a row for.
  pub upsert_nodes : StoreBatch → States → Option (List ℕ)
  -- The properties of a layer that `upsertPropertyLayer` has a row for.
  pub upsert_layer : List ℕ → List ℕ
  -- The row of an entity that has one.
  pub row_of : ℕ → ℕ
  -- Whether the calls of `upsertPropertyLayer` succeed.
  pub upserts_properties : Bool
  -- The row that a property has before it is written.
  pub old_property : ℕ → Option PropertyRow
  -- The row of the raw data of a function.
  pub raw_row : Text → ℕ
  pub commits : LogMap → Bool
  -- The queries of `buildBatchItems`.
  pub functions_of : ℕ → List ModuleFunction
  pub tags_of : ℕ → List Text
  pub answers : Bool

-- `entityWithID`
pub record Target : Type 0 where
  pub id : ℕ
  pub entity : Entity
  pub out_of_scope : Bool
  pub depth_strict : ℕ
  pub depth_relaxed : ℕ

-- The packet that is built if the packet's groups are refused.
abbrev pub built_or_root : EntityFields → Option Built → StoreBatch
built_or_root source (some (built b)) = b
built_or_root source (some ambiguous) = root_batch source
built_or_root source (some unresolved) = root_batch source
built_or_root source none = root_batch source

abbrev pub built_errors : (Text → RepoError) → Text → Option Built → List RepoError → List RepoError
built_errors error_of fn (some (built b)) es = es
built_errors error_of fn (some ambiguous) es = es ++ error_of fn ∷ []
built_errors error_of fn (some unresolved) es = es ++ error_of fn ∷ []
built_errors error_of fn none es = es

-- `states` before the database is asked.
unfoldable pub first_states : StoreBatch → StoredEntity → States
first_states b source id =
    if id == b.root_id
    then record {
      db_id = source.id;
      out_of_scope = source.out_of_scope;
      depth_strict = source.depth_strict;
      depth_relaxed = source.depth_relaxed;
      anchor = source.anchor;
      is_anchor = source.is_anchor;
    }
    else record {
      db_id = 0;
      out_of_scope = false;
      depth_strict = unresolved_depth;
      depth_relaxed = unresolved_depth;
      anchor = [];
      is_anchor = mem_id id b.node_ids;
    }

abbrev plain_root : EntityState → EntityState
plain_root s = record s { is_anchor = false }

-- The states with their marks and depths.
unfoldable pub work_states : StoreBatch → States → States
work_states b states =
    relax_depths b (mark_results b (modify b.root_id plain_root states) b.results)

abbrev pub entity_of : EntityFields → Entity
entity_of e = record { type = e.entity_type; category = e.category; value = e.value; tags = [] }

abbrev pub some_rows : Option Layers → Option (List ℕ)
some_rows none = none
some_rows (some stuck) = none
some_rows (some (resolved_all rows)) = some rows

-- `ON CONFLICT … DO UPDATE … RETURNING`: what the state of a property is after it is written.
unfoldable pub merge_row : Option PropertyRow → EntityState → EntityState
merge_row none s = s
merge_row (some old) s = record s {
  out_of_scope = old.out_of_scope || s.out_of_scope;
  depth_strict = min old.depth_strict s.depth_strict;
  depth_relaxed = min old.depth_relaxed s.depth_relaxed;
}

module _ (db : Database) where
  -- `rawDataIDs`
  unfoldable pub raw_ids : List (Text × Text) → List (Text × Option ℕ)
  raw_ids [] = []
  raw_ids ((fn, raw) ∷ rest) =
      (fn, (if is_empty raw then none else some (db.raw_row fn))) ∷ raw_ids rest

  -- The states once every property has been written: a layer reads and writes the states of its
  -- own properties only, so the order of the layers makes no difference.
  unfoldable pub property_states : StoreBatch → List ℕ → States → States
  property_states b resolved states id =
      if mem_id id b.property_ids && mem_id id resolved
      then record (merge_row (db.old_property id) (states id)) { db_id = db.row_of id }
      else states id

  -- `resolvedIDs`; 0 stands for no row. The root has the row that the packet names.
  unfoldable pub row : ℕ → StoreBatch → List ℕ → ℕ → ℕ
  row source_id b resolved id =
      if id == b.root_id then source_id else if mem_id id resolved then db.row_of id else 0

  -- The results whose target has a row, for the log.
  unfoldable pub result_items : ℕ → StoreBatch → List ℕ → List BatchResult → List ResultItem
  result_items source_id b resolved [] = []
  result_items source_id b resolved (r ∷ rs) =
      let rest = result_items source_id b resolved rs in
      if row source_id b resolved r.target_id == 0
      then rest
      else record {
        source_row = row source_id b resolved r.source_id;
        target_row = row source_id b resolved r.target_id;
        result = r.result;
      }
        ∷ rest

  -- The loop that collects what the dispatcher gets.
  unfoldable pub store_targets : ℕ → StoreBatch → States → List ℕ → List BatchResult → List Target
  store_targets source_id b states resolved [] = []
  store_targets source_id b states resolved (r ∷ rs) =
      let rest = store_targets source_id b states resolved rs in
      if row source_id b resolved r.target_id == 0
      then rest
      else record {
        id = row source_id b resolved r.target_id;
        entity = entity_of (item b r.target_id).entity;
        out_of_scope = (states r.target_id).out_of_scope;
        depth_strict = (states r.target_id).depth_strict;
        depth_relaxed = (states r.target_id).depth_relaxed;
      }
        ∷ rest

  -- `buildBatchItems`: one item for each target, with its tags and its completed functions.
  abbrev pub batch_item : Target → BatchItem
  batch_item t = record {
    source_entity_id = t.id;
    entity = record (t.entity) { tags = db.tags_of t.id };
    out_of_scope = t.out_of_scope;
    depth_strict = t.depth_strict;
    depth_relaxed = t.depth_relaxed;
    completed_functions = db.functions_of t.id;
  }

  unfoldable pub build_batch_items : List Target → Option (List BatchItem)
  build_batch_items [] = some []
  build_batch_items (t ∷ ts) = if db.answers then some (map batch_item (t ∷ ts)) else none

  -- What is left to do when the rows are there.
  unfoldable pub store_rows :
      ProcessorToRepoData → List RepoError → StoreBatch → States → List ℕ → Option (List BatchItem)
  store_rows packet errors b states rows =
      let logs =
        all_logs (raw_ids packet.function_raw_data) packet.source_entity_id
          (result_items packet.source_entity_id b rows b.results) errors
          packet.functions_without_results in
      if not (db.commits logs)
      then none
      else build_batch_items (store_targets packet.source_entity_id b states rows b.results)
        >>= λ items. if is_nil items then none else some items

  unfoldable pub store_batch :
      ProcessorToRepoData → List RepoError → StoredEntity → StoreBatch → Option (List BatchItem)
  store_batch packet errors source b = db.node_states b (first_states b source) >>= λ states.
      db.upsert_nodes b (work_states b states) >>= λ nodes.
      some_rows (
        resolve_layers b db.upsert_layer (length b.property_ids) b.property_ids (b.root_id ∷ nodes))
      >>= λ rows.
          if not (is_nil b.property_ids) && not db.upserts_properties
          then none
          else store_rows packet errors b (property_states b rows (work_states b states)) rows

  -- `Store`; `none` is an error or no work. The error of a batch that cannot be built names some
  -- function that has raw data, which Go picks at random and an argument picks here.
  unfoldable pub store : (Text → RepoError) → Text → ProcessorToRepoData → Option (List BatchItem)
  store error_of fn packet =
      if packet.source_entity_id == 0
      then none
      else if is_empty packet.source_entity.type || is_empty packet.source_entity.value
      then none
      else db.stored packet.source_entity_id >>= λ source.
          let outcome = build_store_batch packet.groups source.entity in
          store_batch packet (built_errors error_of fn outcome packet.errors) source
            (built_or_root source.entity outcome)
