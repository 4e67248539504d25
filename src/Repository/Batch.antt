-- ===== src/Repository/Batch.antt =====
-- The batch that `Store` builds from a packet: `buildStoreBatch` and what it calls. An identifier
-- is the position of an entity, counted from 1; the code keeps it in 32 bits, which a packet that
-- fits in memory does not exceed. A Go map is an association list.
use recon_sr.Base.{
  ℕ, zero, suc, ◌+◌, ◌-◌, ◌==◌, Bool, true, false, not, ◌&&◌, ◌||◌, List, [], ◌∷◌, ◌++◌, Option,
  none, some, Text, codes, length, get_or, if◌then◌else◌, eq_text, mem_text,
}
use recon_sr.Strings.{is_empty}
use recon_sr.Schema.{EntityRef, ResultGroup, ValidResult}
use recon_sr.Processor.Keys.{Key, eq_key}

-- `entityFields`
pub record EntityFields : Type 0 where
  pub entity_type : Text
  pub value : Text
  pub category : Text

pub record BatchEntity : Type 0 where
  pub source_id : ℕ
  pub parent_id : ℕ
  pub entity : EntityFields
  pub anchor : Text
  pub out_of_scope : Bool
  pub tags : List Text

pub record BatchResult : Type 0 where
  pub source_id : ℕ
  pub target_id : ℕ
  pub result : ValidResult

pub record PropertyKey : Type 0 where
  pub parent_id : ℕ
  pub key : Key

unfoldable pub eq_property_key : PropertyKey → PropertyKey → Bool
eq_property_key a b = a.parent_id == b.parent_id && eq_key a.key b.key

pub record StoreBatch : Type 0 where
  pub root_id : ℕ
  pub entities : List BatchEntity
  pub node_index : List (Key × ℕ)
  pub node_ids : List ℕ
  pub property_index : List (PropertyKey × ℕ)
  pub property_refs : List (Text × List ℕ)
  pub property_ids : List ℕ
  pub results : List BatchResult
  pub local_ids : List (ℕ × ℕ)

-- A Go map with any type of key, and the test that tells keys apart.
module _ {ℓ κ} {K : Type ℓ} {V : Type κ} (same : K → K → Bool) where
  unfoldable pub find : K → List (K × V) → Option V
  find k [] = none
  find k ((j, v) ∷ m) = if same j k then some v else find k m

  unfoldable pub put : K → V → List (K × V) → List (K × V)
  put k v [] = (k, v) ∷ []
  put k v ((j, w) ∷ m) = if same j k then (k, v) ∷ m else (j, w) ∷ put k v m

abbrev pub eq_number : ℕ → ℕ → Bool
eq_number a b = a == b

-- `entityKey`
abbrev pub joined_key : Text → Text → Text
joined_key entity_type value = entity_type ++ b':' ∷ value

unfoldable pub normalize_category : Text → Text
normalize_category category = if is_empty category then codes "node" else category

unfoldable pub append_unique_tags : List Text → List Text → List Text
append_unique_tags dst [] = dst
append_unique_tags dst (tag ∷ src) =
    append_unique_tags
      (if is_empty tag then dst else if mem_text tag dst then dst else dst ++ tag ∷ []) src

abbrev pub no_entity : BatchEntity
no_entity = record {
  source_id = 0;
  parent_id = 0;
  entity = record { entity_type = []; value = []; category = [] };
  anchor = [];
  out_of_scope = false;
  tags = [];
}

-- `item`
abbrev pub item : StoreBatch → ℕ → BatchEntity
item b id = get_or b.entities (id - 1) no_entity

-- A write through the pointer that `item` returns.
unfoldable pub update_at : ℕ → (BatchEntity → BatchEntity) → List BatchEntity → List BatchEntity
update_at i f [] = []
update_at zero f (e ∷ es) = f e ∷ es
update_at (suc i) f (e ∷ es) = e ∷ update_at i f es

abbrev pub update_item : ℕ → (BatchEntity → BatchEntity) → StoreBatch → StoreBatch
update_item id f b = record b { entities = update_at (id - 1) f b.entities }

-- `localIDMap`
unfoldable pub note_local : ℕ → ℕ → StoreBatch → StoreBatch
note_local local_id id b =
    if local_id == 0 then b else record b { local_ids = put eq_number local_id id b.local_ids }

abbrev pub set_category : Text → BatchEntity → BatchEntity
set_category category e = record e { entity = record (e.entity) { category = category } }

abbrev pub new_node : Key → Text → BatchEntity
new_node key category = record no_entity {
  entity = record { entity_type = key.type; value = key.value; category = category };
}

-- A new entity, which gets the next identifier.
abbrev pub next_id : StoreBatch → ℕ
next_id b = length b.entities + 1

unfoldable pub with_node : Key → Text → StoreBatch → StoreBatch
with_node key category b = record b {
  entities = b.entities ++ new_node key category ∷ [];
  node_index = put eq_key key (next_id b) b.node_index;
  node_ids = b.node_ids ++ (next_id b) ∷ [];
}

-- `addNode`: a node that is there keeps its identifier and takes the category.
unfoldable pub add_node : Text → Text → Text → ℕ → StoreBatch → StoreBatch × ℕ
add_node entity_type value category local_id b =
    let key : Key = record { type = entity_type; value = value } in
    elim (find eq_key key b.node_index) [
      | some id ↦ (
        note_local local_id id
            (if is_empty category then b else update_item id (set_category category) b),
        id,
      )
      | none ↦ (note_local local_id (next_id b) (with_node key category b), next_id b)
    ]

abbrev pub refs_at : Option (List ℕ) → List ℕ
refs_at none = []
refs_at (some ids) = ids

unfoldable pub merge_property : ValidResult → BatchEntity → BatchEntity
merge_property result e = record e {
  out_of_scope = e.out_of_scope || result.out_of_scope;
  tags = append_unique_tags e.tags result.tags;
  anchor = if is_empty e.anchor then result.anchor else e.anchor;
}

abbrev pub new_property : ℕ → ℕ → ValidResult → BatchEntity
new_property source_id parent_id result = record {
  source_id = source_id;
  parent_id = parent_id;
  entity = record {
    entity_type = result.type;
    value = result.value;
    category = normalize_category result.category;
  };
  anchor = result.anchor;
  out_of_scope = result.out_of_scope;
  tags = append_unique_tags [] result.tags;
}

unfoldable pub with_property : PropertyKey → Text → BatchEntity → StoreBatch → StoreBatch
with_property key ref e b = record b {
  entities = b.entities ++ e ∷ [];
  property_index = put eq_property_key key (next_id b) b.property_index;
  property_refs =
      put eq_text ref (refs_at (find eq_text ref b.property_refs) ++ (next_id b) ∷ [])
        b.property_refs;
  property_ids = b.property_ids ++ (next_id b) ∷ [];
}

-- `addProperty`: a property belongs to its parent; a second find of it is merged.
unfoldable pub add_property : ℕ → ℕ → ValidResult → StoreBatch → StoreBatch × ℕ
add_property source_id parent_id result b =
    let key : PropertyKey = record {
      parent_id = parent_id;
      key = record { type = result.type; value = result.value };
    } in
    let ref = joined_key result.type result.value in
    elim (find eq_property_key key b.property_index) [
      | some id ↦ (note_local result.local_id id (update_item id (merge_property result) b), id)
      | none ↦ (
        note_local result.local_id (next_id b)
            (with_property key ref (new_property source_id parent_id result) b),
        next_id b,
      )
    ]

-- What `resolveSource` answers.
pub data Resolved : Type 0 where
  found : ℕ → Resolved
  unknown ambiguous_source : Resolved

abbrev pub one_of : List ℕ → Resolved
one_of [] = unknown
one_of (id ∷ []) = found id
one_of (id ∷ other ∷ ids) = ambiguous_source

abbrev pub found_or : Option ℕ → Resolved → Resolved
found_or none other = other
found_or (some id) other = found id

-- `resolveSource`
unfoldable pub resolve_source : Text → EntityRef → StoreBatch → Resolved
resolve_source root_key source b =
    if not (source.local_id == 0)
    then found_or (find eq_number source.local_id b.local_ids) unknown
    else if eq_text (joined_key source.type source.value) root_key
    then found b.root_id
    else found_or (find eq_key (record { type = source.type; value = source.value }) b.node_index)
        (one_of (refs_at (find eq_text (joined_key source.type source.value) b.property_refs)))

-- The body of the loop over the results of a group.
unfoldable pub place_target : ℕ → ValidResult → StoreBatch → StoreBatch × ℕ
place_target source_id result b =
    let category = normalize_category result.category in
    if eq_text category (codes "node")
    then add_node result.type result.value category result.local_id b
    else add_property source_id source_id result b

-- `AnchorEntityType`
abbrev pub anchor_type : Text
anchor_type = codes "domain"

unfoldable pub place_anchor : Text → StoreBatch → StoreBatch
place_anchor anchor b =
    if is_empty anchor then b else (add_node anchor_type anchor (codes "node") 0 b).0

unfoldable pub place_result : ℕ → StoreBatch → ValidResult → StoreBatch
place_result source_id b result =
    let (placed, target_id) = place_target source_id result b in
    let anchored = place_anchor result.anchor placed in
    record anchored {
      results =
          anchored.results
          ++ record { source_id = source_id; target_id = target_id; result = result } ∷ [];
    }

unfoldable pub place_results : ℕ → StoreBatch → List ValidResult → StoreBatch
place_results source_id b [] = b
place_results source_id b (r ∷ rs) = place_results source_id (place_result source_id b r) rs

-- The variables of the loop over the pending groups.
pub record Round : Type 0 where
  pub batch : StoreBatch
  pub next_pending : List ResultGroup
  pub progressed : Bool

-- One round; `none` is the error of an ambiguous source.
unfoldable pub round : Text → Round → List ResultGroup → Option Round
round root_key st [] = some st
round root_key st (g ∷ gs) = elim (resolve_source root_key g.source st.batch) [
  | ambiguous_source ↦ none
  | unknown ↦ round root_key (record st { next_pending = st.next_pending ++ g ∷ [] }) gs
  | found id ↦
      round root_key (record st { batch = place_results id st.batch g.results; progressed = true })
        gs
]

-- What `buildStoreBatch` returns.
pub data Built : Type 0 where
  built : StoreBatch → Built
  ambiguous unresolved : Built

-- The loop over the rounds. A round that does not make progress ends it, so the number of the
-- groups is fuel enough; `none` is a loop that has run out of it.
unfoldable pub rounds : Text → ℕ → StoreBatch → List ResultGroup → Option Built
rounds root_key fuel b [] = some (built b)
rounds root_key zero b (g ∷ gs) = none
rounds root_key (suc fuel) b (g ∷ gs) =
    elim (round root_key (record { batch = b; next_pending = []; progressed = false }) (g ∷ gs)) [
      | none ↦ some ambiguous
      | some st ↦
          let rest = rounds root_key fuel st.batch st.next_pending in
          if st.progressed then rest else some unresolved
    ]

abbrev pub empty_batch : StoreBatch
empty_batch = record {
  root_id = 1;
  entities = [];
  node_index = [];
  node_ids = [];
  property_index = [];
  property_refs = [];
  property_ids = [];
  results = [];
  local_ids = [];
}

-- The batch that has the root alone.
unfoldable pub root_batch : EntityFields → StoreBatch
root_batch source =
    if eq_text source.category (codes "property")
    then record empty_batch { entities = record no_entity { entity = source } ∷ [] }
    else (add_node source.entity_type source.value source.category 0 empty_batch).0

unfoldable pub build_store_batch : List ResultGroup → EntityFields → Option Built
build_store_batch groups source =
    rounds (joined_key source.entity_type source.value) (length groups) (root_batch source) groups
