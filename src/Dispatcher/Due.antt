-- ===== src/Dispatcher/Due.antt =====
-- `Dispatch` as a whole: which calls it makes, and that no token of the counter gets lost.
use recon_sr.Base.{
  ℕ, ◌+◌, ◌≤◌, ◌≡◌, inl, inr, refl, subst, arith, true, false, ltb, List, [], ◌∷◌, Text, length,
  length-append, Bool-cases, Memᴰ, ⊎_elim,
}
use mathlib.Core.List.Memᴰ
use recon_sr.Schema.{BatchItem, ProcessorInputData}
use recon_sr.Dispatcher.Tags.{match_tags}
use recon_sr.Dispatcher.Config.{ModuleEntry, Index, at_key}
use recon_sr.Dispatcher.Routing.{
  World, Depths, current_depth, is_completed, run_entries, item_results, settle, dispatch_items,
}
use recon_sr.Dispatcher.Routed.{run_entries-Chosen}

-- The call was due: the item is in scope and not too deep, the module's entry is listed under its
-- type, the tags match, and the one function that was called is one that the item has not
-- completed.
pub record IsDue (depths : Depths) (index : Index) (batch : List BatchItem) (p : ProcessorInputData)
    : Type 0 where
  pub item : BatchItem
  pub entry : ModuleEntry
  pub fn : Text
  pub batched : Memᴰ item batch
  pub in_scope : item.out_of_scope ≡ false
  pub shallow : current_depth depths item ≤ depths.max_depth
  pub listed : Memᴰ entry (at_key item.entity.type index)
  pub tagged : match_tags item.entity.tags entry.require_tags entry.exclude_tags ≡ true
  pub offered : Memᴰ fn entry.functions
  pub uncompleted : is_completed entry.mod_of.name fn item.completed_functions ≡ false
  pub requested : p.requested_functions ≡ fn ∷ []
  pub of_module : p.module_name ≡ entry.mod_of.name
  pub of_item : p.source_entity_id ≡ item.source_entity_id

pub settle-length :
    (writers : ℕ) (ps : List ProcessorInputData)
    → 1 ≤ writers
    → settle writers ps + 1 ≡ writers + length ps
unfolding settle
settle-length writers [] h = omega arith
settle-length writers (p ∷ ps) h = omega arith

IsDue-later :
    (depths : Depths) (index : Index) (item : BatchItem) (batch : List BatchItem)
    (p : ProcessorInputData)
    → IsDue depths index batch p
    → IsDue depths index (item ∷ batch) p
IsDue-later depths index item batch p d = record {
  item = d.item;
  entry = d.entry;
  fn = d.fn;
  batched = Memᴰ.tail d.batched;
  in_scope = d.in_scope;
  shallow = d.shallow;
  listed = d.listed;
  tagged = d.tagged;
  offered = d.offered;
  uncompleted = d.uncompleted;
  requested = d.requested;
  of_module = d.of_module;
  of_item = d.of_item;
}

module _ (world : World) (depths : Depths) (index : Index) (project_id : Text) where
  none_out :
      (item : BatchItem) (keys : List Text)
      → item.out_of_scope ≡ true
      → (item_results world depths index project_id item keys).0 ≡ []
  unfolding item_results
  none_out item keys h = ground arith

  none_deep :
      (item : BatchItem) (keys : List Text)
      → ltb depths.max_depth (current_depth depths item) ≡ true
      → (item_results world depths index project_id item keys).0 ≡ []
  unfolding item_results
  none_deep item keys h = ground arith

  item_results-entries :
      (item : BatchItem) (keys : List Text)
      → item.out_of_scope ≡ false
      → ltb depths.max_depth (current_depth depths item) ≡ false
      → item_results world depths index project_id item keys
        ≡ run_entries world depths index project_id item (at_key item.entity.type index) keys
  unfolding item_results
  item_results-entries item keys h k = ground arith

  item_results-IsDue :
      (item : BatchItem) (batch : List BatchItem) (keys : List Text) (p : ProcessorInputData)
      → Memᴰ p (item_results world depths index project_id item keys).0
      → IsDue depths index (item ∷ batch) p
  item_results-IsDue item batch keys p m = elim (Bool-cases item.out_of_scope) [
    | inl out ↦ absurd (Memᴰ.not-nil (subst (Memᴰ p) (none_out item keys out) m))
    | inr in_scope ↦ elim (Bool-cases (ltb depths.max_depth (current_depth depths item))) [
      | inl deep ↦ absurd (Memᴰ.not-nil (subst (Memᴰ p) (none_deep item keys deep) m))
      | inr shallow ↦
          let (entry, listed, (tagged, fn, offered, open_, (requested, of_module, of_item))) =
            run_entries-Chosen world depths index project_id item (at_key item.entity.type index)
              keys p
              (subst (λ (r : List ProcessorInputData × List Text). Memᴰ p r.0)
                (item_results-entries item keys in_scope shallow) m) in
          record {
            item = item;
            entry = entry;
            fn = fn;
            batched = Memᴰ.head refl;
            in_scope = in_scope;
            shallow = ground arith;
            listed = listed;
            tagged = tagged;
            offered = offered;
            uncompleted = open_;
            requested = requested;
            of_module = of_module;
            of_item = of_item;
          }
    ]
  ]

  -- Every packet that `Dispatch` hands to the processor comes from a call that was due: its item
  -- is in scope and not deeper than the limit, the module's entry is listed under the item's type,
  -- the tags match, and the packet asks for one function, which the entry offers and the item has
  -- not completed.
  pub dispatch_items-IsDue :
      (batch : List BatchItem) (keys : List Text) (writers : ℕ) (p : ProcessorInputData)
      → Memᴰ p (dispatch_items world depths index project_id batch keys writers).spawned
      → IsDue depths index batch p
  unfolding dispatch_items
  dispatch_items-IsDue [] keys writers p m = absurd (Memᴰ.not-nil m)
  dispatch_items-IsDue (item ∷ batch) keys writers p m =
      ⊎_elim (item_results-IsDue item batch keys p)
        (λ later. IsDue-later depths index item batch p (dispatch_items-IsDue batch _ _ p later))
        (Memᴰ.append_cases (item_results world depths index project_id item keys).0 m)

  -- `Dispatch` turns one token of each item of the batch into one token of each packet that it
  -- hands to the processor, provided that the counter holds a token for each item.
  pub dispatch_items-writers :
      (batch : List BatchItem) (keys : List Text) (writers : ℕ)
      → length batch ≤ writers
      → (dispatch_items world depths index project_id batch keys writers).writers + length batch
        ≡ writers + length (dispatch_items world depths index project_id batch keys writers).spawned
  unfolding dispatch_items
  dispatch_items-writers [] keys writers h = omega arith
  dispatch_items-writers (item ∷ batch) keys writers h =
      let results = (item_results world depths index project_id item keys).0 in
      let after = (item_results world depths index project_id item keys).1 in
      let now = settle-length writers results (omega arith) in
      let later = dispatch_items-writers batch after (settle writers results) (omega arith) in
      let both =
        length-append results
          (dispatch_items world depths index project_id batch after
            (settle writers results)).spawned in
      omega arith
