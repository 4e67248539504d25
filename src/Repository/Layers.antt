-- ===== src/Repository/Layers.antt =====
-- The loop of `Store` that stores the properties layer by layer: `pendingProperties`,
-- `nextResolvedPropertyLayer` and the calls of `upsertPropertyLayer`. What the database does with a
-- layer is a function: the identifiers that it has returned a row for.
use recon_sr.Base.{
  ℕ, zero, suc, ◌==◌, Bool, true, false, List, [], ◌∷◌, ◌++◌, Option, none, some, if◌then◌else◌,
}
use recon_sr.Processor.Context.{is_nil}
use recon_sr.Repository.Batch.{StoreBatch, item}

unfoldable pub mem_id : ℕ → List ℕ → Bool
mem_id id [] = false
mem_id id (j ∷ js) = if j == id then true else mem_id id js

-- `nextResolvedPropertyLayer`: the pending properties whose parents have a row, and the others.
unfoldable pub next_layer : StoreBatch → List ℕ → List ℕ → List ℕ × List ℕ
next_layer b [] resolved = ([], [])
next_layer b (id ∷ ids) resolved =
    let (layer, rest) = next_layer b ids resolved in
    if mem_id (item b id).parent_id resolved then (id ∷ layer, rest) else (layer, id ∷ rest)

-- How the loop ends: every pending property has a row, or a layer is empty.
pub data Layers : Type 0 where
  resolved_all : List ℕ → Layers
  stuck : Layers

module _ (b : StoreBatch) (upsert : List ℕ → List ℕ) where
  -- Each layer takes a property off the list, so its length is fuel enough.
  unfoldable pub resolve_layers : ℕ → List ℕ → List ℕ → Option Layers
  resolve_layers fuel [] resolved = some (resolved_all resolved)
  resolve_layers zero (id ∷ ids) resolved = none
  resolve_layers (suc fuel) (id ∷ ids) resolved =
      let (layer, rest) = next_layer b (id ∷ ids) resolved in
      let next = resolve_layers fuel rest (upsert layer ++ resolved) in
      if is_nil layer then some stuck else next
