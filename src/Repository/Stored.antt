-- ===== src/Repository/Stored.antt =====
-- `Store` hands the dispatcher at most one item for each result of the packet.
use recon_sr.Base.{
  ℕ, ◌≤◌, ◌==◌, ◌≡◌, inl, inr, refl, ap, sym, subst, ◌∙◌, arith, not, ◌&&◌, ◌||◌, List, [], ◌∷◌,
  map, some, Text, length, Bool-cases, Option-cases, >>=-eq-some, if_none-eq-some, some-inj,
}
use recon_sr.Strings.{is_empty}
use recon_sr.Schema.{BatchItem, ProcessorToRepoData, RepoError, ResultGroup}
use recon_sr.Processor.Context.{is_nil}
use recon_sr.Processor.Process.{total_results}
use recon_sr.Repository.Batch.{
  StoreBatch, BatchResult, EntityFields, Built, built, ambiguous, unresolved, build_store_batch,
}
use recon_sr.Repository.Rounds.{root_batch-IsShaped, build_store_batch-IsBuilt}
use recon_sr.Repository.Logs.{all_logs}
use recon_sr.Repository.Layers.{resolve_layers}
use recon_sr.Repository.States.{States}
use recon_sr.Repository.Store.{
  Database, StoredEntity, Target, built_or_root, built_errors, first_states, work_states, some_rows,
  raw_ids, property_states, row, result_items, store_targets, build_batch_items, batch_item,
  store_rows, store_batch, store,
}

length-map : {A B : Type 0} (f : A → B) (xs : List A) → length (map f xs) ≡ length xs
length-map f [] = refl
length-map f (x ∷ xs) = omega (arith, length-map f xs)

-- The batch that `Store` goes on with has no more results than the packet.
built_or_root-results :
    (groups : List ResultGroup) (source : EntityFields) (r : Built)
    → build_store_batch groups source ≡ some r
    → length (built_or_root source (some r)).results ≤ total_results groups
built_or_root-results groups source (built b) e =
    omega (arith, (build_store_batch-IsBuilt groups source b e).all_results)
built_or_root-results groups source ambiguous e = omega (arith, (root_batch-IsShaped source).1)
built_or_root-results groups source unresolved e = omega (arith, (root_batch-IsShaped source).1)

outcome-results :
    (groups : List ResultGroup) (source : EntityFields)
    → length (built_or_root source (build_store_batch groups source)).results ≤ total_results groups
outcome-results groups source = elim (Option-cases (build_store_batch groups source)) [
  | inl e ↦
      subst (λ o. length (built_or_root source o).results ≤ total_results groups) (sym e)
        (omega (arith, (root_batch-IsShaped source).1))
  | inr (r, e) ↦
      subst (λ o. length (built_or_root source o).results ≤ total_results groups) (sym e)
        (built_or_root-results groups source r e)
]

module _ (db : Database) where
  store_targets-le :
      (id : ℕ) (b : StoreBatch) (states : States) (rows : List ℕ) (rs : List BatchResult)
      → length (store_targets db id b states rows rs) ≤ length rs
  unfolding store_targets
  store_targets-le id b states rows [] = omega arith
  store_targets-le id b states rows (r ∷ rs) =
      elim (Bool-cases (row db id b rows r.target_id == 0)) [
        | inl e ↦ rw e (omega (arith, store_targets-le id b states rows rs))
        | inr e ↦ rw e (omega (arith, store_targets-le id b states rows rs))
      ]

  build_batch_items-length :
      (ts : List Target) (items : List BatchItem)
      → build_batch_items db ts ≡ some items
      → length items ≡ length ts
  unfolding build_batch_items
  build_batch_items-length [] items h = ap length (sym (some-inj h))
  build_batch_items-length (t ∷ ts) items h = elim (Bool-cases db.answers) [
    | inl e ↦ ap length (sym (some-inj (rw e at h))) ∙ length-map (batch_item db) (t ∷ ts)
    | inr e ↦ absurd (ground arith)
  ]

  store_rows-le :
      (packet : ProcessorToRepoData) (errors : List RepoError) (b : StoreBatch) (states : States)
      (rows : List ℕ) (items : List BatchItem)
      → store_rows db packet errors b states rows ≡ some items
      → length items ≤ length b.results
  unfolding store_rows
  store_rows-le packet errors b states rows items h =
      let logs =
        all_logs (raw_ids db packet.function_raw_data) packet.source_entity_id
          (result_items db packet.source_entity_id b rows b.results) errors
          packet.functions_without_results in
      let (_, h₁) = if_none-eq-some (not (db.commits logs)) _ h in
      let (built_items, h₂, h₃) =
        >>=-eq-some
          (build_batch_items db (store_targets db packet.source_entity_id b states rows b.results))
          _ h₁ in
      let (_, h₄) = if_none-eq-some (is_nil built_items) _ h₃ in
      omega (
        arith,
        ap length (some-inj h₄),
        build_batch_items-length _ built_items h₂,
        store_targets-le packet.source_entity_id b states rows b.results,
      )

  store_batch-le :
      (packet : ProcessorToRepoData) (errors : List RepoError) (source : StoredEntity)
      (b : StoreBatch) (items : List BatchItem)
      → store_batch db packet errors source b ≡ some items
      → length items ≤ length b.results
  unfolding store_batch
  store_batch-le packet errors source b items h =
      let (states, _, h₁) = >>=-eq-some (db.node_states b (first_states b source)) _ h in
      let (nodes, _, h₂) = >>=-eq-some (db.upsert_nodes b (work_states b states)) _ h₁ in
      let (rows, _, h₃) =
        >>=-eq-some
          (some_rows (
            resolve_layers b db.upsert_layer (length b.property_ids) b.property_ids
              (b.root_id ∷ nodes)))
          _ h₂ in
      let (_, h₄) =
        if_none-eq-some (not (is_nil b.property_ids) && not db.upserts_properties) _ h₃ in
      store_rows-le packet errors b (property_states db b rows (work_states b states)) rows items h₄

  -- If `Store` returns a batch, it has at most one item for each result of the packet.
  pub store-le :
      (error_of : Text → RepoError) (fn : Text) (packet : ProcessorToRepoData)
      (items : List BatchItem)
      → store db error_of fn packet ≡ some items
      → length items ≤ total_results packet.groups
  unfolding store
  store-le error_of fn packet items h =
      let (_, h₁) = if_none-eq-some (packet.source_entity_id == 0) _ h in
      let (_, h₂) =
        if_none-eq-some (is_empty packet.source_entity.type || is_empty packet.source_entity.value)
          _ h₁ in
      let (source, _, h₃) = >>=-eq-some (db.stored packet.source_entity_id) _ h₂ in
      let outcome = build_store_batch packet.groups source.entity in
      omega (
        arith,
        store_batch-le packet (built_errors error_of fn outcome packet.errors) source
            (built_or_root source.entity outcome) items h₃,
        outcome-results packet.groups source.entity,
      )
