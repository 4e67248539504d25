-- ===== src/Repository/LayersEnd.antt =====
-- Every property of a batch that was built gets its row: the loop over the layers is never stuck.
use recon_sr.Base.{
  ℕ, zero, suc, ◌+◌, ◌-◌, ◌≤◌, ◌<◌, ◌≡◌, ◌↔◌, ◌⊎◌, inl, inr, refl, arith, true, false, List, [],
  ◌∷◌, ◌++◌, some, All-mem, length, Bool-cases, Memᴰ, Memᴰ-cons, ⊎_elim,
}
use mathlib.Core.List.Memᴰ
use recon_sr.Processor.Context.{is_nil}
use recon_sr.Schema.{ResultGroup}
use recon_sr.Repository.Batch.{StoreBatch, EntityFields, item, built, build_store_batch}
use recon_sr.Repository.Shape.{InRange, Ordered-get_or, IsShaped}
use recon_sr.Repository.Rounds.{build_store_batch-IsBuilt}
use recon_sr.Repository.Layers.{mem_id, next_layer, resolved_all, resolve_layers}

mem_id_iff : (id : ℕ) (ids : List ℕ) → (mem_id id ids ≡ true) ↔ Memᴰ id ids
unfolding mem_id
mem_id_iff id [] = (λ e. cc, λ m. absurd (Memᴰ.not-nil m))
mem_id_iff id (j ∷ js) = ground (arith, mem_id_iff id js, Memᴰ-cons id j js)

-- The least element of a list that is not empty.
least :
    (id : ℕ) (ids : List ℕ) → (m : ℕ) × Memᴰ m (id ∷ ids) × ((x : ℕ) → Memᴰ x (id ∷ ids) → m ≤ x)
least id [] = (
  id,
  Memᴰ.head refl,
  λ x m. ⊎_elim (λ e. omega arith) (λ n. absurd (Memᴰ.not-nil n)) (Memᴰ.cases_cons m),
)
least id (j ∷ js) =
    let (m, here, low) = least j js in
    elim (le_cases id m) [
      | inl le ↦ (
        id,
        Memᴰ.head refl,
        λ x k. ⊎_elim (λ e. omega arith) (λ n. omega (arith, low x n)) (Memᴰ.cases_cons k),
      )
      | inr lt ↦
          (m, Memᴰ.tail here, λ x k. ⊎_elim (λ e. omega arith) (λ n. low x n) (Memᴰ.cases_cons k))
    ]
  where
    le_cases : (a b : ℕ) → (a ≤ b) ⊎ (b < a)
    le_cases a b = ground arith

module _ (b : StoreBatch) (resolved : List ℕ) where
  -- A property is in the layer or is left.
  next_layer-splits :
      (ids : List ℕ) (id : ℕ)
      → Memᴰ id ids
      → Memᴰ id (next_layer b ids resolved).0 ⊎ Memᴰ id (next_layer b ids resolved).1
  unfolding next_layer
  next_layer-splits [] id m = absurd (Memᴰ.not-nil m)
  next_layer-splits (j ∷ ids) id m = elim (Bool-cases (mem_id (item b j).parent_id resolved)) [
    | inl e ↦ rw e (
        ⊎_elim (λ at. inl (Memᴰ.head at))
          (λ k. ⊎_elim (λ l. inl (Memᴰ.tail l)) inr (next_layer-splits ids id k))
          (Memᴰ.cases_cons m))
    | inr e ↦ rw e (
        ⊎_elim (λ at. inr (Memᴰ.head at))
          (λ k. ⊎_elim inl (λ r. inr (Memᴰ.tail r)) (next_layer-splits ids id k))
          (Memᴰ.cases_cons m))
  ]

  next_layer-rest : (ids : List ℕ) (id : ℕ) → Memᴰ id (next_layer b ids resolved).1 → Memᴰ id ids
  unfolding next_layer
  next_layer-rest [] id m = m
  next_layer-rest (j ∷ ids) id m = elim (Bool-cases (mem_id (item b j).parent_id resolved)) [
    | inl e ↦ Memᴰ.tail (next_layer-rest ids id (rw e at m))
    | inr e ↦
        let k : Memᴰ id (j ∷ (next_layer b ids resolved).1) = rw e at m in
        ⊎_elim (λ at. Memᴰ.head at) (λ n. Memᴰ.tail (next_layer-rest ids id n)) (Memᴰ.cases_cons k)
  ]

  next_layer-length :
      (ids : List ℕ)
      → length (next_layer b ids resolved).0 + length (next_layer b ids resolved).1 ≡ length ids
  unfolding next_layer
  next_layer-length [] = omega arith
  next_layer-length (j ∷ ids) = ground (arith, next_layer-length ids)

  -- A property whose parent has a row is in the layer.
  next_layer-ready :
      (ids : List ℕ) (id : ℕ)
      → Memᴰ id ids
      → mem_id (item b id).parent_id resolved ≡ true
      → Memᴰ id (next_layer b ids resolved).0
  unfolding next_layer
  next_layer-ready [] id m h = absurd (Memᴰ.not-nil m)
  next_layer-ready (j ∷ ids) id m h = elim (Bool-cases (mem_id (item b j).parent_id resolved)) [
    | inl e ↦ rw e (
        ⊎_elim (λ at. Memᴰ.head at) (λ k. Memᴰ.tail (next_layer-ready ids id k h))
          (Memᴰ.cases_cons m))
    | inr e ↦ rw e (
        ⊎_elim (λ at. absurd (clash j id at e h)) (λ k. next_layer-ready ids id k h)
          (Memᴰ.cases_cons m))
  ]
    where
      clash :
          (j id : ℕ)
          → id ≡ j
          → mem_id (item b j).parent_id resolved ≡ false
          → mem_id (item b id).parent_id resolved ≡ true
          → ⊥
      clash j id at e h = cc

nonempty : (xs : List ℕ) (x : ℕ) → Memᴰ x xs → (is_nil xs ≡ false) × (1 ≤ length xs)
nonempty [] x m = absurd (Memᴰ.not-nil m)
nonempty (y ∷ ys) x m = (refl, omega arith)

module _ (b : StoreBatch) (n : ℕ) (h : IsShaped b n) (upsert : List ℕ → List ℕ)
    (returns : (layer : List ℕ) (id : ℕ) → Memᴰ id layer → Memᴰ id (upsert layer)) where
  parent-lt : (id : ℕ) → InRange n id → (item b id).parent_id < id
  parent-lt id (p, q) = omega (arith, Ordered-get_or 1 (id - 1) b.entities h.ordered (omega arith))

  -- The loop, from any point at which every entity has a row or is pending.
  layers_end :
      (fuel : ℕ) (pending resolved : List ℕ)
      → ((id : ℕ) → InRange n id → Memᴰ id resolved ⊎ Memᴰ id pending)
      → ((id : ℕ) → Memᴰ id pending → InRange n id × (1 ≤ (item b id).parent_id))
      → length pending ≤ fuel
      → (rs : List ℕ) × (resolve_layers b upsert fuel pending resolved ≡ some (resolved_all rs))
        × ((id : ℕ) → InRange n id → Memᴰ id rs)
  unfolding resolve_layers
  layers_end fuel [] resolved split own le =
      (resolved, refl, λ id r. ⊎_elim (λ m. m) (λ m. absurd (Memᴰ.not-nil m)) (split id r))
  layers_end zero (id ∷ ids) resolved split own le = absurd (omega arith)
  layers_end (suc fuel) (id ∷ ids) resolved split own le =
      let (first, here, low) = least id ids in
      let (range, owner) = own first here in
      let small = parent-lt first range in
      let parent_ready : Memᴰ (item b first).parent_id resolved =
        ⊎_elim (λ m. m) (λ m. absurd (omega (arith, low _ m)))
          (split (item b first).parent_id (owner, omega (arith, range.1))) in
      let in_layer =
        next_layer-ready b resolved (id ∷ ids) first here
          ((mem_id_iff (item b first).parent_id resolved).1 parent_ready) in
      let (some_layer, progress) = nonempty (next_layer b (id ∷ ids) resolved).0 first in_layer in
      let both = next_layer-length b resolved (id ∷ ids) in
      let (rs, e, all_there) =
        layers_end fuel (next_layer b (id ∷ ids) resolved).1
          (upsert (next_layer b (id ∷ ids) resolved).0 ++ resolved)
          (λ j r.
            ⊎_elim (λ m. inl (Memᴰ.append_right (upsert (next_layer b (id ∷ ids) resolved).0) m))
              (λ m.
                ⊎_elim (λ l. inl (Memᴰ.append_left resolved (returns _ j l))) inr
                  (next_layer-splits b resolved (id ∷ ids) j m))
              (split j r))
          (λ j m. own j (next_layer-rest b resolved (id ∷ ids) j m)) (omega arith) in
      (rs, rw some_layer e, all_there)

-- Once the root and the nodes of a batch that `buildStoreBatch` built have their rows, the loop
-- over the property layers ends with a row for every entity of the batch and never with the error
-- "property layer could not be resolved", provided that the database returns a row for every
-- property of a layer.
pub resolve_layers_all :
    (groups : List ResultGroup) (source : EntityFields) (b : StoreBatch) (upsert : List ℕ → List ℕ)
    → build_store_batch groups source ≡ some (built b)
    → ((layer : List ℕ) (id : ℕ) → Memᴰ id layer → Memᴰ id (upsert layer))
    → (rs : List ℕ) × (resolve_layers b upsert
          (length b.property_ids)
          b.property_ids
          (b.root_id ∷ b.node_ids)
        ≡ some (resolved_all rs))
      × ((id : ℕ) → InRange (length b.entities) id → Memᴰ id rs)
resolve_layers_all groups source b upsert e returns =
    let ok = build_store_batch-IsBuilt groups source b e in
    let h = ok.shaped in
    let (rs, end, all_there) =
      layers_end b ok.count h upsert returns (length b.property_ids) b.property_ids
        (b.root_id ∷ b.node_ids)
        (λ id r.
          ⊎_elim (λ at. inl (Memᴰ.head at)) (⊎_elim (λ m. inl (Memᴰ.tail m)) inr) (h.covered id r))
        (λ id m. (
          All-mem (InRange ok.count) id b.property_ids h.listed_properties m,
          All-mem (λ id. 1 ≤ (item b id).parent_id) id b.property_ids h.owned m,
        ))
        (omega arith) in
    (rs, end, λ id (p, q). all_there id (p, omega (arith, h.size)))
