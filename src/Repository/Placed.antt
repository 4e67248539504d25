-- ===== src/Repository/Placed.antt =====
-- `addNode` and `addProperty` keep the shape of a batch and leave its results alone.
use recon_sr.Base.{
  ℕ, ◌+◌, ◌-◌, ◌≤◌, ◌≡◌, inl, inr, refl, sym, subst, ◌∙◌, arith, [], ◌∷◌, ◌++◌, Text, All,
  All-append, length, length-append, get_or, Bool-cases, Option-cases, Memᴰ, ⊎_elim, if◌then◌else◌,
  codes, eq_text,
}
use mathlib.Core.List.Memᴰ
use recon_sr.Strings.{is_empty}
use recon_sr.Schema.{ValidResult}
use recon_sr.Processor.Keys.{Key, eq_key}
use recon_sr.Repository.Batch.{
  BatchEntity, BatchResult, PropertyKey, eq_property_key, StoreBatch, find, no_entity, joined_key,
  update_item, note_local, refs_at, set_category, new_node, add_node, merge_property, new_property,
  add_property, with_node, with_property, normalize_category, place_target,
}
use recon_sr.Repository.Shape.{
  InRange, Owned-append, Owned-last, IsShaped, All-map, find-All, put-All, Ordered-concat,
  update_item-IsShaped, note_local-IsShaped, widen, covered_more,
}

-- A batch to which something has been added, and the identifier of what was added.
pub record IsPlaced (b : StoreBatch) (n : ℕ) (after : StoreBatch) (id : ℕ) : Type 0 where
  pub count : ℕ
  pub shaped : IsShaped after count
  pub target : InRange count id
  pub grown : n ≤ count
  pub same_results : after.results ≡ b.results
  pub same_root : after.root_id ≡ b.root_id

note_local-results :
    (l id : ℕ) (b : StoreBatch)
    → ((note_local l id b).results ≡ b.results) × ((note_local l id b).root_id ≡ b.root_id)
unfolding note_local
note_local-results l id b = ground arith

-- A node or a property that was there.
old-IsPlaced :
    (b c : StoreBatch) (n l id : ℕ)
    → IsShaped c n
    → InRange n id
    → c.results ≡ b.results
    → c.root_id ≡ b.root_id
    → IsPlaced b n (note_local l id c) id
old-IsPlaced b c n l id h r e f = record {
  count = n;
  shaped = note_local-IsShaped l id c n r h;
  target = r;
  grown = omega arith;
  same_results = (note_local-results l id c).0 ∙ e;
  same_root = (note_local-results l id c).1 ∙ f;
}

-- The batch with one more entity, and lists that name it.
module _ (b : StoreBatch) (n : ℕ) (h : IsShaped b n) where
  results_widen :
      All (λ (r : BatchResult). InRange (n + 1) r.source_id × InRange (n + 1) r.target_id) b.results
  results_widen =
      All-map b.results (λ r (p, q). (widen n r.source_id p, widen n r.target_id q)) h.results

  last-InRange : InRange (n + 1) (length b.entities + 1)
  last-InRange = omega (arith, h.size)

  length-next : (e : BatchEntity) → length (b.entities ++ e ∷ []) ≡ n + 1
  length-next e = omega (arith, length-append b.entities (e ∷ []), h.size)

  known_properties : All (InRange (length b.entities)) b.property_ids
  known_properties =
      All-map b.property_ids (λ id (p, q). (p, omega (arith, h.size))) h.listed_properties

  with_node-IsShaped : (key : Key) (category : Text) → IsShaped (with_node key category b) (n + 1)
  unfolding with_node
  with_node-IsShaped key category = record {
    size = length-next (new_node key category);
    ordered = Ordered-concat 1 b.entities (new_node key category) h.ordered (omega arith);
    root = widen n b.root_id h.root;
    nodes =
        put-All eq_key (InRange (n + 1)) key (length b.entities + 1) b.node_index last-InRange
          (All-map b.node_index (λ p. widen n p.1) h.nodes);
    locals = All-map b.local_ids (λ p. widen n p.1) h.locals;
    properties = All-map b.property_index (λ p. widen n p.1) h.properties;
    refs = All-map b.property_refs (λ p. All-map p.1 (widen n)) h.refs;
    listed_properties = All-map b.property_ids (widen n) h.listed_properties;
    owned = Owned-append b.entities (new_node key category) b.property_ids known_properties h.owned;
    results = results_widen;
    covered = λ id r.
        ⊎_elim (λ old. ⊎_elim inl (λ m. inr (⊎_elim (λ m. inl (Memᴰ.append_left _ m)) inr m)) old)
          (λ last. inr (inl (Memᴰ.append_right b.node_ids (Memᴰ.head (omega (arith, h.size))))))
          (covered_more n b.root_id b.node_ids b.property_ids h.covered id r);
  }

  refs_at-All : (ref : Text) → All (InRange (n + 1)) (refs_at (find eq_text ref b.property_refs))
  refs_at-All ref = elim (Option-cases (find eq_text ref b.property_refs)) [
    | inl missing ↦ subst (λ o. All (InRange (n + 1)) (refs_at o)) (sym missing) tt
    | inr (ids, e) ↦
        subst (λ o. All (InRange (n + 1)) (refs_at o)) (sym e)
          (find-All eq_text (All (InRange (n + 1))) ref b.property_refs ids
            (All-map b.property_refs (λ p. All-map p.1 (widen n)) h.refs) e)
  ]

  with_property-IsShaped :
      (key : PropertyKey) (ref : Text) (e : BatchEntity)
      → InRange n e.parent_id
      → IsShaped (with_property key ref e b) (n + 1)
  unfolding with_property
  with_property-IsShaped key ref e p = record {
    size = length-next e;
    ordered = Ordered-concat 1 b.entities e h.ordered (omega (arith, h.size, p.1));
    root = widen n b.root_id h.root;
    nodes = All-map b.node_index (λ p. widen n p.1) h.nodes;
    locals = All-map b.local_ids (λ p. widen n p.1) h.locals;
    properties =
        put-All eq_property_key (InRange (n + 1)) key (length b.entities + 1) b.property_index
          last-InRange (All-map b.property_index (λ p. widen n p.1) h.properties);
    refs =
        put-All eq_text (All (InRange (n + 1))) ref _ b.property_refs
          (All-append (InRange (n + 1)) (refs_at (find eq_text ref b.property_refs)) _
            (refs_at-All ref) (last-InRange, tt))
          (All-map b.property_refs (λ p. All-map p.1 (widen n)) h.refs);
    listed_properties =
        All-append (InRange (n + 1)) b.property_ids _
          (All-map b.property_ids (widen n) h.listed_properties) (last-InRange, tt);
    owned =
        All-append (λ id. 1 ≤ (get_or (b.entities ++ e ∷ []) (id - 1) no_entity).parent_id)
          b.property_ids _ (Owned-append b.entities e b.property_ids known_properties h.owned)
          (Owned-last b.entities e p.0);
    results = results_widen;
    covered = λ id r.
        ⊎_elim (λ old. ⊎_elim inl (λ m. inr (⊎_elim inl (λ m. inr (Memᴰ.append_left _ m)) m)) old)
          (λ last. inr (inr (Memᴰ.append_right b.property_ids (Memᴰ.head (omega (arith, h.size))))))
          (covered_more n b.root_id b.node_ids b.property_ids h.covered id r);
  }

  new_node-IsPlaced :
      (key : Key) (category : Text) (l : ℕ)
      → IsPlaced b n
          (note_local l (length b.entities + 1) (with_node key category b))
          (length b.entities + 1)
  unfolding with_node
  new_node-IsPlaced key category l = record {
    count = n + 1;
    shaped =
        note_local-IsShaped l _ (with_node key category b) (n + 1) last-InRange
          (with_node-IsShaped key category);
    target = last-InRange;
    grown = omega arith;
    same_results = (note_local-results l _ (with_node key category b)).0;
    same_root = (note_local-results l _ (with_node key category b)).1;
  }

  new_property-IsPlaced :
      (key : PropertyKey) (ref : Text) (e : BatchEntity) (l : ℕ)
      → InRange n e.parent_id
      → IsPlaced b n
          (note_local l (length b.entities + 1) (with_property key ref e b))
          (length b.entities + 1)
  unfolding with_property
  new_property-IsPlaced key ref e l p = record {
    count = n + 1;
    shaped =
        note_local-IsShaped l _ (with_property key ref e b) (n + 1) last-InRange
          (with_property-IsShaped key ref e p);
    target = last-InRange;
    grown = omega arith;
    same_results = (note_local-results l _ (with_property key ref e b)).0;
    same_root = (note_local-results l _ (with_property key ref e b)).1;
  }

  category_kept :
      (id : ℕ) (category : Text)
      → IsShaped (if is_empty category then b else update_item id (set_category category) b) n
        × ((if is_empty category then b else update_item id (set_category category) b).results
            ≡ b.results)
        × ((if is_empty category then b else update_item id (set_category category) b).root_id
            ≡ b.root_id)
  category_kept id category = elim (Bool-cases (is_empty category)) [
    | inl e ↦ rw e (h, refl, refl)
    | inr e ↦ rw e (update_item-IsShaped id (set_category category) b n (λ e. refl) h, refl, refl)
  ]

  pub add_node-IsPlaced :
      (t v category : Text) (l : ℕ)
      → IsPlaced b n (add_node t v category l b).0 (add_node t v category l b).1
  unfolding add_node
  add_node-IsPlaced t v category l =
      let key : Key = record { type = t; value = v } in
      elim (Option-cases (find eq_key key b.node_index)) [
        | inl missing ↦ rw (missing, add_node) (new_node-IsPlaced key category l)
        | inr (id, at) ↦
            let (shaped, rs, root) = category_kept id category in
            rw (at, add_node)
              (old-IsPlaced b _ n l id shaped
                (find-All eq_key (InRange n) key b.node_index id h.nodes at) rs root)
      ]

  pub add_property-IsPlaced :
      (source parent : ℕ) (r : ValidResult)
      → InRange n parent
      → IsPlaced b n (add_property source parent r b).0 (add_property source parent r b).1
  unfolding add_property merge_property
  add_property-IsPlaced source parent r p =
      let key : PropertyKey = record {
        parent_id = parent;
        key = record { type = r.type; value = r.value };
      } in
      elim (Option-cases (find eq_property_key key b.property_index)) [
        | inl missing ↦
            rw (missing, add_property)
              (new_property-IsPlaced key (joined_key r.type r.value) (new_property source parent r)
                r.local_id p)
        | inr (id, at) ↦
            rw (at, add_property)
              (old-IsPlaced b _ n r.local_id id
                (update_item-IsShaped id (merge_property r) b n (λ e. refl) h)
                (find-All eq_property_key (InRange n) key b.property_index id h.properties at) refl
                refl)
      ]

  pub place_target-IsPlaced :
      (source : ℕ) (r : ValidResult)
      → InRange n source
      → IsPlaced b n (place_target source r b).0 (place_target source r b).1
  unfolding place_target
  place_target-IsPlaced source r p =
      elim (Bool-cases (eq_text (normalize_category r.category) (codes "node"))) [
        | inl node ↦
            rw node (add_node-IsPlaced r.type r.value (normalize_category r.category) r.local_id)
        | inr property ↦ rw property (add_property-IsPlaced source source r p)
      ]
