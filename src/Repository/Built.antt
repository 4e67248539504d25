-- ===== src/Repository/Built.antt =====
-- `buildStoreBatch` ends, and what it builds is in shape and has every result once.
use recon_sr.Base.{
  ℕ, ◌+◌, ◌≤◌, ◌==◌, ◌≡◌, inl, inr, refl, ap, sym, subst, ◌∙◌, arith, Bool, List, [], ◌∷◌, ◌++◌,
  Text, All, All-append, length, length-append, Bool-cases, Option-cases, codes, eq_text,
}
use recon_sr.Strings.{is_empty}
use recon_sr.Schema.{ValidResult, EntityRef}
use recon_sr.Processor.Keys.{eq_key}
use recon_sr.Repository.Batch.{
  BatchResult, StoreBatch, find, eq_number, refs_at, joined_key, place_target, place_anchor,
  place_result, place_results, anchor_type, Resolved, found, unknown, ambiguous_source, one_of,
  found_or, resolve_source,
}
use recon_sr.Repository.Shape.{InRange, IsShaped, find-All}
use recon_sr.Repository.Placed.{add_node-IsPlaced, place_target-IsPlaced}

-- A batch that has grown by some results.
pub record IsGrown (b : StoreBatch) (n : ℕ) (after : StoreBatch) (more : ℕ) : Type 0 where
  pub count : ℕ
  pub shaped : IsShaped after count
  pub grown : n ≤ count
  pub results_added : length after.results ≡ length b.results + more

InRange-mono : (n m id : ℕ) → n ≤ m → InRange n id → InRange m id
InRange-mono n m id le (p, q) = (p, omega arith)

-- The anchor of a result becomes a node.
place_anchor-IsPlaced :
    (a : Text) (b : StoreBatch) (n : ℕ)
    → IsShaped b n
    → (count : ℕ) × IsShaped (place_anchor a b) count
      × (n ≤ count)
      × ((place_anchor a b).results ≡ b.results)
unfolding place_anchor
place_anchor-IsPlaced a b n h = elim (Bool-cases (is_empty a)) [
  | inl e ↦ rw e (n, h, omega arith, refl)
  | inr e ↦
      let p = add_node-IsPlaced b n h anchor_type a (codes "node") 0 in
      rw e (p.count, p.shaped, p.grown, p.same_results)
]

with_result-IsShaped :
    (b : StoreBatch) (n : ℕ) (r : BatchResult)
    → IsShaped b n
    → InRange n r.source_id
    → InRange n r.target_id
    → IsShaped (record b { results = b.results ++ r ∷ [] }) n
with_result-IsShaped b n r h p q = record {
  size = h.size;
  ordered = h.ordered;
  root = h.root;
  nodes = h.nodes;
  locals = h.locals;
  properties = h.properties;
  refs = h.refs;
  listed_properties = h.listed_properties;
  owned = h.owned;
  results =
      All-append (λ (r : BatchResult). InRange n r.source_id × InRange n r.target_id) b.results
        (r ∷ []) h.results ((p, q), tt);
  covered = h.covered;
}

place_result-IsGrown :
    (source : ℕ) (b : StoreBatch) (n : ℕ) (r : ValidResult)
    → IsShaped b n
    → InRange n source
    → IsGrown b n (place_result source b r) 1
unfolding place_result
place_result-IsGrown source b n r h s =
    let p = place_target-IsPlaced b n h source r s in
    let (count, shaped, grown, same) =
      place_anchor-IsPlaced r.anchor (place_target source r b).0 p.count p.shaped in
    let pg = p.grown in
    let row : BatchResult = record {
      source_id = source;
      target_id = (place_target source r b).1;
      result = r;
    } in
    record {
      count = count;
      shaped =
          with_result-IsShaped (place_anchor r.anchor (place_target source r b).0) count row shaped
            (InRange-mono n count source (omega arith) s)
            (InRange-mono p.count count _ grown p.target);
      grown = omega arith;
      results_added = omega (
        arith,
        length-append (place_anchor r.anchor (place_target source r b).0).results (row ∷ []),
        ap length (same ∙ p.same_results),
      );
    }

pub place_results-IsGrown :
    (source : ℕ) (b : StoreBatch) (n : ℕ) (rs : List ValidResult)
    → IsShaped b n
    → InRange n source
    → IsGrown b n (place_results source b rs) (length rs)
unfolding place_results
place_results-IsGrown source b n [] h s = record {
  count = n;
  shaped = h;
  grown = omega arith;
  results_added = omega arith;
}
place_results-IsGrown source b n (r ∷ rs) h s =
    let g = place_result-IsGrown source b n r h s in
    let gg = g.grown in
    let ga = g.results_added in
    let g' =
      place_results-IsGrown source (place_result source b r) g.count rs g.shaped
        (InRange-mono n g.count source gg s) in
    let gg' = g'.grown in
    let ga' = g'.results_added in
    record {
      count = g'.count;
      shaped = g'.shaped;
      grown = omega arith;
      results_added = omega arith;
    }

-- A source that is found is an entity of the batch.
abbrev pub Found : ℕ → Resolved → Type 0
Found n (found id) = InRange n id
Found n unknown = Unit
Found n ambiguous_source = Unit

one_of-Found : (n : ℕ) (ids : List ℕ) → All (InRange n) ids → Found n (one_of ids)
one_of-Found n [] h = tt
one_of-Found n (id ∷ []) h = h.0
one_of-Found n (id ∷ other ∷ ids) h = tt

found_or-Found :
    {K : Type 0} (same : K → K → Bool) (n : ℕ) (k : K) (m : List (K × ℕ)) (other : Resolved)
    → All (λ p. InRange n p.1) m
    → Found n other
    → Found n (found_or (find same k m) other)
found_or-Found same n k m other h o = elim (Option-cases (find same k m)) [
  | inl missing ↦ subst (λ f. Found n (found_or f other)) (sym missing) o
  | inr (id, at) ↦
      subst (λ f. Found n (found_or f other)) (sym at) (find-All same (InRange n) k m id h at)
]

refs_at-InRange :
    (b : StoreBatch) (n : ℕ) (ref : Text)
    → IsShaped b n
    → All (InRange n) (refs_at (find eq_text ref b.property_refs))
refs_at-InRange b n ref h = elim (Option-cases (find eq_text ref b.property_refs)) [
  | inl missing ↦ subst (λ o. All (InRange n) (refs_at o)) (sym missing) tt
  | inr (ids, at) ↦
      subst (λ o. All (InRange n) (refs_at o)) (sym at)
        (find-All eq_text (All (InRange n)) ref b.property_refs ids h.refs at)
]

pub resolve_source-Found :
    (root_key : Text) (source : EntityRef) (b : StoreBatch) (n : ℕ)
    → IsShaped b n
    → Found n (resolve_source root_key source b)
unfolding resolve_source
resolve_source-Found root_key source b n h = elim (Bool-cases (source.local_id == 0)) [
  | inr given ↦
      rw given (found_or-Found eq_number n source.local_id b.local_ids unknown h.locals tt)
  | inl plain ↦
      rw plain (elim (Bool-cases (eq_text (joined_key source.type source.value) root_key)) [
        | inl root ↦ rw root h.root
        | inr other ↦ rw other (
            found_or-Found eq_key n (record { type = source.type; value = source.value })
              b.node_index _ h.nodes (one_of-Found n _ (refs_at-InRange b n _ h)))
      ])
]
