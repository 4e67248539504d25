-- ===== src/Repository/Rounds.antt =====
-- `buildStoreBatch` as a whole.
use recon_sr.Base.{
  ℕ, zero, suc, ◌+◌, ◌≤◌, ◌<◌, ◌≡◌, ◌⊎◌, inl, inr, refl, subst, arith, true, false, List, [], ◌∷◌,
  ◌++◌, some, Text, length, length-append, Bool-cases, Option-cases, some-inj, codes, eq_text,
}
use recon_sr.Schema.{ResultGroup}
use recon_sr.Processor.Process.{total_results}
use recon_sr.Repository.Batch.{
  StoreBatch, EntityFields, joined_key, add_node, with_node, note_local, find, put, place_results,
  Resolved, found, unknown, ambiguous_source, resolve_source, Round, round, Built, built, ambiguous,
  unresolved, rounds, root_batch, build_store_batch,
}
use recon_sr.Repository.Shape.{InRange, IsShaped}
use recon_sr.Repository.Built.{place_results-IsGrown, Found, resolve_source-Found}

total_results-append :
    (gs hs : List ResultGroup) → total_results (gs ++ hs) ≡ total_results gs + total_results hs
unfolding total_results
total_results-append [] hs = omega arith
total_results-append (g ∷ gs) hs = omega (arith, total_results-append gs hs)

Resolved-cases :
    (r : Resolved) → ((r ≡ unknown) ⊎ (r ≡ ambiguous_source)) ⊎ ((id : ℕ) × (r ≡ found id))
Resolved-cases unknown = inl (inl refl)
Resolved-cases ambiguous_source = inl (inr refl)
Resolved-cases (found id) = inr (id, refl)

-- What a round over some groups does: the batch keeps its shape, no result is lost or counted
-- twice, and a round that makes progress leaves fewer groups.
record IsRound (before after : Round) (groups : List ResultGroup) : Type 0 where
  count : ℕ
  shaped : IsShaped after.batch count
  kept :
      length after.batch.results + total_results after.next_pending
      ≡ length before.batch.results + total_results before.next_pending + total_results groups
  fewer : length after.next_pending ≤ length before.next_pending + length groups
  strict :
      after.progressed ≡ true
      → before.progressed ≡ false
      → length after.next_pending < length before.next_pending + length groups

round-IsRound :
    (root_key : Text) (st after : Round) (groups : List ResultGroup) (n : ℕ)
    → IsShaped st.batch n
    → round root_key st groups ≡ some after
    → IsRound st after groups
unfolding round total_results
round-IsRound root_key st after [] n h e =
    subst (λ a. IsRound st a []) (some-inj e)
      (record {
        count = n;
        shaped = h;
        kept = omega arith;
        fewer = omega arith;
        strict = λ yes no. cc;
      })
round-IsRound root_key st after (g ∷ gs) n h e =
    elim (Resolved-cases (resolve_source root_key g.source st.batch)) [
      | inl (inr bad) ↦ absurd (ground arith)
      | inl (inl later) ↦
          let r =
            round-IsRound root_key (record st { next_pending = st.next_pending ++ g ∷ [] }) after gs
              n h (rw (later, round) at e) in
          let lost = length-append st.next_pending (g ∷ []) in
          let owed = total_results-append st.next_pending (g ∷ []) in
          let kept = r.kept in
          let fewer = r.fewer in
          record {
            count = r.count;
            shaped = r.shaped;
            kept = omega arith;
            fewer = omega arith;
            strict = λ yes no. let s = r.strict yes no in omega arith;
          }
      | inr (id, at) ↦
          let known : InRange n id =
            subst (Found n) at (resolve_source-Found root_key g.source st.batch n h) in
          let grown = place_results-IsGrown id st.batch n g.results h known in
          let added = grown.results_added in
          let r =
            round-IsRound root_key
              (record st { batch = place_results id st.batch g.results; progressed = true }) after
              gs grown.count grown.shaped (rw (at, round) at e) in
          let kept = r.kept in
          let fewer = r.fewer in
          record {
            count = r.count;
            shaped = r.shaped;
            kept = omega arith;
            fewer = omega arith;
            strict = λ yes no. omega arith;
          }
    ]

rounds_end :
    (root_key : Text) (fuel : ℕ) (b : StoreBatch) (groups : List ResultGroup) (n : ℕ)
    → IsShaped b n
    → length groups ≤ fuel
    → (r : Built) × (rounds root_key fuel b groups ≡ some r)
unfolding rounds
rounds_end root_key fuel b [] n h le = (built b, refl)
rounds_end root_key zero b (g ∷ gs) n h le = absurd (omega arith)
rounds_end root_key (suc fuel) b (g ∷ gs) n h le =
    let st : Round = record { batch = b; next_pending = []; progressed = false } in
    elim (Option-cases (round root_key st (g ∷ gs))) [
      | inl bad ↦ (ambiguous, ground arith)
      | inr (after, ok) ↦ elim (Bool-cases after.progressed) [
        | inr stuck ↦ (unresolved, rw (ok, rounds) (rw stuck refl))
        | inl moved ↦
            let r = round-IsRound root_key st after (g ∷ gs) n h ok in
            let strict = r.strict moved refl in
            let (out, e) =
              rounds_end root_key fuel after.batch after.next_pending r.count r.shaped
                (omega arith) in
            (out, ground arith)
      ]
    ]

-- What a batch that was built promises.
pub record IsBuilt (groups : List ResultGroup) (b : StoreBatch) : Type 0 where
  pub count : ℕ
  pub shaped : IsShaped b count
  pub all_results : length b.results ≡ total_results groups

rounds_built :
    (root_key : Text) (fuel : ℕ) (b out : StoreBatch) (groups : List ResultGroup) (n : ℕ)
    → IsShaped b n
    → rounds root_key fuel b groups ≡ some (built out)
    → (count : ℕ) × IsShaped out count
      × (length out.results ≡ length b.results + total_results groups)
unfolding rounds total_results
rounds_built root_key fuel b out [] n h e =
    let same : b ≡ out = ground arith in
    subst (λ o. (count : ℕ) × IsShaped o count × (length o.results ≡ length b.results + 0)) same
      (n, h, omega arith)
rounds_built root_key zero b out (g ∷ gs) n h e = absurd (ground arith)
rounds_built root_key (suc fuel) b out (g ∷ gs) n h e =
    let st : Round = record { batch = b; next_pending = []; progressed = false } in
    elim (Option-cases (round root_key st (g ∷ gs))) [
      | inl bad ↦ absurd (ground arith)
      | inr (after, ok) ↦ elim (Bool-cases after.progressed) [
        | inr stuck ↦ absurd (ground arith)
        | inl moved ↦
            let r = round-IsRound root_key st after (g ∷ gs) n h ok in
            let kept = r.kept in
            let (count, shaped, rest) =
              rounds_built root_key fuel after.batch out after.next_pending r.count r.shaped
                (ground arith) in
            (count, shaped, omega arith)
      ]
    ]

only_root : (id : ℕ) → InRange 1 id → id ≡ 1
only_root id (p, q) = omega arith

pub root_batch-IsShaped :
    (source : EntityFields)
    → IsShaped (root_batch source) 1 × (length (root_batch source).results ≡ 0)
unfolding root_batch add_node with_node note_local find put
root_batch-IsShaped source = elim (Bool-cases (eq_text source.category (codes "property"))) [
  | inl property ↦ rw property (
    record {
      size = refl;
      ordered = (omega arith, tt);
      root = (omega arith, omega arith);
      nodes = tt;
      locals = tt;
      properties = tt;
      refs = tt;
      listed_properties = tt;
      owned = tt;
      results = tt;
      covered = λ id r. inl (only_root id r);
    },
    refl,
  )
  | inr node ↦ rw node (
    record {
      size = refl;
      ordered = (omega arith, tt);
      root = (omega arith, omega arith);
      nodes = ((omega arith, omega arith), tt);
      locals = tt;
      properties = tt;
      refs = tt;
      listed_properties = tt;
      owned = tt;
      results = tt;
      covered = λ id r. inl (only_root id r);
    },
    refl,
  )
]

-- `buildStoreBatch` ends on every packet: the loop over the pending groups never runs out of fuel.
pub build_store_batch_total :
    (groups : List ResultGroup) (source : EntityFields)
    → (r : Built) × (build_store_batch groups source ≡ some r)
unfolding build_store_batch
build_store_batch_total groups source =
    rounds_end (joined_key source.entity_type source.value) (length groups) (root_batch source)
      groups 1 (root_batch-IsShaped source).0 (omega arith)

-- A batch that `buildStoreBatch` builds has as many results as the packet, and it is in shape: its
-- identifiers name entities of the batch, every parent comes before its property, and every
-- entity but the root is listed as a node or as a property.
pub build_store_batch-IsBuilt :
    (groups : List ResultGroup) (source : EntityFields) (b : StoreBatch)
    → build_store_batch groups source ≡ some (built b)
    → IsBuilt groups b
unfolding build_store_batch
build_store_batch-IsBuilt groups source b e =
    let (shaped, empty) = root_batch-IsShaped source in
    let (count, out_shaped, results) =
      rounds_built (joined_key source.entity_type source.value) (length groups) (root_batch source)
        b groups 1 shaped e in
    record { count = count; shaped = out_shaped; all_results = omega arith }

-- A packet without groups, which `Store` falls back on, always builds.
pub build_store_batch-no_groups :
    (source : EntityFields) → build_store_batch [] source ≡ some (built (root_batch source))
unfolding build_store_batch rounds
build_store_batch-no_groups source = refl
