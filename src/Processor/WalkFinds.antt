-- ===== src/Processor/WalkFinds.antt =====
-- The walk over the sources finds exactly the keys that a chain of results leads to.
use recon_sr.Base.{
  ℕ, zero, suc, ◌≡◌, ◌↔◌, ◌⊎◌, refl, sym, subst, arith, true, List, [], ◌∷◌, length, some, Memᴰ,
  Memᴰ-cons, Bool-cases, inl, inr, ⊎_elim, some-inj,
}
use mathlib.Core.List.Memᴰ
use recon_sr.Processor.Keys.{
  Key, mem_key, Edge, targets, Walk, visit, visit_all, walk, reachable_keys,
}
use recon_sr.Processor.Reachable.{mem_key_iff, Reach, here, step, targets_sound, targets_complete}

visit_reachable :
    (w : Walk) (k x : Key) → Memᴰ x (visit w k).reachable ↔ (Memᴰ x w.reachable ⊎ (x ≡ k))
unfolding visit
visit_reachable w k x = elim (Bool-cases (mem_key k w.reachable)) [
  | inl old ↦ rw old (
    inl,
    ⊎_elim (λ m. m)
        (λ at. subst (λ z. Memᴰ z w.reachable) (sym at) ((mem_key_iff k w.reachable).0 old)),
  )
  | inr new ↦ rw new (λ m. ⊎_elim inr inl (Memᴰ.cases_cons m), ⊎_elim Memᴰ.tail Memᴰ.head)
]

visit_queue :
    (w : Walk) (k x : Key)
    → (Memᴰ x w.queue → Memᴰ x (visit w k).queue)
      × (Memᴰ x (visit w k).queue → Memᴰ x w.queue ⊎ (x ≡ k))
      × (Memᴰ x (visit w k).reachable → Memᴰ x w.reachable ⊎ Memᴰ x (visit w k).queue)
unfolding visit
visit_queue w k x = elim (Bool-cases (mem_key k w.reachable)) [
  | inl old ↦ rw old (λ m. m, inl, inl)
  | inr new ↦ rw new (
    Memᴰ.append_left (k ∷ []),
    λ m. ⊎_elim inl (λ last. inr (Memᴰ.eq_of_singleton last)) (Memᴰ.append_cases w.queue m),
    λ m. ⊎_elim (λ at. inr (Memᴰ.append_right w.queue (Memᴰ.head at))) inl (Memᴰ.cases_cons m),
  )
]

visit_all_reachable :
    (ks : List Key) (w : Walk) (x : Key)
    → Memᴰ x (visit_all w ks).reachable ↔ (Memᴰ x w.reachable ⊎ Memᴰ x ks)
unfolding visit_all
visit_all_reachable [] w x = (inl, ⊎_elim (λ m. m) (λ n. absurd (Memᴰ.not-nil n)))
visit_all_reachable (k ∷ ks) w x =
    ground (arith, visit_all_reachable ks (visit w k) x, visit_reachable w k x, Memᴰ-cons x k ks)

visit_all_queue :
    (ks : List Key) (w : Walk) (x : Key)
    → (Memᴰ x w.queue → Memᴰ x (visit_all w ks).queue)
      × (Memᴰ x (visit_all w ks).queue → Memᴰ x w.queue ⊎ Memᴰ x ks)
      × (Memᴰ x (visit_all w ks).reachable → Memᴰ x w.reachable ⊎ Memᴰ x (visit_all w ks).queue)
unfolding visit_all
visit_all_queue [] w x = (λ m. m, inl, inl)
visit_all_queue (k ∷ ks) w x =
    ground (arith, visit_all_queue ks (visit w k) x, visit_queue w k x, Memᴰ-cons x k ks)

module _ (edges : List Edge) (source : Key) where
  record Inv (reachable queue : List Key) : Type 0 where
    origin : Memᴰ source reachable
    sound : (k : Key) → Memᴰ k reachable → Reach edges source k
    queued : (k : Key) → Memᴰ k queue → Memᴰ k reachable
    closed :
        (e : Edge) → Memᴰ e edges → Memᴰ e.from reachable → Memᴰ e.from queue ⊎ Memᴰ e.to reachable

  Inv-start : Inv (source ∷ []) (source ∷ [])
  Inv-start = record {
    origin = Memᴰ.head refl;
    sound = λ k m. subst (Reach edges source) (sym (Memᴰ.eq_of_singleton m)) here;
    queued = λ k m. m;
    closed = λ e m r. inl r;
  }

  Inv-round :
      (reachable queue : List Key) (k : Key)
      → Inv reachable (k ∷ queue)
      → Inv
          (visit_all (record { reachable = reachable; queue = queue }) (targets edges k)).reachable
          (visit_all (record { reachable = reachable; queue = queue }) (targets edges k)).queue
  Inv-round reachable queue k inv =
      let w : Walk = record { reachable = reachable; queue = queue } in
      let reached = visit_all_reachable (targets edges k) w in
      let waiting = visit_all_queue (targets edges k) w in
      let from_k = inv.sound k (inv.queued k (Memᴰ.head refl)) in
      record {
        origin = (reached source).1 (inl inv.origin);
        sound = λ x m.
            ⊎_elim (inv.sound x)
              (λ t.
                let (e, n, p, q) = targets_sound edges k x t in
                subst (Reach edges source) q (step n (subst (Reach edges source) (sym p) from_k)))
              ((reached x).0 m);
        queued = λ x m.
            (reached x).1 (⊎_elim (λ q. inl (inv.queued x (Memᴰ.tail q))) inr ((waiting x).1 m));
        closed = λ e m r.
            ⊎_elim
              (λ old.
                ⊎_elim
                  (λ q.
                    ⊎_elim
                      (λ at. inr (
                        (reached e.to).1 (
                          inr (
                            subst (λ z. Memᴰ e.to (targets edges z)) at
                              (targets_complete edges e m)))))
                      (λ later. inl ((waiting e.from).0 later)) (Memᴰ.cases_cons q))
                  (λ t. inr ((reached e.to).1 (inl t))) (inv.closed e m old))
              inl ((waiting e.from).2 r);
      }

  walk-Inv :
      (fuel : ℕ) (reachable queue ks : List Key)
      → Inv reachable queue
      → walk edges fuel reachable queue ≡ some ks
      → Inv ks []
  unfolding walk
  walk-Inv fuel reachable [] ks inv h = subst (λ z. Inv z []) (some-inj h) inv
  walk-Inv zero reachable (k ∷ queue) ks inv h = cc
  walk-Inv (suc fuel) reachable (k ∷ queue) ks inv h =
      walk-Inv fuel _ _ ks (Inv-round reachable queue k inv) h

  closed_complete : (ks : List Key) → Inv ks [] → {k : Key} → Reach edges source k → Memᴰ k ks
  closed_complete ks inv here = inv.origin
  closed_complete ks inv (step {e} m r) =
      ⊎_elim (λ n. absurd (Memᴰ.not-nil n)) (λ t. t) (inv.closed e m (closed_complete ks inv r))

  -- A key is among those that the walk returns exactly when a chain of results leads to it from
  -- the source.
  pub reachable_keys-Reach :
      (ks : List Key) (k : Key)
      → reachable_keys edges source ≡ some ks
      → (mem_key k ks ≡ true) ↔ Reach edges source k
  unfolding reachable_keys
  reachable_keys-Reach ks k h =
      let inv = walk-Inv (suc (length edges)) (source ∷ []) (source ∷ []) ks Inv-start h in
      (
        λ e. inv.sound k ((mem_key_iff k ks).0 e),
        λ r. (mem_key_iff k ks).1 (closed_complete ks inv r),
      )
