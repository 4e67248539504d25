-- ===== src/Processor/WalkEnds.antt =====
-- The walk over the sources ends within its fuel.
use recon_sr.Base.{
  ℕ, zero, suc, ◌+◌, ◌≤◌, ◌<◌, ◌≡◌, refl, ap, subst, arith, false, List, [], ◌∷◌, some, length,
  length-append, Memᴰ, Bool-cases, inl, inr, ⊎_elim, if◌then◌else◌,
}
use mathlib.Core.List.Memᴰ
use recon_sr.Processor.Keys.{
  Key, mem_key, Edge, targets, Walk, visit, visit_all, walk, reachable_keys,
}
use recon_sr.Processor.Reachable.{eq_key_iff, targets_sound}

-- The edges whose target has not been reached yet.
unseen : List Key → List Edge → ℕ
unseen ks [] = 0
unseen ks (e ∷ es) = let rest = unseen ks es in if mem_key e.to ks then rest else suc rest

unseen_mono : (x : Key) (ks : List Key) (es : List Edge) → unseen (x ∷ ks) es ≤ unseen ks es
unfolding unseen mem_key
unseen_mono x ks [] = omega arith
unseen_mono x ks (e ∷ es) = ground (arith, unseen_mono x ks es)

unseen-le-length : (ks : List Key) (es : List Edge) → unseen ks es ≤ length es
unfolding unseen
unseen-le-length ks [] = omega arith
unseen-le-length ks (e ∷ es) = ground (arith, unseen-le-length ks es)

unseen-lt :
    (e : Edge) (ks : List Key) (es : List Edge)
    → mem_key e.to ks ≡ false
    → Memᴰ e es
    → unseen (e.to ∷ ks) es < unseen ks es
unfolding unseen mem_key
unseen-lt e ks [] h m = absurd (Memᴰ.not-nil m)
unseen-lt e ks (d ∷ es) h m =
    ⊎_elim (λ at. ground (arith, unseen_mono e.to ks es, eq_key_iff e.to d.to, ap Edge.to at))
      (λ later. ground (arith, unseen-lt e ks es h later)) (Memᴰ.cases_cons m)

module _ (edges : List Edge) where
  abbrev work : Walk → ℕ
  work w = unseen w.reachable edges + length w.queue

  visit-work : (w : Walk) (e : Edge) → Memᴰ e edges → work (visit w e.to) ≤ work w
  unfolding visit
  visit-work w e m = elim (Bool-cases (mem_key e.to w.reachable)) [
    | inl old ↦ rw old (omega arith)
    | inr new ↦
        rw new
          (omega (arith, unseen-lt e w.reachable edges new m, length-append w.queue (e.to ∷ [])))
  ]

  -- Keys that some edge leads to.
  visit_all-work :
      (ks : List Key) (w : Walk)
      → ((x : Key) → Memᴰ x ks → (e : Edge) × Memᴰ e edges × (e.to ≡ x))
      → work (visit_all w ks) ≤ work w
  unfolding visit_all
  visit_all-work [] w h = omega arith
  visit_all-work (k ∷ ks) w h =
      let (e, m, at) = h k (Memᴰ.head refl) in
      let now = subst (λ x. work (visit w x) ≤ work w) at (visit-work w e m) in
      omega (arith, visit_all-work ks (visit w k) (λ x n. h x (Memᴰ.tail n)))

  walk_ends :
      (fuel : ℕ) (reachable queue : List Key)
      → unseen reachable edges + length queue ≤ fuel
      → (ks : List Key) × (walk edges fuel reachable queue ≡ some ks)
  unfolding walk
  walk_ends fuel reachable [] h = (reachable, refl)
  walk_ends zero reachable (k ∷ queue) h = absurd (omega arith)
  walk_ends (suc fuel) reachable (k ∷ queue) h =
      let w : Walk = record { reachable = reachable; queue = queue } in
      let bound =
        visit_all-work (targets edges k) w
          (λ x m. let (e, n, _, at) = targets_sound edges k x m in (e, n, at)) in
      walk_ends fuel (visit_all w (targets edges k)).reachable (visit_all w (targets edges k)).queue
        (omega arith)

  -- The walk over the sources ends with a result on every list of edges, loops included: the fuel
  -- is enough.
  pub reachable_keys_total :
      (source : Key) → (ks : List Key) × (reachable_keys edges source ≡ some ks)
  unfolding reachable_keys
  reachable_keys_total source =
      walk_ends (suc (length edges)) (source ∷ []) (source ∷ [])
        (omega (arith, unseen-le-length (source ∷ []) edges))
