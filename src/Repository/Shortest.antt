-- ===== src/Repository/Shortest.antt =====
-- The strict depths that `Store` works out are lengths of shortest chains of results.
use recon_sr.Base.{
  ℕ, zero, suc, ◌+◌, ◌≤◌, ◌≡◌, inl, inr, refl, ap, sym, subst, ◌∙◌, arith, false, List, [], ◌∷◌,
  length, Bool-cases, Memᴰ, ⊎_elim,
}
use recon_sr.Repository.Batch.{StoreBatch, BatchResult}
use recon_sr.Repository.States.{
  States, Relaxed, relax_result, relax_results, relax_rounds, relax_depths,
}
use recon_sr.Repository.Relax.{
  strict, weight, number_cases, IsBounded, relax_result-IsStep, relax_results-le,
  relax_results-unchanged, relax_results-relaxed,
}

-- A chain of results that leads to an entity: the strict depth at its end, where a node is one
-- deeper than its source and a property as deep as its source, and the number of its results.
pub data Chain (b : StoreBatch) (states : States) : ℕ → ℕ → ℕ → Type 0 where
  start : (id : ℕ) → Chain b states id (states id).depth_strict 0
  follow :
      {r : BatchResult} {d k : ℕ}
      → Memᴰ r b.results
      → Chain b states r.source_id d k
      → Chain b states r.target_id (d + weight b r) (k + 1)

module _ (b : StoreBatch) (states : States) where
  -- Every depth is the depth of some chain.
  abbrev IsReached : States → Type 0
  IsReached now = (id : ℕ) → (k : ℕ) × Chain b states id (now id).depth_strict k

  relax_result-IsReached :
      (r : BatchResult) (st : Relaxed)
      → Memᴰ r b.results
      → IsReached st.states
      → IsReached (relax_result b st r).states
  relax_result-IsReached r st m h id =
      let s = relax_result-IsStep b r st in
      let old : strict (relax_result b st r) id ≡ strict st id
          → (k : ℕ) × Chain b states id (strict (relax_result b st r) id) k =
        λ e. let (k, c) = h id in (k, subst (λ d. Chain b states id d k) (sym e) c) in
      ⊎_elim
        (λ at.
          ⊎_elim (λ e. old (ap (strict (relax_result b st r)) at ∙ e ∙ sym (ap (strict st) at)))
            (λ (e, lt).
              let (k, c) = h r.source_id in
              (
                k + 1,
                subst (λ j. Chain b states j (strict (relax_result b st r) j) (k + 1)) (sym at)
                    (subst (λ d. Chain b states r.target_id d (k + 1)) (sym e) (follow m c)),
              ))
            s.target)
        (λ ne. old (s.others id ne)) (number_cases id r.target_id)

  relax_results-IsReached :
      (rs : List BatchResult) (st : Relaxed)
      → ((r : BatchResult) → Memᴰ r rs → Memᴰ r b.results)
      → IsReached st.states
      → IsReached (relax_results b st rs).states
  unfolding relax_results
  relax_results-IsReached [] st sub h = h
  relax_results-IsReached (r ∷ rs) st sub h =
      relax_results-IsReached rs (relax_result b st r) (λ q m. sub q (Memᴰ.tail m))
        (relax_result-IsReached r st (sub r (Memᴰ.head refl)) h)

  relax_rounds-IsReached :
      (fuel : ℕ) (now : States) → IsReached now → IsReached (relax_rounds b fuel now)
  unfolding relax_rounds
  relax_rounds-IsReached zero now h = h
  relax_rounds-IsReached (suc fuel) now h =
      let st = relax_results b (record { states = now; changed = false }) b.results in
      let next =
        relax_results-IsReached b.results (record { states = now; changed = false }) (λ r m. m) h in
      elim (Bool-cases st.changed) [
        | inl moved ↦ rw moved (relax_rounds-IsReached fuel st.states next)
        | inr quiet ↦ rw quiet next
      ]

  -- No chain of at most `k` results is shorter than the depths.
  abbrev IsShort : ℕ → States → Type 0
  IsShort k now = (id d j : ℕ) → Chain b states id d j → j ≤ k → (now id).depth_strict ≤ d

  round-IsShort :
      (k : ℕ) (now : States)
      → IsBounded now
      → ((id : ℕ) → (now id).depth_strict ≤ (states id).depth_strict)
      → IsShort k now
      → IsShort
          (k + 1)
          (relax_results b (record { states = now; changed = false }) b.results).states
  round-IsShort k now bounded fell h id d j (start _) le =
      omega
        (arith, relax_results-le b b.results (record { states = now; changed = false }) id, fell id)
  round-IsShort k now bounded fell h id d j (follow {r = r} {d = e} {k = i} m c) le = omega (
    arith,
    relax_results-relaxed b b.results (record { states = now; changed = false }) r bounded m,
    h r.source_id e i c (omega arith),
  )

  -- At depths that a round does not change, chains of any length are covered.
  steady :
      (k : ℕ) (now : States)
      → IsBounded now
      → ((id : ℕ) → (now id).depth_strict ≤ (states id).depth_strict)
      → ((id : ℕ)
          → strict (relax_results b (record { states = now; changed = false }) b.results) id
            ≡ (now id).depth_strict)
      → IsShort k now
  steady zero now bounded fell same id d j (start _) le = fell id
  steady zero now bounded fell same id d j (follow m c) le = absurd (omega arith)
  steady (suc k) now bounded fell same id d j c le = omega (
    arith,
    round-IsShort k now bounded fell (steady k now bounded fell same) id d j c (omega (arith, le)),
    same id,
  )

  relax_rounds-IsShort :
      (fuel k : ℕ) (now : States)
      → IsBounded now
      → ((id : ℕ) → (now id).depth_strict ≤ (states id).depth_strict)
      → IsShort k now
      → IsShort (k + fuel) (relax_rounds b fuel now)
  unfolding relax_rounds
  relax_rounds-IsShort zero k now bounded fell h = λ id d j c le. h id d j c (omega (arith, le))
  relax_rounds-IsShort (suc fuel) k now bounded fell h =
      let before : Relaxed = record { states = now; changed = false } in
      let st = relax_results b before b.results in
      elim (Bool-cases st.changed) [
        | inl moved ↦ rw moved (λ id d j c le.
            relax_rounds-IsShort fuel (k + 1) st.states
              (λ i. omega (arith, relax_results-le b b.results before i, bounded i))
              (λ i. omega (arith, relax_results-le b b.results before i, fell i))
              (round-IsShort k now bounded fell h) id d j c (omega (arith, le)))
        | inr quiet ↦ rw quiet (λ id d j c le.
            let same = (relax_results-unchanged b b.results before quiet).1 in
            omega (arith, steady (k + suc fuel) now bounded fell same id d j c le, same id))
      ]

-- `Store` gives every entity of a batch the strict depth of some chain of results that leads to
-- it, and no chain of at most as many results as there are entities gives it a smaller one,
-- provided that no depth was beyond `unresolvedDepth` before.
pub relax_depths-IsShortest :
    (b : StoreBatch) (states : States) (id : ℕ)
    → IsBounded states
    → ((k : ℕ) × Chain b states id (relax_depths b states id).depth_strict k)
      × ((d j : ℕ)
          → Chain b states id d j
          → j ≤ length b.entities
          → (relax_depths b states id).depth_strict ≤ d)
unfolding relax_depths
relax_depths-IsShortest b states id bounded = (
  relax_rounds-IsReached b states (length b.entities) states (λ i. (0, start i)) id,
  λ d j c le.
      relax_rounds-IsShort b states (length b.entities) 0 states bounded (λ i. omega arith)
        (shortest_start b states) id d j c (omega (arith, le)),
)
  where
    shortest_start : (b : StoreBatch) (states : States) → IsShort b states 0 states
    shortest_start b states id d j (start _) le = omega arith
    shortest_start b states id d j (follow m c) le = absurd (omega arith)
