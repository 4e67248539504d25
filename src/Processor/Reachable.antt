-- ===== src/Processor/Reachable.antt =====
-- The walk ends, and it finds exactly the keys that a chain of results leads to.
use recon_sr.Base.{
  ◌≡◌, ◌↔◌, inl, inr, refl, ap, sym, arith, true, false, List, [], ◌∷◌, Memᴰ, Memᴰ-cons, Bool-cases,
  eq_text_iff, ⊎_elim,
}
use mathlib.Core.List.Memᴰ
use recon_sr.Processor.Keys.{Key, eq_key, mem_key, Edge, targets}

pub eq_key_iff : (a b : Key) → (eq_key a b ≡ true) ↔ (a ≡ b)
unfolding eq_key
eq_key_iff a b = ground (arith, eq_text_iff a.type b.type, eq_text_iff a.value b.value)

pub mem_key_iff : (k : Key) (ks : List Key) → (mem_key k ks ≡ true) ↔ Memᴰ k ks
unfolding mem_key
mem_key_iff k [] = (λ e. cc, λ m. absurd (Memᴰ.not-nil m))
mem_key_iff k (j ∷ js) = ground (arith, mem_key_iff k js, eq_key_iff j k, Memᴰ-cons k j js)

-- A chain of results from the source.
pub data Reach (edges : List Edge) (source : Key) : Key → Type 0 where
  here : Reach edges source source
  step : {e : Edge} → Memᴰ e edges → Reach edges source e.from → Reach edges source e.to

pub targets_sound :
    (edges : List Edge) (k x : Key)
    → Memᴰ x (targets edges k)
    → (e : Edge) × Memᴰ e edges × (e.from ≡ k) × (e.to ≡ x)
unfolding targets
targets_sound [] k x m = absurd (Memᴰ.not-nil m)
targets_sound (e ∷ es) k x m = elim (Bool-cases (eq_key e.from k)) [
  | inl same ↦
      ⊎_elim (λ at. (e, Memᴰ.head refl, (eq_key_iff e.from k).0 same, sym at))
        (λ later. let (d, n, p, q) = targets_sound es k x later in (d, Memᴰ.tail n, p, q))
        (Memᴰ.cases_cons (rw (same, targets) at m))
  | inr other ↦
      let (d, n, p, q) = targets_sound es k x (rw (other, targets) at m) in (d, Memᴰ.tail n, p, q)
]

clash : (d e : Edge) → e ≡ d → eq_key d.from e.from ≡ false → ⊥
clash d e at other = ground (arith, eq_key_iff d.from e.from, ap Edge.from at)

pub targets_complete :
    (edges : List Edge) (e : Edge) → Memᴰ e edges → Memᴰ e.to (targets edges e.from)
unfolding targets
targets_complete [] e m = absurd (Memᴰ.not-nil m)
targets_complete (d ∷ es) e m = elim (Bool-cases (eq_key d.from e.from)) [
  | inl same ↦ rw same (
      ⊎_elim (λ at. Memᴰ.head (ap Edge.to at)) (λ later. Memᴰ.tail (targets_complete es e later))
        (Memᴰ.cases_cons m))
  | inr other ↦
      rw other
        (⊎_elim (λ at. absurd (clash d e at other)) (targets_complete es e) (Memᴰ.cases_cons m))
]
