-- ===== src/Modules/Numbered.antt =====
-- The identifiers that modules/vuln_lookup gives to its results: they count up in the order of the
-- list, and a result that names another as its source names an earlier one.
use recon_sr.Base.{
  ℕ, zero, suc, ◌+◌, ◌<◌, ◌≡◌, refl, sym, ◌∙◌, subst, ap, ◌⊎◌, inl, inr, ⊎_elim, arith, List, [],
  ◌∷◌, ◌++◌, Option, some, length, length-append, get_elem?, Memᴰ, Memᴰ-append, some-inj,
}
use mathlib.Core.List.Memᴰ
use recon_sr.Schema.{EntityRef, InputResult}
use recon_sr.Modules.Writing.{Writing, put_result}

-- One of the results is the entity that a reference describes.
abbrev pub IsNamed : List InputResult → EntityRef → Type 0
IsNamed results s =
    (q : InputResult) × Memᴰ q results
    × (q.type ≡ s.type)
    × (q.value ≡ s.value)
    × (q.local_id ≡ s.local_id)

abbrev pub IsKnown : Writing → EntityRef → Type 0
IsKnown w s = (s.local_id < w.next_id) × IsNamed w.results s

abbrev pub HasSource : Writing → Option EntityRef → Type 0
HasSource w source = (s : EntityRef) → source ≡ some s → IsKnown w s

-- The identifiers count up from `first`, and each source is a result with a smaller one.
abbrev pub IsNumbered : ℕ → Writing → Type 0
IsNumbered first w =
    (w.next_id ≡ first + length w.results)
    × ((i : ℕ) (r : InputResult) → get_elem? w.results i ≡ some r → r.local_id ≡ first + i)
    × ((r : InputResult) (s : EntityRef)
        → Memᴰ r w.results
        → r.source ≡ some s
        → (s.local_id < r.local_id) × IsNamed w.results s)

get_elem?-concat {ℓ} :
    {A : Type ℓ} (xs : List A) (x r : A) (i : ℕ)
    → get_elem? (xs ++ x ∷ []) i ≡ some r
    → (get_elem? xs i ≡ some r) ⊎ ((i ≡ length xs) × (x ≡ r))
get_elem?-concat [] x r zero h = inr (refl, some-inj h)
get_elem?-concat [] x r (suc i) h = cc
get_elem?-concat (y ∷ xs) x r zero h = inl h
get_elem?-concat (y ∷ xs) x r (suc i) h = elim (get_elem?-concat xs x r i h) [
  | inl e ↦ inl e
  | inr (e, e') ↦ inr (ap suc e, e')
]

pub mem-concat {ℓ} :
    {A : Type ℓ} (xs : List A) (x a : A) → Memᴰ a (xs ++ x ∷ []) → Memᴰ a xs ⊎ (a ≡ x)
mem-concat xs x a m = elim ((Memᴰ-append a xs (x ∷ [])).0 m) [
  | inl h ↦ inl h
  | inr h ↦ ⊎_elim inr (λ later. absurd (Memᴰ.not-nil later)) (Memᴰ.cases_cons h)
]

IsNamed-append : (xs ys : List InputResult) (s : EntityRef) → IsNamed xs s → IsNamed (xs ++ ys) s
IsNamed-append xs ys s (q, m, t, v, l) = (q, (Memᴰ-append q xs ys).1 (inl m), t, v, l)

module _ (r : InputResult) (w : Writing) where
  pub put_result-IsKnown : (s : EntityRef) → IsKnown w s → IsKnown (put_result r w) s
  unfolding put_result
  put_result-IsKnown s (less, named) =
      (omega arith, IsNamed-append w.results (record r { local_id = w.next_id } ∷ []) s named)

  pub new-IsKnown :
      (s : EntityRef)
      → r.type ≡ s.type
      → r.value ≡ s.value
      → w.next_id ≡ s.local_id
      → IsKnown (put_result r w) s
  unfolding put_result
  new-IsKnown s t v l =
      let x : InputResult = record r { local_id = w.next_id } in
      (omega arith, (x, (Memᴰ-append x w.results (x ∷ [])).1 (inr (Memᴰ.head refl)), t, v, l))

  pub put_result-HasSource :
      (source : Option EntityRef) → HasSource w source → HasSource (put_result r w) source
  put_result-HasSource source h s e = put_result-IsKnown s (h s e)

  pub put_result-IsNumbered :
      (first : ℕ) → IsNumbered first w → HasSource w r.source → IsNumbered first (put_result r w)
  unfolding put_result
  put_result-IsNumbered first (next, ids, sources) h =
      let x : InputResult = record r { local_id = w.next_id } in
      (
        let e = length-append w.results (x ∷ []) in omega arith,
        λ i q e. elim (get_elem?-concat w.results x q i e) [
          | inl old ↦ ids i q old
          | inr (at_end, same) ↦ sym (ap InputResult.local_id same) ∙ omega arith
        ],
        λ q s m e. elim (mem-concat w.results x q m) [
          | inl old ↦
              let (less, named) = sources q s old e in
              (less, IsNamed-append w.results (x ∷ []) s named)
          | inr same ↦
              let (less, named) = h s (sym (ap InputResult.source same) ∙ e) in
              (
                subst (λ (y : InputResult). s.local_id < y.local_id) (sym same) less,
                IsNamed-append w.results (x ∷ []) s named,
              )
        ],
      )
