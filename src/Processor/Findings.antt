-- ===== src/Processor/Findings.antt =====
-- Where a result that the main loop of `Process` accepts is to be found afterwards: in the group
-- of its source, under its key, whatever is added or merged later.
use recon_sr.Base.{
  ◌≡◌, inl, inr, refl, sym, ap, subst, ◌∙◌, arith, Bool, true, List, [], ◌∷◌, map, Text, Bool-cases,
  eq_text_iff, Memᴰ, ⊎_elim,
}
use mathlib.Core.List.Memᴰ
use recon_sr.Libs.{Libs}
use recon_sr.Scope.RuleSets.{Rules}
use recon_sr.Schema.{EntityRef, ValidResult, InputResult, ProcessorInputData, ResultGroup}
use recon_sr.Processor.Keys.{Key}
use recon_sr.Processor.Context.{Messages}
use recon_sr.Processor.Run.{
  Groups, eq_ref, same_result, merge_result, add_result, add_to_group, source_ref, valid_result,
}
use recon_sr.Processor.Process.{to_group}
use recon_sr.Processor.Rule.{IsGiven}

-- The two have the same `resAggKey`.
abbrev pub SameKey : ValidResult → ValidResult → Type 0
SameKey a b = (a.type ≡ b.type) × (a.value ≡ b.value) × (a.local_id ≡ b.local_id)

abbrev pub HasKey : List ValidResult → ValidResult → Type 0
HasKey rs k = (r : ValidResult) × Memᴰ r rs × SameKey r k

abbrev pub HasResult : Groups → EntityRef → ValidResult → Type 0
HasResult gs s k = (g : EntityRef × List ValidResult) × Memᴰ g gs × (g.0 ≡ s) × HasKey g.1 k

same_result-SameKey : (a b : ValidResult) → same_result a b ≡ true → SameKey a b
unfolding same_result
same_result-SameKey a b h = ground (arith, eq_text_iff a.type b.type, eq_text_iff a.value b.value)

eq_ref_sound : (a b : EntityRef) → eq_ref a b ≡ true → a ≡ b
unfolding eq_ref
eq_ref_sound a b h =
    ground
      (arith, eq_text_iff a.type b.type, eq_text_iff a.value b.value, eq_text_iff a.anchor b.anchor)

module _ (declared : Bool) (new : ValidResult) where
  merge_result-SameKey :
      (old k : ValidResult) → SameKey old k → SameKey (merge_result declared new old) k
  unfolding merge_result
  merge_result-SameKey old k h = h

  add_result-new : (rs : List ValidResult) → HasKey (add_result declared new rs) new
  unfolding add_result
  add_result-new [] = (new, Memᴰ.head refl, (refl, refl, refl))
  add_result-new (old ∷ rest) = elim (Bool-cases (same_result old new)) [
    | inl e ↦ rw e (
      merge_result declared new old,
      Memᴰ.head refl,
      merge_result-SameKey old new (same_result-SameKey old new e),
    )
    | inr e ↦ rw e (let (r, m, k) = add_result-new rest in (r, Memᴰ.tail m, k))
  ]

  add_result-old :
      (rs : List ValidResult) (k : ValidResult)
      → HasKey rs k
      → HasKey (add_result declared new rs) k
  unfolding add_result
  add_result-old [] k (r, m, s) = absurd (Memᴰ.not-nil m)
  add_result-old (old ∷ rest) k (r, m, s) = elim (Bool-cases (same_result old new)) [
    | inl e ↦ rw e (
        ⊎_elim
          (λ at. (
            merge_result declared new old,
            Memᴰ.head refl,
            merge_result-SameKey old k (subst (λ x. SameKey x k) at s),
          ))
          (λ later. (r, Memᴰ.tail later, s)) (Memᴰ.cases_cons m))
    | inr e ↦ rw e (
        ⊎_elim (λ at. (r, Memᴰ.head at, s))
          (λ later. let (q, n, t) = add_result-old rest k (r, later, s) in (q, Memᴰ.tail n, t))
          (Memᴰ.cases_cons m))
  ]

  pub add_to_group-new :
      (source : EntityRef) (gs : Groups)
      → HasResult (add_to_group source declared new gs) source new
  unfolding add_to_group
  add_to_group-new source [] =
      ((source, new ∷ []), Memᴰ.head refl, refl, (new, Memᴰ.head refl, (refl, refl, refl)))
  add_to_group-new source ((s, rs) ∷ gs) = elim (Bool-cases (eq_ref s source)) [
    | inl e ↦ rw e (
      (s, add_result declared new rs),
      Memᴰ.head refl,
      eq_ref_sound s source e,
      add_result-new rs,
    )
    | inr e ↦ rw e (let (g, m, at, k) = add_to_group-new source gs in (g, Memᴰ.tail m, at, k))
  ]

  pub add_to_group-old :
      (source s : EntityRef) (k : ValidResult) (gs : Groups)
      → HasResult gs s k
      → HasResult (add_to_group source declared new gs) s k
  unfolding add_to_group
  add_to_group-old source s k [] (g, m, at, h) = absurd (Memᴰ.not-nil m)
  add_to_group-old source s k ((s', rs) ∷ gs) (g, m, at, h) = elim (Bool-cases (eq_ref s' source)) [
    | inl e ↦ rw e (
        ⊎_elim
          (λ here. (
            (s', add_result declared new rs),
            Memᴰ.head refl,
            sym (ap (λ (x : EntityRef × List ValidResult). x.0) here) ∙ at,
            add_result-old rs k (subst (λ (x : EntityRef × List ValidResult). HasKey x.1 k) here h),
          ))
          (λ later. (g, Memᴰ.tail later, at, h)) (Memᴰ.cases_cons m))
    | inr e ↦ rw e (
        ⊎_elim (λ here. (g, Memᴰ.head here, at, h))
          (λ later.
            let (g', m', at', h') = add_to_group-old source s k gs (g, later, at, h) in
            (g', Memᴰ.tail m', at', h'))
          (Memᴰ.cases_cons m))
  ]

module _ (lib : Libs) (rules : Rules) (msg : Messages) (input : ProcessorInputData)
    (reachable : List Key) where
  -- A result that the module returned for the function is in the groups.
  abbrev pub HasFinding : Groups → Text → Type 0
  HasFinding gs fn =
      (res : InputResult) × IsGiven input.executions fn res
      × HasResult gs (source_ref lib rules msg input reachable res)
          (valid_result lib rules msg input reachable fn res)

  -- The same of the groups of a packet.
  abbrev pub IsReported : List ResultGroup → Text → Type 0
  IsReported groups fn =
      (res : InputResult) × IsGiven input.executions fn res
      × ((g : ResultGroup) × Memᴰ g groups
          × (g.source ≡ source_ref lib rules msg input reachable res)
          × HasKey g.results (valid_result lib rules msg input reachable fn res))

  pub HasFinding-IsReported :
      (gs : Groups) (fn : Text) → HasFinding gs fn → IsReported (map to_group gs) fn
  HasFinding-IsReported gs fn (res, given, (g, m, at, h)) =
      (res, given, (to_group g, Memᴰ.map to_group m, at, h))

  pub HasFinding-keeps :
      (gs : Groups) (source : EntityRef) (declared : Bool) (new : ValidResult) (fn : Text)
      → HasFinding gs fn
      → HasFinding (add_to_group source declared new gs) fn
  HasFinding-keeps gs source declared new fn (res, given, h) = (
    res,
    given,
    add_to_group-old declared new source (source_ref lib rules msg input reachable res)
        (valid_result lib rules msg input reachable fn res) gs h,
  )
