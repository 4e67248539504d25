-- ===== src/Repository/Relax.antt =====
-- What one round does to the strict depths.
use recon_sr.Base.{
  ℕ, ◌+◌, ◌≤◌, ◌<◌, ◌==◌, ◌≡◌, ◌≢◌, ◌⊎◌, inl, inr, refl, sym, subst, ◌∙◌, arith, false, List, [],
  ◌∷◌, Text, Bool-cases, Option-cases, Memᴰ, ⊎_elim, if◌then◌else◌,
}
use mathlib.Core.List.Memᴰ
use recon_sr.Strings.{is_empty}
use recon_sr.Repository.Batch.{StoreBatch, BatchResult}
use recon_sr.Repository.States.{
  States, unresolved_depth, anchor_of, Relaxed, lower_strict, lower_relaxed, lower_anchored,
  is_property, relax_relaxed, relax_result, relax_results,
}

abbrev pub strict : Relaxed → ℕ → ℕ
strict st id = (st.states id).depth_strict

-- The relaxed depths are another matter: lowering them leaves the strict ones alone, and changes
-- the mark of a change only by setting it.
record SameStrict (st after : Relaxed) : Type 0 where
  same : (id : ℕ) → strict after id ≡ strict st id
  set_only : after.changed ≡ false → st.changed ≡ false

lower_relaxed-SameStrict : (id d : ℕ) (st : Relaxed) → SameStrict st (lower_relaxed id d st)
unfolding lower_relaxed
lower_relaxed-SameStrict id d st = record { same = λ j. ground arith; set_only = λ h. ground arith }

lower_anchored-SameStrict :
    (id d : ℕ) (a : Text) (st : Relaxed) → SameStrict st (lower_anchored id d a st)
unfolding lower_anchored
lower_anchored-SameStrict id d a st = record {
  same = λ j. ground arith;
  set_only = λ h. ground arith;
}

relax_relaxed-SameStrict :
    (b : StoreBatch) (r : BatchResult) (d : ℕ) (st : Relaxed)
    → SameStrict st (relax_relaxed b r d st)
unfolding relax_relaxed
relax_relaxed-SameStrict b r d st = elim (Bool-cases (is_empty r.result.anchor)) [
  | inl e ↦ rw e (lower_relaxed-SameStrict r.target_id (d + 1) st)
  | inr e ↦ elim (Option-cases (anchor_of b r)) [
    | inl missing ↦ rw (e, missing, relax_relaxed) (record { same = λ j. refl; set_only = λ h. h })
    | inr (a, at) ↦
        let first = lower_relaxed-SameStrict a (d + 1) st in
        let second =
          lower_anchored-SameStrict r.target_id
            ((lower_relaxed a (d + 1) st).states a).depth_relaxed r.result.anchor
            (lower_relaxed a (d + 1) st) in
        rw (e, at, relax_relaxed)
          (record {
            same = λ j. second.same j ∙ first.same j;
            set_only = λ h. first.set_only (second.set_only h);
          })
  ]
]

-- What a result adds to the depth of its source.
abbrev pub weight : StoreBatch → BatchResult → ℕ
weight b r = if is_property b r then 0 else 1

-- One result: at most the depth of its target falls, and then to what the source gives it.
pub record IsStep (b : StoreBatch) (r : BatchResult) (st after : Relaxed) : Type 0 where
  pub others : (id : ℕ) → id ≢ r.target_id → strict after id ≡ strict st id
  pub target :
      (strict after r.target_id ≡ strict st r.target_id)
      ⊎ ((strict after r.target_id ≡ strict st r.source_id + weight b r)
          × (strict st r.source_id + weight b r < strict st r.target_id))
  pub relaxed :
      (strict st r.source_id ≡ unresolved_depth)
      ⊎ (strict after r.target_id ≤ strict st r.source_id + weight b r)
  pub unchanged :
      after.changed ≡ false → (st.changed ≡ false) × ((id : ℕ) → strict after id ≡ strict st id)

lower_strict-others :
    (id d j : ℕ) (st : Relaxed) → j ≢ id → strict (lower_strict id d st) j ≡ strict st j
unfolding lower_strict
lower_strict-others id d j st h = ground arith

lower_strict-at :
    (id d : ℕ) (st : Relaxed)
    → ((strict (lower_strict id d st) id ≡ strict st id) × (strict st id ≤ d))
      ⊎ ((strict (lower_strict id d st) id ≡ d) × (d < strict st id))
unfolding lower_strict
lower_strict-at id d st = ground arith

lower_strict-unchanged :
    (id d j : ℕ) (st : Relaxed)
    → (lower_strict id d st).changed ≡ false
    → (st.changed ≡ false) × (strict (lower_strict id d st) j ≡ strict st j)
unfolding lower_strict
lower_strict-unchanged id d j st h = ground arith

-- The strict depth is lowered first, and the rest leaves the strict depths alone.
lowered-IsStep :
    (b : StoreBatch) (r : BatchResult) (st after : Relaxed)
    → SameStrict (lower_strict r.target_id (strict st r.source_id + weight b r) st) after
    → IsStep b r st after
lowered-IsStep b r st after h =
    let d = strict st r.source_id + weight b r in
    record {
      others = λ j ne. h.same j ∙ lower_strict-others r.target_id d j st ne;
      target =
          ⊎_elim (λ (e, le). inl (h.same r.target_id ∙ e))
            (λ (e, lt). inr (h.same r.target_id ∙ e, lt)) (lower_strict-at r.target_id d st);
      relaxed = inr (
          ⊎_elim (λ (e, le). omega (arith, h.same r.target_id))
            (λ (e, lt). omega (arith, h.same r.target_id)) (lower_strict-at r.target_id d st));
      unchanged = λ quiet. (
        (lower_strict-unchanged r.target_id d r.target_id st (h.set_only quiet)).0,
        λ j. h.same j ∙ (lower_strict-unchanged r.target_id d j st (h.set_only quiet)).1,
      );
    }

pub relax_result-IsStep :
    (b : StoreBatch) (r : BatchResult) (st : Relaxed) → IsStep b r st (relax_result b st r)
unfolding relax_result
relax_result-IsStep b r st =
    elim (Bool-cases ((st.states r.source_id).depth_strict == unresolved_depth)) [
      | inl far ↦ rw far (record {
        others = λ j ne. refl;
        target = inl refl;
        relaxed = inl (ground arith);
        unchanged = λ quiet. (quiet, λ j. refl);
      })
      | inr near ↦ rw near (elim (Bool-cases (is_property b r)) [
        | inl property ↦
            let none_added : weight b r ≡ 0 = ground arith in
            let same : strict st r.source_id + weight b r ≡ strict st r.source_id = omega arith in
            rw property (
              lowered-IsStep b r st _ (
                subst
                  (λ d. SameStrict (lower_strict r.target_id d st) (
                    lower_relaxed r.target_id (st.states r.source_id).depth_relaxed
                      (lower_strict r.target_id (strict st r.source_id) st)))
                  (sym same) (lower_relaxed-SameStrict r.target_id _ _)))
        | inr node ↦
            let one_added : weight b r ≡ 1 = ground arith in
            rw node (
              lowered-IsStep b r st _ (
                subst
                  (λ w. SameStrict (lower_strict r.target_id (strict st r.source_id + w) st) (
                    relax_relaxed b r (st.states r.source_id).depth_relaxed
                      (lower_strict r.target_id (strict st r.source_id + 1) st)))
                  (sym one_added) (relax_relaxed-SameStrict b r _ _)))
      ])
    ]

pub number_cases : (i j : ℕ) → (i ≡ j) ⊎ (i ≢ j)
number_cases i j = ground arith

pub relax_result-le :
    (b : StoreBatch) (r : BatchResult) (st : Relaxed) (id : ℕ)
    → strict (relax_result b st r) id ≤ strict st id
relax_result-le b r st id =
    let s = relax_result-IsStep b r st in
    ⊎_elim
      (λ at.
        subst (λ j. strict (relax_result b st r) j ≤ strict st j) (sym at)
          (⊎_elim (λ e. omega (arith, e)) (λ (e, lt). omega (arith, e, lt)) s.target))
      (λ ne. omega (arith, s.others id ne)) (number_cases id r.target_id)

pub relax_results-le :
    (b : StoreBatch) (rs : List BatchResult) (st : Relaxed) (id : ℕ)
    → strict (relax_results b st rs) id ≤ strict st id
unfolding relax_results
relax_results-le b [] st id = omega arith
relax_results-le b (r ∷ rs) st id =
    omega (arith, relax_results-le b rs (relax_result b st r) id, relax_result-le b r st id)

-- A round that reports no change has changed no strict depth.
pub relax_results-unchanged :
    (b : StoreBatch) (rs : List BatchResult) (st : Relaxed)
    → (relax_results b st rs).changed ≡ false
    → (st.changed ≡ false) × ((id : ℕ) → strict (relax_results b st rs) id ≡ strict st id)
unfolding relax_results
relax_results-unchanged b [] st quiet = (quiet, λ id. refl)
relax_results-unchanged b (r ∷ rs) st quiet =
    let (q, later) = relax_results-unchanged b rs (relax_result b st r) quiet in
    let (p, now) = (relax_result-IsStep b r st).unchanged q in (p, λ id. later id ∙ now id)

-- No depth is beyond the depth that stands for "unresolved".
abbrev pub IsBounded : States → Type 0
IsBounded states = (id : ℕ) → (states id).depth_strict ≤ unresolved_depth

-- After a round, no target is further than its source was before it, plus the weight.
pub relax_results-relaxed :
    (b : StoreBatch) (rs : List BatchResult) (st : Relaxed) (r : BatchResult)
    → IsBounded st.states
    → Memᴰ r rs
    → strict (relax_results b st rs) r.target_id ≤ strict st r.source_id + weight b r
unfolding relax_results
relax_results-relaxed b [] st r h m = absurd (Memᴰ.not-nil m)
relax_results-relaxed b (q ∷ rs) st r h m =
    let after = relax_result b st q in
    let bounded : IsBounded after.states = λ id. omega (arith, relax_result-le b q st id, h id) in
    ⊎_elim
      (λ at.
        subst
          (λ r. strict (relax_results b after rs) r.target_id ≤ strict st r.source_id + weight b r)
          (sym at)
          (⊎_elim
            (λ far.
              omega (arith, far, relax_results-le b rs after q.target_id, bounded q.target_id))
            (λ near. omega (arith, near, relax_results-le b rs after q.target_id))
            (relax_result-IsStep b q st).relaxed))
      (λ later. omega (
        arith,
        relax_results-relaxed b rs after r bounded later,
        relax_result-le b q st r.source_id,
      ))
      (Memᴰ.cases_cons m)
