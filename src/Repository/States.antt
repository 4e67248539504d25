-- ===== src/Repository/States.antt =====
-- What `Store` keeps of each entity of a batch while it works: the marks of scope and the depths.
-- The array of the states is a function of the identifier.
use recon_sr.Base.{
  ℕ, zero, suc, ◌+◌, ◌==◌, ltb, Bool, true, false, ◌&&◌, ◌||◌, List, [], ◌∷◌, Option, none, some,
  Text, codes, length, if◌then◌else◌, eq_text,
}
use recon_sr.Strings.{is_empty}
use recon_sr.Processor.Keys.{eq_key}
use recon_sr.Repository.Batch.{StoreBatch, BatchResult, find, item, anchor_type}

-- `entityState`
pub record EntityState : Type 0 where
  pub db_id : ℕ
  pub out_of_scope : Bool
  pub depth_strict : ℕ
  pub depth_relaxed : ℕ
  pub anchor : Text
  pub is_anchor : Bool

abbrev pub States : Type 0
States = ℕ → EntityState

-- `unresolvedDepth`
abbrev pub unresolved_depth : ℕ
unresolved_depth = 999999

-- A write to `states[id]`.
abbrev pub modify : ℕ → (EntityState → EntityState) → States → States
modify id f states = λ j. if j == id then f (states j) else states j

abbrev pub anchor_of : StoreBatch → BatchResult → Option ℕ
anchor_of b r = find eq_key (record { type = anchor_type; value = r.result.anchor }) b.node_index

abbrev no_anchor : EntityState → EntityState
no_anchor s = record s { is_anchor = false }

abbrev shut_out : EntityState → EntityState
shut_out s = record s { out_of_scope = true }

abbrev widen_scope : Bool → EntityState → EntityState
widen_scope mark s = record s { out_of_scope = s.out_of_scope || mark }

-- The body of the loop over the results that marks what is out of scope. A subdomain that is out
-- of scope takes its anchor with it, unless that is the entity with the identifier 1.
unfoldable pub mark_scope : StoreBatch → BatchResult → States → States
mark_scope b r states =
    let target = item b r.target_id in
    if eq_text target.entity.entity_type (codes "subdomain") && r.result.out_of_scope
    then elim (anchor_of b r) [
      | none ↦ modify r.target_id shut_out states
      | some a ↦
          if (states a).db_id == 1
          then modify r.target_id (widen_scope target.out_of_scope) states
          else modify a shut_out (modify r.target_id shut_out states)
    ]
    else modify r.target_id (widen_scope (target.out_of_scope || r.result.out_of_scope)) states

unfoldable pub mark_result : StoreBatch → States → BatchResult → States
mark_result b states r =
    mark_scope b r (modify r.target_id no_anchor (modify r.source_id no_anchor states))

unfoldable pub mark_results : StoreBatch → States → List BatchResult → States
mark_results b states [] = states
mark_results b states (r ∷ rs) = mark_results b (mark_result b states r) rs

-- The states, and whether the round has changed a depth.
pub record Relaxed : Type 0 where
  pub states : States
  pub changed : Bool

unfoldable pub lower_strict : ℕ → ℕ → Relaxed → Relaxed
lower_strict id depth st =
    if ltb depth (st.states id).depth_strict
    then record {
      states = modify id (λ s. record s { depth_strict = depth }) st.states;
      changed = true;
    }
    else st

unfoldable pub lower_relaxed : ℕ → ℕ → Relaxed → Relaxed
lower_relaxed id depth st =
    if ltb depth (st.states id).depth_relaxed
    then record {
      states = modify id (λ s. record s { depth_relaxed = depth }) st.states;
      changed = true;
    }
    else st

-- The target takes the depth of its anchor and the anchor's name.
unfoldable pub lower_anchored : ℕ → ℕ → Text → Relaxed → Relaxed
lower_anchored id depth anchor st =
    if ltb depth (st.states id).depth_relaxed
    then record {
      states = modify id (λ s. record s { depth_relaxed = depth; anchor = anchor }) st.states;
      changed = true;
    }
    else st

abbrev pub is_property : StoreBatch → BatchResult → Bool
is_property b r = eq_text (item b r.target_id).entity.category (codes "property")

unfoldable pub relax_relaxed : StoreBatch → BatchResult → ℕ → Relaxed → Relaxed
relax_relaxed b r depth st =
    if is_empty r.result.anchor
    then lower_relaxed r.target_id (depth + 1) st
    else elim (anchor_of b r) [
      | none ↦ st
      | some a ↦
          let lowered = lower_relaxed a (depth + 1) st in
          lower_anchored r.target_id (lowered.states a).depth_relaxed r.result.anchor lowered
    ]

-- The body of the inner loop.
unfoldable pub relax_result : StoreBatch → Relaxed → BatchResult → Relaxed
relax_result b st r =
    let source = st.states r.source_id in
    if source.depth_strict == unresolved_depth
    then st
    else if is_property b r
    then lower_relaxed r.target_id source.depth_relaxed
        (lower_strict r.target_id source.depth_strict st)
    else relax_relaxed b r source.depth_relaxed
        (lower_strict r.target_id (source.depth_strict + 1) st)

unfoldable pub relax_results : StoreBatch → Relaxed → List BatchResult → Relaxed
relax_results b st [] = st
relax_results b st (r ∷ rs) = relax_results b (relax_result b st r) rs

-- The outer loop, which ends early when a round has changed nothing.
unfoldable pub relax_rounds : StoreBatch → ℕ → States → States
relax_rounds b zero states = states
relax_rounds b (suc fuel) states =
    let st = relax_results b (record { states = states; changed = false }) b.results in
    let rest = relax_rounds b fuel st.states in if st.changed then rest else st.states

unfoldable pub relax_depths : StoreBatch → States → States
relax_depths b states = relax_rounds b (length b.entities) states
