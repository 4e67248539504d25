-- ===== src/Processor/Keys.antt =====
-- internal/processor/processor.go: the keys that entities and results are grouped by, and the walk
-- over the sources that decides which of them are reachable.
use recon_sr.Base.{
  ℕ, zero, suc, Bool, true, false, ◌&&◌, List, [], ◌∷◌, ◌++◌, Option, none, some, Text, length,
  if◌then◌else◌, eq_text,
}
use recon_sr.Schema.{Entity, EntityRef, InputResult}

-- `procEntityKey`
pub record Key : Type 0 where
  pub type : Text
  pub value : Text

unfoldable pub eq_key : Key → Key → Bool
eq_key a b = eq_text a.type b.type && eq_text a.value b.value

unfoldable pub mem_key : Key → List Key → Bool
mem_key k [] = false
mem_key k (j ∷ js) = if eq_key j k then true else mem_key k js

abbrev pub entity_key : Entity → Key
entity_key e = record { type = e.type; value = e.value }

-- The source of a result: the entity that the module was run on, unless the result names one.
unfoldable pub source_key : Entity → Option EntityRef → Key
source_key e none = entity_key e
source_key e (some r) = record { type = r.type; value = r.value }

abbrev pub target_key : InputResult → Key
target_key r = record { type = r.type; value = r.value }

-- `adj`, as the list of its edges in the order in which they were added.
pub record Edge : Type 0 where
  pub from : Key
  pub to : Key

-- `adj[curr]`
unfoldable pub targets : List Edge → Key → List Key
targets [] k = []
targets (e ∷ es) k = let rest = targets es k in if eq_key e.from k then e.to ∷ rest else rest

-- The variables of the walk.
pub record Walk : Type 0 where
  pub reachable : List Key
  pub queue : List Key

-- The body of the inner loop.
unfoldable pub visit : Walk → Key → Walk
visit w next =
    if mem_key next w.reachable
    then w
    else record { reachable = next ∷ w.reachable; queue = w.queue ++ next ∷ [] }

unfoldable pub visit_all : Walk → List Key → Walk
visit_all w [] = w
visit_all w (k ∷ ks) = visit_all (visit w k) ks

-- The outer loop, with fuel.
unfoldable pub walk : List Edge → ℕ → List Key → List Key → Option (List Key)
walk edges fuel reachable [] = some reachable
walk edges zero reachable (k ∷ ks) = none
walk edges (suc fuel) reachable (k ∷ ks) =
    let w = visit_all (record { reachable = reachable; queue = ks }) (targets edges k) in
    walk edges fuel w.reachable w.queue

-- Each round takes a key off the queue, and each edge puts at most one key there.
unfoldable pub reachable_keys : List Edge → Key → Option (List Key)
reachable_keys edges source = walk edges (suc (length edges)) (source ∷ []) (source ∷ [])
