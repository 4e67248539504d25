-- ===== src/Repository/Shape.antt =====
-- What every batch promises: its identifiers name entities of the batch, a property comes after
-- its parent, and every entity but the root is listed as a node or as a property.
use recon_sr.Base.{
  ℕ, zero, suc, ◌+◌, ◌-◌, ◌≤◌, ◌<◌, ◌==◌, ◌≡◌, ◌⊎◌, inl, inr, refl, ap, subst, ◌∙◌, arith, Bool,
  List, [], ◌∷◌, ◌++◌, some, Text, All, length, get_or, Bool-cases, Memᴰ, some-inj,
}
use recon_sr.Processor.Keys.{Key}
use recon_sr.Repository.Batch.{
  BatchEntity, BatchResult, PropertyKey, StoreBatch, find, put, eq_number, no_entity, update_at,
  update_item, note_local,
}

abbrev pub InRange : ℕ → ℕ → Type 0
InRange n id = (1 ≤ id) × (id ≤ n)

-- Each entity's parent has a smaller identifier than the entity; 0 stands for no parent.
abbrev pub Ordered : ℕ → List BatchEntity → Type 0
Ordered next [] = Unit
Ordered next (e ∷ es) = (e.parent_id < next) × Ordered (suc next) es

-- The entities with these identifiers have a parent.
abbrev pub Owned : List BatchEntity → List ℕ → Type 0
Owned es = All (λ id. 1 ≤ (get_or es (id - 1) no_entity).parent_id)

pub record IsShaped (b : StoreBatch) (n : ℕ) : Type 0 where
  pub size : length b.entities ≡ n
  pub ordered : Ordered 1 b.entities
  pub root : InRange n b.root_id
  pub nodes : All (λ (p : Key × ℕ). InRange n p.1) b.node_index
  pub locals : All (λ (p : ℕ × ℕ). InRange n p.1) b.local_ids
  pub properties : All (λ (p : PropertyKey × ℕ). InRange n p.1) b.property_index
  pub refs : All (λ (p : Text × List ℕ). All (InRange n) p.1) b.property_refs
  pub listed_properties : All (InRange n) b.property_ids
  pub owned : Owned b.entities b.property_ids
  pub results : All (λ (r : BatchResult). InRange n r.source_id × InRange n r.target_id) b.results
  pub covered :
      (id : ℕ) → InRange n id → (id ≡ b.root_id) ⊎ Memᴰ id b.node_ids ⊎ Memᴰ id b.property_ids

pub All-map {ℓ κ μ} :
    {A : Type ℓ} {P : A → Type κ} {Q : A → Type μ} (xs : List A)
    → ((a : A) → P a → Q a)
    → All P xs
    → All Q xs
All-map [] f h = tt
All-map (x ∷ xs) f (p, h) = (f x p, All-map xs f h)

module _ {ℓ κ μ} {K : Type ℓ} {V : Type κ} (same : K → K → Bool) (P : V → Type μ) where
  pub find-All :
      (k : K) (m : List (K × V)) (v : V) → All (λ p. P p.1) m → find same k m ≡ some v → P v
  unfolding find
  find-All k [] v h e = absurd (ground arith)
  find-All k ((j, w) ∷ m) v (p, h) e = elim (Bool-cases (same j k)) [
    | inl hit ↦ subst P (some-inj (rw hit at e)) p
    | inr miss ↦ find-All k m v h (rw miss at e)
  ]

  pub put-All :
      (k : K) (v : V) (m : List (K × V))
      → P v
      → All (λ p. P p.1) m
      → All (λ p. P p.1) (put same k v m)
  unfolding put
  put-All k v [] p h = (p, tt)
  put-All k v ((j, w) ∷ m) p (q, h) = elim (Bool-cases (same j k)) [
    | inl hit ↦ rw hit (p, h)
    | inr miss ↦ rw miss (q, put-All k v m p h)
  ]

pub Ordered-concat :
    (next : ℕ) (es : List BatchEntity) (e : BatchEntity)
    → Ordered next es
    → e.parent_id < next + length es
    → Ordered next (es ++ e ∷ [])
Ordered-concat next [] e h p = (omega arith, tt)
Ordered-concat next (d ∷ es) e (q, h) p = (q, Ordered-concat (suc next) es e h (omega arith))

Ordered-update_at :
    (next i : ℕ) (f : BatchEntity → BatchEntity) (es : List BatchEntity)
    → ((e : BatchEntity) → (f e).parent_id ≡ e.parent_id)
    → Ordered next es
    → Ordered next (update_at i f es)
unfolding update_at
Ordered-update_at next i f [] same h = tt
Ordered-update_at next zero f (e ∷ es) same (p, h) = (omega (arith, same e), h)
Ordered-update_at next (suc i) f (e ∷ es) same (p, h) =
    (p, Ordered-update_at (suc next) i f es same h)

length-update_at :
    (i : ℕ) (f : BatchEntity → BatchEntity) (es : List BatchEntity)
    → length (update_at i f es) ≡ length es
unfolding update_at
length-update_at i f [] = refl
length-update_at zero f (e ∷ es) = refl
length-update_at (suc i) f (e ∷ es) = omega (arith, length-update_at i f es)

-- The parent of an entity of the batch is smaller than the entity.
pub Ordered-get_or :
    (next i : ℕ) (es : List BatchEntity)
    → Ordered next es
    → 1 ≤ next
    → (get_or es i no_entity).parent_id < next + i
Ordered-get_or next i [] h p = omega arith
Ordered-get_or next zero (e ∷ es) (q, h) p = omega arith
Ordered-get_or next (suc i) (e ∷ es) (q, h) p =
    omega (arith, Ordered-get_or (suc next) i es h (omega arith))

parent-update_at :
    (i j : ℕ) (f : BatchEntity → BatchEntity) (es : List BatchEntity)
    → ((e : BatchEntity) → (f e).parent_id ≡ e.parent_id)
    → (get_or (update_at i f es) j no_entity).parent_id ≡ (get_or es j no_entity).parent_id
unfolding update_at
parent-update_at i j f [] same = refl
parent-update_at zero zero f (e ∷ es) same = same e
parent-update_at zero (suc j) f (e ∷ es) same = refl
parent-update_at (suc i) zero f (e ∷ es) same = refl
parent-update_at (suc i) (suc j) f (e ∷ es) same = parent-update_at i j f es same

get_or-append :
    (j : ℕ) (es : List BatchEntity) (e : BatchEntity)
    → j < length es
    → get_or (es ++ e ∷ []) j no_entity ≡ get_or es j no_entity
get_or-append j [] e h = absurd (omega arith)
get_or-append zero (d ∷ es) e h = refl
get_or-append (suc j) (d ∷ es) e h = get_or-append j es e (omega arith)

get_or-last :
    (j : ℕ) (es : List BatchEntity) (e : BatchEntity)
    → j ≡ length es
    → get_or (es ++ e ∷ []) j no_entity ≡ e
get_or-last zero [] e h = refl
get_or-last (suc j) [] e h = absurd (omega arith)
get_or-last zero (d ∷ es) e h = absurd (omega arith)
get_or-last (suc j) (d ∷ es) e h = get_or-last j es e (omega arith)

pub Owned-append :
    (es : List BatchEntity) (e : BatchEntity) (ids : List ℕ)
    → All (InRange (length es)) ids
    → Owned es ids
    → Owned (es ++ e ∷ []) ids
Owned-append es e [] r h = tt
Owned-append es e (id ∷ ids) ((p, q), r) (o, h) = (
  omega (arith, ap BatchEntity.parent_id (get_or-append (id - 1) es e (omega arith))),
  Owned-append es e ids r h,
)

pub Owned-last :
    (es : List BatchEntity) (e : BatchEntity)
    → 1 ≤ e.parent_id
    → Owned (es ++ e ∷ []) ((length es + 1) ∷ [])
Owned-last es e p = (
  omega (arith, ap BatchEntity.parent_id (get_or-last (length es + 1 - 1) es e (omega arith))),
  tt,
)

pub update_item-IsShaped :
    (id : ℕ) (f : BatchEntity → BatchEntity) (b : StoreBatch) (n : ℕ)
    → ((e : BatchEntity) → (f e).parent_id ≡ e.parent_id)
    → IsShaped b n
    → IsShaped (update_item id f b) n
update_item-IsShaped id f b n same h = record {
  size = length-update_at (id - 1) f b.entities ∙ h.size;
  ordered = Ordered-update_at 1 (id - 1) f b.entities same h.ordered;
  root = h.root;
  nodes = h.nodes;
  locals = h.locals;
  properties = h.properties;
  refs = h.refs;
  listed_properties = h.listed_properties;
  owned =
      All-map b.property_ids
        (λ j o. omega (arith, o, parent-update_at (id - 1) (j - 1) f b.entities same)) h.owned;
  results = h.results;
  covered = h.covered;
}

pub note_local-IsShaped :
    (local_id id : ℕ) (b : StoreBatch) (n : ℕ)
    → InRange n id
    → IsShaped b n
    → IsShaped (note_local local_id id b) n
unfolding note_local
note_local-IsShaped local_id id b n r h = elim (Bool-cases (local_id == 0)) [
  | inl none_given ↦ rw none_given h
  | inr given ↦ rw given (record {
    size = h.size;
    ordered = h.ordered;
    root = h.root;
    nodes = h.nodes;
    locals = put-All eq_number (InRange n) local_id id b.local_ids r h.locals;
    properties = h.properties;
    refs = h.refs;
    listed_properties = h.listed_properties;
    owned = h.owned;
    results = h.results;
    covered = h.covered;
  })
]

-- Room for one more entity.
pub widen : (n id : ℕ) → InRange n id → InRange (n + 1) id
widen n id (p, q) = (p, omega arith)

pub covered_more :
    (n root : ℕ) (nodes properties : List ℕ)
    → ((id : ℕ) → InRange n id → (id ≡ root) ⊎ Memᴰ id nodes ⊎ Memᴰ id properties)
    → (id : ℕ) → InRange (n + 1) id
    → ((id ≡ root) ⊎ Memᴰ id nodes ⊎ Memᴰ id properties) ⊎ (id ≡ n + 1)
covered_more n root nodes properties h id (p, q) = elim (Bool-cases (id == n + 1)) [
  | inl last ↦ inr (ground arith)
  | inr before ↦ inl (h id (p, ground arith))
]
