-- ===== src/Modules/SubdomainChain.antt =====
-- The levels of modules/subdomain_hierarchy form a chain from the name to its registered domain.
use recon_sr.Base.{
  ℕ, zero, suc, ◌-◌, ◌<◌, ◌≡◌, ◌≢◌, ◌==◌, inl, inr, refl, sym, ◌∙◌, ap, arith, Bool-cases, true,
  List, [], ◌∷◌, ◌++◌, some, Text, codes, length, length-append, drop, ltb, All, eq_text_refl,
}
use recon_sr.Schema.{EntityRef, InputResult}
use recon_sr.Strings.Split.{split, join, push_front}
use recon_sr.Strings.Laws.{Lacks, split-Lacks, split-ne-nil, join-split}
use recon_sr.Modules.Subdomains.{level_ref, level_type, levels, decompose_results}

-- Each result names the one before it as its source and has its value without the first label.
abbrev pub Chain : EntityRef → List InputResult → EntityRef → Type 0
Chain from [] end = from ≡ end
Chain from (r ∷ rs) end =
    (r.source ≡ some from)
    × ((label : Text) × Lacks b'.' label × (from.value ≡ label ++ b'.' ∷ r.value))
    × Chain (level_ref r.type r.value) rs end

join-cons : (p q : Text) (ps : List Text) → join b'.' (p ∷ q ∷ ps) ≡ p ++ b'.' ∷ join b'.' (q ∷ ps)
unfolding join
join-cons p q ps = refl

level_ref-org :
    (org val : Text)
    → val ≡ org
    → level_ref (level_type org val) val ≡ level_ref (codes "domain") org
unfolding level_type
level_ref-org org val e = rw (e, eq_text_refl org) refl

levels-Chain :
    (org : Text) (from : EntityRef) (parts : List Text) (n : ℕ)
    → All (Lacks b'.') parts
    → from.value ≡ join b'.' parts
    → n < length parts
    → join b'.' (drop n parts) ≡ org
    → 0 < n
    → Chain from (levels org from parts n) (level_ref (codes "domain") org)
unfolding levels
levels-Chain org from [] n lacks e less last pos = absurd (omega arith)
levels-Chain org from (p ∷ []) n lacks e less last pos = absurd (omega arith)
levels-Chain org from (p ∷ q ∷ ps) zero lacks e less last pos = absurd (omega arith)
levels-Chain org from (p ∷ q ∷ ps) (suc zero) lacks e less last pos =
    (refl, (p, lacks.0, e ∙ join-cons p q ps), level_ref-org org (join b'.' (q ∷ ps)) last)
levels-Chain org from (p ∷ q ∷ ps) (suc (suc n)) lacks e less last pos = (
  refl,
  (p, lacks.0, e ∙ join-cons p q ps),
  levels-Chain org (level_ref (level_type org (join b'.' (q ∷ ps))) (join b'.' (q ∷ ps))) (q ∷ ps)
      (suc n) lacks.1 refl (omega arith) last (omega arith),
)

push_front-append :
    (c : ℕ) (ps qs : List Text) → ps ≢ [] → push_front c (ps ++ qs) ≡ push_front c ps ++ qs
push_front-append c [] qs h = absurd (h refl)
push_front-append c (p ∷ ps) qs h = refl

split-concat : (sep : ℕ) (p s : Text) → split sep (p ++ sep ∷ s) ≡ split sep p ++ split sep s
unfolding split
split-concat sep [] s = let e : (sep == sep) ≡ true = ground arith in rw e refl
split-concat sep (c ∷ p) s = elim (Bool-cases (c == sep)) [
  | inl e ↦ rw e (ap (λ ps. [] ∷ ps) (split-concat sep p s))
  | inr e ↦ rw e (
      ap (push_front c) (split-concat sep p s)
      ∙ push_front-append c (split sep p) (split sep s) (split-ne-nil sep p))
]

drop-append {ℓ} : {A : Type ℓ} (xs ys : List A) → drop (length xs) (xs ++ ys) ≡ ys
drop-append [] ys = refl
drop-append (x ∷ xs) ys = drop-append xs ys

length-pos {ℓ} : {A : Type ℓ} (xs : List A) → xs ≢ [] → 0 < length xs
length-pos [] h = absurd (h refl)
length-pos (x ∷ xs) h = omega arith

-- For a name below its registered domain, which ends it after a dot, the results lead from the name
-- to the domain: each has its predecessor as its source and lacks only the first label of its
-- predecessor, and the last is the registered domain, as an entity of type "domain".
pub decompose_results-Chain :
    (target_type p org : Text)
    → Chain
        (level_ref target_type (p ++ b'.' ∷ org))
        (decompose_results target_type (p ++ b'.' ∷ org) org)
        (level_ref (codes "domain") org)
unfolding decompose_results
decompose_results-Chain target_type p org =
    let target = p ++ b'.' ∷ org in
    let above = split b'.' p in
    let below = split b'.' org in
    let parts_eq = split-concat b'.' p org in
    let pos = length-pos above (split-ne-nil b'.' p) in
    let pos' = length-pos below (split-ne-nil b'.' org) in
    let len = ap length parts_eq ∙ length-append above below in
    let more : ltb (length below) (length (split b'.' target)) ≡ true = ground arith in
    let count : length (split b'.' target) - length below ≡ length above = omega arith in
    rw (more, count)
      (levels-Chain org (level_ref target_type target) (split b'.' target) (length above)
        (split-Lacks b'.' target) (sym (join-split b'.' target)) (omega arith)
        (ap (λ ps. join b'.' (drop (length above) ps)) parts_eq
          ∙ ap (join b'.') (drop-append above below)
          ∙ join-split b'.' org)
        pos)
