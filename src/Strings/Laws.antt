-- ===== src/Strings/Laws.antt =====
-- Splitting and joining are inverse to one another.
use recon_sr.Base.{
  ℕ, List, [], ◌∷◌, ◌++◌, ◌≡◌, ◌≢◌, refl, ap, append-nil, Text, ◌==◌, Bool-cases, inl, inr, All,
  arith,
}
use recon_sr.Strings.Split.{push_front, split, join}

abbrev pub Lacks : ℕ → Text → Type 0
Lacks b = All (λ c. c ≢ b)

pub split-ne-nil : (sep : ℕ) (s : Text) → split sep s ≢ []
unfolding split
split-ne-nil sep [] = λ e. cc
split-ne-nil sep (c ∷ s) = ground (arith, split-ne-nil sep s)

join-push_front : (sep c : ℕ) (ps : List Text) → join sep (push_front c ps) ≡ c ∷ join sep ps
unfolding join
join-push_front sep c [] = refl
join-push_front sep c (p ∷ ps) = refl

join-nil : (sep : ℕ) (ps : List Text) → ps ≢ [] → join sep ([] ∷ ps) ≡ sep ∷ join sep ps
unfolding join
join-nil sep [] h = absurd (h refl)
join-nil sep (p ∷ ps) h = refl

pub join-split : (sep : ℕ) (s : Text) → join sep (split sep s) ≡ s
unfolding split
join-split sep [] = unfold join in refl
join-split sep (c ∷ s) = ground (
  arith,
  join-split sep s,
  join-push_front sep c (split sep s),
  join-nil sep (split sep s) (split-ne-nil sep s),
)

push-Lacks :
    (sep c : ℕ) (ps : List Text) → c ≢ sep → All (Lacks sep) ps → All (Lacks sep) (push_front c ps)
push-Lacks sep c [] h _ = ((h, tt), tt)
push-Lacks sep c (p ∷ ps) h (hp, hps) = ((h, hp), hps)

-- No part of a split holds the separator.
pub split-Lacks : (sep : ℕ) (s : Text) → All (Lacks sep) (split sep s)
unfolding split
split-Lacks sep [] = (tt, tt)
split-Lacks sep (c ∷ s) = elim (Bool-cases (c == sep)) [
  | inl e ↦ rw e (tt, split-Lacks sep s)
  | inr e ↦ rw e (push-Lacks sep c _ (λ q. ground arith) (split-Lacks sep s))
]

split-append : (sep : ℕ) (p s : Text) → Lacks sep p → split sep (p ++ sep ∷ s) ≡ p ∷ split sep s
unfolding split
split-append sep [] s h = ground arith
split-append sep (c ∷ p) s (h, hs) = ground (arith, split-append sep p s hs)

split_single : (sep : ℕ) (p : Text) → Lacks sep p → split sep p ≡ p ∷ []
unfolding split
split_single sep [] h = refl
split_single sep (c ∷ p) (h, hs) = ground (arith, split_single sep p hs)

pub split-join :
    (sep : ℕ) (ps : List Text) → ps ≢ [] → All (Lacks sep) ps → split sep (join sep ps) ≡ ps
unfolding join
split-join sep [] h _ = absurd (h refl)
split-join sep (p ∷ []) _ (hp, _) = rw append-nil (split_single sep p hp)
split-join sep (p ∷ q ∷ ps) _ (hp, hps) =
    rw (split-append sep p _ hp) (ap (λ r. p ∷ r) (split-join sep (q ∷ ps) (λ e. cc) hps))
