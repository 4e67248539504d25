-- ===== src/Validator/Labels.antt =====
-- What the substring tests of `validateDomain` say of the labels of a name.
use recon_sr.Base.{
  ℕ, ◌≡◌, ◌≢◌, refl, true, false, List, [], ◌∷◌, Text, arith, All, ◌==◌, Bool-cases, inl, inr,
}
use recon_sr.Strings.{contains}
use recon_sr.Strings.Ends.{first_is, last_is}
use recon_sr.Strings.Split.{split, push_front}

abbrev head : List Text → Text
head [] = []
head (p ∷ ps) = p

abbrev tail : List Text → List Text
tail [] = []
tail (p ∷ ps) = ps

abbrev pub NotFirst : ℕ → Text → Type 0
NotFirst b p = first_is b p ≡ false

abbrev pub NotLast : ℕ → Text → Type 0
NotLast b p = last_is b p ≡ false

All-head-tail {ℓ} : (P : Text → Type ℓ) (ps : List Text) → P (head ps) → All P (tail ps) → All P ps
All-head-tail P [] h t = tt
All-head-tail P (p ∷ ps) h t = (h, t)

head-push_front : (c : ℕ) (ps : List Text) → head (push_front c ps) ≡ c ∷ head ps
head-push_front c [] = refl
head-push_front c (p ∷ ps) = refl

tail-push_front : (c : ℕ) (ps : List Text) → tail (push_front c ps) ≡ tail ps
tail-push_front c [] = refl
tail-push_front c (p ∷ ps) = refl

module _ (sep b : ℕ) (ne : b ≢ sep) where
  -- The first label begins as the text does.
  first-head-split : (s : Text) → NotFirst b s → NotFirst b (head (split sep s))
  unfolding split
  first-head-split [] h = refl
  first-head-split (c ∷ s) h = ground (arith, head-push_front c (split sep s))

  NotFirst-after :
      (c : ℕ) (s : Text)
      → contains (c ∷ s) (sep ∷ b ∷ []) ≡ false
      → (c == sep) ≡ true
      → NotFirst b s
  unfolding contains
  NotFirst-after c [] h e = refl
  NotFirst-after c (d ∷ t) h e = ground arith

  first-tail-split :
      (s : Text) → contains s (sep ∷ b ∷ []) ≡ false → All (NotFirst b) (tail (split sep s))
  unfolding split contains
  first-tail-split [] h = tt
  first-tail-split (c ∷ s) h = elim (Bool-cases (c == sep)) [
    | inl e ↦ rw e (
        All-head-tail (NotFirst b) _ (first-head-split s (NotFirst-after c s h e))
          (first-tail-split s (ground arith)))
    | inr e ↦ rw (e, tail-push_front) (first-tail-split s (ground arith))
  ]

  -- A text that does not begin with `b`, and in which `b` never follows `sep`.
  pub split-NotFirst :
      (s : Text) → NotFirst b s → contains s (sep ∷ b ∷ []) ≡ false → All (NotFirst b) (split sep s)
  split-NotFirst s h k = All-head-tail (NotFirst b) _ (first-head-split s h) (first-tail-split s k)

  -- The first label of `c ∷ s`, where `c` does not separate.
  last-head-split :
      (c : ℕ) (s : Text)
      → NotLast b (c ∷ s)
      → contains (c ∷ s) (b ∷ sep ∷ []) ≡ false
      → NotLast b (head (split sep s))
      → NotLast b (c ∷ head (split sep s))
  unfolding split contains last_is
  last-head-split c [] h k ih = h
  last-head-split c (d ∷ t) h k ih = elim (Bool-cases (d == sep)) [
    | inl e ↦ rw e (ground arith)
    | inr e ↦ rw (e, head-push_front) (rw (e, head-push_front) at ih)
  ]

  All-push_front :
      (c : ℕ) (ps : List Text)
      → All (NotLast b) ps
      → NotLast b (c ∷ head ps)
      → All (NotLast b) (push_front c ps)
  All-push_front c [] h p = (p, tt)
  All-push_front c (q ∷ ps) h p = (p, h.1)

  All-head : (ps : List Text) → All (NotLast b) ps → NotLast b (head ps)
  unfolding last_is
  All-head [] h = refl
  All-head (p ∷ ps) h = h.0

  NotLast-tail : (c : ℕ) (s : Text) → NotLast b (c ∷ s) → NotLast b s
  unfolding last_is
  NotLast-tail c [] h = refl
  NotLast-tail c (d ∷ s) h = h

  -- A text that does not end with `b`, and in which `sep` never follows `b`.
  pub split-NotLast :
      (s : Text) → NotLast b s → contains s (b ∷ sep ∷ []) ≡ false → All (NotLast b) (split sep s)
  unfolding split contains
  split-NotLast [] h k = (h, tt)
  split-NotLast (c ∷ s) h k =
      let later = split-NotLast s (NotLast-tail c s h) (ground arith) in
      elim (Bool-cases (c == sep)) [
        | inl e ↦ rw e (unfold last_is in refl, later)
        | inr e ↦ rw e (All-push_front c _ later (last-head-split c s h k (All-head _ later)))
      ]
