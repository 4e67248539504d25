-- ===== src/Validator/Stable.antt =====
-- What `validateDomain` returns, and that validating it again changes nothing.
use recon_sr.Base.{
  ℕ, ◌≡◌, ◌≢◌, refl, ap, sym, subst, ==_iff, true, false, List, [], ◌∷◌, ◌++◌, Text, arith, All,
  ◌==◌, ◌⊎◌, inl, inr, codes, Bool-cases, some, eq_text_iff, not, if_none-eq-some, >>=-eq-some, ◌∙◌,
}
use recon_sr.Libs.{Libs}
use recon_sr.Strings.{to_lower, trim_suffix}
use recon_sr.Strings.Trim.{trim_space}
use recon_sr.Strings.Graphic.{
  IsLowerGraphic, All-IsGraphic, trim_space_of_IsGraphic, to_lower_fixed,
}
use recon_sr.Strings.Ends.{first_is, last_is, trim_suffix_fixed}
use recon_sr.Strings.Split.{split, push_front}
use recon_sr.Strings.Laws.{split-ne-nil}
use recon_sr.Validator.Types.{Result}
use recon_sr.Validator.Domain.{host_ok, icann_anchor, host_result, validate_ascii, validate_domain}
use recon_sr.Validator.Hosts.{IsLabelChar, IsLabel, IsHostName, host_ok-IsHostName}

push_front-append :
    (c : ℕ) (ps qs : List Text) → ps ≢ [] → push_front c (ps ++ qs) ≡ push_front c ps ++ qs
push_front-append c [] qs h = absurd (h refl)
push_front-append c (p ∷ ps) qs h = refl

split-concat : (sep : ℕ) (t : Text) → split sep (t ++ sep ∷ []) ≡ split sep t ++ [] ∷ []
unfolding split
split-concat sep [] = ground arith
split-concat sep (c ∷ t) =
    ground
      (arith, split-concat sep t, push_front-append c (split sep t) ([] ∷ []) (split-ne-nil sep t))

last_is-eq_concat : (b : ℕ) (s : Text) → last_is b s ≡ true → (t : Text) × (s ≡ t ++ b ∷ [])
unfolding last_is
last_is-eq_concat b [] h = cc
last_is-eq_concat b (c ∷ []) h = ([], ground arith)
last_is-eq_concat b (c ∷ d ∷ s) h =
    let (t, e) = last_is-eq_concat b (d ∷ s) h in (c ∷ t, ap (λ r. c ∷ r) e)

All-last {ℓ κ} : {A : Type ℓ} (P : A → Type κ) (xs : List A) (x : A) → All P (xs ++ x ∷ []) → P x
All-last P [] x h = h.0
All-last P (y ∷ xs) x h = All-last P xs x h.1

-- A text whose parts are not empty neither begins nor ends with the separator.
module _ (sep : ℕ) where
  first-IsLabel : (s : Text) → All IsLabel (split sep s) → first_is sep s ≡ false
  unfolding split
  first-IsLabel [] h = refl
  first-IsLabel (c ∷ s) h = elim (Bool-cases (c == sep)) [
    | inl e ↦ absurd (omega (arith, (rw (e, split) at h).0.not_empty))
    | inr e ↦ e
  ]

  last-IsLabel : (s : Text) → All IsLabel (split sep s) → last_is sep s ≡ false
  last-IsLabel s h = elim (Bool-cases (last_is sep s)) [
    | inl e ↦
        let (t, same) = last_is-eq_concat sep s e in
        absurd (
          omega
            (arith, (All-last IsLabel (split sep t) [] (rw (same, split-concat) at h)).not_empty))
    | inr e ↦ e
  ]

  module _ {ℓ} (P : ℕ → Type ℓ) (p_sep : P sep) where
    All-of_push_front :
        (c : ℕ) (ps : List Text) → All (All P) (push_front c ps) → P c × All (All P) ps
    All-of_push_front c [] h = (h.0.0, tt)
    All-of_push_front c (p ∷ ps) h = (h.0.0, (h.0.1, h.1))

    All-of_split : (s : Text) → All (All P) (split sep s) → All P s
    unfolding split
    All-of_split [] h = tt
    All-of_split (c ∷ s) h = elim (Bool-cases (c == sep)) [
      | inl e ↦ (subst P (sym ((==_iff c sep).0 e)) p_sep, All-of_split s (rw (e, split) at h).1)
      | inr e ↦
          let (pc, ps) = All-of_push_front c (split sep s) (rw (e, split) at h) in
          (pc, All-of_split s ps)
    ]

IsLowerGraphic-of_label : (c : ℕ) → IsLabelChar c → IsLowerGraphic c
IsLowerGraphic-of_label c h = ground arith

graphic_chars : (p : Text) → All IsLabelChar p → All IsLowerGraphic p
graphic_chars [] h = tt
graphic_chars (c ∷ p) (h, hs) = (IsLowerGraphic-of_label c h, graphic_chars p hs)

graphic_labels : (ps : List Text) → All IsLabel ps → All (All IsLowerGraphic) ps
graphic_labels [] h = tt
graphic_labels (p ∷ ps) (h, hs) = (graphic_chars p h.chars, graphic_labels ps hs)

pub IsHostName-graphic : (s : Text) → IsHostName s → All IsLowerGraphic s
IsHostName-graphic s h =
    All-of_split b'.' IsLowerGraphic (omega arith) s (graphic_labels (split b'.' s) h.labels)

module _ (lib : Libs) where
  -- The parts of a successful validation.
  validate_ascii-inv :
      (a : Text) (r : Result)
      → validate_ascii lib a ≡ some r
      → (host_ok lib a ≡ true) × (o : Text) × (icann_anchor lib a ≡ some o) × (host_result a o ≡ r)
  unfolding validate_ascii
  validate_ascii-inv a r h =
      let (ok, rest) = if_none-eq-some (not (host_ok lib a)) _ h in
      let (o, found, same) = >>=-eq-some (icann_anchor lib a) _ rest in (ground arith, o, found, cc)

  validate_domain-inv :
      (v : Text) (r : Result)
      → validate_domain lib v ≡ some r
      → (a : Text) × (lib.to_ascii (trim_suffix (to_lower lib (trim_space v)) (codes ".")) ≡ some a)
        × (validate_ascii lib a ≡ some r)
  unfolding validate_domain
  validate_domain-inv v r h =
      let (_, rest) = if_none-eq-some (first_is b'.' (to_lower lib (trim_space v))) _ h in
      >>=-eq-some (lib.to_ascii (trim_suffix (to_lower lib (trim_space v)) (codes "."))) _ rest

  -- A name that `validateDomain` accepts is a host name, its anchor is the one that
  -- `getICANNAnchor` finds for it, and its type is `domain` if it is its own anchor and
  -- `subdomain` if not.
  pub validate_domain-IsHostName :
      (v : Text) (r : Result)
      → validate_domain lib v ≡ some r
      → IsHostName r.value
        × (icann_anchor lib r.value ≡ some r.anchor)
        × (((r.type ≡ codes "domain") × (r.value ≡ r.anchor))
            ⊎ ((r.type ≡ codes "subdomain") × (r.value ≢ r.anchor)))
  unfolding host_result
  validate_domain-IsHostName v r h =
      let (a, _, checked) = validate_domain-inv v r h in
      let (ok, o, found, same) = validate_ascii-inv a r checked in
      subst
        (λ r.
          IsHostName r.value
          × (icann_anchor lib r.value ≡ some r.anchor)
          × (((r.type ≡ codes "domain") × (r.value ≡ r.anchor))
              ⊎ ((r.type ≡ codes "subdomain") × (r.value ≢ r.anchor))))
        same (host_ok-IsHostName lib a ok, found, ground (arith, eq_text_iff a o))

  -- A name that is already in normal form goes straight to the checks on its ASCII form.
  validate_domain_fixed :
      (s : Text)
      → IsHostName s
      → lib.to_ascii s ≡ some s
      → validate_domain lib s ≡ validate_ascii lib s
  unfolding validate_domain
  validate_domain_fixed s h e =
      let g = IsHostName-graphic s h in
      rw (
        trim_space_of_IsGraphic s (All-IsGraphic s g),
        to_lower_fixed lib s g,
        first-IsLabel b'.' s h.labels,
        trim_suffix_fixed b'.' s (last-IsLabel b'.' s h.labels),
        e,
      )

  -- What `validateDomain` returns for a name it returns for the normal form of that name too,
  -- provided that `idna.ToASCII` leaves the normal form alone.
  pub validate_domain-stable :
      (v : Text) (r : Result)
      → validate_domain lib v ≡ some r
      → lib.to_ascii r.value ≡ some r.value
      → validate_domain lib r.value ≡ some r
  unfolding host_result
  validate_domain-stable v r h e =
      let (a, _, checked) = validate_domain-inv v r h in
      let (ok, o, found, same) = validate_ascii-inv a r checked in
      let at = ap Result.value same in
      validate_domain_fixed r.value (validate_domain-IsHostName v r h).0 e
      ∙ subst (λ x. validate_ascii lib x ≡ some r) at checked
