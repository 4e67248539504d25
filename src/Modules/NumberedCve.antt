-- ===== src/Modules/NumberedCve.antt =====
-- Each function of modules/vuln_lookup/cve.go that adds results keeps their numbering.
use recon_sr.Base.{
  ℕ, ◌≡◌, refl, subst, sym, inl, inr, Bool, true, false, not, ◌||◌, Bool-cases, List, [], ◌∷◌, ◌++◌,
  Option, some, Text, codes, mem_text, eq_text, some-inj, if◌then◌else◌,
}
use recon_sr.Schema.{EntityRef, InputResult}
use recon_sr.Strings.{is_empty, to_upper}
use recon_sr.Modules.Advisory.{Reference, CpeMatch, SsvcOption, OtherMetric}
use recon_sr.Modules.Writing.{Writing, property_result, put_result, note_cpe}
use recon_sr.Modules.Extract.{
  Tools, each, add_unless_empty, extract_criteria, add_cwe, extract_weaknesses, extract_exploits,
  is_exploit, extract_option, extract_other_metric, get_cwe_description,
}
use recon_sr.Modules.Numbered.{
  IsNumbered, HasSource, IsKnown, new-IsKnown, put_result-HasSource, put_result-IsNumbered,
}

-- The function keeps the numbering, and the source stays known.
abbrev pub Keeps : ℕ → Option EntityRef → (Writing → Writing) → Type 0
Keeps first source f =
    (w : Writing)
    → IsNumbered first w
    → HasSource w source
    → IsNumbered first (f w) × HasSource (f w) source

module _ (first : ℕ) (source : Option EntityRef) where
  pub if_Keeps :
      (b : Bool) (f : Writing → Writing)
      → Keeps first source f
      → Keeps first source (λ w. if b then w else f w)
  if_Keeps true f h w n k = (n, k)
  if_Keeps false f h w n k = h w n k

  pub both_keep :
      (f g : Writing → Writing)
      → Keeps first source f
      → Keeps first source g
      → Keeps first source (λ w. g (f w))
  both_keep f g hf hg w n k = let (n', k') = hf w n k in hg (f w) n' k'

  pub put_result-Keeps : (r : InputResult) → r.source ≡ source → Keeps first source (put_result r)
  put_result-Keeps r e w n k = (
    put_result-IsNumbered r w first n (subst (HasSource w) (sym e) k),
    put_result-HasSource r w source k,
  )

  pub add_unless_empty-Keeps :
      (text : Text) (r : InputResult)
      → r.source ≡ source
      → Keeps first source (add_unless_empty text r)
  unfolding add_unless_empty
  add_unless_empty-Keeps text r e = if_Keeps (is_empty text) (put_result r) (put_result-Keeps r e)

  pub each-Keeps {ℓ} :
      {A : Type ℓ} (body : A → Writing → Writing)
      → ((a : A) → Keeps first source (body a))
      → (xs : List A) → Keeps first source (each body xs)
  each-Keeps body h [] w n k = (n, k)
  each-Keeps body h (a ∷ xs) w n k =
      both_keep (body a) (each body xs) (h a) (each-Keeps body h xs) w n k

  pub extract_criteria-Keeps :
      (seen : List Text) (matches : List CpeMatch)
      → Keeps first source (extract_criteria source seen matches)
  unfolding extract_criteria note_cpe
  extract_criteria-Keeps seen [] w n k = (n, k)
  extract_criteria-Keeps seen (match ∷ matches) w n k =
      elim (Bool-cases (is_empty match.criteria || mem_text match.criteria seen)) [
        | inl e ↦ rw e (extract_criteria-Keeps seen matches w n k)
        | inr e ↦
            let (n', k') =
              put_result-Keeps (property_result (codes "cpe") match.criteria source) refl w n k in
            rw e (
              extract_criteria-Keeps (match.criteria ∷ seen) matches
                (note_cpe match.criteria
                  (put_result (property_result (codes "cpe") match.criteria source) w))
                n' k')
      ]

  pub extract_exploits-Keeps :
      {F : Type 0} (tools : Tools F) (seen : List Text) (refs : List Reference)
      → Keeps first source (extract_exploits tools source seen refs)
  unfolding extract_exploits
  extract_exploits-Keeps tools seen [] w n k = (n, k)
  extract_exploits-Keeps tools seen (ref ∷ refs) w n k =
      elim (Bool-cases (is_empty ref.url || mem_text ref.url seen)) [
        | inl e ↦ rw e (extract_exploits-Keeps tools seen refs w n k)
        | inr e ↦ elim (Bool-cases (is_exploit tools ref)) [
          | inl e' ↦
              rw (e, e')
                (both_keep (put_result (property_result (codes "exploit") ref.url source))
                  (extract_exploits tools source (ref.url ∷ seen) refs)
                  (put_result-Keeps (property_result (codes "exploit") ref.url source) refl)
                  (extract_exploits-Keeps tools (ref.url ∷ seen) refs) w n k)
          | inr e' ↦ rw (e, e') (extract_exploits-Keeps tools seen refs w n k)
        ]
      ]

  add_cwe-Keeps :
      {F : Type 0} (tools : Tools F) (id : Text) → Keeps first source (add_cwe tools source id)
  unfolding add_cwe add_unless_empty
  add_cwe-Keeps tools id w n k =
      let r : InputResult = property_result (codes "cwe") id source in
      let s : EntityRef = record {
        type = codes "cwe";
        value = id;
        anchor = [];
        local_id = w.next_id;
      } in
      let (n', k') = put_result-Keeps r refl w n k in
      let d : InputResult =
        property_result (codes "description") (get_cwe_description tools id) (some s) in
      elim (Bool-cases (is_empty (get_cwe_description tools id))) [
        | inl e ↦ rw e (n', k')
        | inr e ↦ rw e (
          put_result-IsNumbered d (put_result r w) first n' (λ s' e'.
              subst (IsKnown (put_result r w)) (some-inj e') (new-IsKnown r w s refl refl refl)),
          put_result-HasSource d (put_result r w) source k',
        )
      ]

  pub extract_weaknesses-Keeps :
      {F : Type 0} (tools : Tools F) (keeps : Text → Bool) (seen ids : List Text)
      → Keeps first source (extract_weaknesses tools keeps source seen ids)
  unfolding extract_weaknesses
  extract_weaknesses-Keeps tools keeps seen [] w n k = (n, k)
  extract_weaknesses-Keeps tools keeps seen (id ∷ ids) w n k =
      let cwe_id = to_upper tools.lib id in
      elim (Bool-cases (not (keeps cwe_id) || mem_text cwe_id seen)) [
        | inl e ↦ rw e (extract_weaknesses-Keeps tools keeps seen ids w n k)
        | inr e ↦ rw e (
            both_keep (add_cwe tools source cwe_id)
              (extract_weaknesses tools keeps source (cwe_id ∷ seen) ids)
              (add_cwe-Keeps tools cwe_id)
              (extract_weaknesses-Keeps tools keeps (cwe_id ∷ seen) ids) w n k)
      ]

  extract_option-Keeps : (opt : SsvcOption) → Keeps first source (extract_option source opt)
  unfolding extract_option
  extract_option-Keeps opt =
      let e : InputResult =
        property_result (codes "ssvc") (codes "Exploitation: " ++ opt.exploitation) source in
      let a : InputResult =
        property_result (codes "ssvc") (codes "Automatable: " ++ opt.automatable) source in
      both_keep (add_unless_empty opt.exploitation e) (add_unless_empty opt.automatable a)
        (add_unless_empty-Keeps opt.exploitation e refl)
        (add_unless_empty-Keeps opt.automatable a refl)

  pub extract_other_metric-Keeps :
      (other : OtherMetric) → Keeps first source (extract_other_metric source other)
  unfolding extract_other_metric
  extract_other_metric-Keeps other w n k = elim (Bool-cases (eq_text other.type (codes "ssvc"))) [
    | inl e ↦ rw e (each-Keeps (extract_option source) extract_option-Keeps other.options w n k)
    | inr e ↦ elim (Bool-cases (eq_text other.type (codes "kev"))) [
      | inl e' ↦
          rw (e, e')
            (add_unless_empty-Keeps other.date_added
              (property_result (codes "kev") other.date_added source) refl w n k)
      | inr e' ↦ rw (e, e') (n, k)
    ]
  ]
