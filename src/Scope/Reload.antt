-- ===== src/Scope/Reload.antt =====
-- What a call of `Load` changes, and that a second call changes nothing.
use recon_sr.Base.{
  ◌≡◌, ◌≢◌, ◌⊎◌, ⊎_elim, ◌∙◌, ap, sym, not, ◌&&◌, and_true, Bool-cases, eq_text, eq_text_iff, refl,
  arith, Bool, true, false, List, [], some, Text, eq_text_refl, Option-cases, inl, inr,
}
use recon_sr.Libs.{Libs}
use recon_sr.Strings.{is_empty}
use recon_sr.Scope.RuleSets.{Rules}
use recon_sr.Scope.Load.{
  Entry, Listing, listed, missing, failed, State, loaded, empty_rules, fingerprint, read_rules,
  commit, load_entries, load, Outcome,
}

module _ (lib : Libs) (hash : Rules → Text) where
  -- If `Load` fails or reports no change, the rules and their digest are those of before.
  pub load_unchanged :
      (st : State) (l : Listing)
      → (load lib hash st l).1 ≢ loaded true
      → ((load lib hash st l).0.rules ≡ st.rules)
        × ((load lib hash st l).0.last_semantic_hash ≡ st.last_semantic_hash)
  unfolding load load_entries commit
  load_unchanged st failed h = (refl, refl)
  load_unchanged st missing h = ground arith
  load_unchanged st (listed opens entries) h = ground arith

  not_full : (digest : Text) → digest ≡ [] → not (is_empty digest) ≡ false
  not_full digest e = rw e refl

  eq_text-false : (a b : Text) → a ≢ b → eq_text a b ≡ false
  eq_text-false a b h = elim (Bool-cases (eq_text a b)) [
    | inl e ↦ absurd (h ((eq_text_iff a b).0 e))
    | inr e ↦ e
  ]

  -- The digest that is kept is that of the rules in memory.
  abbrev pub IsDigested : State → Type 0
  IsDigested st = (st.last_semantic_hash ≡ []) ⊎ (st.last_semantic_hash ≡ hash st.rules)

  commit-fresh :
      (st : State) (print : Text) (new : Rules)
      → IsDigested st
      → (hash (commit lib hash st print new).0.rules ≡ hash new)
        × ((commit lib hash st print new).0.last_semantic_hash ≡ hash new)
  unfolding commit
  commit-fresh st print new d =
      elim (Bool-cases
        (not (is_empty st.last_semantic_hash) && eq_text st.last_semantic_hash (hash new))) [
          | inr e ↦ rw e (refl, refl)
          | inl e ↦
              let (full, same) =
                (and_true (not (is_empty st.last_semantic_hash))
                    (eq_text st.last_semantic_hash (hash new))).0
                  e in
              let at = (eq_text_iff st.last_semantic_hash (hash new)).0 same in
              rw e (
                ⊎_elim (λ empty. let no_digest = not_full st.last_semantic_hash empty in cc)
                    (λ kept. sym kept ∙ at) d,
                at,
              )
        ]

  -- If `Load` succeeds over files that are not those of the last time by name, size and time, then
  -- the rules in memory have the digest of the rules that the files hold now, and this is the
  -- digest that is kept, whether the rules were replaced or found to be the same. The digest that
  -- was kept before is that of the rules in memory, or none.
  pub load_fresh :
      (st : State) (opens : Bool) (entries : List Entry) (b : Bool)
      → IsDigested st
      → fingerprint entries ≢ some st.last_dir_fingerprint
      → (load lib hash st (listed opens entries)).1 ≡ loaded b
      → (new : Rules) × (read_rules lib hash entries empty_rules ≡ some new)
        × (hash (load lib hash st (listed opens entries)).0.rules ≡ hash new)
        × ((load lib hash st (listed opens entries)).0.last_semantic_hash ≡ hash new)
  unfolding load load_entries
  load_fresh st opens entries b d other h = elim (Option-cases (fingerprint entries)) [
    | inl e ↦ absurd (ground arith)
    | inr (print, e) ↦
        let new_print : eq_text print st.last_dir_fingerprint ≡ false =
          eq_text-false print st.last_dir_fingerprint (λ at. other (e ∙ ap some at)) in
        elim (Option-cases (read_rules lib hash entries empty_rules)) [
          | inl r ↦ absurd (ground arith)
          | inr (new, r) ↦
              let same : load_entries lib hash st opens entries ≡ commit lib hash st print new =
                ground arith in
              let (rules, digest) = commit-fresh st print new d in
              (
                new,
                r,
                ap (λ (p : State × Outcome). hash p.0.rules) same ∙ rules,
                ap (λ (p : State × Outcome). p.0.last_semantic_hash) same ∙ digest,
              )
        ]
  ]

  is_empty_digest : (digest : Text) → digest ≢ [] → is_empty digest ≡ false
  is_empty_digest [] h = absurd (h refl)
  is_empty_digest _ h = refl

  reload_entries :
      (st : State) (opens : Bool) (entries : List Entry) (b : Bool)
      → ((rules : Rules) → hash rules ≢ [])
      → (load_entries lib hash st opens entries).1 ≡ loaded b
      → load_entries lib hash (load_entries lib hash st opens entries).0 opens entries
        ≡ ((load_entries lib hash st opens entries).0, loaded false)
  unfolding load_entries commit
  reload_entries st opens entries b h e = elim (Option-cases (fingerprint entries)) [
    | inl unreadable ↦ absurd (ground arith)
    | inr (print, f) ↦ elim (Option-cases (read_rules lib hash entries empty_rules)) [
      | inl unreadable ↦ ground arith
      | inr (new, r) ↦
          ground
            (arith, eq_text_refl print, eq_text_refl (hash new), is_empty_digest (hash new) (h new))
    ]
  ]

  -- A call of `Load` that succeeds leaves nothing to do for a second call over the same
  -- directory, which changes nothing and reports no change, provided that no digest is empty.
  pub load-load :
      (st : State) (l : Listing) (b : Bool)
      → ((rules : Rules) → hash rules ≢ [])
      → (load lib hash st l).1 ≡ loaded b
      → load lib hash (load lib hash st l).0 l ≡ ((load lib hash st l).0, loaded false)
  unfolding load
  load-load st failed b h e = cc
  load-load st missing b h e = ground arith
  load-load st (listed opens entries) b h e = reload_entries st opens entries b h e
