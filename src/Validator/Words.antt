-- ===== src/Validator/Words.antt =====
-- The words that `validateEmail` cuts the local part into spell it.
use recon_sr.Base.{
  ℕ, ◌≡◌, ◌≢◌, refl, ap, sym, true, false, List, [], ◌∷◌, ◌++◌, Text, arith, All, some, >>=-eq-some,
  some-inj, if_none-eq-some, append_assoc, append-nil, ◌||◌, ◌∙◌,
}
use recon_sr.Strings.Split.{join, join_rest}
use recon_sr.Validator.Email.{
  LocalScan, scan_step, scan_local, local_words, is_standard, atom_extra, word_extra, words_extra,
}

join_rest-append :
    (sep : ℕ) (ps qs : List Text) → join_rest sep (ps ++ qs) ≡ join_rest sep ps ++ join_rest sep qs
unfolding join_rest
join_rest-append sep [] qs = refl
join_rest-append sep (p ∷ ps) qs = simp (join_rest-append sep ps, append_assoc)

-- What the loop has read of the local part.
abbrev read : LocalScan → Text
read st = join b'.' (st.words ++ st.current_word ∷ [])

join-write :
    (sep : ℕ) (ps : List Text) (p : Text) (c : ℕ)
    → join sep (ps ++ (p ++ c ∷ []) ∷ []) ≡ join sep (ps ++ p ∷ []) ++ c ∷ []
unfolding join
join-write sep [] p c = simp (append-nil)
join-write sep (q ∷ ps) p c = simp (join_rest-append, append_assoc, append-nil, join_rest)

join-close :
    (sep : ℕ) (ps : List Text) (p : Text)
    → join sep ((ps ++ p ∷ []) ++ [] ∷ []) ≡ join sep (ps ++ p ∷ []) ++ sep ∷ []
unfolding join
join-close sep [] p = simp (append-nil)
join-close sep (q ∷ ps) p = simp (join_rest-append, append_assoc, append-nil, join_rest)

read-step : (st st' : LocalScan) (c : ℕ) → scan_step st c ≡ some st' → read st' ≡ read st ++ c ∷ []
unfolding scan_step
read-step st st' c h =
    ground
      (arith, join-write b'.' st.words st.current_word c, join-close b'.' st.words st.current_word)

read-scan : (s : Text) (st st' : LocalScan) → scan_local st s ≡ some st' → read st' ≡ read st ++ s
unfolding scan_local
read-scan [] st st' h = rw append-nil (ap read (sym (some-inj h)))
read-scan (c ∷ s) st st' h =
    let (next, stepped, rest) = >>=-eq-some (scan_step st c) _ h in
    read-scan s next st' rest
    ∙ ap (λ r. r ++ s) (read-step st next c stepped)
    ∙ append_assoc (read st) (c ∷ []) s

pub join-local_words : (s : Text) (ws : List Text) → local_words s ≡ some ws → join b'.' ws ≡ s
unfolding local_words join
join-local_words s ws h =
    let (st, scanned, rest) = >>=-eq-some (scan_local _ s) _ h in
    let (_, same) = if_none-eq-some (st.in_quotes || st.escaped) _ rest in
    ap (join b'.') (sym (some-inj same)) ∙ read-scan s _ st scanned

-- An atom of the standard characters alone.
abbrev pub IsStandardAtom : Text → Type 0
IsStandardAtom w = (w ≢ []) × All (λ c. is_standard c ≡ true) w

atom_extra-standard : (w : Text) → atom_extra w ≡ some false → All (λ c. is_standard c ≡ true) w
unfolding atom_extra
atom_extra-standard [] h = tt
atom_extra-standard (c ∷ w) h = (ground arith, atom_extra-standard w (ground arith))

word_extra-standard : (w : Text) → word_extra w ≡ some false → IsStandardAtom w
unfolding word_extra
word_extra-standard [] h = cc
word_extra-standard (c ∷ w) h = (λ e. cc, atom_extra-standard (c ∷ w) (ground arith))

pub words_extra-standard : (ws : List Text) → words_extra ws ≡ some false → All IsStandardAtom ws
unfolding words_extra
words_extra-standard [] h = tt
words_extra-standard (w ∷ ws) h =
    let (a, first, rest) = >>=-eq-some (word_extra w) _ h in
    let (b, later, same) = >>=-eq-some (words_extra ws) _ rest in
    (word_extra-standard w (ground arith), words_extra-standard ws (ground arith))
