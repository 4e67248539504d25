-- ===== src/Modules/Latest.antt =====
-- The collector of modules/utils/dateutil/dateutil.go keeps the greatest day of each key.
use recon_sr.Base.{
  ◌≡◌, ◌≢◌, inl, inr, refl, sym, ◌∙◌, subst, arith, Bool-cases, Bool, true, false, List, [], ◌∷◌,
  ◌++◌, Option, none, some, some-inj, Text, Text-cases, Memᴰ, Memᴰ-append, append_assoc, append-nil,
  lookup, insert, lookup-insert, eq_text, eq_text_refl, eq_text_iff, if◌then◌else◌,
}
use mathlib.Core.List.Memᴰ
use recon_sr.Schema.{EntityRef}
use recon_sr.Strings.{is_empty}
use recon_sr.Strings.Trim.{trim_space}
use recon_sr.Modules.Dates.{normalize_day}
use recon_sr.Modules.Numbered.{mem-concat}
use recon_sr.Modules.Collector.{
  LatestDate, Collected, gt_text, latest, put_day, RawDate, add_date, add_dates,
}

gt_text_trans : (a b c : Text) → gt_text a b ≡ true → gt_text b c ≡ true → gt_text a c ≡ true
unfolding gt_text
gt_text_trans [] b c h k = cc
gt_text_trans (x ∷ a) b [] h k = refl
gt_text_trans (x ∷ a) [] (z ∷ c) h k = cc
gt_text_trans (x ∷ a) (y ∷ b) (z ∷ c) h k = let ih = gt_text_trans a b c in ground arith

gt_text_irrefl : (a : Text) → gt_text a a ≡ false
unfolding gt_text
gt_text_irrefl [] = refl
gt_text_irrefl (x ∷ a) = let ih = gt_text_irrefl a in ground arith

if_true {ℓ} : {A : Type ℓ} {b : Bool} (x y : A) → b ≡ true → (if b then x else y) ≡ x
if_true x y e = rw e refl

if_false {ℓ} : {A : Type ℓ} {b : Bool} (x y : A) → b ≡ false → (if b then x else y) ≡ y
if_false x y e = rw e refl

eq_text-false : {a b : Text} → a ≢ b → eq_text a b ≡ false
eq_text-false h = elim (Bool-cases (eq_text _ _)) [
  | inl e ↦ absurd (h ((eq_text_iff _ _).0 e))
  | inr e ↦ e
]

module _ (parse_day : Text → Text → Option Text) where
  -- What is added is a day for this key.
  abbrev pub HasDay : RawDate → Text → Text → Type 0
  HasDay d key day =
      (trim_space d.key ≡ key) × (is_empty key ≡ false) × (normalize_day parse_day d.raw ≡ some day)

  abbrev pub IsLatest : Text → List RawDate → Option LatestDate → Type 0
  IsLatest key dates none = (d : RawDate) (day : Text) → Memᴰ d dates → ¬ HasDay d key day
  IsLatest key dates (some item) =
      ((d : RawDate) × Memᴰ d dates × HasDay d key item.day)
      × ((d : RawDate) (day : Text)
          → Memᴰ d dates
          → HasDay d key day
          → gt_text day item.day ≡ false)

  module _ (key : Text) (past : List RawDate) (d : RawDate) where
    unchanged :
        ((day : Text) → ¬ HasDay d key day)
        → (o : Option LatestDate) → IsLatest key past o
        → IsLatest key (past ++ d ∷ []) o
    unchanged never none h = λ e day m has. elim (mem-concat past d e m) [
      | inl old ↦ h e day old has
      | inr same ↦ never day (subst (λ x. HasDay x key day) same has)
    ]
    unchanged never (some item) ((e, m, has), h) = (
      (e, (Memᴰ-append e past (d ∷ [])).1 (inl m), has),
      λ e' day m' has'. elim (mem-concat past d e' m') [
        | inl old ↦ h e' day old has'
        | inr same ↦ absurd (never day (subst (λ x. HasDay x key day) same has'))
      ],
    )

    day_unique : (day day' : Text) → HasDay d key day → HasDay d key day' → day' ≡ day
    day_unique day day' (_, _, e) (_, _, e') = some-inj (sym e' ∙ e)

    here : Memᴰ d (past ++ d ∷ [])
    here = (Memᴰ-append d past (d ∷ [])).1 (inr (Memᴰ.head refl))

    renewed :
        (source : Option EntityRef) (day : Text)
        → HasDay d key day
        → (o : Option LatestDate) → IsLatest key past o
        → IsLatest key (past ++ d ∷ []) (some (latest key source day o))
    unfolding latest
    renewed source day has none h = (
      (d, here, has),
      λ e day' m has'. elim (mem-concat past d e m) [
        | inl old ↦ absurd (h e day' old has')
        | inr same ↦
            subst (λ x. gt_text x day ≡ false)
              (sym (day_unique day day' has (subst (λ x. HasDay x key day') same has')))
              (gt_text_irrefl day)
      ],
    )
    renewed source day has (some item) ((e, m, old_has), h) =
        elim (Bool-cases (gt_text day item.day)) [
          | inl greater ↦ rw greater (
            (d, here, has),
            λ e' day' m' has'. elim (mem-concat past d e' m') [
              | inl old ↦ elim (Bool-cases (gt_text day' day)) [
                | inl more ↦
                    let t = gt_text_trans day' day item.day more greater in
                    let f = h e' day' old has' in cc
                | inr less ↦ less
              ]
              | inr same ↦
                  subst (λ x. gt_text x day ≡ false)
                    (sym (day_unique day day' has (subst (λ x. HasDay x key day') same has')))
                    (gt_text_irrefl day)
            ],
          )
          | inr other ↦ rw other (
            (e, (Memᴰ-append e past (d ∷ [])).1 (inl m), old_has),
            λ e' day' m' has'. elim (mem-concat past d e' m') [
              | inl old ↦ h e' day' old has'
              | inr same ↦
                  subst (λ x. gt_text x item.day ≡ false)
                    (sym (day_unique day day' has (subst (λ x. HasDay x key day') same has'))) other
            ],
          )
        ]

  put_day-IsLatest :
      (key k : Text) (past : List RawDate) (d : RawDate) (day : Option Text) (items : Collected)
      → trim_space d.key ≡ k
      → is_empty k ≡ false
      → normalize_day parse_day d.raw ≡ day
      → IsLatest key past (lookup key items)
      → IsLatest key (past ++ d ∷ []) (lookup key (put_day k d.source day items))
  unfolding put_day
  put_day-IsLatest key k past d none items at full is_day h =
      unchanged key past d (λ day (_, _, e). let f = sym e ∙ is_day in cc) (lookup key items) h
  put_day-IsLatest key k past d (some day) items at full is_day h = elim (Text-cases k key) [
    | inl e ↦
        let has : HasDay d key day = (at ∙ e, subst (λ t. is_empty t ≡ false) e full, is_day) in
        let found =
          lookup-insert key key (latest key d.source day (lookup key items)) items
          ∙ if_true _ _ (eq_text_refl key) in
        subst
          (λ j.
            IsLatest key (past ++ d ∷ [])
              (lookup key (insert j (latest j d.source day (lookup j items)) items)))
          (sym e)
          (subst (IsLatest key (past ++ d ∷ [])) (sym found)
            (renewed key past d d.source day has (lookup key items) h))
    | inr other ↦
        let found =
          lookup-insert k key (latest k d.source day (lookup k items)) items
          ∙ if_false _ _ (eq_text-false other) in
        subst (IsLatest key (past ++ d ∷ [])) (sym found)
          (unchanged key past d (λ day' (k', _, _). other (sym at ∙ k')) (lookup key items) h)
  ]

  add_date-IsLatest :
      (key : Text) (past : List RawDate) (d : RawDate) (items : Collected)
      → IsLatest key past (lookup key items)
      → IsLatest key (past ++ d ∷ []) (lookup key (add_date parse_day d items))
  unfolding add_date
  add_date-IsLatest key past d items h = elim (Bool-cases (is_empty (trim_space d.key))) [
    | inl e ↦ rw e (
        unchanged key past d (λ day (k, full, _). let f = subst (λ t. is_empty t ≡ true) k e in cc)
          (lookup key items) h)
    | inr e ↦ rw e (
        put_day-IsLatest key (trim_space d.key) past d (normalize_day parse_day d.raw) items refl e
          refl h)
  ]

  add_dates-IsLatest :
      (key : Text) (past dates : List RawDate) (items : Collected)
      → IsLatest key past (lookup key items)
      → IsLatest key (past ++ dates) (lookup key (add_dates parse_day dates items))
  unfolding add_dates
  add_dates-IsLatest key past [] items h =
      subst (λ ds. IsLatest key ds (lookup key items)) (sym (append-nil past)) h
  add_dates-IsLatest key past (d ∷ dates) items h =
      subst
        (λ ds.
          IsLatest key ds (lookup key (add_dates parse_day dates (add_date parse_day d items))))
        (append_assoc past (d ∷ []) dates)
        (add_dates-IsLatest key (past ++ d ∷ []) dates (add_date parse_day d items)
          (add_date-IsLatest key past d items h))

  -- When dates have been added to a new collector, the day of a key is one of the days that were
  -- added for the key, and none of them is later; a key without an item has had no day. Keys are
  -- compared without the space around them, and an empty key or a date that is no day adds nothing.
  pub collected-IsLatest :
      (key : Text) (dates : List RawDate)
      → IsLatest key dates (lookup key (add_dates parse_day dates []))
  collected-IsLatest key dates =
      add_dates-IsLatest key [] dates [] (unfold lookup in λ d day m has. absurd (Memᴰ.not-nil m))
