-- ===== src/Repository/Logged.antt =====
-- The log rows that `Store` does not miss.
use recon_sr.Base.{
  ℕ, ◌≡◌, ◌≢◌, ◌⊎◌, inl, inr, refl, arith, Bool, true, false, List, [], ◌∷◌, Option, none, Text,
  eq_text_iff, eq_text_refl, Memᴰ, ⊎_elim, Bool-cases, Option-cases, subst, sym, ap, ◌∙◌,
}
use mathlib.Core.List.Memᴰ
use recon_sr.Schema.{RepoError}
use recon_sr.Repository.Batch.{find, put}
use recon_sr.Repository.Logs.{
  LogKey, eq_log_key, LogRow, LogMap, keeps_old, add_log, ResultItem, raw_id, log_result,
  log_results, log_errors, log_empty, all_logs,
}

-- There is a row for the function on the entity.
abbrev pub IsLogged : ℕ → Text → LogMap → Type 0
IsLogged id fn logs = find eq_log_key (record { entity_id = id; function = fn }) logs ≢ none

find-put :
    (k j : LogKey) (v : LogRow) (m : LogMap)
    → find eq_log_key j m ≢ none
    → find eq_log_key j (put eq_log_key k v m) ≢ none
unfolding find put eq_log_key
find-put k j v [] h = absurd (h refl)
find-put k j v ((i, w) ∷ m) h = ground (
  arith,
  eq_text_iff i.function k.function,
  eq_text_iff i.function j.function,
  eq_text_iff k.function j.function,
  find-put k j v m,
)

find-put_self :
    (k : LogKey) (v : LogRow) (m : LogMap) → find eq_log_key k (put eq_log_key k v m) ≢ none
unfolding find put eq_log_key
find-put_self k v [] = ground (arith, eq_text_refl k.function)
find-put_self k v ((i, w) ∷ m) = ground (arith, eq_text_refl k.function, find-put_self k v m)

-- A row that is there stays.
add_log-keeps :
    (id : ℕ) (fn : Text) (ok : Bool) (raw : Option ℕ) (logs : LogMap) (j : ℕ) (g : Text)
    → IsLogged j g logs
    → IsLogged j g (add_log id fn ok raw logs)
unfolding add_log
add_log-keeps id fn ok raw logs j g h =
    let kept =
      find-put (record { entity_id = id; function = fn }) (record { entity_id = j; function = g })
        (record { ok = ok; raw_data = raw }) logs h in
    ground arith

-- A call of `addLog` leaves a row.
add_log-IsLogged :
    (id : ℕ) (fn : Text) (ok : Bool) (raw : Option ℕ) (logs : LogMap)
    → id ≢ 0
    → fn ≢ []
    → IsLogged id fn (add_log id fn ok raw logs)
unfolding add_log keeps_old
add_log-IsLogged id [] ok raw logs p q = absurd (q refl)
add_log-IsLogged id (c ∷ fn) ok raw logs p q =
    let key : LogKey = record { entity_id = id; function = c ∷ fn } in
    let put_there = find-put_self key (record { ok = ok; raw_data = raw }) logs in
    elim (Option-cases (find eq_log_key key logs)) [
      | inl missing ↦ ground arith
      | inr (row, there) ↦ ground arith
    ]

module _ (raw_ids : List (Text × Option ℕ)) (source_id : ℕ) (j : ℕ) (g : Text) where
  log_result-keeps :
      (logs : LogMap) (r : ResultItem)
      → IsLogged j g logs
      → IsLogged j g (log_result raw_ids source_id logs r)
  unfolding log_result
  log_result-keeps logs r h =
      let fn = r.result.function in
      let raw = raw_id raw_ids source_id fn in
      let one = add_log-keeps source_id fn true raw logs j g h in
      let two =
        add_log-keeps r.source_row fn true raw (add_log source_id fn true raw logs) j g one in
      elim (Bool-cases r.result.applied) [
        | inl e ↦ rw e (add_log-keeps r.target_row fn true raw _ j g two)
        | inr e ↦ rw e two
      ]

  log_results-keeps :
      (rs : List ResultItem) (logs : LogMap)
      → IsLogged j g logs
      → IsLogged j g (log_results raw_ids source_id logs rs)
  unfolding log_results
  log_results-keeps [] logs h = h
  log_results-keeps (r ∷ rs) logs h =
      log_results-keeps rs (log_result raw_ids source_id logs r) (log_result-keeps logs r h)

  log_errors-keeps :
      (es : List RepoError) (logs : LogMap)
      → IsLogged j g logs
      → IsLogged j g (log_errors raw_ids source_id logs es)
  unfolding log_errors
  log_errors-keeps [] logs h = h
  log_errors-keeps (e ∷ es) logs h =
      log_errors-keeps es _
        (add_log-keeps source_id e.function false (raw_id raw_ids source_id e.function) logs j g h)

  log_empty-keeps :
      (fns : List Text) (logs : LogMap)
      → IsLogged j g logs
      → IsLogged j g (log_empty raw_ids source_id logs fns)
  unfolding log_empty
  log_empty-keeps [] logs h = h
  log_empty-keeps (fn ∷ fns) logs h =
      log_empty-keeps fns _
        (add_log-keeps source_id fn true (raw_id raw_ids source_id fn) logs j g h)

module _ (raw_ids : List (Text × Option ℕ)) (source_id : ℕ) (known : source_id ≢ 0) (g : Text)
    (named : g ≢ []) where
  log_errors-IsLogged :
      (es : List RepoError) (logs : LogMap) (e : RepoError)
      → Memᴰ e es
      → e.function ≡ g
      → IsLogged source_id g (log_errors raw_ids source_id logs es)
  unfolding log_errors
  log_errors-IsLogged [] logs e m at = absurd (Memᴰ.not-nil m)
  log_errors-IsLogged (d ∷ es) logs e m at =
      ⊎_elim
        (λ here. log_errors-keeps raw_ids source_id source_id g es _ (
          subst
            (λ f.
              IsLogged source_id g (add_log source_id f false (raw_id raw_ids source_id f) logs))
            (sym at ∙ ap RepoError.function here)
            (add_log-IsLogged source_id g false (raw_id raw_ids source_id g) logs known named)))
        (λ later. log_errors-IsLogged es _ e later at) (Memᴰ.cases_cons m)

  log_empty-IsLogged :
      (fns : List Text) (logs : LogMap)
      → Memᴰ g fns
      → IsLogged source_id g (log_empty raw_ids source_id logs fns)
  unfolding log_empty
  log_empty-IsLogged [] logs m = absurd (Memᴰ.not-nil m)
  log_empty-IsLogged (fn ∷ fns) logs m =
      ⊎_elim
        (λ here. log_empty-keeps raw_ids source_id source_id g fns _ (
          subst
            (λ f. IsLogged source_id g (add_log source_id f true (raw_id raw_ids source_id f) logs))
            here (add_log-IsLogged source_id g true (raw_id raw_ids source_id g) logs known named)))
        (λ later. log_empty-IsLogged fns _ later) (Memᴰ.cases_cons m)

  log_results-IsLogged :
      (rs : List ResultItem) (logs : LogMap) (r : ResultItem)
      → Memᴰ r rs
      → r.result.function ≡ g
      → IsLogged source_id g (log_results raw_ids source_id logs rs)
  unfolding log_results log_result
  log_results-IsLogged [] logs r m at = absurd (Memᴰ.not-nil m)
  log_results-IsLogged (q ∷ rs) logs r m at =
      ⊎_elim
        (λ here.
          log_results-keeps raw_ids source_id source_id g rs _
            (logged_now q logs (sym (ap (λ (x : ResultItem). x.result.function) here) ∙ at)))
        (λ later. log_results-IsLogged rs _ r later at) (Memᴰ.cases_cons m)
    where
      logged_now :
          (q : ResultItem) (logs : LogMap)
          → q.result.function ≡ g
          → IsLogged source_id g (log_result raw_ids source_id logs q)
      logged_now q logs at =
          let fn = q.result.function in
          let raw = raw_id raw_ids source_id fn in
          let one : IsLogged source_id g (add_log source_id fn true raw logs) =
            subst
              (λ f.
                IsLogged source_id g (add_log source_id f true (raw_id raw_ids source_id f) logs))
              (sym at)
              (add_log-IsLogged source_id g true (raw_id raw_ids source_id g) logs known named) in
          let two =
            add_log-keeps q.source_row fn true raw (add_log source_id fn true raw logs) source_id g
              one in
          elim (Bool-cases q.result.applied) [
            | inl e ↦ rw e (add_log-keeps q.target_row fn true raw _ source_id g two)
            | inr e ↦ rw e two
          ]

-- Every function that a packet reports an error of, lists among those without results, or has a
-- stored result of, gets a row in the log for the source entity, so the source counts as done
-- with it, provided that the source has an identifier and the function a name.
pub all_logs-IsLogged :
    (raw_ids : List (Text × Option ℕ)) (source_id : ℕ) (fn : Text) (rs : List ResultItem)
    (es : List RepoError) (fns : List Text)
    → source_id ≢ 0
    → fn ≢ []
    → ((r : ResultItem) × Memᴰ r rs × (r.result.function ≡ fn))
      ⊎ ((e : RepoError) × Memᴰ e es × (e.function ≡ fn))
      ⊎ Memᴰ fn fns
    → IsLogged source_id fn (all_logs raw_ids source_id rs es fns)
unfolding all_logs
all_logs-IsLogged raw_ids source_id fn rs es fns known named h =
    ⊎_elim
      (λ (r, m, at). log_empty-keeps raw_ids source_id source_id fn fns _ (
        log_errors-keeps raw_ids source_id source_id fn es _
          (log_results-IsLogged raw_ids source_id known fn named rs [] r m at)))
      (⊎_elim
        (λ (e, m, at).
          log_empty-keeps raw_ids source_id source_id fn fns _
            (log_errors-IsLogged raw_ids source_id known fn named es _ e m at))
        (λ m. log_empty-IsLogged raw_ids source_id known fn named fns _ m))
      h
