-- ===== src/Repository/Logs.antt =====
-- The rows that `Store` writes to the log of the functions: `addLog` and the loops that call it.
-- A row says that a function has run on an entity, whether it was successful, and which raw data
-- it returned, if any.
use recon_sr.Base.{
  ℕ, ◌==◌, Bool, true, false, not, ◌&&◌, ◌||◌, List, [], ◌∷◌, Option, none, some, Text, is_some,
  if◌then◌else◌, eq_text, lookup,
}
use recon_sr.Strings.{is_empty}
use recon_sr.Schema.{RepoError, ValidResult}
use recon_sr.Repository.Batch.{find, put}

pub record LogKey : Type 0 where
  pub entity_id : ℕ
  pub function : Text

unfoldable pub eq_log_key : LogKey → LogKey → Bool
eq_log_key a b = a.entity_id == b.entity_id && eq_text a.function b.function

-- `logItem`, less its key.
pub record LogRow : Type 0 where
  pub ok : Bool
  pub raw_data : Option ℕ

abbrev pub LogMap : Type 0
LogMap = List (LogKey × LogRow)

-- The first row stays, unless it has no raw data and the new one has.
unfoldable pub keeps_old : Option LogRow → Option ℕ → Bool
keeps_old none raw = false
keeps_old (some row) raw = is_some row.raw_data || not (is_some raw)

-- `addLog`
unfoldable pub add_log : ℕ → Text → Bool → Option ℕ → LogMap → LogMap
add_log entity_id fn ok raw logs =
    let key : LogKey = record { entity_id = entity_id; function = fn } in
    if entity_id == 0 || is_empty fn
    then logs
    else if keeps_old (find eq_log_key key logs) raw
    then logs
    else put eq_log_key key (record { ok = ok; raw_data = raw }) logs

-- A result with the rows of its source and its target.
pub record ResultItem : Type 0 where
  pub source_row : ℕ
  pub target_row : ℕ
  pub result : ValidResult

abbrev pub raw_of : Option (Option ℕ) → Option ℕ
raw_of none = none
raw_of (some raw) = raw

module _ (raw_ids : List (Text × Option ℕ)) (source_id : ℕ) where
  unfoldable pub raw_id : Text → Option ℕ
  raw_id fn = raw_of (lookup fn raw_ids)

  unfoldable pub log_result : LogMap → ResultItem → LogMap
  log_result logs r =
      let fn = r.result.function in
      let both =
        add_log r.source_row fn true (raw_id fn) (add_log source_id fn true (raw_id fn) logs) in
      let applied = add_log r.target_row fn true (raw_id fn) both in
      if r.result.applied then applied else both

  unfoldable pub log_results : LogMap → List ResultItem → LogMap
  log_results logs [] = logs
  log_results logs (r ∷ rs) = log_results (log_result logs r) rs

  unfoldable pub log_errors : LogMap → List RepoError → LogMap
  log_errors logs [] = logs
  log_errors logs (e ∷ es) =
      log_errors (add_log source_id e.function false (raw_id e.function) logs) es

  unfoldable pub log_empty : LogMap → List Text → LogMap
  log_empty logs [] = logs
  log_empty logs (fn ∷ fns) = log_empty (add_log source_id fn true (raw_id fn) logs) fns

  -- `logMap` after the three loops.
  unfoldable pub all_logs : List ResultItem → List RepoError → List Text → LogMap
  all_logs results errors without_results =
      log_empty (log_errors (log_results [] results) errors) without_results
