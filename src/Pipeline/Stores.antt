-- ===== src/Pipeline/Stores.antt =====
-- The model of `Store` is a repository of the pipeline, whatever the database answers at each call.
use recon_sr.Base.{◌≡◌, Text}
use recon_sr.Schema.{RepoError}
use recon_sr.Repository.Store.{Database, store}
use recon_sr.Repository.Stored.{store-le}
use recon_sr.Pipeline.{Repository}

-- The answers of `Store` for some state of the database and some function that Go picks.
abbrev pub store_repository : (Text → RepoError) → Repository
store_repository error_of = record {
  store = λ d answer. (db : Database) × (fn : Text) × (store db error_of fn d ≡ answer);
  store_small = λ d batch (db, fn, e). store-le db error_of fn d batch e;
}
