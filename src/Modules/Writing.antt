-- ===== src/Modules/Writing.antt =====
-- The results that a module collects: the list `exec.Results`, the generator of local identifiers
-- of modules/utils/modutil/localid.go, and the caches of modules/vuln_lookup. The counter of 32
-- bits is a number here, so it would differ after 2 ^ 31 results only.
use recon_sr.Base.{ℕ, ◌+◌, false, List, [], ◌∷◌, ◌++◌, Option, Text, codes}
use recon_sr.Schema.{EntityRef, InputResult}

pub record Writing : Type 0 where
  pub results : List InputResult
  pub next_id : ℕ
  pub cve_cache : List Text
  pub cpe_cache : List Text

abbrev pub category_property : Text
category_property = codes "property"

-- A result before it has its local identifier.
abbrev pub property_result : Text → Text → Option EntityRef → InputResult
property_result type value source = record {
  type = type;
  category = category_property;
  value = value;
  context = [];
  source = source;
  local_id = 0;
  applied = false;
  out_of_scope = false;
  tags = [];
}

-- `append(exec.Results, …)` with `LocalID: gen.NextID()`.
unfoldable pub put_result : InputResult → Writing → Writing
put_result r w = record w {
  results = w.results ++ record r { local_id = w.next_id } ∷ [];
  next_id = w.next_id + 1;
}

unfoldable pub note_cve : Text → Writing → Writing
note_cve cve w = record w { cve_cache = cve ∷ w.cve_cache }

unfoldable pub note_cpe : Text → Writing → Writing
note_cpe cpe w = record w { cpe_cache = cpe ∷ w.cpe_cache }
