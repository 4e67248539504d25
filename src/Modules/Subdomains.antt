-- ===== src/Modules/Subdomains.antt =====
-- modules/subdomain_hierarchy/subdomain_hierarchy.go: a name is taken apart label by label down to
-- its registered domain. The text of the error of `publicsuffix` is a parameter.
use recon_sr.Base.{
  ℕ, zero, suc, ◌-◌, false, List, [], ◌∷◌, ◌++◌, map, none, some, Text, codes, length, drop, ltb,
  eq_text, if◌then◌else◌, Bool, not,
}
use recon_sr.Libs.{Libs}
use recon_sr.Schema.{EntityRef, InputResult, InputExecution}
use recon_sr.Strings.Split.{split, join}

abbrev pub level_ref : Text → Text → EntityRef
level_ref type value = record { type = type; value = value; anchor = []; local_id = 0 }

abbrev pub level_result : Text → Text → Bool → EntityRef → InputResult
level_result type value applied source = record {
  type = type;
  category = [];
  value = value;
  context = [];
  source = some source;
  local_id = 0;
  applied = applied;
  out_of_scope = false;
  tags = [];
}

unfoldable pub level_type : Text → Text → Text
level_type org val = if eq_text val org then codes "domain" else codes "subdomain"

-- The loop, for the `n` levels below a name with these labels.
unfoldable pub levels : Text → EntityRef → List Text → ℕ → List InputResult
levels org source parts zero = []
levels org source parts (suc n) =
    let rest = drop 1 parts in
    let val = join b'.' rest in
    let type = level_type org val in
    level_result type val (not (eq_text val org)) source ∷ levels org (level_ref type val) rest n

unfoldable pub decompose_results : Text → Text → Text → List InputResult
decompose_results target_type target org =
    let parts = split b'.' target in
    let org_parts = split b'.' org in
    let source = level_ref target_type target in
    if ltb (length org_parts) (length parts)
    then levels org source parts (length parts - length org_parts)
    else level_result (codes "domain") org false source ∷ []

module _ (lib : Libs) (suffix_error : Text → Text) where
  unfoldable pub decompose : Text → Text → Text → InputExecution
  decompose function target_type target = elim (lib.etld_plus_one target) [
    | none ↦ record {
      function = function;
      results = [];
      raw_data = codes "decompose failed for " ++ target;
      error = some (suffix_error target);
    }
    | some org ↦ record {
      function = function;
      results = decompose_results target_type target org;
      raw_data = [];
      error = none;
    }
  ]

  unfoldable pub run_hierarchy : Text → Text → Text → InputExecution
  run_hierarchy target_type target function =
      if eq_text function (codes "decompose")
      then decompose function target_type target
      else record {
        function = function;
        results = [];
        raw_data = [];
        error = some (codes "unsupported function: " ++ function);
      }

  unfoldable pub exec_hierarchy : Text → Text → List Text → List InputExecution
  exec_hierarchy target_type target functions = map (run_hierarchy target_type target) functions
