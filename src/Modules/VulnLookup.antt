-- ===== src/Modules/VulnLookup.antt =====
-- `Exec` of modules/vuln_lookup/vuln_lookup.go: the functions that are asked for, one execution
-- each. The caches and the generator of identifiers go on from one execution to the next.
use recon_sr.Base.{List, [], ◌∷◌, ◌++◌, Option, none, Text, codes, eq_text, if◌then◌else◌}
use recon_sr.Modules.Advisory.{CveResponse}
use recon_sr.Modules.Writing.{Writing}
use recon_sr.Modules.Extract.{Tools}
use recon_sr.Modules.Cve.{Execution, Fetched, set_error, enrich_circl_cve}
use recon_sr.Modules.Cpe.{Search, search_circl_cpe}

-- `NewExecution`, with the caches and the counter that the executions before it left.
unfoldable pub new_execution : Writing → Execution
new_execution w = record { error = none; raw_data = []; writing = record w { results = [] } }

module _ {F : Type 0} (tools : Tools F) (service : Search F) where
  module _ (decode : Text → Option (CveResponse F)) (fetch : Text → Fetched) where
    unfoldable pub run_lookup : Text → Text → Text → Execution → Execution
    run_lookup function target_type target exec =
        if eq_text function (codes "enrich_circl_cve")
        then enrich_circl_cve tools decode fetch target_type target exec
        else if eq_text function (codes "search_circl_cpe")
        then search_circl_cpe tools service target_type target exec
        else set_error (codes "unsupported function: " ++ function) exec

    unfoldable pub exec_lookups : Text → Text → List Text → Writing → List Execution
    exec_lookups target_type target [] w = []
    exec_lookups target_type target (function ∷ functions) w =
        let exec = run_lookup function target_type target (new_execution w) in
        exec ∷ exec_lookups target_type target functions exec.writing
