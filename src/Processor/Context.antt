-- ===== src/Processor/Context.antt =====
-- internal/processor/processor.go: what `Process` works out before its main loop. The texts that
-- `fmt.Sprintf` composes for the errors are arguments.
use recon_sr.Base.{
  Bool, true, false, not, ◌&&◌, ◌||◌, List, [], ◌∷◌, ◌++◌, Option, none, some, Text, codes,
  if◌then◌else◌, eq_text, mem_text, is_some,
}
use recon_sr.Libs.{Libs}
use recon_sr.Strings.{is_empty}
use recon_sr.Validator.{validate}
use recon_sr.Schema.{Entity, EntityRef, InputResult, InputExecution, InputError, RepoError}
use recon_sr.Processor.Keys.{Key, source_key, target_key, Edge, mem_key}

-- The texts of the errors.
pub record Messages : Type 0 where
  pub violation : Text → List Text → Text
  pub invalid_tag : Text → Text → Text
  pub incomplete : Text → Text → Text → Text
  pub missing : Text → Text → Text

abbrev pub is_nil {ℓ} : {A : Type ℓ} → List A → Bool
is_nil [] = true
is_nil (x ∷ xs) = false

-- A function that was not asked for; the check applies only if some function was.
unfoldable pub is_rogue : List Text → Text → Bool
is_rogue requested fn = not (is_nil requested) && not (mem_text fn requested)

unfoldable pub rogue_functions : List Text → List InputExecution → List Text
rogue_functions requested [] = []
rogue_functions requested (exec ∷ execs) =
    let rest = rogue_functions requested execs in
    if is_rogue requested exec.function then exec.function ∷ rest else rest

unfoldable pub system_errors : List InputError → List RepoError
system_errors [] = []
system_errors (e ∷ es) =
    record { function = e.function; error_type = e.type; error_text = e.text } ∷ system_errors es

abbrev pub violation_error : Messages → Text → List Text → Text → RepoError
violation_error msg module_name rogue fn = record {
  function = fn;
  error_type = codes "contract_violation";
  error_text = msg.violation module_name rogue;
}

-- An execution whose `Error` is set and not empty.
unfoldable pub failed_text : Option Text → Option Text
failed_text none = none
failed_text (some t) = if is_empty t then none else some t

-- The executions that both loops pass over.
unfoldable pub is_skipped : List Text → List Text → Text → Bool
is_skipped returned requested fn = mem_text fn returned || is_rogue requested fn

unfoldable pub edges_of : Entity → List InputResult → List Edge
edges_of source [] = []
edges_of source (res ∷ results) =
    record { from = source_key source res.source; to = target_key res } ∷ edges_of source results

-- `adj`: the loop over the executions that succeeded.
unfoldable pub all_edges : List Text → List Text → Entity → List InputExecution → List Edge
all_edges returned requested source [] = []
all_edges returned requested source (exec ∷ execs) =
    let rest = all_edges returned requested source execs in
    if is_skipped returned requested exec.function || is_some (failed_text exec.error)
    then rest
    else edges_of source exec.results ++ rest

module _ (lib : Libs) where
  abbrev invalid_ref : Key → EntityRef
  invalid_ref k = record { type = codes "invalid"; value = k.value; anchor = []; local_id = 0 }

  -- The reference that `refs` holds for a key once the loop over `refs` is done.
  unfoldable pub resolve_ref : List Key → Key → EntityRef
  resolve_ref reachable k =
      if not (mem_key k reachable) then invalid_ref k else elim (validate lib k.type k.value) [
        | none ↦ invalid_ref k
        | some r ↦ record {
          type = r.type;
          value = r.value;
          anchor = if eq_text r.type (codes "domain") then [] else r.anchor;
          local_id = 0;
        }
      ]
