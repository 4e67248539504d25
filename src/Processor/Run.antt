-- ===== src/Processor/Run.antt =====
-- internal/processor/processor.go: the main loop of `Process`.
use recon_sr.Base.{
  ℕ, Bool, false, not, ◌&&◌, ◌||◌, ◌==◌, List, [], ◌∷◌, ◌++◌, Option, none, some, Text, codes,
  if◌then◌else◌, eq_text, mem_text, lookup, insert,
}
use recon_sr.Libs.{Libs}
use recon_sr.Strings.{is_empty}
use recon_sr.Validator.Types.{validate_tag}
use recon_sr.Scope.RuleSets.{Rules}
use recon_sr.Scope.{is_out_of_scope, is_explicitly_allowed}
use recon_sr.Schema.{
  EntityRef, InputResult, InputExecution, ProcessorInputData, RepoError, ValidResult,
}
use recon_sr.Processor.Keys.{Key, source_key, target_key}
use recon_sr.Processor.Context.{Messages, is_nil, is_skipped, failed_text, resolve_ref}

-- `aggregatedGroups`: for each source the results, in the order of their first appearance.
abbrev pub Groups : Type 0
Groups = List (EntityRef × List ValidResult)

-- The variables that the main loop writes.
pub record Run : Type 0 where
  pub returned : List Text
  pub errors : List RepoError
  pub with_errors : List Text
  pub with_findings : List Text
  pub raw_data : List (Text × Text)
  pub groups : Groups

unfoldable pub eq_ref : EntityRef → EntityRef → Bool
eq_ref a b =
    eq_text a.type b.type
    && eq_text a.value b.value
    && eq_text a.anchor b.anchor
    && a.local_id == b.local_id

-- `resAggKey`
unfoldable pub same_result : ValidResult → ValidResult → Bool
same_result a b = eq_text a.type b.type && eq_text a.value b.value && a.local_id == b.local_id

unfoldable pub add_tags : List Text → List Text → List Text
add_tags tags [] = tags
add_tags tags (t ∷ ts) = add_tags (if mem_text t tags then tags else tags ++ t ∷ []) ts

-- A result that is found again adds its tags and its two flags; the other fields stay. The scope
-- flag that is added is the module's own, `declared`.
unfoldable pub merge_result : Bool → ValidResult → ValidResult → ValidResult
merge_result declared new old = record old {
  tags = add_tags old.tags new.tags;
  applied = old.applied || new.applied;
  out_of_scope = old.out_of_scope || declared;
}

unfoldable pub add_result : Bool → ValidResult → List ValidResult → List ValidResult
add_result declared new [] = new ∷ []
add_result declared new (old ∷ rest) =
    if same_result old new
    then merge_result declared new old ∷ rest
    else old ∷ add_result declared new rest

unfoldable pub add_to_group : EntityRef → Bool → ValidResult → Groups → Groups
add_to_group source declared new [] = (source, new ∷ []) ∷ []
add_to_group source declared new ((s, results) ∷ groups) =
    if eq_ref s source
    then (s, add_result declared new results) ∷ groups
    else (s, results) ∷ add_to_group source declared new groups

-- The first tag that `ValidateTag` refuses.
unfoldable pub bad_tag : List Text → Option Text
bad_tag [] = none
bad_tag (t ∷ ts) = let rest = bad_tag ts in if validate_tag t then rest else some t

abbrev pub report : Run → Text → Text → Text → Run
report run fn error_type error_text = record run {
  errors =
      run.errors ++ record { function = fn; error_type = error_type; error_text = error_text } ∷ [];
  with_errors = fn ∷ run.with_errors;
}

abbrev pub types_of : Option (List Text) → List Text
types_of none = []
types_of (some ts) = ts

abbrev pub source_local_id : Option EntityRef → ℕ
source_local_id none = 0
source_local_id (some r) = r.local_id

module _ (lib : Libs) (rules : Rules) (msg : Messages) (input : ProcessorInputData)
    (reachable : List Key) where
  abbrev target_ref : InputResult → EntityRef
  target_ref res = resolve_ref lib reachable (target_key res)

  unfoldable pub source_ref : InputResult → EntityRef
  source_ref res = record (resolve_ref lib reachable (source_key input.source_entity res.source)) {
    local_id = source_local_id res.source;
  }

  -- The module's own mark, unless an exception of the user's overrides it.
  unfoldable pub declared_scope : InputResult → Bool
  declared_scope res =
      if res.out_of_scope
        && is_explicitly_allowed lib rules (target_ref res).type (target_ref res).value
      then false
      else res.out_of_scope

  unfoldable pub applied_flag : Text → InputResult → Bool
  applied_flag fn res =
      res.applied
      && mem_text (target_ref res).type (types_of (lookup fn input.function_input_types))

  unfoldable pub valid_result : Text → InputResult → ValidResult
  valid_result fn res = record {
    function = fn;
    type = (target_ref res).type;
    category = if is_empty res.category then codes "node" else res.category;
    value = (target_ref res).value;
    context = res.context;
    applied = applied_flag fn res;
    out_of_scope =
        declared_scope res
        || is_out_of_scope lib rules (target_ref res).type (target_ref res).value;
    tags = res.tags;
    anchor = (target_ref res).anchor;
    local_id = res.local_id;
  }

  -- A result that names its own source and brings no tag.
  unfoldable pub is_self : InputResult → Bool
  is_self res =
      eq_text (target_ref res).value (source_ref res).value
      && eq_text (target_ref res).type (source_ref res).type
      && is_nil res.tags

  unfoldable pub is_incomplete : InputResult → Bool
  is_incomplete res =
      is_empty res.type && not (is_empty res.value) || not (is_empty res.type) && is_empty res.value

  -- The body of the loop over the results of an execution.
  unfoldable pub process_result : Text → Run → InputResult → Run
  process_result fn run res = elim (bad_tag res.tags) [
    | some t ↦ report run fn (codes "invalid_tag_format") (msg.invalid_tag fn t)
    | none ↦
        if is_self res
        then run
        else if is_incomplete res
        then report run fn (codes "incomplete_data") (msg.incomplete fn res.type res.value)
        else record run {
          groups =
              add_to_group (source_ref res) (declared_scope res) (valid_result fn res) run.groups;
          with_findings = fn ∷ run.with_findings;
        }
  ]

  unfoldable pub process_results : Text → Run → List InputResult → Run
  process_results fn run [] = run
  process_results fn run (res ∷ results) = process_results fn (process_result fn run res) results

  -- The body of the loop over the executions.
  unfoldable pub process_execution : Run → InputExecution → Run
  process_execution run exec =
      let fn = exec.function in
      let run = record run { raw_data = insert fn exec.raw_data run.raw_data } in
      if is_skipped run.returned input.requested_functions fn
      then run
      else let run = record run { returned = fn ∷ run.returned } in
        elim (failed_text exec.error) [
          | some text ↦ report run fn (codes "function_error") text
          | none ↦ process_results fn run exec.results
        ]

  unfoldable pub process_executions : Run → List InputExecution → Run
  process_executions run [] = run
  process_executions run (exec ∷ execs) = process_executions (process_execution run exec) execs
