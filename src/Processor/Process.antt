-- ===== src/Processor/Process.antt =====
-- internal/processor/processor.go: `Process`. What it sends is an `Option`, and what it does to
-- the counter of outstanding writers is a pair: the tokens added, and the one token given back.
use recon_sr.Base.{
  ℕ, ◌+◌, not, ◌&&◌, ◌||◌, List, [], ◌∷◌, ◌++◌, map, Option, none, some, Text, codes, length,
  if◌then◌else◌, mem_text, ◌>>=◌,
}
use recon_sr.Libs.{Libs}
use recon_sr.Scope.RuleSets.{Rules}
use recon_sr.Schema.{
  EntityRef, ProcessorInputData, RepoError, ValidResult, ResultGroup, ProcessorToRepoData,
  InputError,
}
use recon_sr.Processor.Keys.{Key, Edge, entity_key, reachable_keys}
use recon_sr.Processor.Context.{
  Messages, is_nil, rogue_functions, system_errors, violation_error, all_edges,
}
use recon_sr.Processor.Run.{Run, process_executions}

abbrev pub error_functions : List InputError → List Text
error_functions [] = []
error_functions (e ∷ es) = e.function ∷ error_functions es

-- The variables as the main loop finds them: the system's errors, and an error for each requested
-- function if the module returned a function that was not requested.
unfoldable pub start : Messages → ProcessorInputData → Run
start msg input =
    let requested = input.requested_functions in
    let rogue = rogue_functions requested input.executions in
    let clean : Run = record {
      returned = [];
      errors = system_errors input.errors;
      with_errors = error_functions input.errors;
      with_findings = [];
      raw_data = [];
      groups = [];
    } in
    if is_nil rogue || is_nil requested then clean else record clean {
      returned = requested;
      errors = clean.errors ++ map (violation_error msg input.module_name rogue) requested;
      with_errors = requested ++ clean.with_errors;
    }

-- The loop over the requested functions at the end: the errors and the functions without results.
pub record Closing : Type 0 where
  pub closing_errors : List RepoError
  pub closing_with_errors : List Text
  pub without_results : List Text

unfoldable pub close_function : Messages → Text → Run → Closing → Text → Closing
close_function msg module_name run c fn =
    if mem_text fn c.closing_with_errors
    then c
    else if not (mem_text fn run.returned)
    then record c {
      closing_errors =
          c.closing_errors
          ++ record {
            function = fn;
            error_type = codes "missing_function";
            error_text = msg.missing module_name fn;
          }
            ∷ [];
      closing_with_errors = fn ∷ c.closing_with_errors;
    }
    else if not (mem_text fn run.with_findings)
    then record c { without_results = c.without_results ++ fn ∷ [] }
    else c

unfoldable pub close_functions : Messages → Text → Run → Closing → List Text → Closing
close_functions msg module_name run c [] = c
close_functions msg module_name run c (fn ∷ fns) =
    close_functions msg module_name run (close_function msg module_name run c fn) fns

unfoldable pub total_results : List ResultGroup → ℕ
total_results [] = 0
total_results (g ∷ gs) = length g.results + total_results gs

abbrev pub to_group : EntityRef × List ValidResult → ResultGroup
to_group (s, rs) = record { source = s; results = rs }

-- What `Process` sends to the repository, and how many tokens it adds before it gives one back.
pub record Processed : Type 0 where
  pub packet : Option ProcessorToRepoData
  pub tokens : ℕ

module _ (lib : Libs) (rules : Rules) (msg : Messages) (input : ProcessorInputData) where
  unfoldable pub edges : List Edge
  edges =
      all_edges (start msg input).returned input.requested_functions input.source_entity
        input.executions

  unfoldable pub finish : Run → Processed
  finish run =
      let c =
        close_functions msg input.module_name run
          (record {
            closing_errors = run.errors;
            closing_with_errors = run.with_errors;
            without_results = [];
          })
          input.requested_functions in
      let groups = map to_group run.groups in
      if is_nil run.returned && is_nil c.closing_errors
      then record { packet = none; tokens = 0 }
      else record {
        packet = some (record {
          project_id = input.project_id;
          module_name = input.module_name;
          source_entity_id = input.source_entity_id;
          source_entity = input.source_entity;
          groups = groups;
          functions_without_results = c.without_results;
          function_raw_data = run.raw_data;
          errors = c.closing_errors;
        });
        tokens = total_results groups;
      }

  -- The main loop, from the keys that the walk found.
  unfoldable pub run_loop : List Key → Run
  run_loop reachable =
      process_executions lib rules msg input reachable (start msg input) input.executions

  -- `Process`; `none` if the walk runs out of fuel, which it does not.
  unfoldable pub process : Option Processed
  process = reachable_keys edges (entity_key input.source_entity) >>= λ reachable.
      some (finish (run_loop reachable))
