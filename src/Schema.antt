-- ===== src/Schema.antt =====
-- schema/schema.go: the data that the components hand to one another. A Go map is an association
-- list, a pointer that may be nil is an `Option`, and an identifier of type `int` or `int64` is a
-- number.
use recon_sr.Base.{ℕ, Bool, List, Option, Text}

pub record Entity : Type 0 where
  pub type : Text
  pub category : Text
  pub value : Text
  pub tags : List Text

pub record EntityRef : Type 0 where
  pub type : Text
  pub value : Text
  pub anchor : Text
  pub local_id : ℕ

pub record ModuleFunction : Type 0 where
  pub module_name : Text
  pub function : Text

pub record BatchItem : Type 0 where
  pub source_entity_id : ℕ
  pub entity : Entity
  pub out_of_scope : Bool
  pub depth_strict : ℕ
  pub depth_relaxed : ℕ
  pub completed_functions : List ModuleFunction

pub record RepoToDispatcherData : Type 0 where
  pub project_id : Text
  pub batch : List BatchItem

-- `ProcessorInputResult`, which has the fields of `ModuleResult`.
pub record InputResult : Type 0 where
  pub type : Text
  pub category : Text
  pub value : Text
  pub context : Text
  pub source : Option EntityRef
  pub local_id : ℕ
  pub applied : Bool
  pub out_of_scope : Bool
  pub tags : List Text

-- `ProcessorInputExecution`, which has the fields of `ModuleExecution`.
pub record InputExecution : Type 0 where
  pub function : Text
  pub results : List InputResult
  pub raw_data : Text
  pub error : Option Text

pub record InputError : Type 0 where
  pub function : Text
  pub type : Text
  pub text : Text

pub record ProcessorInputData : Type 0 where
  pub project_id : Text
  pub module_name : Text
  pub source_entity_id : ℕ
  pub source_entity : Entity
  pub executions : List InputExecution
  pub requested_functions : List Text
  pub function_input_types : List (Text × List Text)
  pub errors : List InputError

pub record ValidResult : Type 0 where
  pub function : Text
  pub type : Text
  pub category : Text
  pub value : Text
  pub context : Text
  pub applied : Bool
  pub out_of_scope : Bool
  pub tags : List Text
  pub anchor : Text
  pub local_id : ℕ

pub record RepoError : Type 0 where
  pub function : Text
  pub error_type : Text
  pub error_text : Text

pub record ResultGroup : Type 0 where
  pub source : EntityRef
  pub results : List ValidResult

pub record ProcessorToRepoData : Type 0 where
  pub project_id : Text
  pub module_name : Text
  pub source_entity_id : ℕ
  pub source_entity : Entity
  pub groups : List ResultGroup
  pub functions_without_results : List Text
  pub function_raw_data : List (Text × Text)
  pub errors : List RepoError

-- `FunctionCapabilities`, less the field `Meta`, which no component reads. `DelayMs` may be
-- negative, which stands for "not given": `none`.
pub record FunctionCapabilities : Type 0 where
  pub limit : ℕ
  pub delay_ms : Option ℕ
  pub input_types : List Text
  pub required_tags : List (List Text)

pub record ModuleCapabilities : Type 0 where
  pub functions : List Text
  pub input_types : List Text
  pub module_config : Option FunctionCapabilities
  pub custom_functions : List (Text × FunctionCapabilities)
