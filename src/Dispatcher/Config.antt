-- ===== src/Dispatcher/Config.antt =====
-- `loadMemoryConfig`, `IsActionable` and `GetAllCapabilities`. A limit of 0 and a delay of `none`
-- stand for the values that the code takes as not given: up to 0, and negative.
use recon_sr.Base.{
  ℕ, ◌==◌, Bool, false, not, ◌&&◌, List, [], ◌∷◌, ◌++◌, map, Option, none, some, Text, min,
  if◌then◌else◌, eq_text, mem_text, lookup, insert,
}
use recon_sr.Schema.{FunctionCapabilities, ModuleCapabilities}
use recon_sr.Dispatcher.Tags.{required_tags, excluded_tags, match_tags}

-- A registered module: its name, and what `Capabilities` returns; `none` is its error.
pub record Module : Type 0 where
  pub name : Text
  pub capabilities : Option ModuleCapabilities

-- The package's limits and the user's values for single functions.
pub record Limits : Type 0 where
  pub default_concurrency : ℕ
  pub max_concurrency : ℕ
  pub default_delay : ℕ
  pub cfg_limits : List (Text × List (Text × ℕ))
  pub cfg_delays : List (Text × List (Text × Option ℕ))

-- `moduleEntry`
pub record ModuleEntry : Type 0 where
  pub mod_of : Module
  pub functions : List Text
  pub require_tags : List (List Text)
  pub exclude_tags : List (List Text)

abbrev pub Switches : Type 0
Switches = List (Text × List (Text × Bool))

abbrev pub Index : Type 0
Index = List (Text × List ModuleEntry)

abbrev pub at_key {ℓ} : {A : Type ℓ} → Text → List (Text × List A) → List A
at_key k m = elim (lookup k m) [ none ↦ [] | some xs ↦ xs ]

unfoldable pub add_function : Text → List Text → List Text
add_function fn fns = if mem_text fn fns then fns else fns ++ fn ∷ []

unfoldable pub add_functions : List Text → List Text → List Text
add_functions fns [] = fns
add_functions fns (g ∷ gs) = add_functions (add_function g fns) gs

abbrev pub custom_names : List (Text × FunctionCapabilities) → List Text
custom_names = map (λ p. p.0)

-- `mergedFuncs`
unfoldable pub merged_functions : ModuleCapabilities → List Text
merged_functions caps =
    add_functions (add_functions [] caps.functions) (custom_names caps.custom_functions)

-- What the cascade settles for a function.
pub record FunctionSettings : Type 0 where
  pub limit : ℕ
  pub delay_ms : ℕ
  pub input_types : List Text
  pub raw_tags : List (List Text)

abbrev pub given {ℓ} : {A : Type ℓ} → List A → List A → List A
given [] old = old
given (x ∷ xs) old = x ∷ xs

abbrev pub given_number : Option ℕ → ℕ → ℕ
given_number none old = old
given_number (some n) old = n

unfoldable pub override : FunctionSettings → FunctionCapabilities → FunctionSettings
override s c = record {
  limit = if c.limit == 0 then s.limit else c.limit;
  delay_ms = given_number c.delay_ms s.delay_ms;
  input_types = given c.input_types s.input_types;
  raw_tags = given c.required_tags s.raw_tags;
}

abbrev pub override_if : FunctionSettings → Option FunctionCapabilities → FunctionSettings
override_if s none = s
override_if s (some c) = override s c

-- The base contract, the module's configuration, and the function's own.
unfoldable pub cascade : Limits → ModuleCapabilities → Text → FunctionSettings
cascade limits caps fn =
    let base : FunctionSettings = record {
      limit = limits.default_concurrency;
      delay_ms = limits.default_delay;
      input_types = caps.input_types;
      raw_tags = [];
    } in
    override_if (override_if base caps.module_config) (lookup fn caps.custom_functions)

-- The user's limit and delay come last.
unfoldable pub user_limit : Limits → Text → Text → ℕ → ℕ
user_limit limits name fn old = elim (lookup fn (at_key name limits.cfg_limits)) [
  | none ↦ old
  | some v ↦ if v == 0 then old else v
]

unfoldable pub user_delay : Limits → Text → Text → ℕ → ℕ
user_delay limits name fn old = elim (lookup fn (at_key name limits.cfg_delays)) [
  | none ↦ old
  | some v ↦ given_number v old
]

unfoldable pub is_enabled : Switches → Text → Text → Bool
is_enabled enabled name fn = elim (lookup fn (at_key name enabled)) [ none ↦ false | some b ↦ b ]

-- The settings that survive `cleanSettings`.
unfoldable pub keep_known : List Text → List (Text × Bool) → List (Text × Bool)
keep_known known [] = []
keep_known known ((fn, b) ∷ fns) =
    let rest = keep_known known fns in if mem_text fn known then (fn, b) ∷ rest else rest

-- `GetAllCapabilities`: the functions of every module that can tell them.
unfoldable pub all_capabilities : List Module → List (Text × List Text)
all_capabilities [] = []
all_capabilities (m ∷ ms) =
    let rest = all_capabilities ms in
    elim m.capabilities [ none ↦ rest | some caps ↦ (m.name, merged_functions caps) ∷ rest ]

unfoldable pub clean_settings : List (Text × List Text) → Switches → Switches
clean_settings known [] = []
clean_settings known ((name, fns) ∷ settings) =
    let rest = clean_settings known settings in
    elim (lookup name known) [ none ↦ rest | some valid ↦ (name, keep_known valid fns) ∷ rest ]

-- `limitKey`
abbrev pub limit_key : Text → Text → Text
limit_key name fn = name ++ b'|' ∷ fn

pub record ModuleLimit : Type 0 where
  pub concurrency : ℕ
  pub pause_ms : ℕ

-- `moduleIndex` and `moduleLimits`.
pub record Config : Type 0 where
  pub index : Index
  pub module_limits : List (Text × ModuleLimit)

unfoldable pub index_types : ModuleEntry → List Text → Index → Index
index_types entry [] index = index
index_types entry (t ∷ ts) index =
    index_types entry ts (insert t (at_key t index ++ entry ∷ []) index)

module _ (limits : Limits) (enabled : Switches) where
  unfoldable pub entry_for : Module → ModuleCapabilities → Text → ModuleEntry
  entry_for m caps fn =
      let s = cascade limits caps fn in
      record {
        mod_of = m;
        functions = fn ∷ [];
        require_tags = map required_tags s.raw_tags;
        exclude_tags = map excluded_tags s.raw_tags;
      }

  unfoldable pub limit_for : Module → ModuleCapabilities → Text → ModuleLimit
  limit_for m caps fn =
      let s = cascade limits caps fn in
      record {
        concurrency = min (user_limit limits m.name fn s.limit) limits.max_concurrency;
        pause_ms = user_delay limits m.name fn s.delay_ms;
      }

  -- The body of the loop over the functions of a module.
  unfoldable pub load_function : Module → ModuleCapabilities → Config → Text → Config
  load_function m caps c fn = if not (is_enabled enabled m.name fn) then c else record {
    index = index_types (entry_for m caps fn) (cascade limits caps fn).input_types c.index;
    module_limits = insert (limit_key m.name fn) (limit_for m caps fn) c.module_limits;
  }

  unfoldable pub load_functions : Module → ModuleCapabilities → Config → List Text → Config
  load_functions m caps c [] = c
  load_functions m caps c (fn ∷ fns) = load_functions m caps (load_function m caps c fn) fns

  unfoldable pub load_module : Config → Module → Config
  load_module c m = elim m.capabilities [
    | none ↦ c
    | some caps ↦ load_functions m caps c (merged_functions caps)
  ]

  unfoldable pub load_modules : Config → List Module → Config
  load_modules c [] = c
  load_modules c (m ∷ ms) = load_modules (load_module c m) ms

abbrev pub empty_config : Config
empty_config = record { index = []; module_limits = [] }

-- `loadMemoryConfig`, less the registrations that it returns for the database.
unfoldable pub load_memory_config : Limits → List Module → Switches → Config
load_memory_config limits registry settings =
    load_modules limits (clean_settings (all_capabilities registry) settings) empty_config registry

-- `IsActionable`: the first entry of the module that has the function decides.
unfoldable pub actionable_in : Text → Text → List Text → List ModuleEntry → Bool
actionable_in name fn tags [] = false
actionable_in name fn tags (entry ∷ entries) =
    let rest = actionable_in name fn tags entries in
    if eq_text entry.mod_of.name name && mem_text fn entry.functions
    then match_tags tags entry.require_tags entry.exclude_tags
    else rest

unfoldable pub is_actionable : Index → Text → Text → Text → List Text → Bool
is_actionable index entity_type name fn tags = actionable_in name fn tags (at_key entity_type index)
