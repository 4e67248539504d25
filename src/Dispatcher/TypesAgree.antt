-- ===== src/Dispatcher/TypesAgree.antt =====
-- `Dispatch` works out the input types of a function again, and `loadMemoryConfig` stores limits.
use recon_sr.Base.{
  ◌≤◌, ◌≡◌, inl, inr, arith, List, [], ◌∷◌, some, Text, Bool-cases, Option-cases, lookup,
  lookup-insert,
}
use recon_sr.Schema.{ModuleCapabilities}
use recon_sr.Dispatcher.Config.{
  Module, Limits, Switches, Config, ModuleLimit, override, cascade, limit_key, merged_functions,
  is_enabled, limit_for, load_function, load_functions, load_module, load_modules,
  load_memory_config, empty_config, clean_settings, all_capabilities,
}
use recon_sr.Dispatcher.Routing.{function_types}

-- The input types that `Dispatch` hands to the processor for a function are those that the
-- cascade of `loadMemoryConfig` settles for it.
pub function_types-cascade :
    (limits : Limits) (caps : ModuleCapabilities) (fn : Text)
    → function_types caps fn ≡ (cascade limits caps fn).input_types
unfolding function_types cascade override
function_types-cascade limits caps fn = ground arith

-- No entry of `moduleLimits` allows more than the maximum.
abbrev IsCapped : Limits → Config → Type 0
IsCapped limits c =
    (key : Text) (l : ModuleLimit)
    → lookup key c.module_limits ≡ some l
    → l.concurrency ≤ limits.max_concurrency

module _ (limits : Limits) (enabled : Switches) where
  limit_for-le :
      (m : Module) (caps : ModuleCapabilities) (fn : Text)
      → (limit_for limits enabled m caps fn).concurrency ≤ limits.max_concurrency
  unfolding limit_for
  limit_for-le m caps fn = omega arith

  load_function-IsCapped :
      (m : Module) (caps : ModuleCapabilities) (c : Config) (fn : Text)
      → IsCapped limits c
      → IsCapped limits (load_function limits enabled m caps c fn)
  unfolding load_function
  load_function-IsCapped m caps c fn h = elim (Bool-cases (is_enabled enabled m.name fn)) [
    | inr off ↦ rw off h
    | inl on ↦ rw on (λ key l at.
        let bound = limit_for-le m caps fn in
        let old = h key l in
        let step =
          lookup-insert (limit_key m.name fn) key (limit_for limits enabled m caps fn)
            c.module_limits in
        ground arith)
  ]

  load_functions-IsCapped :
      (m : Module) (caps : ModuleCapabilities) (c : Config) (fns : List Text)
      → IsCapped limits c
      → IsCapped limits (load_functions limits enabled m caps c fns)
  unfolding load_functions
  load_functions-IsCapped m caps c [] h = h
  load_functions-IsCapped m caps c (fn ∷ fns) h =
      load_functions-IsCapped m caps (load_function limits enabled m caps c fn) fns
        (load_function-IsCapped m caps c fn h)

  load_module-IsCapped :
      (c : Config) (m : Module)
      → IsCapped limits c
      → IsCapped limits (load_module limits enabled c m)
  unfolding load_module
  load_module-IsCapped c m h = elim (Option-cases m.capabilities) [
    | inl missing ↦ rw (missing, load_module) h
    | inr (caps, known) ↦
        rw (known, load_module) (load_functions-IsCapped m caps c (merged_functions caps) h)
  ]

  load_modules-IsCapped :
      (c : Config) (ms : List Module)
      → IsCapped limits c
      → IsCapped limits (load_modules limits enabled c ms)
  unfolding load_modules
  load_modules-IsCapped c [] h = h
  load_modules-IsCapped c (m ∷ ms) h =
      load_modules-IsCapped (load_module limits enabled c m) ms (load_module-IsCapped c m h)

-- Whatever the modules declare and the user asks for, every limit that `loadMemoryConfig` puts
-- into `moduleLimits` is at most the maximum that is set for all functions.
pub module_limits-le :
    (limits : Limits) (registry : List Module) (settings : Switches) (key : Text) (l : ModuleLimit)
    → lookup key (load_memory_config limits registry settings).module_limits ≡ some l
    → l.concurrency ≤ limits.max_concurrency
unfolding load_memory_config lookup
module_limits-le limits registry settings =
    load_modules-IsCapped limits (clean_settings (all_capabilities registry) settings) empty_config
      registry (λ key l at. cc)
