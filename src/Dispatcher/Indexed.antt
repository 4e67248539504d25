-- ===== src/Dispatcher/Indexed.antt =====
-- What `loadMemoryConfig` puts into the index.
use recon_sr.Base.{
  ◌≡◌, ◌⊎◌, inl, inr, refl, sym, subst, arith, true, List, [], ◌∷◌, ◌++◌, some, Text, Bool-cases,
  Option-cases, eq_text, eq_text_iff, lookup, insert, lookup-insert, Memᴰ, ⊎_elim, if◌then◌else◌,
}
use mathlib.Core.List.Memᴰ
use recon_sr.Schema.{ModuleCapabilities}
use recon_sr.Dispatcher.Config.{
  Module, Limits, ModuleEntry, Switches, Index, at_key, merged_functions, cascade, is_enabled,
  Config, index_types, entry_for, load_function, load_functions, load_module, load_modules,
  empty_config, clean_settings, all_capabilities, load_memory_config,
}

-- A function that the configuration has made available for entities of a type.
pub record IsLoaded (limits : Limits) (registry : List Module) (enabled : Switches) (t : Text)
    (entry : ModuleEntry) : Type 0 where
  pub caps : ModuleCapabilities
  pub fn : Text
  pub registered : Memᴰ entry.mod_of registry
  pub offered : Memᴰ fn (merged_functions caps)
  pub known : entry.mod_of.capabilities ≡ some caps
  pub switched_on : is_enabled enabled entry.mod_of.name fn ≡ true
  pub typed : Memᴰ t (cascade limits caps fn).input_types
  pub same : entry ≡ entry_for limits enabled entry.mod_of caps fn

at_key-insert :
    {A : Type 0} (u t : Text) (xs : List A) (m : List (Text × List A))
    → at_key t (insert u xs m) ≡ (if eq_text u t then xs else at_key t m)
at_key-insert u t xs m = ground (arith, lookup-insert u t xs m)

index_add-cases :
    (e entry : ModuleEntry) (u t : Text) (index : Index)
    → Memᴰ e (at_key t (insert u (at_key u index ++ entry ∷ []) index))
    → Memᴰ e (at_key t index) ⊎ ((e ≡ entry) × (t ≡ u))
index_add-cases e entry u t index m = elim (Bool-cases (eq_text u t)) [
  | inr other ↦ inl (rw (at_key-insert u t (at_key u index ++ entry ∷ []) index, other) at m)
  | inl same ↦
      let at = (eq_text_iff u t).0 same in
      let both : Memᴰ e (at_key u index ++ entry ∷ []) =
        rw (at_key-insert u t (at_key u index ++ entry ∷ []) index, same) at m in
      ⊎_elim (λ old. inl (subst (λ v. Memᴰ e (at_key v index)) at old))
        (λ new. inr (⊎_elim (λ p. p) (λ n. absurd (Memᴰ.not-nil n)) (Memᴰ.cases_cons new), sym at))
        (Memᴰ.append_cases (at_key u index) both)
]

index_types-cases :
    (e entry : ModuleEntry) (t : Text) (ts : List Text) (index : Index)
    → Memᴰ e (at_key t (index_types entry ts index))
    → Memᴰ e (at_key t index) ⊎ ((e ≡ entry) × Memᴰ t ts)
unfolding index_types
index_types-cases e entry t [] index m = inl m
index_types-cases e entry t (u ∷ ts) index m =
    ⊎_elim
      (λ old. ⊎_elim inl (λ (p, at). inr (p, Memᴰ.head at)) (index_add-cases e entry u t index old))
      (λ (p, later). inr (p, Memᴰ.tail later))
      (index_types-cases e entry t ts (insert u (at_key u index ++ entry ∷ []) index) m)

module _ (limits : Limits) (registry : List Module) (enabled : Switches) where
  abbrev AllLoaded : Config → Type 0
  AllLoaded c =
      (t : Text) (e : ModuleEntry)
      → Memᴰ e (at_key t c.index)
      → IsLoaded limits registry enabled t e

  module _ (m : Module) (caps : ModuleCapabilities) (here : Memᴰ m registry)
      (known : m.capabilities ≡ some caps) where
    new-IsLoaded :
        (fn t : Text)
        → Memᴰ fn (merged_functions caps)
        → is_enabled enabled m.name fn ≡ true
        → Memᴰ t (cascade limits caps fn).input_types
        → IsLoaded limits registry enabled t (entry_for limits enabled m caps fn)
    unfolding entry_for
    new-IsLoaded fn t offered on typed = record {
      offered = offered;
      caps = caps;
      fn = fn;
      registered = here;
      known = known;
      switched_on = on;
      typed = typed;
      same = refl;
    }

    load_function-AllLoaded :
        (c : Config) (fn : Text)
        → Memᴰ fn (merged_functions caps)
        → AllLoaded c
        → AllLoaded (load_function limits enabled m caps c fn)
    unfolding load_function
    load_function-AllLoaded c fn offered h = elim (Bool-cases (is_enabled enabled m.name fn)) [
      | inr off ↦ rw off h
      | inl on ↦ rw on (λ t e at.
          ⊎_elim (h t e)
            (λ (p, typed).
              subst (IsLoaded limits registry enabled t) (sym p)
                (new-IsLoaded fn t offered on typed))
            (index_types-cases e (entry_for limits enabled m caps fn) t
              (cascade limits caps fn).input_types c.index at))
    ]

    load_functions-AllLoaded :
        (c : Config) (fns : List Text)
        → ((fn : Text) → Memᴰ fn fns → Memᴰ fn (merged_functions caps))
        → AllLoaded c
        → AllLoaded (load_functions limits enabled m caps c fns)
    unfolding load_functions
    load_functions-AllLoaded c [] sub h = h
    load_functions-AllLoaded c (fn ∷ fns) sub h =
        load_functions-AllLoaded (load_function limits enabled m caps c fn) fns
          (λ g at. sub g (Memᴰ.tail at)) (load_function-AllLoaded c fn (sub fn (Memᴰ.head refl)) h)

  load_module-AllLoaded :
      (c : Config) (m : Module)
      → Memᴰ m registry
      → AllLoaded c
      → AllLoaded (load_module limits enabled c m)
  unfolding load_module
  load_module-AllLoaded c m here h = elim (Option-cases m.capabilities) [
    | inl missing ↦ rw (missing, load_module) h
    | inr (caps, known) ↦
        rw (known, load_module)
          (load_functions-AllLoaded m caps here known c (merged_functions caps) (λ g at. at) h)
  ]

  load_modules-AllLoaded :
      (c : Config) (ms : List Module)
      → ((m : Module) → Memᴰ m ms → Memᴰ m registry)
      → AllLoaded c
      → AllLoaded (load_modules limits enabled c ms)
  unfolding load_modules
  load_modules-AllLoaded c [] sub h = h
  load_modules-AllLoaded c (m ∷ ms) sub h =
      load_modules-AllLoaded (load_module limits enabled c m) ms (λ n at. sub n (Memᴰ.tail at))
        (load_module-AllLoaded c m (sub m (Memᴰ.head refl)) h)

pub load_memory_config-IsLoaded :
    (limits : Limits) (registry : List Module) (settings : Switches) (t : Text) (e : ModuleEntry)
    → Memᴰ e (at_key t (load_memory_config limits registry settings).index)
    → IsLoaded limits registry (clean_settings (all_capabilities registry) settings) t e
unfolding load_memory_config lookup
load_memory_config-IsLoaded limits registry settings =
    load_modules-AllLoaded limits registry (clean_settings (all_capabilities registry) settings)
      empty_config registry (λ m at. at) (λ t e at. absurd (Memᴰ.not-nil at))
