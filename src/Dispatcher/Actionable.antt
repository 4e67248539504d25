-- ===== src/Dispatcher/Actionable.antt =====
-- When `IsActionable` says yes after `loadMemoryConfig`.
use recon_sr.Base.{
  ◌≡◌, ◌⊎◌, inl, inr, refl, ap, sym, subst, ◌∙◌, arith, Bool, true, ◌&&◌, List, [], ◌∷◌, map,
  Option, none, some, Text, All, Bool-cases, Option-cases, eq_text, eq_text_iff, mem_text,
  mem_text_iff, lookup, Memᴰ, ⊎_elim, if◌then◌else◌,
}
use mathlib.Core.List.Memᴰ
use recon_sr.Schema.{ModuleCapabilities}
use recon_sr.Dispatcher.Tags.{match_tags, required_tags, excluded_tags}
use recon_sr.Dispatcher.TagLaws.{Satisfies, match_tags_iff}
use recon_sr.Dispatcher.Config.{
  add_function, add_functions, custom_names, merged_functions, Module, Limits, ModuleEntry,
  Switches, at_key, cascade, is_enabled, keep_known, clean_settings, all_capabilities, entry_for,
  load_memory_config, actionable_in, is_actionable,
}
use recon_sr.Dispatcher.Indexed.{load_memory_config-IsLoaded}

-- The user has switched the function on, its module is registered and offers it, the type is one of those that
-- the cascade gives the function, and the tags satisfy one of its groups, if it has any.
pub record IsRunnable (limits : Limits) (registry : List Module) (settings : Switches)
    (entity_type name fn : Text) (tags : List Text) : Type 0 where
  pub mod_of : Module
  pub caps : ModuleCapabilities
  pub registered : Memᴰ mod_of registry
  pub named : mod_of.name ≡ name
  pub known : mod_of.capabilities ≡ some caps
  pub offered : Memᴰ fn caps.functions ⊎ Memᴰ fn (custom_names caps.custom_functions)
  pub switched_on : is_enabled settings name fn ≡ true
  pub typed : Memᴰ entity_type (cascade limits caps fn).input_types
  pub tagged :
      ((cascade limits caps fn).raw_tags ≡ [])
      ⊎ ((group : List Text) × Memᴰ group (cascade limits caps fn).raw_tags
          × All (Satisfies tags) group)

add_function_sound :
    (g fn : Text) (fns : List Text) → Memᴰ fn (add_function g fns) → Memᴰ fn fns ⊎ (fn ≡ g)
unfolding add_function
add_function_sound g fn fns m = elim (Bool-cases (mem_text g fns)) [
  | inl e ↦ inl (rw e at m)
  | inr e ↦
      ⊎_elim inl (λ n. inr (⊎_elim (λ p. p) (λ n'. absurd (Memᴰ.not-nil n')) (Memᴰ.cases_cons n)))
        (Memᴰ.append_cases fns (rw e at m))
]

add_functions-sound :
    (fn : Text) (fns gs : List Text) → Memᴰ fn (add_functions fns gs) → Memᴰ fn fns ⊎ Memᴰ fn gs
unfolding add_functions
add_functions-sound fn fns [] m = inl m
add_functions-sound fn fns (g ∷ gs) m =
    ⊎_elim (λ old. ⊎_elim inl (λ e. inr (Memᴰ.head e)) (add_function_sound g fn fns old))
      (λ later. inr (Memᴰ.tail later)) (add_functions-sound fn (add_function g fns) gs m)

-- What is loaded of a module, the module lists among its functions or has settings for.
merged_functions-sound :
    (caps : ModuleCapabilities) (fn : Text)
    → Memᴰ fn (merged_functions caps)
    → Memᴰ fn caps.functions ⊎ Memᴰ fn (custom_names caps.custom_functions)
unfolding merged_functions
merged_functions-sound caps fn m =
    ⊎_elim
      (λ old.
        ⊎_elim (λ none. absurd (Memᴰ.not-nil none)) inl
          (add_functions-sound fn [] caps.functions old))
      inr
      (add_functions-sound fn (add_functions [] caps.functions) (custom_names caps.custom_functions)
        m)

lookup-keep_known :
    (known : List Text) (fn : Text) (fns : List (Text × Bool))
    → lookup fn (keep_known known fns) ≡ (if mem_text fn known then lookup fn fns else none)
unfolding keep_known lookup
lookup-keep_known known fn [] = ground arith
lookup-keep_known known fn ((g, b) ∷ fns) =
    ground (arith, eq_text_iff g fn, lookup-keep_known known fn fns)

abbrev kept : List Text → Option (List (Text × Bool)) → Option (List (Text × Bool))
kept valid none = none
kept valid (some fns) = some (keep_known valid fns)

abbrev kept_known : Option (List Text) → Option (List (Text × Bool)) → Option (List (Text × Bool))
kept_known none fns = none
kept_known (some valid) fns = kept valid fns

lookup-clean_settings :
    (known : List (Text × List Text)) (name : Text) (settings : Switches)
    → lookup name (clean_settings known settings)
      ≡ kept_known (lookup name known) (lookup name settings)
unfolding clean_settings lookup
lookup-clean_settings known name [] = ground arith
lookup-clean_settings known name ((m, fns) ∷ settings) =
    ground (arith, eq_text_iff m name, lookup-clean_settings known name settings)

-- What the cleaning leaves switched on, the user has switched on.
is_enabled-clean_settings :
    (known : List (Text × List Text)) (name fn : Text) (settings : Switches)
    → is_enabled (clean_settings known settings) name fn ≡ true
    → is_enabled settings name fn ≡ true
unfolding is_enabled lookup
is_enabled-clean_settings known name fn settings h = elim (Option-cases (lookup name known)) [
  | inl unknown ↦ absurd (ground (arith, lookup-clean_settings known name settings))
  | inr (valid, at) ↦ elim (Option-cases (lookup name settings)) [
    | inl unset ↦ absurd (ground (arith, lookup-clean_settings known name settings))
    | inr (fns, set) ↦
        ground (arith, lookup-clean_settings known name settings, lookup-keep_known valid fn fns)
  ]
]

actionable_in_sound :
    (name fn : Text) (tags : List Text) (entries : List ModuleEntry)
    → actionable_in name fn tags entries ≡ true
    → (e : ModuleEntry) × Memᴰ e entries
      × (e.mod_of.name ≡ name)
      × Memᴰ fn e.functions
      × (match_tags tags e.require_tags e.exclude_tags ≡ true)
unfolding actionable_in
actionable_in_sound name fn tags [] h = cc
actionable_in_sound name fn tags (e ∷ es) h =
    elim (Bool-cases (eq_text e.mod_of.name name && mem_text fn e.functions)) [
      | inl hit ↦ (
        e,
        Memᴰ.head refl,
        (eq_text_iff e.mod_of.name name).0 (ground arith),
        (mem_text_iff fn e.functions).0 (ground arith),
        rw hit at h,
      )
      | inr miss ↦
          let (d, m, named, has, tagged) = actionable_in_sound name fn tags es (rw miss at h) in
          (d, Memᴰ.tail m, named, has, tagged)
    ]

entry_for-parts :
    (limits : Limits) (enabled : Switches) (m : Module) (caps : ModuleCapabilities) (g : Text)
    → ((entry_for limits enabled m caps g).functions ≡ g ∷ [])
      × ((entry_for limits enabled m caps g).require_tags
          ≡ map required_tags (cascade limits caps g).raw_tags)
      × ((entry_for limits enabled m caps g).exclude_tags
          ≡ map excluded_tags (cascade limits caps g).raw_tags)
unfolding entry_for
entry_for-parts limits enabled m caps g = (refl, refl, refl)

-- If `IsActionable` says yes after `loadMemoryConfig`, then a registered module of that name
-- offers the function (in its list of functions or with settings of its own), the user has switched the function on, the entity's type is one of those
-- that the cascade gives the function, and the entity's tags satisfy one of the function's groups
-- (or it has none).
pub is_actionable-IsRunnable :
    (limits : Limits) (registry : List Module) (settings : Switches) (entity_type name fn : Text)
    (tags : List Text)
    → is_actionable (load_memory_config limits registry settings).index entity_type name fn tags
      ≡ true
    → IsRunnable limits registry settings entity_type name fn tags
unfolding is_actionable
is_actionable-IsRunnable limits registry settings t name fn tags h =
    let (e, m, named, has, tagged) =
      actionable_in_sound name fn tags
        (at_key t (load_memory_config limits registry settings).index) h in
    let l = load_memory_config-IsLoaded limits registry settings t e m in
    let enabled = clean_settings (all_capabilities registry) settings in
    let (fns, req, exc) = entry_for-parts limits enabled e.mod_of l.caps l.fn in
    let only : Memᴰ fn (l.fn ∷ []) = subst (Memᴰ fn) (ap ModuleEntry.functions l.same ∙ fns) has in
    let at : fn ≡ l.fn = ⊎_elim (λ p. p) (λ n. absurd (Memᴰ.not-nil n)) (Memᴰ.cases_cons only) in
    let req' = ap ModuleEntry.require_tags l.same ∙ req in
    let exc' = ap ModuleEntry.exclude_tags l.same ∙ exc in
    record {
      mod_of = e.mod_of;
      caps = l.caps;
      registered = l.registered;
      named = named;
      known = l.known;
      offered =
          merged_functions-sound l.caps fn
            (subst (λ g. Memᴰ g (merged_functions l.caps)) (sym at) l.offered);
      switched_on =
          is_enabled-clean_settings (all_capabilities registry) name fn settings (cc l.switched_on);
      typed = subst (λ g. Memᴰ t (cascade limits l.caps g).input_types) (sym at) l.typed;
      tagged =
          subst
            (λ g.
              ((cascade limits l.caps g).raw_tags ≡ [])
              ⊎ ((group : List Text) × Memᴰ group (cascade limits l.caps g).raw_tags
                  × All (Satisfies tags) group))
            (sym at) ((match_tags_iff tags (cascade limits l.caps l.fn).raw_tags).0 (cc tagged));
    }
