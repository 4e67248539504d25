-- ===== src/Dispatcher/TagLaws.antt =====
-- Which entities a function's tag groups let through.
use recon_sr.Base.{
  ◌≡◌, ◌≢◌, ◌↔◌, ◌⊎◌, inl, inr, refl, arith, true, List, [], ◌∷◌, map, Text, All, Memᴰ,
  mem_text_iff, Bool-cases, ⊎_elim, subst,
}
use mathlib.Core.List.Memᴰ
use recon_sr.Dispatcher.Tags.{
  contains_tag, is_exclusion, required_tags, excluded_tags, group_matches, match_groups, match_tags,
}

-- What a tag of a group asks of an entity: `!t` that it lacks `t`, and `t` that it has it.
abbrev pub Satisfies : List Text → Text → Type 0
Satisfies entity_tags [] = Memᴰ [] entity_tags
Satisfies entity_tags (c ∷ s) =
    ((c ≡ b'!') → ¬ Memᴰ s entity_tags) × ((c ≢ b'!') → Memᴰ (c ∷ s) entity_tags)

module _ (tags : List Text) where
  group_cons :
      (tag : Text) (group : List Text)
      → (group_matches tags (required_tags (tag ∷ group)) (excluded_tags (tag ∷ group)) ≡ true) ↔ (
          Satisfies tags tag
          × (group_matches tags (required_tags group) (excluded_tags group) ≡ true))
  unfolding group_matches required_tags excluded_tags is_exclusion contains_tag
  group_cons [] group = ground (arith, mem_text_iff [] tags)
  group_cons (c ∷ s) group = ground (arith, mem_text_iff s tags, mem_text_iff (c ∷ s) tags)

  group_iff :
      (group : List Text)
      → (group_matches tags (required_tags group) (excluded_tags group) ≡ true)
        ↔ All (Satisfies tags) group
  group_iff [] = (λ _. tt, λ _. unfold group_matches required_tags excluded_tags in refl)
  group_iff (tag ∷ group) = (
    λ h. let (first, rest) = (group_cons tag group).0 h in (first, (group_iff group).0 rest),
    λ (first, rest). (group_cons tag group).1 (first, (group_iff group).1 rest),
  )

  groups_iff :
      (groups : List (List Text))
      → (match_groups tags (map required_tags groups) (map excluded_tags groups) ≡ true)
        ↔ ((group : List Text) × Memᴰ group groups × All (Satisfies tags) group)
  unfolding match_groups
  groups_iff [] = (λ h. cc, λ w. absurd (Memᴰ.not-nil w.1))
  groups_iff (g ∷ gs) = elim (Bool-cases (group_matches tags (required_tags g) (excluded_tags g))) [
    | inl e ↦ rw e (λ _. (g, Memᴰ.head refl, (group_iff g).0 e), λ _. refl)
    | inr e ↦ rw e (
      λ h. let (w, m, s) = (groups_iff gs).0 h in (w, Memᴰ.tail m, s),
      λ (w, m, s).
          ⊎_elim (λ same. cc ((group_iff g).1 (subst (All (Satisfies tags)) same s)))
            (λ later. (groups_iff gs).1 (w, later, s)) (Memᴰ.cases_cons m),
    )
  ]

  -- `matchTags`, on the tag groups as `loadMemoryConfig` prepares them, says yes exactly when
  -- there is no group or when the entity satisfies every tag of one of the groups: it has the
  -- plain tags and lacks those that are marked with a `!`.
  pub match_tags_iff :
      (groups : List (List Text))
      → (match_tags tags (map required_tags groups) (map excluded_tags groups) ≡ true)
        ↔ ((groups ≡ []) ⊎ ((group : List Text) × Memᴰ group groups × All (Satisfies tags) group))
  unfolding match_tags
  match_tags_iff [] = (λ _. inl refl, λ _. refl)
  match_tags_iff (g ∷ gs) =
      (λ h. inr ((groups_iff (g ∷ gs)).0 h), λ w. ⊎_elim (λ e. cc) (groups_iff (g ∷ gs)).1 w)
