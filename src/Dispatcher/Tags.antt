-- ===== src/Dispatcher/Tags.antt =====
-- `containsTag`, `matchTags`, and the part of `loadMemoryConfig` that prepares the tag groups.
use recon_sr.Base.{
  Bool, true, false, not, ◌&&◌, List, [], ◌∷◌, Text, all, any, mem_text, if◌then◌else◌, ◌==◌,
}

-- `containsTag`
unfoldable pub contains_tag : List Text → Text → Bool
contains_tag tags target = mem_text target tags

-- The tags that a group of `RequiredTags` requires, and those that it excludes with a `!`.
unfoldable pub is_exclusion : Text → Bool
is_exclusion [] = false
is_exclusion (c ∷ s) = c == b'!'

unfoldable pub required_tags : List Text → List Text
required_tags [] = []
required_tags (tag ∷ tags) =
    let rest = required_tags tags in if is_exclusion tag then rest else tag ∷ rest

abbrev pub without_mark : Text → Text
without_mark [] = []
without_mark (c ∷ s) = s

unfoldable pub excluded_tags : List Text → List Text
excluded_tags [] = []
excluded_tags (tag ∷ tags) =
    let rest = excluded_tags tags in if is_exclusion tag then without_mark tag ∷ rest else rest

-- One round of the loop of `matchTags`: whether the group is satisfied.
unfoldable pub group_matches : List Text → List Text → List Text → Bool
group_matches entity_tags require exclude =
    all (λ tag. contains_tag entity_tags tag) require
    && not (any (λ tag. contains_tag entity_tags tag) exclude)

-- The loop of `matchTags`, over both lists of groups in step.
unfoldable pub match_groups : List Text → List (List Text) → List (List Text) → Bool
match_groups entity_tags [] excludes = false
match_groups entity_tags (r ∷ rs) [] = false
match_groups entity_tags (r ∷ rs) (e ∷ es) =
    let rest = match_groups entity_tags rs es in
    if group_matches entity_tags r e then true else rest

-- `matchTags`
unfoldable pub match_tags : List Text → List (List Text) → List (List Text) → Bool
match_tags entity_tags [] exclude = true
match_tags entity_tags (r ∷ rs) exclude = match_groups entity_tags (r ∷ rs) exclude
