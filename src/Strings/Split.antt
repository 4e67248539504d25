-- ===== src/Strings/Split.antt =====
-- `strings.Split` and `strings.Join` at a separator of one byte.
use recon_sr.Base.{ℕ, List, [], ◌∷◌, ◌++◌, Text, ◌==◌, if◌then◌else◌}

abbrev pub push_front : ℕ → List Text → List Text
push_front c [] = (c ∷ []) ∷ []
push_front c (p ∷ ps) = (c ∷ p) ∷ ps

unfoldable pub split : ℕ → Text → List Text
split sep [] = [] ∷ []
split sep (c ∷ s) = let rest = split sep s in if c == sep then [] ∷ rest else push_front c rest

-- The parts that follow the first, each behind a separator.
unfoldable pub join_rest : ℕ → List Text → Text
join_rest sep [] = []
join_rest sep (p ∷ ps) = sep ∷ (p ++ join_rest sep ps)

unfoldable pub join : ℕ → List Text → Text
unfolding join_rest
join sep [] = []
join sep (p ∷ ps) = p ++ join_rest sep ps
