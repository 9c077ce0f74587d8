-- ===== src/Tests/Groups.antt =====
-- A group with an error, a panic and a function that is run in the end.
use hsa.Prelude.{ℕ, Option, none, some, true, false, [], ◌∷◌}
use hsa.Errkit.Multi.{Tree, leaf, multi, done, also}
use hsa.Errkit.Group.{Outcome, returned, panicked_with}

abbrev outcomes : hsa.Prelude.List (ℕ × Outcome)
outcomes = (10, returned (some (leaf 1))) ∷ (11, panicked_with (leaf 2)) ∷ []

abbrev finals : hsa.Prelude.List (Option Tree)
finals = none ∷ some (multi 0 (also (leaf 3) done)) ∷ []
