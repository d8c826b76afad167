-- ===== src/Base/Chunks.antt =====
-- A body that arrives in chunks; `none` is a chunk that could not be read.
use Prim.Native.Nat.{ℕ}
use mathlib.Core.List.{List, [], ◌∷◌, ◌++◌}
use mathlib.Core.Option.{Option, none, some}

-- All chunks in order, if all of them arrive.
unfoldable pub joined : List (Option (List ℕ)) → Option (List ℕ)
joined [] = some []
joined (none ∷ rest) = none
joined (some chunk ∷ rest) = elim (joined rest) [ none ↦ none | some bytes ↦ some (chunk ++ bytes) ]
