-- ===== src/Blocks/RemoveDuplicates/Counting.antt =====
-- The times found of the unique structures.
use structure_pipe.Base.{ℕ, ◌+◌, Option, none, some, List, [], ◌∷◌}
use structure_pipe.Blocks.RemoveDuplicates.{Pointer, StructureSets, TimesFound, RemoveDuplicates}

times_or_0 : Option ℕ → ℕ
times_or_0 none = 0
times_or_0 (some n) = n

-- The sum of the times found of the structures of a list.
unfoldable pub total : TimesFound → List Pointer → ℕ
unfolding times_or_0
total h [] = 0
total h (x ∷ xs) = times_or_0 (h x) + total h xs

module _ (k : StructureSets) where
  open k use {insert, members, members_distinct, insert_new, insert_old}

  -- The sum of the times found of the structures in the set.
  unfoldable pub total_found : RemoveDuplicates k → ℕ
  unfolding total
  total_found b = total b.times_found (members b.structure_set)
