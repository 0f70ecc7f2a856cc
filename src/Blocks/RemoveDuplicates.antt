-- ===== src/Blocks/RemoveDuplicates.antt =====
-- src/blocks/RemoveDuplicates.cpp: a barrier that keeps one of the structures that a comparator
-- takes for the same, and counts how often each was found.
pub mod Conservation
pub mod Counting
pub mod Examples
use structure_pipe.Base.{
  ℕ, ◌+◌, ◌%◌, ◌^◌, ◌≡◌, ◌≢◌, Bool, true, false, not, Option, none, some, List, [], ◌∷◌, ◌++◌,
  if◌then◌else◌, ◌==◌, All, length, is_empty,
}
use structure_pipe.Pipe.{Event, sent, dropped}

-- A structure is known by its address.
abbrev pub Pointer : Type 0
Pointer = ℕ

abbrev pub Distinct : List Pointer → Type 0
Distinct [] = Unit
Distinct (x ∷ xs) = All (λ y. y ≢ x) xs × Distinct xs

-- `spl::utility::UniqueStructureSet` with the comparator of the block. `insert` returns the
-- structure it points to and whether the argument was put in.
pub record StructureSets : Type 1 where
  pub StructureSet : Type 0
  pub no_structures : StructureSet
  pub insert : Pointer → StructureSet → StructureSet × Pointer × Bool
  pub members : StructureSet → List Pointer
  pub members_empty : members no_structures ≡ []
  pub members_distinct : (s : StructureSet) → Distinct (members s)
  pub insert_new :
      (x : Pointer) (s : StructureSet)
      → (insert x s).2 ≡ true
      → (before : List Pointer) × (after : List Pointer) × (members s ≡ before ++ after)
        × (members (insert x s).0 ≡ before ++ x ∷ after)
  pub insert_old :
      (x : Pointer) (s : StructureSet)
      → (insert x s).2 ≡ false
      → (before : List Pointer) × (after : List Pointer) × (members s
          ≡ before ++ (insert x s).1 ∷ after)
        × (members (insert x s).0 ≡ members s)

-- The property `searching::TIMES_FOUND` of each structure, an `unsigned int`.
abbrev pub TimesFound : Type 0
TimesFound = Pointer → Option ℕ

unfoldable pub set_times : Pointer → ℕ → TimesFound → TimesFound
set_times x n h y = if y == x then some n else h y

-- What is done to the structure that was found again.
unfoldable pub found_again : Pointer → TimesFound → TimesFound
unfolding set_times
found_again x h = elim (h x) [
  | some times ↦ set_times x ((times + 1) % 2 ^ 32) h
  | none ↦ set_times x 1 h
]

unfoldable pub send_all : List Pointer → List (Event Pointer)
send_all [] = []
send_all (x ∷ xs) = sent x ∷ send_all xs

module _ (k : StructureSets) where
  open k use {StructureSet, no_structures, insert, members}

  pub record RemoveDuplicates : Type 0 where
    pub structure_set : StructureSet
    pub times_found : TimesFound

  unfoldable pub take_in : RemoveDuplicates → Pointer → RemoveDuplicates × List (Event Pointer)
  unfolding found_again set_times
  take_in b structure =
      let (set, first, inserted) = insert structure b.structure_set in
      if inserted
      then (record { structure_set = set; times_found = set_times structure 1 b.times_found }, [])
      else (
        record { structure_set = set; times_found = found_again first b.times_found },
        dropped structure ∷ [],
      )

  unfoldable pub pipeline_finishing : RemoveDuplicates → RemoveDuplicates
  pipeline_finishing b = record b { structure_set = no_structures }

  unfoldable pub release : RemoveDuplicates → RemoveDuplicates × List (Event Pointer) × ℕ
  unfolding send_all
  release b = (
    record b { structure_set = no_structures },
    send_all (members b.structure_set),
    length (members b.structure_set),
  )

  unfoldable pub has_data : RemoveDuplicates → Bool
  has_data b = not (is_empty (members b.structure_set))

  unfoldable pub feed : RemoveDuplicates → List Pointer → RemoveDuplicates
  feed b [] = b
  feed b (x ∷ xs) = feed (take_in b x).0 xs
