-- ===== src/Blocks/RemoveDuplicates/Examples.antt =====
-- RemoveDuplicates with a comparator that takes all structures for the same.
use structure_pipe.Base.{
  ◌≡◌, refl, Bool, true, false, Option, none, some, List, [], ◌∷◌, ◌++◌, Perm,
}
use structure_pipe.Pipe.{handled}
use structure_pipe.Pipe.Barrier.{Call, takes, releases, arrivals, run}
use structure_pipe.Blocks.RemoveDuplicates.{
  Pointer, Distinct, StructureSets, RemoveDuplicates, release,
}
use structure_pipe.Blocks.RemoveDuplicates.Conservation.{
  held, remove_duplicates_barrier, remove_duplicates-conserves,
}

abbrev only : Option Pointer → List Pointer
only none = []
only (some x) = x ∷ []

abbrev put_first : Pointer → Option Pointer → Option Pointer × Pointer × Bool
put_first x none = (some x, x, true)
put_first x (some y) = (some y, y, false)

only-Distinct : (s : Option Pointer) → Distinct (only s)
only-Distinct none = tt
only-Distinct (some x) = (tt, tt)

put_first_new :
    (x : Pointer) (s : Option Pointer)
    → (put_first x s).2 ≡ true
    → (before : List Pointer) × (after : List Pointer) × (only s ≡ before ++ after)
      × (only (put_first x s).0 ≡ before ++ x ∷ after)
put_first_new x none e = ([], [], refl, refl)
put_first_new x (some y) e = cc

put_first_old :
    (x : Pointer) (s : Option Pointer)
    → (put_first x s).2 ≡ false
    → (before : List Pointer) × (after : List Pointer) × (only s
        ≡ before ++ (put_first x s).1 ∷ after)
      × (only (put_first x s).0 ≡ only s)
put_first_old x none e = cc
put_first_old x (some y) e = ([], [], refl, refl)

abbrev one_class : StructureSets
one_class = record {
  StructureSet = Option Pointer;
  no_structures = none;
  insert = put_first;
  members = only;
  members_empty = refl;
  members_distinct = only-Distinct;
  insert_new = put_first_new;
  insert_old = put_first_old;
}

abbrev fresh : RemoveDuplicates one_class
fresh = record { structure_set = none; times_found = λ x. none }

abbrev calls : List (Call Pointer)
calls = takes 4 ∷ takes 7 ∷ releases ∷ takes 9 ∷ []

remove_duplicates-conserves_example :
    let after = run (remove_duplicates_barrier one_class) fresh calls in
    Perm (handled after.1 ++ handled (release one_class after.0).1) (arrivals calls)
remove_duplicates-conserves_example =
    remove_duplicates-conserves one_class fresh calls (unfold held in refl)
