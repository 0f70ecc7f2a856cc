-- ===== src/PipeData/Objects.antt =====
-- Objects in the shared and the global store.
use structure_pipe.Base.{
  ◌≡◌, refl, Bool, true, false, Option, none, some, if◌then◌else◌, Text, text_eq,
}
use structure_pipe.Base.Assoc.{lookup, lookup-assign}
use structure_pipe.PipeData.{
  DataLocation, nowhere, in_structure, in_shared, in_global, SharedData, GlobalData, get_object,
  set_object,
}

-- What a location has under a key.
abbrev pub stored : {V : Type 0} → DataLocation → SharedData V → GlobalData V → Text → Option V
stored nowhere s g key = none
stored in_structure s g key = none
stored in_shared s g key = lookup key s.objects_store
stored in_global s g key = lookup key g.objects_store

abbrev pub accepts : DataLocation → Bool
accepts nowhere = false
accepts in_structure = false
accepts in_shared = true
accepts in_global = true

abbrev pub same_location : DataLocation → DataLocation → Bool
same_location nowhere nowhere = true
same_location in_structure in_structure = true
same_location in_shared in_shared = true
same_location in_global in_global = true
same_location _ _ = false

module _ {V : Type 0} where
  -- `setObject` says whether the location is the shared or the global memory. If it is, the object
  -- is afterwards stored there under its key; nothing else that is stored anywhere is changed.
  pub set_object-stored :
      (key k : Text) (at place : DataLocation) (value : V) (s : SharedData V) (g : GlobalData V)
      → let r = set_object key at value s g in
        (r.2 ≡ accepts at)
        × (stored place r.0 r.1 k ≡ (
            if accepts at
            then if same_location at place
              then if text_eq key k then some value else stored place s g k
              else stored place s g k
            else stored place s g k))
  unfolding set_object
  set_object-stored key k nowhere place value s g = (refl, refl)
  set_object-stored key k in_structure place value s g = (refl, refl)
  set_object-stored key k in_shared nowhere value s g = (refl, refl)
  set_object-stored key k in_shared in_structure value s g = (refl, refl)
  set_object-stored key k in_shared in_shared value s g =
      (refl, lookup-assign key k value s.objects_store)
  set_object-stored key k in_shared in_global value s g = (refl, refl)
  set_object-stored key k in_global nowhere value s g = (refl, refl)
  set_object-stored key k in_global in_structure value s g = (refl, refl)
  set_object-stored key k in_global in_shared value s g = (refl, refl)
  set_object-stored key k in_global in_global value s g =
      (refl, lookup-assign key k value g.objects_store)

  -- `getObject` never finds what `setObject` put into the shared memory: what it returns is the same
  -- as before, for every key.
  pub get_object-set_object :
      (key k : Text) (value : V) (s : SharedData V) (g : GlobalData V)
      → let r = set_object key in_shared value s g in get_object k r.0 r.1 ≡ get_object k s g
  unfolding get_object set_object
  get_object-set_object key k value s g = refl
