-- ===== src/PipeData.antt =====
-- What the blocks of a pipe share: src/common/SharedData.cpp and src/common/GlobalData.cpp, and
-- the functions on them of src/common/PipeFunctions.cpp and include/spipe/common/PipeFunctions.h.
pub mod Objects
pub mod Parameters
pub mod StructureData
pub mod Examples
use structure_pipe.Base.{
  ℕ, ◌≡◌, Bool, true, false, not, ◌&&◌, Option, none, some, List, [], ◌∷◌, ◌++◌, if◌then◌else◌,
  Text, text, is_empty,
}
use structure_pipe.Base.Assoc.{lookup, assign, erase}

-- `DataLocation::Value`; the first is 0.
pub data DataLocation : Type 0 where
  nowhere : DataLocation
  in_structure : DataLocation
  in_shared : DataLocation
  in_global : DataLocation

-- The test of a location as a condition.
unfoldable pub is_set : DataLocation → Bool
is_set nowhere = false
is_set in_structure = true
is_set in_shared = true
is_set in_global = true

-- The store of objects, for the keys of one type.
pub record SharedData (V : Type 0) : Type 0 where
  pub objects_store : List (Text × V)
  pub working_dir : Text
  pub instance_name : Text

pub record GlobalData (V : Type 0) : Type 0 where
  pub objects_store : List (Text × V)
  pub working_dir : Text
  pub seed_name : Text
  pub parameters : List (Text × List Text)

-- `ObjectData`: where an object was found, and the object, if the pointer is not null.
abbrev pub ObjectData : Type 0 → Type 0
ObjectData V = DataLocation × Option V

module _ {V : Type 0} where
  unfoldable pub get_object : Text → SharedData V → GlobalData V → ObjectData V
  unfolding is_set
  get_object key s g =
      let first = nowhere in
      let second = lookup key s.objects_store in
      if is_set first
      then (in_shared, second)
      else elim (lookup key g.objects_store) [ none ↦ (first, none) | some v ↦ (in_global, some v) ]

  unfoldable pub set_object :
      Text → DataLocation → V → SharedData V → GlobalData V → SharedData V × GlobalData V × Bool
  set_object key in_shared value s g =
      (record s { objects_store = assign key value s.objects_store }, g, true)
  set_object key in_global value s g =
      (s, record g { objects_store = assign key value g.objects_store }, true)
  set_object key nowhere value s g = (s, g, false)
  set_object key in_structure value s g = (s, g, false)

  unfoldable pub get_output_file_stem : SharedData V → GlobalData V → Text
  get_output_file_stem s g =
      let stem = g.seed_name in
      if not (is_empty stem) && not (is_empty s.instance_name)
      then (stem ++ text "-") ++ s.instance_name
      else stem

  -- `isAbsolute` and `/` of paths are not of this repository.
  unfoldable pub get_working_dir :
      (Text → Bool) → (Text → Text → Text) → SharedData V → GlobalData V → Text
  get_working_dir is_absolute slash s g =
      let dir = s.working_dir in
      if not (is_empty dir) && is_absolute dir then dir else slash g.working_dir dir

  -- `SPipeBlock::outputFileStemPath`, of include/spipe/PipeLibTypes.h.
  unfoldable pub output_file_stem_path :
      (Text → Bool) → (Text → Text → Text) → SharedData V → GlobalData V → Text
  unfolding get_working_dir get_output_file_stem
  output_file_stem_path is_absolute slash s g =
      slash (get_working_dir is_absolute slash s g) (get_output_file_stem s g)

  -- `generateStructureName`, of the unique name that spl makes.
  unfoldable pub generate_structure_name : Text → GlobalData V → Text
  generate_structure_name unique g =
      let name = g.seed_name in (if is_empty name then name else name ++ text "-") ++ unique

  unfoldable pub set_seed_name : Text → GlobalData V → GlobalData V
  set_seed_name name g = record g { seed_name = name }

  unfoldable pub set_global_working_dir : Text → GlobalData V → GlobalData V
  set_global_working_dir dir g = record g { working_dir = dir }

  unfoldable pub set_shared_working_dir : Text → SharedData V → SharedData V
  set_shared_working_dir dir s = record s { working_dir = dir }

  unfoldable pub set_parameters : Text → List Text → GlobalData V → GlobalData V
  set_parameters tag params g =
      if is_empty params
      then record g { parameters = erase tag g.parameters }
      else record g { parameters = assign tag params g.parameters }

  -- `updateParameterisable`, of an object with the state O and its `setParams`.
  unfoldable pub update_parameterisable :
      {O : Type 0} → (List Text → O → O × Bool) → Text → GlobalData V → O → O × Bool
  update_parameterisable set_params tag g o =
      if is_empty tag
      then (o, false)
      else elim (lookup tag g.parameters) [ none ↦ (o, false) | some params ↦ set_params params o ]
