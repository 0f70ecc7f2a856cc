-- ===== src/Blocks/WriteStructures.antt =====
-- src/blocks/WriteStructures.cpp: writes the structures that pass, and names those without a name.
pub mod Paths
pub mod Session
pub mod Examples
use structure_pipe.Base.{
  ℕ, ◌+◌, ◌≡◌, Bool, true, false, not, ◌&&◌, Option, none, some, List, [], ◌∷◌, ◌++◌, if◌then◌else◌,
  Text, text, is_empty,
}
use structure_pipe.Pipe.{Event, sent}
use structure_pipe.PipeData.{SharedData, GlobalData, get_output_file_stem, generate_structure_name}
use structure_pipe.Blocks.Clone.{Structure}

-- `State::Value`
pub data WriterState : Type 0 where
  disabled : WriterState
  use_custom_writer : WriterState
  use_default_writer : WriterState

-- `myMultiStructureFromPath` is `false` in every block.
pub record WriteStructures : Type 0 where
  pub state : WriterState
  pub write_multi_structure : Bool
  pub multi_structure_from_path : Bool
  pub file_type : Text

unfoldable pub new_write_structures : WriteStructures
new_write_structures = record {
  state = disabled;
  write_multi_structure = true;
  multi_structure_from_path = false;
  file_type = [];
}

unfoldable pub get_write_multi : WriteStructures → Bool
get_write_multi b = b.write_multi_structure

-- The argument is not used.
unfoldable pub set_write_multi : Bool → WriteStructures → WriteStructures
set_write_multi write_multi b = record b { write_multi_structure = true }

unfoldable pub get_file_type : WriteStructures → Text
get_file_type b = b.file_type

unfoldable pub set_file_type : Text → WriteStructures → WriteStructures
set_file_type extension b = record b { file_type = extension }

-- `StructureReadWriteManager` and the writers of spl.
pub record Manager (Wr : Type 0) : Type 0 where
  pub get_writer : Text → Option Wr
  pub get_default_writer : Option Wr
  pub multi_structure_support : Wr → Bool

-- `ResourceLocator(path, id)`
pub record Locator : Type 0 where
  pub path : Text
  pub id : Text

-- A call of `writeStructure`: the structure, where to, and the file type, if one is given. What it
-- returns is not used.
pub record WriteCall (C : Type 0) : Type 0 where
  pub structure : Structure C
  pub location : Locator
  pub as_type : Option Text

unfoldable pub is_custom : WriterState → Bool
is_custom disabled = false
is_custom use_custom_writer = true
is_custom use_default_writer = false

unfoldable pub has {ℓ} : {A : Type ℓ} → Option A → Bool
has none = false
has (some a) = true

-- `unique` has the names that spl makes, one after the other.
module _ {V C : Type 0} (unique : ℕ → Text) (global : GlobalData V) where
  -- The structure with a name, and the number of names that are made.
  unfoldable pub name_structure : Structure C → ℕ → Structure C × ℕ
  unfolding generate_structure_name
  name_structure s made =
      if is_empty s.name
      then (record s { name = generate_structure_name (unique made) global }, made + 1)
      else (s, made)

module _ {Wr : Type 0} (m : Manager Wr) where
  unfoldable pub pipeline_starting : WriteStructures → WriteStructures
  unfolding has
  pipeline_starting b =
      if not (is_empty b.file_type) && has (m.get_writer b.file_type)
      then record b { state = use_custom_writer }
      else if has m.get_default_writer
      then record b { state = use_default_writer }
      else record b { state = disabled }

  unfoldable pub use_multi_structure : WriteStructures → Wr → Bool
  use_multi_structure b w =
      if b.write_multi_structure && m.multi_structure_support w then true else false

  -- The writer that `in` finds; none for a block that is disabled.
  unfoldable pub find_writer : WriteStructures → WriterState → Option Wr
  find_writer b disabled = none
  find_writer b use_custom_writer = m.get_writer b.file_type
  find_writer b use_default_writer = m.get_default_writer

  -- The path of a structure that has its name. `slash` joins paths.
  module _ {V : Type 0} (slash : Text → Text → Text) (working_dir : Text) (shared : SharedData V)
      (global : GlobalData V) where
    unfoldable pub save_path : WriteStructures → Text → Wr → Text
    unfolding use_multi_structure get_output_file_stem is_custom
    save_path b name w =
        let p =
          if use_multi_structure b w
          then if b.multi_structure_from_path
            then working_dir
            else slash working_dir (get_output_file_stem shared global)
          else slash working_dir name in
        if is_custom b.state then (p ++ text ".") ++ b.file_type else p

  module _ {V C : Type 0} (unique : ℕ → Text) (slash : Text → Text → Text) (working_dir : Text)
      (shared : SharedData V) (global : GlobalData V) where
    unfoldable pub generate_locator :
        WriteStructures → Structure C → ℕ → Wr → Structure C × ℕ × Locator
    unfolding name_structure save_path
    generate_locator b s0 made0 w =
        let (s, made) = name_structure unique global s0 made0 in
        (
          s,
          made,
          record { path = save_path slash working_dir shared global b s.name w; id = s.name },
        )

    -- The calls of `out`, the number of names that are made, and the calls of `writeStructure`.
    unfoldable pub take_in :
        WriteStructures → Structure C → ℕ → List (Event (Structure C)) × ℕ × List (WriteCall C)
    unfolding find_writer generate_locator is_custom
    take_in b s made = elim (find_writer b b.state) [
      | none ↦ (sent s ∷ [], made, [])
      | some w ↦
          let (s', made', location) = generate_locator b s made w in
          let as_type = if is_custom b.state then some b.file_type else none in
          (
            sent s' ∷ [],
            made',
            record { structure = s'; location = location; as_type = as_type } ∷ [],
          )
    ]
