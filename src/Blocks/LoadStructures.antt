-- ===== src/Blocks/LoadStructures.antt =====
-- src/blocks/LoadStructures.cpp: reads structures from files and sends them into the pipe.
pub mod Entries
pub mod Examples
use structure_pipe.Base.{
  ℕ, ◌+◌, ◌≡◌, Bool, true, false, Option, none, some, List, [], ◌∷◌, ◌++◌, if◌then◌else◌, ◌==◌,
  Text, is_empty,
}
use structure_pipe.Pipe.{Event, sent}
use structure_pipe.PipeData.{GlobalData, generate_structure_name}
use structure_pipe.Blocks.Clone.{Structure}

pub data EntryType : Type 0 where
  unknown : EntryType
  file_path : EntryType
  folder_path : EntryType
  wildcard_path : EntryType

-- The file system, and spl's resource locators and readers: `set` of a locator with what it returns,
-- the paths that fit a pattern, if there are such, and the structures that are read from a place.
pub record Files (Loc C : Type 0) : Type 0 where
  pub set : Text → Loc × Bool
  pub path : Loc → Text
  pub of_path : Text → Loc
  pub exists : Text → Bool
  pub is_regular_file : Text → Bool
  pub is_directory : Text → Bool
  pub wildcard_paths : Text → Option (List Text)
  pub read_structures : Loc → List (Structure C)

pub record LoadStructures (C : Type 0) : Type 0 where
  pub seed_structures_string : Text
  pub structures : List (Structure C)

unfoldable pub new_load_structures : {C : Type 0} → Text → LoadStructures C
new_load_structures seed = record { seed_structures_string = seed; structures = [] }

-- The lines that `getline` gives, one after the other; the last needs no line end.
unfoldable pub get_lines : Text → List Text
get_lines [] = []
get_lines (c ∷ s) =
    let rest = get_lines s in
    if c == 10 then [] ∷ rest else elim rest [ [] ↦ (c ∷ []) ∷ [] | l ∷ ls ↦ (c ∷ l) ∷ ls ]

unfoldable pub has_star : Text → Bool
has_star [] = false
has_star (c ∷ s) = if c == 42 then true else has_star s

module _ {Loc C : Type 0} (f : Files Loc C) where
  unfoldable pub entry_type : Text → EntryType
  unfolding has_star
  entry_type entry =
      let (loc, done) = f.set entry in
      if has_star entry
      then wildcard_path
      else if done
      then if f.exists (f.path loc)
        then if f.is_regular_file (f.path loc)
          then file_path
          else if f.is_directory (f.path loc)
          then folder_path
          else unknown
        else unknown
      else unknown

  -- The loop of `processWildcardEntry`, with the structures and the number of files so far.
  unfoldable pub read_paths : List Text → ℕ → List (Structure C) → List (Structure C) × ℕ
  read_paths [] num_out found = (found, num_out)
  read_paths (p ∷ ps) num_out found =
      let (num_out', found') =
        if f.is_regular_file p
        then (num_out + 1, found ++ f.read_structures (f.of_path p))
        else (num_out, found) in
      read_paths ps num_out' found'

  -- The number that is returned is `none` for -1.
  unfoldable pub process_wildcard_entry : Text → List (Structure C) → List (Structure C) × Option ℕ
  unfolding read_paths
  process_wildcard_entry entry found = elim (f.wildcard_paths entry) [
    | none ↦ (found, none)
    | some ps ↦ let (found', num_out) = read_paths ps 0 found in (found', some num_out)
  ]

  unfoldable pub process_entry : Text → List (Structure C) → List (Structure C) × Option ℕ
  unfolding entry_type process_wildcard_entry
  process_entry entry found = elim (entry_type entry) [
    | unknown ↦ (found, none)
    | file_path ↦ (found ++ f.read_structures (f.set entry).0, none)
    | folder_path ↦ (found ++ f.read_structures (f.set entry).0, none)
    | wildcard_path ↦ process_wildcard_entry entry found
  ]

  unfoldable pub process_entries : List Text → List (Structure C) → List (Structure C)
  unfolding process_entry
  process_entries [] found = found
  process_entries (entry ∷ entries) found = process_entries entries (process_entry entry found).0

  unfoldable pub load_structures : LoadStructures C → LoadStructures C
  unfolding process_entries get_lines
  load_structures b = record b {
    structures = process_entries (get_lines b.seed_structures_string) [];
  }

  unfoldable pub pipeline_initialising : LoadStructures C → LoadStructures C
  unfolding load_structures
  pipeline_initialising b = if is_empty b.structures then load_structures b else b

-- `unique` has the names that spl makes, one after the other.
module _ {V C : Type 0} (unique : ℕ → Text) (global : GlobalData V) where
  unfoldable pub send_structures : List (Structure C) → ℕ → List (Event (Structure C)) × ℕ
  unfolding generate_structure_name
  send_structures [] made = ([], made)
  send_structures (s ∷ ss) made =
      let (s', made') =
        if is_empty s.name
        then (record s { name = generate_structure_name (unique made) global }, made + 1)
        else (s, made) in
      let (later, made'') = send_structures ss made' in (sent s' ∷ later, made'')

  unfoldable pub start : LoadStructures C → ℕ → List (Event (Structure C)) × ℕ
  unfolding send_structures
  start b made = send_structures b.structures made
