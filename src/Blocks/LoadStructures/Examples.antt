-- ===== src/Blocks/LoadStructures/Examples.antt =====
-- Two entries: a pattern and a file.
use structure_pipe.Base.{
  ℕ, ◌+◌, ◌≡◌, refl, true, false, some, List, [], ◌∷◌, map, Text, text, is_empty, join, arith,
}
use structure_pipe.Pipe.{sent}
use structure_pipe.PipeData.{GlobalData}
use structure_pipe.Blocks.WriteStructures.Session.{named_all}
use structure_pipe.Blocks.LoadStructures.{Files, new_load_structures, pipeline_initialising, start}
use structure_pipe.Blocks.LoadStructures.Entries.{IsEntry, found_for_all, start-new_load_structures}

-- Every path is a file with one structure, which has no name.
abbrev files : Files Text ℕ
files = record {
  set = λ t. (t, true);
  path = λ t. t;
  of_path = λ t. t;
  exists = λ t. true;
  is_regular_file = λ t. true;
  is_directory = λ t. false;
  wildcard_paths = λ t. some (text "a" ∷ text "b" ∷ []);
  read_structures = λ t. record { name = []; content = 7 } ∷ [];
}

abbrev global : GlobalData ℕ
global = record { objects_store = []; working_dir = []; seed_name = text "seed"; parameters = [] }

abbrev made_name : ℕ → Text
made_name n = (n + 48) ∷ []

abbrev entries : List Text
entries = text "*" ∷ text "c" ∷ []

star-IsEntry : IsEntry (text "*")
unfolding is_empty
star-IsEntry = (refl, omega arith)

name-IsEntry : IsEntry (text "c")
unfolding is_empty
name-IsEntry = (refl, omega arith)

start-new_load_structures_example :
    let b = pipeline_initialising files (new_load_structures (join (text "\n") entries)) in
    let named = named_all made_name global (found_for_all files entries) 3 in
    (start made_name global b 3 ≡ (map sent named.0, named.1)) × (pipeline_initialising files b ≡ b)
start-new_load_structures_example =
    start-new_load_structures made_name global files entries 3 (star-IsEntry, (name-IsEntry, tt))
