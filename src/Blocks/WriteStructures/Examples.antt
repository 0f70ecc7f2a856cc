-- ===== src/Blocks/WriteStructures/Examples.antt =====
-- A block for `res` files, one for each structure.
use structure_pipe.Base.{
  ℕ, ◌+◌, ◌≡◌, ◌↔◌, true, false, ◌||◌, none, some, List, [], ◌∷◌, ◌++◌, map, if◌then◌else◌, Text,
  text, text_eq, is_empty, append_cancel_left,
}
use structure_pipe.Pipe.{sent}
use structure_pipe.PipeData.{SharedData, GlobalData}
use structure_pipe.Blocks.Clone.{Structure}
use structure_pipe.Blocks.WriteStructures.{
  WriteStructures, disabled, Manager, use_multi_structure, pipeline_starting, save_path,
}
use structure_pipe.Blocks.WriteStructures.Paths.{save_path-same}
use structure_pipe.Blocks.WriteStructures.Session.{
  named_all, take_all, written_as, take_all-pipeline_starting,
}

abbrev res_block : WriteStructures
res_block = record {
  state = disabled;
  write_multi_structure = false;
  multi_structure_from_path = false;
  file_type = text "res";
}

-- Writer 1 is that of `res` files.
abbrev manager : Manager ℕ
manager = record {
  get_writer = λ t. if text_eq t (text "res") then some 1 else none;
  get_default_writer = none;
  multi_structure_support = λ w. true;
}

abbrev shared : SharedData ℕ
shared = record { objects_store = []; working_dir = []; instance_name = [] }

abbrev global : GlobalData ℕ
global = record { objects_store = []; working_dir = []; seed_name = text "seed"; parameters = [] }

abbrev made_name : ℕ → Text
made_name n = (n + 48) ∷ []

abbrev slash : Text → Text → Text
slash p q = p ++ (text "/" ++ q)

save_path-same_example :
    (save_path manager slash (text "w") shared global res_block (text "a") 1
      ≡ save_path manager slash (text "w") shared global res_block (text "b") 1)
    ↔ ((use_multi_structure manager res_block 1 || text_eq (text "a") (text "b")) ≡ true)
save_path-same_example =
    save_path-same manager slash (text "w") shared global res_block 1 (text "a") (text "b")
      (append_cancel_left (text "w/") (text "a") (text "b"))

abbrev structures : List (Structure ℕ)
structures = record { name = text "a"; content = 1 } ∷ record { name = []; content = 2 } ∷ []

take_all-pipeline_starting_example :
    let b' = pipeline_starting manager res_block in
    let named = named_all made_name global structures 5 in
    take_all manager made_name slash (text "w") shared global b' structures 5 ≡ (
      map sent named.0,
      named.1,
      map
          (written_as manager made_name slash (text "w") shared global b' 1 (some (text "res")))
          named.0,
    )
unfolding text_eq is_empty
take_all-pipeline_starting_example =
    take_all-pipeline_starting manager made_name slash (text "w") shared global res_block structures
      5
