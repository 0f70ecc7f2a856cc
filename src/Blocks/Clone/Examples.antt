-- ===== src/Blocks/Clone/Examples.antt =====
-- Three copies.
use structure_pipe.Base.{ℕ, ◌+◌, ◌≡◌, true, [], ◌∷◌, Text, text, map}
use structure_pipe.Pipe.{sent}
use structure_pipe.PipeData.{GlobalData}
use structure_pipe.Blocks.Clone.{Structure, Clone, take_in}
use structure_pipe.Blocks.Clone.Copies.{copy, numbers_from, take_in-copy}

abbrev three : Clone
three = record { times = 3; give_unique_names = true }

abbrev global : GlobalData ℕ
global = record { objects_store = []; working_dir = []; seed_name = text "seed"; parameters = [] }

abbrev made_name : ℕ → Text
made_name n = (n + 48) ∷ []

abbrev original : Structure ℕ
original = record { name = text "o"; content = 12 }

take_in-copy_example :
    take_in made_name global three original 5
    ≡ (map (λ i. sent (copy made_name global three original i)) (numbers_from 5 3), 5 + 3)
take_in-copy_example = take_in-copy made_name global three original 5
