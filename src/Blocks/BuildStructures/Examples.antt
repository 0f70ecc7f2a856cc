-- ===== src/Blocks/BuildStructures/Examples.antt =====
-- A generator that gives a structure at every other attempt.
use structure_pipe.Base.{
  ℕ, ◌+◌, ◌*◌, ◌/◌, ◌%◌, true, none, some, [], ◌∷◌, if◌then◌else◌, ◌==◌, Text, text,
}
use structure_pipe.PipeData.{GlobalData}
use structure_pipe.Blocks.BuildStructures.{Floats, BuildStructures, Generator}

abbrev whole : Floats ℕ
whole = record {
  zero_f = 0;
  of_count = λ n. n;
  add = λ a b. a + b;
  mul = λ a b. a * b;
  div = λ a b. a / b;
  ceil = λ a. a;
}

-- The random state counts the attempts; a structure is its number of atoms.
abbrev generator : Generator ℕ ℕ ℕ
generator = record {
  generate_with = λ settings r. (some (record { name = []; content = settings }), r + 1);
  generate_plain =
      λ r. (if r % 2 == 0 then none else some (record { name = []; content = 4 }), r + 1);
  num_atoms = λ c. c;
}

abbrev global : GlobalData ℕ
global = record { objects_store = []; working_dir = []; seed_name = text "seed"; parameters = [] }

abbrev made_name : ℕ → Text
made_name n = (n + 48) ∷ []

abbrev three : BuildStructures ℕ
three = record {
  fixed_num_generate = true;
  num_to_generate = 3;
  atoms_multiplier_generate = 0;
  max_attempts = 2;
}
