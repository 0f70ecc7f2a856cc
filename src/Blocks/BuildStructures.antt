-- ===== src/Blocks/BuildStructures.antt =====
-- src/blocks/BuildStructures.cpp: sends structures that spl generates at random.
pub mod Counts
pub mod Examples
use structure_pipe.Base.{
  ℕ, zero, suc, ◌+◌, ◌≡◌, Bool, true, false, Option, none, some, List, [], ◌∷◌, ◌++◌, if◌then◌else◌,
  ltb, ◌==◌, Text, text, decimal,
}
use structure_pipe.Base.Assoc.{lookup}
use structure_pipe.Pipe.{Event, sent}
use structure_pipe.PipeData.{GlobalData, generate_structure_name}
use structure_pipe.Blocks.Clone.{Structure}

abbrev pub default_max_attempts : ℕ
default_max_attempts = 1000

-- `float`: the operations that the block calls. `ceil` is the conversion to `int` after `std::ceil`;
-- it gives 0 for a number that is not positive, which ends the loop as well as that number does.
pub record Floats (F : Type 0) : Type 0 where
  pub zero_f : F
  pub of_count : ℕ → F
  pub add : F → F → F
  pub mul : F → F → F
  pub div : F → F → F
  pub ceil : F → ℕ

-- A number to generate that is negative generates nothing, as 0 does.
pub record BuildStructures (F : Type 0) : Type 0 where
  pub fixed_num_generate : Bool
  pub num_to_generate : ℕ
  pub atoms_multiplier_generate : F
  pub max_attempts : ℕ

module _ {F : Type 0} (f : Floats F) where
  unfoldable pub build_number : ℕ → BuildStructures F
  build_number n = record {
    fixed_num_generate = true;
    num_to_generate = n;
    atoms_multiplier_generate = f.zero_f;
    max_attempts = default_max_attempts;
  }

  unfoldable pub build_atoms : F → BuildStructures F
  build_atoms multiplier = record {
    fixed_num_generate = false;
    num_to_generate = 0;
    atoms_multiplier_generate = multiplier;
    max_attempts = default_max_attempts;
  }

-- The name of structure number i, where `unique` is the name that spl makes.
unfoldable pub structure_name : {V : Type 0} → Text → GlobalData V → ℕ → Text
unfolding generate_structure_name
structure_name unique global i = (generate_structure_name unique global ++ text "-") ++ decimal i

-- spl's generator, on the state R of its random numbers: with the settings of the global memory, or
-- without; `none` is a null pointer.
pub record Generator (V C R : Type 0) : Type 0 where
  pub generate_with : V → R → Option (Structure C) × R
  pub generate_plain : R → Option (Structure C) × R
  pub num_atoms : C → ℕ

-- The variables of `start`: the random state, how many names are made, and the calls of `out`.
pub record Building (F C R : Type 0) : Type 0 where
  pub random : R
  pub made : ℕ
  pub total_atoms : F
  pub num_to_generate : ℕ
  pub events : List (Event (Structure C))

module _ {V C R : Type 0} (g : Generator V C R) (settings_key : Text) (global : GlobalData V) where
  unfoldable pub generate_structure : R → Option (Structure C) × R
  generate_structure r = elim (lookup settings_key global.objects_store) [
    | none ↦ g.generate_plain r
    | some settings ↦ g.generate_with settings r
  ]

  -- The attempts that are left, until one gives a structure that has atoms.
  unfoldable pub attempt : ℕ → R → Option (Structure C) × R
  unfolding generate_structure
  attempt zero r = (none, r)
  attempt (suc left) r =
      let (str, r') = generate_structure r in
      let again = attempt left r' in
      elim str [
        | none ↦ again
        | some s ↦ if g.num_atoms s.content == 0 then again else (some s, r')
      ]

module _ {V C R F : Type 0} (f : Floats F) (g : Generator V C R) (settings_key : Text)
    (unique : ℕ → Text) (global : GlobalData V) (b : BuildStructures F) where
  -- What is done with a structure that is generated, as number i.
  unfoldable pub send_generated : ℕ → Structure C → Building F C R → Building F C R
  unfolding structure_name
  send_generated i str w =
      let s = record str { name = structure_name (unique w.made) global i } in
      let total = f.add w.total_atoms (f.of_count (g.num_atoms str.content)) in
      let rate = f.div (f.mul b.atoms_multiplier_generate total) (f.of_count i) in
      if b.fixed_num_generate
      then record w { made = w.made + 1; events = w.events ++ sent s ∷ [] }
      else record w {
        made = w.made + 1;
        total_atoms = total;
        num_to_generate = f.ceil rate;
        events = w.events ++ sent s ∷ [];
      }

  unfoldable pub build_one : ℕ → Building F C R → Building F C R
  unfolding attempt send_generated
  build_one i w =
      let (str, r) = attempt g settings_key global b.max_attempts w.random in
      elim str [
        | none ↦ record w { random = r }
        | some s ↦ send_generated i s (record w { random = r })
      ]

  -- The loop from structure i on; `none` if the fuel ends first.
  unfoldable pub build_from : ℕ → ℕ → Building F C R → Option (Building F C R)
  unfolding build_one
  build_from zero i w = none
  build_from (suc fuel) i w =
      let rest = build_from fuel (i + 1) (build_one i w) in
      if ltb i w.num_to_generate then rest else some w

  -- From a random state, with so many names made.
  unfoldable pub start : ℕ → R → ℕ → Option (Building F C R)
  unfolding build_from
  start fuel r made = build_from fuel 0 (record {
    random = r;
    made = made;
    total_atoms = f.zero_f;
    num_to_generate = if b.fixed_num_generate then b.num_to_generate else 100;
    events = [];
  })
