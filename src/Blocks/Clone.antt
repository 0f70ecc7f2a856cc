-- ===== src/Blocks/Clone.antt =====
-- src/blocks/Clone.cpp: sends a structure on with copies of it.
pub mod Copies
pub mod Examples
use structure_pipe.Base.{
  ℕ, zero, suc, ◌+◌, ◌-◌, ◌≡◌, Bool, true, false, List, [], ◌∷◌, ◌++◌, if◌then◌else◌, Text,
}
use structure_pipe.Pipe.{Event, sent}
use structure_pipe.PipeData.{GlobalData, generate_structure_name}

-- A structure: its name, and what else it holds.
pub record Structure (C : Type 0) : Type 0 where
  pub name : Text
  pub content : C

pub record Clone : Type 0 where
  pub times : ℕ
  pub give_unique_names : Bool

-- `unique` has the names that spl makes, one after the other.
module _ {V C : Type 0} (unique : ℕ → Text) (global : GlobalData V) (b : Clone) where
  unfoldable pub prep_structure : Structure C → ℕ → Structure C × ℕ
  unfolding generate_structure_name
  prep_structure s made =
      if b.give_unique_names
      then (record s { name = generate_structure_name (unique made) global }, made + 1)
      else (s, made)

  -- The loop, for what is left of `myTimes - 1`.
  unfoldable pub send_copies : ℕ → Structure C → ℕ → List (Event (Structure C)) × ℕ
  unfolding prep_structure
  send_copies zero s made = ([], made)
  send_copies (suc left) s made =
      let (copy, made') = prep_structure s made in
      let (later, made'') = send_copies left s made' in (sent copy ∷ later, made'')

  -- The events, and the number of names that are made afterwards.
  unfoldable pub take_in : Structure C → ℕ → List (Event (Structure C)) × ℕ
  unfolding send_copies prep_structure
  take_in s made =
      let (copies, made') = send_copies (b.times - 1) s made in
      let (last, made'') = prep_structure s made' in (copies ++ sent last ∷ [], made'')
