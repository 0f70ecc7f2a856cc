-- ===== src/Blocks/Crystal.antt =====
-- What the blocks of src/blocks that move atoms use of `Structure` and `Atom` of spl.
use structure_pipe.Base.{ℕ, suc, ◌≡◌, List, [], ◌∷◌, ◌++◌, take, drop, Text}

-- T is a structure, A an atom and X a position. An atom is erased by its number in the order of the
-- iterators, a new atom comes last, and `set_atom_positions` takes one position for each atom.
pub record Crystal (T A X : Type 0) : Type 0 where
  pub atoms : T → List A
  pub erase_atom : ℕ → T → T
  pub new_atom : A → T → T
  pub set_atom_positions : List X → T → T
  pub position : A → X
  pub set_position : X → A → A
  pub species : A → Text

-- Atoms at new positions; those without one stay.
abbrev pub moved : {T A X : Type 0} → Crystal T A X → List X → List A → List A
moved k [] atoms = atoms
moved k (x ∷ xs) [] = []
moved k (x ∷ xs) (a ∷ atoms) = k.set_position x a ∷ moved k xs atoms

-- The atoms are a sequence, and a position is a part of an atom.
pub record IsSequence {T A X : Type 0} (k : Crystal T A X) : Type 0 where
  pub atoms-erase :
      (i : ℕ) (s : T) → k.atoms (k.erase_atom i s) ≡ take i (k.atoms s) ++ drop (suc i) (k.atoms s)
  pub atoms-new : (a : A) (s : T) → k.atoms (k.new_atom a s) ≡ k.atoms s ++ a ∷ []
  pub atoms-moved :
      (xs : List X) (s : T) → k.atoms (k.set_atom_positions xs s) ≡ moved k xs (k.atoms s)
  pub species-moved : (x : X) (a : A) → k.species (k.set_position x a) ≡ k.species a
  pub same_place : (a : A) → k.set_position (k.position a) a ≡ a
