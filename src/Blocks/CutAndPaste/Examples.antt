-- ===== src/Blocks/CutAndPaste/Examples.antt =====
-- A square of numbers: an atom is a species and a position, and the shape has the numbers below 3.
use structure_pipe.Base.{
  ℕ, suc, ◌+◌, ◌≡◌, refl, ap, ◌⊎◌, Bool, true, not, ◌&&◌, List, [], ◌∷◌, ◌++◌, map, if◌then◌else◌,
  length, take, drop, ltb, Text, text,
}
use structure_pipe.Pipe.{sent}
use structure_pipe.Blocks.Crystal.{Crystal, moved, IsSequence}
use structure_pipe.Blocks.CutAndPaste.{CutAndPaste, default_settings, take_in}
use structure_pipe.Blocks.CutAndPaste.Pasted.{outside, inside, Fixes, take_in-species}

abbrev Atom : Type 0
Atom = Text × ℕ

abbrev move_all : List ℕ → List Atom → List Atom
move_all [] bs = bs
move_all (x ∷ xs) [] = []
move_all (x ∷ xs) ((species, old) ∷ bs) = (species, x) ∷ move_all xs bs

abbrev atom_lists : Crystal (List Atom) Atom ℕ
atom_lists = record {
  atoms = λ s. s;
  erase_atom = λ i s. take i s ++ drop (suc i) s;
  new_atom = λ a s. s ++ a ∷ [];
  set_atom_positions = move_all;
  position = λ a. a.1;
  set_position = λ x a. (a.0, x);
  species = λ a. a.0;
}

move_all-moved : (xs : List ℕ) (s : List Atom) → move_all xs s ≡ moved atom_lists xs s
move_all-moved [] s = refl
move_all-moved (x ∷ xs) [] = refl
move_all-moved (x ∷ xs) (a ∷ s) = ap (◌∷◌ (a.0, x)) (move_all-moved xs s)

atom_lists-IsSequence : IsSequence atom_lists
atom_lists-IsSequence = record {
  atoms-erase = λ i s. refl;
  atoms-new = λ a s. refl;
  atoms-moved = move_all-moved;
  species-moved = λ x a. refl;
  same_place = λ a. refl;
}

-- A separation that moves nothing.
abbrev stay : ℕ → List Atom → List ℕ → List ℕ × Bool
stay db s fixed = (map (λ (a : Atom). a.1) s, true)

stay-Fixes : Fixes atom_lists atom_lists-IsSequence stay
stay-Fixes db s fixed i h = refl

abbrev next_point : ℕ → ℕ × ℕ
next_point w = (w + 1, w + 1)

abbrev block : CutAndPaste ℕ ℕ ℕ
block = record {
  settings = record default_settings { paste = true };
  pair_distances = [];
  species_db = 0;
}

abbrev three_atoms : List Atom
three_atoms = (text "A", 1) ∷ (text "B", 5) ∷ (text "C", 2) ∷ []

abbrev is_small : ℕ → Bool
is_small x = ltb x 3

take_in-species_example :
    let st = block.settings in
    let (s', w', events) = take_in atom_lists is_small next_point stay block three_atoms 7 in
    let out_atoms = outside atom_lists atom_lists-IsSequence is_small three_atoms in
    let in_atoms = inside atom_lists atom_lists-IsSequence is_small three_atoms in
    (events ≡ sent s' ∷ [])
    × (map (λ (a : Atom). a.0) s'
        ≡ map (λ (a : Atom). a.0) out_atoms
          ++ (if st.paste then map (λ (a : Atom). a.0) in_atoms else []))
    × ((((st.paste && st.separate) && not st.fix_untouched) ≡ true)
        ⊎ (take (length out_atoms) s' ≡ out_atoms))
take_in-species_example =
    take_in-species atom_lists atom_lists-IsSequence is_small next_point stay stay-Fixes block
      three_atoms 7
