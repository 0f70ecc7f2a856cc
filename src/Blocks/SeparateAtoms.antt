-- ===== src/Blocks/SeparateAtoms.antt =====
-- src/blocks/SeparateAtoms.cpp, and the blocks that only work on the unit cell of a structure:
-- src/blocks/Rescale.cpp, src/blocks/NiggliReduce.cpp and src/blocks/FindSymmetryGroup.cpp.
use structure_pipe.Base.{ℕ, Bool, Option, none, some, List, [], ◌∷◌, if◌then◌else◌, Text}
use structure_pipe.Pipe.{Event, sent, Doubles}
use structure_pipe.Blocks.Crystal.{Crystal}

-- P is a pair of species, D `double`, and DB a database of species.
pub record SeparateAtoms (P D DB : Type 0) : Type 0 where
  pub pair_distances : List (P × D)
  pub species_db : DB

module _ {P D DB : Type 0} where
  unfoldable pub set_pair_distances : List (P × D) → SeparateAtoms P D DB → SeparateAtoms P D DB
  set_pair_distances distances b = record b { pair_distances = distances }

  -- `set_pair` is `setSpeciesPairDistance`.
  unfoldable pub set_pairs : (P → D → DB → DB) → List (P × D) → DB → DB
  set_pairs set_pair [] db = db
  set_pairs set_pair ((pair, distance) ∷ ds) db = set_pairs set_pair ds (set_pair pair distance db)

  unfoldable pub pipeline_initialised :
      (P → D → DB → DB) → DB → SeparateAtoms P D DB → SeparateAtoms P D DB
  unfolding set_pairs
  pipeline_initialised set_pair shared_db b = record b {
    species_db = set_pairs set_pair b.pair_distances shared_db;
  }

  -- `separate_points` gives the points after `separatePoints`, and whether it succeeded.
  unfoldable pub take_in :
      {T A X : Type 0}
      → Crystal T A X
      → (DB → T → List X × Bool)
      → SeparateAtoms P D DB
      → T
      → T × List (Event T)
  take_in k separate_points b s0 =
      let (points, success) = separate_points b.species_db s0 in
      let s = if success then k.set_atom_positions points s0 else s0 in (s, sent s ∷ [])

-- `unit_cell` is `getUnitCell`, which may be null.
module _ {T U : Type 0} (unit_cell : T → Option U) where
  -- `Rescale::in`, with what spl gives for the natural volume of the composition.
  unfoldable pub rescale :
      {D : Type 0} → Doubles D → (T → D) → (U → D) → (D → T → T) → D → T → T × List (Event T)
  rescale d natural_volume volume scale factor s0 =
      let s : T = elim (unit_cell s0) [
        | none ↦ s0
        | some cell ↦ scale (d.div (d.mul factor (natural_volume s0)) (volume cell)) s0
      ] in
      (s, sent s ∷ [])

  -- `NiggliReduce::in`, which reduces the cell of the structure in its place.
  unfoldable pub niggli_reduce : (U → U) → (U → T → T) → T → T × List (Event T)
  niggli_reduce reduce set_cell s0 =
      let s : T = elim (unit_cell s0) [ none ↦ s0 | some cell ↦ set_cell (reduce cell) s0 ] in
      (s, sent s ∷ [])

  -- `FindSymmetryGroup::in`, with the number and the symbol that spl gives.
  unfoldable pub find_symmetry_group :
      (T → ℕ × Text) → (ℕ → T → T) → (Text → T → T) → T → T × List (Event T)
  find_symmetry_group spacegroup_info set_number set_symbol s0 =
      let s : T = elim (unit_cell s0) [
        | none ↦ s0
        | some cell ↦
            let (number, symbol) = spacegroup_info s0 in set_symbol symbol (set_number number s0)
      ] in
      (s, sent s ∷ [])
