-- ===== src/Blocks/CutAndPaste.antt =====
-- src/blocks/CutAndPaste.cpp: takes the atoms in a shape out of a structure, and puts them back at
-- random points of the shape, away from the others.
pub mod Pasted
pub mod Examples
use structure_pipe.Base.{
  ℕ, zero, suc, ◌+◌, ◌≡◌, Bool, true, false, ◌&&◌, Option, none, some, List, [], ◌∷◌, ◌++◌,
  if◌then◌else◌, length, get_elem?,
}
use structure_pipe.Pipe.{Event, sent}
use structure_pipe.Blocks.Crystal.{Crystal}

pub record Settings : Type 0 where
  pub paste : Bool
  pub separate : Bool
  pub fix_untouched : Bool

abbrev pub default_settings : Settings
default_settings = record { paste = false; separate = true; fix_untouched = true }

-- P is a pair of species, D `double`, and DB a database of species.
pub record CutAndPaste (P D DB : Type 0) : Type 0 where
  pub settings : Settings
  pub pair_distances : List (P × D)
  pub species_db : DB

module _ {P D DB : Type 0} where
  unfoldable pub set_pair_distances : List (P × D) → CutAndPaste P D DB → CutAndPaste P D DB
  set_pair_distances distances b = record b { pair_distances = distances }

  -- `set_pair` is `setSpeciesPairDistance`.
  unfoldable pub set_all_pairs : (P → D → DB → DB) → List (P × D) → DB → DB
  set_all_pairs set_pair [] db = db
  set_all_pairs set_pair ((pair, distance) ∷ ds) db =
      set_all_pairs set_pair ds (set_pair pair distance db)

  unfoldable pub pipeline_initialised :
      (P → D → DB → DB) → DB → CutAndPaste P D DB → CutAndPaste P D DB
  unfolding set_all_pairs
  pipeline_initialised set_pair shared_db b = record b {
    species_db = set_all_pairs set_pair b.pair_distances shared_db;
  }

-- The numbers below n.
unfoldable pub points_below : ℕ → List ℕ
points_below zero = []
points_below (suc n) = points_below n ++ n ∷ []

module _ {T A X : Type 0} (k : Crystal T A X) where
  -- The loop over the atoms, with those that are left, the number of the iterator, and `cutAtoms`.
  unfoldable pub cut_from : (X → Bool) → ℕ → ℕ → T → List A → T × List A
  cut_from is_in_shape zero i s cut = (s, cut)
  cut_from is_in_shape (suc left) i s cut = elim (get_elem? (k.atoms s) i) [
    | none ↦ (s, cut)
    | some a ↦
        if is_in_shape (k.position a)
        then cut_from is_in_shape left i (k.erase_atom i s) (cut ++ a ∷ [])
        else cut_from is_in_shape left (i + 1) s cut
  ]

  unfoldable pub paste_all : {W : Type 0} → (W → X × W) → List A → T → W → T × W
  paste_all random_point [] s w = (s, w)
  paste_all random_point (a ∷ cut) s w =
      let (x, w') = random_point w in
      paste_all random_point cut (k.new_atom (k.set_position x a) s) w'

  -- `separate_points` gives the points of the atoms after `separatePoints`, with some of them fixed,
  -- and whether it succeeded.
  unfoldable pub separate_atoms :
      {P D DB : Type 0} → (DB → T → List ℕ → List X × Bool) → CutAndPaste P D DB → ℕ → T → T
  unfolding points_below
  separate_atoms separate_points b num_untouched s =
      let fixed = if b.settings.fix_untouched then points_below num_untouched else [] in
      k.set_atom_positions (separate_points b.species_db s fixed).0 s

  -- The shape has a test and random points, made from a state W.
  unfoldable pub take_in :
      {W P D DB : Type 0}
      → (X → Bool)
      → (W → X × W)
      → (DB → T → List ℕ → List X × Bool)
      → CutAndPaste P D DB
      → T
      → W
      → T × W × List (Event T)
  unfolding cut_from paste_all separate_atoms
  take_in {W = W} is_in_shape random_point separate_points b s0 w =
      let (s1, cut) = cut_from is_in_shape (length (k.atoms s0)) 0 s0 [] in
      let num_untouched = length (k.atoms s1) in
      let (s2, w') : T × W =
        if b.settings.paste then paste_all random_point cut s1 w else (s1, w) in
      let s3 =
        if b.settings.paste && b.settings.separate
        then separate_atoms separate_points b num_untouched s2
        else s2 in
      (s3, w', sent s3 ∷ [])
