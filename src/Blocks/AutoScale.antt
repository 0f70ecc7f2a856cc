-- ===== src/Blocks/AutoScale.antt =====
-- src/blocks/AutoScale.cpp: scales a structure to a share of the volume of its atoms, whose radii are
-- the means of half their known distances.
pub mod Sorted
pub mod Radii
pub mod Examples
use structure_pipe.Base.{
  ◌≡◌, Bool, true, false, Option, none, some, List, [], ◌∷◌, if◌then◌else◌, ltb, ◌==◌, Text,
}
use structure_pipe.Base.Assoc.{lookup, assign}
use structure_pipe.Pipe.{Event, sent}

-- `<` of `std::string`.
unfoldable pub text_lt : Text → Text → Bool
text_lt [] [] = false
text_lt [] (y ∷ ys) = true
text_lt (x ∷ xs) [] = false
text_lt (x ∷ xs) (y ∷ ys) = let later = text_lt xs ys in if x == y then later else ltb x y

-- `std::set<std::string>`, in its order.
unfoldable pub insert_text : Text → List Text → List Text
unfolding text_lt
insert_text x [] = x ∷ []
insert_text x (y ∷ ys) =
    let rest = insert_text x ys in
    if text_lt x y then x ∷ y ∷ ys else if text_lt y x then y ∷ rest else y ∷ ys

unfoldable pub unique_species : List Text → List Text → List Text
unfolding insert_text
unique_species [] set = set
unique_species (p ∷ ps) set = unique_species ps (insert_text p set)

-- What the block calls on `double` D, `RunningStats` R and spl's spheres.
pub record Spheres (D R : Type 0) : Type 0 where
  pub zero : D
  pub add : D → D → D
  pub div : D → D → D
  pub half : D → D
  pub volume : D → D
  pub no_stats : R
  pub insert : D → R → R
  pub mean : R → D

module _ {D R : Type 0} (k : Spheres D R) where
  -- `radii[specie].insert(0.5 * *dist)`
  unfoldable pub add_radius : Text → D → List (Text × R) → List (Text × R)
  unfolding lookup assign
  add_radius specie dist radii =
      let stats : R = elim (lookup specie radii) [ none ↦ k.no_stats | some r ↦ r ] in
      assign specie (k.insert (k.half dist) stats) radii

  -- `get_distance` is `getSpeciesPairDistance`.
  module _ (get_distance : Text → Text → Option D) where
    -- The body of the loops, for one specie and for two.
    unfoldable pub add_self : Text → List (Text × R) → List (Text × R)
    unfolding add_radius
    add_self x radii = elim (get_distance x x) [ none ↦ radii | some d ↦ add_radius x d radii ]

    unfoldable pub add_pair : Text → Text → List (Text × R) → List (Text × R)
    unfolding add_radius
    add_pair x y radii = elim (get_distance x y) [
      | none ↦ radii
      | some d ↦ add_radius y d (add_radius x d radii)
    ]

    -- The inner loop, behind its first round.
    unfoldable pub add_pairs : Text → List Text → List (Text × R) → List (Text × R)
    unfolding add_pair
    add_pairs x [] radii = radii
    add_pairs x (y ∷ ys) radii = add_pairs x ys (add_pair x y radii)

    -- The outer loop.
    unfoldable pub all_radii : List Text → List (Text × R) → List (Text × R)
    unfolding add_self add_pairs
    all_radii [] radii = radii
    all_radii (x ∷ xs) radii = all_radii xs (add_pairs x xs (add_self x radii))

    unfoldable pub add_volumes : List (Text × R) → List Text → D → D
    unfolding lookup
    add_volumes radii [] vol = vol
    add_volumes radii (p ∷ ps) vol =
        add_volumes radii ps
          (elim (lookup p radii) [ none ↦ vol | some stats ↦ k.add vol (k.volume (k.mean stats)) ])

    unfoldable pub natural_volume : List Text → D
    unfolding all_radii unique_species add_volumes
    natural_volume particles =
        add_volumes (all_radii (unique_species particles []) []) particles k.zero

    unfoldable pub take_in :
        {T U : Type 0}
        → (T → Option U)
        → (T → List Text)
        → (U → D)
        → (D → T → T)
        → D
        → T
        → T × List (Event T)
    unfolding natural_volume
    take_in {T = T} unit_cell atom_species volume scale packing_factor s0 =
        let s : T = elim (unit_cell s0) [
          | none ↦ s0
          | some cell ↦
              scale (k.div (k.div (natural_volume (atom_species s0)) packing_factor) (volume cell))
                s0
        ] in
        (s, sent s ∷ [])
