-- ===== src/Blocks/AutoScale/Examples.antt =====
-- Two species, of which A has a known distance to itself and to B.
use structure_pipe.Base.{
  ℕ, ◌+◌, ◌*◌, ◌/◌, ◌≡◌, refl, true, Option, none, some, List, [], ◌∷◌, if◌then◌else◌, ◌==◌, length,
  Text, text, text_eq, All, arith,
}
use structure_pipe.Base.Assoc.{lookup, assign}
use structure_pipe.Blocks.AutoScale.{
  Spheres, text_lt, insert_text, unique_species, add_radius, add_self, add_pair, add_pairs,
  all_radii, add_volumes, natural_volume,
}
use structure_pipe.Blocks.AutoScale.Sorted.{IsSorted, has}
use structure_pipe.Blocks.AutoScale.Radii.{sphere_volumes, natural_volume-sphere_volumes}

-- A sum and a number of values, and spheres with the volume of a cube.
abbrev spheres : Spheres ℕ (ℕ × ℕ)
spheres = record {
  zero = 0;
  add = λ a b. a + b;
  div = λ a b. a / b;
  half = λ a. a / 2;
  volume = λ r. r * r * r;
  no_stats = (0, 0);
  insert = λ d s. (s.0 + d, s.1 + 1);
  mean = λ s. s.0 / s.1;
}

-- The distance of two species by the sum of their lengths.
abbrev distances : Text → Text → Option ℕ
distances x y = if length x + length y == 4 then none else some ((length x + length y) * 2)

distances_symmetric : (x y : Text) → distances x y ≡ distances y x
distances_symmetric x y =
    let e : length x + length y ≡ length y + length x = omega arith in
    ap_sum (length x + length y) (length y + length x) e
  where
    ap_sum :
        (m n : ℕ)
        → m ≡ n
        → (if m == 4 then none else some (m * 2)) ≡ (if n == 4 then none else some (n * 2))
    ap_sum m n e = rw e refl

abbrev particles : List Text
particles = text "BB" ∷ text "A" ∷ text "BB" ∷ []

-- The radius of A is the mean of 2 and 3, rounded down, and that of BB is 3.
natural_volume_test : natural_volume spheres distances particles ≡ 27 + 8 + 27
unfolding natural_volume all_radii unique_species add_volumes add_self add_pairs add_pair add_radius
    insert_text text_lt lookup assign text_eq
natural_volume_test = refl

natural_volume-sphere_volumes_example :
    let us = unique_species particles [] in
    IsSorted us
    × All (λ p. has p us ≡ true) particles
    × (natural_volume spheres distances particles
        ≡ sphere_volumes spheres distances distances_symmetric us particles 0)
natural_volume-sphere_volumes_example =
    natural_volume-sphere_volumes spheres distances distances_symmetric particles
