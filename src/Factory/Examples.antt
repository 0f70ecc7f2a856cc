-- ===== src/Factory/Examples.antt =====
-- A factory over numbers.
use structure_pipe.Base.{ℕ, ◌≡◌, false, none, some}
use structure_pipe.Factory.{Types, SplFactory, create_block, remove_duplicates}
use structure_pipe.Factory.Created.{is_some, create_block-has_parts}

abbrev numbers : Types
numbers = record {
  Number = ℕ;
  GeneratorOptions = ℕ;
  Generator = ℕ;
  ShapeOptions = ℕ;
  Shape = ℕ;
  PairDistances = ℕ;
  OptimiserOptions = ℕ;
  Optimiser = ℕ;
  OptimiserSettings = ℕ;
  OptimisationSettings = ℕ;
  Locator = ℕ;
  ComparatorOptions = ℕ;
  Comparator = ℕ;
  Ranges = ℕ;
  Handle = ℕ;
}

-- It has no comparators.
abbrev spl_factory : SplFactory numbers
spl_factory = record {
  create_structure_generator = λ n. some n;
  create_shape = λ n. some n;
  create_geometry_optimiser = λ n. some n;
  create_optimisation_settings = λ n. n;
  create_structure_comparator = λ n. none;
}

create_block-has_parts_example :
    (is_some (create_block numbers spl_factory (remove_duplicates 3)).0 ≡ false)
    × ((create_block numbers spl_factory (remove_duplicates 3)).1 ≡ false)
create_block-has_parts_example = create_block-has_parts numbers spl_factory (remove_duplicates 3)
