-- ===== src/Factory.antt =====
-- src/factory/BlockFactory.cpp, the options of include/spipe/factory/YamlSchema.h, the names that
-- the constructor of src/build/BlockLoader.cpp registers, and src/factory/PipeEngineFactory.cpp.
pub mod Created
pub mod Directory
pub mod Examples
use structure_pipe.Base.{
  ℕ, ◌≡◌, Bool, true, false, Option, none, some, List, [], ◌∷◌, ◌++◌, if◌then◌else◌, Text, text,
}
use structure_pipe.Base.Assoc.{lookup}
use structure_pipe.Loader.{BlockLoader, Creator, register_creator}

pub data FailAction : Type 0 where
  drop_structure : FailAction
  continue_pipe : FailAction

-- The types of spl and of the blocks that the factory only passes on.
pub record Types : Type 1 where
  pub Number : Type 0
  pub GeneratorOptions : Type 0
  pub Generator : Type 0
  pub ShapeOptions : Type 0
  pub Shape : Type 0
  pub PairDistances : Type 0
  pub OptimiserOptions : Type 0
  pub Optimiser : Type 0
  pub OptimiserSettings : Type 0
  pub OptimisationSettings : Type 0
  pub Locator : Type 0
  pub ComparatorOptions : Type 0
  pub Comparator : Type 0
  pub Ranges : Type 0
  pub Handle : Type 0

module _ (k : Types) where
  open k use {
    Number, GeneratorOptions, Generator, ShapeOptions, Shape, PairDistances, OptimiserOptions,
    Optimiser, OptimiserSettings, OptimisationSettings, Locator, ComparatorOptions, Comparator,
    Ranges, Handle,
  }

  -- What a block is made from: a structure of options for each kind of block.
  pub data Options : Type 0 where
    auto_scale : Option Number → Options
    build_structures : ℕ → GeneratorOptions → Options
    clone : ℕ → Option Bool → Options
    cut_and_paste : ShapeOptions → Bool → Bool → Bool → Option PairDistances → Options
    find_symmetry_group : Options
    geom_optimise : OptimiserOptions → OptimiserSettings → Bool → FailAction → Option Text → Options
    keep_stable_compositions : Bool → Options
    keep_top_n : ℕ → Options
    keep_within_x_percent : Number → Options
    load_structures : Text → Options
    niggli_reduce : Options
    paste_fragment : Locator → Options
    remove_duplicates : ComparatorOptions → Options
    rescale : Number → Options
    run_potential_params_queue : Text → Text → Text → Option Handle → Options
    search_stoichiometries : Ranges → Bool → Option Handle → Options
    separate_atoms : Option PairDistances → FailAction → Options
    write_structures : Text → Bool → Options

  -- A new block, with what its constructor and its setters are given.
  pub data NewBlock : Type 0 where
    new_auto_scale : Option Number → NewBlock
    new_build_structures : ℕ → Generator → NewBlock
    new_clone : ℕ → Option Bool → NewBlock
    new_cut_and_paste : Shape → Bool → Bool → Bool → Option PairDistances → NewBlock
    new_find_symmetry_group : NewBlock
    new_geom_optimise :
        Optimiser → OptimisationSettings → Bool → FailAction → Option Text → NewBlock
    new_keep_stable_compositions : Bool → NewBlock
    new_keep_top_n : ℕ → NewBlock
    new_keep_within_x_percent : Number → NewBlock
    new_load_structures : Text → NewBlock
    new_niggli_reduce : NewBlock
    new_paste_fragment : Locator → NewBlock
    new_remove_duplicates : Comparator → NewBlock
    new_rescale : Number → NewBlock
    new_run_potential_params_queue : Text → Text → Text → Handle → NewBlock
    new_search_stoichiometries : Ranges → Bool → Handle → NewBlock
    new_separate_atoms : Option PairDistances → NewBlock
    new_write_structures : Text → Bool → NewBlock

  -- `mySplFactory`, which returns a null pointer where it cannot create.
  pub record SplFactory : Type 0 where
    pub create_structure_generator : GeneratorOptions → Option Generator
    pub create_shape : ShapeOptions → Option Shape
    pub create_geometry_optimiser : OptimiserOptions → Option Optimiser
    pub create_optimisation_settings : OptimiserSettings → OptimisationSettings
    pub create_structure_comparator : ComparatorOptions → Option Comparator

  -- A handle that is filled from something that may be missing, and whether it was.
  unfoldable pub from_part : {A : Type 0} → Option A → (A → NewBlock) → Option NewBlock × Bool
  from_part none f = (none, false)
  from_part (some a) f = (some (f a), true)

  -- `createBlock` for each kind of options: what the handle holds, and what is returned.
  unfoldable pub create_block : SplFactory → Options → Option NewBlock × Bool
  unfolding from_part
  create_block f (auto_scale factor) = (some (new_auto_scale factor), true)
  create_block f (build_structures num generator) =
      from_part (f.create_structure_generator generator) (λ g. new_build_structures num g)
  create_block f (clone times unique) = (some (new_clone times unique), true)
  create_block f (cut_and_paste shape paste separate fix distances) =
      from_part (f.create_shape shape) (λ s. new_cut_and_paste s paste separate fix distances)
  create_block f find_symmetry_group = (some new_find_symmetry_group, true)
  create_block f (geom_optimise optimiser settings summary fail tag) =
      from_part (f.create_geometry_optimiser optimiser)
        (λ o. new_geom_optimise o (f.create_optimisation_settings settings) summary fail tag)
  create_block f (keep_stable_compositions write_hull) =
      (some (new_keep_stable_compositions write_hull), true)
  create_block f (keep_top_n num) = (some (new_keep_top_n num), true)
  create_block f (keep_within_x_percent percent) = (some (new_keep_within_x_percent percent), false)
  create_block f (load_structures to_load) = (some (new_load_structures to_load), true)
  create_block f niggli_reduce = (some new_niggli_reduce, true)
  create_block f (paste_fragment fragment) = (some (new_paste_fragment fragment), true)
  create_block f (remove_duplicates comparator) =
      from_part (f.create_structure_comparator comparator) (λ c. new_remove_duplicates c)
  create_block f (rescale factor) = (some (new_rescale factor), true)
  create_block f (run_potential_params_queue queue_file done_file tag pipe) =
      from_part pipe (λ p. new_run_potential_params_queue tag queue_file done_file p)
  create_block f (search_stoichiometries ranges separate pipe) =
      from_part pipe (λ p. new_search_stoichiometries ranges separate p)
  create_block f (separate_atoms distances fail) = (some (new_separate_atoms distances), true)
  create_block f (write_structures format multi) = (some (new_write_structures format multi), true)

-- The kinds of blocks, by their schemas.
pub data Schema : Type 0 where
  auto_scale_schema : Schema
  build_structures_schema : Schema
  clone_schema : Schema
  cut_and_paste_schema : Schema
  find_symmetry_group_schema : Schema
  geom_optimise_schema : Schema
  keep_stable_compositions_schema : Schema
  keep_top_n_schema : Schema
  keep_within_x_percent_schema : Schema
  load_structures_schema : Schema
  paste_fragment_schema : Schema
  niggli_reduce_schema : Schema
  remove_duplicates_schema : Schema
  rescale_schema : Schema
  run_potential_params_queue_schema : Schema
  search_stoichiometries_schema : Schema
  separate_atoms_schema : Schema
  write_structures_schema : Schema

-- The names that the constructor registers, in order, with and without CGAL.
unfoldable pub registered : Bool → List (Text × Schema)
registered cgal =
    ((text "autoScale", auto_scale_schema)
      ∷ (text "generateStructures", build_structures_schema)
      ∷ (text "clone", clone_schema)
      ∷ (text "cutAndPaste", cut_and_paste_schema)
      ∷ (text "findSymmetry", find_symmetry_group_schema)
      ∷ (text "geomOptimise", geom_optimise_schema)
      ∷ [])
    ++ ((if cgal then (text "keepStableCompositions", keep_stable_compositions_schema) ∷ [] else [])
        ++ ((text "keepTopN", keep_top_n_schema)
            ∷ (text "keepWithinXPercent", keep_within_x_percent_schema)
            ∷ (text "loadStructures", load_structures_schema)
            ∷ (text "pasteFragment", paste_fragment_schema)
            ∷ (text "niggliReduce", niggli_reduce_schema)
            ∷ (text "removeDuplicates", remove_duplicates_schema)
            ∷ (text "rescale", rescale_schema)
            ∷ (text "runPotentialParamsQueue", run_potential_params_queue_schema)
            ∷ (text "searchStoichiometries", search_stoichiometries_schema)
            ∷ (text "separateAtoms", separate_atoms_schema)
            ∷ (text "writeStructures", write_structures_schema)
            ∷ []))

-- `FactoryBlockCreator::createBlock`: what is returned by the factory is ignored.
module _ {Node Block : Type 0} (create : Schema → Node → Option Block × Bool) where
  unfoldable pub factory_creator : Schema → Creator Node Block
  factory_creator schema node = (create schema node).0

  unfoldable pub register_all :
      List (Text × Schema) → BlockLoader Node Block → BlockLoader Node Block
  unfolding factory_creator register_creator
  register_all [] l = l
  register_all ((name, schema) ∷ es) l =
      register_all es (register_creator name (factory_creator schema) l)

  -- The constructor.
  unfoldable pub new_block_loader : Bool → BlockLoader Node Block
  unfolding register_all registered
  new_block_loader cgal =
      register_all (registered cgal) (record { blocks_directory = []; blocks = [] })

-- `createEngine`: the serial engine, if it is in the settings, before the one with threads, which
-- there is only in a build with Boost.Thread.
pub data NewEngine : Type 0 where
  new_serial_engine : NewEngine
  new_boost_thread_engine : ℕ → NewEngine

pub record EngineOptions : Type 0 where
  pub serial_engine : Bool
  pub boost_thread_engine : Option ℕ

unfoldable pub create_engine : Bool → EngineOptions → Option NewEngine
create_engine threads o =
    if o.serial_engine
    then some new_serial_engine
    else if threads
    then elim o.boost_thread_engine [ none ↦ none | some n ↦ some (new_boost_thread_engine n) ]
    else none
