-- ===== src/Factory/Created.antt =====
-- The return values and handles of `createBlock`, src/factory/BlockFactory.cpp.
use structure_pipe.Base.{◌≡◌, refl, Bool, true, false, not, ◌&&◌, Option, none, some}
use structure_pipe.Factory.{
  Types, Options, NewBlock, SplFactory, from_part, create_block, auto_scale, build_structures,
  clone, cut_and_paste, find_symmetry_group, geom_optimise, keep_stable_compositions, keep_top_n,
  keep_within_x_percent, load_structures, niggli_reduce, paste_fragment, remove_duplicates, rescale,
  run_potential_params_queue, search_stoichiometries, separate_atoms, write_structures,
}

abbrev pub is_some : {A : Type 0} → Option A → Bool
is_some none = false
is_some (some a) = true

module _ (k : Types) (f : SplFactory k) where
  -- Whether spl and the settings give what the block is made of.
  abbrev pub has_parts : Options k → Bool
  has_parts (build_structures num generator) = is_some (f.create_structure_generator generator)
  has_parts (cut_and_paste shape paste separate fix distances) = is_some (f.create_shape shape)
  has_parts (geom_optimise optimiser settings summary fail tag) =
      is_some (f.create_geometry_optimiser optimiser)
  has_parts (remove_duplicates comparator) = is_some (f.create_structure_comparator comparator)
  has_parts (run_potential_params_queue queue_file done_file tag pipe) = is_some pipe
  has_parts (search_stoichiometries ranges separate pipe) = is_some pipe
  has_parts _ = true

  abbrev pub is_keep_within : Options k → Bool
  is_keep_within (keep_within_x_percent percent) = true
  is_keep_within _ = false

  created_by_part :
      {A : Type 0} (o : Option A) (g : A → NewBlock k)
      → (is_some (from_part k o g).0 ≡ is_some o) × ((from_part k o g).1 ≡ is_some o && true)
  unfolding from_part
  created_by_part none g = (refl, refl)
  created_by_part (some a) g = (refl, refl)

  -- For each kind of options a block is created just if its parts can be had, and `createBlock`
  -- returns whether it was created, except that it returns `false` for KeepWithinXPercent, whose
  -- block is created.
  pub create_block-has_parts :
      (o : Options k)
      → (is_some (create_block k f o).0 ≡ has_parts o)
        × ((create_block k f o).1 ≡ has_parts o && not (is_keep_within o))
  unfolding create_block
  create_block-has_parts (auto_scale factor) = (refl, refl)
  create_block-has_parts (build_structures num generator) =
      created_by_part (f.create_structure_generator generator) _
  create_block-has_parts (clone times unique) = (refl, refl)
  create_block-has_parts (cut_and_paste shape paste separate fix distances) =
      created_by_part (f.create_shape shape) _
  create_block-has_parts find_symmetry_group = (refl, refl)
  create_block-has_parts (geom_optimise optimiser settings summary fail tag) =
      created_by_part (f.create_geometry_optimiser optimiser) _
  create_block-has_parts (keep_stable_compositions write_hull) = (refl, refl)
  create_block-has_parts (keep_top_n num) = (refl, refl)
  create_block-has_parts (keep_within_x_percent percent) = (refl, refl)
  create_block-has_parts (load_structures to_load) = (refl, refl)
  create_block-has_parts niggli_reduce = (refl, refl)
  create_block-has_parts (paste_fragment fragment) = (refl, refl)
  create_block-has_parts (remove_duplicates comparator) =
      created_by_part (f.create_structure_comparator comparator) _
  create_block-has_parts (rescale factor) = (refl, refl)
  create_block-has_parts (run_potential_params_queue queue_file done_file tag pipe) =
      created_by_part pipe _
  create_block-has_parts (search_stoichiometries ranges separate pipe) = created_by_part pipe _
  create_block-has_parts (separate_atoms distances fail) = (refl, refl)
  create_block-has_parts (write_structures format multi) = (refl, refl)
