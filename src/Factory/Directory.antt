-- ===== src/Factory/Directory.antt =====
-- The directory of a new loader, by the kinds of blocks.
use structure_pipe.Base.{
  ◌≡◌, refl, Bool, true, false, not, ◌||◌, Option, none, some, [], Text, text, text_eq,
  if◌then◌else◌,
}
use structure_pipe.Base.Assoc.{lookup}
use structure_pipe.Loader.{register_creator}
use structure_pipe.Factory.{
  Schema, auto_scale_schema, build_structures_schema, clone_schema, cut_and_paste_schema,
  find_symmetry_group_schema, geom_optimise_schema, keep_stable_compositions_schema,
  keep_top_n_schema, keep_within_x_percent_schema, load_structures_schema, paste_fragment_schema,
  niggli_reduce_schema, remove_duplicates_schema, rescale_schema, run_potential_params_queue_schema,
  search_stoichiometries_schema, separate_atoms_schema, write_structures_schema, registered,
  factory_creator, register_all, new_block_loader,
}

-- The word by which the settings name a kind of block.
abbrev pub name_of : Schema → Text
name_of auto_scale_schema = text "autoScale"
name_of build_structures_schema = text "generateStructures"
name_of clone_schema = text "clone"
name_of cut_and_paste_schema = text "cutAndPaste"
name_of find_symmetry_group_schema = text "findSymmetry"
name_of geom_optimise_schema = text "geomOptimise"
name_of keep_stable_compositions_schema = text "keepStableCompositions"
name_of keep_top_n_schema = text "keepTopN"
name_of keep_within_x_percent_schema = text "keepWithinXPercent"
name_of load_structures_schema = text "loadStructures"
name_of paste_fragment_schema = text "pasteFragment"
name_of niggli_reduce_schema = text "niggliReduce"
name_of remove_duplicates_schema = text "removeDuplicates"
name_of rescale_schema = text "rescale"
name_of run_potential_params_queue_schema = text "runPotentialParamsQueue"
name_of search_stoichiometries_schema = text "searchStoichiometries"
name_of separate_atoms_schema = text "separateAtoms"
name_of write_structures_schema = text "writeStructures"

abbrev pub needs_cgal : Schema → Bool
needs_cgal auto_scale_schema = false
needs_cgal build_structures_schema = false
needs_cgal clone_schema = false
needs_cgal cut_and_paste_schema = false
needs_cgal find_symmetry_group_schema = false
needs_cgal geom_optimise_schema = false
needs_cgal keep_stable_compositions_schema = true
needs_cgal keep_top_n_schema = false
needs_cgal keep_within_x_percent_schema = false
needs_cgal load_structures_schema = false
needs_cgal paste_fragment_schema = false
needs_cgal niggli_reduce_schema = false
needs_cgal remove_duplicates_schema = false
needs_cgal rescale_schema = false
needs_cgal run_potential_params_queue_schema = false
needs_cgal search_stoichiometries_schema = false
needs_cgal separate_atoms_schema = false
needs_cgal write_structures_schema = false

module _ {Node Block : Type 0} (create : Schema → Node → Option Block × Bool) where
  -- A new loader has no blocks, and has for each kind of block, under its own name, the creator
  -- that makes that kind: no name stands for two kinds. Only the kind that needs CGAL is missing
  -- in a build without it.
  pub new_block_loader-lookup :
      (cgal : Bool) (s : Schema)
      → ((new_block_loader create cgal).blocks ≡ [])
        × (lookup (name_of s) (new_block_loader create cgal).blocks_directory
            ≡ (if cgal || not (needs_cgal s) then some (factory_creator create s) else none))
  unfolding new_block_loader register_all registered register_creator lookup text_eq
  new_block_loader-lookup true auto_scale_schema = (refl, refl)
  new_block_loader-lookup true build_structures_schema = (refl, refl)
  new_block_loader-lookup true clone_schema = (refl, refl)
  new_block_loader-lookup true cut_and_paste_schema = (refl, refl)
  new_block_loader-lookup true find_symmetry_group_schema = (refl, refl)
  new_block_loader-lookup true geom_optimise_schema = (refl, refl)
  new_block_loader-lookup true keep_stable_compositions_schema = (refl, refl)
  new_block_loader-lookup true keep_top_n_schema = (refl, refl)
  new_block_loader-lookup true keep_within_x_percent_schema = (refl, refl)
  new_block_loader-lookup true load_structures_schema = (refl, refl)
  new_block_loader-lookup true paste_fragment_schema = (refl, refl)
  new_block_loader-lookup true niggli_reduce_schema = (refl, refl)
  new_block_loader-lookup true remove_duplicates_schema = (refl, refl)
  new_block_loader-lookup true rescale_schema = (refl, refl)
  new_block_loader-lookup true run_potential_params_queue_schema = (refl, refl)
  new_block_loader-lookup true search_stoichiometries_schema = (refl, refl)
  new_block_loader-lookup true separate_atoms_schema = (refl, refl)
  new_block_loader-lookup true write_structures_schema = (refl, refl)
  new_block_loader-lookup false auto_scale_schema = (refl, refl)
  new_block_loader-lookup false build_structures_schema = (refl, refl)
  new_block_loader-lookup false clone_schema = (refl, refl)
  new_block_loader-lookup false cut_and_paste_schema = (refl, refl)
  new_block_loader-lookup false find_symmetry_group_schema = (refl, refl)
  new_block_loader-lookup false geom_optimise_schema = (refl, refl)
  new_block_loader-lookup false keep_stable_compositions_schema = (refl, refl)
  new_block_loader-lookup false keep_top_n_schema = (refl, refl)
  new_block_loader-lookup false keep_within_x_percent_schema = (refl, refl)
  new_block_loader-lookup false load_structures_schema = (refl, refl)
  new_block_loader-lookup false paste_fragment_schema = (refl, refl)
  new_block_loader-lookup false niggli_reduce_schema = (refl, refl)
  new_block_loader-lookup false remove_duplicates_schema = (refl, refl)
  new_block_loader-lookup false rescale_schema = (refl, refl)
  new_block_loader-lookup false run_potential_params_queue_schema = (refl, refl)
  new_block_loader-lookup false search_stoichiometries_schema = (refl, refl)
  new_block_loader-lookup false separate_atoms_schema = (refl, refl)
  new_block_loader-lookup false write_structures_schema = (refl, refl)
