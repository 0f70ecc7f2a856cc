-- ===== src/Blocks/KeepWithinXPercent/Examples.antt =====
-- KeepWithinXPercent on a few structures.
use structure_pipe.Containers.Map.{find_or, assign, same}
use structure_pipe.Base.{ℕ, ◌≡◌, refl, false, none, some, [], ◌∷◌, ◌++◌, Perm, keep_if, reverse}
use structure_pipe.Pipe.{dropped, handled}
use structure_pipe.Pipe.Samples.{
  positive, positive-IsOrdered, negative, negative-IsOrdered, number_keys, pair_view,
}
use structure_pipe.Blocks.KeepTopN.{StructureOrder}
use structure_pipe.Blocks.KeepWithinXPercent.{
  KeepWithinXPercent, get_cutoff, new_lowest, keep_in, take_in, keep, erase_above, order_of,
  local_value,
}
use structure_pipe.Blocks.KeepWithinXPercent.Erasing.{above, within, drops, new_lowest-keep_if}
use structure_pipe.Blocks.KeepWithinXPercent.Faults.{keep_in_faults}
use structure_pipe.Blocks.KeepWithinXPercent.Conservation.{held, take_in_perm}

abbrev order : StructureOrder ℕ ℕ
order = (95, 1) ∷ (80, 2) ∷ []

new_lowest-keep_if_example :
    let cutoff = get_cutoff negative 1 ((100, 3) ∷ order) in
    new_lowest negative 1 (100, 3) order
    ≡ some (
      (100, 3) ∷ keep_if (within negative cutoff) order,
      drops negative (reverse (keep_if (above negative cutoff) order)),
    )
new_lowest-keep_if_example =
    new_lowest-keep_if negative negative-IsOrdered 1 (100, 3) order
      ((refl, (refl, tt)), ((refl, tt), (tt, tt))) (unfold get_cutoff in refl)

keep_in_faults_example : keep_in {S = ℕ} positive 1 (20, 3) ((30, 1) ∷ []) ≡ none
keep_in_faults_example =
    keep_in_faults positive positive-IsOrdered 1 (20, 3) (30, 1) [] (tt, tt) refl refl

abbrev window_block : KeepWithinXPercent ℕ (ℕ × ℕ) ℕ ℕ
window_block = record {
  keep_percent = 1;
  structure_property = 0;
  use_per_atom = false;
  structures = (1, (95, (1, 95)) ∷ (88, (1, 88)) ∷ []) ∷ [];
}

abbrev lower_block : KeepWithinXPercent ℕ (ℕ × ℕ) ℕ ℕ
lower_block = record window_block { structures = (1, (100, (1, 100)) ∷ (95, (1, 95)) ∷ []) ∷ [] }

lower_step :
    take_in negative number_keys pair_view window_block (1, 100)
    ≡ some (lower_block, dropped (1, 88) ∷ [])
unfolding take_in keep keep_in new_lowest erase_above get_cutoff order_of local_value find_or assign
    same
lower_step = refl

take_in_perm_example :
    Perm (held lower_block ++ handled (dropped (1, 88) ∷ [])) ((1, 100) ∷ held window_block)
take_in_perm_example =
    take_in_perm negative number_keys pair_view window_block lower_block (1, 100)
      (dropped (1, 88) ∷ []) lower_step
