-- ===== src/Blocks/KeepWithinXPercent.antt =====
-- src/blocks/KeepWithinXPercent.cpp: a barrier that keeps, for each composition, the structures
-- whose value lies below a cutoff that follows from the lowest value seen.
pub mod Erasing
pub mod Window
pub mod Faults
pub mod Conservation
pub mod Kept
pub mod Examples
use structure_pipe.Base.{
  ℕ, suc, ◌+◌, ◌≡◌, ◌∙◌, Bool, true, false, not, Option, none, some, List, [], ◌∷◌, ◌++◌, reverse,
  if◌then◌else◌, length, is_empty,
}
use mathlib.Core.Option
use structure_pipe.Pipe.{Event, sent, dropped, Doubles, KeyOrder, StructureView}
use structure_pipe.Containers.Map.{find_or, assign}
use structure_pipe.Containers.Multimap.{insert}
use structure_pipe.Blocks.KeepTopN.{StructureOrder, split_last, send_orders, count_orders}

pub record KeepWithinXPercent (P S D K : Type 0) : Type 0 where
  pub keep_percent : D
  pub structure_property : P
  pub use_per_atom : Bool
  pub structures : List (K × StructureOrder S D)

module _ {S D : Type 0} (d : Doubles D) where
  unfoldable pub get_cutoff : D → StructureOrder S D → D
  get_cutoff percent [] = d.max
  get_cutoff percent (e ∷ r) = d.mul e.0 (d.sub d.one percent)

  -- The loop of `newLowest` that erases from the end, over the entries in reverse. `none` is
  -- `rbegin()` of an empty order, which is undefined behaviour: the loop has no test for it.
  unfoldable pub erase_above : D → StructureOrder S D → Option (StructureOrder S D × List (Event S))
  erase_above cutoff [] = none
  erase_above cutoff (e ∷ r) =
      let rest = Option.map (λ q. (q.0, dropped e.1 ∷ q.1)) (erase_above cutoff r) in
      if d.lt cutoff e.0 then rest else some (e ∷ r, [])

  unfoldable pub new_lowest :
      D → D × S → StructureOrder S D → Option (StructureOrder S D × List (Event S))
  unfolding erase_above
  new_lowest percent e order =
      Option.map (λ q. (reverse q.0, q.1))
        (erase_above (get_cutoff percent (e ∷ order)) (reverse (e ∷ order)))

  -- What `keep` does to the order of the structure's composition.
  unfoldable pub keep_in :
      D → D × S → StructureOrder S D → Option (StructureOrder S D × List (Event S))
  keep_in percent e [] = some (e ∷ [], [])
  keep_in percent e (f ∷ r) =
      if d.lt e.0 f.0
      then new_lowest percent e (f ∷ r)
      else if d.lt e.0 (get_cutoff percent (f ∷ r))
      then some (insert d e (f ∷ r), [])
      else some (f ∷ r, dropped e.1 ∷ [])

module _ {P S D K : Type 0} (d : Doubles D) (k : KeyOrder K) (v : StructureView P S D K) where
  unfoldable pub order_of : K → KeepWithinXPercent P S D K → StructureOrder S D
  order_of c b = find_or k [] c b.structures

  unfoldable pub keep :
      KeepWithinXPercent P S D K → S → D → Option (KeepWithinXPercent P S D K × List (Event S))
  unfolding order_of keep_in
  keep b structure energy =
      let composition = v.composition structure in
      Option.map (λ q. (record b { structures = assign k composition q.0 b.structures }, q.1))
        (keep_in d b.keep_percent (energy, structure) (order_of composition b))

  unfoldable pub local_value : KeepWithinXPercent P S D K → S → D → D
  local_value b structure value =
      if b.use_per_atom then d.div value (d.of_count (v.num_atoms structure)) else value

  unfoldable pub take_in :
      KeepWithinXPercent P S D K → S → Option (KeepWithinXPercent P S D K × List (Event S))
  unfolding keep local_value
  take_in b structure = elim (v.find b.structure_property structure) [
    | none ↦ some (b, sent structure ∷ [])
    | some value ↦ keep b structure (local_value b structure value)
  ]

module _ {P S D K : Type 0} where
  unfoldable pub release :
      KeepWithinXPercent P S D K → KeepWithinXPercent P S D K × List (Event S) × ℕ
  release b = (record b { structures = [] }, send_orders b.structures, count_orders b.structures)

  unfoldable pub has_data : KeepWithinXPercent P S D K → Bool
  has_data b = not (is_empty b.structures)
