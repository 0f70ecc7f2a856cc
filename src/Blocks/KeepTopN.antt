-- ===== src/Blocks/KeepTopN.antt =====
-- src/blocks/KeepTopN.cpp: a barrier that keeps the N structures of lowest value for each
-- composition. The value is a property of the structure, divided by the number of atoms if the
-- block is so configured.
pub mod Selection
pub mod Conservation
pub mod Examples
use structure_pipe.Base.{
  ℕ, ◌+◌, ◌≡◌, Bool, true, false, not, Option, none, some, List, [], ◌∷◌, ◌++◌, if◌then◌else◌, ltb,
  length, is_empty,
}
use structure_pipe.Pipe.{Event, sent, dropped, Doubles, KeyOrder, StructureView}
use structure_pipe.Containers.Map.{find_or, assign}
use structure_pipe.Containers.Multimap.{insert}

-- `StructureOrder` and `StructuresByComposition`.
abbrev pub StructureOrder : Type 0 → Type 0 → Type 0
StructureOrder S D = List (D × S)

pub record KeepTopN (P S D K : Type 0) : Type 0 where
  pub keep_top_n : ℕ
  pub structure_property : P
  pub use_per_atom : Bool
  pub structures : List (K × StructureOrder S D)

-- The last entry, `*order.rbegin()`, and the entries before it.
abbrev pub split_last : {A : Type 0} → A → List A → List A × A
split_last x [] = ([], x)
split_last x (y ∷ ys) = let (init, last) = split_last y ys in (x ∷ init, last)

module _ {P S D K : Type 0} (d : Doubles D) (k : KeyOrder K) (v : StructureView P S D K) where
  -- The order of a composition; `myStructures[composition]` makes an empty one.
  unfoldable pub order_of : K → KeepTopN P S D K → StructureOrder S D
  order_of c b = find_or k [] c b.structures

  -- The insertion into an order, and the removal of its last entry if there are too many.
  unfoldable pub trim : ℕ → StructureOrder S D → StructureOrder S D × List (Event S)
  trim n [] = ([], [])
  trim n (e ∷ r) =
      if ltb n (length (e ∷ r))
      then (let (init, last) = split_last e r in (init, dropped last.1 ∷ []))
      else (e ∷ r, [])

  unfoldable pub keep : KeepTopN P S D K → S → D → KeepTopN P S D K × List (Event S)
  unfolding order_of trim
  keep b structure energy =
      let composition = v.composition structure in
      let (order, events) =
        trim b.keep_top_n (insert d (energy, structure) (order_of composition b)) in
      (record b { structures = assign k composition order b.structures }, events)

  -- The value by which a structure is kept, if it has the property.
  unfoldable pub local_value : KeepTopN P S D K → S → D → D
  local_value b structure value =
      if b.use_per_atom then d.div value (d.of_count (v.num_atoms structure)) else value

  unfoldable pub take_in : KeepTopN P S D K → S → KeepTopN P S D K × List (Event S)
  unfolding keep local_value
  take_in b structure = elim (v.find b.structure_property structure) [
    | none ↦ (b, sent structure ∷ [])
    | some value ↦ keep b structure (local_value b structure value)
  ]

  -- A sequence of calls of `in`.
  unfoldable pub feed : KeepTopN P S D K → List S → KeepTopN P S D K × List (Event S)
  feed b [] = (b, [])
  feed b (x ∷ xs) =
      let (b', events) = take_in b x in let (b'', later) = feed b' xs in (b'', events ++ later)

-- `out` of each structure of an order, in order.
unfoldable pub send_order : {S D : Type 0} → StructureOrder S D → List (Event S)
send_order [] = []
send_order (e ∷ r) = sent e.1 ∷ send_order r

unfoldable pub send_orders : {S D K : Type 0} → List (K × StructureOrder S D) → List (Event S)
unfolding send_order
send_orders [] = []
send_orders (o ∷ os) = send_order o.1 ++ send_orders os

unfoldable pub count_orders : {S D K : Type 0} → List (K × StructureOrder S D) → ℕ
count_orders [] = 0
count_orders (o ∷ os) = length o.1 + count_orders os

module _ {P S D K : Type 0} where
  unfoldable pub release : KeepTopN P S D K → KeepTopN P S D K × List (Event S) × ℕ
  unfolding send_orders count_orders
  release b = (record b { structures = [] }, send_orders b.structures, count_orders b.structures)

  unfoldable pub has_data : KeepTopN P S D K → Bool
  has_data b = not (is_empty b.structures)
