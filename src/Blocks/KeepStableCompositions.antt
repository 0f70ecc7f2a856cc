-- ===== src/Blocks/KeepStableCompositions.antt =====
-- src/blocks/KeepStableCompositions.cpp: a barrier that lets the structures on the convex hull
-- through. It is compiled only with CGAL.
pub mod Protocol
pub mod Examples
use structure_pipe.Base.{
  ℕ, zero, suc, ◌+◌, ◌≡◌, Bool, true, false, not, Option, none, some, List, [], ◌∷◌, ◌++◌,
  if◌then◌else◌, ltb, ◌==◌, length, is_empty,
}
use structure_pipe.Pipe.{Event, sent, dropped}

-- The address of a structure.
abbrev pub Pointer : Type 0
Pointer = ℕ

-- `ConvexHullStructures` of spl: the labels of the end points of some structures, their hull, the
-- number of stable structures of a hull, and whether a structure is stable.
pub record Hulls (H : Type 0) : Type 0 where
  pub num_endpoints : List Pointer → ℕ
  pub new_hull : List Pointer → H
  pub num_stable : H → ℕ
  pub is_stable : H → Pointer → Bool

-- `structure_store` has the pointers of the set in its order; `outputter` is whether there is one,
-- and `plotted` are the hulls that it was given.
pub record KeepStableCompositions (H : Type 0) : Type 0 where
  pub write_hull : Bool
  pub outputter : Bool
  pub plotted : List H
  pub structure_store : List Pointer
  pub convex_hull_structures : Option H

unfoldable pub new_keep_stable : {H : Type 0} → Bool → KeepStableCompositions H
new_keep_stable write_hull = record {
  write_hull = write_hull;
  outputter = false;
  plotted = [];
  structure_store = [];
  convex_hull_structures = none;
}

-- `std::set::insert`
unfoldable pub insert_pointer : Pointer → List Pointer → List Pointer
insert_pointer x [] = x ∷ []
insert_pointer x (y ∷ ys) =
    let rest = insert_pointer x ys in
    if ltb x y then x ∷ y ∷ ys else if x == y then y ∷ ys else y ∷ rest

unfoldable pub send_store : List Pointer → List (Event Pointer)
send_store [] = []
send_store (s ∷ ss) = sent s ∷ send_store ss

module _ {H : Type 0} where
  unfoldable pub pipeline_initialised : KeepStableCompositions H → KeepStableCompositions H
  pipeline_initialised b = if b.write_hull then record b { outputter = true } else b

  unfoldable pub take_in : Pointer → KeepStableCompositions H → KeepStableCompositions H
  unfolding insert_pointer
  take_in s b = record b {
    structure_store = insert_pointer s b.structure_store;
    convex_hull_structures = none;
  }

  unfoldable pub pipeline_finishing : KeepStableCompositions H → KeepStableCompositions H
  pipeline_finishing b = record b { structure_store = []; convex_hull_structures = none }

module _ {H : Type 0} (k : Hulls H) where
  -- The loop over the store: the calls, and how many structures are stable.
  unfoldable pub release_stable : H → List Pointer → List (Event Pointer) × ℕ
  release_stable h [] = ([], 0)
  release_stable h (s ∷ ss) =
      let (events, num_stable) = release_stable h ss in
      if k.is_stable h s
      then (sent s ∷ events, num_stable + 1)
      else (dropped s ∷ events, num_stable)

  unfoldable pub release :
      KeepStableCompositions H → KeepStableCompositions H × List (Event Pointer) × ℕ
  unfolding release_stable send_store
  release b = elim b.convex_hull_structures [
    | none ↦
        (record b { structure_store = [] }, send_store b.structure_store, length b.structure_store)
    | some h ↦
        let (events, num_stable) = release_stable h b.structure_store in
        if k.num_stable h == 0 then (b, [], 0) else (
          record b {
            plotted = if b.outputter then b.plotted ++ h ∷ [] else b.plotted;
            structure_store = [];
          },
          events,
          num_stable,
        )
  ]

  -- `hasData`, which also makes the hull.
  unfoldable pub has_data : KeepStableCompositions H → KeepStableCompositions H × Bool
  has_data b =
      let h = k.new_hull b.structure_store in
      if is_empty b.structure_store
      then (b, false)
      else if ltb (k.num_endpoints b.structure_store) 2
      then (b, true)
      else (record b { convex_hull_structures = some h }, not (k.num_stable h == 0))
