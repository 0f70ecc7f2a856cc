-- ===== src/Blocks/KeepWithinXPercent/Window.antt =====
-- What KeepWithinXPercent keeps of the structures of one composition.
use mathlib.Core.Option
use mathlib.Core.List.Perm
use structure_pipe.Base.{◌≡◌, false, Option, none, some, List, [], ◌∷◌, ◌++◌, All, map, Perm}
use structure_pipe.Pipe.{Event, Doubles, IsOrdered}
use structure_pipe.Containers.Multimap.{IsSorted}
use structure_pipe.Blocks.KeepTopN.{StructureOrder}
use structure_pipe.Blocks.KeepWithinXPercent.{get_cutoff, keep_in}

module _ {S D : Type 0} (d : Doubles D) where
  -- The order of a composition, and the structures of it that were dropped, given the value of
  -- each structure: the entries are sorted, none is above the cutoff, and no dropped structure
  -- is below it.
  pub record IsWindow (percent : D) (energy : S → D) (order : StructureOrder S D) (gone : List S)
      : Type 0 where
    pub sorted : IsSorted d order
    pub keyed : All (λ f. f.0 ≡ energy f.1) order
    pub inside : All (λ f. d.lt (get_cutoff d percent order) f.0 ≡ false) order
    pub outside : All (λ x. d.lt (energy x) (get_cutoff d percent order) ≡ false) gone
    pub started : order ≡ [] → gone ≡ []

  -- A sequence of `keep` for the structures of one composition.
  pub feed_in :
      D → (S → D) → StructureOrder S D → List S → Option (StructureOrder S D × List (Event S))
  feed_in percent energy order [] = some (order, [])
  feed_in percent energy order (x ∷ xs) = elim (keep_in d percent (energy x, x) order) [
    | none ↦ none
    | some (order', events) ↦
        Option.map (λ q. (q.0, events ++ q.1)) (feed_in percent energy order' xs)
  ]

module _ {S D : Type 0} (d : Doubles D) (laws : IsOrdered d) (percent : D) (energy : S → D)
    (cut_mono : (a b : D)
      → d.lt b a ≡ false
      → d.lt (d.mul b (d.sub d.one percent)) (d.mul a (d.sub d.one percent)) ≡ false) where
  abbrev cut : D → D
  cut a = d.mul a (d.sub d.one percent)
