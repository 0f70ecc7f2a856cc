-- ===== src/Blocks/KeepWithinXPercent/Faults.antt =====
-- The start of the order in the erasing loop of `newLowest`, src/blocks/KeepWithinXPercent.cpp.
use mathlib.Core.Option
use structure_pipe.Base.{
  ◌≡◌, refl, ap, inl, inr, true, false, none, [], ◌∷◌, reverse, Bool-cases, All, All-mono,
}
use structure_pipe.Pipe.{Doubles, IsOrdered}
use structure_pipe.Containers.Multimap.{IsSorted}
use structure_pipe.Blocks.KeepTopN.{StructureOrder}
use structure_pipe.Blocks.KeepWithinXPercent.{get_cutoff, erase_above, new_lowest, keep_in}
use structure_pipe.Blocks.KeepWithinXPercent.Erasing.{reverse-All}

module _ {S D : Type 0} (d : Doubles D) where
  erase_above_faults :
      (cutoff : D) (l : StructureOrder S D)
      → All (λ f. d.lt cutoff f.0 ≡ true) l
      → erase_above d cutoff l ≡ none
  unfolding erase_above
  erase_above_faults cutoff [] h = refl
  erase_above_faults cutoff (e ∷ r) h = rw (h.0, erase_above_faults cutoff r h.1) refl

module _ {D : Type 0} (d : Doubles D) (laws : IsOrdered d) where
  lt_of_lt_of_le : (a b c : D) → d.lt a b ≡ true → d.lt c b ≡ false → d.lt a c ≡ true
  lt_of_lt_of_le a b c h k = elim (Bool-cases (d.lt a c)) [
    | inl t ↦ t
    | inr t ↦ absurd (cc (laws.lt_negtrans a c b t k))
  ]

module _ {S D : Type 0} (d : Doubles D) (laws : IsOrdered d) where
  -- For a value lower than the lowest of its composition, in a sorted order, that lies above its
  -- own cutoff, `keep` erases the whole order and reads past its start.
  pub keep_in_faults :
      (percent : D) (e f : D × S) (r : StructureOrder S D)
      → IsSorted d (f ∷ r)
      → d.lt e.0 f.0 ≡ true
      → d.lt (d.mul e.0 (d.sub d.one percent)) e.0 ≡ true
      → keep_in d percent e (f ∷ r) ≡ none
  unfolding keep_in new_lowest get_cutoff
  keep_in_faults percent e f r s t high =
      let c = d.mul e.0 (d.sub d.one percent) in
      let below : All (λ g. d.lt g.0 e.0 ≡ false) (f ∷ r) = (
        laws.lt_asymm _ _ t,
        All-mono (λ g h. laws.lt_negtrans _ f.0 _ h (laws.lt_asymm _ _ t)) r s.0,
      ) in
      let all : All (λ g. d.lt c g.0 ≡ true) (e ∷ f ∷ r) =
        (high, All-mono (λ g h. lt_of_lt_of_le d laws c e.0 g.0 high h) (f ∷ r) below) in
      rw t (
        ap (Option.map (λ q. (reverse q.0, q.1)))
          (erase_above_faults d c (reverse (e ∷ f ∷ r)) (reverse-All d _ (e ∷ f ∷ r) all)))
