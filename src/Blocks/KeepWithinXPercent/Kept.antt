-- ===== src/Blocks/KeepWithinXPercent/Kept.antt =====
-- The structures that a sequence of `keep`, src/blocks/KeepWithinXPercent.cpp, holds and drops.
use mathlib.Core.Option
use mathlib.Core.List.{perm_append_comm}
use mathlib.Core.List.Perm
use structure_pipe.Base.{
  ◌≡◌, refl, sym, ap, inl, inr, Option, none, some, List, [], ◌∷◌, ◌++◌, reverse, Bool-cases,
  append_assoc, Perm, perm_of_eq, perm_middle, subst,
}
use structure_pipe.Pipe.{Event, dropped, dropped_of, handled, Doubles}
use structure_pipe.Blocks.KeepTopN.{StructureOrder}
use structure_pipe.Blocks.KeepWithinXPercent.{get_cutoff, erase_above, new_lowest, keep_in}
use structure_pipe.Blocks.KeepWithinXPercent.Conservation.{
  structures_of, Conserves, keep_in-Conserves,
}

-- What a call that may fault hands on is dropped, none of it is sent.
abbrev OnlyDrops : {S D : Type 0} → Option (StructureOrder S D × List (Event S)) → Type 0
OnlyDrops none = Unit
OnlyDrops (some q) = handled q.1 ≡ dropped_of q.1

module _ {S D : Type 0} (d : Doubles D) where
  erase_above-OnlyDrops : (cutoff : D) (l : StructureOrder S D) → OnlyDrops (erase_above d cutoff l)
  unfolding erase_above
  erase_above-OnlyDrops cutoff [] = tt
  erase_above-OnlyDrops cutoff (e ∷ r) = elim (Bool-cases (d.lt cutoff e.0)) [
    | inl t ↦ rw t (later (erase_above d cutoff r) (erase_above-OnlyDrops cutoff r))
    | inr t ↦ rw t refl
  ]
    where
      later :
          (m : Option (StructureOrder S D × List (Event S)))
          → OnlyDrops m
          → OnlyDrops (Option.map (λ q. (q.0, dropped e.1 ∷ q.1)) m)
      later none h = tt
      later (some q) h = ap (◌∷◌ e.1) h

  reversed :
      (m : Option (StructureOrder S D × List (Event S)))
      → OnlyDrops m
      → OnlyDrops (Option.map (λ q. (reverse q.0, q.1)) m)
  reversed none h = tt
  reversed (some q) h = h

  keep_in-OnlyDrops :
      (percent : D) (e : D × S) (o : StructureOrder S D) → OnlyDrops (keep_in d percent e o)
  unfolding keep_in new_lowest
  keep_in-OnlyDrops percent e [] = refl
  keep_in-OnlyDrops percent e (f ∷ r) = elim (Bool-cases (d.lt e.0 f.0)) [
    | inl t ↦ rw t (reversed (erase_above d _ (reverse (e ∷ f ∷ r))) (erase_above-OnlyDrops _ _))
    | inr t ↦ elim (Bool-cases (d.lt e.0 (get_cutoff d percent (f ∷ r)))) [
      | inl u ↦ rw (t, u) refl
      | inr u ↦ rw (t, u) refl
    ]
  ]

  pub keep_in-kept :
      (percent : D) (e : D × S) (o : StructureOrder S D) (q : StructureOrder S D × List (Event S))
      → keep_in d percent e o ≡ some q
      → Perm (structures_of q.0 ++ dropped_of q.1) (e.1 ∷ structures_of o)
  keep_in-kept percent e o q h =
      let drops : handled q.1 ≡ dropped_of q.1 =
        subst OnlyDrops h (keep_in-OnlyDrops percent e o) in
      subst (λ l. Perm (structures_of q.0 ++ l) (e.1 ∷ structures_of o)) drops
        (subst (Conserves (e.1 ∷ structures_of o)) h (keep_in-Conserves d percent e o))

-- One structure more, when what was kept and dropped before it is known.
pub kept_later :
    {A : Type 0} (x : A) (xs before between after a b : List A)
    → Perm (between ++ a) (x ∷ before)
    → Perm (after ++ b) (xs ++ between)
    → Perm (after ++ (a ++ b)) (x ∷ (xs ++ before))
kept_later x xs before between after a b h g =
    Perm.trans (Perm.append_left after (perm_append_comm a b)) (
      Perm.trans (perm_of_eq (sym (append_assoc after b a))) (
        Perm.trans (Perm.append_right a g) (
          Perm.trans (perm_of_eq (append_assoc xs between a))
            (Perm.trans (Perm.append_left xs h) (perm_middle xs before)))))
