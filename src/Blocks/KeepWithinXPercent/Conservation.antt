-- ===== src/Blocks/KeepWithinXPercent/Conservation.antt =====
-- The structures that KeepWithinXPercent, src/blocks/KeepWithinXPercent.cpp, holds, sends and
-- drops.
use mathlib.Core.Option
use mathlib.Core.List.{map-append, reverse_perm, perm_append_comm}
use mathlib.Core.List.Perm
use structure_pipe.Base.{
  ◌≡◌, sym, inl, inr, Option, none, some, List, [], ◌∷◌, ◌++◌, map, reverse, Bool-cases,
  Option-cases, append-nil, Perm, perm_of_eq, perm_middle, perm_exchange, subst,
}
use structure_pipe.Pipe.{Event, dropped, handled, Doubles, KeyOrder, StructureView}
use structure_pipe.Containers.Map.{assign, contents, contents-assign}
use structure_pipe.Containers.Multimap.{insert-perm}
use structure_pipe.Blocks.KeepTopN.{StructureOrder}
use structure_pipe.Blocks.KeepWithinXPercent.{
  KeepWithinXPercent, get_cutoff, erase_above, new_lowest, keep_in, order_of, local_value, take_in,
}

abbrev pub structures_of : {S D : Type 0} → StructureOrder S D → List S
structures_of = map (λ e. e.1)

-- The structures that the block holds, composition by composition.
pub held : {P S D K : Type 0} → KeepWithinXPercent P S D K → List S
held b = structures_of (contents b.structures)

-- What a call that may fault leaves and hands on is what was there before.
abbrev pub Conserves :
    {S D : Type 0} → List S → Option (StructureOrder S D × List (Event S)) → Type 0
Conserves before none = Unit
Conserves before (some q) = Perm (structures_of q.0 ++ handled q.1) before

module _ {S D : Type 0} (d : Doubles D) where
  erase_above-Conserves :
      (cutoff : D) (l : StructureOrder S D) → Conserves (structures_of l) (erase_above d cutoff l)
  unfolding erase_above
  erase_above-Conserves cutoff [] = tt
  erase_above-Conserves cutoff (e ∷ r) = elim (Bool-cases (d.lt cutoff e.0)) [
    | inl t ↦ rw t (later (erase_above d cutoff r) (erase_above-Conserves cutoff r))
    | inr t ↦ rw t (perm_of_eq (append-nil (structures_of (e ∷ r))))
  ]
    where
      later :
          (m : Option (StructureOrder S D × List (Event S)))
          → Conserves (structures_of r) m
          → Conserves (structures_of (e ∷ r)) (Option.map (λ q. (q.0, dropped e.1 ∷ q.1)) m)
      later none h = tt
      later (some q) h =
          Perm.trans (perm_middle (structures_of q.0) (handled q.1)) (Perm.cons e.1 h)

  Conserves-perm :
      {before after : List S} (m : Option (StructureOrder S D × List (Event S)))
      → Perm before after
      → Conserves before m
      → Conserves after m
  Conserves-perm none p h = tt
  Conserves-perm (some q) p h = Perm.trans h p

  reversed :
      (before : List S) (m : Option (StructureOrder S D × List (Event S)))
      → Conserves before m
      → Conserves before (Option.map (λ q. (reverse q.0, q.1)) m)
  reversed before none h = tt
  reversed before (some q) h =
      Perm.trans (Perm.append_right (handled q.1) (Perm.map (λ e. e.1) (reverse_perm q.0))) h

  new_lowest-Conserves :
      (percent : D) (e : D × S) (o : StructureOrder S D)
      → Conserves (structures_of (e ∷ o)) (new_lowest d percent e o)
  unfolding new_lowest
  new_lowest-Conserves percent e o =
      reversed (structures_of (e ∷ o)) (erase_above d _ (reverse (e ∷ o))) (
        Conserves-perm (erase_above d _ (reverse (e ∷ o)))
          (Perm.map (λ g. g.1) (reverse_perm (e ∷ o)))
          (erase_above-Conserves (get_cutoff d percent (e ∷ o)) (reverse (e ∷ o))))

  pub keep_in-Conserves :
      (percent : D) (e : D × S) (o : StructureOrder S D)
      → Conserves (e.1 ∷ structures_of o) (keep_in d percent e o)
  unfolding keep_in
  keep_in-Conserves percent e [] = Perm.refl _
  keep_in-Conserves percent e (f ∷ r) = elim (Bool-cases (d.lt e.0 f.0)) [
    | inl t ↦ rw t (new_lowest-Conserves percent e (f ∷ r))
    | inr t ↦ elim (Bool-cases (d.lt e.0 (get_cutoff d percent (f ∷ r)))) [
      | inl u ↦
          rw (t, u)
            (Perm.trans (perm_of_eq (append-nil _)) (Perm.map (λ g. g.1) (insert-perm d e (f ∷ r))))
      | inr u ↦ rw (t, u) (perm_append_comm (structures_of (f ∷ r)) (e.1 ∷ []))
    ]
  ]

abbrev Keeps :
    {P S D K : Type 0} → List S → Option (KeepWithinXPercent P S D K × List (Event S)) → Type 0
Keeps before none = Unit
Keeps before (some q) = Perm (held q.0 ++ handled q.1) before

module _ {P S D K : Type 0} (d : Doubles D) (k : KeyOrder K) (v : StructureView P S D K) where
  assigned :
      (b : KeepWithinXPercent P S D K) (x : S) (m : Option (StructureOrder S D × List (Event S)))
      → Conserves (x ∷ structures_of (order_of d k v (v.composition x) b)) m
      → Keeps (x ∷ held b) (
          Option.map
            (λ q. (record b { structures = assign k (v.composition x) q.0 b.structures }, q.1))
            m)
  unfolding order_of held
  assigned b x none h = tt
  assigned b x (some q) h =
      let c = v.composition x in
      let o = order_of d k v c b in
      perm_exchange x (structures_of o) (structures_of q.0) (structures_of (contents b.structures))
        (structures_of (contents (assign k c q.0 b.structures))) (handled q.1)
        (Perm.trans (perm_of_eq (sym (map-append (λ e. e.1) o _))) (
          Perm.trans (Perm.map (λ e. e.1) (contents-assign k c q.0 b.structures))
            (perm_of_eq (map-append (λ e. e.1) q.0 _))))
        h

  take_in-Keeps : (b : KeepWithinXPercent P S D K) (x : S) → Keeps (x ∷ held b) (take_in d k v b x)
  unfolding take_in
  take_in-Keeps b x = elim (Option-cases (v.find b.structure_property x)) [
    | inl e ↦ rw (e, take_in) (perm_append_comm (held b) (x ∷ []))
    | inr (value, e) ↦
        let energy = local_value d k v b x value in
        rw (e, take_in)
          (assigned b x (keep_in d b.keep_percent (energy, x) _)
            (keep_in-Conserves d b.keep_percent (energy, x) (order_of d k v (v.composition x) b)))
  ]

  -- A call of `in` that does not fault keeps, sends on or drops just the structure that came in
  -- and those that were held.
  pub take_in_perm :
      (b b' : KeepWithinXPercent P S D K) (x : S) (events : List (Event S))
      → take_in d k v b x ≡ some (b', events)
      → Perm (held b' ++ handled events) (x ∷ held b)
  take_in_perm b b' x events h = subst (Keeps (x ∷ held b)) h (take_in-Keeps b x)
