-- ===== src/Blocks/RemoveDuplicates/Conservation.antt =====
-- The structures that RemoveDuplicates, src/blocks/RemoveDuplicates.cpp, holds, sends and drops.
use structure_pipe.Base.{
  ◌≡◌, refl, ap, sym, ◌∙◌, inl, inr, List, [], ◌∷◌, ◌++◌, map, append-nil, Bool-cases, Perm,
  perm_of_eq, perm_middle,
}
use structure_pipe.Pipe.{sent, handled}
use structure_pipe.Pipe.Barrier.{Barrier, Call, arrivals, run, run-release_perm}
use structure_pipe.Blocks.RemoveDuplicates.{
  Pointer, StructureSets, RemoveDuplicates, take_in, send_all, release,
}
use mathlib.Core.List.{perm_append_comm}
use mathlib.Core.List.Perm

pub send_all-map : (xs : List Pointer) → send_all xs ≡ map sent xs
unfolding send_all
send_all-map [] = refl
send_all-map (x ∷ xs) = ap (◌∷◌ (sent x)) (send_all-map xs)

module _ (k : StructureSets) where
  open k use {insert, members, insert_new, insert_old, members_empty}

  unfoldable pub held : RemoveDuplicates k → List Pointer
  held b = members b.structure_set

  pub take_in_perm :
      (b : RemoveDuplicates k) (x : Pointer)
      → Perm (held (take_in k b x).0 ++ handled (take_in k b x).1) (x ∷ held b)
  unfolding take_in held
  take_in_perm b x = elim (Bool-cases (insert x b.structure_set).2) [
    | inl new ↦
        let (before, after, e, f) = insert_new x b.structure_set new in
        rw (new, take_in)
          (Perm.trans (perm_of_eq (append-nil _ ∙ f))
            (Perm.trans (perm_middle before after) (perm_of_eq (ap (◌∷◌ x) (sym e)))))
    | inr old ↦
        let (before, after, e, f) = insert_old x b.structure_set old in
        rw (old, take_in)
          (Perm.trans (perm_of_eq (ap (λ q. q ++ x ∷ []) f))
            (perm_append_comm (members b.structure_set) (x ∷ [])))
  ]

  pub release_sends : (b : RemoveDuplicates k) → (release k b).1 ≡ map sent (held b)
  unfolding release held
  release_sends b = send_all-map (members b.structure_set)

  pub release_empties : (b : RemoveDuplicates k) → held (release k b).0 ≡ []
  unfolding release held
  release_empties b = members_empty

  abbrev pub remove_duplicates_barrier : Barrier Pointer
  remove_duplicates_barrier = record {
    State = RemoveDuplicates k;
    take_in = take_in k;
    release = release k;
    held = held;
    take_in_perm = take_in_perm;
    release_sends = release_sends;
    release_empties = release_empties;
  }

  -- Whatever sequence of `in` and `release` is called on a block that holds nothing, and a
  -- `release` after it: every structure that came in was sent on or dropped, as often as it came in.
  pub remove_duplicates-conserves :
      (b : RemoveDuplicates k) (cs : List (Call Pointer))
      → held b ≡ []
      → let after = run remove_duplicates_barrier b cs in
        Perm (handled after.1 ++ handled (release k after.0).1) (arrivals cs)
  remove_duplicates-conserves b cs h =
      Perm.trans (run-release_perm remove_duplicates_barrier b cs)
        (perm_of_eq (ap (λ xs. arrivals cs ++ xs) h ∙ append-nil (arrivals cs)))
