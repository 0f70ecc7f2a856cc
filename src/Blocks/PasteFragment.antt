-- ===== src/Blocks/PasteFragment.antt =====
-- src/blocks/PasteFragment.cpp: puts the atoms of a fragment, moved by a transformation, into a
-- structure.
use structure_pipe.Base.{
  ◌≡◌, refl, sym, ap, ◌∙◌, Bool, Option, none, some, List, [], ◌∷◌, ◌++◌, map, if◌then◌else◌,
  length, ◌==◌, append_assoc, append-nil, arith, true, false,
}
use structure_pipe.Pipe.{Event, sent}
use structure_pipe.Blocks.Crystal.{Crystal, IsSequence}

pub record PasteFragment (Loc M T : Type 0) : Type 0 where
  pub fragment_loc : Loc
  pub transform : M
  pub fragment : T

-- The constructors: the place, the transformation and the structure that they are not given are
-- empty, the identity and a new one.
module _ {Loc M T : Type 0} (no_loc : Loc) (identity : M) (new_structure : T) where
  unfoldable pub from_loc : Loc → Option M → PasteFragment Loc M T
  from_loc loc transform = record {
    fragment_loc = loc;
    transform = elim transform [ none ↦ identity | some m ↦ m ];
    fragment = new_structure;
  }

  unfoldable pub from_fragment : T → Option M → PasteFragment Loc M T
  from_fragment fragment transform = record {
    fragment_loc = no_loc;
    transform = elim transform [ none ↦ identity | some m ↦ m ];
    fragment = fragment;
  }

-- `read_structure` is `readStructure`.
unfoldable pub pipeline_initialising :
    {Loc M T : Type 0}
    → (Loc → Bool)
    → (Loc → Option T)
    → PasteFragment Loc M T
    → PasteFragment Loc M T
pipeline_initialising is_no_loc read_structure b =
    if is_no_loc b.fragment_loc
    then b
    else elim (read_structure b.fragment_loc) [ none ↦ b | some s ↦ record b { fragment = s } ]

module _ {T A X M : Type 0} (k : Crystal T A X) (transform_copy : X → M → X) where
  -- A new atom whose position is set is the atom at that position.
  unfoldable pub add_atoms : M → List A → T → T
  add_atoms m [] s = s
  add_atoms m (a ∷ atoms) s =
      add_atoms m atoms (k.new_atom (k.set_position (transform_copy (k.position a) m) a) s)

  unfoldable pub take_in : {Loc : Type 0} → PasteFragment Loc M T → T → T × List (Event T)
  unfolding add_atoms
  take_in b s0 =
      let s : T =
        if length (k.atoms b.fragment) == 0
        then s0
        else add_atoms b.transform (k.atoms b.fragment) s0 in
      (s, sent s ∷ [])

  module _ (laws : IsSequence k) where
    add_atoms-append :
        (m : M) (atoms : List A) (s : T)
        → k.atoms (add_atoms m atoms s)
          ≡ k.atoms s ++ map (λ a. k.set_position (transform_copy (k.position a) m) a) atoms
    unfolding add_atoms
    add_atoms-append m [] s = sym (append-nil (k.atoms s))
    add_atoms-append m (a ∷ atoms) s =
        let b = k.set_position (transform_copy (k.position a) m) a in
        add_atoms-append m atoms (k.new_atom b s)
        ∙ ap (λ q. q ++ map (λ a. k.set_position (transform_copy (k.position a) m) a) atoms)
            (laws.atoms-new b s)
        ∙ append_assoc (k.atoms s) (b ∷ []) _

    guarded_add_atoms :
        (m : M) (atoms : List A) (s : T)
        → k.atoms (if length atoms == 0 then s else add_atoms m atoms s)
          ≡ k.atoms s ++ map (λ a. k.set_position (transform_copy (k.position a) m) a) atoms
    guarded_add_atoms m [] s = sym (append-nil (k.atoms s))
    guarded_add_atoms m (a ∷ atoms) s = ground (arith, add_atoms-append m (a ∷ atoms) s)

    -- After the pipe is initialised, `in` adds behind the atoms of a structure those of the fragment
    -- that was read, each at its transformed position; if the block has no place to read from, or
    -- reading fails, they are those of the fragment that it had.
    pub take_in-pipeline_initialising :
        {Loc : Type 0} (is_no_loc : Loc → Bool) (read_structure : Loc → Option T)
        (b : PasteFragment Loc M T) (s : T)
        → let (s', events) = take_in (pipeline_initialising is_no_loc read_structure b) s in
          let fragment : T =
            if is_no_loc b.fragment_loc
            then b.fragment
            else elim (read_structure b.fragment_loc) [ none ↦ b.fragment | some r ↦ r ] in
          (events ≡ sent s' ∷ [])
          × (k.atoms s'
              ≡ k.atoms s
                ++ map
                    (λ a. k.set_position (transform_copy (k.position a) b.transform) a)
                    (k.atoms fragment))
    unfolding take_in pipeline_initialising
    take_in-pipeline_initialising {Loc = Loc} is_no_loc read_structure b s =
        let b1 = pipeline_initialising is_no_loc read_structure b in
        let read = with_fragment (is_no_loc b.fragment_loc) (read_structure b.fragment_loc) in
        (
          refl,
          guarded_add_atoms b1.transform (k.atoms b1.fragment) s
              ∙ ap
                  (λ (q : PasteFragment Loc M T).
                    k.atoms s
                    ++ map (λ a. k.set_position (transform_copy (k.position a) q.transform) a)
                        (k.atoms q.fragment))
                  read,
        )
      where
        with_fragment :
            (none_set : Bool) (found : Option T)
            → (if none_set then b else elim found [ none ↦ b | some r ↦ record b { fragment = r } ])
              ≡ record b {
                fragment =
                    if none_set then b.fragment else elim found [ none ↦ b.fragment | some r ↦ r ];
              }
        with_fragment true found = refl
        with_fragment false none = refl
        with_fragment false (some r) = refl
