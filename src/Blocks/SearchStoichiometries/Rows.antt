-- ===== src/Blocks/SearchStoichiometries/Rows.antt =====
-- The rows of the table that the runs fill.
use structure_pipe.Base.{
  ℕ, ◌+◌, ◌≡◌, refl, sym, ap, ◌∙◌, Bool, true, false, Option, none, some, List, [], ◌∷◌, ◌++◌,
  if◌then◌else◌, ◌==◌, get_or, Text, text, text_eq, is_empty, decimal, subst,
}
use structure_pipe.Pipe.{Doubles}
use structure_pipe.Table.{Listener, Listened}
use structure_pipe.Table.Valid.{IsValid}
use structure_pipe.Table.Cells.{cell}
use structure_pipe.Support.{put}
use structure_pipe.Support.Row.{written_last, put_all, put_all-append, cell-put_all}
use structure_pipe.Blocks.SearchStoichiometries.{
  CountRange, Options, StructureReads, Sweep, update_table, tabulate, sweep_one,
}
use structure_pipe.Blocks.SearchStoichiometries.Visits.{
  run_of, run_result, tabulate_all, sweep_one-run_of,
}

-- The count of each species, in the column of its symbol, or of its number if it has none.
abbrev pub species_cells : ℕ → List ℕ → List (Text × CountRange) → List (Text × Text)
species_cells i idx [] = []
species_cells i idx ((symbol, range) ∷ rs) =
    (if is_empty symbol then decimal i else symbol, decimal (get_or idx i 0))
    ∷ species_cells (i + 1) idx rs

module _ {S D : Type 0} (d : Doubles D) (reads : StructureReads S D) (to_string : D → Text) where
  abbrev pub path_cells : Text → List (Text × Text)
  path_cells path = if is_empty path then [] else (text "lowest", path) ∷ []

  abbrev pub spacegroup_cells : Option ℕ → List (Text × Text)
  spacegroup_cells none = []
  spacegroup_cells (some sg) = (text "sg", decimal sg) ∷ []

  abbrev pub energy_cells : ℕ → Option D → List (Text × Text)
  energy_cells n none = []
  energy_cells n (some e) =
      if n == 0 then [] else (text "energy/atom", to_string (d.div e (d.of_count n))) ∷ []

  -- What a structure has of a path, a space group, and an energy with atoms to divide it by.
  abbrev pub structure_cells : S → List (Text × Text)
  structure_cells s =
      path_cells (reads.path s)
      ++ (spacegroup_cells (reads.spacegroup s)
          ++ energy_cells (reads.num_atoms s) (reads.energy s))

  abbrev pub all_cells : List S → List (Text × Text)
  all_cells [] = []
  all_cells (s ∷ ss) = structure_cells s ++ all_cells ss

module _ {L : Type 0} (k : Listener L) (row_first : Bool) (key : Text) where
  abbrev filled : List (Text × Text) → Listened L → Listened L
  filled = put_all k row_first decimal key

  update_table-put_all :
      (i : ℕ) (idx : List ℕ) (rs : List (Text × CountRange)) (t : Listened L)
      → update_table k row_first key i idx rs t ≡ filled (species_cells i idx rs) t
  unfolding update_table put_all
  update_table-put_all i idx [] t = refl
  update_table-put_all i idx ((symbol, range) ∷ rs) t = update_table-put_all (i + 1) idx rs _

  module _ {S D : Type 0} (d : Doubles D) (reads : StructureReads S D) (to_string : D → Text) where
    tabulate-put_all :
        (s : S) (t : Listened L)
        → tabulate d reads to_string k row_first key s t
          ≡ filled (structure_cells d reads to_string s) t
    unfolding tabulate put_all
    tabulate-put_all s t =
        let t1 = filled (path_cells d reads to_string (reads.path s)) t in
        ap
          (λ q.
            with_energy (reads.num_atoms s) (reads.energy s) (with_group (reads.spacegroup s) q))
          (if_filled (is_empty (reads.path s)) (text "lowest") (reads.path s) t)
        ∙ ap (with_energy (reads.num_atoms s) (reads.energy s)) (by_group (reads.spacegroup s) t1)
        ∙ by_energy (reads.num_atoms s) (reads.energy s) _
        ∙ sym (
            put_all-append k row_first decimal key (path_cells d reads to_string (reads.path s)) _ t
            ∙ put_all-append k row_first decimal key
                (spacegroup_cells d reads to_string (reads.spacegroup s)) _ t1)
      where
        here : Text → Text → Listened L → Listened L
        here column value q = put k row_first decimal key column value q

        with_group : Option ℕ → Listened L → Listened L
        with_group o q = elim o [ none ↦ q | some sg ↦ here (text "sg") (decimal sg) q ]

        with_energy : ℕ → Option D → Listened L → Listened L
        with_energy n o q = elim o [
          | none ↦ q
          | some e ↦
              if n == 0 then q else here (text "energy/atom") (to_string (d.div e (d.of_count n))) q
        ]

        if_filled :
            (b : Bool) (column value : Text) (q : Listened L)
            → (if b then q else here column value q)
              ≡ filled (if b then [] else (column, value) ∷ []) q
        if_filled true column value q = refl
        if_filled false column value q = refl

        by_group :
            (o : Option ℕ) (q : Listened L)
            → with_group o q ≡ filled (spacegroup_cells d reads to_string o) q
        by_group none q = refl
        by_group (some sg) q = refl

        by_energy :
            (n : ℕ) (o : Option D) (q : Listened L)
            → with_energy n o q ≡ filled (energy_cells d reads to_string n o) q
        by_energy n none q = refl
        by_energy n (some e) q =
            if_filled (n == 0) (text "energy/atom") (to_string (d.div e (d.of_count n))) q

    tabulate_all-put_all :
        (ss : List S) (t : Listened L)
        → tabulate_all d reads to_string k row_first key ss t
          ≡ filled (all_cells d reads to_string ss) t
    unfolding tabulate_all put_all
    tabulate_all-put_all [] t = refl
    tabulate_all-put_all (s ∷ ss) t =
        ap (tabulate_all d reads to_string k row_first key ss) (tabulate-put_all s t)
        ∙ tabulate_all-put_all ss (filled (structure_cells d reads to_string s) t)
        ∙ sym (put_all-append k row_first decimal key (structure_cells d reads to_string s) _ t)

module _ {W S D L : Type 0} (o : Options) (d : Doubles D) (reads : StructureReads S D)
    (to_string : D → Text) (k : Listener L) (row_first : Bool) (slash : Text → Text → Text)
    (working_dir : Text) (sub_run : List (Text × ℕ) → Text → W → List S × W) where
  -- A run of a stoichiometry on a valid table whose directory is not the empty path writes into the
  -- row of that directory the number of atoms of each species, then, for each structure that is held
  -- or was finished, its path, its space group and its energy per atom, as far as it has them, a
  -- later value over an earlier. Every other cell stays, and the table stays valid.
  pub cell-sweep_one :
      (idx : List ℕ) (b : Sweep W S L)
      → IsValid b.table.table
      → is_empty (run_of o d reads to_string k row_first slash working_dir sub_run idx).1 ≡ false
      → let t = b.table.table in
        let t' =
          (sweep_one o d reads to_string k row_first slash working_dir sub_run idx b).table.table in
        let path = (run_of o d reads to_string k row_first slash working_dir sub_run idx).1 in
        let done =
          b.buffer
          ++ (run_result o d reads to_string k row_first slash working_dir sub_run idx b.world).0 in
        IsValid t'
        × ((r c : Text)
            → cell t' r c ≡ (
                if text_eq path r
                then written_last
                    (species_cells 0 idx o.atom_ranges ++ all_cells d reads to_string done)
                    c
                    (cell t r c)
                else cell t r c))
  cell-sweep_one idx b w named =
      let (settings, path) = run_of o d reads to_string k row_first slash working_dir sub_run idx in
      let done =
        b.buffer
        ++ (run_result o d reads to_string k row_first slash working_dir sub_run idx b.world).0 in
      let counts = species_cells 0 idx o.atom_ranges in
      let ws = all_cells d reads to_string done in
      let key_eq : (if is_empty path then text "." else path) ≡ path =
        ap (λ q. if q then text "." else path) named in
      let e : (sweep_one o d reads to_string k row_first slash working_dir sub_run idx b).table
          ≡ put_all k row_first decimal path (counts ++ ws) b.table =
        ap (λ (q : Sweep W S L). q.table)
          (sweep_one-run_of o d reads to_string k row_first slash working_dir sub_run idx b)
        ∙ tabulate_all-put_all k row_first path d reads to_string done _
        ∙ ap (put_all k row_first decimal path ws) (
            ap (λ key. update_table k row_first key 0 idx o.atom_ranges b.table) key_eq
            ∙ update_table-put_all k row_first path 0 idx o.atom_ranges b.table)
        ∙ sym (put_all-append k row_first decimal path counts ws b.table) in
      let (valid, cells) = cell-put_all k row_first decimal path (counts ++ ws) b.table w in
      (
        subst (λ (q : Listened L). IsValid q.table) (sym e) valid,
        λ r c. ap (λ (q : Listened L). cell q.table r c) e ∙ cells r c,
      )
