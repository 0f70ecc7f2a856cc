-- ===== src/Support/Row.antt =====
-- The row of a structure.
use structure_pipe.Base.{
  ℕ, ◌+◌, ◌≡◌, refl, sym, ap, ◌∙◌, Bool, true, false, ◌&&◌, Option, none, some, List, [], ◌∷◌, ◌++◌,
  if◌then◌else◌, Text, text, text_eq, is_empty, arith, subst,
}
use structure_pipe.Table.{Listener, Listened, insert}
use structure_pipe.Table.Valid.{IsValid}
use structure_pipe.Table.Cells.{cell, cell-insert}
use structure_pipe.Support.{StructureInfo, put, insert_params, insert_structure_info}

-- The last of some values written to a column, or what was there.
abbrev pub written_last : List (Text × Text) → Text → Text → Text
written_last [] c old = old
written_last ((n, v) ∷ ws) c old = written_last ws c (if text_eq n c then v else old)

module _ (index_text : ℕ → Text) where
  abbrev pub param_cells : ℕ → List Text → List (Text × Text)
  param_cells i [] = []
  param_cells i (p ∷ ps) = (text "p_" ++ index_text i, p) ∷ param_cells (i + 1) ps

  -- The cells that a structure fills: its potential parameters, its energies, its path and its
  -- space group, as far as it has them.
  abbrev pub info_cells : StructureInfo → List (Text × Text)
  info_cells info =
      let params : List (Text × Text) = elim info.params [
        | none ↦ []
        | some ps ↦ param_cells 0 ps
      ] in
      let energies : List (Text × Text) = elim info.energy_text [
        | none ↦ []
        | some energy ↦
            (text "energy", energy) ∷ (text "energy/atom", info.energy_per_atom_text) ∷ []
      ] in
      let path : List (Text × Text) =
        if is_empty info.path then [] else (text "lowest_path", info.path) ∷ [] in
      let group : List (Text × Text) = elim info.spacegroup_text [
        | none ↦ []
        | some sg ↦ (text "sg", sg) ∷ []
      ] in
      params ++ (energies ++ (path ++ group))

module _ {L : Type 0} (k : Listener L) (row_first : Bool) (index_text : ℕ → Text) (key : Text) where
  unfoldable pub put_all : List (Text × Text) → Listened L → Listened L
  put_all [] s = s
  put_all ((n, v) ∷ ws) s = put_all ws (put k row_first index_text key n v s)

  pub put_all-append :
      (xs ys : List (Text × Text)) (s : Listened L)
      → put_all (xs ++ ys) s ≡ put_all ys (put_all xs s)
  unfolding put_all
  put_all-append [] ys s = refl
  put_all-append (x ∷ xs) ys s = put_all-append xs ys (put k row_first index_text key x.0 x.1 s)

  pub cell-put_all :
      (ws : List (Text × Text)) (s : Listened L)
      → IsValid s.table
      → IsValid (put_all ws s).table
        × ((r c : Text)
            → cell (put_all ws s).table r c
              ≡ (if text_eq key r then written_last ws c (cell s.table r c) else cell s.table r c))
  unfolding put_all put
  cell-put_all [] s w = (w, λ r c. ground arith)
  cell-put_all ((n, v) ∷ ws) s w =
      let s1 = (insert k row_first key n v s).0 in
      let (w1, cells) = cell-insert k row_first key n v s w in
      let (w2, later) = cell-put_all ws s1 w1 in
      (
        w2,
        λ r c.
            later r c ∙ after (text_eq key r) (text_eq n c) ws c (cell s.table r c) _ (cells r c),
      )
    where
      after :
          (same here : Bool) (ws : List (Text × Text)) (c old now : Text)
          → now ≡ (if same && here then v else old)
          → (if same then written_last ws c now else now)
            ≡ (if same then written_last ws c (if here then v else old) else old)
      after true here ws c old now e = ap (written_last ws c) e
      after false here ws c old now e = e

  params-put_all :
      (i : ℕ) (ps : List Text) (s : Listened L)
      → insert_params k row_first index_text key i ps s ≡ put_all (param_cells index_text i ps) s
  unfolding insert_params put_all
  params-put_all i [] s = refl
  params-put_all i (p ∷ ps) s =
      params-put_all (i + 1) ps (put k row_first index_text key (text "p_" ++ index_text i) p s)

  pub info-put_all :
      (info : StructureInfo) (s : Listened L)
      → insert_structure_info k row_first index_text key info s
        ≡ put_all (info_cells index_text info) s
  unfolding insert_structure_info put_all
  info-put_all info s =
      let ps = info_params info.params s in
      let es = info_energy info.energy_text (put_all (cells_of_params info.params) s) in
      ap (λ q. after_energy (energy_put info.energy_text q)) ps
      ∙ ap after_energy es
      ∙ rest (put_all (cells_of_energy info.energy_text) (put_all (cells_of_params info.params) s))
      ∙ sym (
          put_all-append (cells_of_params info.params) _ s
          ∙ put_all-append (cells_of_energy info.energy_text) _
              (put_all (cells_of_params info.params) s)
          ∙ put_all-append (path_cells info.path) _ _)
    where
      put_here : Text → Text → Listened L → Listened L
      put_here n v q = put k row_first index_text key n v q

      cells_of_params : Option (List Text) → List (Text × Text)
      cells_of_params o = elim o [ none ↦ [] | some ps ↦ param_cells index_text 0 ps ]

      cells_of_energy : Option Text → List (Text × Text)
      cells_of_energy o = elim o [
        | none ↦ []
        | some energy ↦
            (text "energy", energy) ∷ (text "energy/atom", info.energy_per_atom_text) ∷ []
      ]

      path_cells : Text → List (Text × Text)
      path_cells p = if is_empty p then [] else (text "lowest_path", p) ∷ []

      energy_put : Option Text → Listened L → Listened L
      energy_put o q = elim o [
        | none ↦ q
        | some energy ↦
            put_here (text "energy/atom") info.energy_per_atom_text
              (put_here (text "energy") energy q)
      ]

      path_put : Listened L → Listened L
      path_put q = if is_empty info.path then q else put_here (text "lowest_path") info.path q

      group_put : Option Text → Listened L → Listened L
      group_put o q = elim o [ none ↦ q | some sg ↦ put_here (text "sg") sg q ]

      after_energy : Listened L → Listened L
      after_energy q = group_put info.spacegroup_text (path_put q)

      info_params :
          (o : Option (List Text)) (q : Listened L)
          → (elim o [ none ↦ q | some ps ↦ insert_params k row_first index_text key 0 ps q ])
            ≡ put_all (cells_of_params o) q
      info_params none q = refl
      info_params (some ps) q = params-put_all 0 ps q

      info_energy :
          (o : Option Text) (q : Listened L) → energy_put o q ≡ put_all (cells_of_energy o) q
      info_energy none q = refl
      info_energy (some energy) q = refl

      path_eq :
          (b : Bool) (q : Listened L)
          → (if b then q else put_here (text "lowest_path") info.path q)
            ≡ put_all (if b then [] else (text "lowest_path", info.path) ∷ []) q
      path_eq true q = refl
      path_eq false q = refl

      group_eq :
          (o : Option Text) (q : Listened L)
          → group_put o q ≡ put_all (elim o [ none ↦ [] | some sg ↦ (text "sg", sg) ∷ [] ]) q
      group_eq none q = refl
      group_eq (some sg) q = refl

      rest :
          (q : Listened L)
          → after_energy q
            ≡ put_all
                (elim info.spacegroup_text [ none ↦ [] | some sg ↦ (text "sg", sg) ∷ [] ])
                (put_all (path_cells info.path) q)
      rest q =
          ap (group_put info.spacegroup_text) (path_eq (is_empty info.path) q)
          ∙ group_eq info.spacegroup_text (put_all (path_cells info.path) q)

  -- `insertStructureInfoAndPotentialParams` on a valid table writes, in the row of the key, the
  -- potential parameters, the energy and the energy per atom, the path and the space group, as far
  -- as the structure has them; it leaves every other cell of that row and every other row, and
  -- keeps the table valid. A structure with none of these changes no cell.
  pub cell-insert_structure_info :
      (info : StructureInfo) (s : Listened L)
      → IsValid s.table
      → let t' = (insert_structure_info k row_first index_text key info s).table in
        IsValid t'
        × ((r c : Text)
            → cell t' r c ≡ (
                if text_eq key r
                then written_last (info_cells index_text info) c (cell s.table r c)
                else cell s.table r c))
  cell-insert_structure_info info s w =
      let e = info-put_all info s in
      let (valid, cells) = cell-put_all (info_cells index_text info) s w in
      (subst (λ q. IsValid q.table) (sym e) valid, λ r c. ap (λ q. cell q.table r c) e ∙ cells r c)
