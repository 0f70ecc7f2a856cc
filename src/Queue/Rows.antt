-- ===== src/Queue/Rows.antt =====
-- The rows of the table that the runs of src/blocks/RunPotentialParamsQueue.cpp fill.
use structure_pipe.Base.{
  ℕ, ◌≡◌, refl, sym, ap, ◌∙◌, Bool, true, false, Option, some, List, [], ◌∷◌, ◌++◌, map,
  if◌then◌else◌, Text, text_eq, subst, arith,
}
use structure_pipe.PipeData.{GlobalData, SharedData, set_parameters, set_shared_working_dir}
use structure_pipe.Table.{Listener, Listened}
use structure_pipe.Table.Valid.{IsValid}
use structure_pipe.Table.Cells.{cell}
use structure_pipe.Support.{StructureInfo, insert_structure_info}
use structure_pipe.Support.Row.{written_last, info_cells, cell-insert_structure_info}
use structure_pipe.Queue.{Params}
use structure_pipe.Queue.Stamped.{stamped, finished-stamped}
use structure_pipe.Queue.Sweep.{Swept, info_of, update_rows, finish_all, release_buffer, run_params}
use structure_pipe.Queue.Refined.{finish_all-map}

written_last-append :
    (xs ys : List (Text × Text)) (c old : Text)
    → written_last (xs ++ ys) c old ≡ written_last ys c (written_last xs c old)
written_last-append [] ys c old = refl
written_last-append ((n, v) ∷ xs) ys c old =
    written_last-append xs ys c (if text_eq n c then v else old)

module _ {S L : Type 0} (reads : Text → S → StructureInfo) (k : Listener L) (row_first : Bool)
    (index_text : ℕ → Text) where
  -- What structures with potential parameters fill of a row, with paths relative to a directory.
  abbrev pub cells_of_all : Text → List (S × Params) → List (Text × Text)
  cells_of_all dir [] = []
  cells_of_all dir ((s, own) ∷ ss) =
      info_cells index_text (record (reads dir s) { params = some own }) ++ cells_of_all dir ss

  cell-update_rows :
      (key dir : Text) (ss : List (S × Params)) (t : Listened L)
      → IsValid t.table
      → let t' = (update_rows reads k row_first index_text key dir ss t).table in
        IsValid t'
        × ((r c : Text)
            → cell t' r c ≡ (
                if text_eq key r
                then written_last (cells_of_all dir ss) c (cell t.table r c)
                else cell t.table r c))
  unfolding update_rows info_of
  cell-update_rows key dir [] t w = (w, λ r c. ground arith)
  cell-update_rows key dir ((s, own) ∷ ss) t w =
      let info : StructureInfo = record (reads dir s) { params = some own } in
      let (w1, first) = cell-insert_structure_info k row_first index_text key info t w in
      let (w2, later) =
        cell-update_rows key dir ss (insert_structure_info k row_first index_text key info t) w1 in
      (
        w2,
        λ r c.
            later r c
            ∙ after (text_eq key r) (info_cells index_text info) (cells_of_all dir ss) c
                (cell t.table r c) _ (first r c),
      )
    where
      after :
          (same : Bool) (xs ys : List (Text × Text)) (c old now : Text)
          → now ≡ (if same then written_last xs c old else old)
          → (if same then written_last ys c now else now)
            ≡ (if same then written_last (xs ++ ys) c old else old)
      after true xs ys c old now e =
          ap (written_last ys c) e ∙ sym (written_last-append xs ys c old)
      after false xs ys c old now e = e

module _ {S V L W : Type 0} (reads : Text → S → StructureInfo) (k : Listener L) (row_first : Bool)
    (index_text : ℕ → Text) (split : Text → Params) (process_id tag : Text)
    (dir_of : GlobalData V → Text) (slash : Text → Text → Text) (unique_name : Text → W → Text × W)
    (sub_run : GlobalData V
      → SharedData V
      → W
      → List (S × Option Params) × GlobalData V × SharedData V × W)
    (mean : ℕ → ℕ) (target : ℕ) where
  -- The directory of a run.
  abbrev pub path_of : Text → Params → Swept S V L W → Text
  path_of working_dir p b =
      slash working_dir (unique_name (set_parameters tag p b.global_data).seed_name b.world).0

  -- What the run of the sweep pipeline gives.
  abbrev pub result_of :
      Text → Params → Swept S V L W → List (S × Option Params) × GlobalData V × SharedData V × W
  result_of working_dir p b =
      let g = set_parameters tag p b.global_data in
      sub_run g (set_shared_working_dir (path_of working_dir p b) b.sweep_shared_data)
        (unique_name g.seed_name b.world).1

  -- A run for the parameters p on a valid table is given a directory in the working directory, with
  -- a unique name. The row of that directory then has, of each structure in the buffer and each that
  -- the run finished with, a later one over an earlier, its potential parameters, which are p if it
  -- has none of its own, and its energy, path and space group, as far as it has them, the path
  -- relative to the directory that the block has after the run. Every other cell stays, and the table
  -- stays valid. The structures are sent on in that order, and the buffer is empty.
  pub cell-run_params :
      (working_dir : Text) (p : Params) (ps : List Params) (b : Swept S V L W)
      → IsValid b.table.table
      → let b' =
          run_params reads k row_first index_text split process_id tag dir_of slash unique_name
            sub_run mean target working_dir p ps b in
        let path = path_of working_dir p b in
        let (done, g', shared', world') = result_of working_dir p b in
        let ss = b.block.buffer ++ map (stamped p) done in
        let filled = cells_of_all reads k row_first index_text (dir_of g') ss in
        (b'.runs ≡ b.runs ++ path ∷ [])
        × (b'.block.sent ≡ b.block.sent ++ ss)
        × (b'.block.buffer ≡ [])
        × IsValid b'.table.table
        × ((r c : Text)
            → cell b'.table.table r c ≡ (
                if text_eq path r
                then written_last filled c (cell b.table.table r c)
                else cell b.table.table r c))
  unfolding run_params release_buffer
  cell-run_params working_dir p ps b w =
      let path = path_of working_dir p b in
      let (done, g', shared', world') = result_of working_dir p b in
      let b1 : Swept S V L W = record b {
        current_params = p;
        global_data = g';
        sweep_shared_data = shared';
        world = world';
        runs = b.runs ++ path ∷ [];
      } in
      let ss = b.block.buffer ++ map (stamped p) done in
      let e : finish_all done b1 ≡ record b1 { block = record b1.block { buffer = ss } } =
        finish_all-map done b1
        ∙ ap (λ q. record b1 { block = record b1.block { buffer = b.block.buffer ++ q } })
            (finished-stamped p done) in
      let (valid, cells) =
        cell-update_rows reads k row_first index_text path (dir_of g') ss b.table w in
      let rows : (update_rows reads k row_first index_text path (dir_of g')
            (finish_all done b1).block.buffer (finish_all done b1).table)
          ≡ update_rows reads k row_first index_text path (dir_of g') ss b.table =
        ap
          (λ (q : Swept S V L W).
            update_rows reads k row_first index_text path (dir_of g') q.block.buffer q.table)
          e in
      (
        ap (λ (q : Swept S V L W). q.runs) e,
        ap (λ (q : Swept S V L W). q.block.sent ++ q.block.buffer) e,
        refl,
        subst (λ (q : Listened L). IsValid q.table) (sym rows) valid,
        λ r c. ap (λ (q : Listened L). cell q.table r c) rows ∙ cells r c,
      )
