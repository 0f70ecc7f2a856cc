-- ===== src/Queue/Report.antt =====
-- The file of the table that the runs of src/blocks/RunPotentialParamsQueue.cpp fill, which the writer
-- of src/utility/DataTableWriter.cpp keeps.
use structure_pipe.Base.{
  ℕ, ◌+◌, ◌<◌, ◌≡◌, refl, sym, ap, ◌∙◌, Bool, true, Option, some, List, [], ◌∷◌, ◌++◌, map, length,
  length-map, Text, subst,
}
use structure_pipe.PipeData.{GlobalData, SharedData}
use structure_pipe.Table.{Listener, Listened}
use structure_pipe.Support.{StructureInfo, put, insert_structure_info}
use structure_pipe.Support.Row.{info_cells, put_all, put_all-append, info-put_all}
use structure_pipe.Writer.{DataTableWriter, write, writer_listener, size_mod}
use structure_pipe.Writer.Streaming.{Written}
use structure_pipe.Writer.Due.{IsReady}
use structure_pipe.Writer.Linked.{Linked}
use structure_pipe.Writer.Inserts.{Insertion, insert_all, insert_all-Written}
use structure_pipe.Queue.{Params}
use structure_pipe.Queue.Stamped.{stamped, finished-stamped}
use structure_pipe.Queue.Sweep.{Swept, info_of, update_rows, release_buffer, run_params}
use structure_pipe.Queue.Refined.{finish_all-map}
use structure_pipe.Queue.Rows.{path_of, result_of, cells_of_all}

abbrev insertions : Bool → Text → List (Text × Text) → List Insertion
insertions row_first key =
    map
      (λ (x : Text × Text). record { row_first = row_first; key = key; column = x.0; value = x.1 })

module _ {L : Type 0} (k : Listener L) (row_first : Bool) (index_text : ℕ → Text) where
  put_all-insert_all :
      (key : Text) (ws : List (Text × Text)) (t : Listened L)
      → put_all k row_first index_text key ws t ≡ insert_all k (insertions row_first key ws) t
  unfolding put_all put insert_all
  put_all-insert_all key [] t = refl
  put_all-insert_all key (x ∷ ws) t = put_all-insert_all key ws _

  update_rows-put_all :
      {S : Type 0} (reads : Text → S → StructureInfo) (key dir : Text) (ss : List (S × Params))
      (t : Listened L)
      → update_rows reads k row_first index_text key dir ss t
        ≡ put_all k row_first index_text key (cells_of_all reads k row_first index_text dir ss) t
  unfolding update_rows put_all info_of
  update_rows-put_all reads key dir [] t = refl
  update_rows-put_all reads key dir ((s, own) ∷ ss) t =
      let info : StructureInfo = record (reads dir s) { params = some own } in
      update_rows-put_all reads key dir ss (insert_structure_info k row_first index_text key info t)
      ∙ ap (put_all k row_first index_text key (cells_of_all reads k row_first index_text dir ss))
          (info-put_all k row_first index_text key info t)
      ∙ sym (put_all-append k row_first index_text key (info_cells index_text info) _ t)

module _ {S V W : Type 0} (opens : Bool) (pre : Text) (reads : Text → S → StructureInfo)
    (row_first : Bool) (index_text : ℕ → Text) (split : Text → Params) (process_id tag : Text)
    (dir_of : GlobalData V → Text) (slash : Text → Text → Text) (unique_name : Text → W → Text × W)
    (sub_run : GlobalData V
      → SharedData V
      → W
      → List (S × Option Params) × GlobalData V × SharedData V × W)
    (mean : ℕ → ℕ) (target : ℕ) where
  -- What the run for some parameters fills of its row.
  abbrev pub cells_of_run :
      Text → Params → Swept S V (Option DataTableWriter) W → List (Text × Text)
  cells_of_run working_dir p b =
      let k = writer_listener opens in
      let (done, g', shared', world') =
        result_of reads k row_first index_text split process_id tag dir_of slash unique_name sub_run
          mean target working_dir p b in
      cells_of_all reads k row_first index_text (dir_of g') (b.block.buffer ++ map (stamped p) done)

  table-run_params :
      (working_dir : Text) (p : Params) (ps : List Params)
      (b : Swept S V (Option DataTableWriter) W)
      → let k = writer_listener opens in
        let path =
          path_of reads k row_first index_text split process_id tag dir_of slash unique_name sub_run
            mean target working_dir p b in
        (run_params reads k row_first index_text split process_id tag dir_of slash unique_name
          sub_run mean target working_dir p ps b).table
        ≡ insert_all k (insertions row_first path (cells_of_run working_dir p b)) b.table
  unfolding run_params release_buffer
  table-run_params working_dir p ps b =
      let k = writer_listener opens in
      let path =
        path_of reads k row_first index_text split process_id tag dir_of slash unique_name sub_run
          mean target working_dir p b in
      let (done, g', shared', world') =
        result_of reads k row_first index_text split process_id tag dir_of slash unique_name sub_run
          mean target working_dir p b in
      let b1 : Swept S V (Option DataTableWriter) W = record b {
        current_params = p;
        global_data = g';
        sweep_shared_data = shared';
        world = world';
        runs = b.runs ++ path ∷ [];
      } in
      ap
        (λ (q : Swept S V (Option DataTableWriter) W).
          update_rows reads k row_first index_text path (dir_of g') q.block.buffer q.table)
        (finish_all-map done b1
          ∙ ap (λ q. record b1 { block = record b1.block { buffer = b.block.buffer ++ q } })
              (finished-stamped p done))
      ∙ update_rows-put_all k row_first index_text reads path (dir_of g')
          (b.block.buffer ++ map (stamped p) done) b.table
      ∙ put_all-insert_all k row_first index_text path (cells_of_run working_dir p b) b.table

  -- A run, on a table whose only listener is a writer that is in step with its file and ready, and
  -- with fewer than 2 ^ 64 rows with one more for each cell that the run fills: whatever the writer
  -- wrote meanwhile, it is afterwards the only listener, without a fault. A `write` then succeeds,
  -- and the file holds its prefix, a line with the names of the columns of the table as it is, one
  -- for each note and one for each row, and behind them the bytes that it held there before that
  -- write.
  pub run_params-Written :
      (working_dir : Text) (p : Params) (ps : List Params)
      (b : Swept S V (Option DataTableWriter) W)
      (h : Linked pre (length (cells_of_run working_dir p b)) b.table)
      → IsReady pre b.table.table h.writer
      → let b' =
          run_params reads
            (writer_listener opens)
            row_first
            index_text
            split
            process_id
            tag
            dir_of
            slash
            unique_name
            sub_run
            mean
            target
            working_dir
            p
            ps
            b in
        (h' : Linked pre 0 b'.table) × (w' : DataTableWriter) × (write opens b'.table.table
            h'.writer
          ≡ some (w', true))
        × Written pre h'.writer.out_stream.content b'.table.table w'
  run_params-Written working_dir p ps b h ready =
      let path =
        path_of reads (writer_listener opens) row_first index_text split process_id tag dir_of slash
          unique_name sub_run mean target working_dir p b in
      let cells = cells_of_run working_dir p b in
      subst
        (λ (s : Listened (Option DataTableWriter)).
          (h' : Linked pre 0 s) × (w' : DataTableWriter) × (write opens s.table h'.writer
            ≡ some (w', true))
          × Written pre h'.writer.out_stream.content s.table w')
        (sym (table-run_params working_dir p ps b))
        (insert_all-Written opens pre (insertions row_first path cells) b.table
          (with_number (length cells) (length (insertions row_first path cells))
            (sym (length-map _ cells)) h ready).0
          (with_number (length cells) (length (insertions row_first path cells))
            (sym (length-map _ cells)) h ready).1)
    where
      with_number :
          (m n : ℕ)
          → m ≡ n
          → (h : Linked pre m b.table) → IsReady pre b.table.table h.writer
          → (h' : Linked pre n b.table) × IsReady pre b.table.table h'.writer
      with_number m n e h ready = (
        record {
          address = h.address;
          writer = h.writer;
          listeners_eq = h.listeners_eq;
          synced = h.synced;
          valid = h.valid;
          small = subst (λ q. length b.table.table.rows + q < size_mod) e h.small;
        },
        ready,
      )
