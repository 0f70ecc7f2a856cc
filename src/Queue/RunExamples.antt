-- ===== src/Queue/RunExamples.antt =====
-- The runs of the sweep pipeline on a small file.
use structure_pipe.Base.{
  ℕ, ◌+◌, ◌<◌, ◌≡◌, refl, true, Option, none, some, List, [], ◌∷◌, map, Text, text, length, arith,
  ◌++◌, if◌then◌else◌, text_eq, is_empty, inl,
}
use structure_pipe.PipeData.{GlobalData, SharedData, set_parameters, set_shared_working_dir}
use structure_pipe.Table.{Listener, new_table}
use structure_pipe.Table.Valid.{IsValid, new_table-IsValid}
use structure_pipe.Table.Cells.{cell}
use structure_pipe.Support.{StructureInfo}
use structure_pipe.Support.Row.{written_last}
use structure_pipe.Queue.{Params, finished, is_work}
use structure_pipe.Queue.Stamped.{stamped}
use structure_pipe.Queue.Lines.{unlines, pending}
use structure_pipe.Queue.Drain.{Did}
use structure_pipe.Queue.Sweep.{Swept, info_of, run_params, sweep_start}
use structure_pipe.Queue.Refined.{outside, one_run}
use structure_pipe.Queue.Rows.{path_of, result_of, cells_of_all, cell-run_params}
use structure_pipe.Queue.Report.{cells_of_run, run_params-Written}
use structure_pipe.Writer.{DataTableWriter, write, writer_listener}
use structure_pipe.Writer.Streaming.{Written}
use structure_pipe.Writer.Linked.{Linked}
use structure_pipe.Queue.Whole.{sweep_start-drains}
use structure_pipe.Queue.Examples.{
  whole_line, file_lines, new_block, file_lines_eq, file_lines-IsLine, process-IsLine,
}

mean_positive : (n : ℕ) → 0 < n + 3
mean_positive n = omega arith

-- A structure is a number; the rest of the world counts the runs.
abbrev fresh : Swept ℕ ℕ ℕ ℕ
fresh = record {
  block = new_block;
  current_params = [];
  global_data = record {
    objects_store = [];
    working_dir = text "w";
    seed_name = text "s";
    parameters = [];
  };
  sweep_shared_data = record { objects_store = []; working_dir = []; instance_name = [] };
  table = record { table = new_table; listeners = [] };
  runs = [];
  world = 0;
}

abbrev reads : Text → ℕ → StructureInfo
reads dir s = record {
  params = none;
  energy_text = some (text "1.5");
  energy_per_atom_text = text "0.5";
  path = dir;
  spacegroup_text = none;
}

abbrev counter : Listener ℕ
counter = record {
  on_value_changed = λ t at old new n. n + 1;
  on_column_changed = λ t index old new n. n + 1;
}

abbrev digit_text : ℕ → Text
digit_text n = (n + 48) ∷ []

abbrev dir_of : GlobalData ℕ → Text
dir_of g = g.working_dir

abbrev slash : Text → Text → Text
slash p q = p ++ (text "/" ++ q)

abbrev unique_name : Text → ℕ → Text × ℕ
unique_name seed n = (seed ++ digit_text n, n + 1)

-- The first structure has no potential parameters of its own; what a run finishes with depends on
-- the runs before it.
abbrev sub_run :
    GlobalData ℕ → SharedData ℕ → ℕ → List (ℕ × Option Params) × GlobalData ℕ × SharedData ℕ × ℕ
sub_run g s n = ((n, none) ∷ (7, some []) ∷ [], g, s, n + 5)

sweep_start-drains_example :
    let run = one_run (text "pot") slash unique_name sub_run (text "w") in
    (b' : Swept ℕ ℕ ℕ ℕ) × (sweep_start reads counter true digit_text whole_line
        (text "77")
        (text "pot")
        dir_of
        slash
        unique_name
        sub_run
        (λ n. n + 3)
        10
        4
        fresh
      ≡ some b')
    × Did whole_line
        (text "77")
        run
        (λ n. n + 3)
        10
        (map whole_line (pending file_lines))
        new_block
        (outside fresh)
        b'.block
        (outside b')
    × (ls' : List Text) × (b'.block.queue_file ≡ some (unlines ls'))
    × (pending ls' ≡ [])
sweep_start-drains_example =
    sweep_start-drains reads counter true digit_text whole_line (text "77") (text "pot") dir_of
      slash unique_name sub_run (λ n. n + 3) 10 mean_positive (omega arith) 4 fresh file_lines
      file_lines_eq file_lines-IsLine process-IsLine refl refl refl (omega arith)
      (unfold is_work in omega arith)

cell-run_params_example :
    let p : Params = text "1 2" ∷ [] in
    let b' =
      run_params reads counter true digit_text whole_line
        (text "77")
        (text "pot")
        dir_of
        slash
        unique_name
        sub_run
        (λ n. n + 3)
        10
        (text "w")
        p
        []
        fresh in
    let path =
      path_of reads counter true digit_text whole_line
        (text "77")
        (text "pot")
        dir_of
        slash
        unique_name
        sub_run
        (λ n. n + 3)
        10
        (text "w")
        p
        fresh in
    let (done, g', shared', world') =
      result_of reads counter true digit_text whole_line
        (text "77")
        (text "pot")
        dir_of
        slash
        unique_name
        sub_run
        (λ n. n + 3)
        10
        (text "w")
        p
        fresh in
    let ss = map (stamped p) done in
    let filled = cells_of_all reads counter true digit_text (dir_of g') ss in
    (b'.runs ≡ path ∷ [])
    × (b'.block.sent ≡ ss)
    × (b'.block.buffer ≡ [])
    × IsValid b'.table.table
    × ((r c : Text)
        → cell b'.table.table r c ≡ (
            if text_eq path r
            then written_last filled c (cell new_table r c)
            else cell new_table r c))
cell-run_params_example =
    cell-run_params reads counter true digit_text whole_line (text "77") (text "pot") dir_of slash
      unique_name sub_run (λ n. n + 3) 10 (text "w") (text "1 2" ∷ []) [] fresh new_table-IsValid

abbrev new_writer : DataTableWriter
new_writer = record {
  append = true;
  column_delimiter = text " ";
  write_delay = 2;
  data_since_write = 0;
  out_stream = record { is_open = true; good = true; put = 0; content = [] };
  write_marker = 0;
  last_write_coords = (0, 0);
  full_write_required = true;
}

abbrev written_block : Swept ℕ ℕ (Option DataTableWriter) ℕ
written_block = record {
  block = new_block;
  current_params = [];
  global_data = fresh.global_data;
  sweep_shared_data = fresh.sweep_shared_data;
  table = record { table = new_table; listeners = (0, some new_writer) ∷ [] };
  runs = [];
  world = 0;
}

-- A run that finishes with one structure.
abbrev single_run :
    GlobalData ℕ → SharedData ℕ → ℕ → List (ℕ × Option Params) × GlobalData ℕ × SharedData ℕ × ℕ
single_run g s n = ((5, none) ∷ [], g, s, n)

abbrev cells : List (Text × Text)
cells =
    cells_of_run true [] reads true digit_text whole_line (text "77") (text "pot") dir_of slash
      unique_name single_run (λ n. n + 3) 10 (text "w") (text "1 2" ∷ []) written_block

written_block-Linked : Linked [] (length cells) written_block.table
unfolding new_table is_empty info_of finished set_parameters set_shared_working_dir
written_block-Linked = record {
  address = 0;
  writer = new_writer;
  listeners_eq = refl;
  synced = record {
    is_good = refl;
    is_open = refl;
    marker_eq = refl;
    begins = ([], refl);
    state = inl refl;
  };
  valid = new_table-IsValid;
  small = omega arith;
}

run_params-Written_example :
    let b' =
      run_params reads
        (writer_listener true)
        true
        digit_text
        whole_line
        (text "77")
        (text "pot")
        dir_of
        slash
        unique_name
        single_run
        (λ n. n + 3)
        10
        (text "w")
        (text "1 2" ∷ [])
        []
        written_block in
    (h' : Linked [] 0 b'.table) × (w' : DataTableWriter) × (write true b'.table.table h'.writer
      ≡ some (w', true))
    × Written [] h'.writer.out_stream.content b'.table.table w'
run_params-Written_example =
    run_params-Written true [] reads true digit_text whole_line (text "77") (text "pot") dir_of
      slash unique_name single_run (λ n. n + 3) 10 (text "w") (text "1 2" ∷ []) [] written_block
      written_block-Linked (unfold written_block-Linked in inl refl)
