-- ===== src/Support/Examples.antt =====
-- A support whose writers are the names of their files.
use structure_pipe.Base.{
  ℕ, ◌+◌, ◌≡◌, refl, true, none, some, [], ◌∷◌, if◌then◌else◌, Text, text, text_eq,
}
use structure_pipe.Table.{DataTable, Listener, Listened, new_table}
use structure_pipe.Table.Valid.{IsValid, new_table-IsValid}
use structure_pipe.Table.Cells.{cell}
use structure_pipe.Support.{running, DataTableSupport, StructureInfo, insert_structure_info}
use structure_pipe.Support.Lifetime.{
  IsRegistered, registers, renames, changes_state, destroys, run, run-IsRegistered,
}
use structure_pipe.Support.Row.{written_last, info_cells, cell-insert_structure_info}

abbrev file_name : Text → Text
file_name f = f

abbrev fresh : DataTableSupport Text
fresh = record {
  engine = none;
  listening = [];
  filename = text "a.out";
  table = new_table;
  writer = none;
  written = [];
  clear_table_on_pipe_finish = true;
}

abbrev registered_support : DataTableSupport Text
registered_support = record fresh { engine = some 1; listening = 1 ∷ [] }

run-IsRegistered_example : IsRegistered (
    run file_name
      (registers 1
        ∷ changes_state running
        ∷ registers 2
        ∷ destroys 1
        ∷ renames running (text "b")
        ∷ [])
      fresh)
run-IsRegistered_example =
    run-IsRegistered file_name
      (registers 1
        ∷ changes_state running
        ∷ registers 2
        ∷ destroys 1
        ∷ renames running (text "b")
        ∷ [])
      fresh refl

abbrev noted_table : DataTable
noted_table = record {
  rows = (text "k" ∷ []) ∷ [];
  row_map = (text "k", 0) ∷ [];
  column_names = text "[key]" ∷ [];
  column_map = [];
  table_notes = [];
}

abbrev counter : Listener ℕ
counter = record {
  on_value_changed = λ t at old new n. n + 1;
  on_column_changed = λ t index old new n. n + 1;
}

abbrev start_table : Listened ℕ
start_table = record { table = new_table; listeners = (0, 0) ∷ [] }

abbrev info : StructureInfo
info = record {
  params = some (text "1.0" ∷ text "0.5" ∷ []);
  energy_text = some (text "3");
  energy_per_atom_text = text "1.5";
  path = [];
  spacegroup_text = some (text "225");
}

abbrev digit_text : ℕ → Text
digit_text n = (n + 48) ∷ []

cell-insert_structure_info_example :
    let t' = (insert_structure_info counter true digit_text (text "s1") info start_table).table in
    IsValid t'
    × ((r c : Text)
        → cell t' r c ≡ (
            if text_eq (text "s1") r
            then written_last (info_cells digit_text info) c (cell new_table r c)
            else cell new_table r c))
cell-insert_structure_info_example =
    cell-insert_structure_info counter true digit_text (text "s1") info start_table
      new_table-IsValid
