-- ===== src/Table/Examples.antt =====
-- A small table.
use structure_pipe.Base.{ℕ, ◌+◌, ◌≡◌, true, ◌&&◌, if◌then◌else◌, [], ◌∷◌, Text, text, text_eq}
use structure_pipe.Table.{DataTable, Listener, Listened, new_table, insert, empty}
use structure_pipe.Table.Valid.{IsValid, new_table-IsValid}
use structure_pipe.Table.Cells.{cell, cell-insert, empty_always}

-- A listener that counts.
abbrev counter : Listener ℕ
counter = record {
  on_value_changed = λ t at old new n. n + 1;
  on_column_changed = λ t index old new n. n + 1;
}

abbrev start_table : Listened ℕ
start_table = record { table = new_table; listeners = (0, 0) ∷ [] }

cell-insert_example :
    let t' = (insert counter true (text "a") (text "energy") (text "5") start_table).0.table in
    IsValid t'
    × ((k c : Text)
        → cell t' k c ≡ (
            if text_eq (text "a") k && text_eq (text "energy") c
            then text "5"
            else cell new_table k c))
cell-insert_example =
    cell-insert counter true (text "a") (text "energy") (text "5") start_table new_table-IsValid

abbrev one_row : DataTable
one_row = (insert counter true (text "a") (text "energy") (text "5") start_table).0.table

empty_always_example : empty one_row ≡ true
empty_always_example = empty_always one_row (cell-insert_valid)
  where
    cell-insert_valid : IsValid one_row
    cell-insert_valid =
        (cell-insert counter true (text "a") (text "energy") (text "5") start_table
          new_table-IsValid).0
