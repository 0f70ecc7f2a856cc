-- ===== src/Writer/Examples.antt =====
-- A writer on a small table.
use structure_pipe.Base.{
  Option, List, ◌≡◌, refl, true, false, inl, inr, some, [], ◌∷◌, Text, text, is_empty, arith,
  length,
}
use structure_pipe.Table.{Listened, new_table, DataTable, header_text, append_rows}
use structure_pipe.Writer.{initialise, writer_listener, DataTableWriter, write}
use structure_pipe.Writer.Whole.{Synced, Snapshot}
use structure_pipe.Writer.Linked.{Linked}
use structure_pipe.Writer.Inserts.{Insertion, insert_all, insert_all-Written}
use structure_pipe.Table.Valid.{new_table-IsValid}
use structure_pipe.Writer.Stream.{open_out}
use structure_pipe.Writer.Streaming.{Written, write-Written}

abbrev longer_table : DataTable
longer_table = record {
  rows = (text "a" ∷ text "5" ∷ text "6" ∷ []) ∷ (text "b" ∷ []) ∷ [];
  row_map = (text "b", 1) ∷ (text "a", 0) ∷ [];
  column_names = text "[key]" ∷ text "energy" ∷ text "volume" ∷ [];
  column_map = (text "volume", 2) ∷ (text "energy", 1) ∷ [];
  table_notes = [];
}

abbrev written_text : Text
written_text = text "# [key] energy volume\na 5"

-- The row of `a` was written up to its energy.
abbrev writer : DataTableWriter
writer = record {
  append = false;
  column_delimiter = text " ";
  write_delay = 0;
  data_since_write = 3;
  out_stream = record {
    is_open = true;
    good = true;
    put = length written_text;
    content = written_text;
  };
  write_marker = 0;
  last_write_coords = (0, 2);
  full_write_required = false;
}

writer-Snapshot : Snapshot [] longer_table writer
unfolding header_text append_rows is_empty
writer-Snapshot = record {
  init = [];
  written = text "a" ∷ text "5" ∷ [];
  cells = text "6" ∷ [];
  more = (text "b" ∷ []) ∷ [];
  stale = [];
  rows_eq = refl;
  at_eq = refl;
  some_written = omega arith;
  content_eq = refl;
  put_eq = refl;
}

writer-Synced : Synced [] longer_table writer
writer-Synced = record {
  is_good = refl;
  is_open = refl;
  marker_eq = refl;
  begins = (written_text, refl);
  state = inr (inl writer-Snapshot);
}

write-Written_example :
    (w' : DataTableWriter) × (write true longer_table writer ≡ some (w', true))
    × Written [] written_text longer_table w'
write-Written_example =
    write-Written true [] longer_table writer (omega arith) (omega arith, (omega arith, tt))
      writer-Synced (inr writer-Snapshot)

abbrev new_writer : DataTableWriter
new_writer = record {
  append = true;
  column_delimiter = text " ";
  write_delay = 2;
  data_since_write = 0;
  out_stream = record { is_open = true; good = true; put = 0; content = [] };
  write_marker = 0;
  last_write_coords = (0, 0);
  full_write_required = true;
}

-- It is what the constructor makes when the file can be opened.
new_writer-initialise : initialise true true 2 (text "old") ≡ new_writer
unfolding initialise open_out
new_writer-initialise = refl

abbrev new_listened : Listened (Option DataTableWriter)
new_listened = record { table = new_table; listeners = (0, some new_writer) ∷ [] }

new_listened-Linked : Linked [] 2 new_listened
new_listened-Linked = record {
  address = 0;
  writer = new_writer;
  listeners_eq = refl;
  synced = record {
    is_good = refl;
    is_open = refl;
    marker_eq = refl;
    begins = ([], refl);
    state = inl refl;
  };
  valid = new_table-IsValid;
  small = unfold new_table in omega arith;
}

abbrev insertions : List Insertion
insertions =
    record { row_first = true; key = text "a"; column = text "energy"; value = text "5.25" }
    ∷ record { row_first = false; key = text "b"; column = text "energy"; value = text "6" }
    ∷ []

insert_all-Written_example :
    let s' = insert_all (writer_listener true) insertions new_listened in
    (h' : Linked [] 0 s') × (w' : DataTableWriter) × (write true s'.table h'.writer
      ≡ some (w', true))
    × Written [] h'.writer.out_stream.content s'.table w'
insert_all-Written_example =
    insert_all-Written true [] insertions new_listened new_listened-Linked
      (unfold new_listened-Linked in inl refl)
