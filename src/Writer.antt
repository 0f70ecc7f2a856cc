-- ===== src/Writer.antt =====
-- src/utility/DataTableWriter.cpp: a listener of a table that keeps a file up to date, by writing
-- the whole table or only what was added behind the last cell that it wrote.
pub mod Stream
pub mod Lines
pub mod Whole
pub mod Added
pub mod Streaming
pub mod Following
pub mod Due
pub mod Linked
pub mod Inserts
pub mod Examples
use structure_pipe.Base.{
  ℕ, zero, suc, ◌+◌, ◌-◌, ◌%◌, ◌^◌, ◌≡◌, Bool, true, false, not, ◌&&◌, ◌||◌, Option, none, some,
  List, [], ◌∷◌, ◌++◌, if◌then◌else◌, leb, ltb, ◌==◌, length, drop, Text, text, is_empty, join,
}
use structure_pipe.Table.{DataTable, Coords, Listener, num_rows, append_rows, header_text}
use Stream.{OutStream, open_out, open_in_out, write_bytes, seek, finish_line}
use mathlib.Core.Option

abbrev pub size_mod : ℕ
size_mod = 2 ^ 64

pub record DataTableWriter : Type 0 where
  pub append : Bool
  pub column_delimiter : Text
  pub write_delay : ℕ
  pub data_since_write : ℕ
  pub out_stream : OutStream
  pub write_marker : ℕ
  pub last_write_coords : Coords
  pub full_write_required : Bool

-- `std::pair` is ordered by its first part, then by its second.
unfoldable pub coords_lt : Coords → Coords → Bool
coords_lt a b = ltb a.0 b.0 || (a.0 == b.0 && ltb a.1 b.1)

-- The size of the last row, or d if there is none: what a loop over the rows leaves in
-- `myLastWriteCoords.second`.
unfoldable pub last_size : ℕ → List (List Text) → ℕ
last_size d [] = d
last_size d (r ∷ rs) = last_size (length r) rs

-- `numRows() - 1`, which wraps for a table with no rows.
unfoldable pub last_row : DataTable → ℕ
last_row t = (num_rows t + size_mod - 1) % size_mod

unfoldable pub full_text : Text → DataTable → Text
unfolding append_rows header_text
full_text delimiter t = header_text delimiter t ++ append_rows delimiter t.rows

-- The characters in which two texts differ, for texts whose size is an `int`.
unfoldable pub diff : Text → Text → ℕ
diff [] [] = 0
diff [] (y ∷ ys) = suc (length ys)
diff (x ∷ xs) [] = suc (length xs)
diff (x ∷ xs) (y ∷ ys) = (if x == y then 0 else 1) + diff xs ys

-- The rest of a row that was written in part, if there is one.
remainder : DataTableWriter → List Text → Text
remainder w row =
    if ltb 0 w.last_write_coords.1 && ltb w.last_write_coords.1 (length row)
    then w.column_delimiter ++ join w.column_delimiter (drop w.last_write_coords.1 row)
    else []

written_size : DataTableWriter → List Text → ℕ
written_size w row =
    if ltb 0 w.last_write_coords.1 && ltb w.last_write_coords.1 (length row)
    then length row
    else w.last_write_coords.1

-- `writeFrom(myLastWriteCoords)`. `none` is a row iterator past the end.
unfoldable pub write_from : DataTable → DataTableWriter → Option DataTableWriter
unfolding remainder written_size last_size last_row append_rows
write_from t w = elim (drop w.last_write_coords.0 t.rows) [
  | [] ↦ none
  | row ∷ more ↦ some (record w {
    data_since_write = 0;
    out_stream = write_bytes (remainder w row ++ append_rows w.column_delimiter more) w.out_stream;
    last_write_coords = (last_row t, last_size (written_size w row) more);
    full_write_required = false;
  })
]

-- Whether the operating system opens the file is an argument of the section.
module _ (opens : Bool) where
  -- `initialise`. The file is opened for output with or without `ate`: either way it is emptied,
  -- so the marker is its start.
  unfoldable pub initialise : Bool → ℕ → Text → DataTableWriter
  initialise append write_delay old_content = record {
    append = append;
    column_delimiter = text " ";
    write_delay = write_delay;
    data_since_write = 0;
    out_stream = open_out opens old_content;
    write_marker = 0;
    last_write_coords = (0, 0);
    full_write_required = true;
  }

  reopen : DataTableWriter → DataTableWriter
  reopen w =
      if w.out_stream.is_open
      then w
      else record w { out_stream = open_in_out opens w.out_stream; write_marker = 0 }

  unfoldable pub write_full : DataTable → DataTableWriter → DataTableWriter × Bool
  unfolding reopen full_text last_size last_row
  write_full t w0 =
      let w = reopen (record w0 { data_since_write = 0 }) in
      if w.out_stream.good
      then (
        record w {
          out_stream =
              write_bytes (full_text w.column_delimiter t) (seek w.write_marker w.out_stream);
          last_write_coords = (last_row t, last_size w.last_write_coords.1 t.rows);
          full_write_required = false;
        },
        true,
      )
      else (w, false)

  unfoldable pub write : DataTable → DataTableWriter → Option (DataTableWriter × Bool)
  unfolding write_full write_from
  write t w =
      if w.full_write_required
      then some (write_full t w)
      else Option.map (λ w'. (w', true)) (write_from t w)

  -- The writer as a listener writes when enough has changed. Its state is `none` after undefined
  -- behaviour.
  pub write_if_due : DataTable → DataTableWriter → Option DataTableWriter
  unfolding write
  write_if_due t w =
      if ltb w.write_delay w.data_since_write then Option.map (λ r. r.0) (write t w) else some w

  unfoldable pub value_changed :
      DataTable → Coords → Text → Text → DataTableWriter → Option DataTableWriter
  unfolding diff coords_lt write_if_due
  value_changed t at old new w = write_if_due t (record w {
    data_since_write = (w.data_since_write + diff old new) % size_mod;
    full_write_required = w.full_write_required || coords_lt at w.last_write_coords;
  })

  unfoldable pub column_changed :
      DataTable → ℕ → Text → Text → DataTableWriter → Option DataTableWriter
  unfolding diff write_if_due
  column_changed t index old new w = write_if_due t (record w {
    data_since_write = (w.data_since_write + diff old new) % size_mod;
    full_write_required = true;
  })

  pub writer_listener : Listener (Option DataTableWriter)
  unfolding value_changed column_changed Option.bind
  writer_listener = record {
    on_value_changed = λ t at old new w. Option.bind w (value_changed t at old new);
    on_column_changed = λ t index old new w. Option.bind w (column_changed t index old new);
  }

-- The destructor ends the line and closes the file.
unfoldable pub destroy : DataTableWriter → DataTableWriter
destroy w = if w.out_stream.is_open then record w { out_stream = finish_line w.out_stream } else w
