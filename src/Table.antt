-- ===== src/Table.antt =====
-- src/utility/DataTable.cpp: a table of text cells addressed by row keys and column names, which
-- tells its listeners of each change. The mutexes are left out: a call is one step. The assertions that
-- a key (line 213) and the name of a column (line 228) are not empty are left out too: the model takes
-- an empty one as the code does with assertions off.
pub mod Valid
pub mod Cells
pub mod Examples
use structure_pipe.Base.{
  ℕ, ◌+◌, ◌-◌, ◌≡◌, Bool, true, false, not, Option, none, some, List, [], ◌∷◌, ◌++◌, map,
  if◌then◌else◌, leb, ◌==◌, length, get_or, set, replicate, Text, text, is_empty, join,
}
use structure_pipe.Base.Assoc.{lookup}

abbrev pub key_column_name : Text
key_column_name = text "[key]"

pub record DataTable : Type 0 where
  pub rows : List (List Text)
  pub row_map : List (Text × ℕ)
  pub column_names : List Text
  pub column_map : List (Text × ℕ)
  pub table_notes : List Text

abbrev pub Coords : Type 0
Coords = ℕ × ℕ

-- `IDataTableChangeListener`: a listener with a state L sees the table as it is at the call.
pub record Listener (L : Type 0) : Type 0 where
  pub on_value_changed : DataTable → Coords → Text → Text → L → L
  pub on_column_changed : DataTable → ℕ → Text → Text → L → L

-- The table and its listeners, each under its address.
pub record Listened (L : Type 0) : Type 0 where
  pub table : DataTable
  pub listeners : List (ℕ × L)

unfoldable pub new_table : DataTable
new_table = record {
  rows = [];
  row_map = [];
  column_names = key_column_name ∷ [];
  column_map = [];
  table_notes = [];
}

unfoldable pub num_rows : DataTable → ℕ
num_rows t = length t.rows

unfoldable pub num_columns : DataTable → ℕ
num_columns t = length t.column_names

unfoldable pub has_notes : DataTable → Bool
has_notes t = not (is_empty t.table_notes)

unfoldable pub add_table_note : Text → DataTable → DataTable
add_table_note note t = record t { table_notes = t.table_notes ++ note ∷ [] }

-- `std::vector::resize` to a larger size.
abbrev pub grow : {A : Type 0} → ℕ → A → List A → List A
grow n a xs = xs ++ replicate (n - length xs) a

-- `insertValue`, which returns the old value of the cell.
unfoldable pub insert_value : Coords → Text → DataTable → DataTable × Text
insert_value (r, c) value t =
    let rows = if leb (length t.rows) r then grow (r + 1) [] t.rows else t.rows in
    let row = get_or rows r [] in
    if leb (length row) c
    then (record t { rows = set rows r (set (grow (c + 1) [] row) c value) }, [])
    else (record t { rows = set rows r (set row c value) }, get_or row c [])

unfoldable pub row : Text → DataTable → DataTable × ℕ
row key t = elim (lookup key t.row_map) [
  | none ↦
      let at = length t.rows in
      (record t { rows = t.rows ++ (key ∷ []) ∷ []; row_map = (key, at) ∷ t.row_map }, at)
  | some i ↦ (t, i)
]

-- The column's number, and the table with the column; `true` if it had to be added.
unfoldable pub col_at : Text → DataTable → DataTable × ℕ × Bool
col_at name t = elim (lookup name t.column_map) [
  | none ↦
      let at = length t.column_names in
      (
        record t {
          column_names = t.column_names ++ name ∷ [];
          column_map = (name, at) ∷ t.column_map;
        },
        at,
        true,
      )
  | some j ↦ (t, j, false)
]

unfoldable pub notify : {L : Type 0} → (L → L) → List (ℕ × L) → List (ℕ × L)
notify f [] = []
notify f ((a, l) ∷ ls) = (a, f l) ∷ notify f ls

module _ {L : Type 0} (k : Listener L) where
  unfoldable pub col : Text → Listened L → Listened L × ℕ
  unfolding col_at
  col name s =
      let (t, j, added) = col_at name s.table in
      if added
      then (
        record { table = t; listeners = notify (k.on_column_changed t j [] name) s.listeners },
        j,
      )
      else (s, j)

  unfoldable pub row_of : Text → Listened L → Listened L × ℕ
  unfolding row
  row_of key s = let (t, i) = row key s.table in (record s { table = t }, i)

  -- `Coords(row(key), col(colName))`: C++ leaves open which argument is evaluated first.
  unfoldable pub coords : Bool → Text → Text → Listened L → Listened L × Coords
  unfolding col row_of
  coords row_first key col_name s =
      if row_first
      then (let (s', i) = row_of key s in let (s'', j) = col col_name s' in (s'', (i, j)))
      else (let (s', j) = col col_name s in let (s'', i) = row_of key s' in (s'', (i, j)))

  unfoldable pub insert : Bool → Text → Text → Text → Listened L → Listened L × Coords
  unfolding coords insert_value
  insert row_first key col_name value s =
      let (s', at) = coords row_first key col_name s in
      let (t, old) = insert_value at value s'.table in
      (
        record { table = t; listeners = notify (k.on_value_changed t at old value) s'.listeners },
        at,
      )

-- `clear` leaves the listeners, and does not tell them.
unfoldable pub clear : DataTable → DataTable
unfolding new_table
clear t = new_table

any_filled : List (List Text) → Bool
any_filled [] = false
any_filled (r ∷ rs) = if is_empty r then any_filled rs else true

unfoldable pub empty : DataTable → Bool
unfolding any_filled
empty t = if is_empty t.rows then true else any_filled t.rows

has_listener : {L : Type 0} → ℕ → List (ℕ × L) → Bool
has_listener a [] = false
has_listener a ((b, l) ∷ ls) = if a == b then true else has_listener a ls

remove_listener : {L : Type 0} → ℕ → List (ℕ × L) → List (ℕ × L)
remove_listener a [] = []
remove_listener a ((b, l) ∷ ls) =
    let rest = remove_listener a ls in if a == b then rest else (b, l) ∷ rest

unfoldable pub add_data_table_change_listener : {L : Type 0} → ℕ → L → Listened L → Listened L
unfolding has_listener
add_data_table_change_listener a l s =
    if has_listener a s.listeners then s else record s { listeners = (a, l) ∷ s.listeners }

unfoldable pub remove_data_table_change_listener : {L : Type 0} → ℕ → Listened L → Listened L × Bool
unfolding has_listener remove_listener
remove_data_table_change_listener a s =
    (record s { listeners = remove_listener a s.listeners }, has_listener a s.listeners)

unfoldable pub append_rows : Text → List (List Text) → Text
append_rows delimiter [] = []
append_rows delimiter (r ∷ rs) = text "\n" ++ (join delimiter r ++ append_rows delimiter rs)

-- The column names and the notes, each line behind a `#`.
unfoldable pub header_text : Text → DataTable → Text
header_text delimiter t =
    text "# "
    ++ (join delimiter t.column_names
        ++ (if is_empty t.table_notes then [] else text "\n# " ++ join (text "\n# ") t.table_notes))

-- The bytes that `writeToFile` puts into the file.
unfoldable pub file_text : Text → DataTable → Text
unfolding append_rows header_text
file_text delimiter t = header_text delimiter t ++ (append_rows delimiter t.rows ++ text "\n")
