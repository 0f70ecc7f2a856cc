-- ===== src/Table/Cells.antt =====
-- A table as a map from keys and column names to cells, in which a cell that is not there is the
-- empty text.
use structure_pipe.Base.{
  ℕ, zero, suc, ◌-◌, ◌≤◌, ◌<◌, ◌≡◌, refl, sym, ap, ap₂, ◌∙◌, inl, inr, Bool, true, false, ◌&&◌,
  Option, none, some, List, [], ◌∷◌, ◌++◌, arith, if◌then◌else◌, ◌==◌, ==_iff, Bool-cases,
  Option-cases, subst, length, get_elem?_in_range, get_or, set, All, Text, text_eq, text_eq_iff,
  is_empty,
}
use structure_pipe.Base.Assoc.{lookup}
use structure_pipe.Table.{
  DataTable, Coords, insert_value, row, col_at, Listener, Listened, coords, insert, empty,
  any_filled,
}
use structure_pipe.Table.Valid.{
  IsValid, put_cell, get_or-put_cell, insert_value-set, insert_value-IsValid, row-IsValid,
  col_at-IsValid,
}

-- The table with the row of a key and the column of a name.
pub located : Text → Text → DataTable → DataTable
located key name t = (row key (col_at name t).0).0

pub row-col_at : (key name : Text) (t : DataTable) → (row key (col_at name t).0).1 ≡ (row key t).1
unfolding row col_at
row-col_at key name t = ground arith

pub col_at-row :
    (key name : Text) (t : DataTable) → (col_at name (row key t).0).1 ≡ (col_at name t).1
unfolding row col_at
col_at-row key name t = ground arith

row_columns :
    (key : Text) (t : DataTable)
    → ((row key t).0.column_map ≡ t.column_map) × ((row key t).0.column_names ≡ t.column_names)
unfolding row
row_columns key t = ground arith

module _ {L : Type 0} (k : Listener L) where
  -- Whichever argument of `Coords` comes first, the table and the coordinates are the same.
  pub coords-located :
      (row_first : Bool) (key name : Text) (s : Listened L)
      → ((coords k row_first key name s).0.table ≡ located key name s.table)
        × ((coords k row_first key name s).1 ≡ ((row key s.table).1, (col_at name s.table).1))
  unfolding coords located
  coords-located true key name s = ground arith
  coords-located false key name s = ground arith

  pub insert-located :
      (row_first : Bool) (key name value : Text) (s : Listened L)
      → let at : Coords = ((row key s.table).1, (col_at name s.table).1) in
        ((insert k row_first key name value s).0.table
          ≡ (insert_value at value (located key name s.table)).0)
        × ((insert k row_first key name value s).1 ≡ at)
  unfolding insert
  insert-located row_first key name value s =
      let (e, f) = coords-located row_first key name s in
      (ap₂ (λ (a : Coords) t. (insert_value a value t).0) f e, f)

pub located-IsValid :
    (key name : Text) (t : DataTable)
    → IsValid t
    → let t' = located key name t in
      IsValid t'
      × (lookup key t'.row_map ≡ some (row key t).1)
      × ((row key t).1 < length t'.rows)
      × (lookup name t'.column_map ≡ some (col_at name t).1)
      × (1 ≤ (col_at name t).1)
      × ((col_at name t).1 < length t'.column_names)
unfolding located
located-IsValid key name t w =
    let (wc, ec, one, lt) = col_at-IsValid t name w in
    let (wr, er, ltr) = row-IsValid (col_at name t).0 key wc in
    let same = row-col_at key name t in
    let (map_same, names_same) = row_columns key (col_at name t).0 in
    (
      wr,
      er ∙ ap some same,
      subst (λ n. n < length (row key (col_at name t).0).0.rows) same ltr,
      ap (lookup name) map_same ∙ ec,
      one,
      subst (λ ns. (col_at name t).1 < length ns) (sym names_same) lt,
    )

-- The cell of two numbers that may be missing.
cell_at : List (List Text) → Option ℕ → Option ℕ → Text
cell_at rows none p = []
cell_at rows (some i) none = []
cell_at rows (some i) (some j) = get_or (get_or rows i []) j []

-- What the table holds for a key and a column name.
pub cell : DataTable → Text → Text → Text
unfolding cell_at
cell t key name = cell_at t.rows (lookup key t.row_map) (lookup name t.column_map)

get_or-append_new :
    (l : List (List Text)) (i : ℕ) (r : List Text)
    → i < length l
    → get_or (l ++ r ∷ []) i [] ≡ get_or l i []
get_or-append_new [] i r h = elim h [ ]
get_or-append_new (x ∷ l) zero r h = refl
get_or-append_new (x ∷ l) (suc i) r h = get_or-append_new l i r (omega arith)

get_or-append_last : (l : List (List Text)) (r : List Text) → get_or (l ++ r ∷ []) (length l) [] ≡ r
get_or-append_last [] r = refl
get_or-append_last (x ∷ l) r = get_or-append_last l r

get_or-beyond : (r : List Text) (j : ℕ) → length r ≤ j → get_or r j [] ≡ []
get_or-beyond [] j h = refl
get_or-beyond (x ∷ r) zero h = absurd (omega arith)
get_or-beyond (x ∷ r) (suc j) h = get_or-beyond r j (omega arith)

cell_at-new_row :
    (t : DataTable) (key : Text) (p : Option ℕ)
    → IsValid t
    → ((j : ℕ) → p ≡ some j → 1 ≤ j)
    → cell_at (t.rows ++ (key ∷ []) ∷ []) (some (length t.rows)) p ≡ []
unfolding cell_at
cell_at-new_row t key none w h = refl
cell_at-new_row t key (some j) w h =
    ap (λ r. get_or r j []) (get_or-append_last t.rows (key ∷ []))
    ∙ get_or-beyond (key ∷ []) j (h j refl)

cell_at-old_row :
    (t : DataTable) (r : List Text) (o p : Option ℕ)
    → ((i : ℕ) → o ≡ some i → i < length t.rows)
    → cell_at (t.rows ++ r ∷ []) o p ≡ cell_at t.rows o p
unfolding cell_at
cell_at-old_row t r none p h = refl
cell_at-old_row t r (some i) none h = refl
cell_at-old_row t r (some i) (some j) h =
    ap (λ q. get_or q j []) (get_or-append_new t.rows i r (h i refl))

cell-row : (t : DataTable) (key k c : Text) → IsValid t → cell (row key t).0 k c ≡ cell t k c
unfolding row cell cell_at lookup
cell-row t key k c w = elim (Option-cases (lookup key t.row_map)) [
  | inr (i, e) ↦ rw (e, row) refl
  | inl e ↦ elim (Bool-cases (text_eq key k)) [
    | inl u ↦
        rw (e, row, u)
          (cell_at-new_row t key (lookup c t.column_map) w (λ j h. (w.named c j h).1)
            ∙ sym (
                ap (λ o. cell_at t.rows o (lookup c t.column_map))
                  (ap (λ q. lookup q t.row_map) (sym ((text_eq_iff key k).0 u)) ∙ e)))
    | inr u ↦
        rw (e, row, u)
          (cell_at-old_row t (key ∷ []) (lookup k t.row_map) (lookup c t.column_map)
            (λ i h. get_elem?_in_range t.rows i (w.keyed k i h).1))
  ]
]

cell_at-no_column : (rows : List (List Text)) (o : Option ℕ) → cell_at rows o none ≡ []
unfolding cell_at
cell_at-no_column rows none = refl
cell_at-no_column rows (some i) = refl

cell_at-beyond :
    (n : ℕ) (rows : List (List Text)) (o : Option ℕ)
    → All (λ r. length r ≤ n) rows
    → cell_at rows o (some n) ≡ []
unfolding cell_at
cell_at-beyond n rows none h = refl
cell_at-beyond n [] (some i) h = refl
cell_at-beyond n (r ∷ rows) (some zero) h = get_or-beyond r n h.0
cell_at-beyond n (r ∷ rows) (some (suc i)) h = cell_at-beyond n rows (some i) h.1

cell-col_at :
    (t : DataTable) (name k c : Text) → IsValid t → cell (col_at name t).0 k c ≡ cell t k c
unfolding col_at cell lookup
cell-col_at t name k c w = elim (Option-cases (lookup name t.column_map)) [
  | inr (j, e) ↦ rw (e, col_at) refl
  | inl e ↦ elim (Bool-cases (text_eq name c)) [
    | inl u ↦
        rw (e, col_at, u)
          (cell_at-beyond (length t.column_names) t.rows (lookup k t.row_map) w.fits
            ∙ sym (
                ap (cell_at t.rows (lookup k t.row_map))
                  (ap (λ q. lookup q t.column_map) (sym ((text_eq_iff name c).0 u)) ∙ e)
                ∙ cell_at-no_column t.rows (lookup k t.row_map)))
    | inr u ↦ rw (e, col_at, u) refl
  ]
]

cell-located :
    (key name k c : Text) (t : DataTable) → IsValid t → cell (located key name t) k c ≡ cell t k c
unfolding located
cell-located key name k c t w =
    cell-row (col_at name t).0 key k c (col_at-IsValid t name w).0 ∙ cell-col_at t name k c w

-- The cell written, seen through numbers.
cell_at-set :
    (rows : List (List Text)) (i j : ℕ) (v : Text) (i' j' : ℕ)
    → i < length rows
    → cell_at (set rows i (put_cell (get_or rows i []) j v)) (some i') (some j')
      ≡ (if (i == i') && (j == j') then v else cell_at rows (some i') (some j'))
unfolding cell_at
cell_at-set [] i j v i' j' h = elim h [ ]
cell_at-set (r ∷ rows) zero j v zero j' h = get_or-put_cell r j j' v
cell_at-set (r ∷ rows) zero j v (suc i') j' h = ground arith
cell_at-set (r ∷ rows) (suc i) j v zero j' h = ground arith
cell_at-set (r ∷ rows) (suc i) j v (suc i') j' h =
    cell_at-set rows i j v i' j' (omega arith) ∙ ground arith

-- Two mapped keys with one row are one key, and so for columns.
key_of_row :
    (t : DataTable) (k k' : Text) (i : ℕ)
    → IsValid t
    → lookup k t.row_map ≡ some i
    → lookup k' t.row_map ≡ some i
    → k ≡ k'
key_of_row t k k' i w e e' = cc ((w.keyed k i e).1, (w.keyed k' i e').1)

name_of_column :
    (t : DataTable) (c c' : Text) (j : ℕ)
    → IsValid t
    → lookup c t.column_map ≡ some j
    → lookup c' t.column_map ≡ some j
    → c ≡ c'
name_of_column t c c' j w e e' = cc ((w.named c j e).0, (w.named c' j e').0)

some_inj : {A : Type 0} {a b : A} → some a ≡ some b → a ≡ b
some_inj h = cc

Bool-ext : (a b : Bool) → (a ≡ true → b ≡ true) → (b ≡ true → a ≡ true) → a ≡ b
Bool-ext true b h k = sym (h refl)
Bool-ext false true h k = k refl
Bool-ext false false h k = refl

row_test :
    (t : DataTable) (key k : Text) (i i' : ℕ)
    → IsValid t
    → lookup key t.row_map ≡ some i
    → lookup k t.row_map ≡ some i'
    → (i == i') ≡ text_eq key k
row_test t key k i i' w e e' =
    Bool-ext _ _
      (λ h.
        (text_eq_iff key k).1 (key_of_row t key k i w e (e' ∙ ap some (sym ((==_iff i i').0 h)))))
      (λ h.
        (==_iff i i').1
          (some_inj (sym e ∙ ap (λ q. lookup q t.row_map) ((text_eq_iff key k).0 h) ∙ e')))

column_test :
    (t : DataTable) (name c : Text) (j j' : ℕ)
    → IsValid t
    → lookup name t.column_map ≡ some j
    → lookup c t.column_map ≡ some j'
    → (j == j') ≡ text_eq name c
column_test t name c j j' w e e' =
    Bool-ext _ _
      (λ h.
        (text_eq_iff name c).1
          (name_of_column t name c j w e (e' ∙ ap some (sym ((==_iff j j').0 h)))))
      (λ h.
        (==_iff j j').1
          (some_inj (sym e ∙ ap (λ q. lookup q t.column_map) ((text_eq_iff name c).0 h) ∙ e')))

-- A key that is not mapped differs from one that is.
unmapped :
    (m : List (Text × ℕ)) (key k : Text) (i : ℕ)
    → lookup key m ≡ some i
    → lookup k m ≡ none
    → text_eq key k ≡ false
unmapped m key k i e e' = elim (Bool-cases (text_eq key k)) [
  | inl u ↦ absurd (cc (ap (λ q. lookup q m) ((text_eq_iff key k).0 u)))
  | inr u ↦ u
]

cell-put :
    (t : DataTable) (key name k c v : Text) (i j : ℕ)
    → IsValid t
    → lookup key t.row_map ≡ some i
    → lookup name t.column_map ≡ some j
    → i < length t.rows
    → cell (record t { rows = set t.rows i (put_cell (get_or t.rows i []) j v) }) k c
      ≡ (if text_eq key k && text_eq name c then v else cell t k c)
unfolding cell
cell-put t key name k c v i j w e f h = elim (Option-cases (lookup k t.row_map)) [
  | inl a ↦ rw (a, unmapped t.row_map key k i e a) refl
  | inr (i', a) ↦ elim (Option-cases (lookup c t.column_map)) [
    | inl b ↦ rw (a, b, unmapped t.column_map name c j f b) (ground arith)
    | inr (j', b) ↦
        rw (a, b, ← row_test t key k i i' w e a, ← column_test t name c j j' w f b)
          (cell_at-set t.rows i j v i' j' h)
  ]
]

put_located :
    (key name v : Text) (t : DataTable)
    → IsValid t
    → let t' = (insert_value ((row key t).1, (col_at name t).1) v (located key name t)).0 in
      IsValid t'
      × ((k c : Text) → cell t' k c ≡ (if text_eq key k && text_eq name c then v else cell t k c))
put_located key name v t w =
    let t1 = located key name t in
    let i = (row key t).1 in
    let j = (col_at name t).1 in
    let (w1, e, hi, f, one, hj) = located-IsValid key name t w in
    (
      subst (λ n. IsValid (insert_value (i, n) v t1).0) (let q : suc (j - 1) ≡ j = omega arith in q)
          (insert_value-IsValid t1 i (j - 1) v w1 hi (omega arith)),
      λ k c.
          ap (λ q. cell q k c) (insert_value-set t1 i j v hi)
          ∙ cell-put t1 key name k c v i j w1 e f hi
          ∙ ap (λ q. if text_eq key k && text_eq name c then v else q)
              (cell-located key name k c t w),
    )

-- On a valid table `insert` writes the cell of its key and column and leaves every other cell,
-- whichever argument of `Coords` is evaluated first, and keeps the table valid.
pub cell-insert :
    {L : Type 0} (n : Listener L) (row_first : Bool) (key name value : Text) (s : Listened L)
    → IsValid s.table
    → let t' = (insert n row_first key name value s).0.table in
      IsValid t'
      × ((k c : Text)
          → cell t' k c ≡ (if text_eq key k && text_eq name c then value else cell s.table k c))
cell-insert n row_first key name value s w =
    let e = (insert-located n row_first key name value s).0 in
    let (valid, cells) = put_located key name value s.table w in
    (subst IsValid (sym e) valid, λ k c. ap (λ q. cell q k c) e ∙ cells k c)

-- `empty` says that a valid table is empty, also when it has rows: its loop answers `true` at the
-- first row that has a cell.
pub empty_always : (t : DataTable) → IsValid t → empty t ≡ true
unfolding empty any_filled is_empty
empty_always t w = all_filled t.rows w.filled
  where
    all_filled :
        (rs : List (List Text))
        → All (λ r. 1 ≤ length r) rs
        → (if is_empty rs then true else any_filled rs) ≡ true
    all_filled [] h = refl
    all_filled ([] ∷ rs) h = absurd (omega arith)
    all_filled ((x ∷ r) ∷ rs) h = refl
