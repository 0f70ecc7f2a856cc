-- ===== src/Writer/Following.antt =====
-- What the changes of a table do to a snapshot of it in a file.
use structure_pipe.Base.{
  ℕ, zero, suc, ◌+◌, ◌-◌, ◌≤◌, ◌<◌, ◌≡◌, refl, sym, ap, ◌∙◌, inl, inr, Bool, true, false, Option,
  none, some, List, [], ◌∷◌, ◌++◌, arith, leb, Bool-cases, subst, length, set, get_or, replicate,
  length-append, append_assoc, Text,
}
use structure_pipe.Base.Assoc.{lookup}
use structure_pipe.Table.{DataTable, row, header_text, insert_value, grow}
use structure_pipe.Table.Valid.{put_cell, insert_value-set}
use structure_pipe.Writer.{DataTableWriter, coords_lt}
use structure_pipe.Writer.Whole.{Snapshot}

set-append_right :
    {A : Type 0} (xs ys : List A) (i : ℕ) (v : A)
    → length xs ≤ i
    → set (xs ++ ys) i v ≡ xs ++ set ys (i - length xs) v
set-append_right [] ys i v h = ap (λ q. set ys q v) (omega arith)
set-append_right (x ∷ xs) ys zero v h = absurd (omega (arith, h))
set-append_right (x ∷ xs) ys (suc i) v h = ap (◌∷◌ x) (
    set-append_right xs ys i v (omega (arith, h))
    ∙ ap (λ q. xs ++ set ys q v)
        (let e : i - length xs ≡ suc i - suc (length xs) = omega arith in e))

get_or-append_right :
    {A : Type 0} (xs ys : List A) (i : ℕ) (d : A)
    → length xs ≤ i
    → get_or (xs ++ ys) i d ≡ get_or ys (i - length xs) d
get_or-append_right [] ys i d h = ap (λ q. get_or ys q d) (omega arith)
get_or-append_right (x ∷ xs) ys zero d h = absurd (omega (arith, h))
get_or-append_right (x ∷ xs) ys (suc i) d h =
    get_or-append_right xs ys i d (omega (arith, h))
    ∙ ap (λ q. get_or ys q d) (let e : i - length xs ≡ suc i - suc (length xs) = omega arith in e)

put_cell-append :
    (xs ys : List Text) (c : ℕ) (v : Text)
    → length xs ≤ c
    → put_cell (xs ++ ys) c v ≡ xs ++ put_cell ys (c - length xs) v
unfolding put_cell
put_cell-append xs ys c v h =
    let n : c + 1 - length (xs ++ ys) ≡ c - length xs + 1 - length ys =
      omega (arith, length-append xs ys, h) in
    let grown : grow (c + 1) [] (xs ++ ys) ≡ xs ++ grow (c - length xs + 1) [] ys =
      append_assoc xs ys _ ∙ ap (λ q. xs ++ (ys ++ replicate {A = Text} q [])) n in
    elim (Bool-cases (leb (length ys) (c - length xs))) [
      | inl t ↦
          let u : leb (length (xs ++ ys)) c ≡ true = ground (arith, t, length-append xs ys, h) in
          rw (t, u)
            (ap (λ q. set q c v) grown ∙ set-append_right xs (grow (c - length xs + 1) [] ys) c v h)
      | inr t ↦
          let u : leb (length (xs ++ ys)) c ≡ false = ground (arith, t, length-append xs ys, h) in
          rw (t, u) (set-append_right xs ys c v h)
    ]

-- The row that holds the end of what was written, after a cell behind that was set.
module _ {pre : Text} {t : DataTable} (w : DataTableWriter) (s : Snapshot pre t w) where
  pub Snapshot-state :
      (n : ℕ) (full : Bool)
      → Snapshot pre t (record w { data_since_write = n; full_write_required = full })
  Snapshot-state n full = record {
    init = s.init;
    written = s.written;
    cells = s.cells;
    more = s.more;
    stale = s.stale;
    rows_eq = s.rows_eq;
    at_eq = s.at_eq;
    some_written = s.some_written;
    content_eq = s.content_eq;
    put_eq = s.put_eq;
  }

  -- A table with the same header whose rows begin with the same cells.
  Snapshot-rows :
      (rows : List (List Text)) (row_map : List (Text × ℕ)) (cells : List Text)
      (more : List (List Text))
      → rows ≡ s.init ++ (s.written ++ cells) ∷ more
      → Snapshot pre (record t { rows = rows; row_map = row_map }) w
  unfolding header_text
  Snapshot-rows rows row_map cells more e = record {
    init = s.init;
    written = s.written;
    cells = cells;
    more = more;
    stale = s.stale;
    rows_eq = e;
    at_eq = s.at_eq;
    some_written = s.some_written;
    content_eq = s.content_eq;
    put_eq = s.put_eq;
  }

  pub Snapshot-row : (key : Text) → Snapshot pre (row key t).0 w
  unfolding row
  Snapshot-row key = by_row (lookup key t.row_map)
    where
      by_row :
          (o : Option ℕ)
          → let r : DataTable × ℕ = elim o [
            | none ↦ (
              record t {
                rows = t.rows ++ (key ∷ []) ∷ [];
                row_map = (key, length t.rows) ∷ t.row_map;
              },
              length t.rows,
            )
            | some i ↦ (t, i)
          ] in
            Snapshot pre r.0 w
      by_row none =
          Snapshot-rows (t.rows ++ (key ∷ []) ∷ []) _ s.cells (s.more ++ (key ∷ []) ∷ [])
            (ap (λ q. q ++ (key ∷ []) ∷ []) s.rows_eq ∙ append_assoc s.init _ _)
      by_row (some i) = s

  rows_behind :
      (r c : ℕ) (v : Text)
      → coords_lt (r, c) w.last_write_coords ≡ false
      → (cells : List Text) × (more : List (List Text)) × (set t.rows r
            (put_cell (get_or t.rows r []) c v)
          ≡ s.init ++ (s.written ++ cells) ∷ more)
  unfolding coords_lt
  rows_behind r c v behind =
      let line = s.written ++ s.cells in
      let e = s.rows_eq in
      let at0 : w.last_write_coords.0 ≡ length s.init = ap (λ q. q.0) s.at_eq in
      let at1 : w.last_write_coords.1 ≡ length s.written = ap (λ q. q.1) s.at_eq in
      let after : length s.init ≤ r = ground (arith, behind, at0) in
      let here : set t.rows r (put_cell (get_or t.rows r []) c v)
          ≡ s.init
            ++ set (line ∷ s.more) (r - length s.init)
                (put_cell (get_or (line ∷ s.more) (r - length s.init) []) c v) =
        ap (λ q. set q r (put_cell (get_or q r []) c v)) e
        ∙ ap (λ q. set (s.init ++ line ∷ s.more) r (put_cell q c v))
            (get_or-append_right s.init (line ∷ s.more) r [] after)
        ∙ set-append_right s.init (line ∷ s.more) r _ after in
      by_row (r - length s.init) here (λ z. ground (arith, behind, at0, at1, after, z))
    where
      by_row :
          (n : ℕ)
          → set t.rows r (put_cell (get_or t.rows r []) c v)
            ≡ s.init
              ++ set
                  ((s.written ++ s.cells) ∷ s.more)
                  n
                  (put_cell (get_or ((s.written ++ s.cells) ∷ s.more) n []) c v)
          → (n ≡ 0 → length s.written ≤ c)
          → (cells : List Text) × (more : List (List Text)) × (set t.rows r
                (put_cell (get_or t.rows r []) c v)
              ≡ s.init ++ (s.written ++ cells) ∷ more)
      by_row zero e h = (
        put_cell s.cells (c - length s.written) v,
        s.more,
        e ∙ ap (λ q. s.init ++ q ∷ s.more) (put_cell-append s.written s.cells c v (h refl)),
      )
      by_row (suc n) e h = (s.cells, set s.more n (put_cell (get_or s.more n []) c v), e)

  -- Setting a cell that is not before the end of what was written.
  pub Snapshot-insert_value :
      (r c : ℕ) (v : Text)
      → r < length t.rows
      → coords_lt (r, c) w.last_write_coords ≡ false
      → Snapshot pre (insert_value (r, c) v t).0 w
  Snapshot-insert_value r c v h behind =
      let (cells, more, e) = rows_behind r c v behind in
      subst (λ q. Snapshot pre q w) (sym (insert_value-set t r c v h))
        (Snapshot-rows _ t.row_map cells more e)
