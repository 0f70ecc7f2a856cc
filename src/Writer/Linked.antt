-- ===== src/Writer/Linked.antt =====
-- A table and the writer that listens to it, src/utility/DataTableWriter.cpp.
use structure_pipe.Base.{
  ℕ, suc, ◌+◌, ◌-◌, ◌%◌, ◌≤◌, ◌<◌, ◌≡◌, refl, sym, ap, ◌∙◌, ◌⊎◌, inl, inr, Bool, true, false, ◌||◌,
  Option, none, some, [], ◌∷◌, ◌++◌, arith, Bool-cases, subst, length, length-set, length-append,
  Text,
}
use structure_pipe.Base.Assoc.{lookup}
use structure_pipe.Table.{
  DataTable, Coords, Listened, row, row_of, col_at, col, coords, insert, insert_value, notify,
}
use structure_pipe.Table.Valid.{
  IsValid, row-IsValid, col_at-IsValid, insert_value-IsValid, insert_value-set,
}
use structure_pipe.Table.Cells.{coords-located, located-IsValid}
use structure_pipe.Writer.{
  DataTableWriter, size_mod, coords_lt, diff, value_changed, column_changed, writer_listener,
}
use structure_pipe.Writer.Whole.{Snapshot, Synced}
use structure_pipe.Writer.Following.{Snapshot-state, Snapshot-row, Snapshot-insert_value}
use structure_pipe.Writer.Due.{IsReady, Synced-state, due}

-- A valid table with one listener, a writer whose file is in step with it; n rows more still have
-- numbers.
pub record Linked (pre : Text) (n : ℕ) (s : Listened (Option DataTableWriter)) : Type 0 where
  pub address : ℕ
  pub writer : DataTableWriter
  pub listeners_eq : s.listeners ≡ (address, some writer) ∷ []
  pub synced : Synced pre s.table writer
  pub valid : IsValid s.table
  pub small : length s.table.rows + n < size_mod

module _ (opens : Bool) (pre : Text) where
  length-row : (key : Text) (t : DataTable) → length (row key t).0.rows ≤ suc (length t.rows)
  unfolding row
  length-row key t = by_row (lookup key t.row_map)
    where
      by_row :
          (o : Option ℕ)
          → let r : DataTable × ℕ = elim o [
            | none ↦ (
              record t {
                rows = t.rows ++ (key ∷ []) ∷ [];
                row_map = (key, length t.rows) ∷ t.row_map;
              },
              length t.rows,
            )
            | some i ↦ (t, i)
          ] in
            length r.0.rows ≤ suc (length t.rows)
      by_row none = omega (arith, length-append t.rows ((key ∷ []) ∷ []))
      by_row (some i) = omega arith

  row_state :
      (key : Text) (t : DataTable) (w : DataTableWriter)
      → (w.full_write_required ≡ true) ⊎ (Snapshot pre t w ⊎ (w.last_write_coords.0 ≡ size_mod - 1))
      → (w.full_write_required ≡ true)
        ⊎ (Snapshot pre (row key t).0 w ⊎ (w.last_write_coords.0 ≡ size_mod - 1))
  row_state key t w (inl e) = inl e
  row_state key t w (inr (inl s)) = inr (inl (Snapshot-row w s key))
  row_state key t w (inr (inr e)) = inr (inr e)

  row_of-Linked :
      (n : ℕ) (key : Text) (s : Listened (Option DataTableWriter))
      → Linked pre (suc n) s
      → Linked pre n (row_of (writer_listener opens) key s).0
  unfolding row_of
  row_of-Linked n key s h = record {
    address = h.address;
    writer = h.writer;
    listeners_eq = h.listeners_eq;
    synced = record {
      is_good = h.synced.is_good;
      is_open = h.synced.is_open;
      marker_eq = h.synced.marker_eq;
      begins = h.synced.begins;
      state = row_state key s.table h.writer h.synced.state;
    };
    valid = (row-IsValid s.table key h.valid).0;
    small = omega (arith, h.small, length-row key s.table);
  }

  col_at-rows : (name : Text) (t : DataTable) → (col_at name t).0.rows ≡ t.rows
  unfolding col_at
  col_at-rows name t = ground arith

  col-Linked :
      (n : ℕ) (name : Text) (s : Listened (Option DataTableWriter))
      → Linked pre n s
      → Linked pre n (col (writer_listener opens) name s).0
  unfolding col notify writer_listener column_changed
  col-Linked n name s h = elim (Bool-cases (col_at name s.table).2) [
    | inr e ↦ rw e h
    | inl e ↦
        let (t, j, added) = col_at name s.table in
        let w = h.writer in
        let waiting = (w.data_since_write + diff [] name) % size_mod in
        let w1 : DataTableWriter = record w {
          data_since_write = waiting;
          full_write_required = true;
        } in
        let valid = (col_at-IsValid s.table name h.valid).0 in
        let small : length t.rows + n < size_mod =
          omega (arith, h.small, ap length (col_at-rows name s.table)) in
        let (w', f, synced, ready) =
          due opens pre t w1 (Synced-state pre s.table t w waiting true h.synced (inl refl))
            (inl refl) (omega (arith, small)) valid.filled in
        rw e (record {
          address = h.address;
          writer = w';
          listeners_eq =
              ap (notify ((writer_listener opens).on_column_changed t j [] name)) h.listeners_eq
              ∙ ap (λ q. (h.address, q) ∷ []) f;
          synced = synced;
          valid = valid;
          small = small;
        })
  ]

  value_changed-IsReady :
      (r c : ℕ) (v : Text) (t : DataTable) (w : DataTableWriter) (waiting : ℕ)
      → Synced pre t w
      → length t.rows < size_mod
      → r < length t.rows
      → IsReady pre (insert_value (r, c) v t).0 (record w {
        data_since_write = waiting;
        full_write_required = w.full_write_required || coords_lt (r, c) w.last_write_coords;
      })
  value_changed-IsReady r c v t w waiting s small inside =
      elim (Bool-cases (coords_lt (r, c) w.last_write_coords)) [
        | inl before ↦ inl (ground (arith, before))
        | inr behind ↦ by_state behind s.state
      ]
    where
      by_state :
          coords_lt (r, c) w.last_write_coords ≡ false
          → (w.full_write_required ≡ true)
            ⊎ (Snapshot pre t w ⊎ (w.last_write_coords.0 ≡ size_mod - 1))
          → IsReady pre (insert_value (r, c) v t).0 (record w {
            data_since_write = waiting;
            full_write_required = w.full_write_required || coords_lt (r, c) w.last_write_coords;
          })
      by_state behind (inl e) = inl (ground (arith, e))
      by_state behind (inr (inl q)) =
          inr (Snapshot-state w (Snapshot-insert_value w q r c v inside behind) waiting _)
      by_state behind (inr (inr e)) =
          absurd (unfold coords_lt in ground (arith, behind, e, small, inside))

  value-Linked :
      (n r c : ℕ) (v : Text) (s : Listened (Option DataTableWriter))
      → Linked pre n s
      → r < length s.table.rows
      → suc c < length s.table.column_names
      → let change = insert_value (r, suc c) v s.table in
        let s' : Listened (Option DataTableWriter) = record {
          table = change.0;
          listeners =
              notify
                ((writer_listener opens).on_value_changed change.0 (r, suc c) change.1 v)
                s.listeners;
        } in
        (after : Linked pre n s') × IsReady pre s'.table after.writer
  unfolding notify writer_listener value_changed
  value-Linked n r c v s h inside column =
      let change = insert_value (r, suc c) v s.table in
      let t = change.0 in
      let w = h.writer in
      let waiting = (w.data_since_write + diff change.1 v) % size_mod in
      let full = w.full_write_required || coords_lt (r, suc c) w.last_write_coords in
      let w1 : DataTableWriter = record w {
        data_since_write = waiting;
        full_write_required = full;
      } in
      let valid = insert_value-IsValid s.table r c v h.valid inside column in
      let same : length t.rows ≡ length s.table.rows =
        ap (λ q. length q.rows) (insert_value-set s.table r (suc c) v inside)
        ∙ length-set s.table.rows r _ in
      let ready =
        value_changed-IsReady r (suc c) v s.table w waiting h.synced (omega (arith, h.small))
          inside in
      let (w', f, synced, then_ready) =
        due opens pre t w1 (Synced-state pre s.table t w waiting full h.synced ready) ready
          (omega (arith, same, h.small)) valid.filled in
      (
        record {
          address = h.address;
          writer = w';
          listeners_eq =
              ap (notify ((writer_listener opens).on_value_changed t (r, suc c) change.1 v))
                h.listeners_eq
              ∙ ap (λ q. (h.address, q) ∷ []) f;
          synced = synced;
          valid = valid;
          small = omega (arith, same, h.small);
        },
        then_ready (omega (arith, same, inside)),
      )

  coords-Linked :
      (n : ℕ) (row_first : Bool) (key name : Text) (s : Listened (Option DataTableWriter))
      → Linked pre (suc n) s
      → Linked pre n (coords (writer_listener opens) row_first key name s).0
  unfolding coords
  coords-Linked n true key name s h =
      col-Linked n name (row_of (writer_listener opens) key s).0 (row_of-Linked n key s h)
  coords-Linked n false key name s h =
      row_of-Linked n key (col (writer_listener opens) name s).0 (col-Linked (suc n) name s h)

  -- A linked table and a writer that is ready for it.
  abbrev pub LinkedReady : ℕ → Listened (Option DataTableWriter) → Type 0
  LinkedReady n s = (h : Linked pre n s) × IsReady pre s.table h.writer

  pub insert-LinkedReady :
      (n : ℕ) (row_first : Bool) (key name value : Text) (s : Listened (Option DataTableWriter))
      → Linked pre (suc n) s
      → LinkedReady n (insert (writer_listener opens) row_first key name value s).0
  unfolding insert
  insert-LinkedReady n row_first key name value s h =
      let k = writer_listener opens in
      let s' = (coords k row_first key name s).0 in
      let (e, f) = coords-located k row_first key name s in
      let i = (row key s.table).1 in
      let j = (col_at name s.table).1 in
      let (w1, _, hi, _, one, hj) = located-IsValid key name s.table h.valid in
      let at_eq : (i, suc (j - 1)) ≡ (coords k row_first key name s).1 =
        ap (λ q. (i, q)) (let q : suc (j - 1) ≡ j = omega (arith, one) in q) ∙ sym f in
      subst
        (λ (at : Coords). LinkedReady n (record {
          table = (insert_value at value s'.table).0;
          listeners =
              notify
                (k.on_value_changed (insert_value at value s'.table).0 at
                  (insert_value at value s'.table).1 value)
                s'.listeners;
        }))
        at_eq
        (value-Linked n i (j - 1) value s' (coords-Linked n row_first key name s h)
          (subst (λ q. i < length q.rows) (sym e) hi)
          (subst (λ q. suc (j - 1) < length q.column_names) (sym e) (omega (arith, one, hj))))
