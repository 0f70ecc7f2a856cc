-- ===== src/Writer/Due.antt =====
-- The writes that src/utility/DataTableWriter.cpp makes when enough has changed.
use mathlib.Core.Option
use structure_pipe.Base.{
  ℕ, ◌-◌, ◌≤◌, ◌<◌, ◌≡◌, refl, ap, ◌⊎◌, inl, inr, Bool, true, some, arith, ltb, Bool-cases, All,
  length, Text,
}
use structure_pipe.Table.{DataTable, num_rows}
use structure_pipe.Writer.{DataTableWriter, size_mod, last_row, write_if_due}
use structure_pipe.Writer.Whole.{Snapshot, Synced}
use structure_pipe.Writer.Streaming.{Written, write-Written}

-- The next write will find what it needs.
abbrev pub IsReady : Text → DataTable → DataTableWriter → Type 0
IsReady pre t w = (w.full_write_required ≡ true) ⊎ Snapshot pre t w

-- The state after the caller's changes of the two counters.
pub Synced-state :
    (pre : Text) (t t' : DataTable) (w : DataTableWriter) (n : ℕ) (full : Bool)
    → Synced pre t w
    → IsReady pre t' (record w { data_since_write = n; full_write_required = full })
    → Synced pre t' (record w { data_since_write = n; full_write_required = full })
Synced-state pre t t' w n full s (inl e) = record {
  is_good = s.is_good;
  is_open = s.is_open;
  marker_eq = s.marker_eq;
  begins = s.begins;
  state = inl e;
}
Synced-state pre t t' w n full s (inr e) = record {
  is_good = s.is_good;
  is_open = s.is_open;
  marker_eq = s.marker_eq;
  begins = s.begins;
  state = inr (inl e);
}

module _ (opens : Bool) (pre : Text) where
  Written-IsReady :
      (old : Text) (t : DataTable) (w : DataTableWriter)
      → length t.rows < size_mod
      → 0 < length t.rows
      → Written pre old t w
      → IsReady pre t w
  unfolding last_row num_rows
  Written-IsReady old t w small some_rows written = by_state written.synced.state
    where
      by_state :
          (w.full_write_required ≡ true)
            ⊎ (Snapshot pre t w ⊎ (w.last_write_coords.0 ≡ size_mod - 1))
          → IsReady pre t w
      by_state (inl e) = inl e
      by_state (inr (inl s)) = inr s
      by_state (inr (inr e)) = absurd (omega (arith, e, written.ends, small, some_rows))

  pub due :
      (t : DataTable) (w : DataTableWriter)
      → Synced pre t w
      → IsReady pre t w
      → length t.rows < size_mod
      → All (λ q. 1 ≤ length q) t.rows
      → (w' : DataTableWriter) × (write_if_due opens t w ≡ some w')
        × Synced pre t w'
        × (0 < length t.rows → IsReady pre t w')
  unfolding write_if_due
  due t w s ready small filled = elim (Bool-cases (ltb w.write_delay w.data_since_write)) [
    | inl e ↦
        let (w', f, written) = write-Written opens pre t w small filled s ready in
        (
          w',
          rw e (ap (Option.map (λ r. r.0)) f),
          written.synced,
          λ h. Written-IsReady w.out_stream.content t w' small h written,
        )
    | inr e ↦ (w, rw e refl, s, λ h. ready)
  ]
