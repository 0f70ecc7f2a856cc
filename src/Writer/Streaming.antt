-- ===== src/Writer/Streaming.antt =====
-- The contract of `DataTableWriter::write`.
use structure_pipe.Base.{
  ◌≤◌, ◌<◌, ◌≡◌, refl, ap, sym, subst, ◌∙◌, ◌+◌, ℕ, ◌⊎◌, inl, inr, Bool, true, false, some, ◌++◌,
  arith, Bool-cases, All, length, drop, Text,
}
use structure_pipe.Table.{DataTable, append_rows}
use structure_pipe.Writer.{last_row, DataTableWriter, size_mod, full_text, write}
use structure_pipe.Writer.Whole.{Snapshot, Synced, after_full, write_full-after, full_Synced}
use structure_pipe.Writer.Lines.{lines_text, full_text-lines, drop-past}
use structure_pipe.Writer.Added.{
  rest_text, after_added-stale, after_added, write_from-after, after_added-content, added_Snapshot,
}

-- What a write leaves of a file that held `old`: the prefix, the lines of the table, and behind
-- them the bytes that stood there before; nothing is waiting to be written, and the next write
-- finds what it needs.
pub record Written (pre old : Text) (t : DataTable) (w : DataTableWriter) : Type 0 where
  pub content :
      w.out_stream.content
      ≡ pre
        ++ (lines_text w.column_delimiter t
            ++ drop (length pre + length (lines_text w.column_delimiter t)) old)
  pub synced : Synced pre t w
  pub none_waiting : w.data_since_write ≡ 0
  pub not_full : w.full_write_required ≡ false
  pub ends : w.last_write_coords.0 ≡ last_row t

-- The same with the text as the code puts it together.
as_lines :
    (pre old content : Text) (d : Text) (t : DataTable) (n : ℕ) (tail : Text)
    → content ≡ pre ++ (full_text d t ++ drop n tail)
    → drop (length pre + length (full_text d t)) old ≡ drop n tail
    → content ≡ pre ++ (lines_text d t ++ drop (length pre + length (lines_text d t)) old)
as_lines pre old content d t n tail c e =
    subst (λ q. content ≡ pre ++ (q ++ drop (length pre + length q) old)) (full_text-lines d t)
      (c ∙ ap (λ q. pre ++ (full_text d t ++ q)) (sym e))

module _ (opens : Bool) (pre : Text) (t : DataTable) (w : DataTableWriter)
    (small : length t.rows < size_mod) (filled : All (λ q. 1 ≤ length q) t.rows)
    (ok : Synced pre t w) where
  full_Written :
      w.full_write_required ≡ true
      → (w' : DataTableWriter) × (write opens t w ≡ some (w', true))
        × Written pre w.out_stream.content t w'
  unfolding write after_full
  full_Written e =
      let (rest, c) = ok.begins in
      (
        after_full pre rest t w,
        ground (arith, write_full-after opens pre rest t w ok.is_good ok.is_open ok.marker_eq c),
        record {
          content =
              as_lines pre w.out_stream.content _ w.column_delimiter t
                (length (full_text w.column_delimiter t)) rest (unfold after_full in refl)
                (ap (drop (length pre + length (full_text w.column_delimiter t))) c
                  ∙ drop-past pre rest (length (full_text w.column_delimiter t)));
          synced = full_Synced pre rest t w ok.marker_eq small filled;
          none_waiting = unfold after_full in refl;
          not_full = unfold after_full in refl;
          ends = unfold after_full in refl;
        },
      )

  added_Written :
      w.full_write_required ≡ false
      → Snapshot pre t w
      → (w' : DataTableWriter) × (write opens t w ≡ some (w', true))
        × Written pre w.out_stream.content t w'
  unfolding write after_added
  added_Written e s =
      let stale2 =
        drop
          (length (rest_text w.column_delimiter s.cells ++ append_rows w.column_delimiter s.more))
          s.stale in
      (
        after_added w s,
        ground (arith, write_from-after pre t w s ok.is_good),
        record {
          content =
              as_lines pre w.out_stream.content _ w.column_delimiter t
                (length
                  (rest_text w.column_delimiter s.cells ++ append_rows w.column_delimiter s.more))
                s.stale (after_added-content w s) (after_added-stale w s);
          synced = record {
            is_good = unfold after_added in refl;
            is_open = unfold after_added in ok.is_open;
            marker_eq = unfold after_added in ok.marker_eq;
            begins = (full_text w.column_delimiter t ++ stale2, after_added-content w s);
            state = inr (inl (added_Snapshot w s small filled));
          };
          none_waiting = unfold after_added in refl;
          not_full = unfold after_added in refl;
          ends = unfold after_added in refl;
        },
      )

  -- `write` on an open, good stream whose file is in step with the table, or that is to be written
  -- in full, on a table of fewer than 2 ^ 64 rows, none of them empty: it succeeds, whether it
  -- writes the whole table or only what was added. The file then holds its prefix, a line with
  -- the names of the columns, one for each note and one for each row, and behind them the bytes
  -- that it held there before; nothing waits to be written, the file is in step again, and the
  -- last row is the one that the writer goes on from.
  pub write-Written :
      (w.full_write_required ≡ true) ⊎ Snapshot pre t w
      → (w' : DataTableWriter) × (write opens t w ≡ some (w', true))
        × Written pre w.out_stream.content t w'
  write-Written (inl e) = full_Written e
  write-Written (inr s) = elim (Bool-cases w.full_write_required) [
    | inl e ↦ full_Written e
    | inr e ↦ added_Written e s
  ]
