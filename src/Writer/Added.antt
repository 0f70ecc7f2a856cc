-- ===== src/Writer/Added.antt =====
-- Incremental writes of src/utility/DataTableWriter.cpp: the bytes behind the last cell written.
use structure_pipe.Base.{
  ℕ, ◌+◌, ◌≤◌, ◌<◌, ◌≡◌, sym, ap, ap₂, ◌∙◌, true, false, ◌&&◌, some, List, [], ◌∷◌, ◌++◌, arith,
  if◌then◌else◌, ltb, subst, All, length, drop, length-append, append_assoc, append-nil,
  drop-append, Text, text, join,
}
use structure_pipe.Table.{DataTable, num_rows, append_rows, header_text}
use structure_pipe.Writer.Stream.{write_bytes, overwrite-append}
use structure_pipe.Writer.{
  DataTableWriter, size_mod, last_size, last_row, full_text, write_from, remainder, written_size,
}
use structure_pipe.Writer.Lines.{drop-past}
use structure_pipe.Writer.Whole.{Snapshot, join-append, split_rows, All-last}

-- The cells behind those written in a row.
unfoldable pub rest_text : Text → List Text → Text
rest_text d [] = []
rest_text d (c ∷ cs) = d ++ join d (c ∷ cs)

join-rest_text :
    (d : Text) (written cells : List Text)
    → 0 < length written
    → join d (written ++ cells) ≡ join d written ++ rest_text d cells
unfolding rest_text
join-rest_text d [] cells h = elim h [ ]
join-rest_text d (x ∷ xs) [] h =
    ap (join d) (append-nil (x ∷ xs)) ∙ sym (append-nil (join d (x ∷ xs)))
join-rest_text d (x ∷ xs) (c ∷ cs) h = join-append d x xs c cs

added_rows :
    (d : Text) (init : List (List Text)) (written cells : List Text) (more : List (List Text))
    → 0 < length written
    → append_rows d (init ++ (written ++ cells) ∷ more)
      ≡ append_rows d (init ++ written ∷ []) ++ (rest_text d cells ++ append_rows d more)
unfolding append_rows
added_rows d [] written cells more h =
    ap (λ q. text "\n" ++ (q ++ append_rows d more)) (join-rest_text d written cells h)
    ∙ simp append_assoc
added_rows d (r ∷ init) written cells more h =
    ap (λ q. text "\n" ++ (join d r ++ q)) (added_rows d init written cells more h)
    ∙ simp append_assoc

unwritten :
    (d : Text) (n : ℕ) (written cells : List Text)
    → n ≡ length written
    → 0 < length written
    → (if ltb 0 n && ltb n (length (written ++ cells))
        then d ++ join d (drop n (written ++ cells))
        else [])
      ≡ rest_text d cells
unfolding rest_text
unwritten d n written [] e h = ground (arith, length-append written [])
unwritten d n written (c ∷ cs) e h = ground (
  arith,
  length-append written (c ∷ cs),
  ap (λ m. drop m (written ++ c ∷ cs)) e ∙ drop-append written (c ∷ cs),
)

module _ (w : DataTableWriter) (written cells : List Text)
    (at : w.last_write_coords.1 ≡ length written) (some_written : 0 < length written) where
  remainder-rest_text : remainder w (written ++ cells) ≡ rest_text w.column_delimiter cells
  unfolding remainder
  remainder-rest_text =
      unwritten w.column_delimiter w.last_write_coords.1 written cells at some_written

  written_size-length : written_size w (written ++ cells) ≡ length (written ++ cells)
  unfolding written_size
  written_size-length = ground (arith, length-append written cells)

drop-rows :
    (init : List (List Text)) (rows : List (List Text)) (n : ℕ)
    → n ≡ length init
    → drop n (init ++ rows) ≡ rows
drop-rows init rows n e = ap (λ m. drop m (init ++ rows)) e ∙ drop-append init rows

-- The writer after an incremental write of a snapshot.
unfoldable pub after_added :
    {pre : Text} {t : DataTable} (w : DataTableWriter) → Snapshot pre t w → DataTableWriter
unfolding rest_text
after_added {pre} {t} w s =
    let d = w.column_delimiter in
    let old = pre ++ (header_text d t ++ append_rows d (s.init ++ s.written ∷ [])) in
    let bytes = rest_text d s.cells ++ append_rows d s.more in
    record w {
      data_since_write = 0;
      out_stream = record {
        is_open = w.out_stream.is_open;
        good = true;
        put = length old + length bytes;
        content = old ++ (bytes ++ drop (length bytes) s.stale);
      };
      last_write_coords = (last_row t, last_size 0 ((s.written ++ s.cells) ∷ s.more));
      full_write_required = false;
    }

pub write_from-after :
    (pre : Text) (t : DataTable) (w : DataTableWriter) (s : Snapshot pre t w)
    → w.out_stream.good ≡ true
    → write_from t w ≡ some (after_added w s)
unfolding write_from after_added last_size write_bytes
write_from-after pre t w s good =
    let at1 : w.last_write_coords.1 ≡ length s.written = ap (λ c. c.1) s.at_eq in
    let e : drop w.last_write_coords.0 t.rows ≡ (s.written ++ s.cells) ∷ s.more =
      ap (drop w.last_write_coords.0) s.rows_eq
      ∙ drop-rows s.init _ w.last_write_coords.0 (ap (λ c. c.0) s.at_eq) in
    let d = w.column_delimiter in
    let old = pre ++ (header_text d t ++ append_rows d (s.init ++ s.written ∷ [])) in
    let bytes = rest_text d s.cells ++ append_rows d s.more in
    rw (e, write_from)
      (ground (
        arith,
        remainder-rest_text w s.written s.cells at1 s.some_written,
        written_size-length w s.written s.cells at1 s.some_written,
        overwrite-append old s.stale bytes,
      ))

-- What was written together is the whole table.
whole_body :
    {pre : Text} {t : DataTable} (w : DataTableWriter) (s : Snapshot pre t w)
    → let d = w.column_delimiter in
      full_text d t
      ≡ (header_text d t ++ append_rows d (s.init ++ s.written ∷ []))
        ++ (rest_text d s.cells ++ append_rows d s.more)
unfolding full_text
whole_body {t = t} w s =
    let d = w.column_delimiter in
    ap (λ q. header_text d t ++ append_rows d q) s.rows_eq
    ∙ ap (λ q. header_text d t ++ q) (added_rows d s.init s.written s.cells s.more s.some_written)
    ∙ sym (append_assoc (header_text d t) _ _)

-- After an incremental write the file holds the prefix and the whole table, as after a whole write.
pub after_added-content :
    {pre : Text} {t : DataTable} (w : DataTableWriter) (s : Snapshot pre t w)
    → let d = w.column_delimiter in
      (after_added w s).out_stream.content
      ≡ pre
        ++ (full_text d t ++ drop (length (rest_text d s.cells ++ append_rows d s.more)) s.stale)
unfolding after_added
after_added-content {pre} {t} w s =
    let d = w.column_delimiter in
    let bytes = rest_text d s.cells ++ append_rows d s.more in
    append_assoc pre _ _
    ∙ ap (λ q. pre ++ q)
        (sym (
            append_assoc (header_text d t ++ append_rows d (s.init ++ s.written ∷ [])) bytes
              (drop (length bytes) s.stale))
          ∙ ap (λ q. q ++ drop (length bytes) s.stale) (sym (whole_body w s)))

-- What stays behind it is what the file held there.
pub after_added-stale :
    {pre : Text} {t : DataTable} (w : DataTableWriter) (s : Snapshot pre t w)
    → let d = w.column_delimiter in
      drop (length pre + length (full_text d t)) w.out_stream.content
      ≡ drop (length (rest_text d s.cells ++ append_rows d s.more)) s.stale
after_added-stale {pre} {t} w s =
    let d = w.column_delimiter in
    let old = header_text d t ++ append_rows d (s.init ++ s.written ∷ []) in
    let bytes = rest_text d s.cells ++ append_rows d s.more in
    let size : length pre + length (full_text d t) ≡ length (pre ++ old) + length bytes =
      omega (arith, ap length (whole_body w s), length-append pre old, length-append old bytes) in
    ap₂ (λ n q. drop n q) size s.content_eq ∙ drop-past (pre ++ old) s.stale (length bytes)

pub added_Snapshot :
    {pre : Text} {t : DataTable} (w : DataTableWriter) (s : Snapshot pre t w)
    → length t.rows < size_mod
    → All (λ q. 1 ≤ length q) t.rows
    → Snapshot pre t (after_added w s)
unfolding last_row num_rows full_text
added_Snapshot {pre} {t} w s small filled =
    let d = w.column_delimiter in
    let bytes = rest_text d s.cells ++ append_rows d s.more in
    let (init2, last, eq, len, size) = split_rows (s.written ++ s.cells) s.more 0 in
    let rows : t.rows ≡ (s.init ++ init2) ++ last ∷ [] =
      s.rows_eq ∙ ap (λ q. s.init ++ q) eq ∙ sym (append_assoc s.init init2 (last ∷ [])) in
    let body : full_text d t ≡ header_text d t ++ append_rows d ((s.init ++ init2) ++ last ∷ []) =
      ap (λ q. header_text d t ++ append_rows d q) rows in
    record {
      init = s.init ++ init2;
      written = last;
      cells = [];
      more = [];
      stale = drop (length bytes) s.stale;
      rows_eq = rows ∙ ap (λ q. (s.init ++ init2) ++ q ∷ []) (sym (append-nil last));
      at_eq =
          unfold after_added in
          ap₂ (λ (a b : ℕ). (a, b))
            (omega (
              arith,
              ap length rows,
              length-append s.init init2,
              length-append (s.init ++ init2) (last ∷ []),
            ))
            size;
      some_written =
          All-last _ (s.init ++ init2) last (subst (All (λ q. 1 ≤ length q)) rows filled);
      content_eq =
          after_added-content w s
          ∙ ap (λ q. pre ++ (q ++ drop (length bytes) s.stale)) body
          ∙ (unfold after_added in sym (append_assoc pre _ _));
      put_eq =
          unfold after_added in
          sym (
            length-append (pre ++ (header_text d t ++ append_rows d (s.init ++ s.written ∷ [])))
              bytes)
          ∙ ap length (append_assoc pre _ _ ∙ ap (λ q. pre ++ q) (sym (whole_body w s) ∙ body));
    }
