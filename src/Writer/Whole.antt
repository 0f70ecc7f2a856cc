-- ===== src/Writer/Whole.antt =====
-- What the file of a writer holds of its table, and whole writes.
use structure_pipe.Base.{
  ℕ, suc, ◌+◌, ◌-◌, ◌≤◌, ◌<◌, ◌≡◌, refl, sym, ap, ap₂, ◌∙◌, ◌⊎◌, inl, inr, Bool, true, false, List,
  [], ◌∷◌, ◌++◌, arith, subst, All, length, drop, length-append, append_assoc, append-nil, Text,
  text, join,
}
use structure_pipe.Table.{DataTable, num_rows, append_rows, header_text}
use structure_pipe.Writer.Stream.{write_bytes, seek, overwrite-append}
use structure_pipe.Writer.{DataTableWriter, size_mod, last_size, last_row, full_text, write_full}

pub append_rows-append :
    (d : Text) (xs ys : List (List Text))
    → append_rows d (xs ++ ys) ≡ append_rows d xs ++ append_rows d ys
unfolding append_rows
append_rows-append d [] ys = refl
append_rows-append d (r ∷ rs) ys =
    ap (λ q. text "\n" ++ (join d r ++ q)) (append_rows-append d rs ys)
    ∙ ap (λ q. text "\n" ++ q) (sym (append_assoc (join d r) (append_rows d rs) (append_rows d ys)))

pub join-append :
    (d : Text) (x : Text) (xs : List Text) (y : Text) (ys : List Text)
    → join d ((x ∷ xs) ++ y ∷ ys) ≡ join d (x ∷ xs) ++ (d ++ join d (y ∷ ys))
join-append d x [] y ys = refl
join-append d x (z ∷ xs) y ys =
    ap (λ q. x ++ (d ++ q)) (join-append d z xs y ys) ∙ simp append_assoc

-- What the file holds of a table after a write, and where the writer thinks that it ends: the
-- rows `init`, and of the next row the cells `written`.
pub record Snapshot (pre : Text) (t : DataTable) (w : DataTableWriter) : Type 0 where
  pub init : List (List Text)
  pub written : List Text
  pub cells : List Text
  pub more : List (List Text)
  pub stale : Text
  pub rows_eq : t.rows ≡ init ++ ((written ++ cells) ∷ more)
  pub at_eq : w.last_write_coords ≡ (length init, length written)
  pub some_written : 0 < length written
  pub content_eq :
      w.out_stream.content
      ≡ (pre
          ++ (header_text w.column_delimiter t
              ++ append_rows w.column_delimiter (init ++ written ∷ [])))
        ++ stale
  pub put_eq :
      w.out_stream.put
      ≡ length (
          pre
          ++ (header_text w.column_delimiter t
              ++ append_rows w.column_delimiter (init ++ written ∷ [])))

-- The file begins with `pre`, which is kept; behind it the writer rewrites all, or what is there
-- is a snapshot, or (inside a call of `insert`) the table had no rows when it was written.
pub record Synced (pre : Text) (t : DataTable) (w : DataTableWriter) : Type 0 where
  pub is_good : w.out_stream.good ≡ true
  pub is_open : w.out_stream.is_open ≡ true
  pub marker_eq : w.write_marker ≡ length pre
  pub begins : (rest : Text) × (w.out_stream.content ≡ pre ++ rest)
  pub state :
      (w.full_write_required ≡ true) ⊎ (Snapshot pre t w ⊎ (w.last_write_coords.0 ≡ size_mod - 1))

pub split_rows :
    (r : List Text) (rs : List (List Text)) (n : ℕ)
    → (init : List (List Text)) × (last : List Text) × (r ∷ rs ≡ init ++ last ∷ [])
      × (length init ≡ length rs)
      × (last_size n (r ∷ rs) ≡ length last)
unfolding last_size
split_rows r [] n = ([], r, refl, refl, refl)
split_rows r (s ∷ rs) n =
    let (init, last, e, f, g) = split_rows s rs (length r) in
    (r ∷ init, last, ap (◌∷◌ r) e, ap suc f, g)

pub All-last : {A : Type 0} (P : A → Type 0) (xs : List A) (x : A) → All P (xs ++ x ∷ []) → P x
All-last P [] x h = h.0
All-last P (y ∷ xs) x h = All-last P xs x h.1

-- The writer after a whole write.
unfoldable pub after_full : Text → Text → DataTable → DataTableWriter → DataTableWriter
after_full pre rest t w =
    let full = full_text w.column_delimiter t in
    record w {
      data_since_write = 0;
      out_stream = record {
        is_open = true;
        good = true;
        content = pre ++ (full ++ drop (length full) rest);
        put = length pre + length full;
      };
      last_write_coords = (last_row t, last_size w.last_write_coords.1 t.rows);
      full_write_required = false;
    }

pub write_full-after :
    (opens : Bool) (pre rest : Text) (t : DataTable) (w : DataTableWriter)
    → w.out_stream.good ≡ true
    → w.out_stream.is_open ≡ true
    → w.write_marker ≡ length pre
    → w.out_stream.content ≡ pre ++ rest
    → write_full opens t w ≡ (after_full pre rest t w, true)
unfolding write_full seek write_bytes after_full
write_full-after opens pre rest t w g o m c =
    ground (arith, overwrite-append pre rest (full_text w.column_delimiter t))

full_rows :
    (pre rest : Text) (t : DataTable) (w : DataTableWriter) (r : List Text) (rs : List (List Text))
    → t.rows ≡ r ∷ rs
    → length t.rows < size_mod
    → All (λ q. 1 ≤ length q) t.rows
    → Snapshot pre t (after_full pre rest t w)
unfolding after_full full_text last_row num_rows
full_rows pre rest t w r rs e small filled =
    let d = w.column_delimiter in
    let (init, last, eq, len, size) = split_rows r rs w.last_write_coords.1 in
    let body : full_text d t ≡ header_text d t ++ append_rows d (init ++ last ∷ []) =
      ap (λ q. header_text d t ++ append_rows d q) (e ∙ eq) in
    record {
      init = init;
      written = last;
      cells = [];
      more = [];
      stale = drop (length (full_text d t)) rest;
      rows_eq = e ∙ eq ∙ ap (λ q. init ++ q ∷ []) (sym (append-nil last));
      at_eq =
          ap₂ (λ (a b : ℕ). (a, b)) (omega (arith, ap length e, len))
            (ap (last_size w.last_write_coords.1) e ∙ size);
      some_written = All-last _ init last (subst (All (λ q. 1 ≤ length q)) (e ∙ eq) filled);
      content_eq =
          ap (λ q. pre ++ (q ++ drop (length (full_text d t)) rest)) body
          ∙ sym (append_assoc pre _ _);
      put_eq =
          ap (λ q. length pre + length q) body
          ∙ sym (length-append pre (header_text d t ++ append_rows d (init ++ last ∷ [])));
    }

-- A whole write brings the file up to date, whatever it held behind the prefix.
pub full_Synced :
    (pre rest : Text) (t : DataTable) (w : DataTableWriter)
    → w.write_marker ≡ length pre
    → length t.rows < size_mod
    → All (λ q. 1 ≤ length q) t.rows
    → Synced pre t (after_full pre rest t w)
full_Synced pre rest t w m small filled = record {
  is_good = unfold after_full in refl;
  is_open = unfold after_full in refl;
  marker_eq = unfold after_full in m;
  begins = unfold after_full in (_, refl);
  state = inr (by_rows t.rows refl);
}
  where
    by_rows :
        (rows : List (List Text))
        → t.rows ≡ rows
        → Snapshot pre t (after_full pre rest t w)
          ⊎ ((after_full pre rest t w).last_write_coords.0 ≡ size_mod - 1)
    by_rows [] e = inr (unfold after_full last_row num_rows in omega (arith, ap length e))
    by_rows (r ∷ rs) e = inl (full_rows pre rest t w r rs e small filled)
