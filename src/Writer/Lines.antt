-- ===== src/Writer/Lines.antt =====
-- The text that src/utility/DataTableWriter.cpp writes of a table, line by line.
use structure_pipe.Base.{
  ℕ, suc, ◌+◌, ◌≡◌, refl, sym, ap, ap₂, ◌∙◌, List, [], ◌∷◌, ◌++◌, map, length, drop, append_assoc,
  append-nil, if◌then◌else◌, is_empty, arith, Text, text, join,
}
use structure_pipe.Table.{DataTable, append_rows, header_text}
use structure_pipe.Writer.{full_text}

-- A line with the names of the columns, one for each note, and one for each row.
abbrev pub table_lines : Text → DataTable → List Text
table_lines d t =
    (text "# " ++ join d t.column_names)
    ∷ (map (λ note. text "# " ++ note) t.table_notes ++ map (join d) t.rows)

abbrev pub lines_text : Text → DataTable → Text
lines_text d t = join (text "\n") (table_lines d t)

-- Lines, each behind a line break.
behind : List Text → Text
behind [] = []
behind (x ∷ xs) = text "\n" ++ (x ++ behind xs)

join-behind : (x : Text) (xs : List Text) → join (text "\n") (x ∷ xs) ≡ x ++ behind xs
unfolding behind
join-behind x [] = sym (append-nil x)
join-behind x (y ∷ ys) = ap (λ q. x ++ (text "\n" ++ q)) (join-behind y ys)

behind-append : (xs ys : List Text) → behind (xs ++ ys) ≡ behind xs ++ behind ys
unfolding behind
behind-append [] ys = refl
behind-append (x ∷ xs) ys =
    ap (λ q. text "\n" ++ (x ++ q)) (behind-append xs ys)
    ∙ ap (λ q. text "\n" ++ q) (sym (append_assoc x (behind xs) (behind ys)))

append_rows-behind :
    (d : Text) (rows : List (List Text)) → append_rows d rows ≡ behind (map (join d) rows)
unfolding append_rows behind
append_rows-behind d [] = refl
append_rows-behind d (r ∷ rs) = ap (λ q. text "\n" ++ (join d r ++ q)) (append_rows-behind d rs)

notes-behind :
    (note : Text) (notes : List Text)
    → text "\n# " ++ join (text "\n# ") (note ∷ notes)
      ≡ behind (map (λ x. text "# " ++ x) (note ∷ notes))
unfolding behind
notes-behind note [] = ap (λ q. text "\n# " ++ q) (sym (append-nil note))
notes-behind note (x ∷ xs) = ap (λ q. text "\n# " ++ (note ++ q)) (notes-behind x xs)

pub full_text-lines : (d : Text) (t : DataTable) → full_text d t ≡ lines_text d t
unfolding full_text header_text is_empty
full_text-lines d t =
    by_notes t.table_notes ∙ sym (join-behind (text "# " ++ join d t.column_names) _)
  where
    by_notes :
        (notes : List Text)
        → (text "# "
              ++ (join d t.column_names
                  ++ (if is_empty notes then [] else text "\n# " ++ join (text "\n# ") notes)))
            ++ append_rows d t.rows
          ≡ (text "# " ++ join d t.column_names)
            ++ behind (map (λ note. text "# " ++ note) notes ++ map (join d) t.rows)
    by_notes [] =
        ap₂ (λ (a b : Text). (text "# " ++ a) ++ b) (append-nil (join d t.column_names))
          (append_rows-behind d t.rows)
    by_notes (x ∷ xs) =
        ap₂ (λ (a b : Text). (text "# " ++ (join d t.column_names ++ a)) ++ b) (notes-behind x xs)
          (append_rows-behind d t.rows)
        ∙ append_assoc (text "# " ++ join d t.column_names)
            (behind (map (λ note. text "# " ++ note) (x ∷ xs))) (behind (map (join d) t.rows))
        ∙ ap (λ q. (text "# " ++ join d t.column_names) ++ q)
            (sym (behind-append (map (λ note. text "# " ++ note) (x ∷ xs)) (map (join d) t.rows)))

pub drop-past : {A : Type 0} (xs ys : List A) (n : ℕ) → drop (length xs + n) (xs ++ ys) ≡ drop n ys
drop-past [] ys n = ap (λ m. drop m ys) (let e : 0 + n ≡ n = omega arith in e)
drop-past (x ∷ xs) ys n =
    ap (λ m. drop m (x ∷ (xs ++ ys)))
      (let e : suc (length xs) + n ≡ suc (length xs + n) = omega arith in e)
    ∙ drop-past xs ys n
