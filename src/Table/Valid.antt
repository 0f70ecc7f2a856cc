-- ===== src/Table/Valid.antt =====
-- A well-formed table: every mapped key is the first cell of its row, every mapped column name
-- stands at its number behind the key column, and no row has more cells than there are columns.
use structure_pipe.Base.{
  ℕ, zero, suc, ◌+◌, ◌-◌, ◌≤◌, ◌<◌, ◌≡◌, refl, sym, ap, ◌∙◌, inl, inr, some, List, [], ◌∷◌, ◌++◌,
  arith, if◌then◌else◌, leb, lt→leb_false, ==_iff, subst, ◌==◌, Bool-cases, Option-cases, length,
  get_elem?, get_or, set, replicate, All, All-append, All-mono, length-append, length-replicate,
  length-set, get_elem?-set_self, get_elem?-set_ne, get_elem?-append_left, get_elem?-append_at,
  get_elem?_in_range, Text, text_eq, text_eq_iff, text_eq_refl,
}
use structure_pipe.Base.Assoc.{lookup}
use structure_pipe.Table.{DataTable, new_table, insert_value, row, col_at, grow}

pub record IsValid (t : DataTable) : Type 0 where
  pub keyed :
      (k : Text) (i : ℕ)
      → lookup k t.row_map ≡ some i
      → (rest : List Text) × (get_elem? t.rows i ≡ some (k ∷ rest))
  pub named :
      (n : Text) (j : ℕ)
      → lookup n t.column_map ≡ some j
      → (get_elem? t.column_names j ≡ some n) × (1 ≤ j)
  pub fits : All (λ r. length r ≤ length t.column_names) t.rows
  pub filled : All (λ r. 1 ≤ length r) t.rows
  pub has_key_column : 1 ≤ length t.column_names

pub new_table-IsValid : IsValid new_table
unfolding new_table lookup
new_table-IsValid = record {
  keyed = λ k i h. absurd (cc);
  named = λ n j h. absurd (cc);
  fits = tt;
  filled = tt;
  has_key_column = omega arith;
}

-- The row that `insertValue` leaves.
unfoldable pub put_cell : List Text → ℕ → Text → List Text
put_cell r c v = if leb (length r) c then set (grow (c + 1) [] r) c v else set r c v

pub length-put_cell :
    (r : List Text) (c : ℕ) (v : Text)
    → length (put_cell r c v) ≡ (if leb (length r) c then c + 1 else length r)
unfolding put_cell
length-put_cell r c v = ground (
  arith,
  length-set (grow (c + 1) [] r) c v,
  length-set r c v,
  length-append r (replicate (c + 1 - length r) []),
  length-replicate {A = Text} (c + 1 - length r) [],
)

get_or-set :
    (r : List Text) (c j : ℕ) (v : Text)
    → c < length r
    → get_or (set r c v) j [] ≡ (if c == j then v else get_or r j [])
get_or-set [] c j v h = elim h [ ]
get_or-set (x ∷ r) zero zero v h = refl
get_or-set (x ∷ r) zero (suc j) v h = ground arith
get_or-set (x ∷ r) (suc c) zero v h = ground arith
get_or-set (x ∷ r) (suc c) (suc j) v h = ground (arith, get_or-set r c j v)

get_or-replicate : (n j : ℕ) → get_or (replicate {A = Text} n []) j [] ≡ []
get_or-replicate zero j = refl
get_or-replicate (suc n) zero = refl
get_or-replicate (suc n) (suc j) = get_or-replicate n j

get_or-grow : (r : List Text) (n j : ℕ) → get_or (r ++ replicate n []) j [] ≡ get_or r j []
get_or-grow [] n j = get_or-replicate n j
get_or-grow (x ∷ r) n zero = refl
get_or-grow (x ∷ r) n (suc j) = get_or-grow r n j

pub get_or-put_cell :
    (r : List Text) (c j : ℕ) (v : Text)
    → get_or (put_cell r c v) j [] ≡ (if c == j then v else get_or r j [])
unfolding put_cell
get_or-put_cell r c j v = elim (Bool-cases (leb (length r) c)) [
  | inl t ↦ rw t (
      get_or-set (grow (c + 1) [] r) c j v (
        ground (
          arith,
          length-append r (replicate (c + 1 - length r) []),
          length-replicate {A = Text} (c + 1 - length r) [],
        ))
      ∙ rw (get_or-grow r (c + 1 - length r) j) refl)
  | inr t ↦ rw t (get_or-set r c j v (ground arith))
]

put_cell-cons :
    (k : Text) (r : List Text) (c : ℕ) (v : Text) → put_cell (k ∷ r) (suc c) v ≡ k ∷ put_cell r c v
unfolding put_cell
put_cell-cons k r c v = ground arith

get_or-of_get_elem? :
    {A : Type 0} (l : List A) (i : ℕ) (a d : A) → get_elem? l i ≡ some a → get_or l i d ≡ a
get_or-of_get_elem? [] i a d h = absurd (cc)
get_or-of_get_elem? (x ∷ l) zero a d h = cc
get_or-of_get_elem? (x ∷ l) (suc i) a d h = get_or-of_get_elem? l i a d h

-- In a row that exists `insertValue` writes one cell of that row.
pub insert_value-set :
    (t : DataTable) (r c : ℕ) (v : Text)
    → r < length t.rows
    → (insert_value (r, c) v t).0
      ≡ record t { rows = set t.rows r (put_cell (get_or t.rows r []) c v) }
unfolding insert_value put_cell
insert_value-set t r c v h =
    rw (lt→leb_false (length t.rows) r h) (elim (Bool-cases (leb (length (get_or t.rows r [])) c)) [
      | inl u ↦ rw u refl
      | inr u ↦ rw u refl
    ])

All-set :
    {A : Type 0} (P : A → Type 0) (l : List A) (i : ℕ) (a : A) → All P l → P a → All P (set l i a)
All-set P [] i a h k = tt
All-set P (x ∷ l) zero a h k = (k, h.1)
All-set P (x ∷ l) (suc i) a h k = (h.0, All-set P l i a h.1 k)

All-get_elem? :
    {A : Type 0} (P : A → Type 0) (l : List A) (i : ℕ) (a : A)
    → All P l
    → get_elem? l i ≡ some a
    → P a
All-get_elem? P [] i a h e = absurd (cc)
All-get_elem? P (x ∷ l) zero a h e = subst P (cc) h.0
All-get_elem? P (x ∷ l) (suc i) a h e = All-get_elem? P l i a h.1 e

set-row :
    (l : List (List Text)) (i : ℕ) (r : List Text)
    → (n : ℕ) → i < length l
    → get_elem? (set l i r) n ≡ (if i == n then some r else get_elem? l n)
set-row l i r n h = elim (Bool-cases (i == n)) [
  | inl t ↦ rw t (ap (get_elem? (set l i r)) (sym ((==_iff i n).0 t)) ∙ get_elem?-set_self l i r h)
  | inr t ↦ rw t (get_elem?-set_ne l i n r (λ e. absurd (cc ((==_iff i n).1 e))))
]

All-get_or :
    {A : Type 0} (P : A → Type 0) (l : List A) (i : ℕ) (d : A)
    → All P l
    → i < length l
    → P (get_or l i d)
All-get_or P [] i d h lt = elim lt [ ]
All-get_or P (x ∷ l) zero d h lt = h.0
All-get_or P (x ∷ l) (suc i) d h lt = All-get_or P l i d h.1 (omega arith)

keyed_after :
    (l : List (List Text)) (r c i : ℕ) (v k : Text) (rest : List Text)
    → r < length l
    → get_elem? l i ≡ some (k ∷ rest)
    → (rest' : List Text) × (get_elem? (set l r (put_cell (get_or l r []) (suc c) v)) i
        ≡ some (k ∷ rest'))
keyed_after l r c i v k rest hr e = elim (Bool-cases (r == i)) [
  | inl t ↦
      let same : get_or l r [] ≡ k ∷ rest =
        ap (λ n. get_or l n []) ((==_iff r i).0 t) ∙ get_or-of_get_elem? l i (k ∷ rest) [] e in
      (
        put_cell rest c v,
        set-row l r _ i hr
            ∙ rw t (ap some (ap (λ q. put_cell q (suc c) v) same ∙ put_cell-cons k rest c v)),
      )
  | inr t ↦ (rest, set-row l r _ i hr ∙ rw t e)
]

-- `insertValue` at an existing row and a column behind the key column keeps the table valid.
pub insert_value-IsValid :
    (t : DataTable) (r c : ℕ) (v : Text)
    → IsValid t
    → r < length t.rows
    → suc c < length t.column_names
    → IsValid (insert_value (r, suc c) v t).0
insert_value-IsValid t r c v w hr hc =
    subst IsValid (sym (insert_value-set t r (suc c) v hr)) (record {
      keyed = λ k i h. keyed_after t.rows r c i v k (w.keyed k i h).0 hr (w.keyed k i h).1;
      named = w.named;
      fits = All-set _ t.rows r _ w.fits (
          ground (
            arith,
            length-put_cell (get_or t.rows r []) (suc c) v,
            All-get_or (λ q. length q ≤ length t.column_names) t.rows r [] w.fits hr,
          ));
      filled = All-set _ t.rows r _ w.filled (
          ground (
            arith,
            length-put_cell (get_or t.rows r []) (suc c) v,
            All-get_or (λ q. 1 ≤ length q) t.rows r [] w.filled hr,
          ));
      has_key_column = w.has_key_column;
    })

keyed_new :
    (t : DataTable) (key k : Text) (i : ℕ)
    → IsValid t
    → lookup k ((key, length t.rows) ∷ t.row_map) ≡ some i
    → (rest : List Text) × (get_elem? (t.rows ++ (key ∷ []) ∷ []) i ≡ some (k ∷ rest))
unfolding lookup
keyed_new t key k i w h = elim (Bool-cases (text_eq key k)) [
  | inl u ↦
      let at : length t.rows ≡ i = cc (rw u at h) in
      (
        [],
        ap (get_elem? (t.rows ++ (key ∷ []) ∷ [])) (sym at)
            ∙ get_elem?-append_at t.rows (key ∷ [])
            ∙ ap (λ q. some (q ∷ [])) ((text_eq_iff key k).0 u),
      )
  | inr u ↦
      let (rest, e) = w.keyed k i (rw u at h) in
      (rest, get_elem?-append_left t.rows _ i (get_elem?_in_range t.rows i e) ∙ e)
]

named_new :
    (t : DataTable) (name n : Text) (j : ℕ)
    → IsValid t
    → lookup n ((name, length t.column_names) ∷ t.column_map) ≡ some j
    → (get_elem? (t.column_names ++ name ∷ []) j ≡ some n) × (1 ≤ j)
unfolding lookup
named_new t name n j w h = elim (Bool-cases (text_eq name n)) [
  | inl u ↦
      let at : length t.column_names ≡ j = cc (rw u at h) in
      (
        ap (get_elem? (t.column_names ++ name ∷ [])) (sym at)
            ∙ get_elem?-append_at t.column_names name
            ∙ ap some ((text_eq_iff name n).0 u),
        omega (arith, w.has_key_column),
      )
  | inr u ↦
      let (e, one) = w.named n j (rw u at h) in
      (get_elem?-append_left t.column_names _ j (get_elem?_in_range t.column_names j e) ∙ e, one)
]

grown :
    (t : DataTable) (name : Text) → length (t.column_names ++ name ∷ []) ≡ length t.column_names + 1
grown t name = length-append t.column_names (name ∷ [])

lookup-cons_self : (k : Text) (n : ℕ) (m : List (Text × ℕ)) → lookup k ((k, n) ∷ m) ≡ some n
unfolding lookup
lookup-cons_self k n m = rw (text_eq_refl k)

pub row-IsValid :
    (t : DataTable) (key : Text)
    → IsValid t
    → IsValid (row key t).0
      × (lookup key (row key t).0.row_map ≡ some (row key t).1)
      × ((row key t).1 < length (row key t).0.rows)
unfolding row
row-IsValid t key w = elim (Option-cases (lookup key t.row_map)) [
  | inl e ↦
      rw (e, row)
        (
          record {
            keyed = λ k i. keyed_new t key k i w;
            named = w.named;
            fits = All-append _ t.rows ((key ∷ []) ∷ []) w.fits (w.has_key_column, tt);
            filled = All-append _ t.rows ((key ∷ []) ∷ []) w.filled (omega arith, tt);
            has_key_column = w.has_key_column;
          },
          lookup-cons_self key (length t.rows) t.row_map,
          omega (arith, length-append t.rows ((key ∷ []) ∷ [])),
        )
  | inr (i, e) ↦ rw (e, row) (w, e, get_elem?_in_range t.rows i (w.keyed key i e).1)
]

pub col_at-IsValid :
    (t : DataTable) (name : Text)
    → IsValid t
    → IsValid (col_at name t).0
      × (lookup name (col_at name t).0.column_map ≡ some (col_at name t).1)
      × (1 ≤ (col_at name t).1)
      × ((col_at name t).1 < length (col_at name t).0.column_names)
unfolding col_at
col_at-IsValid t name w = elim (Option-cases (lookup name t.column_map)) [
  | inl e ↦
      rw (e, col_at)
        (
          record {
            keyed = w.keyed;
            named = λ n j. named_new t name n j w;
            fits = All-mono (λ r h. omega (arith, h, grown t name)) t.rows w.fits;
            filled = w.filled;
            has_key_column = omega (arith, grown t name);
          },
          lookup-cons_self name (length t.column_names) t.column_map,
          w.has_key_column,
          omega (arith, grown t name),
        )
  | inr (j, e) ↦
      rw (e, col_at)
        (w, e, (w.named name j e).1, get_elem?_in_range t.column_names j (w.named name j e).0)
]
