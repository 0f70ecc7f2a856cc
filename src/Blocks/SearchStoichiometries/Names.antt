-- ===== src/Blocks/SearchStoichiometries/Names.antt =====
-- The names of the directories of the runs.
use structure_pipe.Base.{
  ℕ, zero, suc, ◌+◌, ◌<◌, ◌≡◌, refl, sym, ap, ap₂, ◌∙◌, Bool, true, false, List, [], ◌∷◌, ◌++◌,
  if◌then◌else◌, ltb, length, get_or, drop, All, Text, text, arith, append_assoc, drop-append,
  drop_all, length-append, decimal, span_digits, span_digits-append, value_from, value_from-decimal,
  decimal-IsDigit, IsUndigited,
}
use structure_pipe.Blocks.SearchStoichiometries.{CountRange, stoich_string}

-- The counts that are read back from a name: digits, the symbol of the species, a delimiter.
pub read_counts : List (Text × CountRange) → Text → List ℕ
read_counts [] s = []
read_counts ((symbol, range) ∷ rs) s =
    value_from 0 (span_digits s).0
    ∷ read_counts rs (drop (length (symbol ++ text "-")) (span_digits s).1)

-- No symbol begins with a digit.
abbrev pub SymbolsAreUndigited : List (Text × CountRange) → Type 0
SymbolsAreUndigited rs = All (λ r. IsUndigited r.0) rs

drop_step : (i : ℕ) (idx : List ℕ) → i < length idx → get_or idx i 0 ∷ drop (i + 1) idx ≡ drop i idx
drop_step i [] h = elim h [ ]
drop_step zero (n ∷ idx) h = refl
drop_step (suc i) (n ∷ idx) h =
    let e : suc i + 1 ≡ suc (i + 1) = omega arith in
    ap (λ j. get_or idx i 0 ∷ drop j (n ∷ idx)) e ∙ drop_step i idx (omega arith)

drop_whole : (i : ℕ) (idx : List ℕ) → i ≡ length idx → drop i idx ≡ []
drop_whole i [] e = rw e
drop_whole zero (n ∷ idx) e = absurd (omega arith)
drop_whole (suc i) (n ∷ idx) e = drop_whole i idx (omega arith)

IsUndigited-append :
    (symbol rest : Text) (b : Bool)
    → IsUndigited symbol
    → (b ≡ false → rest ≡ [])
    → IsUndigited (symbol ++ ((if b then text "-" else []) ++ rest))
IsUndigited-append (c ∷ symbol) rest b u e = u
IsUndigited-append [] rest true u e = refl
IsUndigited-append [] rest false u e = rw (e refl) tt

drop_delimiter :
    (symbol rest : Text) (b : Bool)
    → (b ≡ false → rest ≡ [])
    → drop (length (symbol ++ text "-")) (symbol ++ ((if b then text "-" else []) ++ rest)) ≡ rest
drop_delimiter symbol rest true e =
    ap (drop (length (symbol ++ text "-"))) (sym (append_assoc symbol (text "-") rest))
    ∙ drop-append (symbol ++ text "-") rest
drop_delimiter symbol rest false e =
    ap (λ q. drop (length (symbol ++ text "-")) (symbol ++ q)) (e refl)
    ∙ drop_all (length (symbol ++ text "-")) (symbol ++ [])
        (omega (arith, length-append symbol (text "-"), length-append symbol []))
    ∙ sym (e refl)

no_species :
    (i : ℕ) (idx : List ℕ) (rs : List (Text × CountRange))
    → length rs ≡ 0
    → stoich_string i idx rs ≡ []
unfolding stoich_string
no_species i idx [] e = refl
no_species i idx (r ∷ rs) e = absurd (omega arith)

-- From species i on.
read_counts-from :
    (rs : List (Text × CountRange)) (i : ℕ) (idx : List ℕ)
    → SymbolsAreUndigited rs
    → i + length rs ≡ length idx
    → read_counts rs (stoich_string i idx rs) ≡ drop i idx
unfolding read_counts stoich_string
read_counts-from [] i idx u e = sym (drop_whole i idx (omega arith))
read_counts-from ((symbol, range) ∷ rs) i idx u e =
    let rest = stoich_string (i + 1) idx rs in
    let b = ltb (i + 1) (length idx) in
    let last = λ (h : b ≡ false). no_species (i + 1) idx rs (ground (arith, h, e)) in
    let n = get_or idx i 0 in
    let split =
      span_digits-append (decimal n) (symbol ++ ((if b then text "-" else []) ++ rest))
        (decimal-IsDigit n) (IsUndigited-append symbol rest b u.0 last) in
    ap
      (λ (q : Text × Text).
        value_from 0 q.0 ∷ read_counts rs (drop (length (symbol ++ text "-")) q.1))
      split
    ∙ ap₂ (λ (m : ℕ) ms. m ∷ ms) (value_from-decimal n)
        (ap (read_counts rs) (drop_delimiter symbol rest b last)
          ∙ read_counts-from rs (i + 1) idx u.1 (omega arith))
    ∙ drop_step i idx (omega arith)

-- The name of the directory of a stoichiometry tells its counts: for symbols that do not begin with a
-- digit, and one count for each, they are read back from it.
pub read_counts-stoich_string :
    (rs : List (Text × CountRange)) (idx : List ℕ)
    → SymbolsAreUndigited rs
    → length rs ≡ length idx
    → read_counts rs (stoich_string 0 idx rs) ≡ idx
read_counts-stoich_string rs idx u e = read_counts-from rs 0 idx u (omega arith)
