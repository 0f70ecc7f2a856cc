-- ===== src/Blocks/SearchStoichiometries/Ranges.antt =====
-- The range of the stoichiometries, as the options state it.
use structure_pipe.Base.{
  ℕ, ◌+◌, ◌^◌, ◌-◌, ◌%◌, ◌<◌, ◌≡◌, refl, ap, ◌∙◌, Bool, true, false, ◌&&◌, List, [], ◌∷◌,
  if◌then◌else◌, ltb, leb, keep_if, All, Text, text_eq, text_eq_iff, arith, Bool-cases, inl, inr,
}
use structure_pipe.Blocks.SearchStoichiometries.{
  ℤ, pos, negsuc, to_unsigned, next_int, CountRange, lower_bounds, upper_bounds, MultiIndices,
}

-- How often an index stands in a list.
unfoldable pub occurrences : List ℕ → List (List ℕ) → ℕ
occurrences idx [] = 0
occurrences idx (x ∷ xs) = (if text_eq x idx then 1 else 0) + occurrences idx xs

-- An index with as many numbers as there are bounds, each in its half-open interval.
abbrev pub in_box : List ℕ → List ℕ → List ℕ → Bool
in_box [] [] [] = true
in_box (l ∷ ls) (u ∷ us) (n ∷ idx) = leb l n && (ltb n u && in_box ls us idx)
in_box _ _ _ = false

abbrev pub total : List ℕ → ℕ
total [] = 0
total (n ∷ idx) = n + total idx

-- A range has just the indices in its bounds, each once, and the sum is that of `unsigned int`.
pub record IsLawful (m : MultiIndices) (lower upper : List ℕ) : Type 0 where
  pub covers :
      (idx : List ℕ)
      → occurrences idx (m.range lower upper) ≡ (if in_box lower upper idx then 1 else 0)
  pub sums : (idx : List ℕ) → m.sum idx ≡ total idx % 2 ^ 32

-- A count that is an `int` and not negative, and not the greatest.
abbrev pub IsCount : ℤ → Type 0
IsCount (pos n) = n < 2 ^ 31 - 1
IsCount (negsuc n) = ⊥

abbrev pub AreCounts : List (Text × CountRange) → Type 0
AreCounts rs = All (λ r. IsCount r.1.min × IsCount r.1.max) rs

abbrev pub is_between : ℤ → ℤ → ℕ → Bool
is_between (pos a) (pos b) n = leb a n && leb n b
is_between _ _ n = false

-- One count for each species, from its least to its greatest number, both included.
abbrev pub in_ranges : List (Text × CountRange) → List ℕ → Bool
in_ranges [] [] = true
in_ranges (r ∷ rs) (n ∷ idx) = is_between r.1.min r.1.max n && in_ranges rs idx
in_ranges _ _ = false

is_between-bounds :
    (a b : ℤ) (n : ℕ) (rest : Bool)
    → IsCount a
    → IsCount b
    → (leb (to_unsigned a) n && (ltb n (to_unsigned (next_int b)) && rest))
      ≡ (is_between a b n && rest)
unfolding to_unsigned next_int
is_between-bounds (pos a) (pos b) n rest h k = ground (arith, h, k)
is_between-bounds (pos a) (negsuc b) n rest h k = elim k [ ]
is_between-bounds (negsuc a) b n rest h k = elim h [ ]

pub in_box-bounds :
    (rs : List (Text × CountRange)) (idx : List ℕ)
    → AreCounts rs
    → in_box (lower_bounds rs) (upper_bounds rs) idx ≡ in_ranges rs idx
unfolding lower_bounds upper_bounds
in_box-bounds [] [] h = refl
in_box-bounds [] (n ∷ idx) h = refl
in_box-bounds ((symbol, range) ∷ rs) [] h = refl
in_box-bounds ((symbol, range) ∷ rs) (n ∷ idx) h =
    is_between-bounds range.min range.max n _ h.0.0 h.0.1
    ∙ ap (λ q. is_between range.min range.max n && q) (in_box-bounds rs idx h.1)

pub occurrences-keep_if :
    (p : List ℕ → Bool) (idx : List ℕ) (xs : List (List ℕ))
    → occurrences idx (keep_if p xs) ≡ (if p idx then occurrences idx xs else 0)
unfolding occurrences
occurrences-keep_if p idx [] = ground arith
occurrences-keep_if p idx (x ∷ xs) = elim (Bool-cases (text_eq x idx)) [
  | inl same ↦
      let e = (text_eq_iff x idx).0 same in
      ground (arith, same, ap p e, occurrences-keep_if p idx xs)
  | inr other ↦ ground (arith, other, occurrences-keep_if p idx xs)
]
