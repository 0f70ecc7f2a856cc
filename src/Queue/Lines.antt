-- ===== src/Queue/Lines.antt =====
-- Lines of a text, and those of them that are work.
use structure_pipe.Base.{
  ℕ, zero, suc, ◌+◌, ◌≤◌, ◌≡◌, ◌≢◌, refl, sym, ap, ap₂, ◌∙◌, inl, inr, true, false, some, List, [],
  ◌∷◌, ◌++◌, length, take, drop, Text, text, is_empty, All, keep_if, arith, append_assoc,
  length-append, Bool-cases,
}
use structure_pipe.Queue.{line_of, behind_line, get_line, is_work}

-- The text whose lines are given, each with its end.
unfoldable pub unlines : List Text → Text
unlines [] = []
unlines (l ∷ ls) = l ++ (text "\n" ++ unlines ls)

abbrev pub IsLine : Text → Type 0
IsLine l = All (λ c. c ≢ 10) l

pub unlines-append : (xs ys : List Text) → unlines (xs ++ ys) ≡ unlines xs ++ unlines ys
unfolding unlines
unlines-append [] ys = refl
unlines-append (l ∷ ls) ys =
    ap (λ q. l ++ (text "\n" ++ q)) (unlines-append ls ys) ∙ sym (append_assoc l _ (unlines ys))

line_of-line : (l : Text) (rest : Text) → IsLine l → line_of (l ++ (text "\n" ++ rest)) ≡ l
unfolding line_of
line_of-line [] rest h = refl
line_of-line (c ∷ l) rest h = ground (arith, h.0, line_of-line l rest h.1)

behind_line-line :
    (l : Text) (rest : Text) → IsLine l → behind_line (l ++ (text "\n" ++ rest)) ≡ rest
unfolding behind_line
behind_line-line [] rest h = refl
behind_line-line (c ∷ l) rest h = ground (arith, h.0, behind_line-line l rest h.1)

get_line-some : (t : Text) → is_empty t ≡ false → get_line t ≡ some (line_of t, behind_line t)
unfolding get_line is_empty
get_line-some [] e = cc
get_line-some (c ∷ cs) e = refl

is_empty-append : (l : Text) (c : ℕ) (cs : Text) → is_empty (l ++ c ∷ cs) ≡ false
unfolding is_empty
is_empty-append [] c cs = refl
is_empty-append (d ∷ l) c cs = refl

pub get_line-unlines :
    (l : Text) (ls : List Text) → IsLine l → get_line (unlines (l ∷ ls)) ≡ some (l, unlines ls)
unfolding unlines
get_line-unlines l ls h =
    get_line-some (l ++ (text "\n" ++ unlines ls)) (is_empty-append l 10 (unlines ls))
    ∙ ap₂ (λ (a b : Text). some (a, b)) (line_of-line l (unlines ls) h)
        (behind_line-line l (unlines ls) h)

pub length-unlines_le : (ls : List Text) → length ls ≤ length (unlines ls)
unfolding unlines
length-unlines_le [] = omega arith
length-unlines_le (l ∷ ls) =
    omega (arith, length-unlines_le ls, length-append l (text "\n" ++ unlines ls))

-- The lines that wait to be taken, in order.
abbrev pub pending : List Text → List Text
pending ls = keep_if is_work ls

-- The lines without the first n that wait.
unfoldable pub without_first : ℕ → List Text → List Text
unfolding is_work
without_first zero ls = ls
without_first (suc n) [] = []
without_first (suc n) (l ∷ ls) = elim (is_work l) [
  | true ↦ without_first n ls
  | false ↦ l ∷ without_first (suc n) ls
]

pub pending-without_first :
    (n : ℕ) (ls : List Text) → pending (without_first n ls) ≡ drop n (pending ls)
unfolding without_first
pending-without_first zero ls = refl
pending-without_first (suc n) [] = refl
pending-without_first (suc n) (l ∷ ls) = elim (Bool-cases (is_work l)) [
  | inl e ↦ ground (arith, e, pending-without_first n ls)
  | inr e ↦ ground (arith, e, pending-without_first (suc n) ls)
]

pub length-without_first :
    (n : ℕ) (ls : List Text)
    → length (unlines (without_first n ls)) + length (unlines (take n (pending ls)))
      ≡ length (unlines ls)
unfolding without_first unlines
length-without_first zero ls = omega arith
length-without_first (suc n) [] = omega arith
length-without_first (suc n) (l ∷ ls) = elim (Bool-cases (is_work l)) [
  | inl e ↦ ground (
    arith,
    e,
    length-without_first n ls,
    length-append l (text "\n" ++ unlines ls),
    length-append l (text "\n" ++ unlines (take n (pending ls))),
  )
  | inr e ↦ ground (
    arith,
    e,
    length-without_first (suc n) ls,
    length-append l (text "\n" ++ unlines ls),
    length-append l (text "\n" ++ unlines (without_first (suc n) ls)),
  )
]

pub IsLine-without_first :
    (n : ℕ) (ls : List Text) → All IsLine ls → All IsLine (without_first n ls)
unfolding without_first
IsLine-without_first zero ls h = h
IsLine-without_first (suc n) [] h = tt
IsLine-without_first (suc n) (l ∷ ls) h = elim (Bool-cases (is_work l)) [
  | inl e ↦ rw (e, without_first) (IsLine-without_first n ls h.1)
  | inr e ↦ rw (e, without_first) (h.0, IsLine-without_first (suc n) ls h.1)
]

pub IsLine-pending : (n : ℕ) (ls : List Text) → All IsLine ls → All IsLine (take n (pending ls))
IsLine-pending zero ls h = tt
IsLine-pending (suc n) [] h = tt
IsLine-pending (suc n) (l ∷ ls) h = elim (Bool-cases (is_work l)) [
  | inl e ↦ rw e (h.0, IsLine-pending n ls h.1)
  | inr e ↦ rw e (IsLine-pending (suc n) ls h.1)
]

pub without_first-none :
    (n : ℕ) (ls : List Text) → length (take n (pending ls)) ≡ 0 → without_first n ls ≡ ls
unfolding without_first
without_first-none zero ls e = refl
without_first-none (suc n) [] e = refl
without_first-none (suc n) (l ∷ ls) e = elim (Bool-cases (is_work l)) [
  | inl w ↦ absurd (
      let f : length (take (suc n) (l ∷ pending ls)) ≡ 0 = ground (arith, e, w) in omega (arith, f))
  | inr w ↦
      rw (w, without_first) (ap (◌∷◌ l) (without_first-none (suc n) ls (ground (arith, e, w))))
]
