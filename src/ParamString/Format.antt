-- ===== src/ParamString/Format.antt =====
-- The three forms of a parameter range, read by both readers.
use mathlib.Core.Option
use structure_pipe.Base.{
  ℕ, ◌+◌, ◌%◌, ◌^◌, ◌≤◌, ◌<◌, ◌≡◌, ◌≢◌, refl, sym, ap, ◌∙◌, false, Option, some, [], ◌∷◌, ◌++◌,
  ◌==◌, length, Text, text, is_empty, All, All-append, arith, append_assoc, length-append,
  take-append, take_all, drop-append,
}
use structure_pipe.ParamString.{
  npos, find, substr, read_as, step_count, Outcome, parsed, parse_range, parse_param_string,
}

find-here :
    (c : ℕ) (xs ys : Text)
    → All (λ x. x ≢ c) xs
    → length xs < npos
    → find c (xs ++ c ∷ ys) ≡ length xs
unfolding find
find-here c [] ys h l = ground arith
find-here c (x ∷ xs) ys h l = ground (arith, h.0, find-here c xs ys h.1 (omega (arith, l)), l)

find-absent : (c : ℕ) (xs : Text) → All (λ x. x ≢ c) xs → find c xs ≡ npos
unfolding find
find-absent c [] h = refl
find-absent c (x ∷ xs) h = ground (arith, h.0, find-absent c xs h.1)

substr_prefix : (a rest : Text) → substr (a ++ rest) 0 (length a) ≡ some a
unfolding substr
substr_prefix a rest = ground (arith, take-append a rest)

substr_middle :
    (a b rest : Text) (pos count : ℕ)
    → pos ≡ length a
    → count ≡ length b
    → substr (a ++ (b ++ rest)) pos count ≡ some b
unfolding substr
substr_middle a b rest pos count e f =
    rw (e, substr)
      (rw (f, substr)
        (ground
          (arith, length-append a (b ++ rest), drop-append a (b ++ rest), take-append b rest)))

substr_suffix :
    (a b : Text) (pos count : ℕ)
    → pos ≡ length a
    → length b ≤ count
    → substr (a ++ b) pos count ≡ some b
unfolding substr
substr_suffix a b pos count e f =
    rw (e, substr) (ground (arith, length-append a b, drop-append a b, take_all count b f))

step_count-both : (p l t : ℕ) → t ≡ p + 1 + l → t < npos → step_count p t ≡ l
unfolding step_count
step_count-both p l t e h = ground (arith, e, h)

step_count-plus : (p l : ℕ) → p + 1 + l < npos → l ≤ step_count p npos
unfolding step_count
step_count-plus p l h = omega (arith, h)

read_as-cast :
    {A B : Type 0} (o : Option Text) (s : Text) (cast : Text → Option A) (f : A → Outcome B) (x : A)
    → o ≡ some s
    → cast s ≡ some x
    → read_as o cast f ≡ f x
unfolding read_as
read_as-cast o s cast f x e h = rw (e, read_as) (rw (h, read_as) refl)

-- A text without `+` and `*`.
abbrev pub IsPlain : Text → Type 0
IsPlain t = All (λ c. c ≢ 43) t × All (λ c. c ≢ 42) t

-- The text `a+b*n`, and where its signs stand.
abbrev pub range_text : Text → Text → Text → Text
range_text a b n = a ++ (text "+" ++ (b ++ (text "*" ++ n)))

module _ (a b n : Text) (pa : IsPlain a) (pb : IsPlain b)
    (short : length (range_text a b n) < npos) where
  lengths : length (range_text a b n) ≡ length a + (1 + (length b + (1 + length n)))
  lengths =
      omega (
        arith,
        length-append a (text "+" ++ (b ++ (text "*" ++ n))),
        length-append b (text "*" ++ n),
      )

  plus_at : find 43 (range_text a b n) ≡ length a
  plus_at = find-here 43 a _ pa.0 (omega (arith, lengths, short))

  regroup : range_text a b n ≡ (a ++ (text "+" ++ b)) ++ (text "*" ++ n)
  regroup = sym (append_assoc a (text "+" ++ b) (text "*" ++ n))

  times_at : find 42 (range_text a b n) ≡ length a + 1 + length b
  times_at =
      ap (find 42) regroup
      ∙ find-here 42 (a ++ (text "+" ++ b)) n
          (All-append (λ c. c ≢ 42) a (text "+" ++ b) pa.1 (omega arith, pb.1))
          (omega (arith, length-append a (text "+" ++ b), lengths, short))
      ∙ omega (arith, length-append a (text "+" ++ b))

  step_text :
      substr (range_text a b n) (length a + 1) (step_count (length a) (length a + 1 + length b))
      ≡ some b
  step_text =
      ap (λ q. substr q (length a + 1) (step_count (length a) (length a + 1 + length b)))
        (sym (append_assoc a (text "+") (b ++ (text "*" ++ n))))
      ∙ substr_middle (a ++ text "+") b (text "*" ++ n) _ _
          (omega (arith, length-append a (text "+")))
          (step_count-both (length a) (length b) _ refl (omega (arith, lengths, short)))

  count_text : substr (range_text a b n) (length a + 1 + length b + 1) npos ≡ some n
  count_text =
      ap (λ q. substr q (length a + 1 + length b + 1) npos)
        (regroup ∙ sym (append_assoc (a ++ (text "+" ++ b)) (text "*") n))
      ∙ substr_suffix ((a ++ (text "+" ++ b)) ++ text "*") n _ npos
          (omega (
            arith,
            length-append (a ++ (text "+" ++ b)) (text "*"),
            length-append a (text "+" ++ b),
          ))
          (omega (arith, lengths, short))

  not_empty : is_empty (range_text a b n) ≡ false
  unfolding is_empty
  not_empty = empty_lem a
    where
      empty_lem : (x : Text) → is_empty (x ++ (text "+" ++ (b ++ (text "*" ++ n)))) ≡ false
      empty_lem [] = refl
      empty_lem (c ∷ cs) = refl

  module _ {D I : Type 0} (zero_d : D) (trim : Text → Text) (to_double : Text → Option D)
      (int_0 int_1 : I) (to_int : Text → Option I) where
    parse_range-three :
        (x y : D) (k : I)
        → to_double (trim a) ≡ some x
        → to_double (trim b) ≡ some y
        → to_int (trim n) ≡ some k
        → parse_range zero_d trim to_double int_0 int_1 to_int (range_text a b n) ≡ parsed (x, y, k)
    unfolding parse_range
    parse_range-three x y k e f g =
        let s = range_text a b n in
        let no_plus : (length a == npos) ≡ false = ground (arith, lengths, short) in
        let no_times : (length a + 1 + length b == npos) ≡ false = ground (arith, lengths, short) in
        rw (not_empty, plus_at, times_at, parse_range)
          (read_as-cast _ (trim a) to_double _ x (ap (Option.map trim) (substr_prefix a _)) e
            ∙ rw no_plus (
                read_as-cast _ (trim b) to_double _ y (ap (Option.map trim) step_text) f
                ∙ rw no_times
                    (read_as-cast _ (trim n) to_int _ k (ap (Option.map trim) count_text) g)))

  module _ {D : Type 0} (zero_d : D) (to_double : Text → Option D)
      (to_unsigned : Text → Option ℕ) where
    parse_param_string-three :
        (x y : D) (k : ℕ)
        → to_double a ≡ some x
        → to_double b ≡ some y
        → to_unsigned n ≡ some k
        → parse_param_string zero_d to_double to_unsigned (range_text a b n)
          ≡ parsed (x, y, (k + 1) % 2 ^ 32)
    unfolding parse_param_string
    parse_param_string-three x y k e f g =
        let no_plus : (length a == npos) ≡ false = ground (arith, lengths, short) in
        let no_times : (length a + 1 + length b == npos) ≡ false = ground (arith, lengths, short) in
        rw (not_empty, plus_at, times_at, parse_param_string)
          (read_as-cast _ a to_double _ x (substr_prefix a _) e
            ∙ rw no_plus (
                read_as-cast _ b to_double _ y step_text f
                ∙ rw no_times (read_as-cast _ n to_unsigned _ k count_text g)))

-- The text `a+b`.
abbrev pub step_range_text : Text → Text → Text
step_range_text a b = a ++ (text "+" ++ b)

module _ (a b : Text) (pa : IsPlain a) (pb : IsPlain b)
    (short : length (step_range_text a b) < npos) where
  lengths_two : length (step_range_text a b) ≡ length a + (1 + length b)
  lengths_two = omega (arith, length-append a (text "+" ++ b))

  plus_at_two : find 43 (step_range_text a b) ≡ length a
  plus_at_two = find-here 43 a b pa.0 (omega (arith, lengths_two, short))

  times_at_two : find 42 (step_range_text a b) ≡ npos
  times_at_two =
      find-absent 42 (step_range_text a b)
        (All-append (λ c. c ≢ 42) a (text "+" ++ b) pa.1 (omega arith, pb.1))

  step_text_two : substr (step_range_text a b) (length a + 1) (step_count (length a) npos) ≡ some b
  step_text_two =
      ap (λ q. substr q (length a + 1) (step_count (length a) npos))
        (sym (append_assoc a (text "+") b))
      ∙ substr_suffix (a ++ text "+") b _ _ (omega (arith, length-append a (text "+")))
          (step_count-plus (length a) (length b) (omega (arith, lengths_two, short)))

  not_empty_two : is_empty (step_range_text a b) ≡ false
  unfolding is_empty
  not_empty_two = empty_lem a
    where
      empty_lem : (x : Text) → is_empty (x ++ (text "+" ++ b)) ≡ false
      empty_lem [] = refl
      empty_lem (c ∷ cs) = refl

  no_plus_two : (length a == npos) ≡ false
  no_plus_two = ground (arith, lengths_two, short)

  module _ {D I : Type 0} (zero_d : D) (trim : Text → Text) (to_double : Text → Option D)
      (int_0 int_1 : I) (to_int : Text → Option I) where
    parse_range-two :
        (x y : D)
        → to_double (trim a) ≡ some x
        → to_double (trim b) ≡ some y
        → parse_range zero_d trim to_double int_0 int_1 to_int (step_range_text a b)
          ≡ parsed (x, y, int_1)
    unfolding parse_range
    parse_range-two x y e f =
        rw (not_empty_two, plus_at_two, times_at_two, parse_range)
          (read_as-cast _ (trim a) to_double _ x (ap (Option.map trim) (substr_prefix a _)) e
            ∙ rw no_plus_two
                (read_as-cast _ (trim b) to_double _ y (ap (Option.map trim) step_text_two) f))

  module _ {D : Type 0} (zero_d : D) (to_double : Text → Option D)
      (to_unsigned : Text → Option ℕ) where
    parse_param_string-two :
        (x y : D)
        → to_double a ≡ some x
        → to_double b ≡ some y
        → parse_param_string zero_d to_double to_unsigned (step_range_text a b) ≡ parsed (x, y, 2)
    unfolding parse_param_string
    parse_param_string-two x y e f =
        rw (not_empty_two, plus_at_two, times_at_two, parse_param_string)
          (read_as-cast _ a to_double _ x (substr_prefix a _) e
            ∙ rw no_plus_two (read_as-cast _ b to_double _ y step_text_two f))

module _ {D I : Type 0} (zero_d : D) (trim : Text → Text) (to_double : Text → Option D)
    (int_of : ℕ → I) (to_int : Text → Option I) (to_unsigned : Text → Option ℕ) where
  -- On a range of one of the forms `a+b*n` and `a+b`, shorter than the greatest `size_t`, whose
  -- parts have no `+` or `*` in a and b and are left as they are by `trim`, and where a and b are
  -- numbers and n is a count below 2 ^ 31, which both the cast to `int` and that to `unsigned int`
  -- read: both readers return the numbers of a and b; `ParamRange` returns the `int` of n, and of 1
  -- if it is left out, while `parseParamString` returns the number of points, which is one more.
  pub readers-agree :
      (a b n : Text) (x y : D) (k : ℕ)
      → IsPlain a
      → IsPlain b
      → length (range_text a b n) < npos
      → trim a ≡ a
      → trim b ≡ b
      → trim n ≡ n
      → to_double a ≡ some x
      → to_double b ≡ some y
      → k < 2 ^ 31
      → to_int n ≡ some (int_of k)
      → to_unsigned n ≡ some k
      → let parse = parse_range zero_d trim to_double (int_of 0) (int_of 1) to_int in
        let parse' = parse_param_string zero_d to_double to_unsigned in
        (parse (range_text a b n) ≡ parsed (x, y, int_of k))
        × (parse' (range_text a b n) ≡ parsed (x, y, k + 1))
        × (parse (step_range_text a b) ≡ parsed (x, y, int_of 1))
        × (parse' (step_range_text a b) ≡ parsed (x, y, 2))
  readers-agree a b n x y k pa pb short ta tb tn e f small g h =
      let short_two : length (step_range_text a b) < npos =
        omega (arith, short, lengths a b n pa pb short, length-append a (text "+" ++ b)) in
      (
        parse_range-three a b n pa pb short zero_d trim to_double (int_of 0) (int_of 1) to_int x y
            (int_of k) (ap to_double ta ∙ e) (ap to_double tb ∙ f) (ap to_int tn ∙ g),
        parse_param_string-three a b n pa pb short zero_d to_double to_unsigned x y k e f h
            ∙ ap (λ q. parsed (x, y, q)) (omega (arith, small)),
        parse_range-two a b pa pb short_two zero_d trim to_double (int_of 0) (int_of 1) to_int x y
            (ap to_double ta ∙ e) (ap to_double tb ∙ f),
        parse_param_string-two a b pa pb short_two zero_d to_double to_unsigned x y e f,
      )
