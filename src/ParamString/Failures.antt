-- ===== src/ParamString/Failures.antt =====
-- What `ParamRange::fromStrings`, src/common/CommonData.cpp, leaves behind, whether or not it succeeds.
use structure_pipe.Base.{
  ℕ, ◌+◌, ◌≡◌, refl, ap, ap₂, ◌∙◌, ◌⊎◌, inl, inr, List, [], ◌∷◌, ◌++◌, map, length, drop, set, Text,
  arith, append_assoc, length-append,
}
use structure_pipe.ParamString.{
  Outcome, parsed, refused, out_of_range, ParamRange, parse_from, from_strings, resize,
}
use structure_pipe.ParamString.Ranges.{set-append, length-resize}

Outcome-cases :
    {A : Type 0} (o : Outcome A) → (o ≡ refused) ⊎ ((o ≡ out_of_range) ⊎ ((a : A) × (o ≡ parsed a)))
Outcome-cases refused = inl refl
Outcome-cases out_of_range = inr (inl refl)
Outcome-cases (parsed a) = inr (inr (a, refl))

module _ {D I : Type 0} (zero_d : D) (int_0 : I) (parse : Text → Outcome (D × D × I)) where
  -- The numbers of the strings before the first that is not read, and what that one gives.
  unfoldable pub read_all : List Text → List (D × D × I) × Outcome Unit
  read_all [] = ([], parsed tt)
  read_all (s ∷ ss) =
      let (vs, later) = read_all ss in
      elim (parse s) [
        | refused ↦ ([], refused)
        | out_of_range ↦ ([], out_of_range)
        | parsed v ↦ (v ∷ vs, later)
      ]

  -- Vectors that begin with values, and have what was there behind them.
  abbrev pub filled : List (D × D × I) → List D → List D → List I → ParamRange D I
  filled vs from step n_steps = record {
    from = map (λ v. v.0) vs ++ drop (length vs) from;
    step = map (λ v. v.1) vs ++ drop (length vs) step;
    n_steps = map (λ v. v.2) vs ++ drop (length vs) n_steps;
  }

  abbrev behind : List D → List D → List I → ParamRange D I → ParamRange D I
  behind f s k r = record { from = f ++ r.from; step = s ++ r.step; n_steps = k ++ r.n_steps }

  parse_from-read_all :
      (i : ℕ) (ss : List Text) (r : ParamRange D I) (f s : List D) (k : List I) (f' s' : List D)
      (k' : List I)
      → r ≡ record { from = f ++ f'; step = s ++ s'; n_steps = k ++ k' }
      → i ≡ length f
      → i ≡ length s
      → i ≡ length k
      → length f' ≡ length ss
      → length s' ≡ length ss
      → length k' ≡ length ss
      → parse_from zero_d int_0 parse i ss r
        ≡ (behind f s k (filled (read_all ss).0 f' s' k'), (read_all ss).1)
  unfolding parse_from read_all
  parse_from-read_all i [] r f s k f' s' k' e a b c l m n = ap (λ q. (q, parsed tt)) e
  parse_from-read_all i (t ∷ ss) r f s k [] s' k' e a b c l m n = cc
  parse_from-read_all i (t ∷ ss) r f s k (y ∷ f') [] k' e a b c l m n = cc
  parse_from-read_all i (t ∷ ss) r f s k (y ∷ f') (z ∷ s') [] e a b c l m n = cc
  parse_from-read_all i (t ∷ ss) r f s k (y ∷ f') (z ∷ s') (w ∷ k') e a b c l m n =
      elim (Outcome-cases (parse t)) [
        | inl g ↦ rw (g, parse_from) (rw (g, read_all) (ap (λ q. (q, refused)) e))
        | inr (inl g) ↦ rw (g, parse_from) (rw (g, read_all) (ap (λ q. (q, out_of_range)) e))
        | inr (inr (v, g)) ↦
            let r1 : ParamRange D I = record {
              from = set r.from i v.0;
              step = set r.step i v.1;
              n_steps = set r.n_steps i v.2;
            } in
            let r1_eq : r1 ≡ record {
              from = (f ++ v.0 ∷ []) ++ f';
              step = (s ++ v.1 ∷ []) ++ s';
              n_steps = (k ++ v.2 ∷ []) ++ k';
            } =
              ground (
                arith,
                e,
                set-append zero_d int_0 parse f y f' v.0 i a,
                set-append zero_d int_0 parse s z s' v.1 i b,
                set-append zero_d int_0 parse k w k' v.2 i c,
              ) in
            let rest = filled (read_all ss).0 f' s' k' in
            rw (g, parse_from)
              (rw (g, read_all)
                (parse_from-read_all (i + 1) ss r1 (f ++ v.0 ∷ []) (s ++ v.1 ∷ []) (k ++ v.2 ∷ [])
                    f' s' k' r1_eq (omega (arith, a, length-append f (v.0 ∷ [])))
                    (omega (arith, b, length-append s (v.1 ∷ [])))
                    (omega (arith, c, length-append k (v.2 ∷ []))) (omega (arith, l))
                    (omega (arith, m)) (omega (arith, n))
                  ∙ ap₂
                      (λ (q : List D × List D) (u : List I).
                        (record { from = q.0; step = q.1; n_steps = u }, (read_all ss).1))
                      (ap₂ (λ (x y : List D). (x, y)) (append_assoc f (v.0 ∷ []) rest.from)
                        (append_assoc s (v.1 ∷ []) rest.step))
                      (append_assoc k (v.2 ∷ []) rest.n_steps)))
      ]

  -- `fromStrings` returns or throws what the first string does that is not read, and succeeds if
  -- there is none. The vectors, which have a place for each string, then begin with the numbers of
  -- the strings before that one; the places behind them have what they had, or a zero if they are
  -- new.
  pub from_strings-read_all :
      (ss : List Text) (r : ParamRange D I)
      → let n = length ss in
        from_strings zero_d int_0 parse ss r ≡ (
          filled
              (read_all ss).0
              (resize n zero_d r.from)
              (resize n zero_d r.step)
              (resize n int_0 r.n_steps),
          (read_all ss).1,
        )
  unfolding from_strings
  from_strings-read_all ss r =
      let n = length ss in
      parse_from-read_all 0 ss _ [] [] [] _ _ _ refl refl refl refl
        (length-resize zero_d int_0 parse n zero_d r.from)
        (length-resize zero_d int_0 parse n zero_d r.step)
        (length-resize zero_d int_0 parse n int_0 r.n_steps)
