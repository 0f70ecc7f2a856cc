-- ===== src/ParamString/Ranges.antt =====
-- The loop of `ParamRange::fromStrings`, src/common/CommonData.cpp.
use structure_pipe.Base.{
  ℕ, zero, suc, ◌+◌, ◌-◌, ◌≡◌, refl, ap, ap₂, ◌∙◌, List, [], ◌∷◌, ◌++◌, map, length, take, set,
  replicate, Text, arith, append_assoc, length-append, length-take, length-replicate,
}
use structure_pipe.ParamString.{Outcome, parsed, ParamRange, parse_from, from_strings, resize}

module _ {D I : Type 0} (zero_d : D) (int_0 : I) (parse : Text → Outcome (D × D × I)) where
  -- Each string is read as the numbers that stand at its place.
  abbrev pub AllParsed : List Text → List (D × D × I) → Type 0
  AllParsed [] [] = Unit
  AllParsed [] (v ∷ vs) = ⊥
  AllParsed (s ∷ ss) [] = ⊥
  AllParsed (s ∷ ss) (v ∷ vs) = (parse s ≡ parsed v) × AllParsed ss vs

  pub set-append :
      {A : Type 0} (done : List A) (x : A) (rest : List A) (v : A) (i : ℕ)
      → i ≡ length done
      → set (done ++ x ∷ rest) i v ≡ (done ++ v ∷ []) ++ rest
  set-append [] x rest v zero e = refl
  set-append [] x rest v (suc i) e = cc
  set-append (d ∷ done) x rest v zero e = cc
  set-append (d ∷ done) x rest v (suc i) e =
      ap (◌∷◌ d) (set-append done x rest v i (omega (arith, e)))

  no_elements : {A : Type 0} (xs : List A) → length xs ≡ 0 → xs ≡ []
  no_elements [] e = refl
  no_elements (x ∷ xs) e = cc

  parse_from-AllParsed :
      (i : ℕ) (ss : List Text) (vs : List (D × D × I)) (r : ParamRange D I) (f s : List D)
      (k : List I) (f' s' : List D) (k' : List I)
      → AllParsed ss vs
      → r ≡ record { from = f ++ f'; step = s ++ s'; n_steps = k ++ k' }
      → i ≡ length f
      → i ≡ length s
      → i ≡ length k
      → length f' ≡ length ss
      → length s' ≡ length ss
      → length k' ≡ length ss
      → parse_from zero_d int_0 parse i ss r ≡ (
        record {
          from = f ++ map (λ v. v.0) vs;
          step = s ++ map (λ v. v.1) vs;
          n_steps = k ++ map (λ v. v.2) vs;
        },
        parsed tt,
      )
  unfolding parse_from
  parse_from-AllParsed i [] [] r f s k f' s' k' h e a b c l m n = ground (
    arith,
    e,
    ap (λ q. f ++ q) (no_elements f' l),
    ap (λ q. s ++ q) (no_elements s' m),
    ap (λ q. k ++ q) (no_elements k' n),
  )
  parse_from-AllParsed i [] (v ∷ vs) r f s k f' s' k' h e a b c l m n = elim h [ ]
  parse_from-AllParsed i (t ∷ ss) [] r f s k f' s' k' h e a b c l m n = elim h [ ]
  parse_from-AllParsed i (t ∷ ss) (v ∷ vs) r f s k [] s' k' h e a b c l m n = cc
  parse_from-AllParsed i (t ∷ ss) (v ∷ vs) r f s k (y ∷ f') [] k' h e a b c l m n = cc
  parse_from-AllParsed i (t ∷ ss) (v ∷ vs) r f s k (y ∷ f') (z ∷ s') [] h e a b c l m n = cc
  parse_from-AllParsed i (t ∷ ss) (v ∷ vs) r f s k (y ∷ f') (z ∷ s') (w ∷ k') h e a b c l m n =
      let r1 : ParamRange D I = record {
        from = set r.from i v.0;
        step = set r.step i v.1;
        n_steps = set r.n_steps i v.2;
      } in
      let r1_eq : r1 ≡ record {
        from = (f ++ v.0 ∷ []) ++ f';
        step = (s ++ v.1 ∷ []) ++ s';
        n_steps = (k ++ v.2 ∷ []) ++ k';
      } =
        ground (
          arith,
          e,
          set-append f y f' v.0 i a,
          set-append s z s' v.1 i b,
          set-append k w k' v.2 i c,
        ) in
      rw (h.0, parse_from)
        (parse_from-AllParsed (i + 1) ss vs r1 (f ++ v.0 ∷ []) (s ++ v.1 ∷ []) (k ++ v.2 ∷ []) f' s'
            k' h.1 r1_eq (omega (arith, a, length-append f (v.0 ∷ [])))
            (omega (arith, b, length-append s (v.1 ∷ [])))
            (omega (arith, c, length-append k (v.2 ∷ []))) (omega (arith, l)) (omega (arith, m))
            (omega (arith, n))
          ∙ ap₂
              (λ (q : List D × List D) (u : List I).
                (record { from = q.0; step = q.1; n_steps = u }, parsed tt))
              (ap₂ (λ (x y : List D). (x, y)) (append_assoc f (v.0 ∷ []) _)
                (append_assoc s (v.1 ∷ []) _))
              (append_assoc k (v.2 ∷ []) _))

  pub length-resize : {A : Type 0} (n : ℕ) (x : A) (xs : List A) → length (resize n x xs) ≡ n
  unfolding resize
  length-resize n x xs = omega (
    arith,
    length-append (take n xs) (replicate (n - length xs) x),
    length-take n xs,
    length-replicate (n - length xs) x,
  )

  -- `fromStrings` on strings that are all read: it succeeds, whatever the range held before, and
  -- the three vectors have the numbers of the strings, in order, and nothing else.
  pub from_strings-AllParsed :
      (ss : List Text) (vs : List (D × D × I)) (r : ParamRange D I)
      → AllParsed ss vs
      → from_strings zero_d int_0 parse ss r ≡ (
        record { from = map (λ v. v.0) vs; step = map (λ v. v.1) vs; n_steps = map (λ v. v.2) vs },
        parsed tt,
      )
  unfolding from_strings
  from_strings-AllParsed ss vs r h =
      parse_from-AllParsed 0 ss vs _ [] [] [] _ _ _ h refl refl refl refl
        (length-resize (length ss) zero_d r.from) (length-resize (length ss) zero_d r.step)
        (length-resize (length ss) int_0 r.n_steps)
