-- ===== src/Containers/Multimap.antt =====
-- `std::multimap<double, T>` as the list of its entries.
use structure_pipe.Base.{
  ℕ, zero, suc, ◌≤◌, ◌≡◌, refl, ap, inl, inr, false, List, [], ◌∷◌, ◌++◌, arith, if◌then◌else◌,
  Bool-cases, length, take, All, All-mono, Perm, perm_middle,
}
use structure_pipe.Pipe.{Doubles, IsOrdered}
use mathlib.Core.List.Perm

module _ {D S : Type 0} (d : Doubles D) where
  -- `insert`: at the upper bound of the key.
  unfoldable pub insert : D × S → List (D × S) → List (D × S)
  insert e [] = e ∷ []
  insert e (f ∷ r) = if d.lt e.0 f.0 then e ∷ f ∷ r else f ∷ insert e r

  -- No key is less than one before it.
  abbrev pub IsSorted : List (D × S) → Type 0
  IsSorted [] = Unit
  IsSorted (e ∷ r) = All (λ f. d.lt f.0 e.0 ≡ false) r × IsSorted r

  unfoldable pub sort : List (D × S) → List (D × S) → List (D × S)
  sort acc [] = acc
  sort acc (e ∷ es) = sort (insert e acc) es

module _ {D S : Type 0} (d : Doubles D) where
  pub length-insert : (e : D × S) (l : List (D × S)) → length (insert d e l) ≡ suc (length l)
  unfolding insert
  length-insert e [] = refl
  length-insert e (f ∷ r) = ground (arith, length-insert e r)

  pub insert-perm : (e : D × S) (l : List (D × S)) → Perm (insert d e l) (e ∷ l)
  unfolding insert
  insert-perm e [] = Perm.refl _
  insert-perm e (f ∷ r) = elim (Bool-cases (d.lt e.0 f.0)) [
    | inl h ↦ rw h (Perm.refl _)
    | inr h ↦ rw h (Perm.trans (Perm.cons f (insert-perm e r)) (Perm.swap e f r))
  ]

  pub sort-perm : (acc es : List (D × S)) → Perm (sort d acc es) (es ++ acc)
  unfolding sort
  sort-perm acc [] = Perm.refl _
  sort-perm acc (e ∷ es) =
      Perm.trans (sort-perm (insert d e acc) es)
        (Perm.trans (Perm.append_left es (insert-perm e acc)) (perm_middle es acc))

  take-take : (n m : ℕ) (l : List (D × S)) → n ≤ m → take n (take m l) ≡ take n l
  take-take zero m l h = refl
  take-take (suc n) zero l h = absurd (omega arith)
  take-take (suc n) (suc m) [] h = refl
  take-take (suc n) (suc m) (x ∷ l) h = ap (◌∷◌ x) (take-take n m l (omega arith))

  take-cons-take : (n : ℕ) (f : D × S) (r : List (D × S)) → take n (f ∷ take n r) ≡ take n (f ∷ r)
  take-cons-take zero f r = refl
  take-cons-take (suc n) f r = ap (◌∷◌ f) (take-take n (suc n) r (omega arith))

  -- A prefix of n entries after an insertion depends on n entries alone.
  pub take-insert-take :
      (n : ℕ) (e : D × S) (l : List (D × S))
      → take n (insert d e (take n l)) ≡ take n (insert d e l)
  unfolding insert
  take-insert-take zero e l = refl
  take-insert-take (suc n) e [] = refl
  take-insert-take (suc n) e (f ∷ r) = elim (Bool-cases (d.lt e.0 f.0)) [
    | inl h ↦ rw h (ap (◌∷◌ e) (take-cons-take n f r))
    | inr h ↦ rw h (ap (◌∷◌ f) (take-insert-take n e r))
  ]

module _ {D S : Type 0} (d : Doubles D) (laws : IsOrdered d) where
  pub insert-All :
      (P : D × S → Type 0) (e : D × S) (l : List (D × S)) → P e → All P l → All P (insert d e l)
  unfolding insert
  insert-All P e [] h k = (h, tt)
  insert-All P e (f ∷ r) h k = elim (Bool-cases (d.lt e.0 f.0)) [
    | inl t ↦ rw t (h, k)
    | inr t ↦ rw t (k.0, insert-All P e r h k.1)
  ]

  pub insert-IsSorted : (e : D × S) (l : List (D × S)) → IsSorted d l → IsSorted d (insert d e l)
  unfolding insert
  insert-IsSorted e [] s = (tt, tt)
  insert-IsSorted e (f ∷ r) s = elim (Bool-cases (d.lt e.0 f.0)) [
    | inl t ↦ rw t (
      (
        laws.lt_asymm _ _ t,
        All-mono (λ g h. laws.lt_negtrans g.0 f.0 e.0 h (laws.lt_asymm _ _ t)) r s.0,
      ),
      s,
    )
    | inr t ↦ rw t (insert-All _ e r t s.0, insert-IsSorted e r s.1)
  ]

  pub sort-IsSorted : (acc es : List (D × S)) → IsSorted d acc → IsSorted d (sort d acc es)
  unfolding sort
  sort-IsSorted acc [] s = s
  sort-IsSorted acc (e ∷ es) s = sort-IsSorted (insert d e acc) es (insert-IsSorted e acc s)
