-- ===== src/Blocks/KeepTopN/Selection.antt =====
-- What KeepTopN, src/blocks/KeepTopN.cpp, holds of the structures of a composition.
use structure_pipe.Base.{
  ℕ, suc, ◌≤◌, ◌≡◌, refl, sym, ap, subst, ◌∙◌, inl, inr, true, false, none, some, List, [], ◌∷◌,
  ◌++◌, arith, if◌then◌else◌, ltb, Bool-cases, Option-cases, length, take, take_all, length-take,
  append-nil, Perm,
}
use structure_pipe.Pipe.{Doubles, IsOrdered, KeyOrder, StructureView}
use structure_pipe.Containers.Map.{same, same_iff, find_or, find_or-assign}
use structure_pipe.Containers.Multimap.{
  insert, sort, IsSorted, length-insert, sort-perm, sort-IsSorted, take-insert-take,
}
use structure_pipe.Blocks.KeepTopN.{
  KeepTopN, StructureOrder, split_last, order_of, trim, keep, local_value, take_in, feed,
}

split_last-take :
    {A : Type 0} (x : A) (xs : List A) → (split_last x xs).0 ≡ take (length xs) (x ∷ xs)
split_last-take x [] = refl
split_last-take x (y ∷ ys) = ap (◌∷◌ x) (split_last-take y ys)

module _ {P S D K : Type 0} (d : Doubles D) (k : KeyOrder K) (v : StructureView P S D K) where
  -- An order that is over by one loses its last entry.
  trim-take : (n : ℕ) (l : StructureOrder S D) → length l ≤ suc n → (trim d k v n l).0 ≡ take n l
  unfolding trim
  trim-take n [] h = sym (take_all n [] (omega arith))
  trim-take n (e ∷ r) h = elim (Bool-cases (ltb n (length (e ∷ r)))) [
    | inl t ↦
        rw t (
          split_last-take e r ∙ ap (λ m. take m (e ∷ r)) (let u : length r ≡ n = ground arith in u))
    | inr t ↦ rw t (sym (take_all n (e ∷ r) (ground arith)))
  ]

  -- An insertion into the first n entries, trimmed, gives the first n after the insertion.
  trim-insert :
      (n : ℕ) (e : D × S) (o l : StructureOrder S D)
      → o ≡ take n l
      → (trim d k v n (insert d e o)).0 ≡ take n (insert d e l)
  trim-insert n e o l h =
      trim-take n (insert d e o) (omega (arith, length-insert d e o, ap length h, length-take n l))
      ∙ ap (λ m. take n (insert d e m)) h
      ∙ take-insert-take d n e l

  keep-order_of :
      (b : KeepTopN P S D K) (c : K) (x : S) (energy : D)
      → order_of d k v c (keep d k v b x energy).0 ≡ (
          if same k c (v.composition x)
          then (trim d k v b.keep_top_n
              (insert d (energy, x) (order_of d k v (v.composition x) b))).0
          else order_of d k v c b)
  unfolding keep order_of
  keep-order_of b c x energy = find_or-assign k [] (v.composition x) c _ b.structures

  keep-same :
      (b : KeepTopN P S D K) (c : K) (x : S) (energy : D) (l : StructureOrder S D)
      → same k c (v.composition x) ≡ true
      → order_of d k v c b ≡ take b.keep_top_n l
      → order_of d k v c (keep d k v b x energy).0 ≡ take b.keep_top_n (insert d (energy, x) l)
  keep-same b c x energy l t h =
      keep-order_of b c x energy
      ∙ rw t (
          trim-insert b.keep_top_n (energy, x) _ l
            (ap (λ q. order_of d k v q b) (sym ((same_iff k c (v.composition x)).0 t)) ∙ h))

  keep-other :
      (b : KeepTopN P S D K) (c : K) (x : S) (energy : D)
      → same k c (v.composition x) ≡ false
      → order_of d k v c (keep d k v b x energy).0 ≡ order_of d k v c b
  keep-other b c x energy t = keep-order_of b c x energy ∙ rw t refl

  -- The entry that a structure makes in the order of a composition: none without the property.
  entry : KeepTopN P S D K → K → S → StructureOrder S D
  entry b c x = elim (v.find b.structure_property x) [
    | none ↦ []
    | some value ↦ if same k c (v.composition x) then (local_value d k v b x value, x) ∷ [] else []
  ]

  pub entries : KeepTopN P S D K → K → List S → StructureOrder S D
  unfolding entry
  entries b c [] = []
  entries b c (x ∷ xs) = entry b c x ++ entries b c xs

  feed-sort :
      (b : KeepTopN P S D K) (c : K) (xs : List S) (l : StructureOrder S D)
      → order_of d k v c b ≡ take b.keep_top_n l
      → order_of d k v c (feed d k v b xs).0 ≡ take b.keep_top_n (sort d l (entries b c xs))
  unfolding feed take_in keep order_of entries sort
  feed-sort b c [] l h = h
  feed-sort b c (x ∷ xs) l h = elim (Option-cases (v.find b.structure_property x)) [
    | inl e ↦ rw (e, take_in, entry) (feed-sort b c xs l h)
    | inr (value, e) ↦
        let energy = local_value d k v b x value in
        let b' = (keep d k v b x energy).0 in
        elim (Bool-cases (same k c (v.composition x))) [
          | inl t ↦
              rw (e, take_in, entry, t)
                (feed-sort b' c xs (insert d (energy, x) l) (keep-same b c x energy l t h))
          | inr t ↦ rw (e, take_in, entry, t) (feed-sort b' c xs l (keep-other b c x energy t ∙ h))
        ]
  ]

  sort-entries :
      (laws : IsOrdered d) (es : StructureOrder S D)
      → IsSorted d (sort d [] es) × Perm (sort d [] es) es
  sort-entries laws es = (
    sort-IsSorted d laws [] es tt,
    subst (Perm (sort d [] es)) (append-nil es) (sort-perm d [] es),
  )

  -- After any sequence of structures a fresh block holds, for each composition, the first N of a
  -- list that is sorted by value and has the same entries as the structures that came in with
  -- that composition and the property.
  pub feed-selects :
      (laws : IsOrdered d) (b : KeepTopN P S D K) (c : K) (xs : List S)
      → b.structures ≡ []
      → (all : StructureOrder S D) × IsSorted d all
        × Perm all (entries b c xs)
        × (order_of d k v c (feed d k v b xs).0 ≡ take b.keep_top_n all)
  unfolding order_of find_or
  feed-selects laws b c xs h = (
    sort d [] (entries b c xs),
    (sort-entries laws (entries b c xs)).0,
    (sort-entries laws (entries b c xs)).1,
    feed-sort b c xs [] (ap (find_or k [] c) h ∙ sym (take_all b.keep_top_n [] (omega arith))),
  )
