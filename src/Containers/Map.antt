-- ===== src/Containers/Map.antt =====
-- `std::map<K, V>` as the list of its entries, in the order of the keys.
use structure_pipe.Base.{
  ◌≡◌, ◌↔◌, refl, inl, inr, Bool, true, false, not, ◌&&◌, List, [], ◌∷◌, ◌++◌, arith, if◌then◌else◌,
  Bool-cases, Perm, perm_append_left_comm, perm_insert_part,
}
use mathlib.Core.List.Perm
use structure_pipe.Pipe.{KeyOrder}

-- Neither key is less than the other.
unfoldable pub same : {K : Type 0} → KeyOrder K → K → K → Bool
same k a b = not (k.lt a b) && not (k.lt b a)

pub same_iff : {K : Type 0} (k : KeyOrder K) (a b : K) → (same k a b ≡ true) ↔ (a ≡ b)
unfolding same
same_iff k a b = k.same_iff a b

module _ {K V : Type 0} (k : KeyOrder K) where
  -- `find`, with a default for a key that is not there.
  unfoldable pub find_or : V → K → List (K × V) → V
  find_or v a [] = v
  find_or v a (e ∷ r) = if same k a e.0 then e.1 else find_or v a r

  unfoldable pub has : K → List (K × V) → Bool
  has a [] = false
  has a (e ∷ r) = if same k a e.0 then true else has a r

  modify : K → V → List (K × V) → List (K × V)
  modify a v [] = []
  modify a v (e ∷ r) = if same k a e.0 then (e.0, v) ∷ r else e ∷ modify a v r

  place : K → V → List (K × V) → List (K × V)
  place a v [] = (a, v) ∷ []
  place a v (e ∷ r) = if k.lt a e.0 then (a, v) ∷ e ∷ r else e ∷ place a v r

  -- `m[a] = v`.
  unfoldable pub assign : K → V → List (K × V) → List (K × V)
  unfolding has modify place
  assign a v m = if has a m then modify a v m else place a v m

module _ {K V : Type 0} (k : KeyOrder K) (dv : V) where
  find_or-modify :
      (a b : K) (v : V) (m : List (K × V))
      → has k a m ≡ true
      → find_or k dv b (modify k a v m) ≡ (if same k b a then v else find_or k dv b m)
  unfolding find_or modify has
  find_or-modify a b v [] h = cc
  find_or-modify a b v (e ∷ r) h =
      ground (arith, same_iff k a e.0, same_iff k b e.0, same_iff k b a, find_or-modify a b v r)

  find_or-place :
      (a b : K) (v : V) (m : List (K × V))
      → has k a m ≡ false
      → find_or k dv b (place k a v m) ≡ (if same k b a then v else find_or k dv b m)
  unfolding find_or place has
  find_or-place a b v [] h = refl
  find_or-place a b v (e ∷ r) h =
      ground (arith, same_iff k a e.0, same_iff k b e.0, same_iff k b a, find_or-place a b v r)

  -- An assignment changes the entry of its key alone.
  pub find_or-assign :
      (a b : K) (v : V) (m : List (K × V))
      → find_or k dv b (assign k a v m) ≡ (if same k b a then v else find_or k dv b m)
  unfolding assign
  find_or-assign a b v m = elim (Bool-cases (has k a m)) [
    | inl h ↦ rw h (find_or-modify a b v m h)
    | inr h ↦ rw h (find_or-place a b v m h)
  ]

-- The elements of all entries of a map to lists, in the order of the keys.
unfoldable pub contents : {K T : Type 0} → List (K × List T) → List T
contents [] = []
contents (e ∷ r) = e.1 ++ contents r

module _ {K T : Type 0} (k : KeyOrder K) where
  find_or-not_has : (a : K) (m : List (K × List T)) → has k a m ≡ false → find_or k [] a m ≡ []
  unfolding find_or has
  find_or-not_has a [] h = refl
  find_or-not_has a (e ∷ r) h = ground (arith, find_or-not_has a r)

  contents-modify :
      (a : K) (v : List T) (m : List (K × List T))
      → has k a m ≡ true
      → Perm (find_or k [] a m ++ contents (modify k a v m)) (v ++ contents m)
  unfolding find_or modify has contents
  contents-modify a v [] h = absurd (cc)
  contents-modify a v (e ∷ r) h = elim (Bool-cases (same k a e.0)) [
    | inl t ↦ rw t (perm_append_left_comm e.1 v (contents r))
    | inr t ↦ rw t (perm_insert_part e.1 _ _ _ _ (contents-modify a v r (rw t at h)))
  ]

  contents-place :
      (a : K) (v : List T) (m : List (K × List T))
      → Perm (contents (place k a v m)) (v ++ contents m)
  unfolding place contents
  contents-place a v [] = Perm.refl _
  contents-place a v (e ∷ r) = elim (Bool-cases (k.lt a e.0)) [
    | inl t ↦ rw t (Perm.refl _)
    | inr t ↦ rw t (
        Perm.trans (Perm.append_left e.1 (contents-place a v r))
          (perm_append_left_comm e.1 v (contents r)))
  ]

  -- An assignment replaces the elements of its key by the new ones.
  pub contents-assign :
      (a : K) (v : List T) (m : List (K × List T))
      → Perm (find_or k [] a m ++ contents (assign k a v m)) (v ++ contents m)
  unfolding assign
  contents-assign a v m = elim (Bool-cases (has k a m)) [
    | inl h ↦ rw h (contents-modify a v m h)
    | inr h ↦ rw (h, find_or-not_has a m h) (contents-place a v m)
  ]
