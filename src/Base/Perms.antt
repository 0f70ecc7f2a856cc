-- ===== src/Base/Perms.antt =====
-- Permutations, as the library has them, in the shapes that the blocks need.
use mathlib.Core.Path.{◌≡◌, subst, sym}
use mathlib.Core.List.{
  List, ◌∷◌, ◌++◌, append_assoc, Perm, perm_append_comm, perm-append_left_iff, perm_middle,
}
use mathlib.Core.List.Perm

module _ {ℓ} {A : Type ℓ} where
  pub perm_of_eq : {xs ys : List A} → xs ≡ ys → Perm xs ys
  perm_of_eq {xs} e = subst (λ l. Perm xs l) e (Perm.refl xs)

  -- The first two of three parts change places.
  pub perm_append_left_comm : (xs ys zs : List A) → Perm (xs ++ (ys ++ zs)) (ys ++ (xs ++ zs))
  perm_append_left_comm xs ys zs = Perm.trans (perm_of_eq (sym (append_assoc xs ys zs))) (
      Perm.trans (Perm.append_right zs (perm_append_comm xs ys))
        (perm_of_eq (append_assoc ys xs zs)))

  -- A part put in the middle on both sides.
  pub perm_insert_part :
      (ys xs xs' zs zs' : List A)
      → Perm (xs ++ zs) (xs' ++ zs')
      → Perm (xs ++ (ys ++ zs)) (xs' ++ (ys ++ zs'))
  perm_insert_part ys xs xs' zs zs' p =
      Perm.trans (perm_append_left_comm xs ys zs)
        (Perm.trans (Perm.append_left ys p) (perm_append_left_comm ys xs' zs'))

  -- Part o of a whole is replaced by o'; what o' leaves out of x and o is ev.
  pub perm_exchange :
      (x : A) (o o' c c' ev : List A)
      → Perm (o ++ c') (o' ++ c)
      → Perm (o' ++ ev) (x ∷ o)
      → Perm (c' ++ ev) (x ∷ c)
  perm_exchange x o o' c c' ev p q = (perm-append_left_iff o).0 (
      Perm.trans (perm_of_eq (sym (append_assoc o c' ev))) (
        Perm.trans (Perm.append_right ev p) (
          Perm.trans (perm_of_eq (append_assoc o' c ev)) (
            Perm.trans (Perm.append_left o' (perm_append_comm c ev)) (
              Perm.trans (perm_of_eq (sym (append_assoc o' ev c)))
                (Perm.trans (Perm.append_right c q) (Perm.symm (perm_middle o c))))))))
