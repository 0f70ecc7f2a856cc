-- ===== src/Blocks/AutoScale/Sorted.antt =====
-- The set of species of src/blocks/AutoScale.cpp is sorted, and has each of them once.
use structure_pipe.Base.{
  ◌≡◌, refl, inl, inr, Bool, true, false, ◌||◌, List, [], ◌∷◌, if◌then◌else◌, Text, text_eq,
  text_eq_iff, All, arith, Bool-cases,
}
use structure_pipe.Blocks.AutoScale.{text_lt, insert_text, unique_species}

pub text_lt_irrefl : (s : Text) → text_lt s s ≡ false
unfolding text_lt
text_lt_irrefl [] = refl
text_lt_irrefl (x ∷ xs) = ground (arith, text_lt_irrefl xs)

text_lt_trans : (s t u : Text) → text_lt s t ≡ true → text_lt t u ≡ true → text_lt s u ≡ true
unfolding text_lt
text_lt_trans [] [] u a b = cc
text_lt_trans [] (y ∷ ys) [] a b = cc
text_lt_trans [] (y ∷ ys) (z ∷ zs) a b = refl
text_lt_trans (x ∷ xs) [] u a b = cc
text_lt_trans (x ∷ xs) (y ∷ ys) [] a b = cc
text_lt_trans (x ∷ xs) (y ∷ ys) (z ∷ zs) a b = ground (arith, a, b, text_lt_trans xs ys zs)

text_lt_tricho : (s t : Text) → text_lt s t ≡ false → text_lt t s ≡ false → text_eq s t ≡ true
unfolding text_lt text_eq
text_lt_tricho [] [] a b = refl
text_lt_tricho [] (y ∷ ys) a b = cc
text_lt_tricho (x ∷ xs) [] a b = cc
text_lt_tricho (x ∷ xs) (y ∷ ys) a b = ground (arith, a, b, text_lt_tricho xs ys)

abbrev pub IsSorted : List Text → Type 0
IsSorted [] = Unit
IsSorted (x ∷ xs) = All (λ y. text_lt x y ≡ true) xs × IsSorted xs

-- Whether a text is in a list.
abbrev pub has : Text → List Text → Bool
has z [] = false
has z (y ∷ ys) = text_eq y z || has z ys

insert_text-All :
    (P : Text → Type 0) (x : Text) (ys : List Text) → P x → All P ys → All P (insert_text x ys)
unfolding insert_text
insert_text-All P x [] p h = (p, tt)
insert_text-All P x (y ∷ ys) p h =
    by_order (text_lt x y) (text_lt y x) (insert_text-All P x ys p h.1)
  where
    by_order :
        (a b : Bool)
        → All P (insert_text x ys)
        → All P (if a then x ∷ y ∷ ys else if b then y ∷ insert_text x ys else y ∷ ys)
    by_order true b q = (p, h)
    by_order false true q = (h.0, q)
    by_order false false q = h

All_lt_trans :
    (x y : Text) (ys : List Text)
    → text_lt x y ≡ true
    → All (λ z. text_lt y z ≡ true) ys
    → All (λ z. text_lt x z ≡ true) ys
All_lt_trans x y [] a h = tt
All_lt_trans x y (z ∷ zs) a h = (text_lt_trans x y z a h.0, All_lt_trans x y zs a h.1)

insert_text-IsSorted : (x : Text) (ys : List Text) → IsSorted ys → IsSorted (insert_text x ys)
unfolding insert_text
insert_text-IsSorted x [] h = (tt, tt)
insert_text-IsSorted x (y ∷ ys) h = elim (Bool-cases (text_lt x y)) [
  | inl a ↦ rw a ((a, All_lt_trans x y ys a h.0), h)
  | inr a ↦ elim (Bool-cases (text_lt y x)) [
    | inl b ↦
        rw a (
          rw b
            (insert_text-All (λ z. text_lt y z ≡ true) x ys b h.0, insert_text-IsSorted x ys h.1))
    | inr b ↦ rw a (rw b h)
  ]
]

has-insert_text :
    (z x : Text) (ys : List Text) → has z (insert_text x ys) ≡ (text_eq x z || has z ys)
unfolding insert_text
has-insert_text z x [] = refl
has-insert_text z x (y ∷ ys) =
    ground (arith, has-insert_text z x ys, text_lt_tricho x y, text_eq_iff x y)

pub unique_species-IsSorted : (ps set : List Text) → IsSorted set → IsSorted (unique_species ps set)
unfolding unique_species
unique_species-IsSorted [] set h = h
unique_species-IsSorted (p ∷ ps) set h =
    unique_species-IsSorted ps (insert_text p set) (insert_text-IsSorted p set h)

pub has-unique_species :
    (z : Text) (ps set : List Text) → has z (unique_species ps set) ≡ (has z ps || has z set)
unfolding unique_species
has-unique_species z [] set = refl
has-unique_species z (p ∷ ps) set =
    ground (arith, has-unique_species z ps (insert_text p set), has-insert_text z p set)
