-- ===== src/Blocks/CutAndPaste/Pasted.antt =====
-- The atoms of what CutAndPaste, src/blocks/CutAndPaste.cpp, sends on.
use structure_pipe.Base.{
  ℕ, zero, suc, ◌+◌, ◌<◌, ◌==◌, ◌||◌, ltb, ◌≡◌, refl, sym, ap, ap₂, ◌∙◌, ◌⊎◌, inl, inr, Bool, true,
  false, not, ◌&&◌, some, none, List, [], ◌∷◌, ◌++◌, map, if◌then◌else◌, length, get_elem?, take,
  drop, keep_if, arith, append_assoc, append-nil, take-append, length-append, Bool-cases,
}
use structure_pipe.Pipe.{sent}
use structure_pipe.Blocks.Crystal.{Crystal, moved, IsSequence}
use structure_pipe.Blocks.CutAndPaste.{
  CutAndPaste, points_below, cut_from, paste_all, separate_atoms, take_in,
}

get_elem?-middle :
    {A : Type 0} (xs : List A) (y : A) (ys : List A) → get_elem? (xs ++ y ∷ ys) (length xs) ≡ some y
get_elem?-middle [] y ys = refl
get_elem?-middle (x ∷ xs) y ys = get_elem?-middle xs y ys

without_middle :
    {A : Type 0} (xs : List A) (y : A) (ys : List A)
    → take (length xs) (xs ++ y ∷ ys) ++ drop (suc (length xs)) (xs ++ y ∷ ys) ≡ xs ++ ys
without_middle [] y ys = refl
without_middle (x ∷ xs) y ys = ap (◌∷◌ x) (without_middle xs y ys)

map-append : {A B : Type 0} (f : A → B) (xs ys : List A) → map f (xs ++ ys) ≡ map f xs ++ map f ys
map-append f [] ys = refl
map-append f (x ∷ xs) ys = ap (◌∷◌ (f x)) (map-append f xs ys)

abbrev pub is_in : ℕ → List ℕ → Bool
is_in i [] = false
is_in i (j ∷ js) = j == i || is_in i js

is_in-points_below : (i n : ℕ) → i < n → is_in i (points_below n) ≡ true
unfolding points_below
is_in-points_below i zero h = absurd (omega (arith, h))
is_in-points_below i (suc n) h = is_in-append (points_below n) ∙ elim (Bool-cases (ltb i n)) [
  | inl lt ↦ ground (arith, is_in-points_below i n (ground (arith, lt)))
  | inr ge ↦ ground (arith, h, ge, or_true (is_in i (points_below n)))
]
  where
    is_in-append : (js : List ℕ) → is_in i (js ++ n ∷ []) ≡ (is_in i js || n == i)
    is_in-append [] = ground arith
    is_in-append (j ∷ js) = ground (arith, is_in-append js)

    or_true : (b : Bool) → (b || true) ≡ true
    or_true true = refl
    or_true false = refl

take_same :
    {A : Type 0} (n : ℕ) (xs ys : List A)
    → ((i : ℕ) → i < n → get_elem? xs i ≡ get_elem? ys i)
    → take n xs ≡ take n ys
take_same zero xs ys h = refl
take_same (suc n) [] [] h = refl
take_same (suc n) [] (y ∷ ys) h = let e = h 0 (omega arith) in cc
take_same (suc n) (x ∷ xs) [] h = let e = h 0 (omega arith) in cc
take_same (suc n) (x ∷ xs) (y ∷ ys) h =
    let e : some x ≡ some y = h 0 (omega arith) in
    let rest = take_same n xs ys (λ i lt. h (suc i) (omega (arith, lt))) in
    ap₂ ◌∷◌ (ap (λ o. elim o [ none ↦ x | some z ↦ z ]) e) rest

module _ {T A X : Type 0} (k : Crystal T A X) (laws : IsSequence k) where
  species-moved_all : (xs : List X) (bs : List A) → map k.species (moved k xs bs) ≡ map k.species bs
  species-moved_all [] bs = refl
  species-moved_all (x ∷ xs) [] = refl
  species-moved_all (x ∷ xs) (a ∷ bs) = ap₂ ◌∷◌ (laws.species-moved x a) (species-moved_all xs bs)

  take-moved :
      (n : ℕ) (xs : List X) (bs : List A) → take n (moved k xs bs) ≡ moved k (take n xs) (take n bs)
  take-moved zero xs bs = refl
  take-moved (suc n) [] bs = refl
  take-moved (suc n) (x ∷ xs) [] = refl
  take-moved (suc n) (x ∷ xs) (a ∷ bs) = ap (◌∷◌ (k.set_position x a)) (take-moved n xs bs)

  moved_nowhere : (bs : List A) → moved k (map k.position bs) bs ≡ bs
  moved_nowhere [] = refl
  moved_nowhere (a ∷ bs) = ap₂ ◌∷◌ (laws.same_place a) (moved_nowhere bs)

  module _ (is_in_shape : X → Bool) where
    abbrev pub outside : List A → List A
    outside = keep_if (λ a. not (is_in_shape (k.position a)))

    abbrev pub inside : List A → List A
    inside = keep_if (λ a. is_in_shape (k.position a))

    cut_from-keep_if :
        (ys xs : List A) (i : ℕ) (s : T) (cut : List A)
        → k.atoms s ≡ xs ++ ys
        → i ≡ length xs
        → let (s', cut') = cut_from k is_in_shape (length ys) i s cut in
          (k.atoms s' ≡ xs ++ outside ys) × (cut' ≡ cut ++ inside ys)
    unfolding cut_from
    cut_from-keep_if [] xs i s cut e n = (e, sym (append-nil cut))
    cut_from-keep_if (y ∷ ys) xs i s cut e n =
        let found : get_elem? (k.atoms s) i ≡ some y =
          ap₂ get_elem? e n ∙ get_elem?-middle xs y ys in
        elim (Bool-cases (is_in_shape (k.position y))) [
          | inl hit ↦
              let erased : k.atoms (k.erase_atom i s) ≡ xs ++ ys =
                laws.atoms-erase i s
                ∙ ap₂ (λ j zs. take j zs ++ drop (suc j) zs) n e
                ∙ without_middle xs y ys in
              let (rest, taken) =
                cut_from-keep_if ys xs i (k.erase_atom i s) (cut ++ y ∷ []) erased n in
              rw (found, cut_from) (rw hit (rest, taken ∙ append_assoc cut (y ∷ []) (inside ys)))
          | inr miss ↦
              let later : i + 1 ≡ length (xs ++ y ∷ []) =
                ground (arith, n, length-append xs (y ∷ [])) in
              let (rest, taken) =
                cut_from-keep_if ys (xs ++ y ∷ []) (i + 1) s cut
                  (e ∙ sym (append_assoc xs (y ∷ []) ys)) later in
              rw (found, cut_from) (rw miss (rest ∙ append_assoc xs (y ∷ []) (outside ys), taken))
        ]

  module _ {W : Type 0} (random_point : W → X × W) where
    -- The cut atoms at random points.
    abbrev pub placed : List A → W → List A
    placed [] w = []
    placed (a ∷ cut) w = k.set_position (random_point w).0 a ∷ placed cut (random_point w).1

    species-placed : (cut : List A) (w : W) → map k.species (placed cut w) ≡ map k.species cut
    species-placed [] w = refl
    species-placed (a ∷ cut) w =
        ap₂ ◌∷◌ (laws.species-moved (random_point w).0 a) (species-placed cut (random_point w).1)

    paste_all-placed :
        (cut : List A) (s : T) (w : W)
        → k.atoms (paste_all k random_point cut s w).0 ≡ k.atoms s ++ placed cut w
    unfolding paste_all
    paste_all-placed [] s w = sym (append-nil (k.atoms s))
    paste_all-placed (a ∷ cut) s w =
        let (x, w') = random_point w in
        paste_all-placed cut (k.new_atom (k.set_position x a) s) w'
        ∙ ap (λ q. q ++ placed cut w') (laws.atoms-new (k.set_position x a) s)
        ∙ append_assoc (k.atoms s) _ _

    pasted-placed :
        (paste : Bool) (cut : List A) (s : T) (w : W)
        → let after : T × W = if paste then paste_all k random_point cut s w else (s, w) in
          k.atoms after.0 ≡ k.atoms s ++ (if paste then placed cut w else [])
    pasted-placed true cut s w = paste_all-placed cut s w
    pasted-placed false cut s w = sym (append-nil (k.atoms s))

    species-pasted :
        (paste : Bool) (cut : List A) (w : W)
        → map k.species (if paste then placed cut w else [])
          ≡ (if paste then map k.species cut else [])
    species-pasted true cut w = species-placed cut w
    species-pasted false cut w = refl

  module _ {DB : Type 0} (separate_points : DB → T → List ℕ → List X × Bool) where
    species-separate_atoms :
        {P D : Type 0} (flag : Bool) (b : CutAndPaste P D DB) (n : ℕ) (s : T)
        → map k.species (k.atoms (if flag then separate_atoms k separate_points b n s else s))
          ≡ map k.species (k.atoms s)
    unfolding separate_atoms
    species-separate_atoms true b n s =
        ap (map k.species) (laws.atoms-moved _ s) ∙ species-moved_all _ (k.atoms s)
    species-separate_atoms false b n s = refl

    -- The separation leaves the points of the atoms that are fixed.
    abbrev pub Fixes : Type 0
    Fixes =
        (db : DB) (s : T) (fixed : List ℕ) (i : ℕ)
        → is_in i fixed ≡ true
        → get_elem? (separate_points db s fixed).0 i ≡ get_elem? (map k.position (k.atoms s)) i

    first_fixed :
        (fixes : Fixes) (db : DB) (s : T) (n : ℕ)
        → take n (separate_points db s (points_below n)).0 ≡ take n (map k.position (k.atoms s))
    first_fixed fixes db s n =
        take_same n (separate_points db s (points_below n)).0 (map k.position (k.atoms s))
          (λ i lt. fixes db s (points_below n) i (is_in-points_below i n lt))

    take-map_position :
        (n : ℕ) (bs : List A) → take n (map k.position bs) ≡ map k.position (take n bs)
    take-map_position zero bs = refl
    take-map_position (suc n) [] = refl
    take-map_position (suc n) (a ∷ bs) = ap (◌∷◌ (k.position a)) (take-map_position n bs)

    take-separate_atoms :
        {P D : Type 0} (fixes : Fixes) (flag : Bool) (b : CutAndPaste P D DB) (n : ℕ) (s : T)
        → (flag && not b.settings.fix_untouched) ≡ false
        → take n (k.atoms (if flag then separate_atoms k separate_points b n s else s))
          ≡ take n (k.atoms s)
    unfolding separate_atoms
    take-separate_atoms fixes false b n s h = refl
    take-separate_atoms fixes true b n s h =
        let fixed : b.settings.fix_untouched ≡ true = ground (arith, h) in
        rw fixed (
          ap (take n) (laws.atoms-moved (separate_points b.species_db s (points_below n)).0 s)
          ∙ take-moved n _ (k.atoms s)
          ∙ ap (λ xs. moved k xs (take n (k.atoms s)))
              (first_fixed fixes b.species_db s n ∙ take-map_position n (k.atoms s))
          ∙ moved_nowhere (take n (k.atoms s)))

  module _ {W P D DB : Type 0} (is_in_shape : X → Bool) (random_point : W → X × W)
      (separate_points : DB → T → List ℕ → List X × Bool) where
    -- `in` sends on the structure that came in. It has the atoms outside of the shape, in order; if
    -- the block does not paste, it has no other atom, and if it does, it has behind them an atom of
    -- the species of each atom that was inside, in order. The atoms outside are as they were, unless
    -- atoms are separated without the untouched ones being fixed, where a separation is taken to
    -- leave the points that are fixed.
    pub take_in-species :
        (fixes : Fixes separate_points) (b : CutAndPaste P D DB) (s : T) (w : W)
        → let st = b.settings in
          let (s', w', events) = take_in k is_in_shape random_point separate_points b s w in
          let out_atoms = outside is_in_shape (k.atoms s) in
          let in_atoms = inside is_in_shape (k.atoms s) in
          (events ≡ sent s' ∷ [])
          × (map k.species (k.atoms s')
              ≡ map k.species out_atoms ++ (if st.paste then map k.species in_atoms else []))
          × ((((st.paste && st.separate) && not st.fix_untouched) ≡ true)
              ⊎ (take (length out_atoms) (k.atoms s') ≡ out_atoms))
    unfolding take_in
    take_in-species fixes b s w =
        let st = b.settings in
        let (s1, cut) = cut_from k is_in_shape (length (k.atoms s)) 0 s [] in
        let (kept, taken) = cut_from-keep_if is_in_shape (k.atoms s) [] 0 s [] refl refl in
        let out_atoms = outside is_in_shape (k.atoms s) in
        let in_atoms = inside is_in_shape (k.atoms s) in
        let (s2, w') : T × W = if st.paste then paste_all k random_point cut s1 w else (s1, w) in
        let n = length (k.atoms s1) in
        let flag = st.paste && st.separate in
        let s3 = if flag then separate_atoms k separate_points b n s2 else s2 in
        let pasted : k.atoms s2
            ≡ out_atoms ++ (if st.paste then placed random_point in_atoms w else []) =
          pasted-placed random_point st.paste cut s1 w
          ∙ ap₂ (λ x y. x ++ (if st.paste then placed random_point y w else [])) kept taken in
        (
          refl,
          species-separate_atoms separate_points flag b n s2
              ∙ ap (map k.species) pasted
              ∙ map-append k.species out_atoms _
              ∙ ap (λ q. map k.species out_atoms ++ q)
                  (species-pasted random_point st.paste in_atoms w),
          elim (Bool-cases (flag && not st.fix_untouched)) [
            | inl loose ↦ inl loose
            | inr held ↦ inr (
                ap (λ q. take q (k.atoms s3)) (ap length (sym kept))
                ∙ take-separate_atoms separate_points fixes flag b n s2 held
                ∙ ap₂ take (ap length kept) pasted
                ∙ take-append out_atoms _)
          ],
        )
