-- ===== src/Blocks/AutoScale/Radii.antt =====
-- What the double loop of `naturalVolume` of src/blocks/AutoScale.cpp gathers for each species.
use structure_pipe.Base.{
  ◌≡◌, refl, sym, ap, ◌∙◌, inl, inr, Bool, true, false, ◌||◌, Option, none, some, List, [], ◌∷◌,
  if◌then◌else◌, Text, text_eq, text_eq_iff, text_eq_refl, subst, All, arith, Bool-cases, All-mono,
}
use structure_pipe.Base.Assoc.{lookup, lookup-assign}
use structure_pipe.Blocks.AutoScale.{
  Spheres, text_lt, unique_species, add_radius, add_self, add_pair, add_pairs, all_radii,
  add_volumes, natural_volume,
}
use structure_pipe.Blocks.AutoScale.Sorted.{
  IsSorted, has, text_lt_irrefl, unique_species-IsSorted, has-unique_species,
}

different :
    (x : Text) (ys : List Text)
    → All (λ y. text_lt x y ≡ true) ys
    → All (λ y. text_eq x y ≡ false) ys
different x [] h = tt
different x (y ∷ ys) h =
    (ground (arith, h.0, text_eq_iff x y, text_lt_irrefl x), different x ys h.1)

not_has : (x : Text) (ys : List Text) → All (λ y. text_eq x y ≡ false) ys → has x ys ≡ false
not_has x [] h = refl
not_has x (y ∷ ys) h = ground (arith, h.0, text_eq_iff x y, text_eq_iff y x, not_has x ys h.1)

module _ {D R : Type 0} (k : Spheres D R) where
  -- Half of a distance, if it is known, added to what is there.
  abbrev pub gathered : Option D → Option R → Option R
  gathered none o = o
  gathered (some d) none = some (k.insert (k.half d) k.no_stats)
  gathered (some d) (some r) = some (k.insert (k.half d) r)

  lookup-add_radius :
      (z x : Text) (d : D) (radii : List (Text × R))
      → lookup z (add_radius k x d radii)
        ≡ (if text_eq x z then gathered (some d) (lookup z radii) else lookup z radii)
  unfolding add_radius
  lookup-add_radius z x d radii = elim (Bool-cases (text_eq x z)) [
    | inl e ↦
        lookup-assign x z _ radii
        ∙ rw e (
            by_stats (lookup x radii)
            ∙ ap (λ w. gathered (some d) (lookup w radii)) ((text_eq_iff x z).0 e))
    | inr e ↦ lookup-assign x z _ radii ∙ rw e refl
  ]
    where
      by_stats :
          (o : Option R)
          → some (k.insert (k.half d) (elim o [ none ↦ k.no_stats | some r ↦ r ]))
            ≡ gathered (some d) o
      by_stats none = refl
      by_stats (some r) = refl

  module _ (get_distance : Text → Text → Option D) where
    -- Half of the known distances of z to some species, in order, added to what is there.
    abbrev pub gathered_all : Text → List Text → Option R → Option R
    gathered_all z [] o = o
    gathered_all z (y ∷ ys) o = gathered_all z ys (gathered (get_distance z y) o)

    lookup-add_self :
        (z x : Text) (radii : List (Text × R))
        → lookup z (add_self k get_distance x radii)
          ≡ (if text_eq x z then gathered (get_distance x x) (lookup z radii) else lookup z radii)
    unfolding add_self
    lookup-add_self z x radii = by_distance (get_distance x x)
      where
        by_distance :
            (o : Option D)
            → lookup z (elim o [ none ↦ radii | some d ↦ add_radius k x d radii ])
              ≡ (if text_eq x z then gathered o (lookup z radii) else lookup z radii)
        by_distance none = ground arith
        by_distance (some d) = lookup-add_radius z x d radii

    lookup-add_pair :
        (z x y : Text) (radii : List (Text × R))
        → text_eq x y ≡ false
        → lookup z (add_pair k get_distance x y radii) ≡ (
            if text_eq x z || text_eq y z
            then gathered (get_distance x y) (lookup z radii)
            else lookup z radii)
    unfolding add_pair
    lookup-add_pair z x y radii ne = by_distance (get_distance x y)
      where
        by_distance :
            (o : Option D)
            → lookup z
                (elim o [ none ↦ radii | some d ↦ add_radius k y d (add_radius k x d radii) ])
              ≡ (if text_eq x z || text_eq y z then gathered o (lookup z radii) else lookup z radii)
        by_distance none = ground arith
        by_distance (some d) = ground (
          arith,
          ne,
          text_eq_iff x z,
          text_eq_iff y z,
          text_eq_iff x y,
          lookup-add_radius z y d (add_radius k x d radii),
          lookup-add_radius z x d radii,
        )

    -- A row of the loop, for another species and for that of the row.
    lookup-add_pairs :
        (z x : Text) (ys : List Text) (radii : List (Text × R))
        → text_eq x z ≡ false
        → All (λ y. text_eq x y ≡ false) ys
        → IsSorted ys
        → lookup z (add_pairs k get_distance x ys radii)
          ≡ (if has z ys then gathered (get_distance x z) (lookup z radii) else lookup z radii)
    unfolding add_pairs
    lookup-add_pairs z x [] radii ne all sorted = refl
    lookup-add_pairs z x (y ∷ ys) radii ne all sorted =
        let radii' = add_pair k get_distance x y radii in
        let here = lookup-add_pair z x y radii all.0 in
        let later = lookup-add_pairs z x ys radii' ne all.1 sorted.1 in
        elim (Bool-cases (text_eq y z)) [
          | inl e ↦
              let same = (text_eq_iff y z).0 e in
              let gone : has z ys ≡ false =
                ap (λ w. has w ys) (sym same) ∙ not_has y ys (different y ys sorted.0) in
              later
              ∙ rw gone (
                  here ∙ rw ne (rw e (ap (λ w. gathered (get_distance x w) (lookup z radii)) same)))
          | inr e ↦
              later
              ∙ rw e (
                  ap (λ o. if has z ys then gathered (get_distance x z) o else o)
                    (here ∙ rw ne (rw e refl)))
        ]

    lookup-add_pairs_same :
        (x : Text) (ys : List Text) (radii : List (Text × R))
        → All (λ y. text_eq x y ≡ false) ys
        → lookup x (add_pairs k get_distance x ys radii) ≡ gathered_all x ys (lookup x radii)
    unfolding add_pairs
    lookup-add_pairs_same x [] radii all = refl
    lookup-add_pairs_same x (y ∷ ys) radii all =
        lookup-add_pairs_same x ys (add_pair k get_distance x y radii) all.1
        ∙ ap (gathered_all x ys) (lookup-add_pair x x y radii all.0 ∙ rw (text_eq_refl x) refl)

    module _ (symmetric : (x y : Text) → get_distance x y ≡ get_distance y x) where
      lookup-all_radii :
          (z : Text) (us : List Text) (radii : List (Text × R))
          → IsSorted us
          → lookup z (all_radii k get_distance us radii)
            ≡ (if has z us then gathered_all z us (lookup z radii) else lookup z radii)
      unfolding all_radii
      lookup-all_radii z [] radii sorted = refl
      lookup-all_radii z (x ∷ xs) radii sorted =
          let all = different x xs sorted.0 in
          let r1 = add_self k get_distance x radii in
          let r2 = add_pairs k get_distance x xs r1 in
          elim (Bool-cases (text_eq x z)) [
            | inl e ↦
                subst
                  (λ w. lookup w (all_radii k get_distance xs r2) ≡ (
                    if has w (x ∷ xs)
                    then gathered_all w (x ∷ xs) (lookup w radii)
                    else lookup w radii))
                  ((text_eq_iff x z).0 e)
                  (lookup-all_radii x xs r2 sorted.1
                    ∙ rw (not_has x xs all) (
                        rw (text_eq_refl x) (
                          lookup-add_pairs_same x xs r1 all
                          ∙ ap (gathered_all x xs)
                              (lookup-add_self x x radii ∙ rw (text_eq_refl x) refl))))
            | inr e ↦
                let row =
                  lookup-add_pairs z x xs r1 e all sorted.1
                  ∙ ap (λ o. if has z xs then gathered (get_distance x z) o else o)
                      (lookup-add_self z x radii ∙ rw e refl)
                  ∙ ap (λ d. if has z xs then gathered d (lookup z radii) else lookup z radii)
                      (symmetric x z) in
                lookup-all_radii z xs r2 sorted.1
                ∙ ap (λ o. if has z xs then gathered_all z xs o else o) row
                ∙ rw e (twice (has z xs) _ (gathered_all z xs) _)
          ]
        where
          twice :
              (b : Bool) (o : Option R) (f : Option R → Option R) (g : Option R)
              → (if b then f (if b then g else o) else (if b then g else o))
                ≡ (if b then f g else o)
          twice true o f g = refl
          twice false o f g = refl

members : (ps : List Text) → All (λ p. has p ps ≡ true) ps
members [] = tt
members (p ∷ ps) = (
  rw (text_eq_refl p) refl,
  All-mono {P = λ q. has q ps ≡ true} {Q = λ q. has q (p ∷ ps) ≡ true} (λ q e. ground (arith, e)) ps
      (members ps),
)

module _ {D R : Type 0} (k : Spheres D R) (get_distance : Text → Text → Option D)
    (symmetric : (x y : Text) → get_distance x y ≡ get_distance y x) where
  -- The volumes of the spheres of some particles, added up; a particle of a species with no known
  -- distance adds none.
  abbrev pub sphere_volumes : List Text → List Text → D → D
  sphere_volumes us [] vol = vol
  sphere_volumes us (p ∷ ps) vol =
      sphere_volumes us ps (elim (gathered_all k get_distance p us none) [
        | none ↦ vol
        | some stats ↦ k.add vol (k.volume (k.mean stats))
      ])

  add_volumes-sphere_volumes :
      (us ps : List Text) (vol : D)
      → IsSorted us
      → All (λ p. has p us ≡ true) ps
      → add_volumes k get_distance (all_radii k get_distance us []) ps vol
        ≡ sphere_volumes us ps vol
  unfolding add_volumes
  add_volumes-sphere_volumes us [] vol sorted all = refl
  add_volumes-sphere_volumes us (p ∷ ps) vol sorted all =
      add_volumes-sphere_volumes us ps _ sorted all.1
      ∙ ap
          (λ (o : Option R).
            sphere_volumes us ps
              (elim o [ none ↦ vol | some stats ↦ k.add vol (k.volume (k.mean stats)) ]))
          (lookup-all_radii k get_distance symmetric p us [] sorted ∙ rw (all.0) refl)

  -- If the known distances are symmetric, the double loop over the species, which visits each pair
  -- once, gathers for each species half of its known distances to all species of the structure, in
  -- the order of the species, its own among them. The natural volume adds the volumes of the spheres
  -- whose radii are the means of those, in the order of the particles; the species of the structure
  -- are sorted, and each particle's is one of them.
  pub natural_volume-sphere_volumes :
      (particles : List Text)
      → let us = unique_species particles [] in
        IsSorted us
        × All (λ p. has p us ≡ true) particles
        × (natural_volume k get_distance particles ≡ sphere_volumes us particles k.zero)
  unfolding natural_volume
  natural_volume-sphere_volumes particles =
      let us = unique_species particles [] in
      let sorted = unique_species-IsSorted particles [] tt in
      let all =
        All-mono {P = λ p. has p particles ≡ true} {Q = λ p. has p us ≡ true}
          (λ p e. has-unique_species p particles [] ∙ rw e refl) particles (members particles) in
      (sorted, all, add_volumes-sphere_volumes us particles k.zero sorted all)
