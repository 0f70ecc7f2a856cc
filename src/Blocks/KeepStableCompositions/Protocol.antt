-- ===== src/Blocks/KeepStableCompositions/Protocol.antt =====
-- What the engine's calls of a round do: structures come in, it asks for data, and has it released.
use mathlib.Core.List.Perm
use structure_pipe.Base.{
  ◌≡◌, ◌≢◌, refl, sym, ap, ◌∙◌, Bool, true, false, none, List, [], ◌∷◌, ◌++◌, if◌then◌else◌, ltb,
  ◌==◌, length, keep_if, All, arith, append-nil, Bool-cases, inl, inr, Perm, perm_of_eq,
  perm_middle,
}
use structure_pipe.Pipe.{handled, sent_of}
use structure_pipe.Blocks.RemoveDuplicates.{Distinct}
use structure_pipe.Blocks.KeepStableCompositions.{
  Pointer, Hulls, KeepStableCompositions, new_keep_stable, pipeline_initialised, take_in,
  insert_pointer, send_store, release_stable, release, has_data,
}

send_store-sent :
    (ss : List Pointer) → (handled (send_store ss) ≡ ss) × (sent_of (send_store ss) ≡ ss)
unfolding send_store
send_store-sent [] = (refl, refl)
send_store-sent (s ∷ ss) = ground (arith, send_store-sent ss)

insert_pointer-perm :
    (x : Pointer) (ys : List Pointer) → All (λ y. y ≢ x) ys → Perm (insert_pointer x ys) (x ∷ ys)
unfolding insert_pointer
insert_pointer-perm x [] h = Perm.refl (x ∷ [])
insert_pointer-perm x (y ∷ ys) h = elim (Bool-cases (ltb x y)) [
  | inl less ↦ rw less (Perm.refl (x ∷ y ∷ ys))
  | inr more ↦
      let ne : (x == y) ≡ false = ground (arith, h.0) in
      rw more (
        rw ne (
          Perm.trans (Perm.append_left (y ∷ []) (insert_pointer-perm x ys h.1))
            (perm_middle (y ∷ []) ys)))
]

insert_pointer-All :
    (P : Pointer → Type 0) (x : Pointer) (ys : List Pointer)
    → P x
    → All P ys
    → All P (insert_pointer x ys)
unfolding insert_pointer
insert_pointer-All P x [] p h = (p, tt)
insert_pointer-All P x (y ∷ ys) p h =
    either (x ∷ y ∷ ys) _ (ltb x y) (p, h)
      (either (y ∷ ys) (y ∷ insert_pointer x ys) (x == y) h (h.0, insert_pointer-All P x ys p h.1))
  where
    either : (xs zs : List Pointer) (b : Bool) → All P xs → All P zs → All P (if b then xs else zs)
    either xs zs true l r = l
    either xs zs false l r = r

-- None of the pointers is in the store with x, if none is in the store or is x.
All-insert_pointer :
    (x : Pointer) (store xs : List Pointer)
    → All (λ y. y ≢ x) xs
    → All (λ z. All (λ y. y ≢ z) store) xs
    → All (λ z. All (λ y. y ≢ z) (insert_pointer x store)) xs
All-insert_pointer x store [] h g = tt
All-insert_pointer x store (z ∷ xs) h g = (
  insert_pointer-All (λ y. y ≢ z) x store (λ e. h.0 (sym e)) g.0,
  All-insert_pointer x store xs h.1 g.1,
)

module _ {H : Type 0} where
  unfoldable pub feed : List Pointer → KeepStableCompositions H → KeepStableCompositions H
  feed [] b = b
  feed (x ∷ xs) b = feed xs (take_in x b)

  feed-hull :
      (xs : List Pointer) (b : KeepStableCompositions H)
      → b.convex_hull_structures ≡ none
      → (feed xs b).convex_hull_structures ≡ none
  unfolding feed take_in
  feed-hull [] b e = e
  feed-hull (x ∷ xs) b e = feed-hull xs (take_in x b) refl

  feed-perm :
      (xs : List Pointer) (b : KeepStableCompositions H)
      → Distinct xs
      → All (λ x. All (λ y. y ≢ x) b.structure_store) xs
      → Perm (feed xs b).structure_store (xs ++ b.structure_store)
  unfolding feed take_in
  feed-perm [] b d h = Perm.refl b.structure_store
  feed-perm (x ∷ xs) b d h =
      Perm.trans
        (feed-perm xs (take_in x b) d.1 (All-insert_pointer x b.structure_store xs d.0 h.1))
        (Perm.trans (Perm.append_left xs (insert_pointer-perm x b.structure_store h.0))
          (perm_middle xs b.structure_store))

  nothing_held :
      (write_hull : Bool)
      → let new = pipeline_initialised {H = H} (new_keep_stable write_hull) in
        (new.structure_store ≡ []) × (new.convex_hull_structures ≡ none)
  unfolding pipeline_initialised new_keep_stable
  nothing_held true = (refl, refl)
  nothing_held false = (refl, refl)

module _ {H : Type 0} (k : Hulls H) where
  release_stable-keep_if :
      (h : H) (ss : List Pointer)
      → let (events, n) = release_stable k h ss in
        (handled events ≡ ss)
        × (sent_of events ≡ keep_if (k.is_stable h) ss)
        × (n ≡ length (keep_if (k.is_stable h) ss))
  unfolding release_stable
  release_stable-keep_if h [] = (refl, refl, refl)
  release_stable-keep_if h (s ∷ ss) = ground (arith, release_stable-keep_if h ss)

  release_of_store :
      (b : KeepStableCompositions H)
      → b.convex_hull_structures ≡ none
      → (has_data k b).1 ≡ true
      → let ss = b.structure_store in
        let kept =
          if ltb (k.num_endpoints ss) 2 then ss else keep_if (k.is_stable (k.new_hull ss)) ss in
        let (b', events, n) = release k (has_data k b).0 in
        (handled events ≡ ss)
        × (sent_of events ≡ kept)
        × (n ≡ length kept)
        × (b'.structure_store ≡ [])
  unfolding has_data release
  release_of_store b e has = ground (
    arith,
    e,
    has,
    send_store-sent b.structure_store,
    release_stable-keep_if (k.new_hull b.structure_store) b.structure_store,
  )

  -- A new block, into which structures come, none of them twice. If it says then that it has data,
  -- and is asked to release it, each structure that came in is sent on or dropped once, in the order
  -- of the set. Those that are sent are the stable ones of the hull of all of them, or all, if they
  -- have less than two end points; the number that is returned is theirs, and nothing is held any
  -- more.
  pub release-has_data :
      (write_hull : Bool) (xs : List Pointer)
      → Distinct xs
      → (has_data k (feed xs (pipeline_initialised (new_keep_stable write_hull)))).1 ≡ true
      → let b = feed xs (pipeline_initialised (new_keep_stable write_hull)) in
        let ss = b.structure_store in
        let kept =
          if ltb (k.num_endpoints ss) 2 then ss else keep_if (k.is_stable (k.new_hull ss)) ss in
        let (b', events, n) = release k (has_data k b).0 in
        Perm (handled events) xs
        × (handled events ≡ ss)
        × (sent_of events ≡ kept)
        × (n ≡ length kept)
        × (b'.structure_store ≡ [])
  release-has_data write_hull xs distinct has =
      let new = pipeline_initialised (new_keep_stable {H = H} write_hull) in
      let (store, hull) = nothing_held write_hull in
      let (all, sent, count, empty) = release_of_store (feed xs new) (feed-hull xs new hull) has in
      (
        Perm.trans (perm_of_eq all) (
            Perm.trans (feed-perm xs new distinct (nothing_before xs store))
              (perm_of_eq (ap (λ q. xs ++ q) store ∙ append-nil xs))),
        all,
        sent,
        count,
        empty,
      )
    where
      nothing_before :
          (xs : List Pointer) {ss : List Pointer} → ss ≡ [] → All (λ x. All (λ y. y ≢ x) ss) xs
      nothing_before [] e = tt
      nothing_before (x ∷ xs) e = (rw e tt, nothing_before xs e)
