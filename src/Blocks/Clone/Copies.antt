-- ===== src/Blocks/Clone/Copies.antt =====
-- The structures that Clone, src/blocks/Clone.cpp, sends.
use structure_pipe.Base.{
  ℕ, zero, suc, ◌+◌, ◌-◌, ◌≡◌, refl, sym, ap, ap₂, ◌∙◌, Bool, true, false, List, [], ◌∷◌, ◌++◌,
  if◌then◌else◌, Text, arith, map, leb,
}
use structure_pipe.Pipe.{Event, sent}
use structure_pipe.PipeData.{GlobalData, generate_structure_name}
use structure_pipe.Blocks.Clone.{Structure, Clone, prep_structure, send_copies, take_in}

-- n numbers, from m on.
abbrev pub numbers_from : ℕ → ℕ → List ℕ
numbers_from m zero = []
numbers_from m (suc n) = m ∷ numbers_from (suc m) n

module _ {V C : Type 0} (unique : ℕ → Text) (global : GlobalData V) (b : Clone)
    (s : Structure C) where
  -- The copy that has the name of number i, if the block gives names.
  abbrev pub copy : ℕ → Structure C
  unfolding generate_structure_name
  copy i =
      if b.give_unique_names
      then record s { name = generate_structure_name (unique i) global }
      else s

  numbers_from-last :
      (m n : ℕ)
      → map (λ i. sent (copy i)) (numbers_from m n) ++ sent (copy (m + n)) ∷ []
        ≡ map (λ i. sent (copy i)) (numbers_from m (suc n))
  unfolding copy
  numbers_from-last m zero = ap (λ i. sent (copy i) ∷ []) (omega arith)
  numbers_from-last m (suc n) = ap (◌∷◌ (sent (copy m))) (
      ap (λ i. map (λ j. sent (copy j)) (numbers_from (suc m) n) ++ sent (copy i) ∷ [])
        (let e : m + suc n ≡ suc m + n = omega arith in e)
      ∙ numbers_from-last (suc m) n)

  made_after : ℕ → ℕ → ℕ
  made_after m n = if b.give_unique_names then m + n else m

  prep_structure-copy :
      (m i : ℕ)
      → (b.give_unique_names ≡ true → i ≡ m)
      → prep_structure unique global b s m ≡ (copy i, made_after m 1)
  unfolding prep_structure copy made_after
  prep_structure-copy m i h = by_flag b.give_unique_names h
    where
      by_flag :
          (g : Bool)
          → (g ≡ true → i ≡ m)
          → let prepared : Structure C × ℕ =
              if g
              then (record s { name = generate_structure_name (unique m) global }, m + 1)
              else (s, m) in
            prepared ≡ (
              if g then record s { name = generate_structure_name (unique i) global } else s,
              if g then m + 1 else m,
            )
      by_flag true h =
          ap (λ j. (record s { name = generate_structure_name (unique j) global }, m + 1))
            (sym (h refl))
      by_flag false h = refl

  made_after-suc : (m n : ℕ) → made_after (made_after m 1) n ≡ made_after m (suc n)
  unfolding made_after
  made_after-suc m n = ground arith

  made_after-zero : (m : ℕ) → made_after m 0 ≡ m
  unfolding made_after
  made_after-zero m = ground arith

  -- The numbers only count when names are given.
  send_copies-copy :
      (n m i : ℕ)
      → (b.give_unique_names ≡ true → i ≡ m)
      → send_copies unique global b n s m
        ≡ (map (λ j. sent (copy j)) (numbers_from i n), made_after m n)
  unfolding send_copies
  send_copies-copy zero m i h = ap (λ q. ([], q)) (sym (made_after-zero m))
  send_copies-copy (suc n) m i h =
      let e = prep_structure-copy m i h in
      let f =
        send_copies-copy n (made_after m 1) (suc i)
          (λ g. unfold made_after in ground (arith, g, h g)) in
      ap
        (λ q. (
          sent q.0 ∷ (send_copies unique global b n s q.1).0,
          (send_copies unique global b n s q.1).1,
        ))
        e
      ∙ ap (λ q. (sent (copy i) ∷ q.0, q.1)) f
      ∙ ap (λ q. (map (λ j. sent (copy j)) (numbers_from i (suc n)), q)) (made_after-suc m n)

  -- `in` sends as many structures as the block is set to, and one if that is less than one. Each has
  -- the contents of the structure that came in; if the block gives names, each has the next name
  -- that is made, behind the seed's, and otherwise each has the name of the one that came in.
  pub take_in-copy :
      (made : ℕ)
      → let n = if leb b.times 1 then 1 else b.times in
        take_in unique global b s made ≡ (
          map (λ i. sent (copy i)) (numbers_from made n),
          if b.give_unique_names then made + n else made,
        )
  unfolding take_in
  take_in-copy made =
      let k = b.times - 1 in
      let n : suc k ≡ (if leb b.times 1 then 1 else b.times) = ground arith in
      let last : made_after (made_after made k) 1
          ≡ (if b.give_unique_names then made + suc k else made) =
        unfold made_after in ground arith in
      let e = send_copies-copy k made made (λ g. refl) in
      let f =
        prep_structure-copy (made_after made k) (made + k)
          (λ g. unfold made_after in ground (arith, g)) in
      ap
        (λ q. (
          q.0 ++ sent (prep_structure unique global b s q.1).0 ∷ [],
          (prep_structure unique global b s q.1).1,
        ))
        e
      ∙ ap (λ q. (map (λ i. sent (copy i)) (numbers_from made k) ++ sent q.0 ∷ [], q.1)) f
      ∙ ap₂ (λ (x : List (Event (Structure C))) (y : ℕ). (x, y)) (numbers_from-last made k) last
      ∙ ap
          (λ q. (
            map (λ i. sent (copy i)) (numbers_from made q),
            if b.give_unique_names then made + q else made,
          ))
          n
