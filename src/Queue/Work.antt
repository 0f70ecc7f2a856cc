-- ===== src/Queue/Work.antt =====
-- `getWork` of src/blocks/RunPotentialParamsQueue.cpp on a queue file whose every line is ended.
use structure_pipe.Base.{
  keep_if-append, ℕ, zero, suc, ◌+◌, ◌≤◌, ◌<◌, ◌≡◌, ◌≢◌, refl, sym, ap, ap₂, ◌∙◌, inl, inr, true,
  false, some, List, [], ◌∷◌, ◌++◌, map, if◌then◌else◌, ltb, length, take, drop, Text, text, All,
  All-append, arith, append_assoc, append-nil, length-append, Bool-cases, drop_all,
}
use structure_pipe.Queue.{
  Params, Reading, RunPotentialParamsQueue, get_line, is_work, taken_item, read_line, read_params,
  read_next, read_work, rewritten, get_work,
}
use structure_pipe.Queue.Lines.{
  unlines, unlines-append, IsLine, get_line-unlines, length-unlines_le, pending, without_first,
  pending-without_first, without_first-none, length-without_first, IsLine-without_first,
  IsLine-pending,
}

module _ (split : Text → Params) (process_id : Text) where
  -- The line that is left for a line that was taken.
  abbrev pub tagged : Text → Text
  tagged l = text "#" ++ (process_id ++ (text " " ++ l))

  -- What reading the first n waiting lines of `ls` does to the variables of `getWork`.
  record Took (n : ℕ) (ls : List Text) (r r' : Reading) : Type 0 where
    num_eq : r'.num_params_read ≡ r.num_params_read + length (take n (pending ls))
    queue_eq : r'.params_queue ≡ r.params_queue ++ map split (take n (pending ls))
    taken_eq :
        r'.taken_work_items ≡ r.taken_work_items ++ unlines (map tagged (take n (pending ls)))
    left_eq : r'.original_contents ++ r'.rest ≡ r.original_contents ++ unlines (without_first n ls)

  taken_item-unlines :
      (l : Text) (ts : List Text)
      → taken_item split process_id l ++ unlines (map tagged ts) ≡ unlines (map tagged (l ∷ ts))
  unfolding taken_item unlines
  taken_item-unlines l ts = simp append_assoc

  Took-work :
      (n : ℕ) (l : Text) (ls : List Text) (r r' : Reading)
      → is_work l ≡ true
      → Took n ls (read_line split process_id l (record r { rest = unlines ls })) r'
      → Took (suc n) (l ∷ ls) r r'
  unfolding read_line read_params without_first
  Took-work n l ls r r' e t = record {
    num_eq = ground (arith, e, t.num_eq);
    queue_eq = ground (
      arith,
      e,
      t.queue_eq,
      append_assoc r.params_queue (split l ∷ []) (map split (take n (pending ls))),
    );
    taken_eq = ground (
      arith,
      e,
      t.taken_eq,
      append_assoc r.taken_work_items (taken_item split process_id l)
          (unlines (map tagged (take n (pending ls)))),
      taken_item-unlines l (take n (pending ls)),
    );
    left_eq = ground (arith, e, t.left_eq);
  }

  Took-other :
      (n : ℕ) (l : Text) (ls : List Text) (r r' : Reading)
      → is_work l ≡ false
      → Took (suc n) ls (read_line split process_id l (record r { rest = unlines ls })) r'
      → Took (suc n) (l ∷ ls) r r'
  unfolding read_line read_params without_first unlines
  Took-other n l ls r r' e t = record {
    num_eq = ground (arith, e, t.num_eq);
    queue_eq = ground (arith, e, t.queue_eq);
    taken_eq = ground (arith, e, t.taken_eq);
    left_eq = ground (
      arith,
      e,
      t.left_eq,
      append_assoc r.original_contents (l ++ text "\n") (unlines (without_first (suc n) ls)),
      append_assoc l (text "\n") (unlines (without_first (suc n) ls)),
    );
  }

  Took-none : (r : Reading) (n : ℕ) (ls : List Text) → n ≡ 0 → r.rest ≡ unlines ls → Took n ls r r
  unfolding without_first unlines
  Took-none r zero ls e f = record {
    num_eq = omega arith;
    queue_eq = sym (append-nil r.params_queue);
    taken_eq = sym (append-nil r.taken_work_items);
    left_eq = ap (λ q. r.original_contents ++ q) f;
  }
  Took-none r (suc n) ls e f = cc

  Took-end : (r : Reading) (n : ℕ) → r.rest ≡ [] → Took (suc n) [] r r
  unfolding without_first unlines
  Took-end r n f = record {
    num_eq = omega arith;
    queue_eq = sym (append-nil r.params_queue);
    taken_eq = sym (append-nil r.taken_work_items);
    left_eq = ap (λ q. r.original_contents ++ q) f;
  }

  read_next-unlines :
      (chunk n : ℕ) (l : Text) (ls : List Text) (r : Reading)
      → r.num_params_read + suc n ≡ chunk
      → r.rest ≡ unlines (l ∷ ls)
      → IsLine l
      → read_next split process_id chunk r
        ≡ some (read_line split process_id l (record r { rest = unlines ls }))
  unfolding read_next
  read_next-unlines chunk n l ls r m e line =
      rw (e, read_next) (rw (get_line-unlines l ls line, read_next) (ground (arith, m)))

  read_work-next :
      (fuel chunk : ℕ) (r r1 : Reading)
      → read_next split process_id chunk r ≡ some r1
      → read_work split process_id (suc fuel) chunk r ≡ read_work split process_id fuel chunk r1
  unfolding read_work
  read_work-next fuel chunk r r1 e = rw (e, read_work) refl

  read_line-keeps :
      (l : Text) (r : Reading)
      → ((read_line split process_id l r).rest ≡ r.rest)
        × ((read_line split process_id l r).num_params_read
            ≡ (if is_work l then r.num_params_read + 1 else r.num_params_read))
  unfolding read_line read_params
  read_line-keeps l r = elim (Bool-cases (is_work l)) [
    | inl e ↦ (ground (arith, e), ground (arith, e))
    | inr e ↦ (ground (arith, e), ground (arith, e))
  ]

  read_work-unlines :
      (fuel chunk n : ℕ) (ls : List Text) (r : Reading)
      → length ls < fuel
      → r.num_params_read + n ≡ chunk
      → r.rest ≡ unlines ls
      → All IsLine ls
      → (r' : Reading) × (read_work split process_id fuel chunk r ≡ some r') × Took n ls r r'
  unfolding read_work read_next
  read_work-unlines zero chunk n ls r h m e lines = elim h [ ]
  read_work-unlines (suc fuel) chunk zero ls r h m e lines =
      (r, ground (arith, m), Took-none r 0 ls refl e)
  read_work-unlines (suc fuel) chunk (suc n) [] r h m e lines =
      let at_end : r.rest ≡ [] = e ∙ (unfold unlines in refl) in
      (r, rw (at_end, read_work) (unfold get_line in ground arith), Took-end r n at_end)
  read_work-unlines (suc fuel) chunk (suc n) (l ∷ ls) r h m e lines =
      let r0 = record r { rest = unlines ls } in
      let r1 = read_line split process_id l r0 in
      let (same_rest, num) = read_line-keeps l r0 in
      let step = read_work-next fuel chunk r r1 (read_next-unlines chunk n l ls r m e lines.0) in
      elim (Bool-cases (is_work l)) [
        | inl work ↦
            let (r', f, t) =
              read_work-unlines fuel chunk n ls r1 (omega (arith, h)) (ground (arith, num, work, m))
                same_rest lines.1 in
            (r', step ∙ f, Took-work n l ls r r' work t)
        | inr other ↦
            let (r', f, t) =
              read_work-unlines fuel chunk (suc n) ls r1 (omega (arith, h))
                (ground (arith, num, other, m)) same_rest lines.1 in
            (r', step ∙ f, Took-other n l ls r r' other t)
      ]

  -- What is left in the file after work was taken.
  abbrev pub lines_after : ℕ → List Text → List Text
  lines_after n ls = without_first n ls ++ map tagged (take n (pending ls))

  length-tagged : (ts : List Text) → length (unlines ts) ≤ length (unlines (map tagged ts))
  unfolding unlines
  length-tagged [] = omega arith
  length-tagged (l ∷ ts) = omega (
    arith,
    length-tagged ts,
    length-append l (text "\n" ++ unlines ts),
    length-append (tagged l) (text "\n" ++ unlines (map tagged ts)),
    length-append process_id (text " " ++ l),
  )

  lines_after-length :
      (n : ℕ) (ls : List Text) → length (unlines ls) ≤ length (unlines (lines_after n ls))
  lines_after-length n ls =
      let ts = take n (pending ls) in
      omega (
        arith,
        length-without_first n ls,
        length-tagged ts,
        ap length (unlines-append (without_first n ls) (map tagged ts)),
        length-append (unlines (without_first n ls)) (unlines (map tagged ts)),
      )

  pending-tagged : (ts : List Text) → pending (map tagged ts) ≡ []
  unfolding is_work
  pending-tagged [] = refl
  pending-tagged (l ∷ ts) = pending-tagged ts

  IsLine-tagged : IsLine process_id → (ts : List Text) → All IsLine ts → All IsLine (map tagged ts)
  IsLine-tagged pid [] h = tt
  IsLine-tagged pid (l ∷ ts) h = (
    (omega arith, All-append (λ c. c ≢ 10) process_id (text " " ++ l) pid (omega arith, h.0)),
    IsLine-tagged pid ts h.1,
  )

  rewritten-unlines :
      (n : ℕ) (ls : List Text) (r r' : Reading)
      → r.num_params_read ≡ 0
      → r.taken_work_items ≡ []
      → r.original_contents ≡ []
      → Took n ls r r'
      → rewritten split process_id (unlines ls) r' ≡ unlines (lines_after n ls)
  unfolding rewritten
  rewritten-unlines n ls r r' num taken original t =
      let ts = take n (pending ls) in
      let bytes : (r'.original_contents ++ r'.rest) ++ r'.taken_work_items
          ≡ unlines (lines_after n ls) =
        ap₂ (λ a b. a ++ b) (t.left_eq ∙ ap (λ q. q ++ unlines (without_first n ls)) original)
          (t.taken_eq ∙ ap (λ q. q ++ unlines (map tagged ts)) taken)
        ∙ sym (unlines-append (without_first n ls) (map tagged ts)) in
      elim (Bool-cases (ltb 0 r'.num_params_read)) [
        | inl some_read ↦
            rw (some_read, rewritten)
              (ap (λ q. q ++ drop (length q) (unlines ls)) bytes
                ∙ ap (λ q. unlines (lines_after n ls) ++ q)
                    (drop_all _ (unlines ls) (lines_after-length n ls))
                ∙ append-nil _)
        | inr none_read ↦
            let no_ts : length ts ≡ 0 = ground (arith, none_read, t.num_eq, num) in
            rw (none_read, rewritten)
              (ap unlines (
                sym (
                  ap₂ (λ a b. a ++ map tagged b) (without_first-none n ls no_ts) (length_0 ts no_ts)
                  ∙ append-nil ls)))
      ]
    where
      length_0 : (xs : List Text) → length xs ≡ 0 → xs ≡ []
      length_0 [] e = refl
      length_0 (x ∷ xs) e = cc

  -- `getWork` on a queue file whose lines are ls, each ended, for a process number without a
  -- line end. It takes the first waiting lines, as many as the chunk has, in order, and puts
  -- their parameters behind those in the queue. The file then holds the other lines in their
  -- order, and behind them each line that was taken, marked by the number of the process; the
  -- lines that wait in it are the waiting lines that were not taken, and each is ended. The call
  -- returns whether a line was taken.
  pub get_work-unlines :
      {S : Type 0} (b : RunPotentialParamsQueue S) (ls : List Text)
      → b.queue_file ≡ some (unlines ls)
      → All IsLine ls
      → IsLine process_id
      → let n = b.num_work_items_chunk in
        let taken = take n (pending ls) in
        (get_work split process_id b
          ≡ some (
            record b {
              queue_file = some (unlines (lines_after n ls));
              params_queue = b.params_queue ++ map split taken;
            },
            ltb 0 (length taken),
          ))
        × (pending (lines_after n ls) ≡ drop n (pending ls))
        × All IsLine (lines_after n ls)
  unfolding get_work
  get_work-unlines b ls e lines pid =
      let n = b.num_work_items_chunk in
      let taken = take n (pending ls) in
      let r : Reading = record {
        rest = unlines ls;
        num_params_read = 0;
        params_queue = b.params_queue;
        taken_work_items = [];
        original_contents = [];
      } in
      let (r', f, t) =
        read_work-unlines (suc (length (unlines ls))) n n ls r (omega (arith, length-unlines_le ls))
          (omega arith) refl lines in
      (
        rw (e, get_work)
            (rw (f, get_work)
              (ground (arith, t.num_eq, t.queue_eq, rewritten-unlines n ls r r' refl refl refl t))),
        keep_if-append is_work (without_first n ls) (map tagged taken)
            ∙ ap (λ q. pending (without_first n ls) ++ q) (pending-tagged taken)
            ∙ append-nil _
            ∙ pending-without_first n ls,
        All-append IsLine (without_first n ls) (map tagged taken) (IsLine-without_first n ls lines)
            (IsLine-tagged pid taken (IsLine-pending n ls lines)),
      )
