-- ===== src/Queue/Drain.antt =====
-- The rounds of `start` of src/blocks/RunPotentialParamsQueue.cpp, over the queue file and the
-- file of what is done.
use mathlib.Core.Option
use structure_pipe.Base.{
  ℕ, zero, suc, ◌+◌, ◌^◌, ◌<◌, ◌≡◌, refl, sym, ap, ap₂, ◌∙◌, inl, inr, Option, some, List, [], ◌∷◌,
  ◌++◌, map, ltb, length, take, drop, Text, All, arith, append_assoc, append-nil, Bool-cases, subst,
  drop_all, take-append-drop, length-take, length-drop,
}
use structure_pipe.Queue.{
  Params, RunPotentialParamsQueue, update_done_params, finished, run_queue, do_work, start,
}
use structure_pipe.Queue.Lines.{unlines, IsLine, pending}
use structure_pipe.Queue.Work.{lines_after, get_work-unlines}
use structure_pipe.Queue.Stamped.{stamped, finished-stamped}
use structure_pipe.Queue.Done.{
  NoneWaiting, done_after, done_after-append, NoneWaiting-done_after, update_done_params-done_after,
  done_after-nil,
}
use structure_pipe.Queue.Chunk.{work_chunk_size-FitsTarget}

map-append : (f : Text → Params) (xs ys : List Text) → map f (xs ++ ys) ≡ map f xs ++ map f ys
map-append f [] ys = refl
map-append f (x ∷ xs) ys = ap (◌∷◌ (f x)) (map-append f xs ys)

no_elements : (xs : List Text) → length xs ≡ 0 → xs ≡ []
no_elements [] e = refl
no_elements (x ∷ xs) e = cc

module _ {S W : Type 0} (split : Text → Params) (process_id : Text)
    (sweep : Params → W → List (S × Option Params) × W) (mean : ℕ → ℕ) (target : ℕ) where
  -- What the block sends for the parameters of its runs, one after the other.
  unfoldable pub results : List Params → W → List (S × Params)
  results [] w = []
  results (p ∷ ps) w = map (stamped p) (sweep p w).0 ++ results ps (sweep p w).1

  -- What the runs make of everything else.
  unfoldable pub world_after : List Params → W → W
  world_after [] w = w
  world_after (p ∷ ps) w = world_after ps (sweep p w).1

  results-append :
      (xs ys : List Params) (w : W)
      → results (xs ++ ys) w ≡ results xs w ++ results ys (world_after xs w)
  unfolding results world_after
  results-append [] ys w = refl
  results-append (p ∷ xs) ys w =
      ap (λ q. map (stamped p) (sweep p w).0 ++ q) (results-append xs ys (sweep p w).1)
      ∙ sym (append_assoc (map (stamped p) (sweep p w).0) _ _)

  world_after-append :
      (xs ys : List Params) (w : W) → world_after (xs ++ ys) w ≡ world_after ys (world_after xs w)
  unfolding world_after
  world_after-append [] ys w = refl
  world_after-append (p ∷ xs) ys w = world_after-append xs ys (sweep p w).1

  run_queue-all :
      (ps : List Params) (b : RunPotentialParamsQueue S) (w : W)
      → b.buffer ≡ []
      → run_queue split process_id sweep mean target ps b w ≡ (
        record b {
          params_queue = [];
          done_params = b.done_params ++ ps;
          ran = b.ran ++ ps;
          sent = b.sent ++ results ps w;
        },
        world_after ps w,
      )
  unfolding run_queue results world_after
  run_queue-all [] b w e =
      ground (arith, append-nil b.done_params, append-nil b.ran, append-nil b.sent)
  run_queue-all (p ∷ ps) b w e =
      let more = map (finished p) (sweep p w).0 in
      let w' = (sweep p w).1 in
      let b1 : RunPotentialParamsQueue S = record b {
        params_queue = ps;
        done_params = b.done_params ++ p ∷ [];
        ran = b.ran ++ p ∷ [];
        sent = b.sent ++ (b.buffer ++ more);
        buffer = [];
      } in
      ground (
        arith,
        e,
        run_queue-all ps b1 w' refl,
        append_assoc b.done_params (p ∷ []) ps,
        append_assoc b.ran (p ∷ []) ps,
        append_assoc b.sent more (results ps w'),
        finished-stamped p (sweep p w).0,
      )

  -- The state after the work ps was done: the runs, what was sent, the queue, the buffer, the file
  -- of what is done, and everything else.
  pub record Did (ps : List Params) (b : RunPotentialParamsQueue S) (w : W)
      (b' : RunPotentialParamsQueue S) (w' : W) : Type 0 where
    pub ran_eq : b'.ran ≡ b.ran ++ ps
    pub sent_eq : b'.sent ≡ b.sent ++ results ps w
    pub queue_empty : b'.params_queue ≡ []
    pub buffer_empty : b'.buffer ≡ []
    pub done_eq : (b'.done_file, b'.done_params) ≡ done_after b.done_file b.done_params ps
    pub world_eq : w' ≡ world_after ps w

  module _ (mean_positive : (n : ℕ) → 0 < mean n) (target_small : target + 1 < 2 ^ 31) where
    do_work-Did :
        (b : RunPotentialParamsQueue S) (w : W)
        → b.buffer ≡ []
        → NoneWaiting b.done_file b.done_params
        → (b' : RunPotentialParamsQueue S) × (w' : W) × (do_work split process_id sweep mean target
              b w
            ≡ some (b', w'))
          × (0 < b'.num_work_items_chunk)
          × (b'.queue_file ≡ b.queue_file)
          × Did b.params_queue b w b' w'
    unfolding do_work
    do_work-Did b w e h =
        let ps = b.params_queue in
        let b1 : RunPotentialParamsQueue S = record b {
          params_queue = [];
          done_params = b.done_params ++ ps;
          ran = b.ran ++ ps;
          sent = b.sent ++ results ps w;
        } in
        let (n, f, fits) =
          work_chunk_size-FitsTarget (mean (length (b.ran ++ ps))) target b.num_work_items_chunk
            (mean_positive _) target_small in
        let b2 : RunPotentialParamsQueue S = record b1 {
          done_file = (done_after b.done_file b.done_params ps).0;
          done_params = (done_after b.done_file b.done_params ps).1;
        } in
        let all = run_queue-all ps b w e in
        let g : update_done_params (run_queue split process_id sweep mean target ps b w).0 ≡ b2 =
          ap (λ q. update_done_params q.0) all
          ∙ update_done_params-done_after b1 b.done_file b.done_params ps refl refl h in
        (
          record b2 { num_work_items_chunk = n },
          world_after ps w,
          rw (g, do_work)
              (rw (f, do_work) (ap (λ q. some (record b2 { num_work_items_chunk = n }, q.1)) all)),
          omega (arith, fits.1),
          refl,
          record {
            ran_eq = refl;
            sent_eq = refl;
            queue_empty = refl;
            buffer_empty = e;
            done_eq = refl;
            world_eq = refl;
          },
        )

    Did-append :
        (ps qs : List Params) (b b' b'' : RunPotentialParamsQueue S) (w w' w'' : W)
        → Did ps b w b' w'
        → Did qs b' w' b'' w''
        → Did (ps ++ qs) b w b'' w''
    Did-append ps qs b b' b'' w w' w'' d e = record {
      ran_eq = e.ran_eq ∙ ap (λ q. q ++ qs) d.ran_eq ∙ append_assoc b.ran ps qs;
      sent_eq =
          e.sent_eq
          ∙ ap₂ (λ q v. q ++ results qs v) d.sent_eq d.world_eq
          ∙ append_assoc b.sent _ _
          ∙ ap (λ q. b.sent ++ q) (sym (results-append ps qs w));
      world_eq = e.world_eq ∙ ap (world_after qs) d.world_eq ∙ sym (world_after-append ps qs w);
      queue_empty = e.queue_empty;
      buffer_empty = e.buffer_empty;
      done_eq =
          e.done_eq
          ∙ ap (λ q. done_after q.0 q.1 qs) d.done_eq
          ∙ done_after-append b.done_file b.done_params ps qs;
    }

    -- `start` on a queue file whose lines are ls, each ended, that no other process changes,
    -- with an empty queue and buffer, nothing done that waits for an existing file of what is
    -- done, a chunk that is not 0, mean durations that are positive, a target below 2 ^ 31 - 1
    -- and a process number without a line end: it ends, after at most as many rounds with work
    -- as there are waiting lines. It ran the sweep pipeline once for each waiting line, in the
    -- order of the file; it sent what the runs finished with, in that order; it wrote the
    -- parameters behind those in the file of what is done, if that file exists, and kept them if
    -- not; and no line waits in the queue file.
    pub start-drains :
        (fuel : ℕ) (b : RunPotentialParamsQueue S) (v : W) (ls : List Text)
        → b.queue_file ≡ some (unlines ls)
        → All IsLine ls
        → IsLine process_id
        → b.params_queue ≡ []
        → b.buffer ≡ []
        → NoneWaiting b.done_file b.done_params
        → 0 < b.num_work_items_chunk
        → length (pending ls) < fuel
        → (b' : RunPotentialParamsQueue S) × (v' : W) × (start split process_id sweep mean target
              fuel b v
            ≡ some (b', v'))
          × Did (map split (pending ls)) b v b' v'
          × (ls' : List Text) × (b'.queue_file ≡ some (unlines ls'))
          × (pending ls' ≡ [])
    unfolding start Option.bind
    start-drains zero b v ls e lines pid q u w c h = elim h [ ]
    start-drains (suc fuel) b v ls e lines pid q u w c h =
        let n = b.num_work_items_chunk in
        let taken = take n (pending ls) in
        let (f, pend, lines') = get_work-unlines split process_id b ls e lines pid in
        let b1 : RunPotentialParamsQueue S = record b {
          queue_file = some (unlines (lines_after split process_id n ls));
          params_queue = b.params_queue ++ map split taken;
        } in
        let queue : b1.params_queue ≡ map split taken = ap (λ r. r ++ map split taken) q in
        elim (Bool-cases (ltb 0 (length taken))) [
          | inl more ↦
              let (b2, v2, g, c2, file, did) = do_work-Did b1 v u w in
              let shorter : length (pending (lines_after split process_id n ls)) < fuel = ground (
                arith,
                more,
                h,
                ap length pend,
                length-drop n (pending ls),
                length-take n (pending ls),
              ) in
              let (b', v', r, later, ls', file', none_left) =
                start-drains fuel b2 v2 (lines_after split process_id n ls) file lines' pid
                  did.queue_empty did.buffer_empty
                  (subst (λ p. NoneWaiting p.0 p.1) (sym did.done_eq)
                    (NoneWaiting-done_after b.done_file b.done_params b1.params_queue))
                  c2 shorter in
              let rest = pending (lines_after split process_id n ls) in
              let all : b1.params_queue ++ map split rest ≡ map split (pending ls) =
                ap₂ (λ x y. x ++ map split y) queue pend
                ∙ sym (map-append split taken (drop n (pending ls)))
                ∙ ap (map split) (take-append-drop n (pending ls)) in
              (
                b',
                v',
                rw (f, start) (rw (more, start) (rw (g, start) r)),
                (subst (λ ps. Did ps b v b' v') all
                    (Did-append b1.params_queue (map split rest) b b2 b' v v2 v'
                      (record {
                        ran_eq = did.ran_eq;
                        sent_eq = did.sent_eq;
                        queue_empty = did.queue_empty;
                        buffer_empty = did.buffer_empty;
                        done_eq = did.done_eq;
                        world_eq = did.world_eq;
                      })
                      later)),
                ls',
                file',
                none_left,
              )
          | inr no_more ↦
              let all_taken : length (pending ls) ≡ 0 =
                ground (arith, no_more, c, length-take n (pending ls)) in
              let nothing : map split (pending ls) ≡ [] =
                ap (map split) (no_elements _ all_taken) in
              let no_taken : length taken ≡ 0 = ground (arith, no_more) in
              let did_nothing : Did (map split (pending ls)) b v b1 v =
                subst (λ ps. Did ps b v b1 v) (sym nothing)
                  (record {
                    ran_eq = sym (append-nil b.ran);
                    sent_eq = unfold results in sym (append-nil b.sent);
                    queue_empty = queue ∙ ap (map split) (no_elements taken no_taken);
                    buffer_empty = u;
                    done_eq = done_after-nil b.done_file b.done_params w;
                    world_eq = unfold world_after in refl;
                  }) in
              (
                b1,
                v,
                rw (f, start) (rw (no_more, start) refl),
                did_nothing,
                lines_after split process_id n ls,
                refl,
                pend ∙ ap (drop n) (no_elements _ all_taken) ∙ drop_all n [] (omega arith),
              )
        ]
