-- ===== src/Queue/Refined.antt =====
-- The runs of the sweep pipeline in detail do what the loops over the queue say.
use structure_pipe.Base.{
  ℕ, zero, suc, ◌≡◌, refl, sym, ap, ◌∙◌, inl, inr, Bool, true, false, Option, none, some, List, [],
  ◌∷◌, ◌++◌, map, if◌then◌else◌, length, Text, is_empty, append_assoc, append-nil, Bool-cases,
}
use structure_pipe.Base.Assoc.{assign, erase}
use structure_pipe.PipeData.{GlobalData, SharedData, set_parameters, set_shared_working_dir}
use structure_pipe.Table.{Listener}
use structure_pipe.Support.{StructureInfo}
use structure_pipe.Utility.{generate_param_dir_name}
use structure_pipe.Queue.{
  Params, RunPotentialParamsQueue, get_work, update_done_params, work_chunk_size, finished,
  run_queue, do_work, start,
}
use structure_pipe.Queue.Sweep.{
  Swept, finish, finish_all, release_buffer, run_params, sweep_queue, sweep_work, sweep_rounds,
  sweep_start,
}
use mathlib.Core.Option

-- What a run sees and changes outside the block: the global memory, the shared memory of the sweep
-- pipeline, the directories of the runs, and the rest.
abbrev pub Outside : Type 0 → Type 0 → Type 0
Outside V W = GlobalData V × SharedData V × List Text × W

abbrev pub outside : {S V L W : Type 0} → Swept S V L W → Outside V W
outside b = (b.global_data, b.sweep_shared_data, b.runs, b.world)

abbrev pub both : {S V L W : Type 0} → Swept S V L W → RunPotentialParamsQueue S × Outside V W
both b = (b.block, outside b)

-- The global memory with the parameters under the tag, or with none if there are none.
abbrev pub stored : {V : Type 0} → Text → Params → GlobalData V → GlobalData V
stored tag p g = record g {
  parameters = if is_empty p then erase tag g.parameters else assign tag p g.parameters;
}

set_parameters-stored :
    {V : Type 0} (tag : Text) (p : Params) (g : GlobalData V)
    → set_parameters tag p g ≡ stored tag p g
unfolding set_parameters
set_parameters-stored tag p g = elim (Bool-cases (is_empty p)) [
  | inl e ↦ rw e refl
  | inr e ↦ rw e refl
]

module _ {S V L W : Type 0} where
  pub finish_all-map :
      (ss : List (S × Option Params)) (b : Swept S V L W)
      → finish_all ss b ≡ record b {
        block = record b.block { buffer = b.block.buffer ++ map (finished b.current_params) ss };
      }
  unfolding finish_all finish
  finish_all-map [] b =
      ap (λ q. record b { block = record b.block { buffer = q } }) (sym (append-nil b.block.buffer))
  finish_all-map (s ∷ ss) b =
      finish_all-map ss (finish s b)
      ∙ ap (λ q. record b { block = record b.block { buffer = q } })
          (append_assoc b.block.buffer _ _)

then_rounds :
    {A B C : Type 0} (f : A → B × C) (rounds : A → Option A) (rounds' : B → C → Option (B × C))
    → ((q : A) → Option.map f (rounds q) ≡ rounds' (f q).0 (f q).1)
    → (o : Option A)
    → Option.map f (Option.bind o rounds) ≡ Option.bind (Option.map f o) (λ q. rounds' q.0 q.1)
unfolding Option.bind
then_rounds f rounds rounds' e none = refl
then_rounds f rounds rounds' e (some q) = e q

module _ {S V W : Type 0} (tag : Text) (slash : Text → Text → Text)
    (unique_name : Text → W → Text × W)
    (sub_run : GlobalData V
      → SharedData V
      → W
      → List (S × Option Params) × GlobalData V × SharedData V × W) where
  run_from :
      Text → GlobalData V → SharedData V → List Text → W → List (S × Option Params) × Outside V W
  run_from working_dir g s runs w =
      let path = slash working_dir (unique_name g.seed_name w).0 in
      let (done, g', s', w') =
        sub_run g (record s { working_dir = path }) (unique_name g.seed_name w).1 in
      (done, (g', s', runs ++ path ∷ [], w'))

  -- A run of the sweep pipeline for some parameters: they are in the global memory, and the run has
  -- a directory with a unique name.
  unfoldable pub one_run : Text → Params → Outside V W → List (S × Option Params) × Outside V W
  unfolding run_from
  one_run working_dir p (g, s, runs, w) = run_from working_dir (stored tag p g) s runs w

module _ {S V L W : Type 0} (reads : Text → S → StructureInfo) (k : Listener L) (row_first : Bool)
    (index_text : ℕ → Text) (split : Text → Params) (process_id tag : Text)
    (dir_of : GlobalData V → Text) (slash : Text → Text → Text) (unique_name : Text → W → Text × W)
    (sub_run : GlobalData V
      → SharedData V
      → W
      → List (S × Option Params) × GlobalData V × SharedData V × W)
    (mean : ℕ → ℕ) (target : ℕ) where
  abbrev the_run : Text → Params → Outside V W → List (S × Option Params) × Outside V W
  the_run = one_run tag slash unique_name sub_run

  -- The block and what is outside it after a run that finished with `r`.
  abbrev ran_with :
      RunPotentialParamsQueue S
      → Params
      → List Params
      → List (S × Option Params) × Outside V W
      → RunPotentialParamsQueue S × Outside V W
  ran_with b p ps r = (
    record b {
      params_queue = ps;
      done_params = b.done_params ++ p ∷ [];
      ran = b.ran ++ p ∷ [];
      sent = b.sent ++ (b.buffer ++ map (finished p) r.0);
      buffer = [];
    },
    r.1,
  )

  run_params-both :
      (working_dir : Text) (p : Params) (ps : List Params) (b : Swept S V L W)
      → both (
          run_params reads k row_first index_text split process_id tag dir_of slash unique_name
            sub_run mean target working_dir p ps b)
        ≡ ran_with b.block p ps (the_run working_dir p (outside b))
  unfolding run_params release_buffer one_run run_from set_shared_working_dir
      generate_param_dir_name
  run_params-both working_dir p ps b =
      let g = set_parameters tag p b.global_data in
      let path = slash working_dir (unique_name g.seed_name b.world).0 in
      let (done, g', shared', world') =
        sub_run g (set_shared_working_dir path b.sweep_shared_data)
          (unique_name g.seed_name b.world).1 in
      let b1 : Swept S V L W = record b {
        current_params = p;
        global_data = g';
        sweep_shared_data = shared';
        world = world';
        runs = b.runs ++ path ∷ [];
      } in
      let released : Swept S V L W → RunPotentialParamsQueue S × Outside V W = λ q. (
        record (q.block) {
          params_queue = ps;
          done_params = q.block.done_params ++ p ∷ [];
          ran = q.block.ran ++ p ∷ [];
          sent = q.block.sent ++ q.block.buffer;
          buffer = [];
        },
        outside q,
      ) in
      ap released (finish_all-map done b1)
      ∙ ap
          (λ q. ran_with b.block p ps (
            run_from tag slash unique_name sub_run working_dir q b.sweep_shared_data b.runs
              b.world))
          (set_parameters-stored tag p b.global_data)

  sweep_queue-both :
      (working_dir : Text) (ps : List Params) (b : Swept S V L W)
      → both (
          sweep_queue reads k row_first index_text split process_id tag dir_of slash unique_name
            sub_run mean target working_dir ps b)
        ≡ run_queue split process_id (the_run working_dir) mean target ps b.block (outside b)
  unfolding sweep_queue run_queue
  sweep_queue-both working_dir [] b = refl
  sweep_queue-both working_dir (p ∷ ps) b =
      sweep_queue-both working_dir ps _
      ∙ ap (λ q. run_queue split process_id (the_run working_dir) mean target ps q.0 q.1)
          (run_params-both working_dir p ps b)

  sweep_work-both :
      (working_dir : Text) (b : Swept S V L W)
      → Option.map both (
          sweep_work reads k row_first index_text split process_id tag dir_of slash unique_name
            sub_run mean target working_dir b)
        ≡ do_work split process_id (the_run working_dir) mean target b.block (outside b)
  unfolding sweep_work do_work
  sweep_work-both working_dir b =
      let b1 =
        sweep_queue reads k row_first index_text split process_id tag dir_of slash unique_name
          sub_run mean target working_dir b.block.params_queue b in
      with_chunk b1 (update_done_params b1.block) _
      ∙ ap
          (λ q.
            let c = update_done_params q.0 in
            Option.map (λ n. (record c { num_work_items_chunk = n }, q.1))
              (work_chunk_size (mean (length c.ran)) target c.num_work_items_chunk))
          (sweep_queue-both working_dir b.block.params_queue b)
    where
      with_chunk :
          (b1 : Swept S V L W) (c : RunPotentialParamsQueue S) (o : Option ℕ)
          → Option.map both
              (Option.map (λ n. record b1 { block = record c { num_work_items_chunk = n } }) o)
            ≡ Option.map (λ n. (record c { num_work_items_chunk = n }, outside b1)) o
      with_chunk b1 c none = refl
      with_chunk b1 c (some n) = refl

  sweep_rounds-both :
      (working_dir : Text) (fuel : ℕ) (b : Swept S V L W)
      → Option.map both (
          sweep_rounds reads k row_first index_text split process_id tag dir_of slash unique_name
            sub_run mean target working_dir fuel b)
        ≡ start split process_id (the_run working_dir) mean target fuel b.block (outside b)
  unfolding sweep_rounds start Option.bind
  sweep_rounds-both working_dir zero b = refl
  sweep_rounds-both working_dir (suc fuel) b =
      by_work
        (sweep_work reads k row_first index_text split process_id tag dir_of slash unique_name
          sub_run mean target working_dir)
        (sweep_rounds reads k row_first index_text split process_id tag dir_of slash unique_name
          sub_run mean target working_dir fuel)
        (do_work split process_id (the_run working_dir) mean target)
        (start split process_id (the_run working_dir) mean target fuel)
        (sweep_work-both working_dir) (sweep_rounds-both working_dir fuel)
        (get_work split process_id b.block)
    where
      by_work :
          (work rounds : Swept S V L W → Option (Swept S V L W))
          (work' rounds' : RunPotentialParamsQueue S
            → Outside V W
            → Option (RunPotentialParamsQueue S × Outside V W))
          → ((q : Swept S V L W) → Option.map both (work q) ≡ work' q.block (outside q))
          → ((q : Swept S V L W) → Option.map both (rounds q) ≡ rounds' q.block (outside q))
          → (o : Option (RunPotentialParamsQueue S × Bool))
          → Option.map both (elim o [
            | none ↦ none
            | some (block, false) ↦ some (record b { block = block })
            | some (block, true) ↦ Option.bind (work (record b { block = block })) rounds
          ])
            ≡ elim o [
              | none ↦ none
              | some (block, false) ↦ some (block, outside b)
              | some (block, true) ↦ Option.bind (work' block (outside b)) (λ q. rounds' q.0 q.1)
            ]
      by_work work rounds work' rounds' e f none = refl
      by_work work rounds work' rounds' e f (some (block, false)) = refl
      by_work work rounds work' rounds' e f (some (block, true)) =
          then_rounds both rounds rounds' f (work (record b { block = block }))
          ∙ ap (λ q. Option.bind q (λ r. rounds' r.0 r.1)) (e (record b { block = block }))

  -- `start` with the global memory, the directories and the table does with the queue file, the file
  -- of what is done, the queue, the chunk, the structures and what is outside the block what the
  -- loops do that give each run its parameters directly; it ends just if they do.
  pub sweep_start-start :
      (fuel : ℕ) (b : Swept S V L W)
      → Option.map both (
          sweep_start reads k row_first index_text split process_id tag dir_of slash unique_name
            sub_run mean target fuel b)
        ≡ start split process_id
            (the_run (dir_of b.global_data))
            mean
            target
            fuel
            b.block
            (outside b)
  unfolding sweep_start
  sweep_start-start fuel b = sweep_rounds-both (dir_of b.global_data) fuel b
