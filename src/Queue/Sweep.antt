-- ===== src/Queue/Sweep.antt =====
-- The runs of the sweep pipeline of src/blocks/RunPotentialParamsQueue.cpp with what they share: the
-- parameters in the global memory, the directory of each run, and the table.
use structure_pipe.Base.{
  ℕ, zero, suc, Bool, true, false, Option, none, some, List, [], ◌∷◌, ◌++◌, length, Text,
}
use structure_pipe.PipeData.{GlobalData, SharedData, set_parameters, set_shared_working_dir}
use structure_pipe.Table.{Listener, Listened}
use structure_pipe.Support.{StructureInfo, insert_structure_info}
use structure_pipe.Utility.{generate_param_dir_name}
use structure_pipe.Queue.{
  Params, RunPotentialParamsQueue, get_work, update_done_params, work_chunk_size, finished,
}
use mathlib.Core.Option

-- The block with what it works on: `runs` records the directory of each run, and `world` is the rest
-- of what a run of the sweep pipeline reads and changes.
pub record Swept (S V L W : Type 0) : Type 0 where
  pub block : RunPotentialParamsQueue S
  pub current_params : Params
  pub global_data : GlobalData V
  pub sweep_shared_data : SharedData V
  pub table : Listened L
  pub runs : List Text
  pub world : W

module _ {S V L W : Type 0} where
  -- `finished`, of a structure with the potential parameters it has of its own.
  unfoldable pub finish : S × Option Params → Swept S V L W → Swept S V L W
  unfolding finished
  finish s b = record b {
    block = record b.block { buffer = b.block.buffer ++ finished b.current_params s ∷ [] };
  }

  unfoldable pub finish_all : List (S × Option Params) → Swept S V L W → Swept S V L W
  unfolding finish
  finish_all [] b = b
  finish_all (s ∷ ss) b = finish_all ss (finish s b)

-- What `insertStructureInfoAndPotentialParams` finds in a structure of the buffer: its potential
-- parameters, and what `reads` has for a directory that paths are relative to.
unfoldable pub info_of :
    {S : Type 0} → (Text → S → StructureInfo) → Text → S × Params → StructureInfo
info_of reads dir (s, params) = record (reads dir s) { params = some params }

module _ {S L : Type 0} (reads : Text → S → StructureInfo) (k : Listener L) (row_first : Bool)
    (index_text : ℕ → Text) where
  -- `updateTable`, for each structure of the buffer.
  unfoldable pub update_rows : Text → Text → List (S × Params) → Listened L → Listened L
  unfolding info_of insert_structure_info
  update_rows key dir [] t = t
  update_rows key dir (s ∷ ss) t =
      update_rows key dir ss
        (insert_structure_info k row_first index_text key (info_of reads dir s) t)

  -- `releaseBufferedStructures`, where the block's directory is `dir`.
  unfoldable pub release_buffer : {V W : Type 0} → Text → Text → Swept S V L W → Swept S V L W
  unfolding update_rows
  release_buffer key dir b = record b {
    table = update_rows key dir b.block.buffer b.table;
    block = record b.block { sent = b.block.sent ++ b.block.buffer; buffer = [] };
  }

-- The block's tag; `dir_of` is its `workingDir()`, `slash` joins paths, and `unique_name` is the one
-- of spl. `sub_run` gives what a run of the sweep pipeline hands to `finished`, in order, and what
-- it leaves.
module _ {S V L W : Type 0} (reads : Text → S → StructureInfo) (k : Listener L) (row_first : Bool)
    (index_text : ℕ → Text) (split : Text → Params) (process_id tag : Text)
    (dir_of : GlobalData V → Text) (slash : Text → Text → Text) (unique_name : Text → W → Text × W)
    (sub_run : GlobalData V
      → SharedData V
      → W
      → List (S × Option Params) × GlobalData V × SharedData V × W)
    (mean : ℕ → ℕ) (target : ℕ) where
  -- The body of the inner loop, with the parameters at the front and what is behind them.
  unfoldable pub run_params : Text → Params → List Params → Swept S V L W → Swept S V L W
  unfolding set_parameters set_shared_working_dir generate_param_dir_name finish_all release_buffer
  run_params working_dir p ps b0 =
      let g = set_parameters tag p b0.global_data in
      let name = generate_param_dir_name (λ seed. (unique_name seed b0.world).0) p g.seed_name in
      let path = slash working_dir name in
      let (done, g', shared', world') =
        sub_run g (set_shared_working_dir path b0.sweep_shared_data)
          (unique_name g.seed_name b0.world).1 in
      let b1 = finish_all done (record b0 {
        current_params = p;
        global_data = g';
        sweep_shared_data = shared';
        world = world';
        runs = b0.runs ++ path ∷ [];
      }) in
      release_buffer reads k row_first index_text path (dir_of g') (record b1 {
        block = record b1.block {
          done_params = b1.block.done_params ++ p ∷ [];
          params_queue = ps;
          ran = b1.block.ran ++ p ∷ [];
        };
      })

  -- The inner loop, over the queue.
  unfoldable pub sweep_queue : Text → List Params → Swept S V L W → Swept S V L W
  unfolding run_params
  sweep_queue working_dir [] b = record b { block = record b.block { params_queue = [] } }
  sweep_queue working_dir (p ∷ ps) b = sweep_queue working_dir ps (run_params working_dir p ps b)

  -- What a round does when there is work.
  unfoldable pub sweep_work : Text → Swept S V L W → Option (Swept S V L W)
  unfolding sweep_queue update_done_params work_chunk_size
  sweep_work working_dir b0 =
      let b = sweep_queue working_dir b0.block.params_queue b0 in
      let block = update_done_params b.block in
      Option.map (λ n. record b { block = record block { num_work_items_chunk = n } })
        (work_chunk_size (mean (length block.ran)) target block.num_work_items_chunk)

  -- The outer loop; `none` if the fuel ends first, or for an overflow.
  unfoldable pub sweep_rounds : Text → ℕ → Swept S V L W → Option (Swept S V L W)
  unfolding get_work sweep_work
  sweep_rounds working_dir zero b = none
  sweep_rounds working_dir (suc fuel) b = elim (get_work split process_id b.block) [
    | none ↦ none
    | some (block, false) ↦ some (record b { block = block })
    | some (block, true) ↦
        Option.bind (sweep_work working_dir (record b { block = block }))
          (sweep_rounds working_dir fuel)
  ]

  -- `start`
  unfoldable pub sweep_start : ℕ → Swept S V L W → Option (Swept S V L W)
  unfolding sweep_rounds
  sweep_start fuel b = sweep_rounds (dir_of b.global_data) fuel b
