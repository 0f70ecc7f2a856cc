-- ===== src/Queue/Whole.antt =====
-- The whole `start` of src/blocks/RunPotentialParamsQueue.cpp, with the global memory, the
-- directories and the table.
use structure_pipe.Base.{
  ℕ, ◌+◌, ◌^◌, ◌<◌, ◌≡◌, refl, sym, ap, ◌∙◌, Bool, Option, none, some, List, [], map, length, Text,
  All, subst,
}
use structure_pipe.PipeData.{GlobalData, SharedData}
use structure_pipe.Table.{Listener}
use structure_pipe.Support.{StructureInfo}
use structure_pipe.Queue.{Params, RunPotentialParamsQueue}
use structure_pipe.Queue.Lines.{unlines, IsLine, pending}
use structure_pipe.Queue.Done.{NoneWaiting}
use structure_pipe.Queue.Drain.{Did, start-drains}
use structure_pipe.Queue.Sweep.{Swept, sweep_start}
use structure_pipe.Queue.Refined.{Outside, outside, both, one_run, sweep_start-start}
use mathlib.Core.Option

some_of_map :
    {A B : Type 0} (f : A → B) (o : Option A) (b : B)
    → Option.map f o ≡ some b
    → (a : A) × (o ≡ some a) × (f a ≡ b)
some_of_map f none b e = cc
some_of_map f (some a) b e = (a, refl, ap (λ o. elim o [ none ↦ f a | some x ↦ x ]) e)

module _ {S V L W : Type 0} (reads : Text → S → StructureInfo) (k : Listener L) (row_first : Bool)
    (index_text : ℕ → Text) (split : Text → Params) (process_id tag : Text)
    (dir_of : GlobalData V → Text) (slash : Text → Text → Text) (unique_name : Text → W → Text × W)
    (sub_run : GlobalData V
      → SharedData V
      → W
      → List (S × Option Params) × GlobalData V × SharedData V × W)
    (mean : ℕ → ℕ) (target : ℕ) (mean_positive : (n : ℕ) → 0 < mean n)
    (target_small : target + 1 < 2 ^ 31) where
  -- `start`, with the global memory, the directories and the table: on a queue file whose lines are
  -- ls, each ended, that no other process changes, with an empty queue and buffer, nothing done
  -- that waits for an existing file of what is done, a chunk that is not 0, mean durations that are
  -- positive, a target below 2 ^ 31 - 1 and a process number without a line end. It ends, after at
  -- most as many rounds with work as there are waiting lines. It ran the sweep pipeline once for
  -- each waiting line, in the order of the file, each run on what the one before left, with the
  -- line's parameters stored under the tag, or with none if the line splits into none, and with a
  -- directory of its own name, which spl makes for it, in the directory that the block has at the
  -- start. It sent what the runs finished with, in that order, each with its own potential
  -- parameters or else with those of the line; it wrote the parameters behind those in the file of
  -- what is done, if that file exists, and kept them if not; and no line waits in the queue file.
  pub sweep_start-drains :
      (fuel : ℕ) (b : Swept S V L W) (ls : List Text)
      → b.block.queue_file ≡ some (unlines ls)
      → All IsLine ls
      → IsLine process_id
      → b.block.params_queue ≡ []
      → b.block.buffer ≡ []
      → NoneWaiting b.block.done_file b.block.done_params
      → 0 < b.block.num_work_items_chunk
      → length (pending ls) < fuel
      → let run = one_run tag slash unique_name sub_run (dir_of b.global_data) in
        (b' : Swept S V L W) × (sweep_start reads k row_first index_text split process_id tag dir_of
            slash unique_name sub_run mean target fuel b
          ≡ some b')
        × Did split process_id run mean target
            (map split (pending ls))
            b.block
            (outside b)
            b'.block
            (outside b')
        × (ls' : List Text) × (b'.block.queue_file ≡ some (unlines ls'))
        × (pending ls' ≡ [])
  sweep_start-drains fuel b ls file lines pid queue buffer waiting chunk enough =
      let run = one_run tag slash unique_name sub_run (dir_of b.global_data) in
      let (c, v, ended, did, ls', file', drained) =
        start-drains split process_id run mean target mean_positive target_small fuel b.block
          (outside b) ls file lines pid queue buffer waiting chunk enough in
      let (b', found, same) =
        some_of_map both _ (c, v)
          (sweep_start-start reads k row_first index_text split process_id tag dir_of slash
              unique_name sub_run mean target fuel b
            ∙ ended) in
      (
        b',
        found,
        subst
            (λ (q : RunPotentialParamsQueue S × Outside V W).
              Did split process_id run mean target (map split (pending ls)) b.block (outside b) q.0
                q.1)
            (sym same) did,
        ls',
        ap (λ (q : RunPotentialParamsQueue S × Outside V W). q.0.queue_file) same ∙ file',
        drained,
      )
