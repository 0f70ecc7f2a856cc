-- ===== src/Queue.antt =====
-- src/blocks/RunPotentialParamsQueue.cpp: a start block that takes lines of potential parameters
-- from a queue file, which other processes use too, and runs the sweep pipeline on each.
pub mod Lines
pub mod Work
pub mod Chunk
pub mod Stamped
pub mod Done
pub mod Drain
pub mod Sweep
pub mod Refined
pub mod Rows
pub mod Whole
pub mod Report
pub mod Examples
pub mod RunExamples
use structure_pipe.Base.{
  ℕ, zero, suc, ◌+◌, ◌-◌, ◌*◌, ◌^◌, ◌≡◌, Bool, true, false, not, ◌&&◌, Option, none, some, List, [],
  ◌∷◌, ◌++◌, map, if◌then◌else◌, leb, ltb, ◌==◌, length, drop, Text, text, is_empty,
}
use mathlib.Core.Option

abbrev pub Params : Type 0
Params = List Text

abbrev pub initial_num_work_items : ℕ
initial_num_work_items = 20

-- A line and what is behind its end, of a text that is not empty.
unfoldable pub line_of : Text → Text
line_of [] = []
line_of (c ∷ cs) = if c == 10 then [] else c ∷ line_of cs

unfoldable pub behind_line : Text → Text
behind_line [] = []
behind_line (c ∷ cs) = if c == 10 then cs else behind_line cs

-- `std::getline`; `none` if it fails, at the end of the stream.
unfoldable pub get_line : Text → Option (Text × Text)
unfolding line_of behind_line
get_line [] = none
get_line (c ∷ cs) = some (line_of (c ∷ cs), behind_line (c ∷ cs))

-- `!line.empty() && line[0] != '#'`
unfoldable pub is_work : Text → Bool
is_work [] = false
is_work (c ∷ cs) = not (c == 35)

-- The local variables of `getWork`: what the stream has still to read, `numParamsRead`, the queue,
-- `takenWorkItems` and `originalContents`.
pub record Reading : Type 0 where
  pub rest : Text
  pub num_params_read : ℕ
  pub params_queue : List Params
  pub taken_work_items : Text
  pub original_contents : Text

-- The state of the block, with its files: a file that does not exist is `none`. `sent` has what the
-- block sent down its pipe, each with the potential parameters of its properties; `ran` has the
-- parameters of each run of the sweep pipeline.
pub record RunPotentialParamsQueue (S : Type 0) : Type 0 where
  pub queue_file : Option Text
  pub done_file : Option Text
  pub params_queue : List Params
  pub done_params : List Params
  pub num_work_items_chunk : ℕ
  pub buffer : List (S × Params)
  pub ran : List Params
  pub sent : List (S × Params)

-- `boost::split` at blanks and tabs, and the text of the process' number.
module _ (split : Text → Params) (process_id : Text) where
  unfoldable pub read_params : Text → Option Params
  read_params line = some (split line)

  unfoldable pub taken_item : Text → Text
  taken_item line = text "#" ++ (process_id ++ (text " " ++ (line ++ text "\n")))

  -- One line, in the loop of `getWork`.
  unfoldable pub read_line : Text → Reading → Reading
  unfolding is_work read_params taken_item
  read_line line r = elim (if is_work line then read_params line else none) [
    | some params ↦ record r {
      num_params_read = r.num_params_read + 1;
      params_queue = r.params_queue ++ params ∷ [];
      taken_work_items = r.taken_work_items ++ taken_item line;
    }
    | none ↦ record r { original_contents = r.original_contents ++ (line ++ text "\n") }
  ]

  -- One round of the loop, `none` when it ends.
  unfoldable pub read_next : ℕ → Reading → Option Reading
  unfolding read_line get_line
  read_next chunk r =
      if ltb r.num_params_read chunk
      then Option.map (λ l. read_line l.0 (record r { rest = l.1 })) (get_line r.rest)
      else none

  -- The loop; `none` if the fuel ends first.
  unfoldable pub read_work : ℕ → ℕ → Reading → Option Reading
  unfolding read_next
  read_work zero chunk r = none
  read_work (suc fuel) chunk r = elim (read_next chunk r) [
    | none ↦ some r
    | some r' ↦ read_work fuel chunk r'
  ]

  -- What the file holds after it was written again from its start.
  unfoldable pub rewritten : Text → Reading → Text
  rewritten content r =
      let bytes = (r.original_contents ++ r.rest) ++ r.taken_work_items in
      if ltb 0 r.num_params_read then bytes ++ drop (length bytes) content else content

  -- `getWork`. Every round reads a byte at least, so that the fuel is enough.
  unfoldable pub get_work :
      {S : Type 0} → RunPotentialParamsQueue S → Option (RunPotentialParamsQueue S × Bool)
  unfolding read_work rewritten
  get_work b = elim b.queue_file [
    | none ↦ some (b, false)
    | some content ↦
        Option.map
          (λ r. (
            record b { queue_file = some (rewritten content r); params_queue = r.params_queue },
            ltb 0 r.num_params_read,
          ))
          (read_work (suc (length content)) b.num_work_items_chunk (record {
            rest = content;
            num_params_read = 0;
            params_queue = b.params_queue;
            taken_work_items = [];
            original_contents = [];
          }))
  ]

-- `writeParams`
unfoldable pub write_params : Params → Text
write_params [] = text "\n"
write_params (p ∷ ps) = p ++ (text " " ++ write_params ps)

unfoldable pub write_all_params : List Params → Text
unfolding write_params
write_all_params [] = []
write_all_params (p ∷ ps) = write_params p ++ write_all_params ps

unfoldable pub update_done_params :
    {S : Type 0} → RunPotentialParamsQueue S → RunPotentialParamsQueue S
unfolding write_all_params
update_done_params b = elim b.done_file [
  | none ↦ b
  | some content ↦ record b {
    done_file = some (content ++ write_all_params b.done_params);
    done_params = [];
  }
]

-- `for(; meanDuration * i < targetChunkTime; ++i)`, where the fuel is what is left of an `int`:
-- `none` is its overflow.
unfoldable pub grow : ℕ → ℕ → ℕ → ℕ → Option ℕ
grow zero mean target i = none
grow (suc fuel) mean target i =
    let later = grow fuel mean target (i + 1) in if ltb (mean * i) target then later else some i

-- `updateWorkChunkSize`, of the mean duration, the target and the size of a chunk.
unfoldable pub work_chunk_size : ℕ → ℕ → ℕ → Option ℕ
unfolding grow
work_chunk_size mean target chunk =
    let i = if ltb target (mean * chunk) then 1 else chunk + 1 in
    if ltb target mean then some 1 else grow (2 ^ 31 - i) mean target i

-- `finished`: what is put into the buffer.
unfoldable pub finished : {S : Type 0} → Params → S × Option Params → S × Params
finished current s = (s.0, elim s.1 [ none ↦ current | some own ↦ own ])

-- `sweep` has what a run of the sweep pipeline with some parameters finishes with, each with the
-- potential parameters it has of its own, and what it makes of everything outside the block;
-- `mean` is the mean duration of the first runs.
module _ {S W : Type 0} (split : Text → Params) (process_id : Text)
    (sweep : Params → W → List (S × Option Params) × W) (mean : ℕ → ℕ) (target : ℕ) where
  -- The inner loop of `start`, over the queue: a run, and the release of the buffer.
  unfoldable pub run_queue :
      List Params → RunPotentialParamsQueue S → W → RunPotentialParamsQueue S × W
  unfolding finished
  run_queue [] b w = (record b { params_queue = [] }, w)
  run_queue (p ∷ ps) b w =
      let (done, w') = sweep p w in
      run_queue ps
        (record b {
          params_queue = ps;
          done_params = b.done_params ++ p ∷ [];
          ran = b.ran ++ p ∷ [];
          sent = b.sent ++ (b.buffer ++ map (finished p) done);
          buffer = [];
        })
        w'

  -- What one round of `start` does when there is work.
  unfoldable pub do_work : RunPotentialParamsQueue S → W → Option (RunPotentialParamsQueue S × W)
  unfolding run_queue update_done_params work_chunk_size
  do_work b0 w =
      let q = run_queue b0.params_queue b0 w in
      let b = update_done_params q.0 in
      Option.map (λ n. (record b { num_work_items_chunk = n }, q.1))
        (work_chunk_size (mean (length b.ran)) target b.num_work_items_chunk)

  -- `start`; `none` if the fuel ends first, or for an overflow.
  unfoldable pub start : ℕ → RunPotentialParamsQueue S → W → Option (RunPotentialParamsQueue S × W)
  unfolding get_work do_work
  start zero b w = none
  start (suc fuel) b w = elim (get_work split process_id b) [
    | none ↦ none
    | some (b', false) ↦ some (b', w)
    | some (b', true) ↦ Option.bind (do_work b' w) (λ q. start fuel q.0 q.1)
  ]
