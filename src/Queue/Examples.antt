-- ===== src/Queue/Examples.antt =====
-- The queue on small files.
use structure_pipe.Base.{
  ℕ, ◌≡◌, refl, true, none, some, List, [], ◌∷◌, map, Text, text, All, take, drop, length, ltb,
  arith,
}
use structure_pipe.Queue.{
  Params, RunPotentialParamsQueue, get_work, read_work, work_chunk_size, rewritten, read_next,
  read_line, get_line, line_of, behind_line, is_work, read_params, taken_item,
}
use structure_pipe.Queue.Lines.{unlines, IsLine, pending}
use structure_pipe.Queue.Work.{lines_after, get_work-unlines}
use structure_pipe.Queue.Chunk.{FitsTarget, work_chunk_size-FitsTarget, work_chunk_size-instant}

abbrev pub whole_line : Text → Params
whole_line l = l ∷ []

abbrev pub file_lines : List Text
file_lines = text "# head" ∷ text "1 2" ∷ text "3 4" ∷ []

abbrev pub new_block : RunPotentialParamsQueue ℕ
new_block = record {
  queue_file = some (text "# head\n1 2\n3 4\n");
  done_file = some [];
  params_queue = [];
  done_params = [];
  num_work_items_chunk = 1;
  buffer = [];
  ran = [];
  sent = [];
}

pub file_lines_eq : new_block.queue_file ≡ some (unlines file_lines)
unfolding unlines
file_lines_eq = refl

pub file_lines-IsLine : All IsLine file_lines
file_lines-IsLine = ground arith

pub process-IsLine : IsLine (text "77")
process-IsLine = ground arith

-- A last line without an end is joined to what is written behind it: the line `3 4` is lost.
abbrev joined_file : Text
joined_file = text "3 4#77 1 2\n"

get_work-joined :
    get_work whole_line (text "77") (record new_block { queue_file = some (text "1 2\n3 4") })
    ≡ some (
      record new_block { queue_file = some joined_file; params_queue = (text "1 2" ∷ []) ∷ [] },
      true,
    )
unfolding get_work read_work rewritten read_next read_line get_line line_of behind_line is_work
    read_params taken_item
get_work-joined = refl

get_work-unlines_example :
    let taken = take 1 (pending file_lines) in
    (get_work whole_line (text "77") new_block
      ≡ some (
        record new_block {
          queue_file = some (unlines (lines_after whole_line (text "77") 1 file_lines));
          params_queue = map whole_line taken;
        },
        ltb 0 (length taken),
      ))
    × (pending (lines_after whole_line (text "77") 1 file_lines) ≡ drop 1 (pending file_lines))
    × All IsLine (lines_after whole_line (text "77") 1 file_lines)
get_work-unlines_example =
    get_work-unlines whole_line (text "77") new_block file_lines file_lines_eq file_lines-IsLine
      process-IsLine

work_chunk_size-FitsTarget_example :
    (n : ℕ) × (work_chunk_size 3 10 20 ≡ some n) × FitsTarget 3 10 n
work_chunk_size-FitsTarget_example = work_chunk_size-FitsTarget 3 10 20 (omega arith) (omega arith)

work_chunk_size-instant_example : work_chunk_size 0 600 20 ≡ none
work_chunk_size-instant_example = work_chunk_size-instant 600 20 (omega arith)
