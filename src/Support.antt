-- ===== src/Support.antt =====
-- src/utility/DataTableSupport.cpp: a table that a block keeps while its engine runs, with the
-- writer of its file; and src/utility/DataTableInserters.cpp, which fills a row of it.
pub mod Lifetime
pub mod Row
pub mod Examples
use mathlib.Core.Option
use structure_pipe.Base.{
  ℕ, suc, ◌+◌, ◌≡◌, Bool, true, false, not, ◌&&◌, Option, none, some, List, [], ◌∷◌, ◌++◌,
  if◌then◌else◌, ◌==◌, Text, text, text_eq, is_empty,
}
use structure_pipe.Table.{DataTable, Listener, Listened, new_table, insert, clear}

-- `pipelib::PipelineState`, of which the code asks for two.
pub data PipelineState : Type 0 where
  running : PipelineState
  finished : PipelineState
  other_state : PipelineState

unfoldable pub is_running : PipelineState → Bool
is_running running = true
is_running finished = false
is_running other_state = false

-- The engines that are registered with know the support as a listener: `listening` has their
-- addresses. `W` is a `DataTableWriter`; a write of one is recorded in `written`, with the table.
pub record DataTableSupport (W : Type 0) : Type 0 where
  pub engine : Option ℕ
  pub listening : List ℕ
  pub filename : Text
  pub table : DataTable
  pub writer : Option W
  pub written : List (W × DataTable)
  pub clear_table_on_pipe_finish : Bool

unfoldable pub without : ℕ → List ℕ → List ℕ
without a [] = []
without a (b ∷ bs) = let rest = without a bs in if a == b then rest else b ∷ rest

-- `new DataTableWriter` of the file's name.
module _ {W : Type 0} (new_writer : Text → W) where
  unfoldable pub new_support : Text → Bool → DataTableSupport W
  unfolding clear
  new_support filename clear_on_finish = record {
    engine = none;
    listening = [];
    filename = filename;
    table = new_table;
    writer = none;
    written = [];
    clear_table_on_pipe_finish = clear_on_finish;
  }

  unfoldable pub deregister_engine : DataTableSupport W → DataTableSupport W × Bool
  unfolding without
  deregister_engine s = elim s.engine [
    | none ↦ (s, false)
    | some e ↦ (record s { engine = none; listening = without e s.listening }, true)
  ]

  -- The engine keeps its listeners in a set.
  unfoldable pub register_engine : ℕ → DataTableSupport W → DataTableSupport W
  unfolding deregister_engine
  register_engine e s0 =
      let s = (deregister_engine s0).0 in
      record s { engine = some e; listening = e ∷ without e s.listening }

  unfoldable pub create_writer : DataTableSupport W → DataTableSupport W × Bool
  create_writer s =
      if is_empty s.filename
      then (s, false)
      else (record s { writer = some (new_writer s.filename) }, true)

  -- `if(myWriter.get()) myWriter->write()`
  unfoldable pub write_table : DataTableSupport W → DataTableSupport W
  write_table s = elim s.writer [
    | none ↦ s
    | some w ↦ record s { written = s.written ++ (w, s.table) ∷ [] }
  ]

  -- `setFilename`, with the state of the engine at the call.
  unfoldable pub set_filename : PipelineState → Text → DataTableSupport W → DataTableSupport W
  unfolding create_writer write_table is_running
  set_filename state filename s0 =
      if text_eq s0.filename filename
      then s0
      else (let s = record s0 { filename = filename } in
          elim s.engine [
            | none ↦ s
            | some e ↦ if is_running state then (create_writer (write_table s)).0 else s
          ])

  unfoldable pub notify_state : PipelineState → DataTableSupport W → DataTableSupport W
  unfolding create_writer write_table
  notify_state running s = (create_writer s).0
  notify_state finished s0 =
      let s = write_table s0 in
      if s.clear_table_on_pipe_finish then record s { table = clear s.table } else s
  notify_state other_state s = s

  -- With the engine its set of listeners goes.
  unfoldable pub notify_destroyed : ℕ → DataTableSupport W → DataTableSupport W
  unfolding without
  notify_destroyed destroyed s0 =
      let s = record s0 { listening = without destroyed s0.listening } in
      elim s.engine [ none ↦ s | some e ↦ if e == destroyed then record s { engine = none } else s ]

-- What the inserter reads of a structure. `energy_text` is `toString` of the energy, and
-- `energy_per_atom_text` of the energy divided by the number of atoms; `path` is the path that it
-- was saved to, empty if it was not.
pub record StructureInfo : Type 0 where
  pub params : Option (List Text)
  pub energy_text : Option Text
  pub energy_per_atom_text : Text
  pub path : Text
  pub spacegroup_text : Option Text

-- `lexical_cast` of an index is not of this repository.
module _ {L : Type 0} (k : Listener L) (row_first : Bool) (index_text : ℕ → Text) where
  unfoldable pub put : Text → Text → Text → Listened L → Listened L
  unfolding insert
  put key column value s = (insert k row_first key column value s).0

  unfoldable pub insert_params : Text → ℕ → List Text → Listened L → Listened L
  unfolding put
  insert_params key i [] s = s
  insert_params key i (p ∷ ps) s =
      insert_params key (i + 1) ps (put key (text "p_" ++ index_text i) p s)

  unfoldable pub insert_structure_info : Text → StructureInfo → Listened L → Listened L
  unfolding insert_params put
  insert_structure_info key info s0 =
      let s1 : Listened L = elim info.params [ none ↦ s0 | some ps ↦ insert_params key 0 ps s0 ] in
      let s2 : Listened L = elim info.energy_text [
        | none ↦ s1
        | some energy ↦
            put key (text "energy/atom") info.energy_per_atom_text
              (put key (text "energy") energy s1)
      ] in
      let s3 : Listened L =
        if is_empty info.path then s2 else put key (text "lowest_path") info.path s2 in
      elim info.spacegroup_text [ none ↦ s3 | some sg ↦ put key (text "sg") sg s3 ]
