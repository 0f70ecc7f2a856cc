-- ===== src/Blocks/SubPipe.antt =====
-- The engine of the sub pipe of src/blocks/SearchStoichiometries.cpp and
-- src/blocks/RunPotentialParamsQueue.cpp, and how their tables are set up.
use structure_pipe.Base.{ℕ, Option, none, some, List, [], ◌∷◌, ◌++◌, Text, text}
use structure_pipe.Support.{PipelineState, DataTableSupport, set_filename, register_engine}

-- The calls of pipelib, on the engine at an address.
pub data EngineCall : Type 0 where
  created : ℕ → EngineCall
  attached : ℕ → EngineCall
  detached : ℕ → EngineCall
  sink_set : ℕ → EngineCall
  sink_cleared : ℕ → EngineCall

-- `mySubpipeEngine`, and the calls so far.
pub record SubPipe : Type 0 where
  pub sub_engine : Option ℕ
  pub calls : List EngineCall

-- `engineAttached` of SearchStoichiometries, where `createEngine` gives the engine at an address.
unfoldable pub sweep_attached : ℕ → SubPipe → SubPipe
sweep_attached e s = record {
  sub_engine = some e;
  calls = s.calls ++ created e ∷ attached e ∷ sink_set e ∷ [];
}

unfoldable pub sweep_detached : SubPipe → SubPipe
sweep_detached s = elim s.sub_engine [
  | none ↦ s
  | some e ↦ record { sub_engine = none; calls = s.calls ++ sink_cleared e ∷ detached e ∷ [] }
]

-- `engineAttached` of RunPotentialParamsQueue.
unfoldable pub queue_attached : ℕ → SubPipe → SubPipe
queue_attached e s = record {
  sub_engine = some e;
  calls = s.calls ++ created e ∷ sink_set e ∷ attached e ∷ [];
}

unfoldable pub queue_detached : SubPipe → SubPipe
queue_detached s = elim s.sub_engine [
  | none ↦ s
  | some e ↦ record { sub_engine = none; calls = s.calls ++ detached e ∷ sink_cleared e ∷ [] }
]

-- `new_writer` is the constructor of a table's writer; the block's engine is at this address, in this
-- state, and `stem` is `outputFileStemPath()`.
module _ {W : Type 0} (new_writer : Text → W) (state : PipelineState) (engine : ℕ)
    (stem : Text) where
  -- `pipelineInitialising` of SearchStoichiometries.
  unfoldable pub sweep_initialising : DataTableSupport W → DataTableSupport W
  unfolding set_filename register_engine
  sweep_initialising s =
      register_engine new_writer engine (set_filename new_writer state (stem ++ text ".stoich") s)

  -- `pipelineInitialising` of RunPotentialParamsQueue.
  unfoldable pub queue_initialising : DataTableSupport W → DataTableSupport W
  unfolding set_filename register_engine
  queue_initialising s =
      register_engine new_writer engine
        (set_filename new_writer state (stem ++ (text "." ++ text "potparams")) s)
