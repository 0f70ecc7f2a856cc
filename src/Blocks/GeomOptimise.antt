-- ===== src/Blocks/GeomOptimise.antt =====
-- src/blocks/GeomOptimise.cpp: optimises the structures that pass, and keeps a table of them.
pub mod Outcomes
pub mod Examples
use structure_pipe.Base.{
  ℕ, ◌+◌, ◌≡◌, Bool, true, false, not, ◌&&◌, ◌||◌, Option, none, some, List, [], ◌∷◌, ◌++◌,
  if◌then◌else◌, Text, text, join, is_empty, decimal,
}
use structure_pipe.Pipe.{Event, sent, dropped, Doubles}
use structure_pipe.PipeData.{SharedData, GlobalData, get_output_file_stem, update_parameterisable}
use structure_pipe.Table.{Listener, Listened, add_table_note}
use structure_pipe.Support.{PipelineState, DataTableSupport, set_filename, register_engine, put}
use structure_pipe.Factory.{FailAction, drop_structure, continue_pipe}

pub record Settings : Type 0 where
  pub write_summary : Bool
  pub fail_action : FailAction
  pub params_tag : Option Text

unfoldable pub default_settings : Settings
default_settings = record { write_summary = false; fail_action = continue_pipe; params_tag = none }

unfoldable pub continues : FailAction → Bool
continues drop_structure = false
continues continue_pipe = true

-- What spl's optimiser makes of a structure: whether that succeeded, the structure as it is then, and
-- the number of iterations, if it is known.
pub record Optimised (S : Type 0) : Type 0 where
  pub is_success : Bool
  pub structure : S
  pub num_iters : Option ℕ

-- An optimiser of spl with the state O: whether it has a potential, and whether that one has
-- parameters; B is the data base of species.
pub record Optimiser (O S B : Type 0) : Type 0 where
  pub has_potential : Bool
  pub is_parameterisable : Bool
  pub get_params : O → List Text
  pub set_params : List Text → O → O × Bool
  pub update_species_db : O → B → B
  pub optimise : S → O → Optimised S

-- What the block reads of a structure, and the property with the potential's parameters.
pub record OptimisedReads (S D : Type 0) : Type 0 where
  pub name : S → Text
  pub energy : S → Option D
  pub num_atoms : S → ℕ
  pub set_potential_params : List Text → S → S

-- `potential_params` is a member that only `pipelineInitialising` reads, and nothing sets.
pub record GeomOptimise (O W : Type 0) : Type 0 where
  pub settings : Settings
  pub optimiser : O
  pub support : DataTableSupport W
  pub potential_params : List Text

module _ {O S B W : Type 0} (k : Optimiser O S B) where
  -- The parameters of the global memory for the potential, if there are such under the tag.
  unfoldable pub parameterise : {V : Type 0} → GlobalData V → GeomOptimise O W → GeomOptimise O W
  unfolding update_parameterisable
  parameterise global b = elim b.settings.params_tag [
    | none ↦ b
    | some tag ↦ record b {
      optimiser = (update_parameterisable k.set_params tag global b.optimiser).0;
    }
  ]

  unfoldable pub note_params : GeomOptimise O W → GeomOptimise O W
  unfolding add_table_note
  note_params b =
      if b.settings.write_summary && not (is_empty b.potential_params)
      then record b {
        support = record b.support {
          table =
              add_table_note (text "params: " ++ join (text " ") (k.get_params b.optimiser))
                b.support.table;
        };
      }
      else b

  -- `new_writer` is the constructor of a table's writer, and the engine is at this address, in this
  -- state.
  unfoldable pub pipeline_initialising :
      {V : Type 0}
      → (Text → W)
      → PipelineState
      → ℕ
      → SharedData V
      → GlobalData V
      → GeomOptimise O W
      → B
      → GeomOptimise O W × B
  unfolding parameterise note_params get_output_file_stem set_filename register_engine
  pipeline_initialising new_writer engine_state engine shared global b0 db =
      let file = get_output_file_stem shared global ++ text ".geomopt" in
      let b1 =
        if b0.settings.write_summary
        then record b0 {
          support =
              register_engine new_writer engine
                (set_filename new_writer engine_state file b0.support);
        }
        else b0 in
      if k.has_potential
      then (let b2 = if k.is_parameterisable then note_params (parameterise global b1) else b1 in
          (b2, k.update_species_db b2.optimiser db))
      else (b1, db)

-- The structure with the parameters of the potential.
unfoldable pub with_params : {O S B D : Type 0} → OptimisedReads S D → Optimiser O S B → O → S → S
with_params reads m o s =
    if m.has_potential && m.is_parameterisable
    then reads.set_potential_params (m.get_params o) s
    else s

-- `to_string` prints a `double`.
module _ {S D L : Type 0} (d : Doubles D) (reads : OptimisedReads S D) (to_string : D → Text)
    (k : Listener L) (row_first : Bool) where
  unfoldable pub update_table : S → Option ℕ → Listened L → Listened L
  unfolding put
  update_table s num_iters t = elim (reads.energy s) [
    | none ↦ t
    | some e ↦
        let key = reads.name s in
        let t1 = put k row_first decimal key (text "energy") (to_string e) t in
        let t2 =
          put k row_first decimal key (text "energy/atom")
            (to_string (d.div e (d.of_count (reads.num_atoms s)))) t1 in
        elim num_iters [
          | none ↦ t2
          | some n ↦ put k row_first decimal key (text "iters") (decimal n) t2
        ]
  ]

  -- `in`, with the table of the support and its listeners.
  unfoldable pub take_in :
      {O B W : Type 0}
      → Optimiser O S B
      → GeomOptimise O W
      → S
      → Listened L
      → Listened L × List (Event S)
  unfolding with_params update_table continues
  take_in m b s0 t =
      let result = m.optimise (with_params reads m b.optimiser s0) b.optimiser in
      let s = result.structure in
      if result.is_success || continues b.settings.fail_action
      then (if b.settings.write_summary then update_table s result.num_iters t else t, sent s ∷ [])
      else (t, dropped s ∷ [])
