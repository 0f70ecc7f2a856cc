-- ===== src/Blocks/GeomOptimise/Examples.antt =====
-- An optimiser that fails for structures without a name.
use structure_pipe.Base.{
  ℕ, ◌+◌, ◌≡◌, true, false, not, ◌&&◌, none, some, [], ◌∷◌, if◌then◌else◌, Text, text, text_eq,
  is_empty,
}
use structure_pipe.Pipe.{sent, dropped}
use structure_pipe.Pipe.Samples.{positive}
use structure_pipe.Table.{Listener, Listened, new_table}
use structure_pipe.Table.Valid.{IsValid, new_table-IsValid}
use structure_pipe.Table.Cells.{cell}
use structure_pipe.Support.Row.{written_last}
use structure_pipe.Factory.{drop_structure}
use structure_pipe.Blocks.Clone.{Structure}
use structure_pipe.Blocks.GeomOptimise.{Optimiser, OptimisedReads, GeomOptimise, take_in}
use structure_pipe.Blocks.GeomOptimise.Outcomes.{goes_on, prepared, cells_of, take_in-outcome}

abbrev reads : OptimisedReads (Structure ℕ) ℕ
reads = record {
  name = λ s. s.name;
  energy = λ s. some s.content;
  num_atoms = λ s. 2;
  set_potential_params = λ ps s. s;
}

abbrev optimiser : Optimiser ℕ (Structure ℕ) ℕ
optimiser = record {
  has_potential = true;
  is_parameterisable = false;
  get_params = λ o. [];
  set_params = λ ps o. (o, true);
  update_species_db = λ o db. db;
  optimise = λ s o. record {
    is_success = not (is_empty s.name);
    structure = record s { content = 6 };
    num_iters = some 9;
  };
}

abbrev block : GeomOptimise ℕ Text
block = record {
  settings = record { write_summary = true; fail_action = drop_structure; params_tag = none };
  optimiser = 0;
  support = record {
    engine = none;
    listening = [];
    filename = [];
    table = new_table;
    writer = none;
    written = [];
    clear_table_on_pipe_finish = false;
  };
  potential_params = [];
}

abbrev digit_text : ℕ → Text
digit_text n = (n + 48) ∷ []

abbrev counter : Listener ℕ
counter = record {
  on_value_changed = λ t at old new n. n + 1;
  on_column_changed = λ t index old new n. n + 1;
}

abbrev start_table : Listened ℕ
start_table = record { table = new_table; listeners = (0, 0) ∷ [] }

abbrev named : Structure ℕ
named = record { name = text "s"; content = 8 }

take_in-outcome_example :
    let result =
      optimiser.optimise
        (prepared positive reads digit_text counter true optimiser.has_potential
          optimiser.is_parameterisable
          (reads.set_potential_params (optimiser.get_params 0) named)
          named)
        0 in
    let s = result.structure in
    let on = goes_on positive reads digit_text counter true drop_structure result.is_success in
    let (t', events) =
      take_in positive reads digit_text counter true optimiser block named start_table in
    (events ≡ (if on then sent s else dropped s) ∷ [])
    × IsValid t'.table
    × ((r c : Text)
        → cell t'.table r c ≡ (
            if text_eq s.name r
            then written_last
                (if on && true
                  then cells_of positive reads digit_text counter true s result.num_iters
                  else [])
                c
                (cell new_table r c)
            else cell new_table r c))
take_in-outcome_example =
    take_in-outcome positive reads digit_text counter true optimiser block named start_table
      new_table-IsValid
