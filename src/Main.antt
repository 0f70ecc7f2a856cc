-- ===== src/Main.antt =====
-- src/spipe.cpp: the program, with the steps of src/utility/Initialisation.cpp. What is printed is
-- left out.
pub mod Exit
pub mod Examples
use mathlib.Core.Option
use structure_pipe.Base.{
  ℕ, ◌*◌, ◌%◌, ◌^◌, ◌≡◌, ◌≢◌, Bool, true, false, not, Option, none, some, List, [], ◌∷◌, ◌++◌,
  if◌then◌else◌, ◌==◌, Text, text, text_eq,
}

pub record InputOptions : Type 0 where
  pub input : Text
  pub additional_options : List Text

-- What `boost::program_options` makes of the command line: a request for help, an exception, or the
-- values of the options.
pub data CommandLine : Type 0 where
  asks_help : CommandLine
  refused : CommandLine
  accepted : InputOptions → CommandLine

abbrev pub no_input : InputOptions
no_input = record { input = []; additional_options = [] }

-- The exit code, and the options that are set.
unfoldable pub process_command_line_args : CommandLine → ℕ × InputOptions
process_command_line_args asks_help = (1, no_input)
process_command_line_args refused = (1, no_input)
process_command_line_args (accepted o) = (0, o)

-- `PipeOptions`, with the options E of an engine.
pub record PipeOptions (E : Type 0) : Type 0 where
  pub rng_seed : Text
  pub engine : E
  pub run : Text

-- The libraries and the other parts of the program: YAML and its nodes N, where `insert_scalar` puts
-- the value of a text into a node; the parse of the options, `buildPipe` and `createEngine`; the
-- stem of a path; the clock, the process number and `lexical_cast` to `unsigned int`.
pub record Steps (N E Engine Block : Type 0) : Type 0 where
  pub exists : Text → Bool
  pub load_file : Text → Option N
  pub insert_scalar : Text → N → Option N
  pub parse_options : N → Option (PipeOptions E)
  pub make_pipe : N → Option Block
  pub make_engine : E → Option Engine
  pub stem : Text → Text
  pub time : ℕ
  pub process_id : ℕ
  pub cast_unsigned : Text → Option ℕ

-- What the program does to the outside: it seeds the random numbers, or runs an engine whose global
-- memory has a seed name on a block.
pub data Effect (Engine Block : Type 0) : Type 0 where
  seeded : ℕ → Effect Engine Block
  ran : Engine → Text → Block → Effect Engine Block

module _ {N E Engine Block : Type 0} (p : Steps N E Engine Block) where
  -- The exit code, and the node if it was read.
  unfoldable pub parse_yaml : Text → ℕ × Option N
  parse_yaml input_file = elim (p.load_file input_file) [
    | none ↦ (1, none)
    | some node ↦ (0, some node)
  ]

  -- Whether all values were put in, and the node.
  unfoldable pub insert_scalar_values : List Text → N → Bool × N
  insert_scalar_values [] node = (true, node)
  insert_scalar_values (v ∷ vs) node = elim (p.insert_scalar v node) [
    | none ↦ (false, node)
    | some node' ↦ insert_scalar_values vs node'
  ]

  unfoldable pub seed_random_number_generator : Text → List (Effect Engine Block)
  seed_random_number_generator seed =
      if text_eq seed (text "time")
      then seeded ((p.time % 2 ^ 32) * (p.process_id % 2 ^ 32) % 2 ^ 32) ∷ []
      else elim (p.cast_unsigned seed) [ none ↦ [] | some n ↦ seeded n ∷ [] ]

  -- `main` from the parse of the options on.
  unfoldable pub run_pipe : Text → N → PipeOptions E → ℕ × List (Effect Engine Block)
  unfolding seed_random_number_generator
  run_pipe input node options =
      let effects = seed_random_number_generator options.rng_seed in
      elim (p.make_pipe node) [
        | none ↦ (1, effects)
        | some block ↦ elim (p.make_engine options.engine) [
          | none ↦ (1, effects)
          | some engine ↦ (0, effects ++ ran engine (p.stem input) block ∷ [])
        ]
      ]

  unfoldable pub parse_pipe : InputOptions → N → ℕ × List (Effect Engine Block)
  unfolding run_pipe insert_scalar_values
  parse_pipe o node0 =
      let (inserted, node) = insert_scalar_values o.additional_options node0 in
      if not inserted then (1, []) else elim (p.parse_options node) [
        | none ↦ (1, [])
        | some options ↦ run_pipe o.input node options
      ]

  unfoldable pub main : CommandLine → ℕ × List (Effect Engine Block)
  unfolding process_command_line_args parse_yaml parse_pipe
  main line =
      let (result, o) = process_command_line_args line in
      if not (result == 0)
      then (result, [])
      else if not (p.exists o.input)
      then (1, [])
      else (let (result', node) = parse_yaml o.input in
          elim node [ none ↦ (result', []) | some n ↦ parse_pipe o n ])
