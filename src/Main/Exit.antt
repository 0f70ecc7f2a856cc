-- ===== src/Main/Exit.antt =====
-- The exit code of the program, and whether it runs the pipe.
use mathlib.Core.Option
use structure_pipe.Base.{
  ℕ, ◌*◌, ◌%◌, ◌^◌, ◌≡◌, refl, Bool, true, false, not, Option, none, some, List, [], ◌∷◌, ◌++◌,
  if◌then◌else◌, Text, text, text_eq, append-nil, sym, ap, ◌∙◌, subst,
}
use structure_pipe.Main.{
  InputOptions, CommandLine, asks_help, refused, accepted, process_command_line_args, PipeOptions,
  Steps, Effect, seeded, ran, parse_yaml, insert_scalar_values, seed_random_number_generator,
  run_pipe, parse_pipe, main,
}

-- A run of a pipe: the engine, the seed name and the first block.
abbrev pub Run : Type 0 → Type 0 → Type 0
Run Engine Block = Engine × Text × Block

abbrev pub runs : {Engine Block : Type 0} → List (Effect Engine Block) → List (Run Engine Block)
runs [] = []
runs (seeded n ∷ es) = runs es
runs (ran e name b ∷ es) = (e, name, b) ∷ runs es

module _ {N E Engine Block : Type 0} (p : Steps N E Engine Block) where
  abbrev pub insert_all : List Text → N → Option N
  insert_all [] node = some node
  insert_all (v ∷ vs) node = Option.bind (p.insert_scalar v node) (insert_all vs)

  -- The run that a command line stands for; none if any of the steps before it fails.
  abbrev pub planned : CommandLine → Option (Run Engine Block)
  planned asks_help = none
  planned refused = none
  planned (accepted o) =
      if p.exists o.input
      then Option.bind (p.load_file o.input) (λ file.
        Option.bind (insert_all o.additional_options file) (λ node.
          Option.bind (p.parse_options node) (λ options. Option.bind (p.make_pipe node) (λ block.
            Option.map (λ engine. (engine, p.stem o.input, block))
              (p.make_engine options.engine)))))
      else none

  -- The exit code 0 and one run, or the exit code 1 and no run.
  abbrev pub Exits : Option (Run Engine Block) → ℕ × List (Effect Engine Block) → Type 0
  Exits none r = (r.0 ≡ 1) × (runs r.1 ≡ [])
  Exits (some run) r = (r.0 ≡ 0) × (runs r.1 ≡ run ∷ [])

  runs-seed :
      (seed : Text) (rest : List (Effect Engine Block))
      → runs (seed_random_number_generator p seed ++ rest) ≡ runs rest
  unfolding seed_random_number_generator
  runs-seed seed rest =
      by_seed (text_eq seed (text "time")) (p.cast_unsigned seed)
        ((p.time % 2 ^ 32) * (p.process_id % 2 ^ 32) % 2 ^ 32)
    where
      by_seed :
          (timed : Bool) (o : Option ℕ) (n : ℕ)
          → (let seeds : List (Effect Engine Block) =
                if timed then seeded n ∷ [] else elim o [ none ↦ [] | some n ↦ seeded n ∷ [] ] in
              runs (seeds ++ rest))
            ≡ runs rest
      by_seed true o n = refl
      by_seed false none n = refl
      by_seed false (some m) n = refl

  run_pipe-Exits :
      (input : Text) (node : N) (options : PipeOptions E)
      → Exits
          (Option.bind (p.make_pipe node) (λ block.
            Option.map (λ engine. (engine, p.stem input, block)) (p.make_engine options.engine)))
          (run_pipe p input node options)
  unfolding run_pipe Option.bind
  run_pipe-Exits input node options = by_parts (p.make_pipe node) (p.make_engine options.engine)
    where
      effects : List (Effect Engine Block)
      effects = seed_random_number_generator p options.rng_seed

      no_run : runs effects ≡ []
      no_run = ap runs (sym (append-nil effects)) ∙ runs-seed options.rng_seed []

      by_parts :
          (block : Option Block) (engine : Option Engine)
          → Exits
              (Option.bind block
                (λ block. Option.map (λ engine. (engine, p.stem input, block)) engine))
              (elim block [
                | none ↦ (1, effects)
                | some block ↦ elim engine [
                  | none ↦ (1, effects)
                  | some engine ↦ (0, effects ++ ran engine (p.stem input) block ∷ [])
                ]
              ])
      by_parts none engine = (refl, no_run)
      by_parts (some block) none = (refl, no_run)
      by_parts (some block) (some engine) =
          (refl, runs-seed options.rng_seed (ran engine (p.stem input) block ∷ []))

  -- The run of a pipe with a node in which all values are put.
  abbrev planned_with : InputOptions → Option N → Option (Run Engine Block)
  planned_with o inserted = Option.bind inserted (λ node.
      Option.bind (p.parse_options node) (λ options. Option.bind (p.make_pipe node) (λ block.
        Option.map (λ engine. (engine, p.stem o.input, block)) (p.make_engine options.engine))))

  insert_scalar_values-insert_all :
      (vs : List Text) (node : N)
      → (let (inserted, node') = insert_scalar_values p vs node in
          if inserted then some node' else none)
        ≡ insert_all vs node
  unfolding insert_scalar_values Option.bind
  insert_scalar_values-insert_all [] node = refl
  insert_scalar_values-insert_all (v ∷ vs) node =
      by_insert (p.insert_scalar v node) (insert_scalar_values-insert_all vs)
    where
      by_insert :
          (o : Option N)
          → ((node : N)
              → (let (inserted, node') = insert_scalar_values p vs node in
                  if inserted then some node' else none)
                ≡ insert_all vs node)
          → (let r : Bool × N = elim o [
            | none ↦ (false, node)
            | some node' ↦ insert_scalar_values p vs node'
          ] in
              if r.0 then some r.1 else none)
            ≡ Option.bind o (insert_all vs)
      by_insert none later = refl
      by_insert (some node') later = later node'

  parse_pipe-Exits :
      (o : InputOptions) (file : N)
      → Exits (planned_with o (insert_all o.additional_options file)) (parse_pipe p o file)
  unfolding parse_pipe Option.bind
  parse_pipe-Exits o file =
      let (inserted, node) = insert_scalar_values p o.additional_options file in
      subst (λ q. Exits (planned_with o q) (parse_pipe p o file))
        (insert_scalar_values-insert_all o.additional_options file) (by_inserted inserted node)
    where
      by_options :
          (node : N) (options : Option (PipeOptions E))
          → Exits
              (Option.bind options (λ options. Option.bind (p.make_pipe node) (λ block.
                Option.map
                  (λ engine. (engine, p.stem o.input, block))
                  (p.make_engine options.engine))))
              (elim options [ none ↦ (1, []) | some options ↦ run_pipe p o.input node options ])
      by_options node none = (refl, refl)
      by_options node (some options) = run_pipe-Exits o.input node options

      by_inserted :
          (inserted : Bool) (node : N)
          → Exits (planned_with o (if inserted then some node else none)) (
              if not inserted then (1, []) else elim (p.parse_options node) [
                | none ↦ (1, [])
                | some options ↦ run_pipe p o.input node options
              ])
      by_inserted false node = (refl, refl)
      by_inserted true node = by_options node (p.parse_options node)

  -- The program returns 0 just if the command line is accepted, the input file exists and is read,
  -- all values of the command line are put in, the options are parsed, and the pipe and its engine are
  -- made. Then it runs the engine once on the first block, with the stem of the input file as the
  -- seed name. Else it returns 1 and runs nothing.
  pub main-Exits : (line : CommandLine) → Exits (planned line) (main p line)
  unfolding main process_command_line_args parse_yaml Option.bind
  main-Exits asks_help = (refl, refl)
  main-Exits refused = (refl, refl)
  main-Exits (accepted o) = by_file (p.exists o.input) (p.load_file o.input)
    where
      by_file :
          (exists : Bool) (file : Option N)
          → let read : ℕ × Option N = elim file [ none ↦ (1, none) | some node ↦ (0, some node) ] in
            Exits
              (if exists
                then Option.bind file
                    (λ file. planned_with o (insert_all o.additional_options file))
                else none)
              (if not exists
                then (1, [])
                else elim read.1 [ none ↦ (read.0, []) | some node ↦ parse_pipe p o node ])
      by_file false file = (refl, refl)
      by_file true none = (refl, refl)
      by_file true (some file) = parse_pipe-Exits o file
