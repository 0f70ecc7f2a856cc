-- ===== src/Main/Examples.antt =====
-- An input file whose pipe is made.
use mathlib.Core.Option
use structure_pipe.Base.{ℕ, ◌+◌, ◌≡◌, true, some, [], ◌∷◌, text}
use structure_pipe.Main.{InputOptions, accepted, Steps, main}
use structure_pipe.Main.Exit.{runs, main-Exits}

-- A node counts the values that are put in.
abbrev steps : Steps ℕ ℕ ℕ ℕ
steps = record {
  exists = λ f. true;
  load_file = λ f. some 0;
  insert_scalar = λ v n. some (n + 1);
  parse_options = λ n. some (record { rng_seed = text "time"; engine = 4; run = text "a" });
  make_pipe = λ n. some n;
  make_engine = λ e. some e;
  stem = λ f. text "in";
  time = 1000;
  process_id = 12;
  cast_unsigned = λ t. some 7;
}

abbrev options : InputOptions
options = record { input = text "in.yaml"; additional_options = text "x=1" ∷ text "y=2" ∷ [] }

main-Exits_example :
    ((main steps (accepted options)).0 ≡ 0)
    × (runs (main steps (accepted options)).1 ≡ (4, text "in", 2) ∷ [])
unfolding Option.bind
main-Exits_example = main-Exits steps (accepted options)
