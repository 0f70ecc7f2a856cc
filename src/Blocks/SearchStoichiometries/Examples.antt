-- ===== src/Blocks/SearchStoichiometries/Examples.antt =====
-- One or two atoms of A with at most one of B, and not more than two in all.
use structure_pipe.Base.{
  ℕ, ◌+◌, ◌%◌, ◌^◌, keep_if, ◌≡◌, refl, true, ◌&&◌, none, some, List, [], ◌∷◌, ◌++◌, map,
  if◌then◌else◌, Text, text, text_eq, is_empty, arith,
}
use structure_pipe.Pipe.{sent}
use structure_pipe.Pipe.Samples.{positive}
use structure_pipe.Table.{Listener, new_table}
use structure_pipe.Table.Valid.{IsValid, new_table-IsValid}
use structure_pipe.Table.Cells.{cell}
use structure_pipe.Support.Row.{written_last}
use structure_pipe.Blocks.SearchStoichiometries.{
  pos, CountRange, Options, lower_bounds, upper_bounds, to_unsigned, next_int, MultiIndices,
  StructureReads, Sweep, stoich_string, sweep_one, start,
}
use structure_pipe.Blocks.SearchStoichiometries.Names.{read_counts, read_counts-stoich_string}
use structure_pipe.Blocks.SearchStoichiometries.Ranges.{
  occurrences, in_box, IsLawful, total, in_ranges,
}
use structure_pipe.Blocks.SearchStoichiometries.Visits.{run_of, has_room, collected, start-visits}
use structure_pipe.Blocks.SearchStoichiometries.Rows.{species_cells, all_cells, cell-sweep_one}

abbrev ranges : List (Text × CountRange)
ranges =
    (text "A", record { min = pos 1; max = pos 2 })
    ∷ (text "B", record { min = pos 0; max = pos 1 })
    ∷ []

abbrev options : Options
options = record { atom_ranges = ranges; max_atoms = 2; use_separate_directories = true }

read_counts-stoich_string_example :
    read_counts ranges (stoich_string 0 (2 ∷ 10 ∷ []) ranges) ≡ 2 ∷ 10 ∷ []
read_counts-stoich_string_example =
    read_counts-stoich_string ranges (2 ∷ 10 ∷ []) (refl, (refl, tt)) refl

abbrev indices : MultiIndices
indices = record {
  range = λ lower upper. (1 ∷ 0 ∷ []) ∷ (1 ∷ 1 ∷ []) ∷ (2 ∷ 0 ∷ []) ∷ (2 ∷ 1 ∷ []) ∷ [];
  sum = λ idx. total idx % 2 ^ 32;
}

indices-covers :
    (idx : List ℕ)
    → occurrences idx (indices.range [] [])
      ≡ (if in_box (1 ∷ 0 ∷ []) (3 ∷ 2 ∷ []) idx then 1 else 0)
unfolding occurrences text_eq
indices-covers [] = refl
indices-covers (n ∷ []) = ground arith
indices-covers (n ∷ m ∷ []) = ground arith
indices-covers (n ∷ m ∷ i ∷ idx) = ground arith

bounds : (lower_bounds ranges ≡ 1 ∷ 0 ∷ []) × (upper_bounds ranges ≡ 3 ∷ 2 ∷ [])
unfolding lower_bounds upper_bounds to_unsigned next_int
bounds = (refl, refl)

indices-IsLawful : IsLawful indices (lower_bounds ranges) (upper_bounds ranges)
indices-IsLawful =
    rw (bounds.0) (rw (bounds.1) (record { covers = indices-covers; sums = λ idx. refl }))

-- A structure is its number of atoms.
abbrev reads : StructureReads ℕ ℕ
reads = record {
  path = λ s. text "p";
  spacegroup = λ s. none;
  energy = λ s. some 12;
  num_atoms = λ s. s;
}

abbrev digit_text : ℕ → Text
digit_text n = (n + 48) ∷ []

abbrev slash : Text → Text → Text
slash p q = p ++ (text "/" ++ q)

-- A run finishes with one structure, and counts the runs.
abbrev sub_run : List (Text × ℕ) → Text → ℕ → List ℕ × ℕ
sub_run settings path w = (2 ∷ [], w + 1)

abbrev counter : Listener ℕ
counter = record {
  on_value_changed = λ t at old new n. n + 1;
  on_column_changed = λ t index old new n. n + 1;
}

abbrev fresh : Sweep ℕ ℕ ℕ
fresh = record {
  world = 0;
  generation_settings = [];
  sub_working_dir = [];
  runs = [];
  table = record { table = new_table; listeners = [] };
  buffer = [];
  events = [];
}

start-visits_example :
    let b' =
      start options positive reads digit_text counter true slash (text "w") sub_run indices fresh in
    let visited =
      keep_if (has_room options) (indices.range (lower_bounds ranges) (upper_bounds ranges)) in
    ((idx : List ℕ)
      → occurrences idx visited ≡ (if in_ranges ranges idx && has_room options idx then 1 else 0))
    × (b'.runs
        ≡ map
            (run_of options positive reads digit_text counter true slash (text "w") sub_run)
            visited)
    × (b'.events
        ≡ map sent (
            collected options positive reads digit_text counter true slash
              (text "w")
              sub_run
              visited
              0))
    × (b'.buffer ≡ [])
start-visits_example =
    start-visits options positive reads digit_text counter true slash (text "w") sub_run indices
      fresh indices-IsLawful (omega arith) refl

cell-sweep_one_example :
    let idx : List ℕ = 1 ∷ 1 ∷ [] in
    let t' =
      (sweep_one options positive reads digit_text counter true slash
        (text "w")
        sub_run
        idx
        fresh).table.table in
    let path = slash (text "w") (stoich_string 0 idx ranges) in
    IsValid t'
    × ((r c : Text)
        → cell t' r c ≡ (
            if text_eq path r
            then written_last
                (species_cells 0 idx ranges ++ all_cells positive reads digit_text (2 ∷ []))
                c
                (cell new_table r c)
            else cell new_table r c))
cell-sweep_one_example =
    cell-sweep_one options positive reads digit_text counter true slash (text "w") sub_run
      (1 ∷ 1 ∷ []) fresh new_table-IsValid (unfold is_empty in refl)
