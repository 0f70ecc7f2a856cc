-- ===== src/Blocks/SearchStoichiometries.antt =====
-- src/blocks/SearchStoichiometries.cpp: runs a pipe once for each stoichiometry in a range, collects
-- what the runs finish with, and keeps a table of them.
pub mod Names
pub mod Ranges
pub mod Visits
pub mod Rows
pub mod Examples
use structure_pipe.Base.{
  ℕ, zero, suc, ◌+◌, ◌-◌, ◌%◌, ◌^◌, ◌≡◌, Bool, true, false, not, ◌&&◌, ◌||◌, Option, none, some,
  List, [], ◌∷◌, ◌++◌, map, if◌then◌else◌, ltb, leb, ◌==◌, length, get_or, Text, text, is_empty,
  decimal,
}
use structure_pipe.Base.Assoc.{assign}
use structure_pipe.Pipe.{Event, sent, Doubles}
use structure_pipe.Table.{Listener, Listened}
use structure_pipe.Support.{put}

-- An `int`; `negsuc n` is -(n + 1).
pub data ℤ : Type 0 where
  pos : ℕ → ℤ
  negsuc : ℕ → ℤ

-- The conversion of an `int` to `unsigned int`.
unfoldable pub to_unsigned : ℤ → ℕ
to_unsigned (pos n) = n % 2 ^ 32
to_unsigned (negsuc n) = 2 ^ 32 - 1 - n % 2 ^ 32

-- `max() + 1`, which is undefined in C++ for the greatest `int`.
unfoldable pub next_int : ℤ → ℤ
next_int (pos n) = pos (n + 1)
next_int (negsuc zero) = pos 0
next_int (negsuc (suc n)) = negsuc n

pub record CountRange : Type 0 where
  pub min : ℤ
  pub max : ℤ

-- The symbols are in the order of the map.
pub record Options : Type 0 where
  pub atom_ranges : List (Text × CountRange)
  pub max_atoms : ℕ
  pub use_separate_directories : Bool

abbrev pub unlimited_atoms : ℕ
unlimited_atoms = 2 ^ 64 - 1

-- `getStoichRange`: the bounds of the half-open range.
unfoldable pub lower_bounds : List (Text × CountRange) → List ℕ
lower_bounds [] = []
lower_bounds ((symbol, range) ∷ rs) = to_unsigned range.min ∷ lower_bounds rs

unfoldable pub upper_bounds : List (Text × CountRange) → List ℕ
upper_bounds [] = []
upper_bounds ((symbol, range) ∷ rs) = to_unsigned (next_int range.max) ∷ upper_bounds rs

-- `MultiIdx` and `MultiIdxRange` of spl: the indices of a range, in order, and the sum of one.
pub record MultiIndices : Type 0 where
  pub range : List ℕ → List ℕ → List (List ℕ)
  pub sum : List ℕ → ℕ

-- What the loop over the atoms puts into the settings and writes, from species i on.
unfoldable pub atom_counts :
    ℕ → List ℕ → List (Text × CountRange) → List (Text × ℕ) → List (Text × ℕ)
atom_counts i idx [] settings = settings
atom_counts i idx ((symbol, range) ∷ rs) settings =
    atom_counts (i + 1) idx rs (assign symbol (get_or idx i 0) settings)

unfoldable pub stoich_string : ℕ → List ℕ → List (Text × CountRange) → Text
stoich_string i idx [] = []
stoich_string i idx ((symbol, range) ∷ rs) =
    decimal (get_or idx i 0)
    ++ (symbol
        ++ ((if ltb (i + 1) (length idx) then text "-" else []) ++ stoich_string (i + 1) idx rs))

-- What is read of a finished structure S: `path` is the text of `getRelativeSavePath`, empty if
-- there is none, and the others are properties.
pub record StructureReads (S D : Type 0) : Type 0 where
  pub path : S → Text
  pub spacegroup : S → Option ℕ
  pub energy : S → Option D
  pub num_atoms : S → ℕ

-- The state of the block and of what it shares. `runs` records the settings and the directory of
-- each run of the sub pipe; `world` is what those runs work on.
pub record Sweep (W S L : Type 0) : Type 0 where
  pub world : W
  pub generation_settings : List (Text × ℕ)
  pub sub_working_dir : Text
  pub runs : List (List (Text × ℕ) × Text)
  pub table : Listened L
  pub buffer : List S
  pub events : List (Event S)

-- The test of the loop, which goes on to the next index if it fails.
unfoldable pub is_admitted : Options → ℕ → Bool
is_admitted o total = not (total == 0 || ltb o.max_atoms total)

-- `slash` joins paths.
unfoldable pub sweep_path : (Text → Text → Text) → Text → Options → List ℕ → Text
unfolding stoich_string
sweep_path slash working_dir o idx =
    if o.use_separate_directories
    then slash working_dir (stoich_string 0 idx o.atom_ranges)
    else working_dir

module _ {L : Type 0} (k : Listener L) (row_first : Bool) where
  unfoldable pub update_table :
      Text → ℕ → List ℕ → List (Text × CountRange) → Listened L → Listened L
  unfolding put
  update_table key i idx [] t = t
  update_table key i idx ((symbol, range) ∷ rs) t =
      let column = if is_empty symbol then decimal i else symbol in
      update_table key (i + 1) idx rs
        (put k row_first decimal key column (decimal (get_or idx i 0)) t)

-- `to_string` prints a `double`.
module _ {S D L : Type 0} (d : Doubles D) (reads : StructureReads S D) (to_string : D → Text)
    (k : Listener L) (row_first : Bool) where
  -- The body of the loop of `releaseBufferedStructures`, but for `out`.
  unfoldable pub tabulate : Text → S → Listened L → Listened L
  unfolding put
  tabulate key s t0 =
      let t1 : Listened L =
        if is_empty (reads.path s)
        then t0
        else put k row_first decimal key (text "lowest") (reads.path s) t0 in
      let t2 : Listened L = elim (reads.spacegroup s) [
        | none ↦ t1
        | some sg ↦ put k row_first decimal key (text "sg") (decimal sg) t1
      ] in
      elim (reads.energy s) [
        | none ↦ t2
        | some e ↦
            if reads.num_atoms s == 0
            then t2
            else put k row_first decimal key (text "energy/atom")
                (to_string (d.div e (d.of_count (reads.num_atoms s)))) t2
      ]

  module _ {W : Type 0} where
    unfoldable pub release_structures : Text → List S → Sweep W S L → Sweep W S L
    unfolding tabulate
    release_structures key [] b = b
    release_structures key (s ∷ ss) b =
        release_structures key ss
          (record b { table = tabulate key s b.table; events = b.events ++ sent s ∷ [] })

    unfoldable pub release_buffered : Text → Sweep W S L → Sweep W S L
    unfolding release_structures
    release_buffered key b = record (release_structures key b.buffer b) { buffer = [] }

module _ {W S L : Type 0} where
  unfoldable pub finished : S → Sweep W S L → Sweep W S L
  finished s b = record b { buffer = b.buffer ++ s ∷ [] }

  unfoldable pub finished_all : List S → Sweep W S L → Sweep W S L
  unfolding finished
  finished_all [] b = b
  finished_all (s ∷ ss) b = finished_all ss (finished s b)

-- `sub_run` gives what a run of the sub pipe hands to `finished`, in order.
module _ {W S D L : Type 0} (o : Options) (d : Doubles D) (reads : StructureReads S D)
    (to_string : D → Text) (k : Listener L) (row_first : Bool) (slash : Text → Text → Text)
    (working_dir : Text) (sub_run : List (Text × ℕ) → Text → W → List S × W) where
  unfoldable pub sweep_one : List ℕ → Sweep W S L → Sweep W S L
  unfolding atom_counts sweep_path finished_all update_table release_buffered
  sweep_one idx b0 =
      let settings = atom_counts 0 idx o.atom_ranges [] in
      let path = sweep_path slash working_dir o idx in
      let (done, world) = sub_run settings path b0.world in
      let b1 = finished_all done (record b0 {
        world = world;
        generation_settings = settings;
        sub_working_dir = path;
        runs = b0.runs ++ (settings, path) ∷ [];
      }) in
      let key = if is_empty path then text "." else path in
      let table = update_table k row_first key 0 idx o.atom_ranges b1.table in
      release_buffered d reads to_string k row_first path (record b1 { table = table })

  unfoldable pub sweep_all : (List ℕ → ℕ) → List (List ℕ) → Sweep W S L → Sweep W S L
  unfolding sweep_one is_admitted
  sweep_all sum [] b = b
  sweep_all sum (idx ∷ rest) b =
      sweep_all sum rest (if is_admitted o (sum idx) then sweep_one idx b else b)

  unfoldable pub start : MultiIndices → Sweep W S L → Sweep W S L
  unfolding sweep_all lower_bounds upper_bounds
  start indices b =
      sweep_all indices.sum
        (indices.range (lower_bounds o.atom_ranges) (upper_bounds o.atom_ranges)) b
