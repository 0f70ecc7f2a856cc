-- ===== src/Blocks/SearchStoichiometries/Visits.antt =====
-- Which stoichiometries are run, and what becomes of the structures that the runs finish with.
use mathlib.Core.List.{map-append}
use structure_pipe.Base.{
  ℕ, zero, suc, ◌+◌, ◌%◌, ◌^◌, ◌≡◌, refl, sym, ap, ap₂, ◌∙◌, drop, get_or, Bool, true, false, ◌&&◌,
  List, [], ◌∷◌, ◌++◌, map, if◌then◌else◌, leb, keep_if, Text, text, is_empty, arith, append_assoc,
  append-nil,
}
use structure_pipe.Base.Assoc.{assign}
use structure_pipe.Pipe.{sent, Doubles}
use structure_pipe.Table.{Listener, Listened}
use structure_pipe.Blocks.SearchStoichiometries.{
  CountRange, stoich_string, Options, lower_bounds, upper_bounds, MultiIndices, atom_counts,
  StructureReads, Sweep, is_admitted, sweep_path, update_table, tabulate, release_structures,
  release_buffered, finished_all, sweep_one, sweep_all, start,
}
use structure_pipe.Blocks.SearchStoichiometries.Ranges.{
  occurrences, occurrences-keep_if, in_box-bounds, total, IsLawful, AreCounts, in_ranges,
}

module _ {W S L : Type 0} where
  pub finished_all-buffer :
      (ss : List S) (b : Sweep W S L) → finished_all ss b ≡ record b { buffer = b.buffer ++ ss }
  unfolding finished_all
  finished_all-buffer [] b = ap (λ q. record b { buffer = q }) (sym (append-nil b.buffer))
  finished_all-buffer (s ∷ ss) b =
      finished_all-buffer ss (record b { buffer = b.buffer ++ s ∷ [] })
      ∙ ap (λ q. record b { buffer = q }) (append_assoc b.buffer (s ∷ []) ss)

module _ {S D L : Type 0} (d : Doubles D) (reads : StructureReads S D) (to_string : D → Text)
    (k : Listener L) (row_first : Bool) (key : Text) where
  unfoldable pub tabulate_all : List S → Listened L → Listened L
  tabulate_all [] t = t
  tabulate_all (s ∷ ss) t = tabulate_all ss (tabulate d reads to_string k row_first key s t)

  pub release_structures-events :
      {W : Type 0} (ss : List S) (b : Sweep W S L)
      → release_structures d reads to_string k row_first key ss b
        ≡ record b { table = tabulate_all ss b.table; events = b.events ++ map sent ss }
  unfolding release_structures tabulate_all
  release_structures-events [] b = ap (λ q. record b { events = q }) (sym (append-nil b.events))
  release_structures-events (s ∷ ss) b =
      let t = tabulate d reads to_string k row_first key s b.table in
      release_structures-events ss (record b { table = t; events = b.events ++ sent s ∷ [] })
      ∙ ap (λ q. record b { table = tabulate_all ss t; events = q })
          (append_assoc b.events (sent s ∷ []) (map sent ss))

-- The settings of an index: the number of atoms of each species, in turn.
abbrev pub settings_of : List (Text × CountRange) → List ℕ → List (Text × ℕ) → List (Text × ℕ)
settings_of [] idx settings = settings
settings_of ((symbol, range) ∷ rs) [] settings = settings_of rs [] (assign symbol 0 settings)
settings_of ((symbol, range) ∷ rs) (n ∷ idx) settings =
    settings_of rs idx (assign symbol n settings)

drop-later : (i : ℕ) (idx : List ℕ) → drop (i + 1) idx ≡ drop 1 (drop i idx)
drop-later zero idx = ap (λ m. drop m idx) (let e : 0 + 1 ≡ 1 = omega arith in e)
drop-later (suc i) [] =
    ap (λ m. drop {A = ℕ} m []) (let e : suc i + 1 ≡ suc (i + 1) = omega arith in e)
drop-later (suc i) (n ∷ idx) =
    ap (λ m. drop m (n ∷ idx)) (let e : suc i + 1 ≡ suc (i + 1) = omega arith in e)
    ∙ drop-later i idx

get_or-drop : (i : ℕ) (idx : List ℕ) → get_or idx i 0 ≡ get_or (drop i idx) 0 0
get_or-drop zero idx = refl
get_or-drop (suc i) [] = refl
get_or-drop (suc i) (n ∷ idx) = get_or-drop i idx

atom_counts-settings_of :
    (i : ℕ) (idx : List ℕ) (rs : List (Text × CountRange)) (settings : List (Text × ℕ))
    → atom_counts i idx rs settings ≡ settings_of rs (drop i idx) settings
unfolding atom_counts
atom_counts-settings_of i idx [] settings = refl
atom_counts-settings_of i idx ((symbol, range) ∷ rs) settings =
    atom_counts-settings_of (i + 1) idx rs _
    ∙ ap₂ (λ n q. settings_of rs q (assign symbol n settings)) (get_or-drop i idx)
        (drop-later i idx)
    ∙ one_more (drop i idx)
  where
    one_more :
        (q : List ℕ)
        → settings_of rs (drop 1 q) (assign symbol (get_or q 0 0) settings)
          ≡ settings_of ((symbol, range) ∷ rs) q settings
    one_more [] = refl
    one_more (n ∷ q) = refl

keep_if-same :
    {A : Type 0} (p q : A → Bool) (xs : List A)
    → ((x : A) → p x ≡ q x)
    → keep_if p xs ≡ keep_if q xs
keep_if-same p q [] e = refl
keep_if-same p q (x ∷ xs) e = ap₂ (λ b ys. if b then x ∷ ys else ys) (e x) (keep_if-same p q xs e)

-- The sum of an index is that of `unsigned int`.
abbrev pub has_room : Options → List ℕ → Bool
has_room o idx = leb 1 (total idx % 2 ^ 32) && leb (total idx % 2 ^ 32) o.max_atoms

module _ {W S D L : Type 0} (o : Options) (d : Doubles D) (reads : StructureReads S D)
    (to_string : D → Text) (k : Listener L) (row_first : Bool) (slash : Text → Text → Text)
    (working_dir : Text) (sub_run : List (Text × ℕ) → Text → W → List S × W) where
  -- The settings and the directory of the run of an index.
  abbrev pub run_of : List ℕ → List (Text × ℕ) × Text
  run_of idx = (
    settings_of o.atom_ranges idx [],
    if o.use_separate_directories
        then slash working_dir (stoich_string 0 idx o.atom_ranges)
        else working_dir,
  )

  counted-run_of :
      (idx : List ℕ)
      → (atom_counts 0 idx o.atom_ranges [], sweep_path slash working_dir o idx) ≡ run_of idx
  unfolding sweep_path
  counted-run_of idx =
      ap (λ q. (q, sweep_path slash working_dir o idx))
        (atom_counts-settings_of 0 idx o.atom_ranges [])

  abbrev pub run_result : List ℕ → W → List S × W
  run_result idx w = sub_run (run_of idx).0 (run_of idx).1 w

  -- What the runs of some indices finish with, one after the other.
  pub collected : List (List ℕ) → W → List S
  collected [] w = []
  collected (idx ∷ rest) w = (run_result idx w).0 ++ collected rest (run_result idx w).1

  -- The state after a run with some settings and a directory.
  abbrev ran_with : List ℕ → Sweep W S L → List (Text × ℕ) × Text → Sweep W S L
  ran_with idx b (settings, path) =
      let (done, world) = sub_run settings path b.world in
      record {
        world = world;
        generation_settings = settings;
        sub_working_dir = path;
        runs = b.runs ++ (settings, path) ∷ [];
        table = tabulate_all d reads to_string k row_first path (b.buffer ++ done) (
            update_table k row_first (if is_empty path then text "." else path) 0 idx o.atom_ranges
              b.table);
        buffer = [];
        events = b.events ++ map sent (b.buffer ++ done);
      }

  sweep_one-ran_with :
      (idx : List ℕ) (b : Sweep W S L)
      → sweep_one o d reads to_string k row_first slash working_dir sub_run idx b
        ≡ ran_with idx b (atom_counts 0 idx o.atom_ranges [], sweep_path slash working_dir o idx)
  unfolding sweep_one release_buffered
  sweep_one-ran_with idx b =
      let settings = atom_counts 0 idx o.atom_ranges [] in
      let path = sweep_path slash working_dir o idx in
      let (done, world) = sub_run settings path b.world in
      let b1 : Sweep W S L = record b {
        world = world;
        generation_settings = settings;
        sub_working_dir = path;
        runs = b.runs ++ (settings, path) ∷ [];
      } in
      let tabled = λ (q : Sweep W S L). record q {
        table =
            update_table k row_first (if is_empty path then text "." else path) 0 idx o.atom_ranges
              q.table;
      } in
      let e = finished_all-buffer done b1 in
      let q = tabled (record b1 { buffer = b.buffer ++ done }) in
      ap (λ (q : Sweep W S L). release_buffered d reads to_string k row_first path (tabled q)) e
      ∙ ap {B = Sweep W S L} (λ (q : Sweep W S L). record q { buffer = [] })
          (release_structures-events d reads to_string k row_first path (b.buffer ++ done) q)

  pub sweep_one-run_of :
      (idx : List ℕ) (b : Sweep W S L)
      → sweep_one o d reads to_string k row_first slash working_dir sub_run idx b
        ≡ ran_with idx b (run_of idx)
  sweep_one-run_of idx b = sweep_one-ran_with idx b ∙ ap (ran_with idx b) (counted-run_of idx)

  -- The block that starts with b and has visited some indices, once b' holds.
  abbrev HasVisited : List (List ℕ) → Sweep W S L → Sweep W S L → Type 0
  HasVisited visited b b' =
      (b'.runs ≡ b.runs ++ map run_of visited)
      × (b'.events ≡ b.events ++ map sent (collected visited b.world))
      × (b'.buffer ≡ [])

  abbrev after : Bool → List ℕ → Sweep W S L → Sweep W S L
  after f idx b =
      if f then sweep_one o d reads to_string k row_first slash working_dir sub_run idx b else b

  after-buffer :
      (f : Bool) (idx : List ℕ) (b : Sweep W S L) → b.buffer ≡ [] → (after f idx b).buffer ≡ []
  after-buffer true idx b e = ap (λ (q : Sweep W S L). q.buffer) (sweep_one-run_of idx b)
  after-buffer false idx b e = e

  HasVisited-after :
      (f : Bool) (idx : List ℕ) (visited : List (List ℕ)) (b b' : Sweep W S L)
      → b.buffer ≡ []
      → HasVisited visited (after f idx b) b'
      → HasVisited (if f then idx ∷ visited else visited) b b'
  unfolding collected
  HasVisited-after true idx visited b b' e (runs, events, buffer) =
      let s = sweep_one-run_of idx b in
      (
        runs
            ∙ ap (λ (q : Sweep W S L). q.runs ++ map run_of visited) s
            ∙ append_assoc b.runs (run_of idx ∷ []) (map run_of visited),
        events
            ∙ ap (λ (q : Sweep W S L). q.events ++ map sent (collected visited q.world)) s
            ∙ simp (e, append_assoc, map-append),
        buffer,
      )
  HasVisited-after false idx visited b b' e h = h

  -- `start` on the indices of a range.
  sweep_all-visits :
      (sum : List ℕ → ℕ) (xs : List (List ℕ)) (b : Sweep W S L)
      → b.buffer ≡ []
      → HasVisited
          (keep_if (λ idx. is_admitted o (sum idx)) xs)
          b
          (sweep_all o d reads to_string k row_first slash working_dir sub_run sum xs b)
  unfolding sweep_all collected
  sweep_all-visits sum [] b e = (sym (append-nil b.runs), sym (append-nil b.events), e)
  sweep_all-visits sum (idx ∷ xs) b e =
      let f = is_admitted o (sum idx) in
      HasVisited-after f idx (keep_if (λ idx. is_admitted o (sum idx)) xs) b
        (sweep_all o d reads to_string k row_first slash working_dir sub_run sum xs (after f idx b))
        e (sweep_all-visits sum xs (after f idx b) (after-buffer f idx b e))

  -- `start` of a block that holds no structures, for counts that are not negative and below
  -- 2 ^ 31 - 1, and where spl's range has just the indices between its bounds, each once, and its sum
  -- is that of `unsigned int`. The sub pipe is run for the indices of the range, in its order, whose
  -- sum, modulo 2 ^ 32, is at least one and not more than the limit. Among them is once each choice of
  -- one count for each species, from its least to its greatest, that has such a sum, and no other.
  -- Each run has the counts of its own index for the species in turn, and the directory of their
  -- name, or the working directory where there are no separate ones. All that the runs finish with
  -- is sent, in the order of the runs, and none is held.
  pub start-visits :
      (m : MultiIndices) (b : Sweep W S L)
      → IsLawful m (lower_bounds o.atom_ranges) (upper_bounds o.atom_ranges)
      → AreCounts o.atom_ranges
      → b.buffer ≡ []
      → let b' = start o d reads to_string k row_first slash working_dir sub_run m b in
        let visited =
          keep_if
            (has_room o)
            (m.range (lower_bounds o.atom_ranges) (upper_bounds o.atom_ranges)) in
        ((idx : List ℕ)
          → occurrences idx visited
            ≡ (if in_ranges o.atom_ranges idx && has_room o idx then 1 else 0))
        × (b'.runs ≡ b.runs ++ map run_of visited)
        × (b'.events ≡ b.events ++ map sent (collected visited b.world))
        × (b'.buffer ≡ [])
  unfolding start
  start-visits m b law counts e =
      let rs = o.atom_ranges in
      let xs = m.range (lower_bounds rs) (upper_bounds rs) in
      let (runs, events, buffer) = sweep_all-visits m.sum xs b e in
      let same : keep_if (λ idx. is_admitted o (m.sum idx)) xs ≡ keep_if (has_room o) xs =
        keep_if-same (λ idx. is_admitted o (m.sum idx)) (has_room o) xs
          (λ idx. ap (is_admitted o) (law.sums idx) ∙ admitted (total idx % 2 ^ 32)) in
      (
        λ idx.
            occurrences-keep_if (has_room o) idx xs
            ∙ chosen (has_room o idx) (in_ranges rs idx)
                (law.covers idx ∙ ap (λ q. if q then 1 else 0) (in_box-bounds rs idx counts)),
        runs ∙ ap (λ q. b.runs ++ map run_of q) same,
        events ∙ ap (λ q. b.events ++ map sent (collected q b.world)) same,
        buffer,
      )
    where
      admitted : (n : ℕ) → is_admitted o n ≡ (leb 1 n && leb n o.max_atoms)
      admitted n = unfold is_admitted in ground arith

      chosen :
          (room box : Bool) {n : ℕ}
          → n ≡ (if box then 1 else 0)
          → (if room then n else 0) ≡ (if box && room then 1 else 0)
      chosen room box e = ground (arith, e)
