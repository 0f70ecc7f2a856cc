-- ===== src/Blocks/LoadStructures/Entries.antt =====
-- What is read for each entry, and what is sent.
use structure_pipe.Base.{
  ℕ, ◌+◌, ◌≡◌, ◌≢◌, refl, sym, ap, ◌∙◌, Bool, true, false, ◌&&◌, ◌||◌, Option, none, some, List, [],
  ◌∷◌, ◌++◌, map, if◌then◌else◌, keep_if, All, Text, text, join, is_empty, arith, append_assoc,
  append-nil,
}
use structure_pipe.Pipe.{Event, sent}
use structure_pipe.PipeData.{GlobalData}
use structure_pipe.Blocks.Clone.{Structure}
use structure_pipe.Blocks.WriteStructures.{name_structure}
use structure_pipe.Blocks.WriteStructures.Session.{named, named_all, name_structure-named}
use structure_pipe.Blocks.LoadStructures.{
  Files, new_load_structures, get_lines, has_star, entry_type, read_paths, process_wildcard_entry,
  process_entry, process_entries, load_structures, pipeline_initialising, send_structures, start,
}

-- An entry is not empty, and has no line end.
abbrev pub IsEntry : Text → Type 0
IsEntry l = (is_empty l ≡ false) × All (λ c. c ≢ 10) l

get_lines-append : (l s : Text) → All (λ c. c ≢ 10) l → get_lines (l ++ 10 ∷ s) ≡ l ∷ get_lines s
unfolding get_lines
get_lines-append [] s h = refl
get_lines-append (c ∷ l) s h = ground (arith, h.0, get_lines-append l s h.1)

get_lines-last : (l : Text) → IsEntry l → get_lines l ≡ l ∷ []
unfolding get_lines is_empty
get_lines-last [] h = cc (h.0)
get_lines-last (c ∷ []) h = ground (arith, h.1.0)
get_lines-last (c ∷ c' ∷ l) h = ground (arith, h.1.0, get_lines-last (c' ∷ l) (refl, h.1.1))

get_lines-join : (ls : List Text) → All IsEntry ls → get_lines (join (text "\n") ls) ≡ ls
unfolding get_lines
get_lines-join [] h = refl
get_lines-join (l ∷ []) h = get_lines-last l h.0
get_lines-join (l ∷ l' ∷ ls) h =
    get_lines-append l (join (text "\n") (l' ∷ ls)) h.0.1
    ∙ ap (◌∷◌ l) (get_lines-join (l' ∷ ls) h.1)

module _ {Loc C : Type 0} (f : Files Loc C) where
  abbrev pub read_all : List Text → List (Structure C)
  read_all [] = []
  read_all (p ∷ ps) = f.read_structures (f.of_path p) ++ read_all ps

  -- What an entry stands for: the structures in the files that fit it, for a pattern with `*`; those
  -- of the file or folder, for the name of one; and else none.
  abbrev pub found_for : Text → List (Structure C)
  found_for entry =
      let place = f.path (f.set entry).0 in
      if has_star entry
      then elim (f.wildcard_paths entry) [
        | none ↦ []
        | some ps ↦ read_all (keep_if f.is_regular_file ps)
      ]
      else if (f.set entry).1
          && (f.exists place && (f.is_regular_file place || f.is_directory place))
      then f.read_structures (f.set entry).0
      else []

  abbrev pub found_for_all : List Text → List (Structure C)
  found_for_all [] = []
  found_for_all (entry ∷ entries) = found_for entry ++ found_for_all entries

  read_paths-read_all :
      (ps : List Text) (n : ℕ) (found : List (Structure C))
      → (read_paths f ps n found).0 ≡ found ++ read_all (keep_if f.is_regular_file ps)
  unfolding read_paths
  read_paths-read_all [] n found = sym (append-nil found)
  read_paths-read_all (p ∷ ps) n found = ground (
    arith,
    read_paths-read_all ps (n + 1) (found ++ f.read_structures (f.of_path p)),
    read_paths-read_all ps n found,
    append_assoc found (f.read_structures (f.of_path p)) (read_all (keep_if f.is_regular_file ps)),
  )

  wildcard-read_all :
      (entry : Text) (found : List (Structure C))
      → (process_wildcard_entry f entry found).0
        ≡ found ++ (elim (f.wildcard_paths entry) [
          | none ↦ []
          | some ps ↦ read_all (keep_if f.is_regular_file ps)
        ])
  unfolding process_wildcard_entry
  wildcard-read_all entry found = by_paths (f.wildcard_paths entry)
    where
      by_paths :
          (o : Option (List Text))
          → (let r : List (Structure C) × Option ℕ = elim o [
            | none ↦ (found, none)
            | some ps ↦ let (found', n) = read_paths f ps 0 found in (found', some n)
          ] in
              r.0)
            ≡ found ++ (elim o [ none ↦ [] | some ps ↦ read_all (keep_if f.is_regular_file ps) ])
      by_paths none = sym (append-nil found)
      by_paths (some ps) = read_paths-read_all ps 0 found

  process_entry-found_for :
      (entry : Text) (found : List (Structure C))
      → (process_entry f entry found).0 ≡ found ++ found_for entry
  unfolding process_entry entry_type
  process_entry-found_for entry found =
      ground (arith, wildcard-read_all entry found, append-nil found)

  process_entries-found_for_all :
      (entries : List Text) (found : List (Structure C))
      → process_entries f entries found ≡ found ++ found_for_all entries
  unfolding process_entries
  process_entries-found_for_all [] found = sym (append-nil found)
  process_entries-found_for_all (entry ∷ entries) found =
      process_entries-found_for_all entries (process_entry f entry found).0
      ∙ ap (λ q. q ++ found_for_all entries) (process_entry-found_for entry found)
      ∙ append_assoc found (found_for entry) (found_for_all entries)

module _ {V C : Type 0} (unique : ℕ → Text) (global : GlobalData V) where
  send_structures-named_all :
      (ss : List (Structure C)) (made : ℕ)
      → send_structures unique global ss made
        ≡ (map sent (named_all unique global ss made).0, (named_all unique global ss made).1)
  unfolding send_structures name_structure is_empty
  send_structures-named_all [] made = refl
  send_structures-named_all (s ∷ ss) made =
      let (s', made') = named unique global s.name s made in
      ap
        (λ (q : Structure C × ℕ).
          let r = send_structures unique global ss q.1 in (sent q.0 ∷ r.0, r.1))
        (name_structure-named unique global s made)
      ∙ ap (λ (r : List (Event (Structure C)) × ℕ). (sent s' ∷ r.0, r.1))
          (send_structures-named_all ss made')

  -- A new block whose text is entries, one to a line, each not empty. When the pipe is initialised
  -- and started, the block sends the structures that the entries stand for, in their order: the
  -- structures in the files that fit a pattern with `*`, or those of the file or folder that an entry
  -- names. One without a name has the next name that is made. Another initialisation of the pipe
  -- changes nothing.
  pub start-new_load_structures :
      {Loc : Type 0} (f : Files Loc C) (ls : List Text) (made : ℕ)
      → All IsEntry ls
      → let b = pipeline_initialising f (new_load_structures (join (text "\n") ls)) in
        let named = named_all unique global (found_for_all f ls) made in
        (start unique global b made ≡ (map sent named.0, named.1)) × (pipeline_initialising f b ≡ b)
  unfolding start pipeline_initialising load_structures new_load_structures is_empty
  start-new_load_structures f ls made h =
      let seed = join (text "\n") ls in
      let e =
        ap (λ q. process_entries f q []) (get_lines-join ls h)
        ∙ process_entries-found_for_all f ls [] in
      (
        send_structures-named_all (process_entries f (get_lines seed) []) made
            ∙ ap
                (λ q.
                  (map sent (named_all unique global q made).0, (named_all unique global q made).1))
                e,
        either (is_empty (process_entries f (get_lines seed) [])) _,
      )
    where
      either : {A : Type 0} (b : Bool) (x : A) → (if b then x else x) ≡ x
      either true x = refl
      either false x = refl
