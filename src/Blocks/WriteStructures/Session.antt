-- ===== src/Blocks/WriteStructures/Session.antt =====
-- What becomes of the structures between the start and the end of a pipe.
use structure_pipe.Base.{
  ℕ, ◌+◌, ◌≡◌, refl, sym, ap, ◌∙◌, Option, none, some, List, [], ◌∷◌, ◌++◌, map, if◌then◌else◌,
  Text, is_empty, text, append_assoc,
}
use structure_pipe.Pipe.{Event, sent}
use structure_pipe.PipeData.{SharedData, GlobalData, generate_structure_name}
use structure_pipe.Blocks.Clone.{Structure}
use structure_pipe.Blocks.WriteStructures.{
  WriteStructures, disabled, use_custom_writer, use_default_writer, Manager, WriteCall, is_custom,
  has, pipeline_starting, find_writer, name_structure, save_path, generate_locator, take_in,
}

abbrev pub Results : Type 0 → Type 0
Results C = List (Event (Structure C)) × ℕ × List (WriteCall C)

-- A name that spl makes, behind that of the seed, if there is one.
abbrev pub new_name : Text → Text → Text
new_name [] made_name = made_name
new_name (c ∷ seed) made_name = (c ∷ seed) ++ (text "-" ++ made_name)

generate_structure_name-new_name :
    {V : Type 0} (made_name : Text) (global : GlobalData V)
    → generate_structure_name made_name global ≡ new_name global.seed_name made_name
unfolding generate_structure_name is_empty
generate_structure_name-new_name made_name global = by_seed global.seed_name
  where
    by_seed :
        (seed : Text)
        → (if is_empty seed then seed else seed ++ text "-") ++ made_name ≡ new_name seed made_name
    by_seed [] = refl
    by_seed (c ∷ seed) = append_assoc (c ∷ seed) (text "-") made_name

module _ {V C : Type 0} (unique : ℕ → Text) (global : GlobalData V) where
  -- A structure with this name: a structure without one is given the next that is made.
  abbrev pub named : Text → Structure C → ℕ → Structure C × ℕ
  named [] s made = (record s { name = new_name global.seed_name (unique made) }, made + 1)
  named (c ∷ cs) s made = (s, made)

  -- The structures with names, and the number of names that are made.
  abbrev pub named_all : List (Structure C) → ℕ → List (Structure C) × ℕ
  named_all [] made = ([], made)
  named_all (s ∷ ss) made =
      let (s', made') = named s.name s made in
      let (ss', made'') = named_all ss made' in (s' ∷ ss', made'')

  pub name_structure-named :
      (s : Structure C) (made : ℕ) → name_structure unique global s made ≡ named s.name s made
  unfolding name_structure is_empty
  name_structure-named s made = by_name s.name
    where
      by_name :
          (name : Text)
          → (if is_empty name
              then (record s { name = generate_structure_name (unique made) global }, made + 1)
              else (s, made))
            ≡ named name s made
      by_name [] =
          ap (λ q. (record s { name = q }, made + 1))
            (generate_structure_name-new_name (unique made) global)
      by_name (c ∷ cs) = refl

module _ {Wr : Type 0} (m : Manager Wr) where
  -- The writer of the file type of the block, with the type, or else the default writer.
  abbrev pub chosen : WriteStructures → Option (Wr × Option Text)
  chosen b =
      let typed : Option Wr = if is_empty b.file_type then none else m.get_writer b.file_type in
      elim typed [
        | some w ↦ some (w, some b.file_type)
        | none ↦ elim m.get_default_writer [ some w ↦ some (w, none) | none ↦ none ]
      ]

  StartsWith : WriteStructures → Option (Wr × Option Text) → Type 0
  StartsWith b none = find_writer m b b.state ≡ none
  StartsWith b (some (w, type)) =
      (find_writer m b b.state ≡ some w)
      × ((if is_custom b.state then some b.file_type else none) ≡ type)

  StartsWith-chosen : (b : WriteStructures) → StartsWith (pipeline_starting m b) (chosen b)
  unfolding StartsWith pipeline_starting find_writer is_custom has is_empty
  StartsWith-chosen b = by_type b.file_type
    where
      by_default :
          (t : Text) (o : Option Wr)
          → o ≡ m.get_default_writer
          → StartsWith
              (if has o
                then record b { state = use_default_writer; file_type = t }
                else record b { state = disabled; file_type = t })
              (elim o [ some w ↦ some (w, none) | none ↦ none ])
      by_default t none e = refl
      by_default t (some w) e = (sym e, refl)

      by_writer :
          (t : Text) (o : Option Wr)
          → o ≡ m.get_writer t
          → StartsWith
              (if has o
                then record b { state = use_custom_writer; file_type = t }
                else if has m.get_default_writer
                then record b { state = use_default_writer; file_type = t }
                else record b { state = disabled; file_type = t })
              (elim o [
                | some w ↦ some (w, some t)
                | none ↦ elim m.get_default_writer [ some w ↦ some (w, none) | none ↦ none ]
              ])
      by_writer t none e = by_default t m.get_default_writer refl
      by_writer t (some w) e = (sym e, refl)

      by_type :
          (t : Text)
          → StartsWith
              (pipeline_starting m (record b { file_type = t }))
              (chosen (record b { file_type = t }))
      by_type [] = by_default [] m.get_default_writer refl
      by_type (x ∷ t) = by_writer (x ∷ t) (m.get_writer (x ∷ t)) refl

  module _ {V C : Type 0} (unique : ℕ → Text) (slash : Text → Text → Text) (working_dir : Text)
      (shared : SharedData V) (global : GlobalData V) where
    pub take_all : WriteStructures → List (Structure C) → ℕ → Results C
    take_all b [] made = ([], made, [])
    take_all b (s ∷ ss) made =
        let (events, made', written) = take_in m unique slash working_dir shared global b s made in
        let (events', made'', written') = take_all b ss made' in
        (events ++ events', made'', written ++ written')

    -- The call that writes a structure under its name.
    abbrev pub written_as : WriteStructures → Wr → Option Text → Structure C → WriteCall C
    written_as b w type s = record {
      structure = s;
      location = record {
        path = save_path m slash working_dir shared global b s.name w;
        id = s.name;
      };
      as_type = type;
    }

    take_in-none :
        (b : WriteStructures) (s : Structure C) (made : ℕ)
        → find_writer m b b.state ≡ none
        → take_in m unique slash working_dir shared global b s made ≡ (sent s ∷ [], made, [])
    unfolding take_in
    take_in-none b s made e = rw (e, take_in) refl

    take_in-some :
        (b : WriteStructures) (w : Wr) (type : Option Text) (s : Structure C) (made : ℕ)
        → find_writer m b b.state ≡ some w
        → (if is_custom b.state then some b.file_type else none) ≡ type
        → let (s', made') = named unique global s.name s made in
          take_in m unique slash working_dir shared global b s made
          ≡ (sent s' ∷ [], made', written_as b w type s' ∷ [])
    unfolding take_in generate_locator
    take_in-some b w type s made e f =
        rw (e, take_in)
          (ap
              (λ (t : Option Text).
                let (s', made') = name_structure unique global s made in
                (sent s' ∷ [], made', written_as b w t s' ∷ []))
              f
            ∙ ap (λ (r : Structure C × ℕ). (sent r.0 ∷ [], r.1, written_as b w type r.0 ∷ []))
                (name_structure-named unique global s made))

    take_all-none :
        (b : WriteStructures) (ss : List (Structure C)) (made : ℕ)
        → find_writer m b b.state ≡ none
        → take_all b ss made ≡ (map sent ss, made, [])
    unfolding take_all
    take_all-none b [] made e = refl
    take_all-none b (s ∷ ss) made e =
        ap
          (λ r. (r.0 ++ (take_all b ss r.1).0, (take_all b ss r.1).1, r.2 ++ (take_all b ss r.1).2))
          (take_in-none b s made e)
        ∙ ap (λ (r : Results C). (sent s ∷ r.0, r.1, r.2)) (take_all-none b ss made e)

    take_all-some :
        (b : WriteStructures) (w : Wr) (type : Option Text) (ss : List (Structure C)) (made : ℕ)
        → find_writer m b b.state ≡ some w
        → (if is_custom b.state then some b.file_type else none) ≡ type
        → take_all b ss made ≡ (
          map sent (named_all unique global ss made).0,
          (named_all unique global ss made).1,
          map (written_as b w type) (named_all unique global ss made).0,
        )
    unfolding take_all
    take_all-some b w type [] made e f = refl
    take_all-some b w type (s ∷ ss) made e f =
        let (s', made') = named unique global s.name s made in
        ap
          (λ r. (r.0 ++ (take_all b ss r.1).0, (take_all b ss r.1).1, r.2 ++ (take_all b ss r.1).2))
          (take_in-some b w type s made e f)
        ∙ ap (λ (r : Results C). (sent s' ∷ r.0, r.1, written_as b w type s' ∷ r.2))
            (take_all-some b w type ss made' e f)

    -- Whatever structures pass after the start of the pipe: each is sent on once, in order. If the
    -- manager has a writer for the file type of the block, or else a default writer, each is written
    -- once by that writer, as it is sent on and under its name; a structure without a name was given
    -- the next name, and every other keeps its own. If it has neither, no structure is changed or
    -- written.
    pub take_all-pipeline_starting :
        (b : WriteStructures) (ss : List (Structure C)) (made : ℕ)
        → let b' = pipeline_starting m b in
          let named = named_all unique global ss made in
          take_all b' ss made ≡ (elim (chosen b) [
            | none ↦ (map sent ss, made, [])
            | some (w, type) ↦ (map sent named.0, named.1, map (written_as b' w type) named.0)
          ])
    unfolding StartsWith
    take_all-pipeline_starting b ss made = by_chosen (chosen b) (StartsWith-chosen b)
      where
        by_chosen :
            (c : Option (Wr × Option Text))
            → StartsWith (pipeline_starting m b) c
            → let named = named_all unique global ss made in
              take_all (pipeline_starting m b) ss made ≡ (elim c [
                | none ↦ (map sent ss, made, [])
                | some (w, type) ↦ (
                  map sent named.0,
                  named.1,
                  map (written_as (pipeline_starting m b) w type) named.0,
                )
              ])
        by_chosen none h = take_all-none (pipeline_starting m b) ss made h
        by_chosen (some (w, type)) h = take_all-some (pipeline_starting m b) w type ss made h.0 h.1
