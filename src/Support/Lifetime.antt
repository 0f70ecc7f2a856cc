-- ===== src/Support/Lifetime.antt =====
-- The engine that a support is registered with, and the writes of a run.
use structure_pipe.Base.{
  ℕ, ◌≡◌, refl, sym, ap, ◌∙◌, inl, inr, Bool, true, false, Option, none, some, List, [], ◌∷◌, ◌++◌,
  if◌then◌else◌, ◌==◌, Text, text_eq, is_empty, arith, append_assoc, Bool-cases, Option-cases,
}
use structure_pipe.Table.{DataTable, new_table, clear}
use structure_pipe.Support.{
  PipelineState, running, finished, other_state, is_running, DataTableSupport, without,
  deregister_engine, register_engine, create_writer, write_table, set_filename, notify_state,
  notify_destroyed,
}

abbrev pub engines : Option ℕ → List ℕ
engines none = []
engines (some e) = e ∷ []

-- The support listens to the engine that it is registered with, and to no other.
abbrev pub IsRegistered : {W : Type 0} → DataTableSupport W → Type 0
IsRegistered s = s.listening ≡ engines s.engine

-- What the engine and the block call.
pub data Call : Type 0 where
  registers : ℕ → Call
  deregisters : Call
  renames : PipelineState → Text → Call
  changes_state : PipelineState → Call
  destroys : ℕ → Call

module _ {W : Type 0} (new_writer : Text → W) where
  abbrev pub step : Call → DataTableSupport W → DataTableSupport W
  unfolding deregister_engine
  step (registers e) s = register_engine new_writer e s
  step deregisters s = (deregister_engine new_writer s).0
  step (renames state filename) s = set_filename new_writer state filename s
  step (changes_state state) s = notify_state new_writer state s
  step (destroys e) s = notify_destroyed new_writer e s

  -- The engine and where it is known are left as they are.
  abbrev SameEngine : DataTableSupport W → DataTableSupport W → Type 0
  SameEngine s s' = (s'.engine ≡ s.engine) × (s'.listening ≡ s.listening)

  create_writer-SameEngine : (s : DataTableSupport W) → SameEngine s (create_writer new_writer s).0
  unfolding create_writer
  create_writer-SameEngine s = elim (Bool-cases (is_empty s.filename)) [
    | inl e ↦ rw e (refl, refl)
    | inr e ↦ rw e (refl, refl)
  ]

  write_table-SameEngine : (s : DataTableSupport W) → SameEngine s (write_table new_writer s)
  unfolding write_table
  write_table-SameEngine s = elim (Option-cases s.writer) [
    | inl e ↦ rw (e, write_table) (refl, refl)
    | inr (w, e) ↦ rw (e, write_table) (refl, refl)
  ]

  SameEngine-trans : (s t u : DataTableSupport W) → SameEngine s t → SameEngine t u → SameEngine s u
  SameEngine-trans s t u p q = (q.0 ∙ p.0, q.1 ∙ p.1)

  renamed-SameEngine :
      (state : PipelineState) (f : Text) (s : DataTableSupport W)
      → SameEngine s (set_filename new_writer state f s)
  unfolding set_filename
  renamed-SameEngine state f s = elim (Bool-cases (text_eq s.filename f)) [
    | inl e ↦ rw e (refl, refl)
    | inr e ↦ rw e (by_engine s.engine)
  ]
    where
      s1 : DataTableSupport W
      s1 = record s { filename = f }

      by_state :
          (b : Bool)
          → SameEngine s
              (if b then (create_writer new_writer (write_table new_writer s1)).0 else s1)
      by_state true =
          SameEngine-trans s1 (write_table new_writer s1)
            (create_writer new_writer (write_table new_writer s1)).0 (write_table-SameEngine s1)
            (create_writer-SameEngine (write_table new_writer s1))
      by_state false = (refl, refl)

      by_engine :
          (o : Option ℕ)
          → SameEngine s (elim o [
            | none ↦ s1
            | some e ↦
                if is_running state
                then (create_writer new_writer (write_table new_writer s1)).0
                else s1
          ])
      by_engine none = (refl, refl)
      by_engine (some a) = by_state (is_running state)

  notified-SameEngine :
      (state : PipelineState) (s : DataTableSupport W)
      → SameEngine s (notify_state new_writer state s)
  unfolding notify_state
  notified-SameEngine running s = create_writer-SameEngine s
  notified-SameEngine finished s = by_clear (write_table new_writer s).clear_table_on_pipe_finish
    where
      by_clear :
          (b : Bool)
          → SameEngine s (
              if b
              then record (write_table new_writer s) {
                table = clear (write_table new_writer s).table;
              }
              else write_table new_writer s)
      by_clear true = write_table-SameEngine s
      by_clear false = write_table-SameEngine s
  notified-SameEngine other_state s = (refl, refl)

  SameEngine-IsRegistered :
      (s s' : DataTableSupport W) → SameEngine s s' → IsRegistered s → IsRegistered s'
  SameEngine-IsRegistered s s' p h = p.1 ∙ h ∙ ap engines (sym p.0)

  without_only : (a : ℕ) → without a (a ∷ []) ≡ []
  unfolding without
  without_only a = ground arith

  deregistered :
      (s : DataTableSupport W)
      → IsRegistered s
      → let r = (deregister_engine new_writer s).0 in (r.engine ≡ none) × (r.listening ≡ [])
  unfolding deregister_engine
  deregistered s h = by_engine s.engine refl h
    where
      by_engine :
          (o : Option ℕ)
          → s.engine ≡ o
          → s.listening ≡ engines o
          → let r : DataTableSupport W × Bool = elim o [
            | none ↦ (s, false)
            | some e ↦ (record s { engine = none; listening = without e s.listening }, true)
          ] in
            (r.0.engine ≡ none) × (r.0.listening ≡ [])
      by_engine none e l = (e, l)
      by_engine (some a) e l = (refl, ap (without a) l ∙ without_only a)

  destroyed-IsRegistered :
      (d : ℕ) (s : DataTableSupport W)
      → IsRegistered s
      → IsRegistered (notify_destroyed new_writer d s)
  unfolding notify_destroyed without
  destroyed-IsRegistered d s h = by_engine s.engine refl h
    where
      s1 : DataTableSupport W
      s1 = record s { listening = without d s.listening }

      by_engine :
          (o : Option ℕ)
          → s.engine ≡ o
          → s.listening ≡ engines o
          → IsRegistered
              (elim o [ none ↦ s1 | some e ↦ if e == d then record s1 { engine = none } else s1 ])
      by_engine none e l = ap (without d) l ∙ ap engines (sym e)
      by_engine (some a) e l = elim (Bool-cases (a == d)) [
        | inl t ↦ rw t (ap (without d) l ∙ ground (arith, t))
        | inr t ↦ rw t (ap (without d) l ∙ ground (arith, t) ∙ ap engines (sym e))
      ]

  step-IsRegistered : (c : Call) (s : DataTableSupport W) → IsRegistered s → IsRegistered (step c s)
  unfolding step register_engine without
  step-IsRegistered (registers e) s h = ap (λ q. e ∷ without e q) (deregistered s h).1
  step-IsRegistered deregisters s h = (deregistered s h).1 ∙ ap engines (sym (deregistered s h).0)
  step-IsRegistered (renames state filename) s h =
      SameEngine-IsRegistered s (set_filename new_writer state filename s)
        (renamed-SameEngine state filename s) h
  step-IsRegistered (changes_state state) s h =
      SameEngine-IsRegistered s (notify_state new_writer state s) (notified-SameEngine state s) h
  step-IsRegistered (destroys e) s h = destroyed-IsRegistered e s h

  unfoldable pub run : List Call → DataTableSupport W → DataTableSupport W
  unfolding step
  run [] s = s
  run (c ∷ cs) s = run cs (step c s)

  -- Whatever is called on a support that listens to the engine it is registered with and no other,
  -- in whatever order, that stays so: after another registration it does not listen to the old
  -- engine, and it does not point to an engine that was destroyed.
  pub run-IsRegistered :
      (cs : List Call) (s : DataTableSupport W) → IsRegistered s → IsRegistered (run cs s)
  unfolding run
  run-IsRegistered [] s h = h
  run-IsRegistered (c ∷ cs) s h = run-IsRegistered cs (step c s) (step-IsRegistered c s h)

  created :
      (s : DataTableSupport W)
      → is_empty s.filename ≡ false
      → (create_writer new_writer s).0 ≡ record s { writer = some (new_writer s.filename) }
  unfolding create_writer
  created s a = rw (a, create_writer) refl

  renamed_running :
      (s : DataTableSupport W) (w : W) (e : ℕ) (f : Text)
      → is_empty f ≡ false
      → text_eq s.filename f ≡ false
      → s.engine ≡ some e
      → s.writer ≡ some w
      → set_filename new_writer running f s ≡ record s {
        filename = f;
        writer = some (new_writer f);
        written = s.written ++ (w, s.table) ∷ [];
      }
  unfolding set_filename is_running write_table
  renamed_running s w e f a b h v =
      let s1 : DataTableSupport W = record s {
        filename = f;
        written = s.written ++ (w, s.table) ∷ [];
      } in
      rw b (by_engine s.engine h)
    where
      s0 : DataTableSupport W
      s0 = record s { filename = f }

      by_writer :
          (o : Option W)
          → o ≡ some w
          → (elim o [
            | none ↦ s0
            | some q ↦ record s0 { written = s0.written ++ (q, s0.table) ∷ [] }
          ])
            ≡ record s0 { written = s.written ++ (w, s.table) ∷ [] }
      by_writer none q = cc
      by_writer (some u) q = ap (λ z. record s0 { written = s.written ++ (z, s.table) ∷ [] }) (cc q)

      by_engine :
          (o : Option ℕ)
          → o ≡ some e
          → (elim o [
            | none ↦ s0
            | some q ↦ (create_writer new_writer (write_table new_writer s0)).0
          ])
            ≡ record s {
              filename = f;
              writer = some (new_writer f);
              written = s.written ++ (w, s.table) ∷ [];
            }
      by_engine none q = cc
      by_engine (some u) q =
          ap (λ z. (create_writer new_writer z).0) (by_writer s.writer v)
          ∙ created (record s0 { written = s.written ++ (w, s.table) ∷ [] }) a

  -- A run of the engine in which the file is renamed once, of a support that is registered with
  -- an engine, for file names that are not empty and differ: when the engine has finished, the
  -- table as it was at the change was written to the first file and the table as it was at the
  -- end to the second, and nothing else was written; then the table is cleared just if the
  -- support is so configured.
  pub run-written :
      (s : DataTableSupport W) (e : ℕ) (f : Text) (t1 t2 : DataTable)
      → s.engine ≡ some e
      → is_empty s.filename ≡ false
      → is_empty f ≡ false
      → text_eq s.filename f ≡ false
      → let s1 = notify_state new_writer running s in
        let s2 = set_filename new_writer running f (record s1 { table = t1 }) in
        let s3 = notify_state new_writer finished (record s2 { table = t2 }) in
        (s3.written ≡ s.written ++ (new_writer s.filename, t1) ∷ (new_writer f, t2) ∷ [])
        × (s3.table ≡ (if s.clear_table_on_pipe_finish then new_table else t2))
  unfolding notify_state write_table clear
  run-written s e f t1 t2 h a b c =
      let w = new_writer s.filename in
      let s1 : DataTableSupport W = record s { writer = some w; table = t1 } in
      let e1 : (record (create_writer new_writer s).0 { table = t1 }) ≡ s1 =
        ap (λ (q : DataTableSupport W). record q { table = t1 }) (created s a) in
      let e2 = renamed_running s1 w e f b c h refl in
      let e3 = ap (set_filename new_writer running f) e1 ∙ e2 in
      let e4 =
        ap (λ (q : DataTableSupport W). notify_state new_writer finished (record q { table = t2 }))
          e3 in
      let last : DataTableSupport W = record s1 {
        filename = f;
        table = t2;
        writer = some (new_writer f);
        written = (s.written ++ (w, t1) ∷ []) ++ (new_writer f, t2) ∷ [];
      } in
      (
        ap (λ q. q.written) e4
            ∙ written_either s.clear_table_on_pipe_finish (record last { table = new_table }) last
                refl
            ∙ append_assoc s.written _ _,
        ap (λ q. q.table) e4
            ∙ table_either s.clear_table_on_pipe_finish (record last { table = new_table }) last,
      )
    where
      written_either :
          (either : Bool) (x y : DataTableSupport W)
          → x.written ≡ y.written
          → (if either then x else y).written ≡ y.written
      written_either true x y q = q
      written_either false x y q = refl

      table_either :
          (either : Bool) (x y : DataTableSupport W)
          → (if either then x else y).table ≡ (if either then x.table else y.table)
      table_either true x y = refl
      table_either false x y = refl
