-- ===== src/Blocks/GeomOptimise/Outcomes.antt =====
-- What becomes of a structure, and what the table says of it.
use structure_pipe.Base.{
  ℕ, ◌≡◌, refl, sym, ap, ◌∙◌, Bool, true, false, ◌&&◌, ◌||◌, Option, none, some, List, [], ◌∷◌,
  if◌then◌else◌, Text, text, text_eq, decimal, subst,
}
use structure_pipe.Factory.{FailAction, drop_structure, continue_pipe}
use structure_pipe.Pipe.{Event, sent, dropped, Doubles}
use structure_pipe.Table.{Listener, Listened}
use structure_pipe.Table.Valid.{IsValid}
use structure_pipe.Table.Cells.{cell}
use structure_pipe.Support.{put}
use structure_pipe.Support.Row.{written_last, put_all, cell-put_all}
use structure_pipe.Blocks.GeomOptimise.{
  Optimised, Optimiser, OptimisedReads, GeomOptimise, continues, update_table, with_params, take_in,
}

either : {A : Type 0} (b : Bool) (x : A) → x ≡ (if b then x else x)
either true x = refl
either false x = refl

module _ {S D L : Type 0} (d : Doubles D) (reads : OptimisedReads S D) (to_string : D → Text)
    (k : Listener L) (row_first : Bool) where
  -- The energies of a structure that has one, and the number of iterations, if it is known.
  abbrev pub optimised_cells : ℕ → Option D → Option ℕ → List (Text × Text)
  optimised_cells atoms none num_iters = []
  optimised_cells atoms (some e) none =
      (text "energy", to_string e)
      ∷ (text "energy/atom", to_string (d.div e (d.of_count atoms)))
      ∷ []
  optimised_cells atoms (some e) (some n) =
      (text "energy", to_string e)
      ∷ (text "energy/atom", to_string (d.div e (d.of_count atoms)))
      ∷ (text "iters", decimal n)
      ∷ []

  abbrev pub cells_of : S → Option ℕ → List (Text × Text)
  cells_of s num_iters = optimised_cells (reads.num_atoms s) (reads.energy s) num_iters

  update_table-put_all :
      (s : S) (num_iters : Option ℕ) (t : Listened L)
      → update_table d reads to_string k row_first s num_iters t
        ≡ put_all k row_first decimal (reads.name s) (cells_of s num_iters) t
  unfolding update_table put_all
  update_table-put_all s num_iters t = by_energy (reads.energy s) num_iters
    where
      here : Text → Text → Listened L → Listened L
      here column value q = put k row_first decimal (reads.name s) column value q

      by_energy :
          (o : Option D) (num_iters : Option ℕ)
          → (elim o [
            | none ↦ t
            | some e ↦
                let t1 = here (text "energy") (to_string e) t in
                let t2 =
                  here
                    (text "energy/atom")
                    (to_string (d.div e (d.of_count (reads.num_atoms s))))
                    t1 in
                elim num_iters [ none ↦ t2 | some n ↦ here (text "iters") (decimal n) t2 ]
          ])
            ≡ put_all k row_first decimal
                (reads.name s)
                (optimised_cells (reads.num_atoms s) o num_iters)
                t
      by_energy none num_iters = refl
      by_energy (some e) none = refl
      by_energy (some e) (some n) = refl

  cell-update_table :
      (s : S) (num_iters : Option ℕ) (t : Listened L)
      → IsValid t.table
      → let t' = update_table d reads to_string k row_first s num_iters t in
        IsValid t'.table
        × ((r c : Text)
            → cell t'.table r c ≡ (
                if text_eq (reads.name s) r
                then written_last (cells_of s num_iters) c (cell t.table r c)
                else cell t.table r c))
  cell-update_table s num_iters t w =
      let e = update_table-put_all s num_iters t in
      let (valid, cells) =
        cell-put_all k row_first decimal (reads.name s) (cells_of s num_iters) t w in
      (
        subst (λ (q : Listened L). IsValid q.table) (sym e) valid,
        λ r c. ap (λ (q : Listened L). cell q.table r c) e ∙ cells r c,
      )

  passed_on :
      (s : S) (num_iters : Option ℕ) (t : Listened L)
      → IsValid t.table
      → (goes_on summary : Bool)
      → let r : Listened L × List (Event S) =
          if goes_on
          then (
            if summary then update_table d reads to_string k row_first s num_iters t else t,
            sent s ∷ [],
          )
          else (t, dropped s ∷ []) in
        (r.1 ≡ (if goes_on then sent s else dropped s) ∷ [])
        × IsValid r.0.table
        × ((key c : Text)
            → cell r.0.table key c ≡ (
                if text_eq (reads.name s) key
                then written_last
                    (if goes_on && summary then cells_of s num_iters else [])
                    c
                    (cell t.table key c)
                else cell t.table key c))
  passed_on s num_iters t w true true =
      let (valid, cells) = cell-update_table s num_iters t w in (refl, valid, cells)
  passed_on s num_iters t w true false =
      (refl, w, λ key c. either (text_eq (reads.name s) key) (cell t.table key c))
  passed_on s num_iters t w false summary =
      (refl, w, λ key c. either (text_eq (reads.name s) key) (cell t.table key c))

  -- Whether a structure is sent on, of the fail action and the success.
  abbrev pub goes_on : FailAction → Bool → Bool
  goes_on continue_pipe success = true
  goes_on drop_structure success = success

  -- A structure with parameters, if the optimiser has a potential and that one has parameters.
  abbrev pub prepared : (has_potential is_parameterisable : Bool) → S → S → S
  prepared true true with_them s = with_them
  prepared true false with_them s = s
  prepared false is_parameterisable with_them s = s

  with_params-prepared :
      {O B : Type 0} (m : Optimiser O S B) (o : O) (s : S)
      → with_params reads m o s
        ≡ prepared m.has_potential m.is_parameterisable
            (reads.set_potential_params (m.get_params o) s)
            s
  unfolding with_params
  with_params-prepared m o s = by_flags m.has_potential m.is_parameterisable
    where
      by_flags :
          (p q : Bool)
          → (if p && q then reads.set_potential_params (m.get_params o) s else s)
            ≡ prepared p q (reads.set_potential_params (m.get_params o) s) s
      by_flags true true = refl
      by_flags true false = refl
      by_flags false q = refl

  continues-goes_on :
      (a : FailAction) (success : Bool) → (success || continues a) ≡ goes_on a success
  unfolding continues
  continues-goes_on drop_structure true = refl
  continues-goes_on drop_structure false = refl
  continues-goes_on continue_pipe true = refl
  continues-goes_on continue_pipe false = refl

  -- What `in` makes of the result of the optimiser.
  abbrev outcome : Listened L → Bool → Optimised S → Bool → Listened L × List (Event S)
  outcome t summary result on =
      if on
      then (
        if summary
            then update_table d reads to_string k row_first result.structure result.num_iters t
            else t,
        sent result.structure ∷ [],
      )
      else (t, dropped result.structure ∷ [])

  take_in-prepared :
      {O B W : Type 0} (m : Optimiser O S B) (b : GeomOptimise O W) (s0 : S) (t : Listened L)
      → let ready =
          prepared m.has_potential m.is_parameterisable
            (reads.set_potential_params (m.get_params b.optimiser) s0)
            s0 in
        let result = m.optimise ready b.optimiser in
        take_in d reads to_string k row_first m b s0 t
        ≡ outcome t b.settings.write_summary result
            (goes_on b.settings.fail_action result.is_success)
  unfolding take_in
  take_in-prepared m b s0 t =
      ap
        (λ ready.
          let result = m.optimise ready b.optimiser in
          outcome t b.settings.write_summary result
            (result.is_success || continues b.settings.fail_action))
        (with_params-prepared m b.optimiser s0)
      ∙ (let ready =
            prepared m.has_potential m.is_parameterisable
              (reads.set_potential_params (m.get_params b.optimiser) s0) s0 in
          let result = m.optimise ready b.optimiser in
          ap (outcome t b.settings.write_summary result)
            (continues-goes_on b.settings.fail_action result.is_success))

  -- `in`, on a valid table: the structure, with the parameters of a potential that has some, is
  -- optimised. If that succeeds, or the block is to continue after a failure, the structure is sent
  -- on; its energy, its energy per atom and the number of iterations, as far as they are known, are
  -- written into its row if a summary is wanted. Else it is dropped. No other cell is changed, and
  -- the table stays valid.
  pub take_in-outcome :
      {O B W : Type 0} (m : Optimiser O S B) (b : GeomOptimise O W) (s0 : S) (t : Listened L)
      → IsValid t.table
      → let ready =
          prepared m.has_potential m.is_parameterisable
            (reads.set_potential_params (m.get_params b.optimiser) s0)
            s0 in
        let result = m.optimise ready b.optimiser in
        let s = result.structure in
        let on = goes_on b.settings.fail_action result.is_success in
        let (t', events) = take_in d reads to_string k row_first m b s0 t in
        (events ≡ (if on then sent s else dropped s) ∷ [])
        × IsValid t'.table
        × ((r c : Text)
            → cell t'.table r c ≡ (
                if text_eq (reads.name s) r
                then written_last
                    (if on && b.settings.write_summary then cells_of s result.num_iters else [])
                    c
                    (cell t.table r c)
                else cell t.table r c))
  take_in-outcome m b s0 t w =
      let ready =
        prepared m.has_potential m.is_parameterisable
          (reads.set_potential_params (m.get_params b.optimiser) s0) s0 in
      let result = m.optimise ready b.optimiser in
      let s = result.structure in
      let on = goes_on b.settings.fail_action result.is_success in
      subst
        (λ (q : Listened L × List (Event S)).
          (q.1 ≡ (if on then sent s else dropped s) ∷ [])
          × IsValid q.0.table
          × ((r c : Text)
              → cell q.0.table r c ≡ (
                  if text_eq (reads.name s) r
                  then written_last
                      (if on && b.settings.write_summary then cells_of s result.num_iters else []) c
                      (cell t.table r c)
                  else cell t.table r c)))
        (sym (take_in-prepared m b s0 t))
        (passed_on s result.num_iters t w on b.settings.write_summary)
