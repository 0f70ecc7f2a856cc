-- ===== src/PipeData/Parameters.antt =====
-- The parameters under the tags.
use structure_pipe.Base.{
  ◌≡◌, refl, inl, inr, Bool, true, false, Option, none, some, List, if◌then◌else◌, Text, text_eq,
  is_empty, Bool-cases,
}
use structure_pipe.Base.Assoc.{lookup, lookup-assign, lookup-erase}
use structure_pipe.PipeData.{GlobalData, set_parameters, update_parameterisable}

module _ {V O : Type 0} (set_params : List Text → O → O × Bool) where
  -- After `setParameters` an object that is updated by the same tag gets those parameters, and
  -- what `setParams` answers is returned; if they are none, the object is left as it is and `false`
  -- is returned. For every other tag the update is what it was. An update without a tag does nothing.
  pub update_parameterisable-set_parameters :
      (tag t : Text) (params : List Text) (g : GlobalData V) (o : O)
      → update_parameterisable set_params t (set_parameters tag params g) o ≡ (
          if is_empty t
          then (o, false)
          else if text_eq tag t
          then if is_empty params then (o, false) else set_params params o
          else update_parameterisable set_params t g o)
  unfolding update_parameterisable set_parameters
  update_parameterisable-set_parameters tag t params g o = elim (Bool-cases (is_empty t)) [
    | inl e ↦ rw e refl
    | inr e ↦ elim (Bool-cases (is_empty params)) [
      | inl p ↦
          rw (e, p)
            (rw (lookup-erase tag t g.parameters) (by_tag (text_eq tag t) (o, false) none refl))
      | inr p ↦
          rw (e, p)
            (rw (lookup-assign tag t params g.parameters)
              (by_tag (text_eq tag t) (set_params params o) (some params) refl))
    ]
  ]
    where
      by_tag :
          (same : Bool) (r : O × Bool) (found : Option (List Text))
          → (elim found [ none ↦ (o, false) | some p ↦ set_params p o ]) ≡ r
          → (elim (if same then found else lookup t g.parameters) [
            | none ↦ (o, false)
            | some p ↦ set_params p o
          ])
            ≡ (if same
                then r
                else elim (lookup t g.parameters) [ none ↦ (o, false) | some p ↦ set_params p o ])
      by_tag true r found h = h
      by_tag false r found h = refl
