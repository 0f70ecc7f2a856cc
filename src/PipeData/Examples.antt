-- ===== src/PipeData/Examples.antt =====
-- A small store.
use structure_pipe.Base.{
  ℕ, ◌≡◌, Bool, true, false, List, [], ◌∷◌, if◌then◌else◌, Text, text, text_eq, is_empty,
}
use structure_pipe.PipeData.{
  in_shared, SharedData, GlobalData, get_object, set_object, set_parameters, update_parameterisable,
}
use structure_pipe.PipeData.Objects.{get_object-set_object}
use structure_pipe.PipeData.Parameters.{update_parameterisable-set_parameters}

abbrev shared_data : SharedData ℕ
shared_data = record { objects_store = []; working_dir = text "run"; instance_name = text "x1" }

abbrev global_data : GlobalData ℕ
global_data = record {
  objects_store = (text "other", 3) ∷ [];
  working_dir = text "/home";
  seed_name = text "seed";
  parameters = (text "eps", text "1.0" ∷ []) ∷ [];
}

get_object-set_object_example :
    let r = set_object (text "settings") in_shared 5 shared_data global_data in
    get_object (text "settings") r.0 r.1 ≡ get_object (text "settings") shared_data global_data
get_object-set_object_example =
    get_object-set_object (text "settings") (text "settings") 5 shared_data global_data

abbrev keep_params : List Text → List Text → List Text × Bool
keep_params new old = (new, true)

update_parameterisable-set_parameters_example :
    update_parameterisable keep_params
      (text "eps")
      (set_parameters (text "eps") (text "2.0" ∷ []) global_data)
      []
    ≡ (if is_empty (text "eps")
        then ([], false)
        else if text_eq (text "eps") (text "eps")
        then if is_empty (text "2.0" ∷ []) then ([], false) else keep_params (text "2.0" ∷ []) []
        else update_parameterisable keep_params (text "eps") global_data [])
update_parameterisable-set_parameters_example =
    update_parameterisable-set_parameters keep_params (text "eps") (text "eps") (text "2.0" ∷ [])
      global_data []
