-- ===== src/Blocks/WriteStructures/Paths.antt =====
-- Which structures share a file.
use mathlib.Core.List.{append_cancel_right}
use structure_pipe.Base.{
  ◌≡◌, ◌↔◌, refl, ap, Bool, true, false, ◌||◌, ◌++◌, if◌then◌else◌, Text, text, text_eq,
  text_eq_iff, Bool-cases, inl, inr,
}
use structure_pipe.PipeData.{SharedData, GlobalData}
use structure_pipe.Blocks.WriteStructures.{
  WriteStructures, Manager, is_custom, use_multi_structure, save_path,
}

module _ {V Wr : Type 0} (m : Manager Wr) (slash : Text → Text → Text) (working_dir : Text)
    (shared : SharedData V) (global : GlobalData V) where
  -- Two structures are written to one path just if all are to be in one file and the writer can do
  -- that, or if their names are the same; for two names that give different paths in the working directory.
  pub save_path-same :
      (b : WriteStructures) (w : Wr) (n n' : Text)
      → (slash working_dir n ≡ slash working_dir n' → n ≡ n')
      → (save_path m slash working_dir shared global b n w
          ≡ save_path m slash working_dir shared global b n' w)
        ↔ ((use_multi_structure m b w || text_eq n n') ≡ true)
  unfolding save_path
  save_path-same b w n n' slash_inj = elim (Bool-cases (use_multi_structure m b w)) [
    | inl multi ↦ rw multi (λ e. refl, λ e. refl)
    | inr single ↦ rw single (
      λ e. (text_eq_iff n n').1 (slash_inj (without_type (is_custom b.state) e)),
      λ e. ap (λ q. with_type (is_custom b.state) (slash working_dir q)) ((text_eq_iff n n').0 e),
    )
  ]
    where
      with_type : Bool → Text → Text
      with_type custom p = if custom then (p ++ text ".") ++ b.file_type else p

      without_type : (custom : Bool) {p q : Text} → with_type custom p ≡ with_type custom q → p ≡ q
      without_type true {p} {q} e =
          append_cancel_right p q (text ".")
            (append_cancel_right (p ++ text ".") (q ++ text ".") b.file_type e)
      without_type false e = e
