-- ===== src/Utility.antt =====
-- What is left of src/common/UtilityFunctions.cpp: the path of a structure, the print of a number
-- and the name of a directory.
use structure_pipe.Base.{ℕ, Option, none, some, Text}

-- `ResourceLocator` and `make_relative` of spl.
pub record Locators (Loc : Type 0) : Type 0 where
  pub no_locator : Loc
  pub path : Loc → Text
  pub set_path : Text → Loc → Loc
  pub make_relative : Text → Text → Text

-- `getRelativeSavePath`, of the place that the structure was last saved at.
unfoldable pub get_relative_save_path : {Loc : Type 0} → Locators Loc → Option Loc → Text → Loc
get_relative_save_path l last_saved relative_to = elim last_saved [
  | none ↦ l.no_locator
  | some saved ↦ l.set_path (l.make_relative relative_to (l.path saved)) saved
]

-- `toString`, where `print` writes a `double` with so many digits and `precision` is that of spl.
unfoldable pub to_string : {D : Type 0} → (ℕ → D → Text) → (D → ℕ → ℕ) → D → ℕ → Text
to_string print precision value digits_after_decimal =
    print (precision value digits_after_decimal) value

-- `generateParamDirName` does not look at the parameters.
unfoldable pub generate_param_dir_name : {P : Type 0} → (Text → Text) → P → Text → Text
generate_param_dir_name unique_name params seed_name = unique_name seed_name
