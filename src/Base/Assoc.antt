-- ===== src/Base/Assoc.antt =====
-- `std::map<std::string, V>` where the program does not iterate over it: an association list.
use mathlib.Core.Path.{◌≡◌, refl}
use mathlib.Core.Option.{Option, none, some}
use mathlib.Core.List.{List, [], ◌∷◌}
use native.Mathlib.Omega.{arith}
use structure_pipe.Base.Tests.{if◌then◌else◌}
use structure_pipe.Base.Texts.{Text, text_eq, text_eq_iff}

module _ {V : Type 0} where
  unfoldable pub lookup : Text → List (Text × V) → Option V
  lookup k [] = none
  lookup k ((j, v) ∷ m) = if text_eq j k then some v else lookup k m

  unfoldable pub assign : Text → V → List (Text × V) → List (Text × V)
  assign k v [] = (k, v) ∷ []
  assign k v ((j, w) ∷ m) = if text_eq j k then (j, v) ∷ m else (j, w) ∷ assign k v m

  unfoldable pub erase : Text → List (Text × V) → List (Text × V)
  erase k [] = []
  erase k ((j, w) ∷ m) = let rest = erase k m in if text_eq j k then rest else (j, w) ∷ rest

module _ {V : Type 0} where
  pub lookup-cons :
      (k j : Text) (v : V) (m : List (Text × V))
      → lookup k ((j, v) ∷ m) ≡ (if text_eq j k then some v else lookup k m)
  unfolding lookup
  lookup-cons k j v m = refl

  pub lookup-assign :
      (k j : Text) (v : V) (m : List (Text × V))
      → lookup j (assign k v m) ≡ (if text_eq k j then some v else lookup j m)
  unfolding lookup assign
  lookup-assign k j v [] = refl
  lookup-assign k j v ((i, w) ∷ m) =
      ground (arith, text_eq_iff k j, text_eq_iff i k, text_eq_iff i j, lookup-assign k j v m)

  pub lookup-erase :
      (k j : Text) (m : List (Text × V))
      → lookup j (erase k m) ≡ (if text_eq k j then none else lookup j m)
  unfolding lookup erase
  lookup-erase k j [] = ground arith
  lookup-erase k j ((i, w) ∷ m) =
      ground (arith, text_eq_iff k j, text_eq_iff i k, text_eq_iff i j, lookup-erase k j m)
