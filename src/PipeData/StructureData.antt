-- ===== src/PipeData/StructureData.antt =====
-- src/common/StructureData.cpp: a holder of one structure.
use structure_pipe.Base.{◌≡◌, refl, Option, none, some}

-- `myStructure`, which may be null.
pub record StructureData (T : Type 0) : Type 0 where
  pub structure : Option T

module _ {T : Type 0} where
  -- `operator =`, of what is assigned and the object that it is assigned to.
  unfoldable pub assign_structure : StructureData T → StructureData T → StructureData T
  assign_structure rhs b = elim rhs.structure [ none ↦ b | some s ↦ record { structure = some s } ]

  unfoldable pub get_structure : StructureData T → Option T
  get_structure b = b.structure

  -- `setStructure`, with what its reference refers to: `none` is a null pointer.
  unfoldable pub set_structure : Option T → StructureData T → StructureData T × Option T
  set_structure s b = (record { structure = s }, s)

  -- Assigning an object without a structure keeps the one that was there.
  assign_structure-none :
      (b : StructureData T)
      → get_structure (assign_structure (record { structure = none }) b) ≡ get_structure b
  unfolding assign_structure get_structure
  assign_structure-none b = refl
