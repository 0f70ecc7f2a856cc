-- ===== src/Blocks.antt =====
-- The blocks of src/blocks.
pub mod KeepTopN
pub mod KeepWithinXPercent
pub mod RemoveDuplicates
pub mod Clone
pub mod SubPipe
pub mod SearchStoichiometries
pub mod WriteStructures
pub mod LoadStructures
pub mod BuildStructures
pub mod GeomOptimise
pub mod KeepStableCompositions
pub mod Crystal
pub mod CutAndPaste
pub mod PasteFragment
pub mod SeparateAtoms
pub mod AutoScale
