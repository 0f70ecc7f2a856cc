-- ===== src/Lib.antt =====
-- StructurePipe: a pipeline program that builds, optimises, filters and stores crystal structures.
-- A pipe is a chain of blocks; structures enter a block by `in`, and the block sends them on by
-- `out` or gives them up by `drop`. Barriers hold structures back until the engine, which is the
-- library pipelib, releases them. Tables of results are kept in files while the pipe runs.
--
-- Base has what the other modules share: Boolean tests on native numbers, lists measured by
-- them, texts as lists of bytes, permutations, and maps from texts as association lists.
--
-- Pipe: the calls `out` and `drop` of a block as a list of events; what the blocks read of a
--   structure (StructureView), and of `double` (Doubles, with the laws IsOrdered). Pipe/Barrier is
--   the contract of a barrier, for any sequence of calls of the engine; Pipe/Samples has instances.
-- Containers: `std::multimap` and `std::map`, with the order that the program relies on.
-- Blocks/KeepTopN: src/blocks/KeepTopN.cpp. Blocks/KeepWithinXPercent:
--   src/blocks/KeepWithinXPercent.cpp. Blocks/RemoveDuplicates: src/blocks/RemoveDuplicates.cpp.
--   `in` is take_in, `hasData` has_data, `keep`, `newLowest` and `getCutoff` the functions of those
--   names. All three are barriers. In KeepWithinXPercent `none` is undefined behaviour.
-- Blocks/Clone: src/blocks/Clone.cpp.
-- Blocks/SearchStoichiometries: src/blocks/SearchStoichiometries.cpp. `start` is start: sweep_all is its
--   loop over the indices, sweep_one a round of it, with the settings (atom_counts), the directory
--   (stoich_string, sweep_path), the run of the sub pipe, and the rows of the table (update_table,
--   tabulate). An `int` is ℤ, and its conversion to `unsigned int` wraps. Blocks/SubPipe has the engine
--   of the sub pipe and the set up of the table, for this block and for RunPotentialParamsQueue.
-- Blocks/BuildStructures: src/blocks/BuildStructures.cpp. `start` has fuel for the rounds of its loop; for
--   a fixed number one round more than that number is enough. The attempts of a round are counted
--   down from the greatest number allowed.
-- Blocks/LoadStructures: src/blocks/LoadStructures.cpp, and Blocks/WriteStructures:
--   src/blocks/WriteStructures.cpp; `processEntry` is process_entry, `entryType` entry_type,
--   `generateLocator` generate_locator, and so on. Paths are texts.
-- Blocks/CutAndPaste, Blocks/PasteFragment and Blocks/AutoScale: the files of those names in
--   src/blocks; Blocks/SeparateAtoms: src/blocks/SeparateAtoms.cpp, Rescale.cpp, NiggliReduce.cpp and
--   FindSymmetryGroup.cpp. Blocks/Crystal is what they use of a structure of spl, with the law that its
--   atoms are a sequence. The loop of CutAndPaste has a round for each atom.
-- Blocks/GeomOptimise: src/blocks/GeomOptimise.cpp. The table of its support is passed with its
--   listeners where `in` writes into it.
-- Blocks/KeepStableCompositions: src/blocks/KeepStableCompositions.cpp; `hasData` returns the block as
--   well, since it makes the hull.
-- Main: src/spipe.cpp and src/utility/Initialisation.cpp, without what is printed; the outside is a list
--   of effects. Utility: the rest of src/common/UtilityFunctions.cpp.
--   PipeData/StructureData: src/common/StructureData.cpp.
-- Queue: src/blocks/RunPotentialParamsQueue.cpp. `getWork` is get_work on the bytes of the queue
--   file; its loop has one unit of fuel more than the file has bytes, and every round reads a byte.
--   The loop of `updateWorkChunkSize` has what is left of an `int` as fuel, so that running out is
--   the overflow. `start` has one round more than there are lines that wait. Queue has start over
--   the queue alone, where a run is any function of its parameters and of what is outside the
--   block; Queue/Sweep has it with the global memory that the parameters are stored in, the
--   directory of each run and the table (sweep_start, run_params), and Queue/Refined relates the
--   two. Queue/Report is about the file of the table.
-- Table: src/utility/DataTable.cpp. `Coords(row(key), col(colName))` is modelled with both orders
--   of evaluation. Its assertions that a key and the name of a column are not empty (lines 213 and
--   228) are not modelled: an empty one is taken like any other text, as it is with assertions off.
-- Writer: src/utility/DataTableWriter.cpp, a listener of a table, with the bytes of its file
--   (Writer/Stream); `write` is write, `writeFrom` write_from, and `none` an iterator past the end.
-- ParamString: `ParamRange` of src/common/CommonData.cpp and `parseParamString` of
--   src/common/UtilityFunctions.cpp; positions are 64-bit and wrap, as they do in the code.
-- Loader: src/build/BlockLoader.cpp, src/build/PipeBuilder.cpp and src/io/BlockLoaderType.cpp.
--   `load` reads the entries with the text that `>>` leaves from the entry before.
-- PipeData: src/common/SharedData.cpp, src/common/GlobalData.cpp, src/common/PipeFunctions.cpp and
--   include/spipe/common/PipeFunctions.h, for the keys of one type.
-- Factory: src/factory/BlockFactory.cpp with the options of include/spipe/factory/YamlSchema.h, the
--   names that the constructor of the loader registers, and src/factory/PipeEngineFactory.cpp.
-- Support: src/utility/DataTableSupport.cpp, a table that lives as long as an engine, and
--   src/utility/DataTableInserters.cpp, which fills a row of it.
--
-- Taken as parameters, since they are not part of the repository: the engine and `Block` of pipelib;
-- the structures, atoms, shapes, comparators, generators, optimisers, readers, writers and convex
-- hulls of spl; YAML, program options, `lexical_cast`, `trim` and `split` of boost; the process
-- number, the clock and the file system. Mutexes and file locks are left out: a call is one step.
-- Lists and addresses have no size limit. Not modelled: the defaults of the schemas,
-- which schemer reads; and include/spipe/blocks/EdgeDetect.h and src/common/TableWriter.cpp, which are
-- not compiled: no file includes the one, and the header of the other is not there.
pub mod Base
pub mod Pipe
pub mod Containers
pub mod Blocks
pub mod Table
pub mod Writer
pub mod Queue
pub mod ParamString
pub mod Loader
pub mod PipeData
pub mod Factory
pub mod Support
pub mod Main
pub mod Utility
