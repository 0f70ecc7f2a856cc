-- ===== src/Writer/Inserts.antt =====
-- Sequences of `insert` into a table whose writer, src/utility/DataTableWriter.cpp, keeps a file.
use structure_pipe.Base.{◌≡◌, Bool, true, Option, some, List, [], ◌∷◌, arith, length, Text}
use structure_pipe.Table.{Listener, Listened, insert}
use structure_pipe.Writer.{DataTableWriter, write, writer_listener}
use structure_pipe.Writer.Streaming.{Written, write-Written}
use structure_pipe.Writer.Due.{IsReady}
use structure_pipe.Writer.Linked.{Linked, LinkedReady, insert-LinkedReady}

-- A call of `insert`, with the order of its two evaluations.
pub record Insertion : Type 0 where
  pub row_first : Bool
  pub key : Text
  pub column : Text
  pub value : Text

unfoldable pub insert_all : {L : Type 0} → Listener L → List Insertion → Listened L → Listened L
insert_all k [] s = s
insert_all k (x ∷ xs) s = insert_all k xs (insert k x.row_first x.key x.column x.value s).0

module _ (opens : Bool) (pre : Text) where
  insert_all-LinkedReady :
      (xs : List Insertion) (s : Listened (Option DataTableWriter))
      → LinkedReady opens pre (length xs) s
      → LinkedReady opens pre 0 (insert_all (writer_listener opens) xs s)
  unfolding insert_all
  insert_all-LinkedReady [] s h = h
  insert_all-LinkedReady (x ∷ xs) s h =
      insert_all-LinkedReady xs
        (insert (writer_listener opens) x.row_first x.key x.column x.value s).0
        (insert-LinkedReady opens pre (length xs) x.row_first x.key x.column x.value s h.0)

  -- Any sequence of `insert` on a valid table with a writer as its only listener, whose file is
  -- in step with it or is to be written in full, while there are fewer than 2 ^ 64 rows:
  -- whatever was written meanwhile, in full or behind the last cell written, the writer is
  -- afterwards the only listener, without a fault, and the table is valid. A `write` after it
  -- succeeds, and the file then holds its prefix, a line with the names of the columns of the
  -- table as it is, one for each note and one for each row, and behind them the bytes that it
  -- held there before that write.
  pub insert_all-Written :
      (xs : List Insertion) (s : Listened (Option DataTableWriter)) (h : Linked pre (length xs) s)
      → IsReady pre s.table h.writer
      → let s' = insert_all (writer_listener opens) xs s in
        (h' : Linked pre 0 s') × (w' : DataTableWriter) × (write opens s'.table h'.writer
          ≡ some (w', true))
        × Written pre h'.writer.out_stream.content s'.table w'
  insert_all-Written xs s h ready =
      let (h', ready') = insert_all-LinkedReady xs s (h, ready) in
      let t' = (insert_all (writer_listener opens) xs s).table in
      let (w', e, written) =
        write-Written opens pre t' h'.writer (omega (arith, h'.small)) h'.valid.filled h'.synced
          ready' in
      (h', w', e, written)
