-- ===== src/Writer/Stream.antt =====
-- An `ofstream` and the bytes of its file.
use structure_pipe.Base.{
  ℕ, suc, ◌+◌, ◌-◌, ◌≡◌, ap, ap₂, ◌∙◌, append_assoc, take-append, Bool, true, false, [], ◌∷◌, ◌++◌,
  arith, if◌then◌else◌, length, take, drop, replicate, Text, text,
}

pub record OutStream : Type 0 where
  pub is_open : Bool
  pub good : Bool
  pub put : ℕ
  pub content : Text

-- Open for output: an existing file is emptied.
unfoldable pub open_out : Bool → Text → OutStream
open_out opens old =
    if opens
    then record { is_open = true; good = true; put = 0; content = [] }
    else record { is_open = false; good = false; put = 0; content = old }

-- Open for output and input: an existing file is kept.
unfoldable pub open_in_out : Bool → OutStream → OutStream
open_in_out opens s =
    if opens
    then record { is_open = true; good = true; put = 0; content = s.content }
    else record s { good = false }

unfoldable pub seek : ℕ → OutStream → OutStream
seek p s = if s.good then record s { put = p } else s

-- Bytes written over those of the file from position p on; a gap is filled by zeros.
unfoldable pub overwrite : ℕ → Text → Text → Text
overwrite p bytes old =
    take p (old ++ replicate (p - length old) 0) ++ (bytes ++ drop (p + length bytes) old)

unfoldable pub write_bytes : Text → OutStream → OutStream
unfolding overwrite
write_bytes bytes s =
    if s.good
    then record s { content = overwrite s.put bytes s.content; put = s.put + length bytes }
    else s

pub finish_line : OutStream → OutStream
unfolding write_bytes
finish_line s = record (write_bytes (text "\n") s) { is_open = false }

-- Bytes written behind a prefix replace as many of the bytes behind it.
pub overwrite-append :
    (a b bytes : Text) → overwrite (length a) bytes (a ++ b) ≡ a ++ (bytes ++ drop (length bytes) b)
unfolding overwrite
overwrite-append a b bytes =
    ap₂ (λ x y. x ++ (bytes ++ y)) (ap (take (length a)) (append_assoc a b _) ∙ take-append a _)
      (drop-append_add a b (length bytes))
  where
    drop-append_add : (xs ys : Text) (n : ℕ) → drop (length xs + n) (xs ++ ys) ≡ drop n ys
    drop-append_add [] ys n = ap (λ m. drop m ys) (omega arith)
    drop-append_add (x ∷ xs) ys n =
        ap (λ m. drop m (x ∷ (xs ++ ys)))
          (let e : suc (length xs) + n ≡ suc (length xs + n) = omega arith in e)
        ∙ drop-append_add xs ys n
