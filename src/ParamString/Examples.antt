-- ===== src/ParamString/Examples.antt =====
-- Ranges with the casts of small numbers.
use structure_pipe.Base.{
  ℕ, ◌+◌, ◌-◌, ◌≡◌, refl, is_empty, Option, none, some, [], ◌∷◌, Text, text, arith, if◌then◌else◌,
  ltb,
}
use structure_pipe.ParamString.{
  parsed, refused, resize, parse_range, parse_param_string, from_strings, find, substr, read_as,
  step_count,
}
use structure_pipe.ParamString.Format.{range_text, step_range_text, readers-agree}
use structure_pipe.ParamString.Failures.{read_all, from_strings-read_all}

-- One digit.
abbrev digit : Text → Option ℕ
digit [] = none
digit (c ∷ []) = if ltb c 48 then none else some (c - 48)
digit (c ∷ d ∷ cs) = none

abbrev keep_text : Text → Text
keep_text t = t

readers-agree_example :
    (parse_range 0 keep_text digit 0 1 digit (range_text (text "2") (text "3") (text "4"))
      ≡ parsed (2, 3, 4))
    × (parse_param_string 0 digit digit (range_text (text "2") (text "3") (text "4"))
        ≡ parsed (2, 3, 4 + 1))
    × (parse_range 0 keep_text digit 0 1 digit (step_range_text (text "2") (text "3"))
        ≡ parsed (2, 3, 1))
    × (parse_param_string 0 digit digit (step_range_text (text "2") (text "3")) ≡ parsed (2, 3, 2))
readers-agree_example =
    readers-agree 0 keep_text digit (λ n. n) digit digit (text "2") (text "3") (text "4") 2 3 4
      (ground arith, ground arith) (ground arith, ground arith) (omega arith) refl refl refl refl
      refl (omega arith) refl refl

-- The second string is not read, and the third place stays as it was.
from_strings-read_all_example :
    from_strings 0 0
      (parse_range 0 keep_text digit 0 1 digit)
      (text "2" ∷ text "!" ∷ text "4" ∷ [])
      (record { from = 9 ∷ 8 ∷ 7 ∷ 6 ∷ []; step = []; n_steps = 1 ∷ 2 ∷ 3 ∷ [] })
    ≡ (record { from = 2 ∷ 8 ∷ 7 ∷ []; step = 0 ∷ 0 ∷ 0 ∷ []; n_steps = 0 ∷ 2 ∷ 3 ∷ [] }, refused)
unfolding parse_range find substr read_as step_count is_empty read_all resize
from_strings-read_all_example =
    from_strings-read_all 0 0 (parse_range 0 keep_text digit 0 1 digit)
      (text "2" ∷ text "!" ∷ text "4" ∷ [])
      (record { from = 9 ∷ 8 ∷ 7 ∷ 6 ∷ []; step = []; n_steps = 1 ∷ 2 ∷ 3 ∷ [] })
