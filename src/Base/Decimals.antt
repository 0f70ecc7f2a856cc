-- ===== src/Base/Decimals.antt =====
-- What a stream prints for a `size_t` or an `unsigned int`: its decimal digits.
use Prim.Native.Nat.{ℕ, zero, suc, ◌+◌, ◌-◌, ◌*◌, ◌/◌, ◌%◌, ◌≤◌}
use mathlib.Core.Path.{◌≡◌, refl}
use mathlib.Core.Bool.{false, ◌&&◌}
use mathlib.Core.List.{[], ◌∷◌, ◌++◌}
use native.Mathlib.Omega.{arith}
use structure_pipe.Base.Tests.{ltb, leb, if◌then◌else◌}
use structure_pipe.Base.Texts.{Text, text}
use structure_pipe.Base.Lists.{All, All-append}

digits : ℕ → ℕ → Text
digits zero n = (48 + n % 10) ∷ []
digits (suc fuel) n =
    let before = digits fuel (n / 10) in
    if ltb n 10 then (48 + n) ∷ [] else before ++ (48 + n % 10) ∷ []

-- A number has at most as many digits as it has units, and one.
unfoldable pub decimal : ℕ → Text
unfolding digits
decimal n = digits n n

decimal_runs : decimal 1204 ≡ text "1204"
unfolding decimal
decimal_runs = refl

decimal_zero : decimal 0 ≡ text "0"
unfolding decimal
decimal_zero = refl

abbrev pub IsDigit : ℕ → Type 0
IsDigit c = (48 ≤ c) × (c ≤ 57)

-- The number that digits spell behind n.
abbrev pub value_from : ℕ → Text → ℕ
value_from n [] = n
value_from n (c ∷ s) = value_from (n * 10 + (c - 48)) s

value_from-append :
    (s : Text) (n c : ℕ) → value_from n (s ++ c ∷ []) ≡ value_from n s * 10 + (c - 48)
value_from-append [] n c = refl
value_from-append (d ∷ s) n c = value_from-append s (n * 10 + (d - 48)) c

digits_value : (fuel n : ℕ) → n ≤ fuel → value_from 0 (digits fuel n) ≡ n
unfolding digits
digits_value zero n h = omega arith
digits_value (suc fuel) n h = ground (
  arith,
  digits_value fuel (n / 10) (omega arith),
  value_from-append (digits fuel (n / 10)) 0 (48 + n % 10),
)

digits-IsDigit : (fuel n : ℕ) → All IsDigit (digits fuel n)
unfolding digits
digits-IsDigit zero n = omega arith
digits-IsDigit (suc fuel) n = ground (
  arith,
  All-append IsDigit (digits fuel (n / 10)) ((48 + n % 10) ∷ []) (digits-IsDigit fuel (n / 10))
      (omega arith),
)

pub value_from-decimal : (n : ℕ) → value_from 0 (decimal n) ≡ n
unfolding decimal
value_from-decimal n = digits_value n n (omega arith)

pub decimal-IsDigit : (n : ℕ) → All IsDigit (decimal n)
unfolding decimal
decimal-IsDigit n = digits-IsDigit n n

-- A text of digits and what follows it.
unfoldable pub span_digits : Text → Text × Text
span_digits [] = ([], [])
span_digits (c ∷ s) =
    let (d, r) = span_digits s in if leb 48 c && leb c 57 then (c ∷ d, r) else ([], c ∷ s)

-- A text that does not begin with a digit.
abbrev pub IsUndigited : Text → Type 0
IsUndigited [] = Unit
IsUndigited (c ∷ s) = (leb 48 c && leb c 57) ≡ false

pub span_digits-append :
    (d r : Text) → All IsDigit d → IsUndigited r → span_digits (d ++ r) ≡ (d, r)
unfolding span_digits
span_digits-append [] [] h u = refl
span_digits-append [] (c ∷ r) h u = ground (arith, u)
span_digits-append (c ∷ d) r h u = ground (arith, h.0, span_digits-append d r h.1 u)
