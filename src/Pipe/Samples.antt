-- ===== src/Pipe/Samples.antt =====
-- Small instances of what the blocks are given, for the examples.
use structure_pipe.Base.{ℕ, ◌*◌, ◌/◌, ◌-◌, ◌≡◌, ◌↔◌, true, not, ◌&&◌, some, arith, ltb}
use structure_pipe.Pipe.{Doubles, IsOrdered, KeyOrder, StructureView}

-- The numbers that are not negative; a factor counts tenths.
abbrev pub positive : Doubles ℕ
positive = record {
  lt = ltb;
  mul = λ a b. a * b / 10;
  sub = λ a b. a - b;
  div = λ a b. a / b;
  one = 10;
  max = 1000000;
  of_count = λ n. n;
}

pub positive-IsOrdered : IsOrdered positive
positive-IsOrdered = record {
  lt_asymm = λ a b h. ground (arith, h);
  lt_negtrans = λ a b c h k. ground (arith, h, k);
}

-- The numbers that are not positive, without their sign.
abbrev pub negative : Doubles ℕ
negative = record {
  lt = λ a b. ltb b a;
  mul = λ a b. a * b / 10;
  sub = λ a b. a - b;
  div = λ a b. a / b;
  one = 10;
  max = 0;
  of_count = λ n. n;
}

pub negative-IsOrdered : IsOrdered negative
negative-IsOrdered = record {
  lt_asymm = λ a b h. ground (arith, h);
  lt_negtrans = λ a b c h k. ground (arith, h, k);
}

pub number_order : (a b : ℕ) → ((not (ltb a b) && not (ltb b a)) ≡ true) ↔ (a ≡ b)
number_order a b = (λ h. ground (arith, h), λ h. ground (arith, h))

abbrev pub number_keys : KeyOrder ℕ
number_keys = record { lt = ltb; same_iff = number_order }

-- A structure is its composition and its value.
abbrev pub pair_view : StructureView ℕ (ℕ × ℕ) ℕ ℕ
pair_view = record { find = λ p s. some s.1; num_atoms = λ s. 1; composition = λ s. s.0 }
