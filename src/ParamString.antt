-- ===== src/ParamString.antt =====
-- The two readers of a parameter range, `from+step*n`: `ParamRange` of src/common/CommonData.cpp
-- and `parseParamString` of src/common/UtilityFunctions.cpp.
pub mod Format
pub mod Ranges
pub mod Failures
pub mod Examples
use structure_pipe.Base.{
  ℕ, zero, suc, ◌+◌, ◌-◌, ◌%◌, ◌^◌, ◌≡◌, Bool, true, false, not, ◌&&◌, Option, none, some, List, [],
  ◌∷◌, ◌++◌, if◌then◌else◌, leb, ltb, ◌==◌, length, take, drop, set, replicate, Text, text,
  is_empty,
}
use mathlib.Core.Option

-- `string::npos`, the greatest `size_t`.
abbrev pub npos : ℕ
npos = 2 ^ 64 - 1

-- `string::find` of one character.
unfoldable pub find : ℕ → Text → ℕ
find c [] = npos
find c (x ∷ xs) =
    let later = find c xs in if x == c then 0 else if later == npos then npos else suc later

-- `string::substr`; `none` is `std::out_of_range`.
unfoldable pub substr : Text → ℕ → ℕ → Option Text
substr s pos count = if ltb (length s) pos then none else some (take count (drop pos s))

-- What a reader returns or throws.
pub data Outcome (A : Type 0) : Type 0 where
  parsed : A → Outcome A
  refused : Outcome A
  out_of_range : Outcome A

unfoldable pub read_as :
    {A B : Type 0} → Option Text → (Text → Option A) → (A → Outcome B) → Outcome B
read_as none cast f = out_of_range
read_as (some s) cast f = elim (cast s) [ none ↦ refused | some a ↦ f a ]

-- Where the text of the step ends, and its length; both wrap.
unfoldable pub step_count : ℕ → ℕ → ℕ
step_count plus_pos times_pos =
    let plus_end = if times_pos == npos then npos else (times_pos + 2 ^ 64 - 1) % 2 ^ 64 in
    (plus_end + 2 ^ 64 - plus_pos) % 2 ^ 64

-- `boost::trim` and `boost::lexical_cast` to `double`, `int` and `unsigned int`.
module _ {D I : Type 0} (zero_d : D) (trim : Text → Text) (to_double : Text → Option D) where
  -- `ParamRange::parseParamString`, as the values it puts into `from`, `step` and `nSteps`.
  module _ (int_0 int_1 : I) (to_int : Text → Option I) where
    unfoldable pub parse_range : Text → Outcome (D × D × I)
    unfolding find substr read_as step_count
    parse_range s =
        let plus_pos = find 43 s in
        let times_pos = find 42 s in
        if is_empty s
        then refused
        else read_as (Option.map trim (substr s 0 plus_pos)) to_double (λ from.
          if plus_pos == npos
          then parsed (from, zero_d, int_0)
          else read_as (Option.map trim (substr s (plus_pos + 1) (step_count plus_pos times_pos)))
              to_double
              (λ step.
                if times_pos == npos
                then parsed (from, step, int_1)
                else read_as (Option.map trim (substr s (times_pos + 1) npos)) to_int
                    (λ n. parsed (from, step, n))))

-- `parseParamString`, where `refused` is `std::invalid_argument`. It does not trim.
module _ {D : Type 0} (zero_d : D) (to_double : Text → Option D)
    (to_unsigned : Text → Option ℕ) where
  unfoldable pub parse_param_string : Text → Outcome (D × D × ℕ)
  unfolding find substr read_as step_count
  parse_param_string s =
      let plus_pos = find 43 s in
      let times_pos = find 42 s in
      if is_empty s
      then refused
      else read_as (substr s 0 plus_pos) to_double (λ from.
        if plus_pos == npos
        then parsed (from, zero_d, 1)
        else read_as (substr s (plus_pos + 1) (step_count plus_pos times_pos)) to_double (λ step.
          if times_pos == npos
          then parsed (from, step, 2)
          else read_as (substr s (times_pos + 1) npos) to_unsigned
              (λ n. parsed (from, step, (n + 1) % 2 ^ 32))))

pub record ParamRange (D I : Type 0) : Type 0 where
  pub from : List D
  pub step : List D
  pub n_steps : List I

-- The constructor for a number of dimensions.
unfoldable pub new_param_range : {D I : Type 0} → D → I → ℕ → ParamRange D I
new_param_range zero_d int_0 dims = record {
  from = replicate dims zero_d;
  step = replicate dims zero_d;
  n_steps = replicate dims int_0;
}

-- `std::vector::resize`
unfoldable pub resize : {A : Type 0} → ℕ → A → List A → List A
resize n a xs = take n xs ++ replicate (n - length xs) a

module _ {D I : Type 0} (zero_d : D) (int_0 : I) (parse : Text → Outcome (D × D × I)) where
  -- The loop of `fromStrings`, at index i.
  unfoldable pub parse_from : ℕ → List Text → ParamRange D I → ParamRange D I × Outcome Unit
  parse_from i [] r = (r, parsed tt)
  parse_from i (s ∷ ss) r = elim (parse s) [
    | refused ↦ (r, refused)
    | out_of_range ↦ (r, out_of_range)
    | parsed (from, step, n) ↦
        parse_from (i + 1) ss (record {
          from = set r.from i from;
          step = set r.step i step;
          n_steps = set r.n_steps i n;
        })
  ]

  unfoldable pub from_strings : List Text → ParamRange D I → ParamRange D I × Outcome Unit
  unfolding parse_from resize
  from_strings ss r =
      let n = length ss in
      parse_from 0 ss (record {
        from = resize n zero_d r.from;
        step = resize n zero_d r.step;
        n_steps = resize n int_0 r.n_steps;
      })
