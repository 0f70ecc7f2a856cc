-- ===== src/Blocks/BuildStructures/Counts.antt =====
-- How many structures are sent, and under which names, when their number is fixed.
use structure_pipe.Base.{
  ℕ, zero, suc, ◌+◌, ◌≤◌, ◌<◌, ◌≡◌, Bool, false, text, decimal, Option, none, some, List, [], ◌∷◌,
  ◌++◌, map, if◌then◌else◌, ltb, length, Text,
}
use structure_pipe.Pipe.{sent}
use structure_pipe.PipeData.{GlobalData, generate_structure_name}
use structure_pipe.Blocks.Clone.{Structure}
use structure_pipe.Blocks.BuildStructures.{
  Floats, BuildStructures, structure_name, Generator, Building, attempt, generate_structure,
}

abbrev pub one_later : Option ℕ → Option ℕ
one_later none = none
one_later (some i) = some (suc i)

abbrev pub one_if : {A : Type 0} → Option A → ℕ
one_if none = 0
one_if (some a) = 1

module _ {V C R F : Type 0} (f : Floats F) (g : Generator V C R) (settings_key : Text)
    (unique : ℕ → Text) (global : GlobalData V) (b : BuildStructures F) where
  -- Structures with atoms, each named by its number; the numbers rise from lo on and are below hi.
  abbrev pub IsNumbered : ℕ → ℕ → List (Structure C) → Type 0
  IsNumbered lo hi [] = Unit
  IsNumbered lo hi (s ∷ ss) =
      (i : ℕ) × (made : ℕ) × (lo ≤ i)
      × (i < hi)
      × (s.name ≡ (generate_structure_name (unique made) global ++ text "-") ++ decimal i)
      × (1 ≤ g.num_atoms s.content)
      × IsNumbered (i + 1) hi ss

  -- The random state after n calls of the generator.
  abbrev pub after : ℕ → R → R
  after zero r = r
  after (suc n) r = after n (generate_structure g settings_key global r).1

  abbrev pub has_atoms : Option (Structure C) → Bool
  has_atoms none = false
  has_atoms (some s) = ltb 0 (g.num_atoms s.content)

  -- Which of the first n calls is the first that gives a structure with atoms.
  abbrev pub first_good : ℕ → R → Option ℕ
  first_good zero r = none
  first_good (suc n) r =
      let later = first_good n (generate_structure g settings_key global r).1 in
      if has_atoms (generate_structure g settings_key global r).0 then some 0 else one_later later

  -- What n calls give, of which this one is the first good one, if there is one.
  abbrev pub round_of : ℕ → R → Option ℕ → Option (Structure C) × R
  round_of n r none = (none, after n r)
  round_of n r (some i) = generate_structure g settings_key global (after i r)

  -- A round of that many calls, or of as many as the first good one needs.
  abbrev pub round : ℕ → R → Option (Structure C) × R
  round n r = round_of n r (first_good n r)

  -- In how many of n rounds one of the allowed calls is good.
  abbrev pub successes : ℕ → R → ℕ
  successes zero r = 0
  successes (suc n) r =
      one_if (first_good b.max_attempts r) + successes n (round b.max_attempts r).1

  -- The rounds that succeed, by the attempts of the block.
  attempted : ℕ → R → ℕ
  attempted zero r = 0
  attempted (suc n) r =
      let (str, r') = attempt g settings_key global b.max_attempts r in one_if str + attempted n r'

  -- What the loop does from structure i on, for the random state r and a fixed number n.
  abbrev Builds : ℕ → ℕ → ℕ → Building F C R → Option (Building F C R) → Type 0
  Builds k i n w o =
      (out : List (Structure C)) × (w' : Building F C R) × (o ≡ some w')
      × (w'.events ≡ w.events ++ map sent out)
      × IsNumbered i n out
      × (length out ≡ attempted k w.random)

  abbrev renamed : ℕ → ℕ → Structure C → Structure C
  renamed i made s = record s { name = structure_name (unique made) global i }
