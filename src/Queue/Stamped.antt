-- ===== src/Queue/Stamped.antt =====
-- The potential parameters of what the runs of src/blocks/RunPotentialParamsQueue.cpp finish with.
use structure_pipe.Base.{◌≡◌, refl, ap₂, Option, none, some, List, [], ◌∷◌, map}
use structure_pipe.Queue.{Params, finished}

-- A structure keeps its own parameters, and is given those of the run if it has none.
abbrev pub stamped : {S : Type 0} → Params → S × Option Params → S × Params
stamped p (s, none) = (s, p)
stamped p (s, some own) = (s, own)

one-stamped : {S : Type 0} (p : Params) (x : S × Option Params) → finished p x ≡ stamped p x
unfolding finished
one-stamped p (s, none) = refl
one-stamped p (s, some own) = refl

pub finished-stamped :
    {S : Type 0} (p : Params) (ss : List (S × Option Params))
    → map (finished p) ss ≡ map (stamped p) ss
finished-stamped p [] = refl
finished-stamped p (x ∷ xs) = ap₂ (λ a b. a ∷ b) (one-stamped p x) (finished-stamped p xs)
