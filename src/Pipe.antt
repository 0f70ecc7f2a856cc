-- ===== src/Pipe.antt =====
-- What the blocks use of the pipe engine and of the structures that flow through it.
-- A block calls `out(structure)` and `drop(structure)` of its base class, which belong to the
-- engine: a call of a block returns its new state and those calls, in order.
pub mod Barrier
pub mod Samples
use structure_pipe.Base.{
  ℕ, ◌≡◌, ◌↔◌, Bool, true, false, not, ◌&&◌, Option, List, [], ◌∷◌, ◌++◌, map,
}

-- `sent s` is `out(s)`, `dropped s` is `drop(s)`.
pub data Event (S : Type 0) : Type 0 where
  sent : S → Event S
  dropped : S → Event S

abbrev pub handled : {S : Type 0} → List (Event S) → List S
handled [] = []
handled (sent s ∷ es) = s ∷ handled es
handled (dropped s ∷ es) = s ∷ handled es

abbrev pub sent_of : {S : Type 0} → List (Event S) → List S
sent_of [] = []
sent_of (sent s ∷ es) = s ∷ sent_of es
sent_of (dropped s ∷ es) = sent_of es

abbrev pub dropped_of : {S : Type 0} → List (Event S) → List S
dropped_of [] = []
dropped_of (sent s ∷ es) = dropped_of es
dropped_of (dropped s ∷ es) = s ∷ dropped_of es

-- `double`: the operations that the blocks call.
pub record Doubles (D : Type 0) : Type 0 where
  pub lt : D → D → Bool
  pub mul : D → D → D
  pub sub : D → D → D
  pub div : D → D → D
  pub one : D
  pub max : D
  pub of_count : ℕ → D

-- `<` on the values that are not NaN is a strict weak order.
pub record IsOrdered {D : Type 0} (d : Doubles D) : Type 0 where
  pub lt_asymm : (a b : D) → d.lt a b ≡ true → d.lt b a ≡ false
  pub lt_negtrans : (a b c : D) → d.lt a b ≡ false → d.lt b c ≡ false → d.lt a c ≡ false

-- The keys of a `std::map`: two keys of which neither is less are one key.
pub record KeyOrder (K : Type 0) : Type 0 where
  pub lt : K → K → Bool
  pub same_iff : (a b : K) → ((not (lt a b) && not (lt b a)) ≡ true) ↔ (a ≡ b)

-- What a block reads of the structure behind a pointer `S`: `find` is `properties().find(key)`,
-- and `composition` is `getComposition()` after `reduce()`.
pub record StructureView (P S D K : Type 0) : Type 0 where
  pub find : P → S → Option D
  pub num_atoms : S → ℕ
  pub composition : S → K
