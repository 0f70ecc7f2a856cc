-- ===== src/Blocks/KeepWithinXPercent/Erasing.antt =====
-- The erasing loop of `newLowest` of src/blocks/KeepWithinXPercent.cpp, and the test of a
-- filter.
use mathlib.Core.Option
use mathlib.Core.List.{reverse-cons, reverse-reverse}
use structure_pipe.Base.{
  keep_if-append, ◌≡◌, ◌≢◌, refl, sym, ap, ap₂, ◌∙◌, inl, inr, Bool, true, false, not, some, List,
  [], ◌∷◌, ◌++◌, reverse, Bool-cases, keep_if, All, All-append, All-mono, append-nil,
}
use structure_pipe.Pipe.{Event, dropped, Doubles, IsOrdered}
use structure_pipe.Containers.Multimap.{IsSorted}
use structure_pipe.Blocks.KeepTopN.{StructureOrder}
use structure_pipe.Blocks.KeepWithinXPercent.{get_cutoff, erase_above, new_lowest}

module _ {S D : Type 0} (d : Doubles D) where
  abbrev pub above : D → D × S → Bool
  above cutoff e = d.lt cutoff e.0

  abbrev pub within : D → D × S → Bool
  within cutoff e = not (d.lt cutoff e.0)

  abbrev pub drops : StructureOrder S D → List (Event S)
  drops [] = []
  drops (e ∷ r) = dropped e.1 ∷ drops r

  abbrev IsDescending : StructureOrder S D → Type 0
  IsDescending [] = Unit
  IsDescending (e ∷ r) = All (λ f. d.lt e.0 f.0 ≡ false) r × IsDescending r

  IsDescending-append :
      (l : StructureOrder S D) (e : D × S)
      → IsDescending l
      → All (λ f. d.lt f.0 e.0 ≡ false) l
      → IsDescending (l ++ e ∷ [])
  IsDescending-append [] e s h = (tt, tt)
  IsDescending-append (f ∷ r) e s h =
      (All-append _ r (e ∷ []) s.0 (h.0, tt), IsDescending-append r e s.1 h.1)

  pub reverse-All : (P : D × S → Type 0) (l : StructureOrder S D) → All P l → All P (reverse l)
  reverse-All P [] h = tt
  reverse-All P (e ∷ r) h =
      rw (reverse-cons e r) (All-append P (reverse r) (e ∷ []) (reverse-All P r h.1) (h.0, tt))

  reverse-IsDescending : (l : StructureOrder S D) → IsSorted d l → IsDescending (reverse l)
  reverse-IsDescending [] s = tt
  reverse-IsDescending (e ∷ r) s =
      rw (reverse-cons e r)
        (IsDescending-append (reverse r) e (reverse-IsDescending r s.1) (reverse-All _ r s.0))

keep_if-reverse :
    {A : Type 0} (p : A → Bool) (xs : List A) → keep_if p (reverse xs) ≡ reverse (keep_if p xs)
keep_if-reverse p [] = refl
keep_if-reverse p (x ∷ xs) = elim (Bool-cases (p x)) [
  | inl t ↦
      rw (reverse-cons x xs, keep_if-append p (reverse xs) (x ∷ []), keep_if-reverse p xs, t)
        (sym (reverse-cons x (keep_if p xs)))
  | inr t ↦
      rw (reverse-cons x xs, keep_if-append p (reverse xs) (x ∷ []), keep_if-reverse p xs, t)
        (append-nil (reverse (keep_if p xs)))
]

append-cons-ne_nil : {A : Type 0} (xs : List A) (x : A) → xs ++ x ∷ [] ≢ []
append-cons-ne_nil [] x h = cc
append-cons-ne_nil (y ∷ ys) x h = cc

reverse-cons-ne_nil : {A : Type 0} (x : A) (xs : List A) → reverse (x ∷ xs) ≢ []
reverse-cons-ne_nil x xs h = append-cons-ne_nil (reverse xs) x (sym (reverse-cons x xs) ∙ h)

pub keep_if-All :
    {A : Type 0} (p : A → Bool) (xs : List A) → All (λ x. p x ≡ true) xs → keep_if p xs ≡ xs
keep_if-All p [] h = refl
keep_if-All p (x ∷ xs) h = rw h.0 (ap (◌∷◌ x) (keep_if-All p xs h.1))

pub keep_if-none :
    {A : Type 0} (p : A → Bool) (xs : List A) → All (λ x. p x ≡ false) xs → keep_if p xs ≡ []
keep_if-none p [] h = refl
keep_if-none p (x ∷ xs) h = rw h.0 (keep_if-none p xs h.1)

module _ {S D : Type 0} (d : Doubles D) (laws : IsOrdered d) where
  -- On entries in descending order the loop is a filter, if one entry passes it.
  erase_above-keep_if :
      (cutoff : D) (l : StructureOrder S D)
      → IsDescending d l
      → keep_if (within d cutoff) l ≢ []
      → erase_above d cutoff l
        ≡ some (keep_if (within d cutoff) l, drops d (keep_if (above d cutoff) l))
  unfolding erase_above
  erase_above-keep_if cutoff [] s h = absurd (h refl)
  erase_above-keep_if cutoff (e ∷ r) s h = elim (Bool-cases (d.lt cutoff e.0)) [
    | inl t ↦ rw (t, erase_above-keep_if cutoff r s.1 (rw t at h))
    | inr t ↦
        let below : All (λ f. d.lt cutoff f.0 ≡ false) r =
          All-mono (λ f g. laws.lt_negtrans cutoff e.0 f.0 t g) r s.0 in
        rw (
          t,
          keep_if-All (within d cutoff) r (All-mono (λ f g. ap not g) r below),
          keep_if-none (above d cutoff) r below,
        )
  ]

  keep_if-cons_within :
      (cutoff : D) (e : D × S) (order : StructureOrder S D)
      → d.lt cutoff e.0 ≡ false
      → (keep_if (within d cutoff) (reverse (e ∷ order))
          ≡ reverse (e ∷ keep_if (within d cutoff) order))
        × (keep_if (above d cutoff) (reverse (e ∷ order))
            ≡ reverse (keep_if (above d cutoff) order))
  keep_if-cons_within cutoff e order t = (
    keep_if-reverse (within d cutoff) (e ∷ order) ∙ rw t refl,
    keep_if-reverse (above d cutoff) (e ∷ order) ∙ rw t refl,
  )

  -- On a sorted order and a value lower than its lowest, which its own cutoff lets through, the
  -- erasing loop ends and leaves just the entries that are not above the new cutoff.
  pub new_lowest-keep_if :
      (percent : D) (e : D × S) (order : StructureOrder S D)
      → IsSorted d (e ∷ order)
      → d.lt (get_cutoff d percent (e ∷ order)) e.0 ≡ false
      → let cutoff = get_cutoff d percent (e ∷ order) in
        new_lowest d percent e order
        ≡ some (
          e ∷ keep_if (within d cutoff) order,
          drops d (reverse (keep_if (above d cutoff) order)),
        )
  unfolding new_lowest
  new_lowest-keep_if percent e order s t =
      let cutoff = get_cutoff d percent (e ∷ order) in
      let parts = keep_if-cons_within cutoff e order t in
      ap (Option.map (λ q. (reverse q.0, q.1))) (
        erase_above-keep_if cutoff (reverse (e ∷ order)) (reverse-IsDescending d (e ∷ order) s)
          (λ h. reverse-cons-ne_nil e (keep_if (within d cutoff) order) (sym parts.0 ∙ h)))
      ∙ ap₂ (λ a b. some (a, drops d b)) (ap reverse parts.0 ∙ reverse-reverse _) parts.1
