-- ===== src/Blocks/KeepTopN/Conservation.antt =====
-- The structures that KeepTopN, src/blocks/KeepTopN.cpp, holds, sends and drops.
use mathlib.Core.List.{map-append, perm_append_comm}
use mathlib.Core.List.Perm
use structure_pipe.Base.{
  ℕ, ◌≡◌, refl, sym, ap, ◌∙◌, inl, inr, Bool, true, false, if◌then◌else◌, List, [], ◌∷◌, ◌++◌, map,
  arith, ltb, Bool-cases, Option-cases, length, length-append, length-map, append-nil, Perm,
  perm_of_eq, perm_exchange, ap₂, is_empty, not,
}
use structure_pipe.Pipe.{sent, handled, Doubles, KeyOrder, StructureView}
use structure_pipe.Pipe.Barrier.{Barrier, Call, arrivals, run, run-release_perm}
use structure_pipe.Containers.Map.{assign, contents, contents-assign}
use structure_pipe.Containers.Multimap.{insert, insert-perm}
use structure_pipe.Blocks.KeepTopN.{
  KeepTopN, StructureOrder, split_last, order_of, trim, keep, local_value, take_in, release,
  has_data, send_order, send_orders, count_orders,
}

structures_of : {S D : Type 0} → StructureOrder S D → List S
structures_of = map (λ e. e.1)

-- The structures that the block holds, composition by composition.
pub held : {P S D K : Type 0} → KeepTopN P S D K → List S
unfolding structures_of
held b = structures_of (contents b.structures)

split_last-append :
    {A : Type 0} (x : A) (xs : List A) → (split_last x xs).0 ++ (split_last x xs).1 ∷ [] ≡ x ∷ xs
split_last-append x [] = refl
split_last-append x (y ∷ ys) = ap (◌∷◌ x) (split_last-append y ys)

module _ {P S D K : Type 0} (d : Doubles D) (k : KeyOrder K) (v : StructureView P S D K) where
  trim-structures :
      (n : ℕ) (l : StructureOrder S D)
      → structures_of (trim d k v n l).0 ++ handled (trim d k v n l).1 ≡ structures_of l
  unfolding trim structures_of
  trim-structures n [] = refl
  trim-structures n (e ∷ r) = elim (Bool-cases (ltb n (length (e ∷ r)))) [
    | inl t ↦ rw t (
        sym (map-append (λ f. f.1) (split_last e r).0 ((split_last e r).1 ∷ []))
        ∙ ap (map (λ f. f.1)) (split_last-append e r))
    | inr t ↦ rw t (append-nil (structures_of (e ∷ r)))
  ]

  keep_perm :
      (b : KeepTopN P S D K) (x : S) (energy : D)
      → Perm (held (keep d k v b x energy).0 ++ handled (keep d k v b x energy).1) (x ∷ held b)
  unfolding keep held structures_of
  keep_perm b x energy =
      let c = v.composition x in
      let o = order_of d k v c b in
      let t = trim d k v b.keep_top_n (insert d (energy, x) o) in
      perm_exchange x (structures_of o) (structures_of t.0) (structures_of (contents b.structures))
        (structures_of (contents (assign k c t.0 b.structures))) (handled t.1)
        (Perm.trans (perm_of_eq (sym (map-append (λ e. e.1) o _))) (
          Perm.trans (Perm.map (λ e. e.1) (contents-assign k c t.0 b.structures))
            (perm_of_eq (map-append (λ e. e.1) t.0 _))))
        (Perm.trans (perm_of_eq (trim-structures b.keep_top_n (insert d (energy, x) o)))
          (Perm.map (λ e. e.1) (insert-perm d (energy, x) o)))

  pub take_in_perm :
      (b : KeepTopN P S D K) (x : S)
      → Perm (held (take_in d k v b x).0 ++ handled (take_in d k v b x).1) (x ∷ held b)
  unfolding take_in
  take_in_perm b x = elim (Option-cases (v.find b.structure_property x)) [
    | inl e ↦ rw (e, take_in) (Perm.trans (perm_append_comm (held b) (x ∷ [])) (Perm.refl _))
    | inr (value, e) ↦ rw (e, take_in) (keep_perm b x (local_value d k v b x value))
  ]

send_order-map : {S D : Type 0} (o : StructureOrder S D) → send_order o ≡ map sent (structures_of o)
unfolding send_order structures_of
send_order-map [] = refl
send_order-map (e ∷ r) = ap (◌∷◌ (sent e.1)) (send_order-map r)

send_orders-map :
    {S D K : Type 0} (m : List (K × StructureOrder S D))
    → send_orders m ≡ map sent (structures_of (contents m))
unfolding send_orders structures_of contents
send_orders-map [] = refl
send_orders-map (o ∷ os) =
    ap₂ ◌++◌ (send_order-map o.1) (send_orders-map os)
    ∙ sym (map-append sent (structures_of o.1) (structures_of (contents os)))
    ∙ ap (map sent) (sym (map-append (λ e. e.1) o.1 (contents os)))

count_orders-length :
    {S D K : Type 0} (m : List (K × StructureOrder S D))
    → count_orders m ≡ length (structures_of (contents m))
unfolding count_orders structures_of contents
count_orders-length [] = refl
count_orders-length (o ∷ os) = omega (
  arith,
  ap length (map-append (λ e. e.1) o.1 (contents os)),
  length-append (structures_of o.1) (structures_of (contents os)),
  length-map (λ e. e.1) o.1,
  count_orders-length os,
)

module _ {P S D K : Type 0} where
  pub release_sends : (b : KeepTopN P S D K) → (release b).1 ≡ map sent (held b)
  unfolding release held
  release_sends b = send_orders-map b.structures

  pub release_empties : (b : KeepTopN P S D K) → held (release b).0 ≡ []
  unfolding release held structures_of contents
  release_empties b = refl

no_orders :
    {S D K : Type 0} (m : List (K × StructureOrder S D))
    → not (is_empty m) ≡ false
    → structures_of (contents m) ≡ []
unfolding structures_of contents is_empty
no_orders [] e = refl
no_orders (o ∷ os) e = absurd (cc)

-- `release` sends what the block holds, composition by composition, and returns its number; after
-- it nothing is held. A block that says it has no data holds none.
pub release_lem :
    {P S D K : Type 0} (b : KeepTopN P S D K)
    → ((release b).1 ≡ map sent (held b))
      × ((release b).2 ≡ length (held b))
      × (held (release b).0 ≡ [])
      × (length (held b) ≡ (if has_data b then length (held b) else 0))
unfolding release held has_data
release_lem b = (
  release_sends b,
  count_orders-length b.structures,
  release_empties b,
  by_data (not (is_empty b.structures)) (no_orders b.structures),
)
  where
    by_data :
        (d : Bool)
        → (d ≡ false → structures_of (contents b.structures) ≡ [])
        → length (structures_of (contents b.structures))
          ≡ (if d then length (structures_of (contents b.structures)) else 0)
    by_data true h = refl
    by_data false h = ap length (h refl)

pub held-no_data : {P S D K : Type 0} (b : KeepTopN P S D K) → has_data b ≡ false → held b ≡ []
unfolding held has_data
held-no_data b h = no_orders b.structures h

-- KeepTopN behind the contract of a barrier.
abbrev pub keep_top_n_barrier :
    {P S D K : Type 0} (d : Doubles D) (k : KeyOrder K) (v : StructureView P S D K) → Barrier S
keep_top_n_barrier {P} {S} {D} {K} d k v = record {
  State = KeepTopN P S D K;
  take_in = take_in d k v;
  release = release;
  held = held;
  take_in_perm = take_in_perm d k v;
  release_sends = release_sends;
  release_empties = release_empties;
}

-- Whatever sequence of `in` and `release` is called on a block that holds nothing, and a
-- `release` after it: every structure that came in was sent on or dropped, as often as it came in.
pub keep_top_n-conserves :
    {P S D K : Type 0} (d : Doubles D) (k : KeyOrder K) (v : StructureView P S D K)
    (b : KeepTopN P S D K) (cs : List (Call S))
    → held b ≡ []
    → let after = run (keep_top_n_barrier d k v) b cs in
      Perm (handled after.1 ++ handled (release after.0).1) (arrivals cs)
keep_top_n-conserves d k v b cs h =
    Perm.trans (run-release_perm (keep_top_n_barrier d k v) b cs)
      (perm_of_eq (ap (λ xs. arrivals cs ++ xs) h ∙ append-nil (arrivals cs)))
