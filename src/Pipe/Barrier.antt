-- ===== src/Pipe/Barrier.antt =====
-- The contract of a barrier block, `pipelib::Barrier`: it holds structures back until the engine
-- asks it to release them.
use structure_pipe.Base.{
  ℕ, ◌≡◌, refl, ap, ◌∙◌, List, [], ◌∷◌, ◌++◌, map, append-nil, Perm, perm_of_eq, perm_middle,
  perm_append_left_comm,
}
use structure_pipe.Pipe.{Event, sent, dropped, handled}
use mathlib.Core.List.{perm_append_comm}
use mathlib.Core.List.Perm

pub record Barrier (S : Type 0) : Type 1 where
  pub State : Type 0
  pub take_in : State → S → State × List (Event S)
  pub release : State → State × List (Event S) × ℕ
  pub held : State → List S
  pub take_in_perm :
      (b : State) (x : S) → Perm (held (take_in b x).0 ++ handled (take_in b x).1) (x ∷ held b)
  pub release_sends : (b : State) → (release b).1 ≡ map sent (held b)
  pub release_empties : (b : State) → held (release b).0 ≡ []

-- What the engine calls on a barrier.
pub data Call (S : Type 0) : Type 0 where
  takes : S → Call S
  releases : Call S

abbrev pub arrivals : {S : Type 0} → List (Call S) → List S
arrivals [] = []
arrivals (takes x ∷ cs) = x ∷ arrivals cs
arrivals (releases ∷ cs) = arrivals cs

pub handled-append :
    {S : Type 0} (es fs : List (Event S)) → handled (es ++ fs) ≡ handled es ++ handled fs
handled-append [] fs = refl
handled-append (sent x ∷ es) fs = ap (◌∷◌ x) (handled-append es fs)
handled-append (dropped x ∷ es) fs = ap (◌∷◌ x) (handled-append es fs)

pub handled-map-sent : {S : Type 0} (xs : List S) → handled (map sent xs) ≡ xs
handled-map-sent [] = refl
handled-map-sent (x ∷ xs) = ap (◌∷◌ x) (handled-map-sent xs)

module _ {S : Type 0} (k : Barrier S) where
  open k use {State, take_in, release, held, take_in_perm, release_sends, release_empties}

  pub run : State → List (Call S) → State × List (Event S)
  run b [] = (b, [])
  run b (takes x ∷ cs) =
      let (b', events) = take_in b x in let (b'', later) = run b' cs in (b'', events ++ later)
  run b (releases ∷ cs) = let r = release b in let (b'', later) = run r.0 cs in (b'', r.1 ++ later)

  step_perm :
      (h ev h' ev' xs : List S) {now : List S}
      → Perm (h ++ ev) now
      → Perm (h' ++ ev') (xs ++ h)
      → Perm (h' ++ (ev ++ ev')) (xs ++ now)
  step_perm h ev h' ev' xs p q = Perm.trans (perm_append_left_comm h' ev ev') (
      Perm.trans (Perm.append_left ev q) (
        Perm.trans (perm_append_left_comm ev xs h)
          (Perm.append_left xs (Perm.trans (perm_append_comm ev h) p))))

  -- Whatever is called in whatever order, each structure that came in is, as often as it came,
  -- either still held or was sent on or dropped.
  pub run-perm :
      (b : State) (cs : List (Call S))
      → Perm (held (run b cs).0 ++ handled (run b cs).1) (arrivals cs ++ held b)
  unfolding run
  run-perm b [] = perm_of_eq (append-nil (held b))
  run-perm b (takes x ∷ cs) =
      let b' = (take_in b x).0 in
      rw (handled-append (take_in b x).1 (run b' cs).1) (
        Perm.trans
          (step_perm (held b') (handled (take_in b x).1) _ (handled (run b' cs).1) (arrivals cs)
            (take_in_perm b x) (run-perm b' cs))
          (perm_middle (arrivals cs) (held b)))
  run-perm b (releases ∷ cs) =
      let b' = (release b).0 in
      rw (handled-append (release b).1 (run b' cs).1) (
        step_perm (held b') (handled (release b).1) _ (handled (run b' cs).1) (arrivals cs)
          (perm_of_eq (
            ap (λ h. h ++ handled (release b).1) (release_empties b)
            ∙ ap handled (release_sends b)
            ∙ handled-map-sent (held b)))
          (run-perm b' cs))

  -- A release at the end leaves nothing behind: all that came in was sent on or dropped.
  pub run-release_perm :
      (b : State) (cs : List (Call S))
      → let after = run b cs in
        Perm (handled after.1 ++ handled (release after.0).1) (arrivals cs ++ held b)
  run-release_perm b cs =
      let after = run b cs in
      Perm.trans
        (perm_of_eq (
          ap (λ es. handled after.1 ++ handled es) (release_sends after.0)
          ∙ ap (λ xs. handled after.1 ++ xs) (handled-map-sent (held after.0))))
        (Perm.trans (perm_append_comm (handled after.1) (held after.0)) (run-perm b cs))
