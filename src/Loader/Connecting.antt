-- ===== src/Loader/Connecting.antt =====
-- The loop over the names of `run` in src/build/PipeBuilder.cpp and src/io/BlockLoaderType.cpp.
use mathlib.Core.Option
use structure_pipe.Base.{
  ℕ, ◌≡◌, ◌≢◌, refl, sym, ap, ap₂, ◌∙◌, ◌==◌, inl, inr, Bool, false, Option, none, some, List, [],
  ◌∷◌, ◌++◌, map, Text, text, join, is_empty, All, arith, append_assoc, append-nil, Option-cases,
}
use structure_pipe.Loader.{BlockLoader, get, load, connect_from, connect_all, tokens, build_pipe}

-- A chain of blocks: its start, and a connection from each block to the next.
abbrev pub links_from : {B : Type 0} → B → List B → List (B × B)
links_from b [] = []
links_from b (c ∷ cs) = (b, c) ∷ links_from c cs

abbrev pub chain : {B : Type 0} → List B → Option B × List (B × B)
chain [] = (none, [])
chain (b ∷ bs) = (some b, links_from b bs)

-- What is returned for the blocks of all names, or when one is missing.
abbrev pub chain_or_none : {B : Type 0} → Option (List B) → Option B × List (B × B)
chain_or_none none = (none, [])
chain_or_none (some bs) = chain bs

module _ {Node Block : Type 0} (l : BlockLoader Node Block) where
  -- The blocks of some names, if all are loaded.
  unfoldable pub find_all : List Text → Option (List Block)
  find_all [] = some []
  find_all (n ∷ ns) = elim (get n l) [
    | none ↦ none
    | some b ↦ Option.map (λ bs. b ∷ bs) (find_all ns)
  ]

  connect_from-find_all :
      (last : Block) (names : List Text) (edges : List (Block × Block))
      → connect_from l last names edges
        ≡ Option.map (λ bs. edges ++ links_from last bs) (find_all names)
  unfolding connect_from find_all
  connect_from-find_all last [] edges = ap some (sym (append-nil edges))
  connect_from-find_all last (n ∷ names) edges = elim (Option-cases (get n l)) [
    | inl e ↦ rw (e, connect_from) (rw (e, find_all) refl)
    | inr (b, e) ↦
        rw (e, connect_from)
          (rw (e, find_all)
            (connect_from-find_all b names (edges ++ (last, b) ∷ []) ∙ regroup b (find_all names)))
  ]
    where
      regroup :
          (b : Block) (o : Option (List Block))
          → Option.map (λ bs. (edges ++ (last, b) ∷ []) ++ links_from b bs) o
            ≡ Option.map (λ bs. edges ++ links_from last bs) (Option.map (λ bs. b ∷ bs) o)
      regroup b none = refl
      regroup b (some bs) = ap some (append_assoc edges _ _)

  -- The loop over the names of `run` fails just when a name is not loaded; otherwise it starts with
  -- the block of the first name and connects the block of each name to that of the next, in order.
  pub connect_all-chain :
      (names : List Text) → connect_all l names ≡ Option.map chain (find_all names)
  unfolding connect_all find_all
  connect_all-chain [] = refl
  connect_all-chain (n ∷ names) = elim (Option-cases (get n l)) [
    | inl e ↦ rw (e, connect_all) (rw (e, find_all) refl)
    | inr (b, e) ↦
        rw (e, connect_all)
          (rw (e, find_all)
            (ap (Option.map (λ edges. (some b, edges))) (connect_from-find_all b names [])
              ∙ regroup b (find_all names)))
  ]
    where
      regroup :
          (b : Block) (o : Option (List Block))
          → Option.map
              (λ (edges : List (Block × Block)). (some b, edges))
              (Option.map (λ bs. [] ++ links_from b bs) o)
            ≡ Option.map chain (Option.map (λ bs. b ∷ bs) o)
      regroup b none = refl
      regroup b (some bs) = refl

-- A name that the separator `|` does not cut.
abbrev pub IsPart : Text → Type 0
IsPart p = (is_empty p ≡ false) × All (λ c. c ≢ 124) p

abbrev pub bar : ℕ → Bool
bar c = c == 124

tokens-part :
    (p part rest : Text)
    → All (λ c. c ≢ 124) p
    → tokens bar part (p ++ rest) ≡ tokens bar (part ++ p) rest
unfolding tokens
tokens-part [] part rest h = ap (λ q. tokens bar q rest) (sym (append-nil part))
tokens-part (c ∷ p) part rest h =
    let e : bar c ≡ false = ground (arith, h.0) in
    rw e (
      tokens-part p (part ++ c ∷ []) rest h.1
      ∙ ap (λ q. tokens bar q rest) (append_assoc part (c ∷ []) p))

-- Names that are joined by `|` are the tokens of the text.
pub tokens-join : (ps : List Text) → All IsPart ps → tokens bar [] (join (text "|") ps) ≡ ps
unfolding tokens
tokens-join [] h = unfold is_empty in refl
tokens-join (p ∷ []) h =
    ap (tokens bar []) (sym (append-nil p)) ∙ tokens-part p [] [] h.0.1 ∙ rw h.0.0 refl
tokens-join (p ∷ q ∷ ps) h =
    tokens-part p [] (text "|" ++ join (text "|") (q ∷ ps)) h.0.1
    ∙ rw h.0.0 (ap (◌∷◌ p) (tokens-join (q ∷ ps) h.1))

map-trim : (trim : Text → Text) (ps : List Text) → All (λ p. trim p ≡ p) ps → map trim ps ≡ ps
map-trim trim [] h = refl
map-trim trim (p ∷ ps) h = ap₂ ◌∷◌ h.0 (map-trim trim ps h.1)

-- `buildPipe` on a map whose `run` has names joined by `|`, each not empty, without `|` and left
-- as it is by `trim`: if all are loaded from the map, it returns the block of the first name,
-- and has connected the block of each name to that of the next; if one is not, it returns an
-- empty handle.
pub build_pipe-chain :
    {Node Block : Type 0} (new_loader : BlockLoader Node Block) (trim : Text → Text)
    (entries : List (Text × Node)) (names : List Text)
    → All IsPart names
    → All (λ n. trim n ≡ n) names
    → build_pipe new_loader trim
        (record { entries = some entries; run = some (join (text "|") names) })
      ≡ chain_or_none (find_all (load (some entries) new_loader).0 names)
unfolding build_pipe
build_pipe-chain {Node} {Block} new_loader trim entries names parts trimmed =
    let loader = (load (some entries) new_loader).0 in
    let words : map trim (tokens bar [] (join (text "|") names)) ≡ names =
      ap (map trim) (tokens-join names parts) ∙ map-trim trim names trimmed in
    rw (words, build_pipe)
      (rw (connect_all-chain loader names, build_pipe) (or_none (find_all loader names)))
  where
    or_none :
        (o : Option (List Block))
        → (elim (Option.map chain o) [ none ↦ (none, []) | some r ↦ r ]) ≡ chain_or_none o
    or_none none = refl
    or_none (some bs) = refl
