-- ===== src/Loader/Names.antt =====
-- The name under which an entry of the settings is loaded.
use structure_pipe.Base.{
  ℕ, ◌+◌, ◌≡◌, refl, sym, ap, ap₂, ◌∙◌, false, some, [], ◌∷◌, ◌++◌, if◌then◌else◌, Text, text,
  text_eq, is_empty, All, arith, append-nil,
}
use structure_pipe.Base.Assoc.{lookup, lookup-assign}
use structure_pipe.Loader.{
  BlockLoader, Creator, is_space, skip_spaces, first_word, behind_word, extract, get, insert,
  load_typed, load_entry,
}

-- A word: not empty, without blanks.
abbrev pub IsWord : Text → Type 0
IsWord w = (is_empty w ≡ false) × All (λ c. is_space c ≡ false) w

first_word-word :
    (w rest : Text)
    → All (λ c. is_space c ≡ false) w
    → (first_word (w ++ (text " " ++ rest)) ≡ w)
      × (behind_word (w ++ (text " " ++ rest)) ≡ text " " ++ rest)
unfolding first_word behind_word is_space
first_word-word [] rest h = (refl, refl)
first_word-word (c ∷ w) rest h =
    let (e, f) = first_word-word w rest h.1 in (ground (arith, h.0, e), ground (arith, h.0, f))

first_word-last :
    (w : Text) → All (λ c. is_space c ≡ false) w → (first_word w ≡ w) × (behind_word w ≡ [])
unfolding first_word behind_word
first_word-last [] h = (refl, refl)
first_word-last (c ∷ w) h = let (e, f) = first_word-last w h.1 in (rw h.0 (ap (◌∷◌ c) e), rw h.0 f)

skip_spaces-word : (w rest : Text) → IsWord w → skip_spaces (w ++ rest) ≡ w ++ rest
unfolding skip_spaces is_empty
skip_spaces-word [] rest h = cc
skip_spaces-word (c ∷ w) rest h = rw h.1.0 refl

is_empty-word : (w rest : Text) → IsWord w → is_empty (w ++ rest) ≡ false
unfolding is_empty
is_empty-word [] rest h = cc
is_empty-word (c ∷ w) rest h = refl

extract-first :
    (w rest temp : Text) → IsWord w → extract (w ++ (text " " ++ rest)) temp ≡ (w, text " " ++ rest)
unfolding extract
extract-first w rest temp h =
    rw (skip_spaces-word w (text " " ++ rest) h, extract)
      (rw (is_empty-word w (text " " ++ rest) h) (
        ap₂ (λ (a b : Text). (a, b)) (first_word-word w rest h.1).0 (first_word-word w rest h.1).1))

extract-last : (w temp : Text) → IsWord w → extract w temp ≡ (w, [])
unfolding extract
extract-last w temp h =
    let skip : skip_spaces w ≡ w =
      ap skip_spaces (sym (append-nil w)) ∙ skip_spaces-word w [] h ∙ append-nil w in
    rw (skip, extract)
      (rw h.0 (ap₂ (λ (a b : Text). (a, b)) (first_word-last w h.1).0 (first_word-last w h.1).1))

extract-second : (w temp : Text) → IsWord w → extract (text " " ++ w) temp ≡ (w, [])
unfolding extract skip_spaces is_space
extract-second w temp h = extract-last w temp h

module _ {Node Block : Type 0} (type name : Text) (type-IsWord : IsWord type)
    (name-IsWord : IsWord name) (node : Node) (creator : Creator Node Block) (block : Block)
    (l : BlockLoader Node Block) (num_loaded : ℕ) (temp : Text)
    (known : lookup type l.blocks_directory ≡ some creator)
    (created : creator node ≡ some block) where
  load_typed-known :
      (rest : Text)
      → load_typed node (type, rest) (l, num_loaded) ≡ (
          let n = if is_empty rest then type else (extract rest type).0 in
          (insert n block l, num_loaded + 1, n))
  unfolding load_typed
  load_typed-known rest = rw (known, load_typed) (rw (created, load_typed) refl)

  load_entry-two :
      load_entry (type ++ (text " " ++ name), node) (l, num_loaded, temp)
      ≡ (insert name block l, num_loaded + 1, name)
  unfolding load_entry is_empty
  load_entry-two =
      ap (λ q. load_typed node q (l, num_loaded)) (extract-first type name temp type-IsWord)
      ∙ load_typed-known (text " " ++ name)
      ∙ ap (λ (q : Text × Text). (insert q.0 block l, num_loaded + 1, q.0))
          (extract-second name type name-IsWord)

  load_entry-one :
      load_entry (type, node) (l, num_loaded, temp) ≡ (insert type block l, num_loaded + 1, type)
  unfolding load_entry is_empty
  load_entry-one =
      ap (λ q. load_typed node q (l, num_loaded)) (extract-last type temp type-IsWord)
      ∙ load_typed-known []

  -- The entry of a type that is known, whose block can be created, whatever entry came before
  -- it, where type and name are words without blanks: it counts as loaded, and afterwards its
  -- name gives the block, and every other name what it gave. The name is the second word of the
  -- entry's key, or the type if there is none.
  pub load_entry-get :
      (n : Text)
      → let two = load_entry (type ++ (text " " ++ name), node) (l, num_loaded, temp) in
        let one = load_entry (type, node) (l, num_loaded, temp) in
        (get n two.0 ≡ (if text_eq name n then some block else get n l))
        × (get n one.0 ≡ (if text_eq type n then some block else get n l))
        × (two.1 ≡ num_loaded + 1)
        × (one.1 ≡ num_loaded + 1)
  unfolding get insert
  load_entry-get n = (
    ap (λ r. lookup n r.0.blocks) load_entry-two ∙ lookup-assign name n block l.blocks,
    ap (λ r. lookup n r.0.blocks) load_entry-one ∙ lookup-assign type n block l.blocks,
    ap (λ r. r.1) load_entry-two,
    ap (λ r. r.1) load_entry-one,
  )
