-- ===== src/Loader/Examples.antt =====
-- A loader of two types of block.
use structure_pipe.Base.{
  ℕ, ◌+◌, ◌≡◌, refl, is_empty, some, List, [], ◌∷◌, ◌++◌, Text, text, text_eq, join, arith,
  if◌then◌else◌,
}
use structure_pipe.Base.Assoc.{lookup}
use structure_pipe.Loader.{BlockLoader, get, load_entry, build_pipe, load, is_space}
use structure_pipe.Loader.Names.{load_entry-get}
use structure_pipe.Loader.Connecting.{chain_or_none, find_all, build_pipe-chain}

-- A block is its type's letter and its setting.
abbrev small_loader : BlockLoader ℕ (ℕ × ℕ)
small_loader = record {
  blocks_directory = (text "clone", λ n. some (99, n)) ∷ (text "rescale", λ n. some (114, n)) ∷ [];
  blocks = [];
}

load_entry-get_example :
    let two = load_entry (text "clone" ++ (text " " ++ text "c2"), 5) (small_loader, 0, []) in
    let one = load_entry (text "clone", 5) (small_loader, 0, []) in
    (get (text "c2") two.0
      ≡ (if text_eq (text "c2") (text "c2") then some (99, 5) else get (text "c2") small_loader))
    × (get (text "c2") one.0 ≡ (
        if text_eq (text "clone") (text "c2") then some (99, 5) else get (text "c2") small_loader))
    × (two.1 ≡ 0 + 1)
    × (one.1 ≡ 0 + 1)
load_entry-get_example =
    load_entry-get (text "clone") (text "c2")
      (unfold is_empty is_space in (refl, (refl, (refl, (refl, (refl, (refl, tt)))))))
      (unfold is_empty is_space in (refl, (refl, (refl, tt)))) 5 (λ n. some (99, n)) (99, 5)
      small_loader 0 [] (unfold lookup text_eq in refl) refl (text "c2")

abbrev entries : List (Text × ℕ)
entries = (text "clone", 5) ∷ (text "rescale r", 7) ∷ []

build_pipe-chain_example :
    build_pipe small_loader
      (λ t. t)
      (record {
        entries = some entries;
        run = some (join (text "|") (text "clone" ∷ text "r" ∷ []));
      })
    ≡ chain_or_none (find_all (load (some entries) small_loader).0 (text "clone" ∷ text "r" ∷ []))
build_pipe-chain_example =
    build_pipe-chain small_loader (λ t. t) entries (text "clone" ∷ text "r" ∷ [])
      (unfold is_empty in ((refl, ground arith), ((refl, ground arith), tt))) (refl, (refl, tt))
