-- ===== src/Loader.antt =====
-- src/build/BlockLoader.cpp and include/spipe/build/BlockLoader.h, src/build/PipeBuilder.cpp and
-- src/io/BlockLoaderType.cpp: the blocks that a map of settings names, and the pipe that its entry
-- `run` connects.
pub mod Names
pub mod Connecting
pub mod Examples
use structure_pipe.Base.{
  ℕ, zero, suc, ◌+◌, ◌≡◌, Bool, true, false, not, ◌&&◌, ◌||◌, Option, none, some, List, [], ◌∷◌,
  ◌++◌, map, if◌then◌else◌, ◌==◌, length, Text, text, is_empty,
}
use structure_pipe.Base.Assoc.{lookup, assign}
use mathlib.Core.Option

-- The blanks that `>>` skips.
unfoldable pub is_space : ℕ → Bool
is_space c = c == 32 || (c == 9 || (c == 10 || (c == 11 || (c == 12 || c == 13))))

unfoldable pub skip_spaces : Text → Text
unfolding is_space
skip_spaces [] = []
skip_spaces (c ∷ cs) = if is_space c then skip_spaces cs else c ∷ cs

unfoldable pub first_word : Text → Text
unfolding is_space
first_word [] = []
first_word (c ∷ cs) = if is_space c then [] else c ∷ first_word cs

unfoldable pub behind_word : Text → Text
unfolding is_space
behind_word [] = []
behind_word (c ∷ cs) = if is_space c then c ∷ cs else behind_word cs

-- `ss >> temp` on what the stream has left: without a word it leaves `temp`. Behind the word the
-- stream is good if it has a character left.
unfoldable pub extract : Text → Text → Text × Text
unfolding skip_spaces first_word behind_word
extract stream temp =
    let word = skip_spaces stream in
    if is_empty word then (temp, []) else (first_word word, behind_word word)

-- What a block loader creates, keeps and connects: `Node` is what YAML has for a block, and a
-- creator returns an empty handle, `none`, when it cannot create the block.
abbrev pub Creator : Type 0 → Type 0 → Type 0
Creator Node Block = Node → Option Block

pub record BlockLoader (Node Block : Type 0) : Type 0 where
  pub blocks_directory : List (Text × Creator Node Block)
  pub blocks : List (Text × Block)

module _ {Node Block : Type 0} where
  -- `ptr_map::insert` keeps what is there.
  unfoldable pub register_creator :
      Text → Creator Node Block → BlockLoader Node Block → BlockLoader Node Block
  register_creator name creator l = elim (lookup name l.blocks_directory) [
    | none ↦ record l { blocks_directory = (name, creator) ∷ l.blocks_directory }
    | some c ↦ l
  ]

  unfoldable pub get : Text → BlockLoader Node Block → Option Block
  get name l = lookup name l.blocks

  unfoldable pub insert : Text → Block → BlockLoader Node Block → BlockLoader Node Block
  insert name block l = record l { blocks = assign name block l.blocks }

  -- The block of an entry, from the first word of its key and what is behind that.
  unfoldable pub load_typed :
      Node → Text × Text → BlockLoader Node Block × ℕ → BlockLoader Node Block × ℕ × Text
  unfolding extract insert
  load_typed node (type, rest) (l, num_loaded) = elim (lookup type l.blocks_directory) [
    | none ↦ (l, num_loaded, type)
    | some creator ↦
        let name = if is_empty rest then type else (extract rest type).0 in
        elim (creator node) [
          | none ↦ (l, num_loaded, name)
          | some block ↦ (insert name block l, num_loaded + 1, name)
        ]
  ]

  -- One entry of `load`, with the text that `temp` has from the entry before.
  unfoldable pub load_entry :
      Text × Node → BlockLoader Node Block × ℕ × Text → BlockLoader Node Block × ℕ × Text
  unfolding extract load_typed
  load_entry (key, node) (l, num_loaded, temp) = load_typed node (extract key temp) (l, num_loaded)

  unfoldable pub load_entries :
      List (Text × Node) → BlockLoader Node Block × ℕ × Text → BlockLoader Node Block × ℕ × Text
  unfolding load_entry
  load_entries [] s = s
  load_entries (e ∷ es) s = load_entries es (load_entry e s)

  -- `load`, of a node that may not be a map.
  unfoldable pub load :
      Option (List (Text × Node)) → BlockLoader Node Block → BlockLoader Node Block × ℕ
  unfolding load_entries
  load none l = (l, 0)
  load (some entries) l = let r = load_entries entries (l, 0, []) in (r.0, r.1)

-- The loop over the names of `run`: the blocks that are connected, in order, and the last one;
-- `inl` is the name of a block that is not found.
module _ {Node Block : Type 0} where
  unfoldable pub connect_from :
      BlockLoader Node Block
      → Block
      → List Text
      → List (Block × Block)
      → Option (List (Block × Block))
  unfolding get
  connect_from l last [] edges = some edges
  connect_from l last (name ∷ names) edges = elim (get name l) [
    | none ↦ none
    | some block ↦ connect_from l block names (edges ++ (last, block) ∷ [])
  ]

  -- What the loop returns: the start block, if there is one, and the connections.
  unfoldable pub connect_all :
      BlockLoader Node Block → List Text → Option (Option Block × List (Block × Block))
  unfolding connect_from get
  connect_all l [] = some (none, [])
  connect_all l (name ∷ names) = elim (get name l) [
    | none ↦ none
    | some block ↦ Option.map (λ edges. (some block, edges)) (connect_from l block names [])
  ]

-- A YAML node of a pipe: its entries if it is a map, and the scalar `run` if there is one.
pub record PipeNode (Node : Type 0) : Type 0 where
  pub entries : Option (List (Text × Node))
  pub run : Option Text

-- `boost::tokenizer` with `char_separator`: the parts between the separators that are not empty.
unfoldable pub tokens : (ℕ → Bool) → Text → Text → List Text
tokens is_separator part [] = if is_empty part then [] else part ∷ []
tokens is_separator part (c ∷ cs) =
    let next = tokens is_separator [] cs in
    if is_separator c
    then if is_empty part then next else part ∷ next
    else tokens is_separator (part ++ c ∷ []) cs

module _ {Node Block : Type 0} (new_loader : BlockLoader Node Block) (trim : Text → Text) where
  -- `buildPipe`: the start block, or an empty handle.
  unfoldable pub build_pipe : PipeNode Node → Option Block × List (Block × Block)
  unfolding load connect_all tokens
  build_pipe node = elim node.entries [
    | none ↦ (none, [])
    | some entries ↦ elim node.run [
      | none ↦ (none, [])
      | some run ↦
          let loader = (load (some entries) new_loader).0 in
          elim (connect_all loader (map trim (tokens (λ c. c == 124) [] run))) [
            | none ↦ (none, [])
            | some r ↦ r
          ]
    ]
  ]

  -- `BlockLoaderType::nodeToValue`: whether it succeeds, with the block it puts out.
  unfoldable pub node_to_value : PipeNode Node → Option (Option Block × List (Block × Block))
  unfolding load connect_all tokens
  node_to_value node = elim node.entries [
    | none ↦ none
    | some entries ↦ elim node.run [
      | none ↦ none
      | some run ↦
          connect_all (load (some entries) new_loader).0 (tokens (λ c. c == 124 || c == 32) [] run)
    ]
  ]
