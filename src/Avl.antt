-- ===== src/Avl.antt =====
-- The AVL trees that the kernel takes over from another project (include/aco/avlmini.h), as an
-- interface: the operations that it calls, and what it relies on. A node is named by the address of
-- the structure that it lies in.
pub mod Lists
use aco_os.Base.{ℕ, ◌≡◌, Option, none, some, List, [], ◌∷◌, ◌++◌, remove, ◌∈◌, ◌∉◌, Distinct}

-- What a comparison returns: -1, 0 or 1.
pub data Compared : Type 0 where
  less equal greater : Compared

abbrev pub All : (ℕ → Compared) → Compared → List ℕ → Type 0
All f r [] = Unit
All f r (x ∷ xs) = (f x ≡ r) × All f r xs

abbrev pub last : List ℕ → Option ℕ
last [] = none
last (x ∷ []) = some x
last (_ ∷ y ∷ ys) = last (y ∷ ys)

pub record Avl : Type 1 where
  pub Tree : Type 0
  -- the nodes from the first to the last
  pub nodes : Tree → List ℕ
  -- avl_root_init
  pub root_init : Tree
  -- avl_node_add, with the comparison of the new node: the node that is in its place, if there is one
  pub node_add : (ℕ → Compared) → ℕ → Tree → Option ℕ × Tree
  -- avl_node_find, with the comparison of the key
  pub node_find : (ℕ → Compared) → Tree → Option ℕ
  pub node_prev : ℕ → Tree → Option ℕ
  pub node_erase : ℕ → Tree → Tree
  pub nodes-root_init : nodes root_init ≡ []
  pub nodes-node_add :
      (f : ℕ → Compared) (x : ℕ) (t : Tree) (before after : List ℕ)
      → nodes t ≡ before ++ after
      → All f greater before
      → All f less after
      → ((node_add f x t).0 ≡ none) × (nodes (node_add f x t).1 ≡ before ++ (x ∷ after))
  pub node_add_taken :
      (f : ℕ → Compared) (x : ℕ) (t : Tree) (before among after : List ℕ) (y : ℕ)
      → nodes t ≡ before ++ ((y ∷ among) ++ after)
      → All f greater before
      → All f equal (y ∷ among)
      → All f less after
      → (z : ℕ) × (node_add f x t ≡ (some z, t))
  pub node_find_some :
      (f : ℕ → Compared) (t : Tree) (before after : List ℕ) (y : ℕ)
      → nodes t ≡ before ++ (y ∷ after)
      → All f greater before
      → f y ≡ equal
      → All f less after
      → node_find f t ≡ some y
  pub node_find_none :
      (f : ℕ → Compared) (t : Tree) (before after : List ℕ)
      → nodes t ≡ before ++ after
      → All f greater before
      → All f less after
      → node_find f t ≡ none
  pub node_prev_lem :
      (x : ℕ) (t : Tree) (before after : List ℕ)
      → nodes t ≡ before ++ (x ∷ after)
      → x ∉ before
      → node_prev x t ≡ last before
  pub nodes-node_erase :
      (x : ℕ) (t : Tree)
      → Distinct (nodes t)
      → x ∈ nodes t
      → nodes (node_erase x t) ≡ remove x (nodes t)
