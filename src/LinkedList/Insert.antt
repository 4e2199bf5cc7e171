-- ===== src/LinkedList/Insert.antt =====
-- list_add, list_add_tail, node_add_aft and node_add_bef on rings.
use aco_os.Base.{
  ℕ, ◌≡◌, List, [], ◌∷◌, ◌++◌, has-append, ◌∉◌, Distinct-snoc, arith, append_assoc, subst,
}
use aco_os.LinkedList.{Heap, init_list_head, list_add, list_add_tail, node_add_aft, node_add_bef}
use aco_os.LinkedList.Chain.{
  IsRing, last, last-mem, Chain-last, Chain-frame, Chain-redirect, Chain-join, IsRing-rotate,
}

-- INIT_LIST_HEAD makes an empty list, whatever the links were.
pub init_list_head-IsRing : (h : Heap) (head : ℕ) → IsRing (init_list_head head h) head []
unfolding init_list_head
init_list_head-IsRing h head = record { links = ground arith; apart = ground arith }

-- list_add puts a node that is not on the list in front of the others.
pub list_add-IsRing :
    (h : Heap) (head node : ℕ) (xs : List ℕ)
    → IsRing h head xs
    → node ∉ (head ∷ xs)
    → IsRing (list_add node head h) head (node ∷ xs)
unfolding list_add
list_add-IsRing h head node [] r new = record { links = ground arith; apart = ground arith }
list_add-IsRing h head node (x ∷ xs) r new = record {
  links = (
    ground arith,
    ground arith,
    (
      ground arith,
      ground arith,
      Chain-frame (list_add node head h) h x xs head r.links.2 (λ a i. ground arith)
          (λ a i. ground arith) (ground arith),
    ),
  );
  apart = ground arith;
}

-- list_add_tail puts a node that is not on the list at its end.
pub list_add_tail-IsRing :
    (h : Heap) (head node : ℕ) (xs : List ℕ)
    → IsRing h head xs
    → node ∉ (head ∷ xs)
    → IsRing (list_add_tail node head h) head (xs ++ (node ∷ []))
unfolding list_add_tail
list_add_tail-IsRing h head node xs r new =
    let g = list_add_tail node head h in
    let end : h.prev head ≡ last head xs = Chain-last h head xs head r.links in
    record {
      links =
          Chain-join g head xs node [] head
            (Chain-redirect g h head xs head node r.links r.apart (λ a i ne. ground (arith, end))
              (λ a i. ground (arith)) (ground (arith, end, last-mem head xs)) (ground (arith, end)))
            (ground (arith, end, last-mem head xs), ground arith);
      apart = (
        ground (arith, has-append head xs (node ∷ [])),
        Distinct-snoc node xs r.apart.1 (ground arith),
      );
    }

-- node_add_aft puts an unlinked node behind any node of the list.
pub node_add_aft-IsRing :
    (h : Heap) (head : ℕ) (xs : List ℕ) (n : ℕ) (ys : List ℕ) (node : ℕ)
    → IsRing h head (xs ++ (n ∷ ys))
    → node ∉ (head ∷ (xs ++ (n ∷ ys)))
    → IsRing (node_add_aft n node h) head (xs ++ (n ∷ (node ∷ ys)))
unfolding node_add_aft
node_add_aft-IsRing h head xs n ys node r new =
    let there =
      list_add-IsRing h n node (ys ++ (head ∷ xs)) (IsRing-rotate h head xs n ys r)
        (ground (arith, has-append node xs (n ∷ ys), has-append node ys (head ∷ xs))) in
    IsRing-rotate (list_add node n h) n (node ∷ ys) head xs there

-- node_add_bef puts an unlinked node before any node of the list.
pub node_add_bef-IsRing :
    (h : Heap) (head : ℕ) (xs : List ℕ) (n : ℕ) (ys : List ℕ) (node : ℕ)
    → IsRing h head (xs ++ (n ∷ ys))
    → node ∉ (head ∷ (xs ++ (n ∷ ys)))
    → IsRing (node_add_bef n node h) head ((xs ++ (node ∷ [])) ++ (n ∷ ys))
unfolding node_add_bef
node_add_bef-IsRing h head xs n ys node r new =
    let there =
      list_add_tail-IsRing h n node (ys ++ (head ∷ xs)) (IsRing-rotate h head xs n ys r)
        (ground (arith, has-append node xs (n ∷ ys), has-append node ys (head ∷ xs))) in
    IsRing-rotate (list_add_tail node n h) n ys head (xs ++ (node ∷ [])) (
      subst (λ l. IsRing (list_add_tail node n h) n l) (append_assoc ys (head ∷ xs) (node ∷ []))
        there)
