-- ===== src/LinkedList/Remove.antt =====
-- list_del, list_del_init and the moves on rings.
use aco_os.Base.{
  ℕ, ◌≡◌, sym, List, [], ◌∷◌, ◌++◌, append-nil, subst, has-append, ◌∉◌, Distinct, Disjoint,
  Distinct-split, Distinct-join, arith,
}
use aco_os.LinkedList.Chain.{Chain-set_next, Chain-set_prev}
use aco_os.LinkedList.{
  init_node, set_next, Heap, init_list_head, list_del, list_del_init, list_move, list_move_tail,
}
use aco_os.LinkedList.Chain.{
  Chain, IsRing, last, last-mem, Chain-last, Chain-frame, Chain-redirect, Chain-split, Chain-join,
}
use aco_os.LinkedList.Insert.{init_list_head-IsRing, list_add-IsRing, list_add_tail-IsRing}

Distinct-del :
    (head : ℕ) (xs : List ℕ) (n : ℕ) (ys : List ℕ)
    → Distinct (head ∷ (xs ++ (n ∷ ys)))
    → Distinct (head ∷ (xs ++ ys)) × (n ∉ (head ∷ (xs ++ ys)))
Distinct-del head xs n ys d =
    let (left, right, apart) = Distinct-split xs (n ∷ ys) d.1 in
    let far : Disjoint xs ys = λ a i. ground (arith, apart a) in
    let near = has-append head xs (n ∷ ys) in
    (
      (ground (arith, near, has-append head xs ys), Distinct-join xs ys left right.1 far),
      ground (arith, near, has-append n xs ys, apart n),
    )

-- list_del takes a node out of the list, and leaves the others in their order.
pub list_del-IsRing :
    (h : Heap) (head : ℕ) (xs : List ℕ) (node : ℕ) (ys : List ℕ)
    → IsRing h head (xs ++ (node ∷ ys))
    → IsRing (list_del node h) head (xs ++ ys)
unfolding list_del
list_del-IsRing h head xs node [] r =
    let g = list_del node h in
    let (left, right) = Chain-split h head xs node [] head r.links in
    let (apart, out) = Distinct-del head xs node [] r.apart in
    let end : h.prev node ≡ last head xs = Chain-last h head xs node left in
    let short : (xs ++ []) ≡ xs = append-nil xs in
    let apart' : Distinct (head ∷ xs) = subst (λ l. Distinct (head ∷ l)) short apart in
    let out' : node ∉ (head ∷ xs) = subst (λ l. node ∉ (head ∷ l)) short out in
    record {
      links =
          subst (λ l. Chain g head l head) (sym short)
            (Chain-redirect g h head xs node head left apart' (λ a i ne. ground arith)
              (λ a i. ground arith) (ground (arith, last-mem head xs)) (ground arith));
      apart = apart;
    }
list_del-IsRing h head xs node (y ∷ ys) r =
    let g = list_del node h in
    let (left, right) = Chain-split h head xs node (y ∷ ys) head r.links in
    let (apart, out) = Distinct-del head xs node (y ∷ ys) r.apart in
    let (lefts, rights, far) = Distinct-split xs (y ∷ ys) apart.1 in
    let end : h.prev node ≡ last head xs = Chain-last h head xs node left in
    let out' = has-append node xs (y ∷ ys) in
    let near = has-append head xs (y ∷ ys) in
    record {
      links =
          Chain-join g head xs y ys head
            (Chain-redirect g h head xs node y left (ground (arith, near), lefts)
              (λ a i ne. ground (arith, out')) (λ a i. ground (arith, out', far a))
              (ground (arith, last-mem head xs, out')) (ground (arith, out')))
            (Chain-frame g h y ys head right.2
              (λ a i. ground (arith, out', far (last head xs), near, last-mem head xs))
              (λ a i. ground (arith, out')) (ground (arith, out', near)));
      apart = apart;
    }

-- list_del also clears the links of the node that it takes out.
pub list_del_links :
    (h : Heap) (node : ℕ) → ((list_del node h).next node ≡ 0) × ((list_del node h).prev node ≡ 0)
unfolding list_del
list_del_links h node = ground arith

-- A ring survives the writes to the links of a node that is not on it.
pub init_list_head-frame :
    (h : Heap) (head node : ℕ) (xs : List ℕ)
    → IsRing h head xs
    → node ∉ (head ∷ xs)
    → IsRing (init_list_head node h) head xs
unfolding init_list_head
init_list_head-frame h head node xs r out = record {
  links =
      Chain-frame (init_list_head node h) h head xs head r.links (λ a i. ground arith)
        (λ a i. ground arith) (ground arith);
  apart = r.apart;
}

-- INIT_NODE on a node that is not on a ring leaves the ring.
pub init_node-frame :
    (h : Heap) (head node : ℕ) (xs : List ℕ)
    → IsRing h head xs
    → node ∉ (head ∷ xs)
    → IsRing (init_node node h) head xs
unfolding init_node
init_node-frame h head node xs r out = record {
  links =
      Chain-set_prev (set_next node 0 h) head xs head node 0 (ground arith) (ground arith)
        (Chain-set_next h head xs head node 0 out r.links);
  apart = r.apart;
}

-- list_del_init takes the node out and makes it an empty list of its own.
pub list_del_init-IsRing :
    (h : Heap) (head : ℕ) (xs : List ℕ) (node : ℕ) (ys : List ℕ)
    → IsRing h head (xs ++ (node ∷ ys))
    → IsRing (list_del_init node h) head (xs ++ ys) × IsRing (list_del_init node h) node []
unfolding list_del_init
list_del_init-IsRing h head xs node ys r = (
  init_list_head-frame (list_del node h) head node (xs ++ ys) (list_del-IsRing h head xs node ys r)
      (Distinct-del head xs node ys r.apart).1,
  init_list_head-IsRing (list_del node h) node,
)

-- list_move takes a node from anywhere in its list to the front.
pub list_move-IsRing :
    (h : Heap) (head : ℕ) (xs : List ℕ) (node : ℕ) (ys : List ℕ)
    → IsRing h head (xs ++ (node ∷ ys))
    → IsRing (list_move node head h) head (node ∷ (xs ++ ys))
unfolding list_move
list_move-IsRing h head xs node ys r =
    list_add-IsRing (list_del node h) head node (xs ++ ys) (list_del-IsRing h head xs node ys r)
      (Distinct-del head xs node ys r.apart).1

-- list_move_tail takes a node from anywhere in its list to the end.
pub list_move_tail-IsRing :
    (h : Heap) (head : ℕ) (xs : List ℕ) (node : ℕ) (ys : List ℕ)
    → IsRing h head (xs ++ (node ∷ ys))
    → IsRing (list_move_tail node head h) head ((xs ++ ys) ++ (node ∷ []))
unfolding list_move_tail
list_move_tail-IsRing h head xs node ys r =
    list_add_tail-IsRing (list_del node h) head node (xs ++ ys)
      (list_del-IsRing h head xs node ys r) (Distinct-del head xs node ys r.apart).1
