-- ===== src/LinkedList/Cut.antt =====
-- list_cut_position on rings.
use aco_os.Base.{
  ℕ, ◌≡◌, false, List, [], ◌∷◌, ◌++◌, ◌==◌, has-append, ◌∈◌, ◌∉◌, Distinct, Distinct-split,
  Distinct-join, arith,
}
use aco_os.LinkedList.{Heap, cut_links, list_cut_position}
use aco_os.LinkedList.Chain.{Chain, IsRing, Chain-split, Chain-join, Chain-frame}

abbrev first : List ℕ → ℕ → ℕ
first [] node = node
first (x ∷ _) node = x

first-next :
    (h : Heap) (head : ℕ) (xs : List ℕ) (node : ℕ) (ys : List ℕ)
    → IsRing h head (xs ++ (node ∷ ys))
    → (h.next head ≡ first xs node) × (first xs node ∈ (xs ++ (node ∷ [])))
first-next h head [] node ys r = (r.links.0, ground arith)
first-next h head (x ∷ xs) node ys r = (r.links.0, ground arith)

module _ (h : Heap) (head_to head_from node : ℕ) where
  -- The node behind the cut, or the old head.
  next-mem : (ys : List ℕ) → Chain h node ys head_from → h.next node ∈ (head_from ∷ ys)
  next-mem [] c = ground arith
  next-mem (y ∷ ys) c = ground arith

  -- What is behind the node stays.
  cut_links-rest :
      (xs ys : List ℕ)
      → IsRing h head_from (xs ++ (node ∷ ys))
      → head_to ∉ (head_from ∷ (xs ++ (node ∷ ys)))
      → IsRing (cut_links head_to head_from node h) head_from ys
  unfolding cut_links
  cut_links-rest xs [] r out =
      let (left, right) = Chain-split h head_from xs node [] head_from r.links in
      let (at, among) = first-next h head_from xs node [] r in
      let from_out = has-append head_from xs (node ∷ []) in
      record {
        links = ground (arith, right, r.apart, at, among, out, from_out);
        apart = ground arith;
      }
  cut_links-rest xs (y ∷ ys) r out =
      let g = cut_links head_to head_from node h in
      let (left, right) = Chain-split h head_from xs node (y ∷ ys) head_from r.links in
      let (at, among) = first-next h head_from xs node (y ∷ ys) r in
      let (d, e, apart) = Distinct-split xs (node ∷ (y ∷ ys)) r.apart.1 in
      let from_out = has-append head_from xs (node ∷ (y ∷ ys)) in
      let to_out = has-append head_to xs (node ∷ (y ∷ ys)) in
      let early : (a : ℕ) → a ∈ (y ∷ ys) → (first xs node == a) ≡ false = λ a i.
        ground
          (arith, among, apart (first xs node), e, has-append (first xs node) xs (node ∷ [])) in
      let first_from : (first xs node == head_from) ≡ false =
        ground (arith, among, r.apart, from_out, has-append (first xs node) xs (node ∷ [])) in
      record {
        links = (
          ground (arith, right, r.apart, out, to_out, from_out),
          ground (arith, right, at, early y, out, to_out),
          Chain-frame g h y ys head_from right.2
              (λ a i. ground (arith, e, r.apart, from_out, out, to_out))
              (λ a i. ground (arith, right, at, early a, e, out, to_out))
              (ground (arith, right, at, first_from, r.apart, from_out, out)),
        );
        apart = (ground (arith, r.apart, from_out), e.1);
      }

  Distinct-front :
      (xs ys : List ℕ)
      → IsRing h head_from (xs ++ (node ∷ ys))
      → head_to ∉ (head_from ∷ (xs ++ (node ∷ ys)))
      → Distinct (head_to ∷ (xs ++ (node ∷ [])))
  Distinct-front xs ys r out =
      let (d, e, apart) = Distinct-split xs (node ∷ ys) r.apart.1 in
      (
        ground (arith, out, has-append head_to xs (node ∷ ys), has-append head_to xs (node ∷ [])),
        Distinct-join xs (node ∷ []) d (ground arith) (λ a i. ground (arith, apart a)),
      )

  -- The nodes up to it go to the other head.
  cut_links-front :
      (xs ys : List ℕ)
      → IsRing h head_from (xs ++ (node ∷ ys))
      → head_to ∉ (head_from ∷ (xs ++ (node ∷ ys)))
      → IsRing (cut_links head_to head_from node h) head_to (xs ++ (node ∷ []))
  unfolding cut_links
  cut_links-front [] ys r out = record {
    links = ground (arith, r.links, out);
    apart = Distinct-front [] ys r out;
  }
  cut_links-front (x ∷ xs) ys r out =
      let g = cut_links head_to head_from node h in
      let (left, right) = Chain-split h head_from (x ∷ xs) node ys head_from r.links in
      let (d, e, apart) = Distinct-split (x ∷ xs) (node ∷ ys) r.apart.1 in
      let behind = next-mem ys right in
      let to_out = has-append head_to (x ∷ xs) (node ∷ ys) in
      let from_out = has-append head_from (x ∷ xs) (node ∷ ys) in
      let far : (a : ℕ) → a ∈ (x ∷ xs) → (h.next node == a) ≡ false =
        λ a i. ground (arith, behind, apart a, r.apart, from_out) in
      record {
        links = (
          ground (arith, r.links),
          ground (arith, r.links),
          Chain-join g x xs node [] head_to
              (Chain-frame g h x xs node left.2
                (λ a i. ground (arith, apart a, out, to_out, r.apart, from_out))
                (λ a i. ground (arith, far a, d, out, to_out, r.links))
                (ground (arith, behind, e, r.links, r.apart, from_out, out, to_out, apart x)))
              (ground (arith, r.links)),
        );
        apart = Distinct-front (x ∷ xs) ys r out;
      }

  -- list_cut_position at a node of a list, for a head that is not on it, moves the nodes up to that one
  -- to the list of the head, in their order, and leaves those behind it.
  pub list_cut_position-IsRing :
      (xs ys : List ℕ)
      → IsRing h head_from (xs ++ (node ∷ ys))
      → head_to ∉ (head_from ∷ (xs ++ (node ∷ ys)))
      → IsRing (list_cut_position head_to head_from node h) head_to (xs ++ (node ∷ []))
        × IsRing (list_cut_position head_to head_from node h) head_from ys
  unfolding list_cut_position
  list_cut_position-IsRing xs ys r out =
      let (at, among) = first-next h head_from xs node ys r in
      let from_out = has-append head_from xs (node ∷ ys) in
      let from_first = has-append head_from xs (node ∷ []) in
      let some_node : (h.next head_from == head_from) ≡ false =
        ground (arith, at, among, r.apart, from_out, from_first) in
      let other : (head_from == node) ≡ false = ground (arith, r.apart, from_out) in
      rw (some_node, other) (cut_links-front xs ys r out, cut_links-rest xs ys r out)
