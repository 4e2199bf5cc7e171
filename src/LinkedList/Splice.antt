-- ===== src/LinkedList/Splice.antt =====
-- list_splice and list_splice_tail on rings.
use aco_os.Base.{
  Bool-cases, ℕ, ◌≡◌, sym, List, [], ◌∷◌, ◌++◌, has, has-append, ◌∉◌, Distinct, Disjoint,
  Distinct-join, arith, append-nil, subst,
}
use aco_os.LinkedList.Remove.{init_list_head-frame}
use aco_os.LinkedList.Insert.{init_list_head-IsRing}
use aco_os.LinkedList.{list_splice_init, list_splice_tail_init}
use aco_os.LinkedList.{Heap, list_splice, list_splice_tail, list_splice_init, list_splice_tail_init}
use aco_os.LinkedList.Chain.{
  Chain, IsRing, last, last-mem, Chain-last, Chain-frame, Chain-redirect, Chain-join,
}
use aco_os.LinkedList.Insert.{init_list_head-IsRing}

-- Two lists with no node in common, heads included.
module _ (h : Heap) (list : ℕ) (xs : List ℕ) (head : ℕ) (ys : List ℕ) (r : IsRing h list xs)
    (s : IsRing h head ys) (apart : Disjoint (list ∷ xs) (head ∷ ys)) where
  Distinct-splice : Distinct (head ∷ (xs ++ ys))
  Distinct-splice = (
    ground (arith, has-append head xs ys, apart head),
    Distinct-join xs ys r.apart.1 s.apart.1 (λ a i. ground (arith, apart a)),
  )

  Distinct-splice_tail : Distinct (head ∷ (ys ++ xs))
  Distinct-splice_tail = (
    ground (arith, has-append head ys xs, apart head),
    Distinct-join ys xs s.apart.1 r.apart.1 (λ a i. ground (arith, apart a, Bool-cases (has a xs))),
  )

module _ (h : Heap) (list : ℕ) (head : ℕ) where
  -- list_splice puts the nodes of the first list in front of those of the second.
  pub list_splice-IsRing :
      (xs ys : List ℕ)
      → IsRing h list xs
      → IsRing h head ys
      → Disjoint (list ∷ xs) (head ∷ ys)
      → IsRing (list_splice list head h) head (xs ++ ys)
  unfolding list_splice
  list_splice-IsRing [] ys r s apart =
      let same : list_splice list head h ≡ h = ground arith in
      subst (λ g. IsRing g head ys) (sym same) s
  list_splice-IsRing (x ∷ xs) [] r s apart =
      let g = list_splice list head h in
      let end : h.prev list ≡ last x xs = Chain-last h x xs list r.links.2 in
      record {
        links = (
          ground (arith, last-mem x xs, apart (last x xs)),
          ground (arith, last-mem x xs, apart (last x xs), apart x),
          subst (λ l. Chain g x l head) (sym (append-nil xs))
              (Chain-redirect g h x xs list head r.links.2 r.apart.1
                (λ a i ne. ground (arith, apart a)) (λ a i. ground (arith, apart a))
                (ground (arith, last-mem x xs, apart (last x xs))) (ground arith)),
        );
        apart = Distinct-splice h list (x ∷ xs) head [] r s apart;
      }
  list_splice-IsRing (x ∷ xs) (y ∷ ys) r s apart =
      let g = list_splice list head h in
      let end : h.prev list ≡ last x xs = Chain-last h x xs list r.links.2 in
      record {
        links = (
          ground (arith, last-mem x xs, apart (last x xs)),
          ground (arith, last-mem x xs, apart (last x xs), apart x),
          Chain-join g x xs y ys head
              (Chain-redirect g h x xs list y r.links.2 r.apart.1
                (λ a i ne. ground (arith, apart a)) (λ a i. ground (arith, apart a))
                (ground (arith, last-mem x xs, apart (last x xs))) (ground (arith)))
              (Chain-frame g h y ys head s.links.2
                (λ a i. ground (arith, apart a, apart (last x xs), last-mem x xs))
                (λ a i. ground (arith, apart a, apart x)) (ground (arith, apart x))),
        );
        apart = Distinct-splice h list (x ∷ xs) head (y ∷ ys) r s apart;
      }

  -- list_splice_tail puts them behind.
  pub list_splice_tail-IsRing :
      (xs ys : List ℕ)
      → IsRing h list xs
      → IsRing h head ys
      → Disjoint (list ∷ xs) (head ∷ ys)
      → IsRing (list_splice_tail list head h) head (ys ++ xs)
  unfolding list_splice_tail
  list_splice_tail-IsRing [] ys r s apart =
      let same : list_splice_tail list head h ≡ h = ground arith in
      subst (λ l. IsRing (list_splice_tail list head h) head l) (sym (append-nil ys))
        (subst (λ g. IsRing g head ys) (sym same) s)
  list_splice_tail-IsRing (x ∷ xs) ys r s apart =
      let g = list_splice_tail list head h in
      let end : h.prev list ≡ last x xs = Chain-last h x xs list r.links.2 in
      let end' : h.prev head ≡ last head ys = Chain-last h head ys head s.links in
      let far = last-mem x xs in
      let near = last-mem head ys in
      record {
        links =
            Chain-join g head ys x xs head
              (Chain-redirect g h head ys head x s.links s.apart
                (λ a i ne. ground (arith, far, apart a, apart (last x xs)))
                (λ a i. ground (arith, apart x)) (ground (arith, near, far, apart (last x xs)))
                (ground (arith, apart x)))
              (Chain-redirect g h x xs list head r.links.2 r.apart.1
                (λ a i ne. ground (arith, near, apart a)) (λ a i. ground (arith, apart a))
                (ground (arith, near, far, apart (last x xs))) (ground (arith, apart x)));
        apart = Distinct-splice_tail h list (x ∷ xs) head ys r s apart;
      }

  out_of_splice :
      (xs ys : List ℕ)
      → IsRing h list xs
      → Disjoint (list ∷ xs) (head ∷ ys)
      → list ∉ (head ∷ (xs ++ ys))
  out_of_splice xs ys r apart = ground (arith, apart list, has-append list xs ys, r.apart)

  out_of_splice_tail :
      (xs ys : List ℕ)
      → IsRing h list xs
      → Disjoint (list ∷ xs) (head ∷ ys)
      → list ∉ (head ∷ (ys ++ xs))
  out_of_splice_tail xs ys r apart = ground (arith, apart list, has-append list ys xs, r.apart)

  -- On lists that share no node, list_splice_init puts the nodes of the first list in front of those of
  -- the second, list_splice_tail_init behind them; both leave the first list empty.
  pub list_splice_init-IsRing :
      (xs ys : List ℕ)
      → IsRing h list xs
      → IsRing h head ys
      → Disjoint (list ∷ xs) (head ∷ ys)
      → IsRing (list_splice_init list head h) head (xs ++ ys)
        × IsRing (list_splice_init list head h) list []
        × IsRing (list_splice_tail_init list head h) head (ys ++ xs)
        × IsRing (list_splice_tail_init list head h) list []
  unfolding list_splice_init list_splice_tail_init
  list_splice_init-IsRing xs ys r s apart =
      let front = list_splice list head h in
      let back = list_splice_tail list head h in
      (
        init_list_head-frame front head list (xs ++ ys) (list_splice-IsRing xs ys r s apart)
            (out_of_splice xs ys r apart),
        init_list_head-IsRing front list,
        init_list_head-frame back head list (ys ++ xs) (list_splice_tail-IsRing xs ys r s apart)
            (out_of_splice_tail xs ys r apart),
        init_list_head-IsRing back list,
      )
