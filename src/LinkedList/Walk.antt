-- ===== src/LinkedList/Walk.antt =====
-- list_for_each, list_empty and list_is_singular on rings.
use aco_os.Base.{ℕ, zero, suc, ◌<◌, ◌≡◌, List, [], ◌∷◌, ◌==◌, length, ◌∉◌, arith}
use aco_os.Base.Run.{ok}
use aco_os.LinkedList.{Heap, walk, list_for_each, list_empty, list_is_singular}
use aco_os.LinkedList.Chain.{Chain, IsRing, last-mem, Chain-last}

walk-Chain :
    (h : Heap) (head : ℕ) (k p : ℕ) (xs : List ℕ)
    → Chain h p xs head
    → head ∉ xs
    → length xs < k
    → walk k (h.next p) head h ≡ ok xs
unfolding walk
walk-Chain h head zero p xs c out fuel = absurd (omega arith)
walk-Chain h head (suc k) p [] c out fuel = ground arith
walk-Chain h head (suc k) p (x ∷ xs) c out fuel =
    let ih : walk k (h.next x) head h ≡ ok xs =
      walk-Chain h head k x xs c.2 (ground arith) (omega arith) in
    ground (arith, ih)

-- With more fuel than nodes, list_for_each visits the nodes of the list in their order.
pub list_for_each-IsRing :
    (h : Heap) (head : ℕ) (xs : List ℕ) (fuel : ℕ)
    → IsRing h head xs
    → length xs < fuel
    → list_for_each fuel head h ≡ ok xs
unfolding list_for_each
list_for_each-IsRing h head xs fuel r enough =
    walk-Chain h head fuel head xs r.links (ground arith) enough

-- list_empty and list_is_singular say how many nodes the list has.
pub list_empty-IsRing :
    (h : Heap) (head : ℕ) (xs : List ℕ)
    → IsRing h head xs
    → (list_empty head h ≡ (length xs == 0)) × (list_is_singular head h ≡ (length xs == 1))
unfolding list_is_singular
list_empty-IsRing h head [] r = ground arith
list_empty-IsRing h head (x ∷ []) r = ground arith
list_empty-IsRing h head (x ∷ (y ∷ ys)) r =
    ground (arith, Chain-last h y ys head r.links.2.2, last-mem y ys)
