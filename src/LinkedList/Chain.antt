-- ===== src/LinkedList/Chain.antt =====
-- Rings of nodes: what the links of a list with a head look like, and which writes they survive.
use aco_os.Base.{
  Distinct-split, Distinct-join, has-append, ℕ, ◌≡◌, false, List, [], ◌∷◌, ◌++◌, ◌==◌, ◌∈◌, ◌∉◌,
  Distinct, arith,
}
use aco_os.LinkedList.{Heap, set_next, set_prev}

-- From `p` the links run through `xs` to `q`, forward and back.
abbrev pub Chain : Heap → ℕ → List ℕ → ℕ → Type 0
Chain h p [] q = (h.next p ≡ q) × (h.prev q ≡ p)
Chain h p (x ∷ xs) q = (h.next p ≡ x) × (h.prev x ≡ p) × Chain h x xs q

-- The list with this head holds the nodes `xs`, in this order.
pub record IsRing (h : Heap) (head : ℕ) (xs : List ℕ) : Type 0 where
  pub links : Chain h head xs head
  pub apart : Distinct (head ∷ xs)

-- The node before the end of a chain.
abbrev pub last : ℕ → List ℕ → ℕ
last p [] = p
last p (x ∷ xs) = last x xs

pub Chain-last : (h : Heap) (p : ℕ) (xs : List ℕ) (q : ℕ) → Chain h p xs q → h.prev q ≡ last p xs
Chain-last h p [] q c = c.1
Chain-last h p (x ∷ xs) q c = Chain-last h x xs q c.2

pub Chain-next_last :
    (h : Heap) (p : ℕ) (xs : List ℕ) (q : ℕ) → Chain h p xs q → h.next (last p xs) ≡ q
Chain-next_last h p [] q c = c.0
Chain-next_last h p (x ∷ xs) q c = Chain-next_last h x xs q c.2

pub last-mem : (p : ℕ) (xs : List ℕ) → last p xs ∈ (p ∷ xs)
last-mem p [] = ground arith
last-mem p (x ∷ xs) = ground (arith, last-mem x xs)

-- The links that a chain reads: `next` of `p` and `xs`, `prev` of `xs` and `q`.
pub Chain-set_next :
    (h : Heap) (p : ℕ) (xs : List ℕ) (q a v : ℕ)
    → a ∉ (p ∷ xs)
    → Chain h p xs q
    → Chain (set_next a v h) p xs q
Chain-set_next h p [] q a v out c = ground arith
Chain-set_next h p (x ∷ xs) q a v out c =
    (ground arith, c.1, Chain-set_next h x xs q a v (ground arith) c.2)

pub Chain-set_prev :
    (h : Heap) (p : ℕ) (xs : List ℕ) (q a v : ℕ)
    → a ∉ xs
    → (a == q) ≡ false
    → Chain h p xs q
    → Chain (set_prev a v h) p xs q
Chain-set_prev h p [] q a v out ne c = ground arith
Chain-set_prev h p (x ∷ xs) q a v out ne c =
    (c.0, ground arith, Chain-set_prev h x xs q a v (ground arith) ne c.2)

-- A chain may be cut at a node, and two chains that meet join.
pub Chain-split :
    (h : Heap) (p : ℕ) (xs : List ℕ) (n : ℕ) (ys : List ℕ) (q : ℕ)
    → Chain h p (xs ++ (n ∷ ys)) q
    → Chain h p xs n × Chain h n ys q
Chain-split h p [] n ys q c = ((c.0, c.1), c.2)
Chain-split h p (x ∷ xs) n ys q c =
    let (left, right) = Chain-split h x xs n ys q c.2 in ((c.0, c.1, left), right)

pub Chain-join :
    (h : Heap) (p : ℕ) (xs : List ℕ) (n : ℕ) (ys : List ℕ) (q : ℕ)
    → Chain h p xs n
    → Chain h n ys q
    → Chain h p (xs ++ (n ∷ ys)) q
Chain-join h p [] n ys q c d = (c.0, c.1, d)
Chain-join h p (x ∷ xs) n ys q c d = (c.0, c.1, Chain-join h x xs n ys q c.2 d)

-- A chain whose last link is turned to `q`, where nothing else that it reads has changed.
pub Chain-redirect :
    (g h : Heap) (p : ℕ) (xs : List ℕ) (n q : ℕ)
    → Chain h p xs n
    → Distinct (p ∷ xs)
    → ((a : ℕ) → a ∈ (p ∷ xs) → (a == last p xs) ≡ false → g.next a ≡ h.next a)
    → ((a : ℕ) → a ∈ xs → g.prev a ≡ h.prev a)
    → g.next (last p xs) ≡ q
    → g.prev q ≡ last p xs
    → Chain g p xs q
Chain-redirect g h p [] n q c d same_next same_prev e f = (e, f)
Chain-redirect g h p (x ∷ xs) n q c d same_next same_prev e f = (
  ground (arith, same_next p, last-mem x xs),
  ground (arith, same_prev x),
  Chain-redirect g h x xs n q c.2 d.1 (λ a i ne. same_next a (ground arith) ne)
      (λ a i. same_prev a (ground arith)) e f,
)

-- A chain of which nothing that it reads has changed.
pub Chain-frame :
    (g h : Heap) (p : ℕ) (xs : List ℕ) (q : ℕ)
    → Chain h p xs q
    → ((a : ℕ) → a ∈ (p ∷ xs) → g.next a ≡ h.next a)
    → ((a : ℕ) → a ∈ xs → g.prev a ≡ h.prev a)
    → g.prev q ≡ h.prev q
    → Chain g p xs q
Chain-frame g h p [] q c same_next same_prev e = ground (arith, same_next p)
Chain-frame g h p (x ∷ xs) q c same_next same_prev e = (
  ground (arith, same_next p),
  ground (arith, same_prev x),
  Chain-frame g h x xs q c.2 (λ a i. same_next a (ground arith)) (λ a i. same_prev a (ground arith))
      e,
)

-- Distinctness of a ring seen from another of its nodes.
pub Distinct-rotate :
    (head : ℕ) (xs : List ℕ) (n : ℕ) (ys : List ℕ)
    → Distinct (head ∷ (xs ++ (n ∷ ys)))
    → Distinct (n ∷ (ys ++ (head ∷ xs)))
Distinct-rotate head xs n ys d =
    let (left, right, apart) = Distinct-split xs (n ∷ ys) d.1 in
    let near = has-append head xs (n ∷ ys) in
    (
      ground (arith, has-append n ys (head ∷ xs), apart n, near),
      Distinct-join ys (head ∷ xs) right.1 (ground (arith, near), left)
          (λ a i. ground (arith, near, apart a)),
    )

-- A ring seen from another of its nodes.
pub IsRing-rotate :
    (h : Heap) (head : ℕ) (xs : List ℕ) (n : ℕ) (ys : List ℕ)
    → IsRing h head (xs ++ (n ∷ ys))
    → IsRing h n (ys ++ (head ∷ xs))
IsRing-rotate h head xs n ys r =
    let (left, right) = Chain-split h head xs n ys head r.links in
    record {
      links = Chain-join h n ys head xs n right left;
      apart = Distinct-rotate head xs n ys r.apart;
    }
