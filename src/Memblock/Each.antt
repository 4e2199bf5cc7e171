-- ===== src/Memblock/Each.antt =====
-- module/mm/allocators/memblock.c: the functions that call back for each free block. The callback gets
-- the block and may change the allocator and its list; the iteration has fuel.
use aco_os.Base.{
  ℕ, zero, suc, ◌+◌, ◌^◌, ◌<◌, ◌≡◌, refl, sym, subst, Bool, true, false, ◌&&◌, not, List, [], ◌∷◌,
  ◌++◌, ◌==◌, if◌then◌else◌, ◌∈◌, has-append, length, arith, Bool-cases, inl, inr, append_assoc, ap,
  ◌∙◌,
}
use aco_os.Base.Int.{ℤ, pos, negsuc, inc, is_zero}
use aco_os.Base.Run.{Run, ok, out_of_fuel}
use aco_os.LinkedList.Chain.{IsRing, Chain-split}
use aco_os.Memblock.{Mmblock, magic_value, node_of, block_of}
use aco_os.Memblock.Pool.{nodes, IsPool}

-- `foreach_func`
abbrev pub ForeachFunc : Type 0
ForeachFunc = ℕ → Mmblock → ℤ × Mmblock

-- -EINVAL
abbrev pub minus_einval : ℤ
minus_einval = negsuc 21

-- The two loops of foreach_nodes, over list_for_each and list_for_each_safe.
pub each_node : ForeachFunc → Bool → ℕ → ℕ → ℤ → Mmblock → Run (ℤ × Mmblock)
each_node f continue_when_error zero ptr ret s = out_of_fuel
each_node f continue_when_error (suc fuel) ptr ret s =
    let (r, t) = f (block_of ptr) s in
    let rest =
      each_node f continue_when_error fuel (t.heap.next ptr) (if is_zero r then r else inc r) t in
    if ptr == s.list
    then ok (ret, s)
    else if not (is_zero r) && not continue_when_error
    then ok (r, t)
    else rest

pub each_node_safe : ForeachFunc → Bool → ℕ → ℕ → ℕ → ℤ → Mmblock → Run (ℤ × Mmblock)
each_node_safe f continue_when_error zero ptr safe ret s = out_of_fuel
each_node_safe f continue_when_error (suc fuel) ptr safe ret s =
    let (r, t) = f (block_of ptr) s in
    let rest =
      each_node_safe f continue_when_error fuel safe (t.heap.next safe)
        (if is_zero r then r else inc r) t in
    if ptr == s.list
    then ok (ret, s)
    else if not (is_zero r) && not continue_when_error
    then ok (r, t)
    else rest

pub foreach_nodes : ℕ → ForeachFunc → Bool → Bool → Mmblock → Run (ℤ × Mmblock)
foreach_nodes fuel f is_safe continue_when_error s =
    let first = s.heap.next s.list in
    if is_safe
    then each_node_safe f continue_when_error fuel first (s.heap.next first) (pos 0) s
    else each_node f continue_when_error fuel first (pos 0) s

pub memblock_for_each : ℕ → ForeachFunc → Mmblock → Run (ℤ × Mmblock)
memblock_for_each fuel f s =
    if not (s.magic_number == magic_value)
    then ok (minus_einval, s)
    else foreach_nodes fuel f false false s

pub memblock_for_each_safe : ℕ → ForeachFunc → Mmblock → Run (ℤ × Mmblock)
memblock_for_each_safe fuel f s =
    if not (s.magic_number == magic_value)
    then ok (minus_einval, s)
    else foreach_nodes fuel f true false s

-- The callback on one block after the other, up to the first error.
abbrev pub call_all : ForeachFunc → List ℕ → Mmblock → ℤ × Mmblock
call_all f [] s = (pos 0, s)
call_all f (b ∷ bs) s =
    let (r, t) = f b s in let rest = call_all f bs t in if is_zero r then rest else (r, t)

-- The callback for `b` keeps the nodes behind it on the list, in their order, and does to the nodes
-- before it, and to that of `b`, what it likes.
abbrev pub Spares : ForeachFunc → Type 0
Spares f =
    (b : ℕ) (bs before : List ℕ) (s : Mmblock)
    → IsRing s.heap s.list (before ++ (node_of b ∷ nodes bs))
    → ((f b s).1.list ≡ s.list)
      × ((before' : List ℕ) × IsRing (f b s).1.heap s.list (before' ++ nodes bs))

-- And the node of `b` stays on the list, before the others.
abbrev pub Keeps : ForeachFunc → Type 0
Keeps f =
    (b : ℕ) (bs before : List ℕ) (s : Mmblock)
    → IsRing s.heap s.list (before ++ (node_of b ∷ nodes bs))
    → ((f b s).1.list ≡ s.list)
      × ((before' : List ℕ) × IsRing (f b s).1.heap s.list (before' ++ (node_of b ∷ nodes bs)))

abbrev first_or : ℕ → List ℕ → ℕ
first_or head [] = head
first_or head (b ∷ _) = node_of b

-- The link behind a node of a ring.
next-IsRing :
    (s : Mmblock) (before : List ℕ) (b : ℕ) (bs : List ℕ) (head : ℕ)
    → IsRing s.heap head (before ++ (node_of b ∷ nodes bs))
    → s.heap.next (node_of b) ≡ first_or head bs
next-IsRing s before b [] head r = (Chain-split s.heap head before (node_of b) [] head r.links).1.0
next-IsRing s before b (c ∷ bs) head r =
    (Chain-split s.heap head before (node_of b) (nodes (c ∷ bs)) head r.links).1.0

not_head :
    (s : Mmblock) (before : List ℕ) (b : ℕ) (bs : List ℕ) (head : ℕ)
    → IsRing s.heap head (before ++ (node_of b ∷ nodes bs))
    → (node_of b == head) ≡ false
not_head s before b bs head r =
    ground (arith, r.apart, has-append head before (node_of b ∷ nodes bs))

first-IsRing :
    (s : Mmblock) (bs : List ℕ)
    → IsRing s.heap s.list (nodes bs)
    → s.heap.next s.list ≡ first_or s.list bs
first-IsRing s [] r = r.links.0
first-IsRing s (b ∷ bs) r = r.links.0

-- The headers of these blocks do not wrap.
abbrev pub Below : List ℕ → Type 0
Below bs = (b : ℕ) → b ∈ bs → b + 8 < 2 ^ 64

block_of-node_of : (b : ℕ) → b + 8 < 2 ^ 64 → block_of (node_of b) ≡ b
block_of-node_of b small = omega arith

pos_of_zero : (r : ℤ) → is_zero r ≡ true → r ≡ pos 0
pos_of_zero (pos zero) z = refl
pos_of_zero (pos (suc n)) z = absurd (ground (arith, z))
pos_of_zero (negsuc n) z = absurd (ground (arith, z))

module _ (f : ForeachFunc) where
  each_node-call_all :
      (keeps : Keeps f) (fuel : ℕ) (bs before : List ℕ) (s : Mmblock)
      → IsRing s.heap s.list (before ++ nodes bs)
      → Below bs
      → length bs < fuel
      → each_node f false fuel (first_or s.list bs) (pos 0) s ≡ ok (call_all f bs s)
  unfolding each_node
  each_node-call_all keeps zero bs before s r small enough = absurd (omega arith)
  each_node-call_all keeps (suc fuel) [] before s r small enough =
      let here : (s.list == s.list) ≡ true = ground arith in rw here refl
  each_node-call_all keeps (suc fuel) (b ∷ bs) before s r small enough =
      let away = not_head s before b bs s.list r in
      let block = block_of-node_of b (small b (ground arith)) in
      let (same, (before', r')) = keeps b bs before s r in
      let t = (f b s).1 in
      elim (Bool-cases (is_zero (f b s).0)) [
        | inr z ↦ rw (away, block, z) refl
        | inl z ↦
            let next : t.heap.next (node_of b) ≡ first_or t.list bs =
              next-IsRing t before' b bs s.list r' ∙ ap (λ h. first_or h bs) (sym same) in
            let zero_ret = pos_of_zero (f b s).0 z in
            let ring : IsRing t.heap t.list ((before' ++ (node_of b ∷ [])) ++ nodes bs) =
              subst (λ h. IsRing t.heap h ((before' ++ (node_of b ∷ [])) ++ nodes bs)) (sym same)
                (subst (λ l. IsRing t.heap s.list l)
                  (sym (append_assoc before' (node_of b ∷ []) (nodes bs))) r') in
            let ih =
              each_node-call_all keeps fuel bs (before' ++ (node_of b ∷ [])) t ring
                (λ c m. small c (ground arith)) (omega arith) in
            let go : each_node f false fuel (t.heap.next (node_of b)) (f b s).0 t
                ≡ ok (call_all f bs t) =
              ap (λ p. each_node f false fuel p (f b s).0 t) next
              ∙ ap (λ x. each_node f false fuel (first_or t.list bs) x t) zero_ret
              ∙ ih in
            rw (away, block, z) go
      ]

  each_node_safe-call_all :
      (spares : Spares f) (fuel : ℕ) (bs before : List ℕ) (safe : ℕ) (s : Mmblock)
      → IsRing s.heap s.list (before ++ nodes bs)
      → Below bs
      → length bs < fuel
      → safe ≡ s.heap.next (first_or s.list bs)
      → each_node_safe f false fuel (first_or s.list bs) safe (pos 0) s ≡ ok (call_all f bs s)
  unfolding each_node_safe
  each_node_safe-call_all spares zero bs before safe s r small enough at = absurd (omega arith)
  each_node_safe-call_all spares (suc fuel) [] before safe s r small enough at =
      let here : (s.list == s.list) ≡ true = ground arith in rw here refl
  each_node_safe-call_all spares (suc fuel) (b ∷ bs) before safe s r small enough at =
      let away = not_head s before b bs s.list r in
      let block = block_of-node_of b (small b (ground arith)) in
      let (same, (before', r')) = spares b bs before s r in
      let t = (f b s).1 in
      elim (Bool-cases (is_zero (f b s).0)) [
        | inr z ↦ rw (away, block, z) refl
        | inl z ↦
            let next : safe ≡ first_or t.list bs =
              at ∙ next-IsRing s before b bs s.list r ∙ ap (λ h. first_or h bs) (sym same) in
            let zero_ret = pos_of_zero (f b s).0 z in
            let ring : IsRing t.heap t.list (before' ++ nodes bs) =
              subst (λ h. IsRing t.heap h (before' ++ nodes bs)) (sym same) r' in
            let ih =
              each_node_safe-call_all spares fuel bs before' (t.heap.next safe) t ring
                (λ c m. small c (ground arith)) (omega arith) (ap (λ p. t.heap.next p) next) in
            let go : each_node_safe f false fuel safe (t.heap.next safe) (f b s).0 t
                ≡ ok (call_all f bs t) =
              ap (λ p. each_node_safe f false fuel p (t.heap.next safe) (f b s).0 t) next
              ∙ ap (λ x. each_node_safe f false fuel (first_or t.list bs) (t.heap.next safe) x t)
                  zero_ret
              ∙ ih in
            rw (away, block, z) go
      ]

  -- On a well-formed allocator, with more fuel than there are free blocks, memblock_for_each calls
  -- back for each free block in the order of the list, up to the first error, if the callback keeps
  -- the block on the list with the later ones behind it.
  pub memblock_for_each-call_all :
      Keeps f
      → (s : Mmblock) (bs : List ℕ) (fuel : ℕ) → IsPool s bs
      → length bs < fuel
      → memblock_for_each fuel f s ≡ ok (call_all f bs s)
  unfolding memblock_for_each foreach_nodes
  memblock_for_each-call_all keeps s bs fuel h enough =
      let right : (s.magic_number == magic_value) ≡ true = ground (arith, h.magic) in
      rw (right, first-IsRing s bs h.ring)
        (each_node-call_all keeps fuel bs [] s h.ring h.below enough)

  -- On a well-formed allocator, with more fuel than there are free blocks, memblock_for_each_safe calls
  -- back for each free block in the order of the list, up to the first error, if the callback keeps
  -- the later blocks on the list, in their order; the block itself it may take off.
  pub memblock_for_each_safe-call_all :
      Spares f
      → (s : Mmblock) (bs : List ℕ) (fuel : ℕ) → IsPool s bs
      → length bs < fuel
      → memblock_for_each_safe fuel f s ≡ ok (call_all f bs s)
  unfolding memblock_for_each_safe foreach_nodes
  memblock_for_each_safe-call_all spares s bs fuel h enough =
      let right : (s.magic_number == magic_value) ≡ true = ground (arith, h.magic) in
      rw (right, first-IsRing s bs h.ring)
        (each_node_safe-call_all spares fuel bs [] (s.heap.next (first_or s.list bs)) s h.ring
          h.below enough refl)
