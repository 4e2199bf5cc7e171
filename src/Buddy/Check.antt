-- ===== src/Buddy/Check.antt =====
-- buddy_slfcheck of module/mm/buddy/buddy_allocator.c: the self check of the pools.
use aco_os.Base.{
  ℕ, zero, suc, ◌+◌, ◌*◌, ◌%◌, ◌^◌, ◌≤◌, ◌<◌, ◌≡◌, refl, Bool, true, false, ◌&&◌, not, List, [],
  ◌∷◌, ◌==◌, if◌then◌else◌, ◌∈◌, arith, length,
}
use aco_os.Base.Errno.{Errno, success, efault}
use aco_os.Base.Int.{ℤ, pos, dec, is_zero}
use aco_os.Pageframe.{page_size, word_mod, int_bits, extend_sign}
use aco_os.Buddy.{State, Config, order2byte}
use aco_os.Buddy.Neighbour.{pow_mono}
use aco_os.Buddy.Invariant.{IsBuddy}

-- The iteration over one list: `rest_block--` for each block, and `err` for a wrong order.
pub check_list : State → ℕ → List ℕ → ℤ → Bool → ℤ × Bool
check_list s i [] rest_block err = (rest_block, err)
check_list s i (p ∷ ps) rest_block err =
    check_list s i ps (dec rest_block) (if (s.pages p).buddy_order == i then err else true)

-- buddy_slfcheck: the int `block_size` against the 64-bit size, with `rounds` orders to go from `i` on
pub check_pools : ℕ → ℕ → State → Errno
check_pools zero i s = success
check_pools (suc rounds) i s =
    let next = check_pools rounds (i + 1) s in
    let pool = s.pools i in
    if extend_sign pool.block_size == 2 ^ i * page_size % word_mod
    then (let (rest, err) = check_list s i pool.list pool.rest_block_num false in
        if is_zero rest && not err then next else efault)
    else efault

pub buddy_slfcheck : Config → State → Errno
buddy_slfcheck c s = check_pools c.max_order 0 s

check_list-ok :
    (s : State) (i : ℕ) (ps : List ℕ)
    → ((p : ℕ) → p ∈ ps → (s.pages p).buddy_order ≡ i)
    → check_list s i ps (pos (length ps)) false ≡ (pos 0, false)
unfolding check_list
check_list-ok s i [] h = refl
check_list-ok s i (p ∷ ps) h =
    let here : ((s.pages p).buddy_order == i) ≡ true = ground (arith, h p) in
    rw here (check_list-ok s i ps (λ q m. h q (ground arith)))

module _ {c : Config} (s : State) (inv : IsBuddy c s) (few : c.max_order ≤ 19)
    (sizes : (i : ℕ) → i < c.max_order → (s.pools i).block_size ≡ int_bits (order2byte i)) where
  check_pools-success : (rounds i : ℕ) → rounds + i ≡ c.max_order → check_pools rounds i s ≡ success
  unfolding check_pools
  check_pools-success zero i e = refl
  check_pools-success (suc rounds) i e =
      let small : i < c.max_order = omega arith in
      let ok_list : check_list s i (s.pools i).list (s.pools i).rest_block_num false
          ≡ (pos 0, false) =
        rw (inv.counted i small)
          (check_list-ok s i (s.pools i).list (λ p m. (inv.listed i p small m).1.2)) in
      let ok_size : (extend_sign (s.pools i).block_size == 2 ^ i * page_size % word_mod) ≡ true =
        ground (arith, sizes i, pow_mono i 18) in
      rw (ok_size, ok_list) (check_pools-success rounds (i + 1) (omega arith))

  -- On well-formed frames and pools with the block sizes of buddy_module_init, and MAX_ORDER at most 19,
  -- the self check passes.
  pub buddy_slfcheck-success : buddy_slfcheck c s ≡ success
  unfolding buddy_slfcheck
  buddy_slfcheck-success = check_pools-success c.max_order 0 (omega arith)
