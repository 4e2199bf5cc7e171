-- ===== src/Buddy/Interface.antt =====
-- bk_alloc and bk_free of module/mm/buddy/buddy_allocator.c: addresses in place of page frames.
use aco_os.Base.{ℕ, ◌+◌, ◌<◌, ◌≡◌, refl, false, ◌||◌, not, none, some, ◌==◌, if◌then◌else◌, arith}
use aco_os.Base.Int.{ℤ}
use aco_os.Base.Run.{Run, ok, Returns, ◌>>=◌}
use aco_os.Pageframe.{page_size, id2va, va2id, va_valid}
use aco_os.Pageframe.Address.{va2id-id2va, id2va_lem}
use aco_os.Buddy.{State, Config, bkp_alloc, bkp_free}
use aco_os.Buddy.Neighbour.{IsConfig, pow-pos}
use aco_os.Buddy.Invariant.{IsBuddy}
use aco_os.Buddy.Free.{InUse, Freed, bkp_free-Freed}

-- bk_alloc: the address of the block, 0 for NULL
unfoldable pub bk_alloc : Config → ℤ → State → Run (ℕ × State)
bk_alloc c order s = do
  (page, t) ← bkp_alloc c order s
  ok (elim page [ none ↦ 0 | some p ↦ id2va c.layout p ], t)

pub bk_free : Config → ℕ → State → Run State
bk_free c address s =
    if address == 0 || not (va_valid c.layout address)
    then ok s
    else bkp_free c (va2id c.layout address) s

-- On well-formed frames and pools, bk_free takes any address within the first page of a block in use,
-- and does to that block what bkp_free does; NULL and
-- an address outside the managed memory it ignores.
pub bk_free-Freed :
    {c : Config} (s : State) (p k off outside : ℕ)
    → IsConfig c
    → IsBuddy c s
    → InUse c s p k
    → off < page_size
    → va_valid c.layout outside ≡ false
    → Returns (Freed c p k s) (bk_free c (id2va c.layout p + off) s)
      × (bk_free c 0 s ≡ ok s)
      × (bk_free c outside s ≡ ok s)
unfolding bk_free
bk_free-Freed {c} s p k off outside wf inv b small out =
    let (id, valid) = va2id-id2va wf.layout p off b.in_range small in
    let some_address : (id2va c.layout p + off == 0) ≡ false =
      ground (arith, id2va_lem wf.layout p b.in_range, wf.below, pow-pos c.max_order) in
    (rw (some_address, valid, id) (bkp_free-Freed s p k wf inv b), refl, ground (arith, out))
