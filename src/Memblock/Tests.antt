-- ===== src/Memblock/Tests.antt =====
-- Three blocks of 32 bytes from 4096 on, and the theorems at them.
use aco_os.Base.{◌≡◌, ◌/◌, inl, inr, refl, [], ◌∷◌, ◌==◌, if◌then◌else◌, arith}
use aco_os.Base.Errno.{success, einval}
use aco_os.Base.Run.{ok}
use aco_os.Base.Int.{pos}
use aco_os.LinkedList.{list_del_init}
use aco_os.LinkedList.Remove.{list_del_init-IsRing}
use aco_os.Memblock.Each.{
  ForeachFunc, Spares, call_all, memblock_for_each_safe, memblock_for_each_safe-call_all,
}
use aco_os.Memblock.{
  Mmblock, node_of, magic_value, memblock_allocator_init, memblock_alloc, memblock_free,
  memblock_self_check,
}
use aco_os.Memblock.Pool.{
  nodes, IsPool, memblock_alloc-IsPool, memblock_free-IsPool, memblock_free_ignored,
  memblock_self_check-IsPool,
}
use aco_os.Memblock.Init.{
  IsArea, firsts, memblock_allocator_init-IsPool, memblock_allocator_init_einval,
}

abbrev unset : Mmblock
unset = record {
  magic_number = 0;
  pa_start = 0;
  block_size = 0;
  total_block = 0;
  rest_block = 0;
  list = 100;
  heap = record { prev = λ a. 0; next = λ a. 0 };
  magic = λ b. 0;
}

area : IsArea 4096 96 32 100
area = record {
  start = omega arith;
  size_pos = omega arith;
  whole = refl;
  header = omega arith;
  small = omega arith;
  ends = omega arith;
  apart = inl (omega arith);
}

memblock_allocator_init-IsPool_example :
    ((memblock_allocator_init 4096 96 32 unset).0 ≡ success)
    × IsPool (memblock_allocator_init 4096 96 32 unset).1 (firsts 4096 32 (96 / 32))
memblock_allocator_init-IsPool_example = memblock_allocator_init-IsPool 4096 96 32 unset area

memblock_allocator_init_einval_example : memblock_allocator_init 4096 100 32 unset ≡ (einval, unset)
memblock_allocator_init_einval_example =
    memblock_allocator_init_einval 4096 100 32 unset (inr (inr (inr (omega arith))))

abbrev pool : Mmblock
pool = record {
  magic_number = magic_value;
  pa_start = 4096;
  block_size = 32;
  total_block = 2;
  rest_block = 1;
  list = 100;
  heap = record {
    prev = λ a. if a == 100 then 4136 else 100;
    next = λ a. if a == 100 then 4136 else 100;
  };
  magic = λ b. magic_value;
}

pool-IsPool : IsPool pool (4128 ∷ [])
pool-IsPool = record {
  ring = record { links = (refl, refl, (refl, refl)); apart = (refl, (refl, tt)) };
  magic = refl;
  rest = refl;
  total = omega arith;
  marked = λ b m. refl;
  below = λ b m. ground arith;
}

memblock_alloc-IsPool_example : ((memblock_alloc pool).0 ≡ 4128) × IsPool (memblock_alloc pool).1 []
memblock_alloc-IsPool_example = memblock_alloc-IsPool pool (4128 ∷ []) pool-IsPool

memblock_free-IsPool_example : IsPool (memblock_free 4096 pool) (4128 ∷ (4096 ∷ []))
memblock_free-IsPool_example =
    memblock_free-IsPool pool (4128 ∷ []) 4096 pool-IsPool (λ e. ground (arith, e)) (omega arith)
      refl (omega arith)

memblock_free_ignored_example : memblock_free 0 pool ≡ pool
memblock_free_ignored_example = memblock_free_ignored pool 0 (inl refl)

memblock_self_check-IsPool_example : memblock_self_check 2 pool ≡ ok success
memblock_self_check-IsPool_example =
    memblock_self_check-IsPool pool (4128 ∷ []) 2 pool-IsPool (omega arith)

-- A callback that takes the block off the list, as memblock_alloc does.
abbrev take_off : ForeachFunc
take_off b s = (pos 0, record s { heap = list_del_init (node_of b) s.heap })

take_off-Spares : Spares take_off
take_off-Spares b bs before s r =
    (refl, (before, (list_del_init-IsRing s.heap s.list before (node_of b) (nodes bs) r).0))

memblock_for_each_safe-call_all_example :
    memblock_for_each_safe 2 take_off pool ≡ ok (call_all take_off (4128 ∷ []) pool)
memblock_for_each_safe-call_all_example =
    memblock_for_each_safe-call_all take_off take_off-Spares pool (4128 ∷ []) 2 pool-IsPool
      (omega arith)
