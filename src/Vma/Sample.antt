-- ===== src/Vma/Sample.antt =====
-- The tables of the sample in Sv39, whose frame 6 is a slab of the cache of areas, and a vma of one area.
use aco_os.Base.{
  ◌+◌, ◌*◌, ◌^◌, ◌≡◌, refl, ℕ, true, false, List, [], ◌∷◌, ◌==◌, if◌then◌else◌, none, arith,
}
use aco_os.Base.Int.{pos}
use aco_os.Pageframe.{slab_allocator, id2va}
use aco_os.Buddy.Sample.{config, config-IsConfig, one_free, one_free-IsBuddy, one_free-InUse}
use aco_os.Sv39.Sample.{root, shape, space, space-IsRoot}
use aco_os.Sv39.Backing.{UsedPage, stays}
use aco_os.Sv39.Others.{IsRoot-moved}
use aco_os.Slab.{Slab, minus_one}
use aco_os.Slab.FreeList.{IsSlab}
use aco_os.KmemCache.{Cache, Memory, set_pgtype}
use aco_os.KmemCache.Retype.{set_pgtype-IsBuddy}
use aco_os.KmemCache.Invariant.{InPages, IsCache}
use aco_os.KmemCache.Objects.{InUse}
use aco_os.Avl.Lists.{sorted_lists}
use aco_os.Vma.{Vma, vma_io}
use aco_os.Vma.Map.{World}
use aco_os.Vma.Map.Parts.{IsWorld}
use aco_os.Vma.Map.Sv39.{HasTables}

-- Object 0, of an area, is in use, object 1 is free.
abbrev half : Slab
half = record {
  obj_all = 2;
  obj_free = 1;
  obj_size = 16;
  mem_free_head = 1;
  mem_free_tail = 1;
  mem_index_start = 2 ^ 32 + 6 * 4096 + 40;
  mem_obj_start = 2 ^ 32 + 6 * 4096 + 48;
  index = λ i. if i == 1 then 1 else minus_one;
}

half-IsSlab : IsSlab half (1 ∷ [])
half-IsSlab = record {
  queue = (refl, refl, refl);
  free = refl;
  inside = λ i m. ground arith;
  distinct = (refl, tt);
  used = λ i h m. ground arith;
  size_pos = omega arith;
  few = omega arith;
  fits = omega arith;
  start_pos = omega arith;
  ends = omega arith;
}

half-InPages : InPages config 0 6 half
unfolding id2va
half-InPages = record { some_object = omega arith; above = omega arith; below = omega arith }

abbrev plain : Memory
plain = record { buddy = one_free; slabs = λ _. half }

abbrev pub memory : Memory
memory = set_pgtype slab_allocator 6 plain

abbrev pub cache : Cache
cache = record {
  obj_num = pos 1;
  obj_size = 16;
  pg_order = 0;
  pg_orlimit = 2;
  pg_orhas = 1;
  color_offset = 5;
  free = [];
  full = [];
  partial = 6 ∷ [];
}

cache-IsCache : IsCache config cache memory (λ _. 1 ∷ [])
cache-IsCache =
    let b = one_free-InUse 6 (omega arith) (omega arith) (omega arith) in
    record {
      buddy = set_pgtype-IsBuddy config slab_allocator 6 plain b.in_use b.in_range one_free-IsBuddy;
      holds = λ p l.
          let e : p ≡ 6 = ground arith in
          rw e (record {
            in_range = b.in_range;
            kind = refl;
            in_use = ground (arith, b.in_use);
            order = ground (arith, b.order);
            slab = half-IsSlab;
            objects = refl;
            place = half-InPages;
          });
      all_free = λ p l. ground arith;
      some_free = λ p l. (omega arith, omega arith);
      none_free = λ p l. ground arith;
      distinct = (tt, (refl, tt), tt);
      counted = refl;
      slabs_counted = refl;
      limited = omega arith;
      size_pos = omega arith;
      size_small = omega arith;
      order_small = omega arith;
    }

-- The area has the pages 0 and 1, which are mapped.
abbrev pub only : ℕ
only = 2 ^ 32 + 6 * 4096 + 48

abbrev pub vma : Vma (List ℕ)
vma = record { hw_pgtable = root; kernel_vma = 512; a_root = only ∷ []; l_list = only ∷ [] }

abbrev pub world : World (ℕ → ℕ → ℕ)
world = record {
  memory = memory;
  cache = cache;
  areas =
      λ _. record { vmar_typ = vma_io; va = 0; size = 8192; pa = 16 * 4096; pgfm = none; prot = 1 };
  tables = space.ptes;
}

only-InUse : InUse cache memory (λ _. 1 ∷ []) only
only-InUse = record { p = 6; i = 0; listed = refl; small = omega arith; used = refl; at = refl }

pub world-IsWorld : IsWorld config sorted_lists vma world (λ _. 1 ∷ [])
world-IsWorld = record {
  vma = record { sorted = ((omega arith, omega arith), tt, tt); tree = refl };
  cache = cache-IsCache;
  owned = λ x m. let e : x ≡ only = ground arith in rw e only-InUse;
}

table-UsedPage :
    (a : ℕ) → shape.has a ≡ true → UsedPage config one_free a → UsedPage config memory.buddy a
unfolding id2va
table-UsedPage a on (p, at, u) =
    stays config-IsConfig one_free memory.buddy a (p, at, u)
      (let other : (6 == p) ≡ false = ground (arith, on, at) in rw other refl)

pub world-HasTables :
    HasTables config config-IsConfig (omega arith) (omega arith) root memory.buddy space.ptes
world-HasTables = (
  shape,
  IsRoot-moved config config-IsConfig (omega arith) (omega arith) one_free memory.buddy space.ptes
      cache-IsCache.buddy table-UsedPage space-IsRoot,
)
