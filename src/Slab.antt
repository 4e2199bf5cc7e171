-- ===== src/Slab.antt =====
-- module/mm/kmem_cache/slab.c: the slab at the start of a block of pages, and the hash of
-- lib/math/math.c that places its objects. An int is its 32 bits, so -1 is 2^32 - 1.
pub mod FreeList
pub mod Free
pub mod Init
mod Tests
use aco_os.Base.{
  ℕ, zero, suc, ◌+◌, ◌-◌, ◌*◌, ◌/◌, ◌%◌, ◌^◌, Bool, true, false, ◌&&◌, ◌||◌, not, Option, none,
  some, ltb, leb, ◌==◌, if◌then◌else◌, update,
}
use aco_os.Base.Run.{Run, ok, ◌>>=◌, ◌>>◌, assert}
use aco_os.Pageframe.{add_ptr, sub_ptr, int_bits, extend_sign, val_is_page_aligned}

-- `slab_t`, and in `index` the array at `mem_index_start`.
pub record Slab : Type 0 where
  pub obj_all : ℕ
  pub obj_free : ℕ
  pub obj_size : ℕ
  pub mem_free_head : ℕ
  pub mem_free_tail : ℕ
  pub mem_index_start : ℕ
  pub mem_obj_start : ℕ
  pub index : ℕ → ℕ

abbrev pub minus_one : ℕ
minus_one = 2 ^ 32 - 1

-- five ints, padding to 8 bytes, two pointers
abbrev pub slab_bytes : ℕ
slab_bytes = 40

-- The loop of SDBMHash, with `rounds` to go. `str` is the memory from the argument on; since the
-- pointer itself advances, round `i` tests byte 2 * i and takes byte `i`. A char is unsigned on RISC-V.
pub sdbm_rounds : (ℕ → ℕ) → ℕ → ℕ → ℕ → ℕ
sdbm_rounds str zero i hash = hash
sdbm_rounds str (suc rounds) i hash =
    let rest =
      sdbm_rounds str rounds (i + 1)
        ((str i + hash * 2 ^ 6 + hash * 2 ^ 16 + 2 ^ 32 - hash) % 2 ^ 32) in
    if str (i + i) == 0 then hash else rest

unfoldable pub sdbm_hash : (ℕ → ℕ) → ℕ → ℕ
sdbm_hash str size = sdbm_rounds str size 0 0 % 2 ^ 31

-- The loop that links the objects of a new slab.
pub link_all : ℕ → ℕ → ℕ → (ℕ → ℕ) → ℕ → ℕ
link_all obj_num zero i index = index
link_all obj_num (suc rounds) i index =
    link_all obj_num rounds (i + 1) (update index i (if i == obj_num - 1 then i else i + 1))

-- The shift of the objects in a slab that leaves `padding` bytes unused; `offset_bytes` is the memory
-- from the variable `offset` on.
unfoldable pub color : (ℕ → ℕ) → ℕ → ℕ
color offset_bytes padding = if padding == 0 then 0 else sdbm_hash offset_bytes 4 % padding / 4 * 4

-- `index` is the memory at `mem_index_start` before. None is NULL.
unfoldable pub init_slab_xip : ℕ → ℕ → ℕ → (ℕ → ℕ) → (ℕ → ℕ) → Run (Option Slab)
init_slab_xip start size obj_size offset_bytes index = do
  assert (
      not (start == 0)
      && (ltb 0 size && (ltb 0 obj_size && (ltb obj_size size && val_is_page_aligned start))))
  let room = sub_ptr size slab_bytes
  let obj_num = int_bits (room / (4 + obj_size))
  let padding = int_bits (room % (4 + obj_size))
  let offset = color offset_bytes padding
  let index_start = add_ptr start slab_bytes
  ok (
      if obj_num == 0 || leb (2 ^ 31) obj_num
      then none
      else some (record {
        obj_all = obj_num;
        obj_free = obj_num;
        obj_size = obj_size;
        mem_free_head = 0;
        mem_free_tail = obj_num - 1;
        mem_index_start = index_start;
        mem_obj_start = add_ptr (add_ptr index_start (4 * obj_num)) offset;
        index = link_all obj_num obj_num 0 index;
      }))

-- Product of two ints, as it is added to an address.
abbrev pub mul_int : ℕ → ℕ → ℕ
mul_int a b = extend_sign (int_bits (a * b))

-- The address of an object, 0 for NULL, and the slab.
unfoldable pub slab_alloc : Slab → Run (ℕ × Slab)
slab_alloc s = if s.obj_free == 0 then ok (0, s) else (do
  let i = s.mem_free_head
  assert (not (i == minus_one))
  let left = s.obj_free - 1
  let ret = add_ptr s.mem_obj_start (mul_int s.obj_size i)
  let t = record s {
    mem_free_head = s.index i;
    index = update s.index i minus_one;
    obj_free = left;
  }
  ok (
    ret,
    if left == 0 then record t { mem_free_head = minus_one; mem_free_tail = minus_one } else t,
  ))

-- The last part of slab_free, for the object `i`.
unfoldable pub put_object : ℕ → Slab → Run Slab
put_object i s =
    if s.obj_free == 0
    then (do
      assert ((s.mem_free_head == minus_one) && (s.mem_free_tail == minus_one))
      ok (record s {
        mem_free_head = i;
        mem_free_tail = i;
        index = update s.index i i;
        obj_free = s.obj_free + 1;
      }))
    else (do
      assert (not (s.mem_free_head == minus_one) && not (s.mem_free_tail == minus_one))
      ok (record s {
        mem_free_tail = i;
        index = update (update s.index s.mem_free_tail i) i i;
        obj_free = s.obj_free + 1;
      }))

unfoldable pub slab_free : Slab → ℕ → Run Slab
slab_free s address = do
  assert (not (address == 0))
  assert (
      leb s.mem_obj_start address
      && ltb address (add_ptr s.mem_obj_start (mul_int s.obj_all s.obj_size)))
  let off = int_bits (sub_ptr address s.mem_obj_start)
  assert (off % s.obj_size == 0)
  assert (s.index (off / s.obj_size) == minus_one)
  put_object (off / s.obj_size) s
