-- ===== src/Sv39/Walk.antt =====
-- arch/riscv/mm/vm.c: mapping and unmapping in the tables of Sv39. A table is named by its address;
-- an int that counts pages is its 32 bits.
pub mod Fill
pub mod Slot
pub mod Added
pub mod Descend
pub mod Stays
pub mod Slots
pub mod Walkthrough
pub mod Unfill
pub mod Release
pub mod Unslot
pub mod Unslots
pub mod Found
pub mod Mapping
pub mod Free
use aco_os.Base.{
  ℕ, zero, suc, ◌+◌, ◌-◌, ◌*◌, ◌/◌, ◌%◌, ◌^◌, Bool, true, false, ◌&&◌, ◌||◌, not, ltb, ◌==◌,
  if◌then◌else◌,
}
use aco_os.Base.Errno.{Errno, success, eexist, efault, enomem}
use aco_os.Base.Run.{Run, ok, panic, ◌>>=◌, ◌>>◌, assert}
use aco_os.Pageframe.{page_size, add_ptr, int_bits, extend_sign, val_is_page_aligned}
use aco_os.Sv39.{pte_valid, pte_nextpgt, index2id, pa2pte, pte2pa, pgt2satp, satp2pgt}
use aco_os.Sv39.Pages.{Pages}

abbrev pub pte_nums : ℕ
pte_nums = 512

-- SV39_INDEX_PAGES
abbrev pub index_pages : ℕ → ℕ
index_pages zero = 262144
index_pages (suc zero) = 512
index_pages (suc (suc zero)) = 1
index_pages (suc (suc (suc _))) = 0

-- The allocator, and the entries of the table at each address.
pub record Space (State : Type 0) : Type 0 where
  pub state : State
  pub ptes : ℕ → ℕ → ℕ

abbrev pub set_pte : {State : Type 0} → ℕ → ℕ → ℕ → Space State → Space State
set_pte t idx e s = record s { ptes = λ a i. if (a == t) && (i == idx) then e else s.ptes a i }

abbrev pub clear_table : ℕ → (ℕ → ℕ → ℕ) → ℕ → ℕ → ℕ
clear_table t ptes a i = if a == t then 0 else ptes a i

-- Sum and difference of two ints, by their bits.
abbrev pub sub_int : ℕ → ℕ → ℕ
sub_int a b = int_bits (a + (2 ^ 32 - b))

-- `(a - b)*PAGE_SIZE`
abbrev pub bytes_between : ℕ → ℕ → ℕ
bytes_between a b = extend_sign (sub_int a b) * page_size % 2 ^ 64

-- `a > b` for ints.
abbrev pub gt_int : ℕ → ℕ → Bool
gt_int a b = ltb ((b + 2 ^ 31) % 2 ^ 32) ((a + 2 ^ 31) % 2 ^ 32)

abbrev pub is_ok : Errno → Bool
is_ok success = true
is_ok _ = false

module _ (pages : Pages) where
  open pages use {State, alloc, free, pa2va, va2pa}

  -- The loop of vm_walkthrough at index 2, with `rounds` entries to go.
  pub fill : ℕ → ℕ → ℕ → ℕ → ℕ → ℕ → Space State → Run (Errno × ℕ × Space State)
  fill zero idx t pa flags n s = ok (success, n, s)
  fill (suc rounds) idx t pa flags n s =
      let s' = set_pte t idx (pa2pte pa flags) s in
      let n' = sub_int n 1 in
      let rest = fill rounds (idx + 1) t (add_ptr pa page_size) flags n' s' in
      if pte_valid (s.ptes t idx)
      then ok (eexist, n, s)
      else if n' == 0
      then ok (success, n', s')
      else rest

  -- The table that an entry of the table `t` points to; if it is not valid, a new one.
  pub descend : ℕ → ℕ → Space State → Run (Errno × ℕ × Space State)
  descend t idx s =
      let e = s.ptes t idx in
      if pte_valid e
      then (if not (pte_nextpgt e) then ok (efault, 0, s) else (do
        assert (val_is_page_aligned (pte2pa e) && val_is_page_aligned (pa2va (pte2pa e)))
        ok (success, pa2va (pte2pa e), s)))
      else (do
        (ptr, st) ← alloc s.state
        if ptr == 0 then ok (enomem, 0, record s { state = st }) else (do
          assert (val_is_page_aligned (va2pa ptr) && val_is_page_aligned ptr)
          ok (
            success,
            ptr,
            set_pte t idx (pa2pte (va2pa ptr) 1)
                (record { state = st; ptes = clear_table ptr s.ptes }),
          )))

  -- The loop of vm_walkthrough at index 0 or 1; `next` is the call of itself for the table below.
  pub walk_slots :
      (ℕ → ℕ → ℕ → ℕ → Space State → Run (Errno × ℕ × Space State))
      → ℕ
      → ℕ
      → ℕ
      → ℕ
      → ℕ
      → ℕ
      → Space State
      → Run (Errno × ℕ × Space State)
  walk_slots next zero idx t va pa n s = ok (success, n, s)
  walk_slots next (suc rounds) idx t va pa n s = do
    (ret, child, s₁) ← descend t idx s
    if not (is_ok ret) then ok (ret, n, s₁) else (do
      (ret', n', s₂) ← next child va pa n s₁
      if not (is_ok ret') || (n' == 0)
          then ok (ret', n', s₂)
          else walk_slots next rounds (idx + 1) t (add_ptr va (bytes_between n n'))
              (add_ptr pa (bytes_between n n')) n' s₂)

  -- The index is 2 less the number of levels that are below.
  pub vm_walkthrough : ℕ → ℕ → ℕ → ℕ → ℕ → ℕ → Space State → Run (Errno × ℕ × Space State)
  vm_walkthrough zero flags t va pa n s =
      fill (pte_nums - index2id va 2) (index2id va 2) t pa flags n s
  vm_walkthrough (suc below) flags t va pa n s =
      walk_slots (vm_walkthrough below flags) (pte_nums - index2id va (1 - below))
        (index2id va (1 - below)) t va pa n s

  -- The loop of riscv_unmap at index 2.
  pub unfill : ℕ → ℕ → ℕ → ℕ → Space State → ℕ × Space State
  unfill zero idx t n s = (n, s)
  unfill (suc rounds) idx t n s =
      let s' = set_pte t idx 0 s in
      let n' = sub_int n 1 in
      let rest = unfill rounds (idx + 1) t n' s' in if n' == 0 then (n', s') else rest

  -- The table below `t` was left; it is given back if all its pages were unmapped, `gone` in number.
  pub release_table : ℕ → ℕ → ℕ → ℕ → ℕ → Space State → Run (Space State)
  release_table index gone t idx child s =
      if gone == index_pages index
      then (do st ← free child s.state; ok (record (set_pte t idx 0 s) { state = st }))
      else ok s

  -- The loop of riscv_unmap at index 0 or 1; `next` is the call of itself for the table below.
  pub unmap_slots :
      (ℕ → ℕ → ℕ → Space State → Run (ℕ × Space State))
      → ℕ
      → ℕ
      → ℕ
      → ℕ
      → ℕ
      → ℕ
      → Space State
      → Run (ℕ × Space State)
  unmap_slots next index zero idx t va n s = ok (n, s)
  unmap_slots next index (suc rounds) idx t va n s =
      let e = s.ptes t idx in
      let span = index_pages index in
      let skip =
        unmap_slots next index rounds (idx + 1) t (add_ptr va (span * page_size)) (sub_int n span)
          s in
      if pte_nextpgt e
      then (do
        let child = pa2va (pte2pa e)
        assert (not (child == 0) && (val_is_page_aligned (pte2pa e) && val_is_page_aligned child))
        (n', s₁) ← next child va n s
        s₂ ← release_table index (sub_int n n') t idx child s₁
        if n' == 0
            then ok (n', s₂)
            else unmap_slots next index rounds (idx + 1) t (add_ptr va (bytes_between n n')) n' s₂)
      else if gt_int n span
      then skip
      else ok (0, s)

  pub riscv_unmap : ℕ → ℕ → ℕ → ℕ → Space State → Run (ℕ × Space State)
  riscv_unmap zero t va n s = ok (unfill (pte_nums - index2id va 2) (index2id va 2) t n s)
  riscv_unmap (suc below) t va n s =
      unmap_slots (riscv_unmap below) (1 - below) (pte_nums - index2id va (1 - below))
        (index2id va (1 - below)) t va n s

  -- The loop of riscv_free_pgtable at index 2.
  pub free_leaves : ℕ → ℕ → ℕ → Space State → Space State
  free_leaves zero idx t s = s
  free_leaves (suc rounds) idx t s =
      free_leaves rounds (idx + 1) t (if pte_valid (s.ptes t idx) then set_pte t idx 0 s else s)

  -- At index 0 or 1.
  pub free_slots :
      (ℕ → Space State → Run (Space State)) → ℕ → ℕ → ℕ → Space State → Run (Space State)
  free_slots next zero idx t s = ok s
  free_slots next (suc rounds) idx t s =
      let e = s.ptes t idx in
      let rest = free_slots next rounds (idx + 1) t s in
      if pte_nextpgt e
      then (do
        let child = pa2va (pte2pa e)
        assert (val_is_page_aligned (pte2pa e) && val_is_page_aligned child)
        s₁ ← next child s
        st ← free child s₁.state
        free_slots next rounds (idx + 1) t (record (set_pte t idx 0 s₁) { state = st }))
      else if pte_valid e
      then panic
      else rest

  pub riscv_free_pgtable : ℕ → ℕ → Space State → Run (Space State)
  riscv_free_pgtable zero t s = ok (free_leaves pte_nums 0 t s)
  riscv_free_pgtable (suc below) t s = free_slots (riscv_free_pgtable below) pte_nums 0 t s

  -- __arch_hw_unmap, __arch_hw_mmap and __arch_hw_unmap_all
  pub arch_hw_unmap : ℕ → ℕ → ℕ → Space State → Run (Space State)
  arch_hw_unmap pgtable va size s = do
    assert (not (pgtable == 0) && (val_is_page_aligned size && val_is_page_aligned va))
    if size == 0 then ok s else (do
      let npages = int_bits (size / page_size)
      assert (ltb npages (2 ^ 31))
      (left, s') ← riscv_unmap 2 pgtable va npages s
      assert (left == 0)
      ok s')

  pub arch_hw_mmap : ℕ → ℕ → ℕ → ℕ → ℕ → Space State → Run (Errno × Space State)
  arch_hw_mmap pgtable va pa prot size s = do
    assert (not (pgtable == 0) && val_is_page_aligned pgtable)
    assert (val_is_page_aligned va && val_is_page_aligned pa)
    assert (val_is_page_aligned size)
    if size == 0 then ok (success, s) else (do
      let npages = int_bits (size / page_size)
      assert (ltb npages (2 ^ 31))
      (ret, left, s') ← vm_walkthrough 2 prot pgtable va pa npages s
      if is_ok ret
          then ok (success, s')
          else (do u ← arch_hw_unmap pgtable va (bytes_between npages left) s'; ok (ret, u)))

  pub arch_hw_unmap_all : ℕ → Space State → Run (Space State)
  arch_hw_unmap_all pgtable s = do assert (not (pgtable == 0)); riscv_free_pgtable 2 pgtable s

  -- __arch_hw_get_current_pgtable and __arch_hw_load_pgtable; `satp` is the register.
  pub arch_hw_get_current_pgtable : ℕ → Run ℕ
  arch_hw_get_current_pgtable satp = do
    assert (val_is_page_aligned (satp2pgt satp))
    ok (pa2va (satp2pgt satp))

  pub arch_hw_load_pgtable : ℕ → Run ℕ
  arch_hw_load_pgtable pgtable = do
    assert (not (pgtable == 0) && val_is_page_aligned pgtable)
    ok (pgt2satp (va2pa pgtable))
