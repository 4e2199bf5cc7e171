-- ===== src/Vma.antt =====
-- Virtual memory areas: include/mm/vm.h, module/mm/vm/vma_area_ops.c, and vm_check of
-- module/mm/vm/vm.c. The areas of a vma are on a list and in a tree; an area is named by its address.
pub mod Order
pub mod Hang
pub mod Taken
pub mod Find
pub mod Check
pub mod Map
pub mod Sample
mod Tests
use aco_os.Base.{
  ℕ, ◌+◌, ◌/◌, ◌%◌, Bool, true, false, ◌&&◌, ◌||◌, not, Option, none, some, List, [], ◌∷◌, ltb, leb,
  ◌==◌, if◌then◌else◌, update, remove,
}
use aco_os.Base.Errno.{Errno, success, eexist, efault}
use aco_os.Pageframe.{add_ptr, val_is_page_aligned}
use aco_os.Avl.{Compared, less, equal, greater, Avl}

-- `vmar_type_t`
pub data AreaType : Type 0 where
  vma_kernel vma_io vma_memory vma_noreach : AreaType

-- `vma_area_t`, without its nodes; `pgfm` is a page frame, none for NULL, `prot` the bits PROT_V to PROT_D.
pub record Area : Type 0 where
  pub vmar_typ : AreaType
  pub va : ℕ
  pub size : ℕ
  pub pa : ℕ
  pub pgfm : Option ℕ
  pub prot : ℕ

-- `vma_t`, without its lock; `l_list` holds the areas whose l_node is linked in, in order. 0 is NULL.
pub record Vma (Tree : Type 0) : Type 0 where
  pub hw_pgtable : ℕ
  pub kernel_vma : ℕ
  pub a_root : Tree
  pub l_list : List ℕ

-- The first address behind an area.
abbrev pub area_end : Area → ℕ
area_end a = add_ptr a.va a.size

unfoldable pub vma_area_val_init : AreaType → ℕ → ℕ → ℕ → Option ℕ → ℕ → Area
vma_area_val_init vmar_tp va pa size pgfm prot = record {
  vmar_typ = vmar_tp;
  va = va;
  size = size;
  pa = pa;
  pgfm = pgfm;
  prot = prot;
}

-- The last test that holds decides.
unfoldable pub insert_compare_vmarea : Area → Area → Compared
insert_compare_vmarea want have =
    if leb (area_end have) want.va
    then greater
    else if leb (area_end want) have.va
    then less
    else equal

-- node_add_aft
abbrev pub insert_after : ℕ → ℕ → List ℕ → List ℕ
insert_after p x [] = []
insert_after p x (y ∷ ys) = if p == y then y ∷ x ∷ ys else y ∷ insert_after p x ys

-- The list with `x` behind its predecessor, or at the head.
abbrev pub link_in : Option ℕ → ℕ → List ℕ → List ℕ
link_in none x ys = x ∷ ys
link_in (some p) x ys = insert_after p x ys

unfoldable pub find_compare : ℕ → ℕ → Area → Compared
find_compare va size have =
    if (va == have.va) && (size == have.size)
    then equal
    else if leb (area_end have) va
    then greater
    else less

-- `x & PROT_V`
abbrev pub prot_v : ℕ → Bool
prot_v prot = prot % 2 == 1

abbrev pub without_frame : Area → Bool
without_frame a = elim a.vmar_typ [
  | vma_kernel ↦ elim a.pgfm [ none ↦ true | some _ ↦ false ]
  | vma_io ↦ elim a.pgfm [ none ↦ true | some _ ↦ false ]
  | vma_memory ↦ true
  | vma_noreach ↦ true
]

module _ (avl : Avl) where
  open avl use {Tree, node_add, node_find, node_prev, node_erase}

  -- The areas are memory, by address.
  pub vma_area_hang : (ℕ → Area) → Vma Tree → ℕ → Errno × Vma Tree
  vma_area_hang areas v x =
      let (duplicated, t) = node_add (λ y. insert_compare_vmarea (areas x) (areas y)) x v.a_root in
      elim duplicated [
        | some _ ↦ (eexist, record v { a_root = t })
        | none ↦ (success, record v { a_root = t; l_list = link_in (node_prev x t) x v.l_list })
      ]

  pub vma_area_unhang : Vma Tree → ℕ → Vma Tree
  vma_area_unhang v x = record v { l_list = remove x v.l_list; a_root = node_erase x v.a_root }

  pub find_area : (ℕ → Area) → Vma Tree → ℕ → ℕ → Option ℕ
  find_area areas v va size = node_find (λ y. find_compare va size (areas y)) v.a_root

  -- The tests of vm_check on one area; `before` is the end of the area before, if there is one.
  pub check_area : (ℕ → Area) → Vma Tree → Option ℕ → ℕ → Bool
  check_area areas v before x =
      let a = areas x in
      (val_is_page_aligned a.va
        && (val_is_page_aligned a.pa && (val_is_page_aligned a.size && ltb 0 a.size)))
      && (without_frame a
          && (prot_v a.prot
              && ((elim before [ none ↦ true | some e ↦ leb e a.va ])
                  && (elim (find_area areas v a.va a.size) [ none ↦ false | some y ↦ y == x ]))))

  pub check_areas : (ℕ → Area) → Vma Tree → Option ℕ → List ℕ → Errno
  check_areas areas v before [] = success
  check_areas areas v before (x ∷ xs) =
      if check_area areas v before x
      then check_areas areas v (some (area_end (areas x))) xs
      else efault

  -- `vma` is the address of the vma, `kern_vma` that of the kernel's.
  pub vm_check : (ℕ → Area) → ℕ → ℕ → Vma Tree → Errno
  vm_check areas vma kern_vma v =
      if vma == 0
      then efault
      else if v.hw_pgtable == 0 || not (v.kernel_vma == kern_vma)
      then efault
      else check_areas areas v none v.l_list
