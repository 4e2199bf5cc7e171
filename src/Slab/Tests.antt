-- ===== src/Slab/Tests.antt =====
-- A slab of three objects of sixteen bytes, of which object 1 is in use; the theorems at it.
use aco_os.Base.{
  ◌+◌, ◌*◌, ◌≤◌, ◌≡◌, inl, refl, true, none, some, [], ◌∷◌, ◌==◌, if◌then◌else◌, arith,
}
use aco_os.Base.Run.{ok, panic, Returns}
use aco_os.Pageframe.{val_is_page_aligned}
use aco_os.Slab.{Slab, minus_one, slab_bytes, init_slab_xip, slab_alloc, slab_free}
use aco_os.Slab.FreeList.{IsSlab, SameShape, object, slab_alloc-IsSlab}
use aco_os.Slab.Free.{slab_free-IsSlab, slab_free-panic}
use aco_os.Slab.Init.{range, objects, init_slab_xip-IsSlab, init_slab_xip_tight}

abbrev slab : Slab
slab = record {
  obj_all = 3;
  obj_free = 2;
  obj_size = 16;
  mem_free_head = 2;
  mem_free_tail = 0;
  mem_index_start = 4136;
  mem_obj_start = 4148;
  index = λ i. if i == 2 then 0 else if i == 0 then 0 else minus_one;
}

slab-IsSlab : IsSlab slab (2 ∷ (0 ∷ []))
slab-IsSlab = record {
  queue = (refl, refl, (refl, refl));
  free = refl;
  inside = λ i m. ground arith;
  distinct = (refl, (refl, tt));
  used = λ i h m. ground arith;
  size_pos = omega arith;
  few = omega arith;
  fits = omega arith;
  start_pos = omega arith;
  ends = omega arith;
}

slab_alloc-IsSlab_example :
    Returns
      (λ (address, t). (address ≡ object slab 2) × IsSlab t (0 ∷ []) × SameShape slab t)
      (slab_alloc slab)
slab_alloc-IsSlab_example = slab_alloc-IsSlab (2 ∷ (0 ∷ [])) slab-IsSlab

slab_free-IsSlab_example :
    Returns (λ t. IsSlab t (2 ∷ (0 ∷ (1 ∷ []))) × SameShape slab t) (slab_free slab (object slab 1))
slab_free-IsSlab_example = slab_free-IsSlab slab (2 ∷ (0 ∷ [])) 1 slab-IsSlab (omega arith) refl

slab_free-panic_example : slab_free slab (object slab 0 + 0) ≡ panic
slab_free-panic_example =
    slab_free-panic slab (2 ∷ (0 ∷ [])) 0 0 slab-IsSlab (omega arith) (omega arith) (inl refl)

aligned : val_is_page_aligned 8192 ≡ true
unfolding val_is_page_aligned
aligned = refl

init_slab_xip-IsSlab_example :
    Returns
      (λ o.
        (t : Slab) × (o ≡ some t)
        × IsSlab t (range 0 (objects 4096 1000))
        × (8192 + slab_bytes ≤ t.mem_index_start)
        × (t.mem_index_start + 4 * t.obj_all ≤ t.mem_obj_start)
        × (t.mem_obj_start + t.obj_all * t.obj_size ≤ 8192 + 4096))
      (init_slab_xip 8192 4096 1000 (λ i. 7) (λ i. 0))
init_slab_xip-IsSlab_example =
    init_slab_xip-IsSlab 8192 4096 1000 (λ i. 7) (λ i. 0) (omega arith) aligned (omega arith)
      (omega arith) (omega arith) (omega arith)

init_slab_xip_tight_example : init_slab_xip 8192 4096 4080 (λ i. 7) (λ i. 0) ≡ ok none
init_slab_xip_tight_example =
    init_slab_xip_tight 8192 4096 4080 (λ i. 7) (λ i. 0) (omega arith) aligned (omega arith)
      (omega arith) (omega arith) (omega arith) (omega arith) (omega arith)
