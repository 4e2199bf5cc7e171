-- ===== src/KmemCache/Taken.antt =====
-- The lists and counts of a cache when an object was taken from a slab.
use aco_os.Base.{
  ℕ, zero, suc, ◌+◌, ◌-◌, ◌<◌, ◌≡◌, true, false, Bool, ◌==◌, List, [], ◌∷◌, if◌then◌else◌, update,
  length, ◌∈◌, arith, has-append, has-remove_ne, Distinct-remove, Distinct-snoc, length-append,
  length-remove,
}
use aco_os.Base.Int.{pos, dec}
use aco_os.Buddy.{Config}
use aco_os.Slab.{Slab}
use aco_os.Slab.FreeList.{IsSlab, SameShape}
use aco_os.KmemCache.{Cache, Memory, after_alloc}
use aco_os.KmemCache.Total.{total, total-append, total-remove, total-update, total-update_absent}
use aco_os.KmemCache.Invariant.{IsCache}
use aco_os.KmemCache.Relist.{Moved, put_slab, relist-IsCache}

dec-pos : (n : ℕ) → 0 < n → dec (pos n) ≡ pos (n - 1)
dec-pos zero h = absurd (omega arith)
dec-pos (suc n) h = ground arith

module _ {c : Config} {k : Cache} {m : Memory} {free_of : ℕ → List ℕ} (h : IsCache c k m free_of)
    (p : ℕ) (t : Slab) (xs : List ℕ) (slab : IsSlab t xs) (same : SameShape (m.slabs p) t) where
  after_alloc-Moved :
      (from_partial none_left : Bool)
      → p ∈ (if from_partial then k.partial else k.free)
      → length (free_of p) ≡ length xs + 1
      → none_left ≡ (length xs == 0)
      → Moved k p t xs (after_alloc from_partial p none_left k)
  after_alloc-Moved from_partial none_left mem len e =
      let (free, partial, full) = h.distinct in
      let all_free = h.all_free p in
      let some_free = h.some_free p in
      let none_free = h.none_free p in
      let less = Distinct-remove p k.free free in
      let less' = Distinct-remove p k.partial partial in
      (
        λ l. ground (arith, all_free, less, same),
        λ l. ground (arith, all_free, some_free, less', same),
        λ l. ground (arith, all_free, some_free, none_free, less, same),
        λ q differ. ground (
          arith,
          has-remove_ne p q k.free,
          has-remove_ne p q k.partial,
          has-append q k.partial (p ∷ []),
          has-append q k.full (p ∷ []),
        ),
        ground (
          arith,
          all_free,
          some_free,
          none_free,
          less,
          less',
          h.distinct,
          Distinct-snoc p k.partial,
          Distinct-snoc p k.full,
        ),
      )

  after_alloc-counted :
      (from_partial none_left : Bool)
      → p ∈ (if from_partial then k.partial else k.free)
      → length (free_of p) ≡ length xs + 1
      → none_left ≡ (length xs == 0)
      → dec k.obj_num
        ≡ pos (
            total (update free_of p xs) (after_alloc from_partial p none_left k).free
            + total (update free_of p xs) (after_alloc from_partial p none_left k).partial
            + total (update free_of p xs) (after_alloc from_partial p none_left k).full)
  after_alloc-counted from_partial none_left mem len e =
      let n = total free_of k.free + total free_of k.partial + total free_of k.full in
      let (free, partial, full) = h.distinct in
      let all_free = h.all_free p in
      let some_free = h.some_free p in
      let none_free = h.none_free p in
      let in_free = total-update free_of p xs k.free free in
      let in_partial = total-update free_of p xs k.partial partial in
      let not_free = total-update_absent free_of p xs k.free in
      let not_partial = total-update_absent free_of p xs k.partial in
      let not_full = total-update_absent free_of p xs k.full in
      ground (
        arith,
        h.counted,
        dec-pos n,
        all_free,
        some_free,
        none_free,
        in_free,
        in_partial,
        not_free,
        not_partial,
        not_full,
        total-remove free_of p k.free,
        total-remove free_of p k.partial,
        total-remove (update free_of p xs) p k.free,
        total-remove (update free_of p xs) p k.partial,
        total-append (update free_of p xs) k.partial (p ∷ []),
        total-append (update free_of p xs) k.full (p ∷ []),
      )

  after_alloc-length :
      (from_partial none_left : Bool)
      → p ∈ (if from_partial then k.partial else k.free)
      → length (after_alloc from_partial p none_left k).free
          + length (after_alloc from_partial p none_left k).partial
          + length (after_alloc from_partial p none_left k).full
        ≡ length k.free + length k.partial + length k.full
  after_alloc-length from_partial none_left mem = ground (
    arith,
    length-append k.full (p ∷ []),
    length-append k.partial (p ∷ []),
    length-remove p k.free,
    length-remove p k.partial,
  )

  pub after_alloc-IsCache :
      (from_partial none_left : Bool)
      → p ∈ (if from_partial then k.partial else k.free)
      → length (free_of p) ≡ length xs + 1
      → none_left ≡ (length xs == 0)
      → IsCache c (after_alloc from_partial p none_left k) (put_slab m p t) (update free_of p xs)
  after_alloc-IsCache true none_left mem len e =
      let k' = after_alloc true p none_left k in
      relist-IsCache h p t xs slab same k'.obj_num k'.free k'.full k'.partial (ground arith)
        (after_alloc-Moved true none_left mem len e) (after_alloc-counted true none_left mem len e)
        (after_alloc-length true none_left mem)
  after_alloc-IsCache false none_left mem len e =
      let k' = after_alloc false p none_left k in
      relist-IsCache h p t xs slab same k'.obj_num k'.free k'.full k'.partial (ground arith)
        (after_alloc-Moved false none_left mem len e)
        (after_alloc-counted false none_left mem len e) (after_alloc-length false none_left mem)
