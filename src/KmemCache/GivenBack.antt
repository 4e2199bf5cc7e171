-- ===== src/KmemCache/GivenBack.antt =====
-- The lists and counts of a cache when an object was given back to a slab.
use aco_os.Base.{
  ℕ, ◌+◌, ◌≤◌, ◌≡◌, true, false, Bool, ◌==◌, List, [], ◌∷◌, if◌then◌else◌, update, length, ◌∈◌,
  arith, has-append, has-remove_ne, Distinct-remove, Distinct-snoc, length-append, length-remove,
}
use aco_os.Base.Int.{pos, inc}
use aco_os.Buddy.{Config}
use aco_os.Slab.{Slab}
use aco_os.Slab.FreeList.{IsSlab, SameShape}
use aco_os.KmemCache.{Cache, Memory, after_free}
use aco_os.KmemCache.Total.{total, total-append, total-remove, total-update, total-update_absent}
use aco_os.KmemCache.Invariant.{lists, IsCache}
use aco_os.KmemCache.Relist.{Moved, put_slab, relist-IsCache}

module _ {c : Config} {k : Cache} {m : Memory} {free_of : ℕ → List ℕ} (h : IsCache c k m free_of)
    (p : ℕ) (t : Slab) (xs : List ℕ) (slab : IsSlab t xs) (same : SameShape (m.slabs p) t) where
  after_free-Moved :
      (from_partial all_free : Bool)
      → p ∈ (if from_partial then k.partial else k.full)
      → length xs ≡ length (free_of p) + 1
      → length xs ≤ t.obj_all
      → all_free ≡ (length xs == t.obj_all)
      → Moved k p t xs (after_free from_partial p all_free k)
  after_free-Moved from_partial all_free mem len le e =
      let on : lists k p ≡ true = ground arith in
      let place = (h.holds p on).place in
      let (_, partial, full) = h.distinct in
      let in_free = h.all_free p in
      let in_partial = h.some_free p in
      let in_full = h.none_free p in
      let less = Distinct-remove p k.full full in
      let less' = Distinct-remove p k.partial partial in
      (
        λ l. ground (arith, in_free, in_partial, in_full, same, has-append p k.free (p ∷ [])),
        λ l. ground (arith, in_free, in_partial, in_full, less, less', same),
        λ l. ground (arith, in_partial, in_full, less, same),
        λ q differ. ground (
          arith,
          has-remove_ne p q k.full,
          has-remove_ne p q k.partial,
          has-append q k.partial (p ∷ []),
          has-append q k.free (p ∷ []),
        ),
        ground (
          arith,
          in_free,
          in_partial,
          in_full,
          same,
          place.some_object,
          less,
          less',
          h.distinct,
          Distinct-snoc p k.partial,
          Distinct-snoc p k.free,
        ),
      )

  after_free-counted :
      (from_partial all_free : Bool)
      → p ∈ (if from_partial then k.partial else k.full)
      → length xs ≡ length (free_of p) + 1
      → length xs ≤ t.obj_all
      → inc k.obj_num
        ≡ pos (
            total (update free_of p xs) (after_free from_partial p all_free k).free
            + total (update free_of p xs) (after_free from_partial p all_free k).partial
            + total (update free_of p xs) (after_free from_partial p all_free k).full)
  after_free-counted from_partial all_free mem len le =
      let (_, partial, full) = h.distinct in
      let in_free = h.all_free p in
      let in_partial = h.some_free p in
      let in_full = h.none_free p in
      ground (
        arith,
        h.counted,
        in_free,
        in_partial,
        in_full,
        same,
        total-update free_of p xs k.full full,
        total-update free_of p xs k.partial partial,
        total-update_absent free_of p xs k.free,
        total-update_absent free_of p xs k.partial,
        total-update_absent free_of p xs k.full,
        total-remove free_of p k.full,
        total-remove free_of p k.partial,
        total-remove (update free_of p xs) p k.full,
        total-remove (update free_of p xs) p k.partial,
        total-append (update free_of p xs) k.partial (p ∷ []),
        total-append (update free_of p xs) k.free (p ∷ []),
      )

  after_free-length :
      (from_partial all_free : Bool)
      → p ∈ (if from_partial then k.partial else k.full)
      → length (after_free from_partial p all_free k).free
          + length (after_free from_partial p all_free k).partial
          + length (after_free from_partial p all_free k).full
        ≡ length k.free + length k.partial + length k.full
  after_free-length from_partial all_free mem = ground (
    arith,
    length-append k.free (p ∷ []),
    length-append k.partial (p ∷ []),
    length-remove p k.full,
    length-remove p k.partial,
  )

  pub after_free-IsCache :
      (from_partial all_free : Bool)
      → p ∈ (if from_partial then k.partial else k.full)
      → length xs ≡ length (free_of p) + 1
      → length xs ≤ t.obj_all
      → all_free ≡ (length xs == t.obj_all)
      → IsCache c (after_free from_partial p all_free k) (put_slab m p t) (update free_of p xs)
  after_free-IsCache true all_free mem len le e =
      let k' = after_free true p all_free k in
      relist-IsCache h p t xs slab same k'.obj_num k'.free k'.full k'.partial (ground arith)
        (after_free-Moved true all_free mem len le e) (after_free-counted true all_free mem len le)
        (after_free-length true all_free mem)
  after_free-IsCache false all_free mem len le e =
      let k' = after_free false p all_free k in
      relist-IsCache h p t xs slab same k'.obj_num k'.free k'.full k'.partial (ground arith)
        (after_free-Moved false all_free mem len le e)
        (after_free-counted false all_free mem len le) (after_free-length false all_free mem)
