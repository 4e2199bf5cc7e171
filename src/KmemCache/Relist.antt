-- ===== src/KmemCache/Relist.antt =====
-- A slab moves between the lists of a cache.
use aco_os.Base.{
  ℕ, ◌+◌, ◌<◌, ◌≡◌, refl, true, false, ◌==◌, List, [], update, length, has, ◌∈◌, Distinct, arith,
  Bool-cases, inl, inr,
}
use aco_os.Base.Int.{ℤ, pos}
use aco_os.Buddy.{Config}
use aco_os.Slab.{Slab}
use aco_os.Slab.FreeList.{IsSlab, SameShape}
use aco_os.KmemCache.{Cache, Memory}
use aco_os.KmemCache.Total.{total}
use aco_os.KmemCache.Invariant.{lists, InPages, Holds, IsCache}

InPages-SameShape :
    {c : Config} (order p q : ℕ)
    → p ≡ q
    → (s t : Slab) → SameShape s t
    → InPages c order p s
    → InPages c order q t
InPages-SameShape order p q e s t (all, size, start) h = record {
  some_object = omega (arith, h.some_object, all);
  above = rw (← e, start) h.above;
  below = rw (← e, start, all, size) h.below;
}

-- The memory with the slab `t` at `p`.
abbrev pub put_slab : Memory → ℕ → Slab → Memory
put_slab m p t = record m { slabs = update m.slabs p t }

-- What the new lists have to satisfy: only `p` moves, to a list that fits its slab.
abbrev pub Moved : Cache → ℕ → Slab → List ℕ → Cache → Type 0
Moved k p t xs k' =
    (p ∈ k'.free → length xs ≡ t.obj_all)
    × (p ∈ k'.partial → (0 < length xs) × (length xs < t.obj_all))
    × (p ∈ k'.full → xs ≡ [])
    × ((q : ℕ)
        → (p == q) ≡ false
        → (has q k'.free ≡ has q k.free)
          × (has q k'.partial ≡ has q k.partial)
          × (has q k'.full ≡ has q k.full))
    × (Distinct k'.free × Distinct k'.partial × Distinct k'.full)

module _ {c : Config} {k : Cache} {m : Memory} {free_of : ℕ → List ℕ} (h : IsCache c k m free_of)
    (p : ℕ) (t : Slab) (xs : List ℕ) (slab : IsSlab t xs) (same : SameShape (m.slabs p) t) where
  -- The lists of the cache change, its other fields but the count do not.
  holds' :
      (k' : Cache) (q : ℕ)
      → (k'.pg_order ≡ k.pg_order) × (k'.obj_size ≡ k.obj_size)
      → lists k p ≡ true
      → lists k q ≡ true
      → Holds c k' (put_slab m p t) q ((update free_of p xs) q)
  holds' k' q (order, size) on l =
      let old = h.holds q l in
      let was = h.holds p on in
      let place = was.place in
      let still = old.place in
      record {
        in_range = old.in_range;
        kind = old.kind;
        in_use = old.in_use;
        order = ground (arith, old.order);
        slab = ground (arith, old.slab);
        objects = ground (arith, old.objects, was.objects);
        place = elim (Bool-cases (p == q)) [
          | inl e ↦
              rw (e, order)
                (InPages-SameShape k.pg_order p q (ground arith) (m.slabs p) t same place)
          | inr e ↦ rw (e, order) still
        ];
      }

  pub relist-IsCache :
      (num : ℤ) (free full partial : List ℕ)
      → lists k p ≡ true
      → Moved k p t xs (record k { obj_num = num; free = free; full = full; partial = partial })
      → num
        ≡ pos (
            total (update free_of p xs) free
            + total (update free_of p xs) partial
            + total (update free_of p xs) full)
      → length free + length partial + length full
        ≡ length k.free + length k.partial + length k.full
      → IsCache c
          (record k { obj_num = num; free = free; full = full; partial = partial })
          (put_slab m p t)
          (update free_of p xs)
  relist-IsCache num free full partial on (in_free, in_partial, in_full, others, distinct) count
        len =
      record {
        buddy = h.buddy;
        holds = λ q l.
            holds' (record k { obj_num = num; free = free; full = full; partial = partial }) q
              (refl, refl) on (ground (arith, others q));
        all_free = λ q l. ground (arith, h.all_free q, others q);
        some_free = λ q l. ground (arith, h.some_free q, others q);
        none_free = λ q l. ground (arith, h.none_free q, others q);
        distinct = distinct;
        counted = count;
        slabs_counted = omega (arith, h.slabs_counted, len);
        limited = h.limited;
        size_pos = h.size_pos;
        size_small = h.size_small;
        order_small = h.order_small;
      }
