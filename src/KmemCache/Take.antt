-- ===== src/KmemCache/Take.antt =====
-- The end of kmem_obj_alloc: an object of the first partial slab, or else of the first free one.
use aco_os.Base.{
  has-remove_ne, has-remove, has-append, [], ℕ, ◌+◌, ◌<◌, ◌≡◌, ◌≢◌, refl, true, false, Bool, ◌==◌,
  List, ◌∷◌, if◌then◌else◌, update, remove, length, ◌∈◌, arith, inl, inr, List-cases, ap,
}
use aco_os.Base.Int.{pos}
use aco_os.Base.Run.{Returns, returns, Returns-bind}
use aco_os.Buddy.{Config}
use aco_os.Slab.FreeList.{SameShape, object, slab_alloc-IsSlab}
use aco_os.KmemCache.{after_alloc, Cache, Memory, alloc_from_slab, take_object, is_empty}
use aco_os.KmemCache.Total.{total-none}
use aco_os.KmemCache.Invariant.{lists, IsCache}
use aco_os.KmemCache.Taken.{after_alloc-IsCache}

-- The object `i` of the slab at the frame `p` was free and is now in use; no other object changes.
pub record Taken (c : Config) (k : Cache) (m : Memory) (free_of : ℕ → List ℕ) (address : ℕ)
    (k' : Cache) (m' : Memory) : Type 0 where
  pub p : ℕ
  pub i : ℕ
  pub listed : lists k p ≡ true
  pub was_free : i ∈ free_of p
  pub at : address ≡ object (m.slabs p) i
  pub some_address : 0 < address
  pub cache : IsCache c k' m' (update free_of p (remove i (free_of p)))
  pub buddy : m'.buddy ≡ m.buddy
  pub still : (q : ℕ) → lists k' q ≡ lists k q
  pub shape : (q : ℕ) → SameShape (m.slabs q) (m'.slabs q)

module _ {c : Config} {k : Cache} {m : Memory} {free_of : ℕ → List ℕ}
    (h : IsCache c k m free_of) where
  after_alloc-lists :
      (from_partial none_left : Bool) (p : ℕ)
      → p ∈ (if from_partial then k.partial else k.free)
      → (q : ℕ) → lists (after_alloc from_partial p none_left k) q ≡ lists k q
  after_alloc-lists from_partial none_left p mem q = ground (
    arith,
    has-remove_ne p q k.partial,
    has-remove_ne p q k.free,
    has-remove p q k.partial,
    has-remove p q k.free,
    has-append q k.full (p ∷ []),
    has-append q k.partial (p ∷ []),
  )

  alloc_from_slab-Taken :
      (from_partial : Bool) (ps : List ℕ) (p i : ℕ) (xs : List ℕ)
      → p ∈ (if from_partial then k.partial else k.free)
      → free_of p ≡ i ∷ xs
      → Returns
          (λ (address, k', m'). Taken c k m free_of address k' m')
          (alloc_from_slab from_partial (p ∷ ps) k m)
  unfolding alloc_from_slab
  alloc_from_slab-Taken from_partial ps p i xs mem e =
      let on : lists k p ≡ true = ground arith in
      let was = h.holds p on in
      Returns-bind (slab_alloc-IsSlab {s = m.slabs p} (i ∷ xs) (rw (← e) was.slab))
        λ (address, t) (at, slab, same).
          let some_address : (address == 0) ≡ false = ground (arith, was.slab.start_pos) in
          let len : length (free_of p) ≡ length xs + 1 = rw e (omega arith) in
          let none_left : (t.obj_free == 0) ≡ (length xs == 0) = rw slab.free refl in
          let first : remove i (free_of p) ≡ xs = rw e (ground arith) in
          rw some_address (
            returns (record {
              p = p;
              i = i;
              listed = on;
              was_free = rw e (ground arith);
              at = at;
              some_address = ground arith;
              cache = rw first (
                  after_alloc-IsCache h p t xs slab same from_partial (t.obj_free == 0) mem len
                    none_left);
              buddy = refl;
              still = after_alloc-lists from_partial (t.obj_free == 0) p mem;
              shape = λ q. ground (arith, same);
            }))

  alloc_from_slab-first :
      (from_partial : Bool) (l : List ℕ) (p : ℕ) (ps : List ℕ)
      → l ≡ p ∷ ps
      → p ∈ (if from_partial then k.partial else k.free)
      → Returns
          (λ (address, k', m'). Taken c k m free_of address k' m')
          (alloc_from_slab from_partial l k m)
  alloc_from_slab-first from_partial l p ps same mem = rw same (elim (List-cases (free_of p)) [
    | inl e ↦
        let on : lists k p ≡ true = ground arith in
        let object = (h.holds p on).place.some_object in
        absurd (ground (arith, h.all_free p, h.some_free p, e))
    | inr (i, xs, e) ↦ alloc_from_slab-Taken from_partial ps p i xs mem e
  ])

  -- An object is left.
  pub take_object-Taken :
      k.obj_num ≢ pos 0
      → Returns (λ (address, k', m'). Taken c k m free_of address k' m') (take_object k m)
  unfolding take_object
  take_object-Taken some_left = elim (List-cases k.partial) [
    | inr (p, ps, e) ↦
        let partial : is_empty k.partial ≡ false = ap is_empty e in
        rw partial (alloc_from_slab-first true k.partial p ps e (ground (arith, e)))
    | inl no_partial ↦
        let partial : is_empty k.partial ≡ true = ap is_empty no_partial in
        elim (List-cases k.free) [
          | inr (p, ps, e) ↦
              rw partial (alloc_from_slab-first false k.free p ps e (ground (arith, e)))
          | inl no_free ↦ absurd (
              some_left (
                ground
                  (arith, h.counted, no_partial, no_free, total-none free_of k.full h.none_free)))
        ]
  ]
