-- ===== src/KmemCache/Filled.antt =====
-- A cache gets one more slab.
use aco_os.Base.{
  ℕ, ◌+◌, ◌^◌, ◌≤◌, ◌<◌, ◌≡◌, ◌≢◌, ◌⊎◌, refl, true, false, Bool, ◌==◌, List, [], ◌∷◌, ◌++◌, update,
  length, arith, Bool-cases, inl, inr, length-append, Distinct-snoc, has-append,
}
use aco_os.Base.Int.{pos, add}
use aco_os.Pageframe.{slab_allocator}
use aco_os.Buddy.{State, Config}
use aco_os.Buddy.Neighbour.{count}
use aco_os.Buddy.Invariant.{IsHeld, FreeAt}
use aco_os.Buddy.Alloc.{Allocated}
use aco_os.Slab.{Slab}
use aco_os.Slab.FreeList.{IsSlab}
use aco_os.KmemCache.{Cache, Memory, cleared, set_pgtype}
use aco_os.KmemCache.Invariant.{lists, InPages, Holds, IsCache}
use aco_os.KmemCache.Retype.{set_pgtype-IsBuddy}
use aco_os.KmemCache.Total.{total-append, total-update_absent}

-- The cache has one more slab, at `p`, all of whose objects are free.
pub record Grown (c : Config) (k : Cache) (m : Memory) (free_of : ℕ → List ℕ) (k' : Cache)
    (m' : Memory) : Type 0 where
  pub p : ℕ
  pub xs : List ℕ
  pub fresh : lists k p ≡ false
  pub cache : IsCache c k' m' (update free_of p xs)
  pub some_left : k'.obj_num ≢ pos 0
  pub free : k'.free ≡ k.free ++ (p ∷ [])
  pub others : (k'.partial ≡ k.partial) × (k'.full ≡ k.full)
  pub limits :
      (k'.pg_order ≡ k.pg_order)
      × (k'.pg_orlimit ≡ k.pg_orlimit)
      × (k'.pg_orhas ≡ k.pg_orhas + 1)
      × (k'.obj_size ≡ k.obj_size)
  pub slabs : (q : ℕ) → lists k q ≡ true → m'.slabs q ≡ m.slabs q
  -- the frames in use stay as they are
  pub held : (q : ℕ) → q < count c → IsHeld (m.buddy.pages q) → m'.buddy.pages q ≡ m.buddy.pages q
  pub conserved :
      (j : ℕ) → FreeAt c m.buddy j → FreeAt c m'.buddy j ⊎ ((p ≤ j) × (j < p + 2 ^ k.pg_order))

-- The cache is as before, and so is the free memory.
pub record Unchanged (c : Config) (k : Cache) (m : Memory) (free_of : ℕ → List ℕ) (k' : Cache)
    (m' : Memory) : Type 0 where
  pub same : k' ≡ k
  pub cache : IsCache c k m' free_of
  pub slabs : (q : ℕ) → lists k q ≡ true → m'.slabs q ≡ m.slabs q
  -- the frames in use stay as they are
  pub held : (q : ℕ) → q < count c → IsHeld (m.buddy.pages q) → m'.buddy.pages q ≡ m.buddy.pages q
  pub conserved : (j : ℕ) → FreeAt c m.buddy j → FreeAt c m'.buddy j

abbrev pub Outcome : Config → Cache → Memory → (ℕ → List ℕ) → Bool × Cache × Memory → Type 0
Outcome c k m free_of (true, k', m') = Grown c k m free_of k' m'
Outcome c k m free_of (false, k', m') = Unchanged c k m free_of k' m'

-- The memory when the block was cleared, when its frame has the type of a slab, and with a slab in it.
abbrev pub zeroed : Memory → ℕ → State → Memory
zeroed m p b = record { buddy = b; slabs = update m.slabs p cleared }

abbrev pub retyped : Memory → ℕ → State → Memory
retyped m p b = set_pgtype slab_allocator p (zeroed m p b)

abbrev pub filled : Memory → ℕ → State → Slab → Memory
filled m p b s = record (retyped m p b) { slabs = update (retyped m p b).slabs p s }

abbrev pub longer : Cache → ℕ → Slab → ℕ → Cache
longer k p s color = record k {
  color_offset = color;
  obj_num = add k.obj_num s.obj_free;
  pg_orhas = k.pg_orhas + 1;
  free = k.free ++ (p ∷ []);
}

module _ {c : Config} {k : Cache} {m : Memory} {free_of : ℕ → List ℕ} (h : IsCache c k m free_of)
    (p : ℕ) (b : State) (done : Allocated c m.buddy k.pg_order p b) where
  pub fresh_block : lists k p ≡ false
  fresh_block = elim (Bool-cases (lists k p)) [
    | inr e ↦ e
    | inl e ↦ let was = h.holds p e in absurd (ground (arith, was.in_use, done.was_free))
  ]

  pub block-fits : p + 2 ^ k.pg_order ≤ count c
  block-fits =
      let b = done.block in rw (← b.order) (done.inv.fits p b.in_range (ground (arith, b.in_use))).1

  module _ (s : Slab) (xs : List ℕ) (slab : IsSlab s xs) (all : length xs ≡ s.obj_all)
      (size : s.obj_size ≡ k.obj_size) (place : InPages c k.pg_order p s)
      (room : k.pg_orhas < k.pg_orlimit) (color : ℕ) where
    filled-Holds :
        (q : ℕ)
        → lists (longer k p s color) q ≡ true
        → Holds c (longer k p s color) (filled m p b s) q (update free_of p xs q)
    filled-Holds q l = elim (Bool-cases (p == q)) [
      | inl e ↦
          let block = done.block in
          record {
            in_range = ground (arith, block.in_range);
            kind = ground arith;
            in_use = ground (arith, block.in_use);
            order = ground (arith, block.order);
            slab = rw e slab;
            objects = ground arith;
            place = let same : p ≡ q = ground arith in rw (e, ← same) place;
          }
      | inr e ↦
          let on : lists k q ≡ true = ground (arith, has-append q k.free (p ∷ [])) in
          let old = h.holds q on in
          let page = done.held q old.in_range old.in_use in
          record {
            in_range = old.in_range;
            kind = ground (arith, old.kind, page);
            in_use = ground (arith, old.in_use, page);
            order = ground (arith, old.order, page);
            slab = rw e old.slab;
            objects = ground (arith, old.objects);
            place = rw e old.place;
          }
    ]

    filled-IsCache : IsCache c (longer k p s color) (filled m p b s) (update free_of p xs)
    filled-IsCache = record {
      buddy =
          set_pgtype-IsBuddy c slab_allocator p (zeroed m p b) done.block.in_use done.block.in_range
            done.inv;
      holds = filled-Holds;
      all_free = λ q l. ground (arith, fresh_block, h.all_free q, has-append q k.free (p ∷ []));
      some_free = λ q l. ground (arith, fresh_block, h.some_free q);
      none_free = λ q l. ground (arith, fresh_block, h.none_free q);
      distinct = ground (arith, h.distinct, fresh_block, Distinct-snoc p k.free);
      counted = ground (
        arith,
        h.counted,
        fresh_block,
        slab.free,
        total-append (update free_of p xs) k.free (p ∷ []),
        total-update_absent free_of p xs k.free,
        total-update_absent free_of p xs k.partial,
        total-update_absent free_of p xs k.full,
      );
      slabs_counted = omega (arith, h.slabs_counted, length-append k.free (p ∷ []));
      limited = omega arith;
      size_pos = h.size_pos;
      size_small = h.size_small;
      order_small = h.order_small;
    }

    pub filled-Grown : Grown c k m free_of (longer k p s color) (filled m p b s)
    filled-Grown = record {
      p = p;
      xs = xs;
      fresh = fresh_block;
      cache = filled-IsCache;
      some_left = λ e. ground (arith, h.counted, slab.free, place.some_object);
      free = refl;
      others = (refl, refl);
      limits = (refl, refl, refl, refl);
      slabs = λ q l. ground (arith, fresh_block);
      held = λ q small h. ground (arith, done.held q small h, done.was_free, h);
      conserved = done.conserved;
    }
