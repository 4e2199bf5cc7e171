-- ===== src/KmemCache/Invariant.antt =====
-- What the operations on a cache keep true of its lists, its slabs and its counts.
use aco_os.Base.{
  ℕ, ◌+◌, ◌*◌, ◌^◌, ◌≤◌, ◌<◌, ◌≡◌, true, Bool, ◌||◌, List, [], length, has, ◌∈◌, Distinct, arith,
}
use aco_os.Base.Int.{pos}
use aco_os.Pageframe.{page_size, id2va, is_slab}
use aco_os.Buddy.{Config}
use aco_os.Buddy.Neighbour.{count}
use aco_os.Buddy.Invariant.{IsBuddy, IsHeld}
use aco_os.Slab.{Slab, slab_bytes}
use aco_os.Slab.FreeList.{IsSlab}
use aco_os.KmemCache.{Cache, Memory}
use aco_os.KmemCache.Total.{total}

-- The frame `p` is on one of the lists.
abbrev pub lists : Cache → ℕ → Bool
lists k p = has p k.free || (has p k.partial || has p k.full)

-- The objects of the slab lie in the pages of the frame, behind the header.
pub record InPages (c : Config) (order p : ℕ) (s : Slab) : Type 0 where
  pub some_object : 0 < s.obj_all
  pub above : id2va c.layout p + slab_bytes ≤ s.mem_obj_start
  pub below : s.mem_obj_start + s.obj_all * s.obj_size ≤ id2va c.layout p + 2 ^ order * page_size

-- A frame on the lists is the head of a block in use that holds a slab whose free objects are `xs`.
pub record Holds (c : Config) (k : Cache) (m : Memory) (p : ℕ) (xs : List ℕ) : Type 0 where
  pub in_range : p < count c
  pub kind : is_slab (m.buddy.pages p).pgtype ≡ true
  pub in_use : IsHeld (m.buddy.pages p)
  pub order : (m.buddy.pages p).buddy_order ≡ k.pg_order
  pub slab : IsSlab (m.slabs p) xs
  pub objects : (m.slabs p).obj_size ≡ k.obj_size
  pub place : InPages c k.pg_order p (m.slabs p)

-- `free_of` gives the free objects of the slab at a frame.
pub record IsCache (c : Config) (k : Cache) (m : Memory) (free_of : ℕ → List ℕ) : Type 0 where
  pub buddy : IsBuddy c m.buddy
  pub holds : (p : ℕ) → lists k p ≡ true → Holds c k m p (free_of p)
  -- all objects of a slab on the free list are free, some but not all on the partial, none on the full
  pub all_free : (p : ℕ) → p ∈ k.free → length (free_of p) ≡ (m.slabs p).obj_all
  pub some_free :
      (p : ℕ)
      → p ∈ k.partial
      → (0 < length (free_of p)) × (length (free_of p) < (m.slabs p).obj_all)
  pub none_free : (p : ℕ) → p ∈ k.full → free_of p ≡ []
  pub distinct : Distinct k.free × Distinct k.partial × Distinct k.full
  pub counted :
      k.obj_num ≡ pos (total free_of k.free + total free_of k.partial + total free_of k.full)
  pub slabs_counted : k.pg_orhas ≡ length k.free + length k.partial + length k.full
  pub limited : k.pg_orhas ≤ k.pg_orlimit
  pub size_pos : 0 < k.obj_size
  pub size_small : k.obj_size < 2 ^ k.pg_order * page_size
  pub order_small : k.pg_order < c.max_order

-- The frames on the lists and their slabs are as before, and frames and pools are well formed.
pub IsCache-Memory :
    (c : Config) (k : Cache) (m m' : Memory) (free_of : ℕ → List ℕ)
    → IsCache c k m free_of
    → IsBuddy c m'.buddy
    → ((p : ℕ) → lists k p ≡ true → (m'.buddy.pages p ≡ m.buddy.pages p) × (m'.slabs p ≡ m.slabs p))
    → IsCache c k m' free_of
IsCache-Memory c k m m' free_of h inv same = record {
  buddy = inv;
  holds = λ p l.
      let old = h.holds p l in
      let (page, slab) = same p l in
      record {
        in_range = old.in_range;
        kind = rw page old.kind;
        in_use = rw page old.in_use;
        order = rw page old.order;
        slab = rw slab old.slab;
        objects = rw slab old.objects;
        place = rw slab old.place;
      };
  all_free = λ p l. ground (arith, h.all_free p, same p);
  some_free = λ p l. ground (arith, h.some_free p, same p);
  none_free = h.none_free;
  distinct = h.distinct;
  counted = h.counted;
  slabs_counted = h.slabs_counted;
  limited = h.limited;
  size_pos = h.size_pos;
  size_small = h.size_small;
  order_small = h.order_small;
}
