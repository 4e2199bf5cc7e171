-- ===== src/Slab/FreeList.antt =====
-- The free objects of a slab as a list: slab_alloc takes the first, slab_free adds one at the end.
use native.Mathlib.Nat.{mul-le-mul_right, mul_comm}
use aco_os.Base.{
  ℕ, ◌+◌, ◌-◌, ◌*◌, ◌^◌, ◌≤◌, ◌<◌, ◌≡◌, refl, true, false, List, [], ◌∷◌, ◌==◌, if◌then◌else◌,
  update, length, ◌∈◌, ◌∉◌, Distinct, arith, ap, Bool-cases, inl, inr,
}
use aco_os.Base.Run.{Returns, returns}
use aco_os.Pageframe.{add_ptr}
use aco_os.Slab.{Slab, minus_one, mul_int, slab_alloc}

-- The links from the free object `x` on: `xs` in order, and the last one links to itself.
abbrev pub Links : (ℕ → ℕ) → ℕ → List ℕ → Type 0
Links index x [] = index x ≡ x
Links index x (y ∷ ys) = (index x ≡ y) × Links index y ys

abbrev pub end_of : ℕ → List ℕ → ℕ
end_of x [] = x
end_of x (y ∷ ys) = end_of y ys

abbrev pub Queue : Slab → List ℕ → Type 0
Queue s [] = (s.mem_free_head ≡ minus_one) × (s.mem_free_tail ≡ minus_one)
Queue s (x ∷ xs) = (s.mem_free_head ≡ x) × (s.mem_free_tail ≡ end_of x xs) × Links s.index x xs

-- The address of the object `i`.
abbrev pub object : Slab → ℕ → ℕ
object s i = s.mem_obj_start + i * s.obj_size

-- The objects stay where they are.
abbrev pub SameShape : Slab → Slab → Type 0
SameShape s t =
    (t.obj_all ≡ s.obj_all) × (t.obj_size ≡ s.obj_size) × (t.mem_obj_start ≡ s.mem_obj_start)

-- The free objects of the slab are `xs`, in this order; all others are marked with -1.
pub record IsSlab (s : Slab) (xs : List ℕ) : Type 0 where
  pub queue : Queue s xs
  pub free : s.obj_free ≡ length xs
  pub inside : (i : ℕ) → i ∈ xs → i < s.obj_all
  pub distinct : Distinct xs
  pub used : (i : ℕ) → i < s.obj_all → i ∉ xs → s.index i ≡ minus_one
  pub size_pos : 0 < s.obj_size
  pub few : s.obj_all < 2 ^ 31
  pub fits : s.obj_all * s.obj_size < 2 ^ 31
  pub start_pos : 0 < s.mem_obj_start
  pub ends : s.mem_obj_start + s.obj_all * s.obj_size < 2 ^ 64

pub end_of-mem : (x : ℕ) (xs : List ℕ) → end_of x xs ∈ (x ∷ xs)
end_of-mem x [] = ground arith
end_of-mem x (y ∷ ys) = ground (arith, end_of-mem y ys)

Links-update :
    (index : ℕ → ℕ) (x : ℕ) (xs : List ℕ) (i v : ℕ)
    → i ∉ (x ∷ xs)
    → Links index x xs
    → Links (update index i v) x xs
Links-update index x [] i v out h = ground arith
Links-update index x (y ∷ ys) i v out h =
    (ground arith, Links-update index y ys i v (ground arith) h.1)

-- The free objects behind the first one.
abbrev pub others : List ℕ → List ℕ
others [] = []
others (_ ∷ xs) = xs

-- The address of the first free object, 0 for NULL.
abbrev pub first_object : Slab → List ℕ → ℕ
first_object s [] = 0
first_object s (x ∷ _) = object s x

module _ (s : Slab) where
  -- What is left when the first free object is taken.
  abbrev taken : ℕ → Slab
  taken x =
      if s.obj_free - 1 == 0
      then record s {
        mem_free_head = minus_one;
        mem_free_tail = minus_one;
        index = update s.index x minus_one;
        obj_free = s.obj_free - 1;
      }
      else record s {
        mem_free_head = s.index x;
        index = update s.index x minus_one;
        obj_free = s.obj_free - 1;
      }

  taken-Queue : (x : ℕ) (xs : List ℕ) → IsSlab s (x ∷ xs) → Queue (taken x) xs
  taken-Queue x [] h = ground (arith, h.free)
  taken-Queue x (y ∷ ys) h =
      let more : (s.obj_free - 1 == 0) ≡ false = ground (arith, h.free) in
      rw more (
        ground (arith, h.queue),
        ground (arith, h.queue),
        Links-update s.index y ys x minus_one h.distinct.0 h.queue.2.1,
      )

  taken-fields :
      (x : ℕ)
      → ((taken x).obj_free ≡ s.obj_free - 1)
        × ((taken x).index ≡ update s.index x minus_one)
        × ((taken x).obj_all ≡ s.obj_all)
        × ((taken x).obj_size ≡ s.obj_size)
        × ((taken x).mem_obj_start ≡ s.mem_obj_start)
  taken-fields x = elim (Bool-cases (s.obj_free - 1 == 0)) [
    | inl e ↦ rw e (refl, refl, refl, refl, refl)
    | inr e ↦ rw e (refl, refl, refl, refl, refl)
  ]

  taken-IsSlab : (x : ℕ) (xs : List ℕ) → IsSlab s (x ∷ xs) → IsSlab (taken x) xs
  taken-IsSlab x xs h =
      let (free, index, all, size, at) = taken-fields x in
      record {
        queue = taken-Queue x xs h;
        free = omega (arith, free, h.free);
        inside = λ i m. ground (arith, all, h.inside i);
        distinct = h.distinct.1;
        used = λ i small out. ground (arith, ap (λ f. f i) index, all, h.used i);
        size_pos = omega (arith, size, h.size_pos);
        few = omega (arith, all, h.few);
        fits = rw (all, size) h.fits;
        start_pos = omega (arith, at, h.start_pos);
        ends = rw (all, size, at) h.ends;
      }

module _ {s : Slab} where
  -- The arithmetic of the address of an object wraps nowhere.
  pub mul_int-object :
      {xs : List ℕ} (i : ℕ)
      → IsSlab s xs
      → i < s.obj_all
      → (add_ptr s.mem_obj_start (mul_int s.obj_size i) ≡ object s i)
        × (object s i + s.obj_size ≤ s.mem_obj_start + s.obj_all * s.obj_size)
  mul_int-object i h small =
      let room : (i + 1) * s.obj_size ≤ s.obj_all * s.obj_size =
        mul-le-mul_right s.obj_size (omega arith) in
      let flip : s.obj_size * i ≡ i * s.obj_size = mul_comm s.obj_size i in
      ground (arith, room, flip, h.fits, h.ends, h.size_pos)

  -- On a well-formed slab, slab_alloc fails no ASSERT. It gives the address of the first free object,
  -- the objects behind it stay free, and all stay where they are; on a slab without a free object it
  -- gives NULL.
  pub slab_alloc-IsSlab :
      (xs : List ℕ)
      → IsSlab s xs
      → Returns
          (λ (address, t). (address ≡ first_object s xs) × IsSlab t (others xs) × SameShape s t)
          (slab_alloc s)
  unfolding slab_alloc
  slab_alloc-IsSlab [] h =
      let none_left : (s.obj_free == 0) ≡ true = ground (arith, h.free) in
      rw none_left (returns (refl, h, (refl, refl, refl)))
  slab_alloc-IsSlab (x ∷ xs) h =
      let small : x < s.obj_all = h.inside x (ground arith) in
      let some_free : (s.obj_free == 0) ≡ false = ground (arith, h.free) in
      let (_, _, all, size, at) = taken-fields s x in
      let valid : (x == minus_one) ≡ false = ground (arith, h.few) in
      rw (some_free, h.queue.0, valid)
        (returns ((mul_int-object x h small).0, taken-IsSlab s x xs h, (all, size, at)))
