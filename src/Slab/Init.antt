-- ===== src/Slab/Init.antt =====
-- init_slab_xip of module/mm/kmem_cache/slab.c: the parts of a new slab lie in its pages, apart from
-- one another, and all its objects are free.
use native.Mathlib.Nat.{div-add-mod', mod-lt, le-div_iff_mul-le, div-eq_of_lt, div-le_self}
use aco_os.Base.{
  ℕ, zero, suc, ◌+◌, ◌-◌, ◌*◌, ◌/◌, ◌%◌, ◌^◌, ◌≤◌, ◌<◌, ◌≡◌, inl, inr, refl, true, false, ◌&&◌,
  ◌||◌, not, List, [], ◌∷◌, ltb, leb, ◌==◌, if◌then◌else◌, update, length, has, Distinct, arith, ap,
  ◌∙◌, Bool-cases, none, some, sym, subst,
}
use aco_os.Base.Run.{ok, Returns, returns}
use aco_os.Pageframe.{add_ptr, sub_ptr, int_bits, val_is_page_aligned}
use aco_os.Slab.{Slab, slab_bytes, sdbm_hash, color, link_all, init_slab_xip}
use aco_os.Slab.FreeList.{IsSlab, Queue, Links, end_of}

-- `rounds` numbers from `i` on
abbrev pub range : ℕ → ℕ → List ℕ
range i zero = []
range i (suc rounds) = i ∷ range (i + 1) rounds

range-mem : (i rounds j : ℕ) → has j (range i rounds) ≡ (leb i j && ltb j (i + rounds))
range-mem i zero j = ground arith
range-mem i (suc rounds) j = ground (arith, range-mem (i + 1) rounds j)

range-Distinct : (i rounds : ℕ) → Distinct (range i rounds)
range-Distinct i zero = tt
range-Distinct i (suc rounds) =
    (ground (arith, range-mem (i + 1) rounds i), range-Distinct (i + 1) rounds)

pub length-range : (i rounds : ℕ) → length (range i rounds) ≡ rounds
length-range i zero = refl
length-range i (suc rounds) = omega (arith, length-range (i + 1) rounds)

end_of-range : (i rounds : ℕ) → end_of i (range (i + 1) rounds) ≡ i + rounds
end_of-range i zero = omega arith
end_of-range i (suc rounds) = omega (arith, end_of-range (i + 1) rounds)

link_all_lem :
    (n rounds i : ℕ) (index : ℕ → ℕ) (j : ℕ)
    → (i ≤ j → j < i + rounds → link_all n rounds i index j ≡ (if j == n - 1 then j else j + 1))
      × (j < i → link_all n rounds i index j ≡ index j)
unfolding link_all
link_all_lem n zero i index j = (λ lo hi. absurd (omega arith), λ lo. refl)
link_all_lem n (suc rounds) i index j =
    let rest = link_all_lem n rounds (i + 1) (update index i (if i == n - 1 then i else i + 1)) j in
    (λ lo hi. ground (arith, rest), λ lo. ground (arith, rest))

range-Links :
    (n : ℕ) (index : ℕ → ℕ) (i rounds : ℕ)
    → i + 1 + rounds ≡ n
    → ((j : ℕ) → j < n → index j ≡ (if j == n - 1 then j else j + 1))
    → Links index i (range (i + 1) rounds)
range-Links n index i zero e h = ground (arith, h i)
range-Links n index i (suc rounds) e h =
    (ground (arith, h i), range-Links n index (i + 1) rounds (omega arith) h)

pub color-le : (bytes : ℕ → ℕ) (padding : ℕ) → color bytes padding ≤ padding
unfolding color
color-le bytes padding = elim (Bool-cases (padding == 0)) [
  | inl e ↦ rw e (omega arith)
  | inr e ↦ rw e (omega (arith, mod-lt (sdbm_hash bytes 4) {m = padding} (ground arith)))
]

-- The number of objects of a slab of this size, and the bytes that stay unused.
abbrev pub objects : ℕ → ℕ → ℕ
objects size obj_size = (size - slab_bytes) / (4 + obj_size)

abbrev pub unused : ℕ → ℕ → ℕ
unused size obj_size = (size - slab_bytes) % (4 + obj_size)

-- The parts of the slab and of its pages.
pub objects-fit :
    (size obj_size : ℕ)
    → slab_bytes ≤ size
    → (slab_bytes
          + 4 * objects size obj_size
          + objects size obj_size * obj_size
          + unused size obj_size
        ≡ size)
      × (unused size obj_size < 4 + obj_size)
      × (objects size obj_size ≤ size)
      × (slab_bytes + 4 + obj_size ≤ size → 0 < objects size obj_size)
      × (size < slab_bytes + 4 + obj_size → objects size obj_size ≡ 0)
objects-fit size obj_size h =
    let split = div-add-mod' (size - slab_bytes) (4 + obj_size) in
    (
      omega (arith, split),
      mod-lt (size - slab_bytes) (omega arith),
      omega (arith, div-le_self (size - slab_bytes) (4 + obj_size)),
      λ room. (le-div_iff_mul-le {k = 4 + obj_size} {x = 1} (omega arith)).1 (omega arith),
      λ small. div-eq_of_lt (omega arith),
    )

-- The slab that init_slab_xip makes.
abbrev pub fresh : ℕ → ℕ → ℕ → (ℕ → ℕ) → (ℕ → ℕ) → Slab
fresh start size obj_size bytes index = record {
  obj_all = objects size obj_size;
  obj_free = objects size obj_size;
  obj_size = obj_size;
  mem_free_head = 0;
  mem_free_tail = objects size obj_size - 1;
  mem_index_start = start + slab_bytes;
  mem_obj_start =
      start + slab_bytes + 4 * objects size obj_size + color bytes (unused size obj_size);
  index = link_all (objects size obj_size) (objects size obj_size) 0 index;
}

range-pos : (i n : ℕ) → 0 < n → range i n ≡ i ∷ range (i + 1) (n - 1)
range-pos i zero h = absurd (omega arith)
range-pos i (suc n) h = let e : n ≡ suc n - 1 = omega arith in ap (λ k. i ∷ range (i + 1) k) e

fresh-Queue :
    (start size obj_size : ℕ) (bytes index : ℕ → ℕ)
    → 0 < objects size obj_size
    → Queue (fresh start size obj_size bytes index) (range 0 (objects size obj_size))
fresh-Queue start size obj_size bytes index some_object =
    let n = objects size obj_size in
    let f = fresh start size obj_size bytes index in
    let last : n - 1 ≡ end_of 0 (range (0 + 1) (n - 1)) = omega (arith, end_of-range 0 (n - 1)) in
    subst (λ l. Queue f l) (sym (range-pos 0 n some_object))
      (
        refl,
        last,
        range-Links n f.index 0 (n - 1) (omega arith)
            (λ j hi. (link_all_lem n n 0 index j).0 (omega arith) (omega arith)),
      )

pub fresh-IsSlab :
    (start size obj_size : ℕ) (bytes index : ℕ → ℕ)
    → 0 < obj_size
    → slab_bytes + 4 + obj_size ≤ size
    → size < 2 ^ 31
    → start + size < 2 ^ 64
    → IsSlab (fresh start size obj_size bytes index) (range 0 (objects size obj_size))
fresh-IsSlab start size obj_size bytes index pos_size room small ends =
    let (split, _, few, some_object, _) = objects-fit size obj_size (omega arith) in
    let shift = color-le bytes (unused size obj_size) in
    record {
      queue = fresh-Queue start size obj_size bytes index (some_object room);
      free = sym (length-range 0 (objects size obj_size));
      inside = λ i m. ground (arith, range-mem 0 (objects size obj_size) i);
      distinct = range-Distinct 0 (objects size obj_size);
      used = λ i hi out. absurd (ground (arith, range-mem 0 (objects size obj_size) i));
      size_pos = pos_size;
      few = omega (arith, few);
      fits = omega (arith, split);
      start_pos = omega arith;
      ends = omega (arith, split, shift);
    }

-- What init_slab_xip computes in 64 bits is what the slab has room for.
pub init_slab_xip-fresh :
    (start size obj_size : ℕ) (bytes index : ℕ → ℕ)
    → 0 < start
    → val_is_page_aligned start ≡ true
    → 0 < obj_size
    → obj_size < size
    → slab_bytes ≤ size
    → size < 2 ^ 31
    → start + size < 2 ^ 64
    → init_slab_xip start size obj_size bytes index
      ≡ ok (
          if objects size obj_size == 0 then none else some (fresh start size obj_size bytes index))
unfolding init_slab_xip
init_slab_xip-fresh start size obj_size bytes index pos_start aligned pos_size less header small
      ends =
    let n = objects size obj_size in
    let (split, less_unused, few, _, _) = objects-fit size obj_size header in
    let shift = color-le bytes (unused size obj_size) in
    let room : sub_ptr size slab_bytes ≡ size - slab_bytes = omega arith in
    let number : int_bits n ≡ n = omega (arith, few) in
    let padding : int_bits (unused size obj_size) ≡ unused size obj_size =
      omega (arith, less_unused) in
    let sign : (n == 0 || leb (2 ^ 31) n) ≡ (n == 0) = ground (arith, few) in
    let index_start : add_ptr start slab_bytes ≡ start + slab_bytes = omega arith in
    let obj_start : add_ptr (add_ptr (start + slab_bytes) (4 * n))
          (color bytes (unused size obj_size))
        ≡ start + slab_bytes + 4 * n + color bytes (unused size obj_size) =
      omega (arith, split, shift) in
    let sane : (not (start == 0)
          && (ltb 0 size && (ltb 0 obj_size && (ltb obj_size size && val_is_page_aligned start))))
        ≡ true =
      ground (arith, aligned) in
    rw (sane, room, number, padding, sign, index_start, obj_start) refl

-- init_slab_xip on aligned pages below 2^64, with room for one object behind the header, fails no
-- ASSERT and makes a slab whose objects are all free, in order; header, array and objects follow one
-- another within the pages.
pub init_slab_xip-IsSlab :
    (start size obj_size : ℕ) (bytes index : ℕ → ℕ)
    → 0 < start
    → val_is_page_aligned start ≡ true
    → 0 < obj_size
    → slab_bytes + 4 + obj_size ≤ size
    → size < 2 ^ 31
    → start + size < 2 ^ 64
    → Returns
        (λ o.
          (t : Slab) × (o ≡ some t)
          × IsSlab t (range 0 (objects size obj_size))
          × (start + slab_bytes ≤ t.mem_index_start)
          × (t.mem_index_start + 4 * t.obj_all ≤ t.mem_obj_start)
          × (t.mem_obj_start + t.obj_all * t.obj_size ≤ start + size))
        (init_slab_xip start size obj_size bytes index)
init_slab_xip-IsSlab start size obj_size bytes index pos_start aligned pos_size room small ends =
    let same =
      init_slab_xip-fresh start size obj_size bytes index pos_start aligned pos_size (omega arith)
        (omega arith) small ends in
    let (split, _, _, some_object, _) = objects-fit size obj_size (omega arith) in
    let shift = color-le bytes (unused size obj_size) in
    let some_left : (objects size obj_size == 0) ≡ false = ground (arith, some_object room) in
    rw (same, some_left)
      (returns (
        fresh start size obj_size bytes index,
        refl,
        fresh-IsSlab start size obj_size bytes index pos_size room small ends,
        omega arith,
        omega arith,
        omega (arith, split, shift),
      ))

-- On aligned pages that hold the header and more bytes than an object, but not the header, an index
-- and an object, init_slab_xip gives NULL.
pub init_slab_xip_tight :
    (start size obj_size : ℕ) (bytes index : ℕ → ℕ)
    → 0 < start
    → val_is_page_aligned start ≡ true
    → 0 < obj_size
    → obj_size < size
    → slab_bytes ≤ size
    → size < slab_bytes + 4 + obj_size
    → size < 2 ^ 31
    → start + size < 2 ^ 64
    → init_slab_xip start size obj_size bytes index ≡ ok none
init_slab_xip_tight start size obj_size bytes index pos_start aligned pos_size less header tight
      small ends =
    let (_, _, _, _, no_object) = objects-fit size obj_size header in
    let none_left : (objects size obj_size == 0) ≡ true = ground (arith, no_object tight) in
    init_slab_xip-fresh start size obj_size bytes index pos_start aligned pos_size less header small
      ends
    ∙ rw none_left refl
