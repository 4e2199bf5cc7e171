-- ===== src/Slab/Free.antt =====
-- slab_free of module/mm/kmem_cache/slab.c against the list of free objects.
use native.Mathlib.Nat.{
  mul-add-div_right, div-eq_of_lt, mul-add-mod_self_right, mod-eq_of_lt, mul-le-mul_right,
}
use aco_os.Base.{
  ℕ, ◌+◌, ◌*◌, ◌/◌, ◌%◌, ◌≤◌, ◌<◌, ◌≡◌, ◌⊎◌, inl, inr, refl, true, false, List, [], ◌∷◌, ◌++◌, ltb,
  leb, ◌==◌, update, length-append, has-append, ◌∈◌, ◌∉◌, Distinct, Distinct-snoc, arith, ◌∙◌, sym,
  subst, Bool-cases,
}
use aco_os.Base.Run.{ok, panic, Returns, returns, ◌>>◌, assert}
use aco_os.Pageframe.{add_ptr, sub_ptr, int_bits}
use aco_os.Slab.{Slab, minus_one, mul_int, slab_free, put_object}
use aco_os.Slab.FreeList.{IsSlab, SameShape, Links, end_of, end_of-mem, object}

-- The links of a list that gets a new last object.
Links-snoc :
    (index : ℕ → ℕ) (x : ℕ) (xs : List ℕ) (i : ℕ)
    → Links index x xs
    → Distinct (x ∷ xs)
    → i ∉ (x ∷ xs)
    → Links (update (update index (end_of x xs) i) i i) x (xs ++ (i ∷ []))
Links-snoc index x [] i h d out = (ground arith, ground arith)
Links-snoc index x (y ∷ ys) i h d out =
    (ground (arith, end_of-mem y ys), Links-snoc index y ys i h.1 d.1 (ground arith))

end_of-snoc : (x : ℕ) (xs : List ℕ) (i : ℕ) → end_of x (xs ++ (i ∷ [])) ≡ i
end_of-snoc x [] i = refl
end_of-snoc x (y ∷ ys) i = end_of-snoc y ys i

-- A free object is linked to a free object.
Links-mem :
    (index : ℕ → ℕ) (x : ℕ) (xs : List ℕ) (i : ℕ)
    → Links index x xs
    → i ∈ (x ∷ xs)
    → index i ∈ (x ∷ xs)
Links-mem index x [] i h m = ground arith
Links-mem index x (y ∷ ys) i h m = ground (arith, Links-mem index y ys i h.1)

module _ (s : Slab) (i : ℕ) where
  -- The slab after the writes of slab_free.
  abbrev put : List ℕ → Slab
  put [] = record s {
    mem_free_head = i;
    mem_free_tail = i;
    index = update s.index i i;
    obj_free = s.obj_free + 1;
  }
  put (x ∷ xs) = record s {
    mem_free_tail = i;
    index = update (update s.index (end_of x xs) i) i i;
    obj_free = s.obj_free + 1;
  }

  put_object-put : (xs : List ℕ) → IsSlab s xs → put_object i s ≡ ok (put xs)
  unfolding put_object
  put_object-put [] h =
      let empty : (s.obj_free == 0) ≡ true = ground (arith, h.free) in
      let e : (minus_one == minus_one) ≡ true = refl in rw (empty, h.queue.0, h.queue.1) refl
  put_object-put (x ∷ xs) h =
      let more : (s.obj_free == 0) ≡ false = ground (arith, h.free) in
      let first : (x == minus_one) ≡ false = ground (arith, h.inside x, h.few) in
      let last : (end_of x xs == minus_one) ≡ false =
        ground (arith, h.inside (end_of x xs), end_of-mem x xs, h.few) in
      rw (more, h.queue.0, h.queue.1, first, last) refl

  put-SameShape : (xs : List ℕ) → SameShape s (put xs)
  put-SameShape [] = (refl, refl, refl)
  put-SameShape (x ∷ xs) = (refl, refl, refl)

  put-IsSlab :
      (xs : List ℕ) → IsSlab s xs → i < s.obj_all → i ∉ xs → IsSlab (put xs) (xs ++ (i ∷ []))
  put-IsSlab [] h small out = record {
    queue = (refl, refl, ground arith);
    free = omega (arith, h.free);
    inside = λ j m. ground arith;
    distinct = (refl, tt);
    used = λ j k m. ground (arith, h.used j);
    size_pos = h.size_pos;
    few = h.few;
    fits = h.fits;
    start_pos = h.start_pos;
    ends = h.ends;
  }
  put-IsSlab (x ∷ xs) h small out = record {
    queue =
        (h.queue.0, sym (end_of-snoc x xs i), Links-snoc s.index x xs i h.queue.2 h.distinct out);
    free = omega (arith, h.free, length-append xs (i ∷ []));
    inside = λ j m. ground (arith, h.inside j, has-append j xs (i ∷ []));
    distinct = Distinct-snoc i (x ∷ xs) h.distinct out;
    used = λ j k m. ground (arith, h.used j, has-append j xs (i ∷ []), end_of-mem x xs);
    size_pos = h.size_pos;
    few = h.few;
    fits = h.fits;
    start_pos = h.start_pos;
    ends = h.ends;
  }

-- What slab_free computes from an address in an object.
record At (s : Slab) (i r : ℕ) : Type 0 where
  address : (object s i + r == 0) ≡ false
  above : leb s.mem_obj_start (object s i + r) ≡ true
  below : ltb (object s i + r) (add_ptr s.mem_obj_start (mul_int s.obj_all s.obj_size)) ≡ true
  off : int_bits (sub_ptr (object s i + r) s.mem_obj_start) ≡ i * s.obj_size + r
  rest : (i * s.obj_size + r) % s.obj_size ≡ r
  which : (i * s.obj_size + r) / s.obj_size ≡ i

IsSlab-At :
    (s : Slab) (xs : List ℕ) (i r : ℕ) → IsSlab s xs → i < s.obj_all → r < s.obj_size → At s i r
IsSlab-At s xs i r h small part =
    let room : (i + 1) * s.obj_size ≤ s.obj_all * s.obj_size =
      mul-le-mul_right s.obj_size (omega arith) in
    record {
      address = ground (arith, h.start_pos);
      above = ground arith;
      below = ground (arith, room, h.fits, h.ends);
      off = ground (arith, room, h.fits, h.ends);
      rest = mul-add-mod_self_right i s.obj_size r ∙ mod-eq_of_lt part;
      which = mul-add-div_right h.size_pos i r ∙ omega (arith, div-eq_of_lt part);
    }

slab_free-At :
    (s : Slab) (i r : ℕ)
    → At s i r
    → slab_free s (object s i + r)
      ≡ (assert (r == 0) >> (assert (s.index i == minus_one) >> put_object i s))
unfolding slab_free
slab_free-At s i r at = rw (at.address, at.above, at.below, at.off, at.rest, at.which) refl

-- On a well-formed slab, slab_free of an object that is not free, by its address, fails no ASSERT and
-- puts the object behind the free ones; all objects stay where they are.
pub slab_free-IsSlab :
    (s : Slab) (xs : List ℕ) (i : ℕ)
    → IsSlab s xs
    → i < s.obj_all
    → i ∉ xs
    → Returns (λ t. IsSlab t (xs ++ (i ∷ [])) × SameShape s t) (slab_free s (object s i))
slab_free-IsSlab s xs i h small out =
    let used : (s.index i == minus_one) ≡ true = ground (arith, h.used i) in
    let here : object s i + 0 ≡ object s i = omega arith in
    subst (λ a. Returns (λ t. IsSlab t (xs ++ (i ∷ [])) × SameShape s t) (slab_free s a)) here
      (rw
        (slab_free-At s i 0 (IsSlab-At s xs i 0 h small h.size_pos), used, put_object-put s i xs h)
        (returns (put-IsSlab s i xs h small out, put-SameShape s i xs)))

-- The mark of a free object is not -1.
free-unmarked :
    (s : Slab) (xs : List ℕ) (i : ℕ) → IsSlab s xs → i ∈ xs → (s.index i == minus_one) ≡ false
free-unmarked s [] i h m = ground arith
free-unmarked s (x ∷ xs) i h m =
    let next = Links-mem s.index x xs i h.queue.2 m in
    ground (arith, h.inside (s.index i) next, h.few)

-- On a well-formed slab, slab_free of an object that is free already, or of an address inside an object but not at its start,
-- fails an ASSERT.
pub slab_free-panic :
    (s : Slab) (xs : List ℕ) (i r : ℕ)
    → IsSlab s xs
    → i < s.obj_all
    → r < s.obj_size
    → (i ∈ xs) ⊎ (0 < r)
    → slab_free s (object s i + r) ≡ panic
slab_free-panic s xs i r h small part (inr inner) =
    let bad : (r == 0) ≡ false = ground arith in
    slab_free-At s i r (IsSlab-At s xs i r h small part) ∙ rw bad refl
slab_free-panic s xs i r h small part (inl free) =
    slab_free-At s i r (IsSlab-At s xs i r h small part) ∙ elim (Bool-cases (r == 0)) [
      | inl e ↦ rw (e, free-unmarked s xs i h free) refl
      | inr e ↦ rw e refl
    ]
