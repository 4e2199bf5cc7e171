-- ===== src/KmemCache/Put.antt =====
-- kmem_obj_free: the slab of an object is found by its pages, and takes the object back.
use aco_os.Base.{
  has-remove_ne, has-remove, has-append, ℕ, ◌+◌, ◌^◌, ◌≤◌, ◌<◌, ◌≡◌, refl, true, false, Bool, ◌||◌,
  ◌&&◌, ◌==◌, List, [], ◌∷◌, ◌++◌, if◌then◌else◌, update, length, has, ◌∈◌, ◌∉◌, arith, Bool-cases,
  inl, inr, none, some, length-append, Distinct-length,
}
use aco_os.Base.Int.{pos_part}
use aco_os.Base.Run.{ok, panic, Returns, returns, Returns-bind}
use aco_os.Pageframe.{is_slab, eq_head}
use aco_os.Buddy.{Config}
use aco_os.Buddy.Neighbour.{IsConfig}
use aco_os.Slab.FreeList.{SameShape, object}
use aco_os.Slab.Free.{slab_free-IsSlab, slab_free-panic}
use aco_os.KmemCache.{after_free, Cache, Memory, free_in_slab, find_slab, fits_list, kmem_obj_free}
use aco_os.KmemCache.Invariant.{lists, IsCache}
use aco_os.KmemCache.GivenBack.{after_free-IsCache}
use aco_os.KmemCache.Blocks.{in_pages}

-- The slab takes the object `i` back, which was in use; no other object changes.
pub record Returned (c : Config) (k : Cache) (m : Memory) (free_of : ℕ → List ℕ) (p i : ℕ)
    (k' : Cache) (m' : Memory) : Type 0 where
  pub cache : IsCache c k' m' (update free_of p (free_of p ++ (i ∷ [])))
  pub buddy : m'.buddy ≡ m.buddy
  pub still : (q : ℕ) → lists k' q ≡ lists k q
  pub shape : (q : ℕ) → SameShape (m.slabs q) (m'.slabs q)

module _ {c : Config} (wf : IsConfig c) (few : c.max_order ≤ 19) {k : Cache} {m : Memory}
    {free_of : ℕ → List ℕ} (h : IsCache c k m free_of) (p i : ℕ) (on : lists k p ≡ true)
    (small : i < (m.slabs p).obj_all) where
  abbrev address : ℕ
  address = object (m.slabs p) i

  -- The assertions hold on the slabs of the list.
  find_slab_lem :
      (from_partial : Bool) (ps : List ℕ)
      → ((q : ℕ) → q ∈ ps → q ∈ (if from_partial then k.partial else k.full))
      → find_slab c from_partial k.pg_order address ps m ≡ ok (if has p ps then some p else none)
  unfolding find_slab
  find_slab_lem from_partial [] inside = refl
  find_slab_lem from_partial (q ∷ ps) inside =
      let here = inside q (ground arith) in
      let l : lists k q ≡ true = ground arith in
      let b = h.holds q l in
      let rest = find_slab_lem from_partial ps (λ r mem. inside r (ground arith)) in
      let sane : (is_slab (m.buddy.pages q).pgtype && eq_head (m.buddy.pages q).buddy_flags)
          ≡ true =
        ground (arith, b.kind, b.in_use) in
      let fits : fits_list from_partial (m.slabs q) ≡ true =
        ground (arith, b.slab.free, h.some_free q, h.none_free q) in
      rw (sane, fits, in_pages wf few h p i on small q l, rest) (ground arith)

  after_free-lists :
      (from_partial all_free : Bool)
      → p ∈ (if from_partial then k.partial else k.full)
      → (q : ℕ) → lists (after_free from_partial p all_free k) q ≡ lists k q
  after_free-lists from_partial all_free mem q = ground (
    arith,
    has-remove_ne p q k.partial,
    has-remove_ne p q k.full,
    has-remove p q k.partial,
    has-remove p q k.full,
    has-append q k.free (p ∷ []),
    has-append q k.partial (p ∷ []),
  )

  free_in_slab-Returned :
      (from_partial : Bool)
      → p ∈ (if from_partial then k.partial else k.full)
      → i ∉ free_of p
      → Returns
          (λ (k', m'). Returned c k m free_of p i k' m')
          (free_in_slab from_partial p address k m)
  unfolding free_in_slab
  free_in_slab-Returned from_partial mem out =
      let was = h.holds p on in
      Returns-bind (slab_free-IsSlab (m.slabs p) (free_of p) i was.slab small out) λ t (slab, same).
        let xs = free_of p ++ (i ∷ []) in
        let len : length xs ≡ length (free_of p) + 1 =
          omega (arith, length-append (free_of p) (i ∷ [])) in
        let le = Distinct-length t.obj_all xs slab.distinct slab.inside in
        let all : (t.obj_free == t.obj_all) ≡ (length xs == t.obj_all) = rw slab.free refl in
        returns (record {
          cache =
              after_free-IsCache h p t xs slab same from_partial (t.obj_free == t.obj_all) mem len
                le all;
          buddy = refl;
          still = after_free-lists from_partial (t.obj_free == t.obj_all) mem;
          shape = λ q. ground (arith, same);
        })

  some_address : (address == 0) ≡ false
  some_address = ground (arith, (h.holds p on).slab.start_pos)

  -- A slab all of whose objects are free has no object in use.
  not_all_free : i ∉ free_of p → has p k.free ≡ false
  not_all_free out = elim (Bool-cases (has p k.free)) [
    | inr e ↦ e
    | inl e ↦
        let was = h.holds p on in
        let many =
          Distinct-length (m.slabs p).obj_all (i ∷ free_of p) (out, was.slab.distinct)
            (λ a mem. ground (arith, was.slab.inside a)) in
        absurd (omega (arith, many, h.all_free p e))
  ]

  -- An object in use goes back to its slab; the count of free objects has no bound here.
  pub kmem_obj_free-gives_back :
      (kmm_cache : ℕ)
      → 0 < kmm_cache
      → i ∉ free_of p
      → Returns
          (λ (k', m'). Returned c k m free_of p i k' m')
          (kmem_obj_free c kmm_cache address k m)
  unfolding kmem_obj_free
  kmem_obj_free-gives_back kmm_cache some_cache out =
      let valid : (kmm_cache == 0 || address == 0) ≡ false = ground (arith, some_address) in
      let partial = find_slab_lem true k.partial (λ q mem. mem) in
      let full = find_slab_lem false k.full (λ q mem. mem) in
      elim (Bool-cases (has p k.partial)) [
        | inl e ↦ rw (valid, partial, e) (free_in_slab-Returned true e out)
        | inr e ↦
            let in_full : has p k.full ≡ true = ground (arith, not_all_free out) in
            rw (valid, partial, e, full, in_full) (free_in_slab-Returned false in_full out)
      ]

  -- Where the layout and MAX_ORDER are well formed and MAX_ORDER is at most 19, on a well-formed cache,
  -- kmem_obj_free of the address of an object in use fails no ASSERT and gives that object back to its
  -- slab; the slab moves to the list that fits, the counts follow, and no other object moves. The count
  -- of free objects is an int, so with one more of them it is still below 2^31.
  pub kmem_obj_free-Returned :
      (kmm_cache : ℕ)
      → 0 < kmm_cache
      → pos_part k.obj_num + 1 < 2 ^ 31
      → i ∉ free_of p
      → Returns
          (λ (k', m'). Returned c k m free_of p i k' m')
          (kmem_obj_free c kmm_cache address k m)
  kmem_obj_free-Returned kmm_cache some_cache int out =
      kmem_obj_free-gives_back kmm_cache some_cache out

  -- kmem_obj_free of the address of an object that is free already fails an ASSERT if other objects of
  -- its slab are in use, and otherwise changes nothing.
  pub kmem_obj_free_again :
      (kmm_cache : ℕ)
      → 0 < kmm_cache
      → i ∈ free_of p
      → kmem_obj_free c kmm_cache address k m ≡ (if has p k.partial then panic else ok (k, m))
  unfolding kmem_obj_free free_in_slab
  kmem_obj_free_again kmm_cache some_cache free =
      let valid : (kmm_cache == 0 || address == 0) ≡ false = ground (arith, some_address) in
      let partial = find_slab_lem true k.partial (λ q mem. mem) in
      let full = find_slab_lem false k.full (λ q mem. mem) in
      let here : address + 0 ≡ address = omega arith in
      let was = h.holds p on in
      let again =
        slab_free-panic (m.slabs p) (free_of p) i 0 was.slab small was.slab.size_pos (inl free) in
      let not_full : has p k.full ≡ false =
        ground (arith, h.none_free p, Bool-cases (has p k.full)) in
      elim (Bool-cases (has p k.partial)) [
        | inl e ↦ rw (valid, partial, e, ← here, again) refl
        | inr e ↦ rw (valid, partial, e, full, not_full) refl
      ]
