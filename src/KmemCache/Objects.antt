-- ===== src/KmemCache/Objects.antt =====
-- What a client of a cache sees: objects in use, by address, no two of which are the same memory.
use native.Mathlib.Nat.{mul-add-div_right}
use aco_os.Base.{
  ℕ, ◌+◌, ◌*◌, ◌/◌, ◌<◌, ◌≤◌, ◌≡◌, ◌≢◌, ◌⊎◌, inl, inr, true, false, ◌==◌, List, [], ◌∷◌, ◌++◌,
  update, remove, ◌∉◌, Distinct-remove, not-mem-remove, has-append, arith, Bool-cases, ap, ◌∙◌, sym,
  subst,
}
use aco_os.Base.Run.{Returns, Returns-mono}
use aco_os.Buddy.{Config, State}
use aco_os.Buddy.Neighbour.{IsConfig, count}
use aco_os.Buddy.Invariant.{IsHeld}
use aco_os.Slab.FreeList.{object}
use aco_os.KmemCache.{Cache, Memory, kmem_obj_free}
use aco_os.KmemCache.Create.{kmem_obj_alloc}
use aco_os.KmemCache.Invariant.{lists, IsCache}
use aco_os.KmemCache.Blocks.{in_pages}
use aco_os.KmemCache.Take.{Taken}
use aco_os.KmemCache.Filled.{Grown}
use aco_os.KmemCache.Alloc.{Given, kmem_obj_alloc-Given}
use aco_os.KmemCache.Put.{kmem_obj_free-gives_back}

-- The address is that of an object of the cache that is not free.
pub record InUse (k : Cache) (m : Memory) (free_of : ℕ → List ℕ) (address : ℕ) : Type 0 where
  pub p : ℕ
  pub i : ℕ
  pub listed : lists k p ≡ true
  pub small : i < (m.slabs p).obj_all
  pub used : i ∉ free_of p
  pub at : address ≡ object (m.slabs p) i

mul_unique : (n i j : ℕ) → 0 < n → i * n ≡ j * n → i ≡ j
mul_unique n i j pos e =
    let a : (i * n + 0) / n ≡ i + 0 / n = mul-add-div_right pos i 0 in
    let b : (j * n + 0) / n ≡ j + 0 / n = mul-add-div_right pos j 0 in
    omega (arith, a, b, ap (λ (t : ℕ). (t + 0) / n) e)

module _ {c : Config} (wf : IsConfig c) (few : c.max_order ≤ 19) {k : Cache} {m : Memory}
    {free_of : ℕ → List ℕ} (h : IsCache c k m free_of) where
  -- Two objects at one address are one object.
  object_unique :
      (p i q j : ℕ)
      → lists k p ≡ true
      → lists k q ≡ true
      → i < (m.slabs p).obj_all
      → j < (m.slabs q).obj_all
      → object (m.slabs p) i ≡ object (m.slabs q) j
      → (p ≡ q) × (i ≡ j)
  object_unique p i q j on on' small small' e =
      let here = in_pages wf few h p i on small p on in
      let there = in_pages wf few h q j on' small' p on in
      let same : p ≡ q = ground (arith, here, there, e) in
      let e' : object (m.slabs p) i ≡ object (m.slabs p) j =
        subst (λ r. object (m.slabs p) i ≡ object (m.slabs r) j) (sym same) e in
      (same, mul_unique (m.slabs p).obj_size i j (h.holds p on).slab.size_pos (omega (arith, e')))

  -- The object that is handed out was free, so it is at no address of an object in use.
  Taken-InUse :
      (address : ℕ) (k' : Cache) (m' : Memory)
      → Taken c k m free_of address k' m'
      → (fr : ℕ → List ℕ) × IsCache c k' m' fr
        × InUse k' m' fr address
        × ((x : ℕ) → InUse k m free_of x → InUse k' m' fr x × (x ≢ address))
  Taken-InUse address k' m' t =
      let was = h.holds t.p t.listed in
      let small = was.slab.inside t.i t.was_free in
      let gone = (Distinct-remove t.i (free_of t.p) was.slab.distinct).1 in
      (
        update free_of t.p (remove t.i (free_of t.p)),
        t.cache,
        record {
          p = t.p;
          i = t.i;
          listed = t.still t.p ∙ t.listed;
          small = ground (arith, t.shape t.p, small);
          used = ground (arith, gone);
          at = ground (arith, t.at, t.shape t.p);
        },
        λ x u. (
          record {
            p = u.p;
            i = u.i;
            listed = t.still u.p ∙ u.listed;
            small = ground (arith, t.shape u.p, u.small);
            used = ground (arith, u.used, not-mem-remove t.i u.i (free_of t.p));
            at = ground (arith, u.at, t.shape u.p);
          },
          λ e.
              let (page, number) =
                object_unique u.p u.i t.p t.i u.listed t.listed u.small small
                  (sym u.at ∙ (e ∙ t.at)) in
              ground (arith, u.used, t.was_free, page, number),
        ),
      )

  -- A new slab leaves the objects in use where they are.
  Grown-InUse :
      (k' : Cache) (m' : Memory) (g : Grown c k m free_of k' m') (x : ℕ)
      → InUse k m free_of x
      → InUse k' m' (update free_of g.p g.xs) x
  Grown-InUse k' m' g x u =
      let same = g.slabs u.p u.listed in
      record {
        p = u.p;
        i = u.i;
        listed = ground (arith, g.free, g.others, u.listed, has-append u.p k.free (g.p ∷ []));
        small = rw same u.small;
        used = ground (arith, g.fresh, u.listed, u.used);
        at = rw same u.at;
      }

-- The frames at the head of a block in use are the same in `m'`.
abbrev pub KeepsHeld : Config → Memory → Memory → Type 0
KeepsHeld c m m' =
    (q : ℕ) → q < count c → IsHeld (m.buddy.pages q) → m'.buddy.pages q ≡ m.buddy.pages q

abbrev pub Serves : Config → Cache → Memory → (ℕ → List ℕ) → ℕ × Cache × Memory → Type 0
Serves c k m free_of (address, k', m') =
    (fr : ℕ → List ℕ) × IsCache c k' m' fr
    × ((address ≡ 0) ⊎ InUse k' m' fr address)
    × ((x : ℕ) → InUse k m free_of x → InUse k' m' fr x × (x ≢ address))

abbrev pub TakesBack : Config → Cache → Memory → (ℕ → List ℕ) → ℕ → Cache × Memory → Type 0
TakesBack c k m free_of address (k', m') =
    (fr : ℕ → List ℕ) × IsCache c k' m' fr
    × ((x : ℕ) → InUse k m free_of x → x ≢ address → InUse k' m' fr x)
    × (m'.buddy ≡ m.buddy)

module _ {c : Config} (wf : IsConfig c) (few : c.max_order ≤ 19) {k : Cache} {m : Memory}
    {free_of : ℕ → List ℕ} (h : IsCache c k m free_of) (kmm_cache : ℕ)
    (some_cache : 0 < kmm_cache) where
  InUse-pos : (x : ℕ) → InUse k m free_of x → 0 < x
  InUse-pos x u = omega (arith, u.at, (h.holds u.p u.listed).slab.start_pos)

  Given-Serves : (r : ℕ × Cache × Memory) → Given c k m free_of r → Serves c k m free_of r
  Given-Serves (address, k', m') (inl (zero_address, _, same)) = (
    free_of,
    rw same.same same.cache,
    inl zero_address,
    λ x u. (
      record {
        p = u.p;
        i = u.i;
        listed = rw same.same u.listed;
        small = ground (arith, u.small, same.slabs u.p u.listed);
        used = u.used;
        at = ground (arith, u.at, same.slabs u.p u.listed);
      },
      λ e. ground (arith, InUse-pos x u),
    ),
  )
  Given-Serves (address, k', m') (inr (inl t)) =
      let (fr, cache, new, old) = Taken-InUse wf few h address k' m' t in (fr, cache, inr new, old)
  Given-Serves (address, k', m') (inr (inr (k₁, m₁, g, _, t))) =
      let (fr, cache, new, old) = Taken-InUse wf few g.cache address k' m' t in
      (fr, cache, inr new, λ x u. old x (Grown-InUse wf few h k₁ m₁ g x u))

  -- Where the layout and MAX_ORDER are well formed and MAX_ORDER is at most 19, on a well-formed cache,
  -- kmem_obj_alloc gives NULL or the address of an object that is in use from then on. It is the
  -- address of no object that was in use before, and these stay in use, at their addresses.
  pub kmem_obj_alloc-Serves :
      (beyond : ℕ → ℕ) → Returns (Serves c k m free_of) (kmem_obj_alloc c beyond kmm_cache k m)
  kmem_obj_alloc-Serves beyond =
      Returns-mono (kmem_obj_alloc-Given beyond kmm_cache wf few some_cache h)
        (λ r g. Given-Serves r g)

  Given-KeepsHeld : (r : ℕ × Cache × Memory) → Given c k m free_of r → KeepsHeld c m r.2
  Given-KeepsHeld r (inl (_, _, same)) q small held = same.held q small held
  Given-KeepsHeld r (inr (inl t)) q small held = ap (λ (s : State). s.pages q) t.buddy
  Given-KeepsHeld r (inr (inr (k₁, m₁, g, _, t))) q small held =
      ap (λ (s : State). s.pages q) t.buddy ∙ g.held q small held

  -- The same, and the frames in use stay as they are.
  pub kmem_obj_alloc-KeepsHeld :
      (beyond : ℕ → ℕ)
      → Returns
          (λ r. Serves c k m free_of r × KeepsHeld c m r.2)
          (kmem_obj_alloc c beyond kmm_cache k m)
  kmem_obj_alloc-KeepsHeld beyond =
      Returns-mono (kmem_obj_alloc-Given beyond kmm_cache wf few some_cache h)
        (λ r g. (Given-Serves r g, Given-KeepsHeld r g))

  other :
      {address : ℕ} (u : InUse k m free_of address) (x : ℕ) (o : InUse k m free_of x)
      → x ≢ object (m.slabs u.p) u.i
      → (u.p == o.p) ≡ true
      → (o.i == u.i) ≡ false
  other u x o differ e = elim (Bool-cases (o.i == u.i)) [
    | inr f ↦ f
    | inl f ↦ absurd (differ (ground (arith, o.at, e, f)))
  ]

  -- Where the layout and MAX_ORDER are well formed and MAX_ORDER is at most 19, on a well-formed cache,
  -- kmem_obj_free of the address of an object in use leaves the other objects in use, at their
  -- addresses, and the allocator of page frames alone.
  pub kmem_obj_free-TakesBack :
      (address : ℕ)
      → InUse k m free_of address
      → Returns (TakesBack c k m free_of address) (kmem_obj_free c kmm_cache address k m)
  kmem_obj_free-TakesBack address u = rw u.at (
      Returns-mono
        (kmem_obj_free-gives_back wf few h u.p u.i u.listed u.small kmm_cache some_cache u.used)
        λ (k', m') r. (
          update free_of u.p (free_of u.p ++ (u.i ∷ [])),
          r.cache,
          λ x o differ. record {
            p = o.p;
            i = o.i;
            listed = r.still o.p ∙ o.listed;
            small = ground (arith, r.shape o.p, o.small);
            used =
                ground (arith, o.used, has-append o.i (free_of u.p) (u.i ∷ []), other u x o differ);
            at = ground (arith, o.at, r.shape o.p);
          },
          r.buddy,
        ))
