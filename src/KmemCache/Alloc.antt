-- ===== src/KmemCache/Alloc.antt =====
-- kmem_obj_alloc: an object of a slab that has one, or else of a new slab.
use aco_os.Base.{
  ℕ, ◌<◌, ◌≤◌, ◌≡◌, ◌⊎◌, inl, inr, refl, Bool, true, false, if◌then◌else◌, ◌==◌, List, update,
  arith, Bool-cases, leb,
}
use aco_os.Base.Int.{pos, is_zero}
use aco_os.Base.Run.{ok, Returns, returns, Returns-bind, Returns-mono}
use aco_os.Buddy.{Config}
use aco_os.Buddy.Neighbour.{IsConfig}
use aco_os.KmemCache.{Cache, Memory, take_object}
use aco_os.KmemCache.Create.{kmem_obj_alloc}
use aco_os.KmemCache.Invariant.{IsCache}
use aco_os.KmemCache.Take.{Taken, take_object-Taken}
use aco_os.KmemCache.Filled.{Grown, Unchanged, Outcome}
use aco_os.KmemCache.Grow.{add_slab-Outcome}

-- NULL, where no object is free; a free object of a slab of the cache; or an object of a new slab.
abbrev pub Given : Config → Cache → Memory → (ℕ → List ℕ) → ℕ × Cache × Memory → Type 0
Given c k m free_of (address, k', m') =
    ((address ≡ 0) × (k.obj_num ≡ pos 0) × Unchanged c k m free_of k' m')
    ⊎ Taken c k m free_of address k' m'
    ⊎ ((k₁ : Cache) × (m₁ : Memory) × (g : Grown c k m free_of k₁ m₁) × (k.obj_num ≡ pos 0)
        × Taken c k₁ m₁ (update free_of g.p g.xs) address k' m')

module _ {c : Config} (beyond : ℕ → ℕ) {k : Cache} {m : Memory} {free_of : ℕ → List ℕ} where
  take-after :
      (done : Bool) (k₁ : Cache) (m₁ : Memory)
      → k.obj_num ≡ pos 0
      → Outcome c k m free_of (done, k₁, m₁)
      → Returns (Given c k m free_of) (if done then take_object k₁ m₁ else ok (0, k₁, m₁))
  take-after true k₁ m₁ e g =
      Returns-mono (take_object-Taken g.cache g.some_left)
        (λ (address, k', m') t. inr (inr (k₁, m₁, g, e, t)))
  take-after false k₁ m₁ e u = returns (inl (refl, e, u))

  -- Where the layout and MAX_ORDER are well formed and MAX_ORDER is at most 19, on a well-formed cache,
  -- kmem_obj_alloc fails no ASSERT. It gives the address of an object that was free, of a new slab only
  -- if no slab had one; that object alone is then in use. Or it gives NULL and leaves the cache and the
  -- free memory as they were; then no object was free.
  pub kmem_obj_alloc-Given :
      (kmm_cache : ℕ)
      → IsConfig c
      → c.max_order ≤ 19
      → 0 < kmm_cache
      → IsCache c k m free_of
      → Returns (Given c k m free_of) (kmem_obj_alloc c beyond kmm_cache k m)
  unfolding kmem_obj_alloc
  kmem_obj_alloc-Given kmm_cache wf few some_cache h =
      let valid : (kmm_cache == 0) ≡ false = ground arith in
      elim (Bool-cases (is_zero k.obj_num)) [
        | inr e ↦
            rw (valid, e)
              (Returns-mono (take_object-Taken h (λ z. ground arith))
                (λ (address, k', m') t. inr (inl t)))
        | inl e ↦
            let zero_left : k.obj_num ≡ pos 0 = ground (arith, h.counted) in
            elim (Bool-cases (leb k.pg_orlimit k.pg_orhas)) [
              | inl limit ↦
                  rw (valid, e, limit)
                    (returns (
                      inl (
                        refl,
                        zero_left,
                        record {
                          same = refl;
                          cache = h;
                          slabs = λ q l. refl;
                          held = λ q small u. refl;
                          conserved = λ j f. f;
                        },
                      )))
              | inr room ↦
                  rw (valid, e, room)
                    (Returns-bind (add_slab-Outcome beyond wf few h (ground arith))
                      λ (done, k₁, m₁) o. take-after done k₁ m₁ zero_left o)
            ]
      ]
