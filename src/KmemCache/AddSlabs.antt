-- ===== src/KmemCache/AddSlabs.antt =====
-- The loop of kmem_cache_init.
use aco_os.Base.{
  ℕ, zero, suc, ◌+◌, ◌^◌, ◌<◌, ◌≤◌, ◌≡◌, ◌⊎◌, inl, inr, refl, Bool, true, false, List, [], ◌∷◌,
  update, has-append, ◌∈◌, arith, ap, ◌∙◌,
}
use aco_os.Base.Run.{ok, Returns, returns, Returns-bind, Returns-mono}
use aco_os.Buddy.{State, Config}
use aco_os.Buddy.Neighbour.{IsConfig}
use aco_os.Buddy.Invariant.{FreeAt}
use aco_os.KmemCache.{Cache, Memory}
use aco_os.KmemCache.Create.{add_slabs}
use aco_os.KmemCache.Invariant.{IsCache}
use aco_os.KmemCache.Filled.{Grown, Unchanged, Outcome}
use aco_os.KmemCache.Grow.{add_slab-Outcome}

-- The frame `j` lies in the pages of a slab on the list of free slabs.
abbrev pub InCache : Cache → ℕ → Type 0
InCache k j = (p : ℕ) × (p ∈ k.free) × (p ≤ j) × (j < p + 2 ^ k.pg_order)

-- The start of the cache from the memory `s`: all objects are free, and memory that was free at first
-- is free or in the pages of a slab.
pub record Starting (c : Config) (s : State) (k : Cache) (m : Memory) : Type 0 where
  pub free_of : ℕ → List ℕ
  pub cache : IsCache c k m free_of
  pub unused : (k.partial ≡ []) × (k.full ≡ [])
  pub conserved : (j : ℕ) → FreeAt c s j → FreeAt c m.buddy j ⊎ InCache k j

module _ {c : Config} (wf : IsConfig c) (few : c.max_order ≤ 19) (beyond : ℕ → ℕ) (s : State) where
  Grown-Starting :
      (k k' : Cache) (m m' : Memory) (a : Starting c s k m)
      → Grown c k m a.free_of k' m'
      → Starting c s k' m'
  Grown-Starting k k' m m' a g = record {
    free_of = update a.free_of g.p g.xs;
    cache = g.cache;
    unused = ground (arith, g.others, a.unused);
    conserved = λ j f. elim (a.conserved j f) [
      | inr (p, mem, lo, hi) ↦
          inr (p, rw g.free (ground (arith, has-append p k.free (g.p ∷ []))), lo, rw g.limits.0 hi)
      | inl still ↦ elim (g.conserved j still) [
        | inl free ↦ inl free
        | inr (lo, hi) ↦ inr (
          g.p,
          rw g.free (ground (arith, has-append g.p k.free (g.p ∷ []))),
          lo,
          rw g.limits.0 hi,
        )
      ]
    ];
  }

  -- The loop ends with all slabs, or early.
  abbrev pub Added : ℕ → Cache → Bool × Cache × Memory → Type 0
  Added rounds k (done, k', m') =
      Starting c s k' m'
      × (done ≡ true → k'.pg_orhas ≡ k.pg_orhas + rounds)
      × (k'.pg_order ≡ k.pg_order)
      × (k'.pg_orlimit ≡ k.pg_orlimit)
      × (k'.obj_size ≡ k.obj_size)

  pub add_slabs-Added :
      (rounds : ℕ) (k : Cache) (m : Memory)
      → k.pg_orhas + rounds ≤ k.pg_orlimit
      → Starting c s k m
      → Returns (Added rounds k) (add_slabs c beyond rounds k m)
  unfolding add_slabs
  add_slabs-Added zero k m room a = returns (a, λ e. omega arith, refl, refl, refl)
  add_slabs-Added (suc rounds) k m room a =
      Returns-bind (add_slab-Outcome beyond wf few a.cache (omega arith)) λ (done, k', t) o.
        (elim done
            as (λ d.
              Outcome c k m a.free_of (d, k', t)
              → Returns (Added (suc rounds) k)
                  (elim d [ true ↦ add_slabs c beyond rounds k' t | false ↦ ok (false, k', t) ])) [
                    | true ↦ λ g.
                        Returns-mono
                          (add_slabs-Added rounds k' t (omega (arith, g.limits))
                            (Grown-Starting k k' m t a g))
                          λ (d, k₂, t₂) (b, num, order, limit, size). (
                            b,
                            λ e. omega (arith, num e, g.limits),
                            order ∙ g.limits.0,
                            limit ∙ g.limits.1,
                            size ∙ g.limits.3,
                          )
                    | false ↦ λ u. returns (
                      unchanged k' t u,
                      λ e. ground arith,
                      ap (λ (k : Cache). k.pg_order) u.same,
                      ap (λ (k : Cache). k.pg_orlimit) u.same,
                      ap (λ (k : Cache). k.obj_size) u.same,
                    )
                  ])
          o
    where
      unchanged : (k' : Cache) (t : Memory) → Unchanged c k m a.free_of k' t → Starting c s k' t
      unchanged k' t u = rw u.same (record {
        free_of = a.free_of;
        cache = u.cache;
        unused = a.unused;
        conserved = λ j f. elim (a.conserved j f) [
          | inl still ↦ inl (u.conserved j still)
          | inr here ↦ inr here
        ];
      })
