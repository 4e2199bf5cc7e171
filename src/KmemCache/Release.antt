-- ===== src/KmemCache/Release.antt =====
-- kmem_cache_deinit and the failure path of kmem_cache_init give blocks back to the allocator.
use aco_os.Base.{
  ℕ, ◌+◌, ◌^◌, ◌<◌, ◌≤◌, ◌≡◌, ◌≢◌, inl, inr, refl, true, ◌==◌, List, [], ◌∷◌, ◌∈◌, ◌∉◌, Distinct,
  arith, Bool-cases,
}
use aco_os.Base.Run.{Returns, returns, Returns-bind_bind, Returns-mono}
use aco_os.Pageframe.{eq_head, page_buddyallocator}
use aco_os.Buddy.{State, Config}
use aco_os.Buddy.Neighbour.{IsConfig, count}
use aco_os.Buddy.Invariant.{IsBuddy, IsHeld, FreeAt}
use aco_os.Buddy.Free.{InUse, bkp_free-Freed}
use aco_os.KmemCache.{Memory, set_pgtype, free_slabs, free_block}
use aco_os.KmemCache.Retype.{set_pgtype-IsBuddy}

-- The head of a block in use of order `o`, of whatever type.
abbrev pub Head : Config → ℕ → State → ℕ → Type 0
Head c o s p = (p < count c) × IsHeld (s.pages p) × ((s.pages p).buddy_order ≡ o)

-- The blocks of order `o` at `ps` are free, and other memory that was free still is.
pub record Released (c : Config) (o : ℕ) (ps : List ℕ) (s t : State) : Type 0 where
  pub buddy : IsBuddy c t
  pub free : (j : ℕ) → FreeAt c s j → FreeAt c t j
  pub home : (p j : ℕ) → p ∈ ps → p ≤ j → j < p + 2 ^ o → FreeAt c t j
  pub held : (q : ℕ) → q ∉ ps → IsHeld (s.pages q) → t.pages q ≡ s.pages q

module _ {c : Config} (wf : IsConfig c) (o : ℕ) where
  pub free_slabs-Released :
      (ps : List ℕ) (m : Memory)
      → IsBuddy c m.buddy
      → Distinct ps
      → ((p : ℕ) → p ∈ ps → Head c o m.buddy p)
      → Returns (λ m'. Released c o ps m.buddy m'.buddy) (free_slabs c ps m)
  unfolding free_slabs free_block
  free_slabs-Released [] m inv d heads = returns (record {
    buddy = inv;
    free = λ j f. f;
    home = λ p j mem. ground arith;
    held = λ q out h. refl;
  })
  free_slabs-Released (p ∷ ps) m inv d heads =
      let (small, held, order) = heads p (ground arith) in
      let t = set_pgtype page_buddyallocator p m in
      let still : eq_head (t.buddy.pages p).buddy_flags ≡ true = ground arith in
      let block : InUse c t.buddy p o = record {
        in_range = small;
        kind = ground arith;
        in_use = still;
        order = ground arith;
      } in
      rw still (
        Returns-bind_bind _ _
          (bkp_free-Freed t.buddy p o wf
            (set_pgtype-IsBuddy c page_buddyallocator p m held small inv) block)
          λ b freed.
            let m' = record m { buddy = b } in
            let heads' : (q : ℕ) → q ∈ ps → Head c o b q = λ q mem.
              let ne : q ≢ p = λ e. ground arith in
              let old = heads q (ground arith) in
              let page = freed.keeps.held q ne (ground (arith, old)) in ground (arith, old, page) in
            Returns-mono (free_slabs-Released ps m' freed.inv d.1 heads') λ m'' r. record {
              buddy = r.buddy;
              free = λ j f. r.free j (freed.free j f);
              home = λ q j mem lo hi. elim (Bool-cases (p == q)) [
                | inl e ↦ r.free j (freed.home j (ground arith) (ground arith))
                | inr e ↦ r.home q j (ground arith) lo hi
              ];
              held = λ q out h. ground (arith, r.held q, freed.keeps.held q);
            })
