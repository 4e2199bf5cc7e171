-- ===== src/Buddy/Startup.antt =====
-- module/mm/buddy/buddy_module.c: the pools are set up and every usable page frame is freed into
-- them. The frames are those that pgfm_module_init leaves (Pageframe/Fresh).
use native.Mathlib.Decide.{ℕ_discrete}
use aco_os.Base.{
  sym, ℕ, zero, suc, ◌+◌, ◌≤◌, ◌<◌, ◌≡◌, inl, inr, refl, true, false, [], ltb, ◌==◌, if◌then◌else◌,
  Bool-cases, arith, ap,
}
use aco_os.Base.Int.{pos}
use aco_os.Base.Run.{Run, ok, Returns, returns, ◌>>=◌, Returns-mono, Returns-bind}
use aco_os.Pageframe.{int_bits, eq_head, eq_static}
use aco_os.Pageframe.Fresh.{IsFresh}
use aco_os.Buddy.{State, Config, bkp_free, order2byte}
use aco_os.Buddy.Neighbour.{count, IsConfig}
use aco_os.Buddy.Invariant.{IsBuddy, Loose, FreeAt}
use aco_os.Buddy.Free.{InUse, Freed, bkp_free-Freed}

-- The first loop of buddy_module_init: an empty pool for every order below MAX_ORDER.
unfoldable pub init_pools : Config → State → State
init_pools c s = record s {
  pools = λ i.
      if ltb i c.max_order
      then record { rest_block_num = pos 0; block_size = int_bits (order2byte i); list = [] }
      else s.pools i;
}

-- The second loop, with `rounds` frames to go from the frame `i` on.
unfoldable pub free_all : Config → ℕ → ℕ → State → Run State
free_all c zero i s = ok s
free_all c (suc rounds) i s =
    if eq_head (s.pages i).buddy_flags
    then (do t ← bkp_free c i s; free_all c rounds (i + 1) t)
    else let go = free_all c rounds (i + 1) s in go

-- `init_done` is the counter buddy_module_init_done: every CPU calls the function, the first one acts.
unfoldable pub buddy_module_init : Config → ℕ → State → Run (ℕ × State)
buddy_module_init c init_done s =
    if init_done == 0
    then (do t ← free_all c (count c) 0 (init_pools c s); ok (init_done + 1, t))
    else ok (init_done, s)

-- The page frames as pgfm_module_init leaves them.
abbrev pub AllFresh : Config → State → Type 0
AllFresh c s = (j : ℕ) → j < count c → IsFresh (s.pages j)

pub init_pools-IsBuddy :
    (c : Config) (s : State) → 0 < c.max_order → AllFresh c s → IsBuddy c (init_pools c s)
unfolding init_pools
init_pools-IsBuddy c s h fresh = record {
  listed = λ i q g mem. ground arith;
  listing = λ q g free. ground (arith, fresh q);
  distinct = λ i g. ground arith;
  counted = λ i g. ground arith;
  clean = λ q g head. ground (arith, fresh q);
  fits = λ q g head. ground (arith, fresh q);
  inner = λ q j g head lo hi. ground (arith, fresh q);
}

-- The frames that the loop has not come to.
abbrev Ahead : Config → State → ℕ → Type 0
Ahead c s i =
    (j : ℕ)
    → i ≤ j
    → j < count c
    → IsFresh (s.pages j) × ((eq_static (s.pages j).buddy_flags ≡ true) → Loose c s j)

init_pools-Ahead : (c : Config) (s : State) → AllFresh c s → Ahead c (init_pools c s) 0
unfolding init_pools
init_pools-Ahead c s fresh j lo hi = (fresh j hi, λ e q h head. ground (arith, fresh q, fresh j))

module _ {c : Config} (wf : IsConfig c) where
  Freed-Ahead : (s t : State) (i : ℕ) → Freed c i 0 s t → Ahead c s i → Ahead c t (i + 1)
  Freed-Ahead s t i freed ahead j lo hi =
      let (fresh, loose) = ahead j (omega arith) hi in
      elim fresh.2 [
        | inl head ↦
            let same = freed.keeps.held j (omega arith) head in
            (ground (arith, same, fresh), λ e. ground (arith, same))
        | inr static ↦
            let (still, same) = freed.keeps.loose j (loose static) in
            (ground (arith, same, fresh), λ e. still)
      ]

  -- After the frames from `i` on: the usable ones are free, and no free frame was lost.
  record Filled (i : ℕ) (s t : State) : Type 0 where
    inv : IsBuddy c t
    kept : (j : ℕ) → FreeAt c s j → FreeAt c t j
    freed : (j : ℕ) → i ≤ j → j < count c → eq_head (s.pages j).buddy_flags ≡ true → FreeAt c t j

  Freed-Filled : (s t u : State) (i : ℕ) → Freed c i 0 s t → Filled (i + 1) t u → Filled i s u
  Freed-Filled s t u i done rest = record {
    inv = rest.inv;
    kept = λ j f. rest.kept j (done.free j f);
    freed = λ j lo hi head. elim (ℕ_discrete i j) [
      | yes e ↦ rest.kept j (done.home j lo (omega arith))
      | no ne ↦
          let same = done.keeps.held j (λ e. ne (sym e)) head in
          rest.freed j (omega arith) hi (ground (arith, same))
    ];
  }

  free_all-Filled :
      (rounds i : ℕ) (s : State)
      → rounds + i ≡ count c
      → IsBuddy c s
      → Ahead c s i
      → Returns (Filled i s) (free_all c rounds i s)
  unfolding free_all
  free_all-Filled zero i s e inv ahead =
      returns (record { inv = inv; kept = λ j f. f; freed = λ j lo hi h. absurd (omega arith) })
  free_all-Filled (suc rounds) i s e inv ahead =
      let here : i < count c = omega arith in
      let (fresh, loose) = ahead i (omega arith) here in
      elim (Bool-cases (eq_head (s.pages i).buddy_flags)) [
        | inl used ↦
            let b : InUse c s i 0 = record {
              in_range = here;
              kind = fresh.0;
              in_use = used;
              order = fresh.1;
            } in
            rw used (
              Returns-bind (bkp_free-Freed s i 0 wf inv b) λ t done.
                Returns-mono
                  (free_all-Filled rounds (i + 1) t (omega arith) done.inv
                    (Freed-Ahead s t i done ahead))
                  λ u rest. Freed-Filled s t u i done rest)
        | inr skip ↦ rw skip (
            Returns-mono
              (free_all-Filled rounds (i + 1) s (omega arith) inv
                (λ j lo hi. ahead j (omega arith) hi))
              λ u rest. record {
                inv = rest.inv;
                kept = rest.kept;
                freed = λ j lo hi head. elim (ℕ_discrete i j) [
                  | yes same ↦
                      absurd (ground (arith, ap (λ x. eq_head (s.pages x).buddy_flags) same))
                  | no ne ↦ rest.freed j (omega arith) hi head
                ];
              })
      ]

-- The first call of buddy_module_init, on the frames that pgfm_module_init leaves, fails no ASSERT:
-- it leaves frames and pools well formed and every usable frame in a free block. Any later call
-- changes nothing.
pub buddy_module_init-IsBuddy :
    {c : Config} (init_done : ℕ) (s : State)
    → IsConfig c
    → 0 < c.max_order
    → AllFresh c s
    → (Returns
        (λ (done, t).
          (done ≡ 1)
          × IsBuddy c t
          × ((j : ℕ) → j < count c → eq_head (s.pages j).buddy_flags ≡ true → FreeAt c t j))
        (buddy_module_init c 0 s))
      × (buddy_module_init c (suc init_done) s ≡ ok (suc init_done, s))
unfolding buddy_module_init init_pools
buddy_module_init-IsBuddy {c} init_done s wf pos_order fresh = (
  Returns-bind
      (free_all-Filled wf (count c) 0 (init_pools c s) (omega arith)
        (init_pools-IsBuddy c s pos_order fresh) (init_pools-Ahead c s fresh))
      (λ t filled. returns (refl, filled.inv, λ j hi head. filled.freed j (omega arith) hi head)),
  let later : (suc init_done == 0) ≡ false = ground arith in rw later,
)
