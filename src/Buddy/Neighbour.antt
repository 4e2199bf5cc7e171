-- ===== src/Buddy/Neighbour.antt =====
-- The neighbours that bkp_free looks at, by page number.
use native.Mathlib.Nat.{pow-suc, pow-le-pow_right}
use aco_os.Base.{
  ℕ, zero, suc, ◌+◌, ◌-◌, ◌*◌, ◌^◌, ◌≤◌, ◌<◌, ◌≡◌, none, some, leb, ltb, if◌then◌else◌, arith,
}
use aco_os.Pageframe.{page_size, page_nums, va2id, id2va, va_valid}
use aco_os.Pageframe.Address.{IsLayout, id2va_lem}
use aco_os.Buddy.{Config, frame_at, before, after, order2byte}

-- The region lies above the size of the largest block and ends that far below 2^64.
pub record IsConfig (c : Config) : Type 0 where
  pub layout : IsLayout c.layout
  pub below : 2 ^ c.max_order * page_size ≤ c.layout.va_start
  pub above : c.layout.va_start + c.layout.size + 2 ^ c.max_order * page_size < 2 ^ 64

abbrev pub count : Config → ℕ
count c = page_nums c.layout

pub pow-pos : (k : ℕ) → 0 < 2 ^ k
pow-pos zero = omega arith
pow-pos (suc k) = omega (arith, pow-suc 2 k, pow-pos k)

pub pow_mono : (i k : ℕ) → i ≤ k → 2 ^ i ≤ 2 ^ k
pow_mono i k h = pow-le-pow_right {n = 2} (omega arith) h

module _ {c : Config} (wf : IsConfig c) (p order : ℕ) (in_range : p < count c)
    (small : order ≤ c.max_order) where
  open wf use {layout, below, above}

  bytes : order2byte order ≡ 2 ^ order * page_size
  bytes = let m : 2 ^ order ≤ 2 ^ c.max_order = pow_mono order c.max_order small in omega arith

  va : id2va c.layout p ≡ c.layout.va_start + p * page_size
  va = id2va_lem layout p in_range

  pub before_lem : before c p order ≡ (if leb (2 ^ order) p then some (p - 2 ^ order) else none)
  unfolding before frame_at va_valid va2id
  before_lem =
      let m : 2 ^ order ≤ 2 ^ c.max_order = pow_mono order c.max_order small in
      rw (va, bytes) (ground (arith, pow-pos order))

  pub after_lem :
      after c p order ≡ (if ltb (p + 2 ^ order) (count c) then some (p + 2 ^ order) else none)
  unfolding after frame_at va_valid va2id
  after_lem =
      let m : 2 ^ order ≤ 2 ^ c.max_order = pow_mono order c.max_order small in
      rw (va, bytes) (ground (arith, pow-pos order))
