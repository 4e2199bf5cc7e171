-- ===== src/Sv39/Shrunk.antt =====
-- What unmapping does to the tables: a run of entries is cleared, and tables go.
use aco_os.Base.{ℕ, ◌+◌, ◌≤◌, ◌<◌, ◌≡◌, refl, true, false, if◌then◌else◌, arith, ◌∙◌, sym}
use aco_os.Sv39.{pte_valid}
use aco_os.Sv39.Tree.{Shape}
use aco_os.Sv39.Grown.{in_run}

pub record Shrunk (n d : ℕ) (h : Shape) (ptes : ℕ → ℕ → ℕ) (h' : Shape) (ptes' : ℕ → ℕ → ℕ)
    : Type 0 where
  pub keeps :
      (t : ℕ)
      → h'.has t ≡ true
      → (h.has t ≡ true) × (h.index t ≡ h'.index t) × (h.start t ≡ h'.start t)
  pub dirs :
      (t i : ℕ)
      → h'.has t ≡ true
      → h'.index t < 2
      → i < 512
      → pte_valid (ptes' t i) ≡ true
      → ptes' t i ≡ ptes t i
  pub leaves :
      (t i : ℕ)
      → h'.has t ≡ true
      → h'.index t ≡ 2
      → i < 512
      → ptes' t i ≡ (if in_run n d (h'.start t + i) then 0 else ptes t i)
  -- a table at index 2 stays if one of its pages does
  pub stays :
      (t m : ℕ)
      → h.has t ≡ true
      → h.index t ≡ 2
      → h.start t ≤ m
      → m < h.start t + 512
      → in_run n d m ≡ false
      → h'.has t ≡ true

pub Shrunk-refl : (n : ℕ) {d : ℕ} (h : Shape) (ptes : ℕ → ℕ → ℕ) → d ≡ 0 → Shrunk n d h ptes h ptes
Shrunk-refl n h ptes e = record {
  keeps = λ t on. (on, refl, refl);
  dirs = λ t i on low small v. refl;
  leaves = λ t i on two small. ground (arith, e);
  stays = λ t m on two lo hi out. on;
}

module _ {n d : ℕ} {h : Shape} {ptes : ℕ → ℕ → ℕ} {h' : Shape} {ptes' : ℕ → ℕ → ℕ}
    (g : Shrunk n d h ptes h' ptes') where
  pub Shrunk-trans :
      (m e total : ℕ) {h'' : Shape} {ptes'' : ℕ → ℕ → ℕ}
      → m ≡ n + d
      → total ≡ d + e
      → Shrunk m e h' ptes' h'' ptes''
      → Shrunk n total h ptes h'' ptes''
  Shrunk-trans m e total {h''} {ptes''} at sum k = record {
    keeps = λ t on. let b = k.keeps t on in let a = g.keeps t b.0 in (a.0, a.1 ∙ b.1, a.2 ∙ b.2);
    dirs = λ t i on low small v.
        let b = k.keeps t on in
        let second = k.dirs t i on low small v in ground (arith, second, b, low, g.dirs t i b.0, v);
    leaves = λ t i on two small.
        let b = k.keeps t on in
        ground
          (arith, k.leaves t i on two small, b, two, g.leaves t i b.0 (b.1 ∙ two) small, at, sum);
    stays = λ t p on two lo hi out.
        let b = g.stays t p on two lo hi (ground (arith, out, sum)) in
        let kept = g.keeps t b in
        k.stays t p b (sym kept.1 ∙ two) (ground (arith, kept, lo)) (ground (arith, kept, hi))
          (ground (arith, out, at, sum));
  }
