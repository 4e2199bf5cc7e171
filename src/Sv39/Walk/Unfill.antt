-- ===== src/Sv39/Walk/Unfill.antt =====
-- riscv_unmap at index 2: entries in one table are cleared.
use aco_os.Base.{
  ℕ, zero, suc, ◌+◌, ◌-◌, ◌^◌, ◌≤◌, ◌<◌, ◌≡◌, ◌⊎◌, inl, inr, refl, true, ◌==◌, arith, Bool-cases,
}
use aco_os.Sv39.Pages.{Pages}
use aco_os.Sv39.Walk.{Space, set_pte, sub_int, unfill}
use aco_os.Sv39.Walk.Fill.{set_leaf-IsTree}
use aco_os.Sv39.Tree.{Shape, IsTree, leaf_unique}
use aco_os.Sv39.Grown.{in_run}
use aco_os.Sv39.Shrunk.{Shrunk, Shrunk-refl, Shrunk-trans}

module _ (pages : Pages) where
  open pages use {State}

  -- Each of the pages from `n` on has a table at index 2.
  abbrev pub Covered : Shape → ℕ → ℕ → Type 0
  Covered h n count =
      (m : ℕ)
      → n ≤ m
      → m < n + count
      → (u : ℕ) × (h.has u ≡ true) × (h.index u ≡ 2) × (h.start u ≤ m) × (m < h.start u + 512)

  -- What a walk from the page `n` on does below the table `t`, which is for the pages up to `limit`:
  -- `left` of the `count` pages are not done.
  pub record Unwalked (below n count : ℕ) (h : Shape) (s : Space State) (t limit left : ℕ)
      (s' : Space State) : Type 0 where
    pub shape : Shape
    pub tree : IsTree pages shape s'
    pub shrunk : Shrunk n (count - left) h s.ptes shape s'.ptes
    pub fewer : left ≤ count
    pub inside : n + (count - left) ≤ limit
    pub result : (left ≡ 0) ⊎ (n + (count - left) ≡ limit)
    -- the tables down to the index of `t` stay
    pub upper : (u : ℕ) → h.has u ≡ true → h.index u ≤ h.index t → shape.has u ≡ true
    -- a table at index 2 below `t` goes with all its pages
    pub emptied :
        (u : ℕ)
        → 0 < below
        → shape.has u ≡ true
        → shape.index u ≡ 2
        → n ≤ shape.start u
        → shape.start u + 512 ≤ n + (count - left)
        → ⊥

  module _ (h : Shape) (t : ℕ) (on : h.has t ≡ true) (two : h.index t ≡ 2) where
    clear_leaf-Shrunk :
        (i n : ℕ) (s : Space State)
        → IsTree pages h s
        → i < 512
        → n ≡ h.start t + i
        → Shrunk n 1 h s.ptes h (set_pte t i 0 s).ptes
    clear_leaf-Shrunk i n s tree small at = record {
      keeps = λ u on'. (on', refl, refl);
      dirs = λ u j on' low j_small v. ground (arith, two, low);
      leaves = λ u j on' two' j_small. elim (Bool-cases (u == t)) [
        | inl e ↦ let same : u ≡ t = ground arith in rw same (ground (arith, on, at))
        | inr e ↦ elim (Bool-cases (in_run n 1 (h.start u + j))) [
          | inl r ↦ absurd (
              ground
                (arith, leaf_unique pages tree u t j i on' on two' two j_small small, r, at, e))
          | inr r ↦ ground (arith, e, r, on')
        ]
      ];
      stays = λ u m on' two' lo hi out. on';
    }

    record Cleared (n count : ℕ) (s : Space State) (left : ℕ) (s' : Space State) : Type 0 where
      tree : IsTree pages h s'
      shrunk : Shrunk n (count - left) h s.ptes h s'.ptes
      fewer : left ≤ count
      inside : n + (count - left) ≤ h.start t + 512
      result : (left ≡ 0) ⊎ (n + (count - left) ≡ h.start t + 512)

    unfill-Cleared :
        (rounds i n count : ℕ) (s : Space State)
        → IsTree pages h s
        → rounds + i ≡ 512
        → n ≡ h.start t + i
        → 0 < count
        → count < 2 ^ 31
        → Cleared n count s (unfill pages rounds i t count s).0 (unfill pages rounds i t count s).1
    unfolding unfill
    unfill-Cleared zero i n count s tree rounds at some few = record {
      tree = tree;
      shrunk = Shrunk-refl n h s.ptes (omega arith);
      fewer = omega arith;
      inside = omega arith;
      result = inr (omega arith);
    }
    unfill-Cleared (suc rounds) i n count s tree round at some few =
        let small : i < 512 = omega arith in
        let s' = set_pte t i 0 s in
        let tree' = set_leaf-IsTree pages h t on two i 0 s tree in
        let shrunk = clear_leaf-Shrunk i n s tree small at in
        let less : sub_int count 1 ≡ count - 1 = omega arith in
        rw less (elim (Bool-cases (count - 1 == 0)) [
          | inl e ↦ rw e (record {
            tree = tree';
            shrunk =
                Shrunk-trans shrunk (n + 1) 0 (count - (count - 1)) (omega arith)
                  (ground (arith, e)) (Shrunk-refl (n + 1) h s'.ptes refl);
            fewer = omega arith;
            inside = omega arith;
            result = inl (ground (arith, e));
          })
          | inr e ↦
              let r =
                unfill-Cleared rounds (i + 1) (n + 1) (count - 1) s' tree' (omega arith)
                  (omega arith) (ground (arith, e)) (omega arith) in
              rw e (record {
                tree = r.tree;
                shrunk =
                    Shrunk-trans shrunk (n + 1)
                      (count - 1 - (unfill pages rounds (i + 1) t (count - 1) s').0)
                      (count - (unfill pages rounds (i + 1) t (count - 1) s').0) refl
                      (ground (arith, r.fewer, some, e)) r.shrunk;
                fewer = omega (arith, r.fewer);
                inside = omega (arith, r.inside, r.fewer);
                result = elim r.result [
                  | inl z ↦ inl z
                  | inr z ↦ inr (omega (arith, z, r.fewer, some))
                ];
              })
        ])

    pub unfill-Unwalked :
        (i n count : ℕ) (s : Space State)
        → IsTree pages h s
        → i ≤ 512
        → n ≡ h.start t + i
        → 0 < count
        → count < 2 ^ 31
        → Unwalked 0 n count h s t
            (h.start t + 512)
            (unfill pages (512 - i) i t count s).0
            (unfill pages (512 - i) i t count s).1
    unfill-Unwalked i n count s tree small at some few =
        let w = unfill-Cleared (512 - i) i n count s tree (omega arith) at some few in
        record {
          shape = h;
          tree = w.tree;
          shrunk = w.shrunk;
          fewer = w.fewer;
          inside = w.inside;
          result = w.result;
          upper = λ u on' low. on';
          emptied = λ u level on' two' lo hi. absurd (omega (arith, level));
        }
