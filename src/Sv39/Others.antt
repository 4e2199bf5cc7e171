-- ===== src/Sv39/Others.antt =====
-- The pages of the tables from mm/buddy once more: from a state of the allocator on, the frames that
-- other parts of the kernel hold stay as they are.
use aco_os.Base.{ℕ, ◌+◌, ◌^◌, ◌≤◌, ◌<◌, ◌≡◌, refl, true, arith, ◌∙◌}
use aco_os.Base.Int.{pos}
use aco_os.Base.Run.{Returns-mono}
use aco_os.Pageframe.{pa2va, va2pa}
use aco_os.Buddy.{State, Config}
use aco_os.Buddy.Neighbour.{IsConfig}
use aco_os.Buddy.Invariant.{IsBuddy}
use aco_os.Buddy.Interface.{bk_alloc, bk_free}
use aco_os.Sv39.Pages.{Pages}
use aco_os.Sv39.Backing.{
  UsedPage, KeepsOthers, bk_alloc-Given, bk_free-Keeps, place_lem, buddy_pages,
}
use aco_os.Sv39.Walk.{Space}
use aco_os.Sv39.Tree.{Shape, lookup}
use aco_os.Sv39.Walk.Found.{IsRoot}

pub KeepsOthers-trans :
    (c : Config) (r s t : State) → KeepsOthers c r s → KeepsOthers c s t → KeepsOthers c r t
KeepsOthers-trans c r s t first second q small held typed =
    let e = first q small held typed in
    second q small (ground (arith, e, held)) (ground (arith, e, typed)) ∙ e

module _ (c : Config) (wf : IsConfig c) (some_order : 0 < c.max_order)
    (low : c.layout.pa_start + c.layout.size ≤ 2 ^ 56) where
  -- The operations are those of buddy_pages; the laws also say what stays since `before`.
  abbrev pub pages_from : State → Pages
  pages_from before = record {
    State = State;
    alloc = bk_alloc c (pos 0);
    free = bk_free c;
    pa2va = pa2va c.layout;
    va2pa = va2pa c.layout;
    IsOk = λ s. IsBuddy c s × KeepsOthers c before s;
    Used = UsedPage c;
    alloc_lem = λ s (inv, kept).
        Returns-mono (bk_alloc-Given wf s some_order inv) λ r (given, others).
          ((given.0, KeepsOthers-trans c before s r.1 kept others), given.1, given.2);
    free_lem = λ s a (inv, kept) u.
        Returns-mono (bk_free-Keeps wf s a inv u)
          λ t (inv', used, others). ((inv', KeepsOthers-trans c before s t kept others), used);
    place = λ s a h u. place_lem wf s a low u;
  }

  abbrev pub tables_at : State → (ℕ → ℕ → ℕ) → Space State
  tables_at b ptes = record { state = b; ptes = ptes }

  abbrev pub buddy : Pages
  buddy = buddy_pages c wf some_order low

  pub IsRoot-from :
      {h : Shape} {root : ℕ} (b : State) (ptes : ℕ → ℕ → ℕ)
      → IsRoot buddy h (tables_at b ptes) root
      → IsRoot (pages_from b) h (tables_at b ptes) root
  IsRoot-from b ptes r = record {
    tree = record {
      state = (r.tree.state, λ q small held typed. refl);
      used = r.tree.used;
      low = r.tree.low;
      aligned = r.tree.aligned;
      points = λ t i on level small v.
          let p = r.tree.points t i on level small v in
          record { next = p.next; has = p.has; index = p.index; start = p.start };
      parent = r.tree.parent;
      unique = r.tree.unique;
    };
    has = r.has;
    index = r.index;
    start = r.start;
  }

  pub IsRoot-after :
      {h : Shape} {root : ℕ} (before b : State) (ptes : ℕ → ℕ → ℕ)
      → IsRoot (pages_from before) h (tables_at b ptes) root
      → IsRoot buddy h (tables_at b ptes) root
  IsRoot-after before b ptes r = record {
    tree = record {
      state = r.tree.state.0;
      used = r.tree.used;
      low = r.tree.low;
      aligned = r.tree.aligned;
      points = λ t i on level small v.
          let p = r.tree.points t i on level small v in
          record { next = p.next; has = p.has; index = p.index; start = p.start };
      parent = r.tree.parent;
      unique = r.tree.unique;
    };
    has = r.has;
    index = r.index;
    start = r.start;
  }

  -- The tables lie in the pages that they lay in.
  pub IsRoot-moved :
      {h : Shape} {root : ℕ} (b b' : State) (ptes : ℕ → ℕ → ℕ)
      → IsBuddy c b'
      → ((a : ℕ) → h.has a ≡ true → UsedPage c b a → UsedPage c b' a)
      → IsRoot buddy h (tables_at b ptes) root
      → IsRoot buddy h (tables_at b' ptes) root
  IsRoot-moved b b' ptes inv kept r = record {
    tree = record {
      state = inv;
      used = λ a on. kept a on (r.tree.used a on);
      low = r.tree.low;
      aligned = r.tree.aligned;
      points = r.tree.points;
      parent = r.tree.parent;
      unique = r.tree.unique;
    };
    has = r.has;
    index = r.index;
    start = r.start;
  }

  -- A walk does not depend on the laws.
  pub lookup-from :
      (before : State) (ptes : ℕ → ℕ → ℕ) (root p : ℕ)
      → lookup (pages_from before) ptes root p ≡ lookup buddy ptes root p
  unfolding lookup
  lookup-from before ptes root p = refl
