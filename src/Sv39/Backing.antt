-- ===== src/Sv39/Backing.antt =====
-- The pages of the tables come from mm/buddy: bk_alloc_zero(0) and bk_free of
-- module/mm/buddy/buddy_allocator.c, pa2va and va2pa of include/mm/pageframe.h.
use aco_os.Base.{
  ℕ, ◌+◌, ◌%◌, ◌^◌, ◌≤◌, ◌<◌, ◌≡◌, ◌≢◌, ◌⊎◌, inl, inr, refl, true, false, Option, none, some, arith,
  sym, ◌∙◌, ap, subst,
}
use aco_os.Base.Int.{pos}
use aco_os.Base.Run.{Returns, returns, Returns-bind, Returns-mono}
use aco_os.Pageframe.{
  page_size, page_nums, va_valid, id2va, pa2va, va2pa, Flags, is_buddy, eq_head, eq_head_free,
}
use aco_os.Pageframe.Address.{id2va_lem}
use aco_os.Buddy.{State, Config}
use aco_os.Buddy.Neighbour.{IsConfig, count, pow-pos}
use aco_os.Buddy.Invariant.{IsBuddy, IsHeld}
use aco_os.Buddy.Free.{InUse, Freed}
use aco_os.Buddy.Alloc.{Result, bkp_alloc-Result}
use aco_os.Buddy.Interface.{bk_alloc, bk_free, bk_free-Freed}
use aco_os.Sv39.Pages.{Pages}

-- The address is that of a block of one page, which is in use.
abbrev pub UsedPage : Config → State → ℕ → Type 0
UsedPage c s a = (p : ℕ) × (a ≡ id2va c.layout p) × InUse c s p 0

-- The frames that hold slabs and areas, which are blocks in use whose type was changed, stay.
abbrev pub KeepsOthers : Config → State → State → Type 0
KeepsOthers c s t =
    (q : ℕ)
    → q < count c
    → IsHeld (s.pages q)
    → is_buddy (s.pages q).pgtype ≡ false
    → t.pages q ≡ s.pages q

not_both : (f : Flags) → eq_head f ≡ true → eq_head_free f ≡ true → ⊥
not_both f used free = ground arith

module _ {c : Config} (wf : IsConfig c) where
  abbrev pub Given : State → ℕ × State → Type 0
  Given s (a, t) =
      IsBuddy c t
      × ((b : ℕ) → UsedPage c s b → UsedPage c t b)
      × ((a ≡ 0) ⊎ (UsedPage c t a × ((b : ℕ) → UsedPage c s b → b ≢ a)))

  pub stays :
      (s t : State) (b : ℕ) (u : UsedPage c s b) → t.pages u.0 ≡ s.pages u.0 → UsedPage c t b
  stays s t b (p, at, u) e = (
    p,
    at,
    record {
      in_range = u.in_range;
      kind = ground (arith, e, u.kind);
      in_use = ground (arith, e, u.in_use);
      order = ground (arith, e, u.order);
    },
  )

  id2va_unique :
      (p q : ℕ)
      → p < page_nums c.layout
      → q < page_nums c.layout
      → id2va c.layout p ≡ id2va c.layout q
      → p ≡ q
  id2va_unique p q small small' e =
      ground (arith, id2va_lem wf.layout p small, id2va_lem wf.layout q small', e)

  Result-Given :
      (s : State) (r : Option ℕ × State)
      → IsBuddy c s
      → Result c s 0 r
      → Given s (elim r.0 [ none ↦ 0 | some p ↦ id2va c.layout p ], r.1)
  Result-Given s (none, t) inv (same, empty) = (
    subst (λ x. IsBuddy c x) (sym same) inv,
    (λ b u. subst (λ x. UsedPage c x b) (sym same) u),
    inl refl,
  )
  Result-Given s (some p, t) inv given = (
    given.inv,
    (λ b (q, at, u). stays s t b (q, at, u) (given.held q u.in_range u.in_use)),
    inr (
      (p, refl, given.block),
      λ b (q, at, u) e.
          let same : q ≡ p = id2va_unique q p u.in_range given.block.in_range (sym at ∙ e) in
          not_both (s.pages p).buddy_flags
            (subst (λ k. eq_head (s.pages k).buddy_flags ≡ true) same u.in_use) given.was_free,
    ),
  )

  Result-KeepsOthers : (s : State) (r : Option ℕ × State) → Result c s 0 r → KeepsOthers c s r.1
  Result-KeepsOthers s (none, t) (same, empty) q small held other =
      ap (λ (x : State). x.pages q) same
  Result-KeepsOthers s (some p, t) given q small held other = given.held q small held

  pub bk_alloc-Given :
      (s : State)
      → 0 < c.max_order
      → IsBuddy c s
      → Returns (λ r. Given s r × KeepsOthers c s r.1) (bk_alloc c (pos 0) s)
  unfolding bk_alloc
  bk_alloc-Given s some_order inv =
      Returns-bind (bkp_alloc-Result s 0 wf inv some_order)
        λ r given. returns (Result-Given s r inv given, Result-KeepsOthers s r given)

  pub bk_free-Keeps :
      (s : State) (a : ℕ)
      → IsBuddy c s
      → UsedPage c s a
      → Returns
          (λ t.
            IsBuddy c t × ((b : ℕ) → UsedPage c s b → b ≢ a → UsedPage c t b) × KeepsOthers c s t)
          (bk_free c a s)
  unfolding va_valid
  bk_free-Keeps s a inv (p, at, u) =
      let outside : va_valid c.layout 0 ≡ false = ground (arith, wf.below, pow-pos c.max_order) in
      let same : id2va c.layout p + 0 ≡ a = omega (arith, at) in
      let frees = (bk_free-Freed s p 0 0 0 wf inv u (omega arith) outside).0 in
      let freed : Returns (Freed c p 0 s) (bk_free c a s) =
        subst (λ (x : ℕ). Returns (Freed c p 0 s) (bk_free c x s)) same frees in
      Returns-mono freed λ t f. (
        f.inv,
        λ b (q, at', v) ne.
            let other : q ≢ p = λ e. ne (at' ∙ ap (id2va c.layout) e ∙ sym at) in
            stays s t b (q, at', v) (f.keeps.held q other v.in_use),
        λ q small held typed. f.keeps.held q (λ e. ground (arith, e, typed, u.kind)) held,
      )

  pub place_lem :
      (s : State) (a : ℕ)
      → c.layout.pa_start + c.layout.size ≤ 2 ^ 56
      → UsedPage c s a
      → (0 < a)
        × (a % page_size ≡ 0)
        × (va2pa c.layout a % page_size ≡ 0)
        × (va2pa c.layout a < 2 ^ 56)
        × (pa2va c.layout (va2pa c.layout a) ≡ a)
  unfolding va2pa pa2va
  place_lem s a low (p, at, u) =
      let l = wf.layout in
      let pos = pow-pos c.max_order in
      let value = id2va_lem l p u.in_range in
      ground (
        arith, at, value, pos, wf.below, u.in_range, low, l.order, l.pa_aligned, l.va_aligned,
        l.size_aligned, l.va_fits,
      )

-- Where the managed memory has physical addresses below 2^56 and an order is in use, mm/buddy gives
-- the pages of the tables.
abbrev pub buddy_pages :
    (c : Config) → IsConfig c → 0 < c.max_order → c.layout.pa_start + c.layout.size ≤ 2 ^ 56 → Pages
buddy_pages c wf some_order low = record {
  State = State;
  alloc = bk_alloc c (pos 0);
  free = bk_free c;
  pa2va = pa2va c.layout;
  va2pa = va2pa c.layout;
  IsOk = IsBuddy c;
  Used = UsedPage c;
  alloc_lem = λ s inv. Returns-mono (bk_alloc-Given wf s some_order inv) (λ r h. h.0);
  free_lem = λ s a inv u. Returns-mono (bk_free-Keeps wf s a inv u) (λ t h. (h.0, h.1));
  place = λ s a inv u. place_lem wf s a low u;
}
