-- ===== src/Buddy/Free.antt =====
-- bkp_free: the block and its free neighbours end up on one list.
use native.Mathlib.Nat.{pow-suc}
use aco_os.Base.{
  ℕ, zero, suc, ◌+◌, ◌-◌, ◌^◌, ◌≤◌, ◌<◌, ◌≡◌, ◌⊎◌, inl, inr, refl, true, ◌&&◌, Option, none, some,
  ltb, ◌==◌, ◌∙◌, subst, ap, length-append, has-append, Distinct-snoc, Bool-cases, Option-cases,
  arith, [], ◌∷◌,
}
use aco_os.Base.Run.{ok, Returns, returns, Returns-mono, Returns-bind}
use aco_os.Pageframe.{is_buddy, eq_head}
use aco_os.Pageframe.Address.{id_valid_lem}
use aco_os.Buddy.{
  State, Config, mergeable, only_mergeable, merge_before, merge_after, absorb, before, after, merge,
  put_back, bkp_free, enlist, set_page,
}
use aco_os.Buddy.Neighbour.{count, IsConfig, pow-pos, before_lem, after_lem}
use aco_os.Buddy.Invariant.{IsListed, IsHeld, IsBuddy, Keeps, FreeAt}
use aco_os.Buddy.Merge.{Pair, Joined, Joined-IsBuddy, Joined-Keeps, Joined-free}

-- The block at `p` is in use, and its order is `k`.
pub record InUse (c : Config) (s : State) (p k : ℕ) : Type 0 where
  pub in_range : p < count c
  pub kind : is_buddy (s.pages p).pgtype ≡ true
  pub in_use : IsHeld (s.pages p)
  pub order : (s.pages p).buddy_order ≡ k

-- From `s`, where the block at `p` of order `i` is in use, to `t`, where that at `q` of order `k` is:
-- it contains the former, and `q` is `p` or was free.
pub record Moved (c : Config) (s t : State) (p i q k : ℕ) : Type 0 where
  pub inv : IsBuddy c t
  pub block : InUse c t q k
  pub keeps : Keeps c p s t
  pub fresh : IsHeld (s.pages q) → q ≡ p
  pub around : (q ≤ p) × (p + 2 ^ i ≤ q + 2 ^ k)
  pub free : (j : ℕ) → FreeAt c s j → FreeAt c t j ⊎ ((q ≤ j) × (j < q + 2 ^ k))

abbrev Absorbed : Config → State → ℕ → ℕ → Option (ℕ × State) → Type 0
Absorbed c s p k none = Unit
Absorbed c s p k (some (q, t)) = Moved c s t p k q (k + 1)

-- The loop ended with the block at `q`, of order `k`.
abbrev pub Merged : Config → State → ℕ → ℕ → ℕ × ℕ × State → Type 0
Merged c s p i (k, q, t) = Moved c s t p i q k × (k < c.max_order)

module _ {c : Config} (wf : IsConfig c) {s : State} {p k : ℕ} (inv : IsBuddy c s)
    (b : InUse c s p k) (room : k + 1 < c.max_order) where
  open b use {in_range, kind, in_use, order}

  mergeable-IsListed :
      (q : ℕ) → q < count c → mergeable (s.pages q) k ≡ true → IsListed (s.pages q) k
  mergeable-IsListed q h m = ground (arith, inv.clean q)

  before-Pair : (q : ℕ) → only_mergeable s k (before c p k) ≡ some q → Pair c s k q p p q
  unfolding only_mergeable
  before-Pair q h =
      let e = before_lem wf p k in_range (omega arith) in
      let small = inv.fits p in_range (ground arith) in
      record {
        a_in = ground (arith, e, pow-pos k);
        b_in = in_range;
        next_to = ground (arith, e);
        room = room;
        roles = inr (refl, refl);
        type_p = kind;
        held_p = in_use;
        order_p = order;
        free_q = ground (arith, e, pow-pos k, mergeable-IsListed q);
      }

  after-Pair : (q : ℕ) → only_mergeable s k (after c p k) ≡ some q → Pair c s k p q p q
  unfolding only_mergeable
  after-Pair q h =
      let e = after_lem wf p k in_range (omega arith) in
      record {
        a_in = in_range;
        b_in = ground (arith, e);
        next_to = ground (arith, e);
        room = room;
        roles = inl (refl, refl);
        type_p = kind;
        held_p = in_use;
        order_p = order;
        free_q = ground (arith, e, mergeable-IsListed q);
      }

  merge_before-Joined : (q : ℕ) → Pair c s k q p p q → Joined c s (merge_before c s p q k) k q p q
  unfolding merge_before
  merge_before-Joined q m = record {
    at_a = ground (arith, m.next_to, m.free_q, pow-pos k);
    at_b = ground (arith, m.next_to, pow-pos k);
    other = λ j ne ne'. ground arith;
    pools = λ i. refl;
  }

  merge_after-Joined : (q : ℕ) → Pair c s k p q p q → Joined c s (merge_after c s p q k) k p q q
  unfolding merge_after
  merge_after-Joined q m = record {
    at_a = ground (arith, m.next_to, pow-pos k);
    at_b = ground (arith, m.next_to, pow-pos k);
    other = λ j ne ne'. ground arith;
    pools = λ i. refl;
  }

  merge_before-Moved :
      (q : ℕ) → Pair c s k q p p q → Moved c s (merge_before c s p q k) p k q (k + 1)
  unfolding merge_before
  merge_before-Moved q m =
      let w = merge_before-Joined q m in
      record {
        inv = Joined-IsBuddy inv m w;
        block = record {
          in_range = m.a_in;
          kind = ground (arith, m.free_q, w.at_a);
          in_use = ground (arith, w.at_a);
          order = ground (arith, w.at_a);
        };
        keeps = Joined-Keeps inv m w;
        fresh = λ held. ground (arith, m.free_q);
        around = ground (arith, m.next_to, pow-suc 2 k);
        free = Joined-free inv m w;
      }

  merge_after-Moved : (q : ℕ) → Pair c s k p q p q → Moved c s (merge_after c s p q k) p k p (k + 1)
  unfolding merge_after
  merge_after-Moved q m =
      let w = merge_after-Joined q m in
      record {
        inv = Joined-IsBuddy inv m w;
        block = record {
          in_range = m.a_in;
          kind = ground (arith, w.at_a);
          in_use = ground (arith, w.at_a);
          order = ground (arith, w.at_a);
        };
        keeps = Joined-Keeps inv m w;
        fresh = λ held. refl;
        around = ground (arith, pow-suc 2 k);
        free = Joined-free inv m w;
      }

  -- A merge, when there is one, leaves a block of the next order in use.
  absorb-Absorbed : Absorbed c s p k (absorb c s p k)
  unfolding absorb
  absorb-Absorbed = elim (Option-cases (only_mergeable s k (before c p k))) [
    | inr (r, e) ↦ rw (e, absorb) (merge_before-Moved r (before-Pair r e))
    | inl e ↦ elim (Option-cases (only_mergeable s k (after c p k))) [
      | inr (r, e') ↦ rw (e, e', absorb) (merge_after-Moved r (after-Pair r e'))
      | inl e' ↦ rw (e, e', absorb) tt
    ]
  ]

Keeps-refl : (c : Config) (p : ℕ) (s : State) → Keeps c p s s
Keeps-refl c p s = record { loose = λ j free. (free, refl); held = λ q ne h. refl }

Keeps-trans :
    {c : Config} {s t u : State} {p q : ℕ}
    → (IsHeld (s.pages q) → q ≡ p)
    → Keeps c p s t
    → Keeps c q t u
    → Keeps c p s u
Keeps-trans fresh k l = record {
  loose = λ j free.
      let (free', e) = k.loose j free in let (free'', e') = l.loose j free' in (free'', e' ∙ e);
  held = λ r ne h. ground (arith, k.held r, l.held r);
}

Moved-trans :
    {c : Config} {s t u : State} {p i q j r k : ℕ}
    → Moved c s t p i q j
    → Moved c t u q j r k
    → Moved c s u p i r k
Moved-trans {s} {t} {p} {q} {r} m l = record {
  inv = l.inv;
  block = l.block;
  keeps = Keeps-trans m.fresh m.keeps l.keeps;
  fresh = λ h. ground (arith, m.keeps.held r, l.fresh, m.fresh);
  around = omega (arith, m.around, l.around);
  free = λ x f. elim (m.free x f) [
    | inl still ↦ l.free x still
    | inr (lo, hi) ↦ inr (omega (arith, l.around), omega (arith, l.around))
  ];
}

-- With enough fuel the loop of bkp_free ends without a failed ASSERT, and leaves one block in use.
merge-Merged :
    {c : Config} (wf : IsConfig c) (fuel : ℕ) (s : State) (p k : ℕ)
    → IsBuddy c s
    → InUse c s p k
    → k < c.max_order
    → c.max_order ≤ fuel + k
    → Returns (Merged c s p k) (merge c fuel k p s)
unfolding merge
merge-Merged {c} wf zero s p k inv b small enough = absurd (omega arith)
merge-Merged {c} wf (suc fuel) s p k inv b small enough =
    elim (Bool-cases (ltb k (c.max_order - 1))) [
      | inr done ↦ rw done (returns (stay, small))
      | inl more ↦ elim (Option-cases (absorb c s p k)) [
        | inl e ↦ rw (more, sane, e) (returns (stay, small))
        | inr ((q, t), e) ↦
            let room : k + 1 < c.max_order = ground arith in
            let m : Moved c s t p k q (k + 1) =
              subst (Absorbed c s p k) e (absorb-Absorbed wf inv b room) in
            rw (more, sane, e)
              (Returns-mono (merge-Merged wf fuel t q (k + 1) m.inv m.block room (omega arith))
                λ (k', r, u) (l, small'). (Moved-trans m l, small'))
      ]
    ]
  where
    sane :
        (is_buddy (s.pages p).pgtype
          && (((s.pages p).buddy_order == k) && eq_head (s.pages p).buddy_flags))
        ≡ true
    sane = ground (arith, b.kind, b.order, b.in_use)

    stay : Moved c s s p k p k
    stay = record {
      inv = inv;
      block = b;
      keeps = Keeps-refl c p s;
      fresh = λ h. refl;
      around = omega arith;
      free = λ j f. inl f;
    }

-- What bkp_free promises: the invariant holds, the frames that no block covers and the other blocks
-- in use stay as they are, a free frame stays free, and the frames of the block become free.
pub record Freed (c : Config) (p k : ℕ) (s t : State) : Type 0 where
  pub inv : IsBuddy c t
  pub keeps : Keeps c p s t
  pub free : (j : ℕ) → FreeAt c s j → FreeAt c t j
  pub home : (j : ℕ) → p ≤ j → j < p + 2 ^ k → FreeAt c t j

-- A block in use goes to the end of the list of its order.
module _ {c : Config} {s : State} {p k : ℕ} (inv : IsBuddy c s) (b : InUse c s p k)
    (small : k < c.max_order) where
  open b use {in_range, kind, in_use, order}
  open inv use {listed, listing, distinct, counted, clean, fits, inner}

  marked : State
  marked =
      set_page s p
        (record (s.pages p) { buddy_flags = record (s.pages p).buddy_flags { is_free = true } })

  put_back-ok : put_back k p s ≡ ok (enlist marked k p)
  unfolding put_back marked
  put_back-ok = ground (arith, kind, in_use)

  enlist-Freed : Freed c p k s (enlist marked k p)
  unfolding marked
  enlist-Freed = record {
    inv = record {
      listed = λ i r h mem. ground (arith, listed i r, has-append r (s.pools k).list (p ∷ []));
      listing = λ r h free. ground (arith, listing r, has-append r (s.pools k).list (p ∷ []));
      distinct = λ i h. ground (arith, distinct i, listed i p, Distinct-snoc p (s.pools k).list);
      counted = λ i h. ground (arith, counted i, length-append (s.pools k).list (p ∷ []));
      clean = λ r h head. ground (arith, clean r);
      fits = λ r h head. ground (arith, fits r);
      inner = λ r j h head lo hi. ground (arith, inner r j);
    };
    keeps = record {
      loose = λ j free. (λ r h head. ground (arith, free r), ground (arith, free p, pow-pos k));
      held = λ r ne h. ground arith;
    };
    free = λ j (q, i, h, mem, lo, hi).
        (q, i, h, ground (arith, has-append q (s.pools k).list (p ∷ [])), lo, hi);
    home = λ j lo hi. (p, k, small, ground (arith, has-append p (s.pools k).list (p ∷ [])), lo, hi);
  }

-- On well-formed frames and pools, bkp_free of a block in use fails no ASSERT and ends within its
-- fuel. Afterwards frames and pools are well formed again; the frames of the block are free and no other frame has ceased to
-- be; every other block in use, and a frame that no block covered, is as it was.
pub bkp_free-Freed :
    {c : Config} (s : State) (p k : ℕ)
    → IsConfig c
    → IsBuddy c s
    → InUse c s p k
    → Returns (Freed c p k s) (bkp_free c p s)
unfolding bkp_free
bkp_free-Freed {c} s p k wf inv b =
    rw (id_valid_lem wf.layout p b.in_range, sane)
      (Returns-bind
        (merge-Merged wf c.max_order s p (s.pages p).buddy_order inv b' small (omega arith))
        λ (j, q, t) (m, small').
          let f = enlist-Freed m.inv m.block small' in
          rw (put_back-ok m.inv m.block small') (
            returns (record {
              inv = f.inv;
              keeps = Keeps-trans m.fresh m.keeps f.keeps;
              free = λ x old. elim (m.free x old) [
                | inl still ↦ f.free x still
                | inr (lo, hi) ↦ f.home x lo hi
              ];
              home = λ x lo hi.
                  f.home x (omega (arith, m.around))
                    (omega (arith, m.around, ap (λ e. 2 ^ e) b.order));
            })))
  where
    b' : InUse c s p (s.pages p).buddy_order
    b' = record { in_range = b.in_range; kind = b.kind; in_use = b.in_use; order = refl }

    small : (s.pages p).buddy_order < c.max_order
    small = ground (arith, inv.fits p)

    sane :
        (is_buddy (s.pages p).pgtype
          && (eq_head (s.pages p).buddy_flags && ltb (s.pages p).buddy_order c.max_order))
        ≡ true
    sane = ground (arith, b.kind, b.in_use, small)
