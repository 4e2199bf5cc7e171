-- ===== src/Buddy/Split.antt =====
-- The loop of bkp_alloc that gives the rest of a split block back, piece by piece.
use native.Mathlib.Nat.{pow-suc, div-eq_of_lt, div-eq_of_lt-le}
use native.Mathlib.Decide.{dec_lt}
use native.Mathlib.Nat.{le_refl}
use aco_os.Base.{
  ℕ, zero, suc, ◌+◌, ◌-◌, ◌*◌, ◌/◌, ◌^◌, ◌≤◌, ◌<◌, ◌≡◌, ◌≢◌, ◌⊎◌, inl, inr, refl, true, false, ◌==◌,
  subst, Bool-cases, arith, ap,
}
use aco_os.Base.Run.{Returns, returns, Returns-mono, Returns-bind}
use aco_os.Pageframe.{flag_head}
use aco_os.Buddy.{State, Config, set_page, bit, give_back}
use aco_os.Buddy.Neighbour.{count, IsConfig, pow-pos, pow_mono}
use aco_os.Buddy.Invariant.{IsHeld, IsInner, IsBuddy, Loose, Keeps, FreeAt}
use aco_os.Buddy.Free.{InUse, Freed, bkp_free-Freed}

-- The bit tests of the loop, on what is left of a power of two.
pub bit_low : (x i : ℕ) → x < 2 ^ i → bit x i ≡ false
bit_low x i h = let e : x / 2 ^ i ≡ 0 = div-eq_of_lt h in ground (arith, e)

pub bit_high : (x i : ℕ) → 2 ^ i ≤ x → x < 2 * 2 ^ i → bit x i ≡ true
bit_high x i h k =
    let e : x / 2 ^ i ≡ 1 = div-eq_of_lt-le {k = 1} (2 ^ i) (omega arith) (omega arith) in
    ground (arith, e)

-- In 2^e - 2^o, which is not 0, the highest bit is that of e - 1.
top_bit :
    (o e rest i : ℕ)
    → o ≤ e
    → rest + 2 ^ o ≡ 2 ^ e
    → rest ≢ 0
    → e ≤ suc i
    → ((bit rest i ≡ true) × (e ≡ suc i) × (o ≤ i)) ⊎ ((bit rest i ≡ false) × (e ≤ i))
top_bit o e rest i oe sum more top = elim (dec_lt i e) [
  | yes h ↦
      let e' : e ≡ suc i = omega arith in
      let sum' : rest + 2 ^ o ≡ 2 ^ suc i = subst (λ x. rest + 2 ^ o ≡ 2 ^ x) e' sum in
      let lower : o ≤ i = elim (dec_lt i o) [
        | yes g ↦
            let eq : o ≡ suc i = omega arith in
            absurd (more (omega (arith, sum', ap (λ x. 2 ^ x) eq)))
        | no g ↦ omega arith
      ] in
      let m = pow_mono o i lower in
      inl (
        bit_high rest i (omega (arith, sum', pow-suc 2 i))
            (omega (arith, sum', pow-suc 2 i, pow-pos o)),
        e',
        lower,
      )
  | no h ↦
      let m = pow_mono e i (omega arith) in
      inr (bit_low rest i (omega (arith, pow-pos o)), omega arith)
]

-- Frames that no block covers, and that are marked as inner frames.
abbrev pub Spare : Config → State → ℕ → ℕ → Type 0
Spare c s lo hi = (j : ℕ) → lo ≤ j → j < hi → Loose c s j × IsInner (s.pages j) c.max_order

-- A spare region becomes a block of its own.
module _ {c : Config} {s : State} (r i : ℕ) (inv : IsBuddy c s) (small : i < c.max_order)
    (room : r + 2 ^ i ≤ count c) (spare : Spare c s r (r + 2 ^ i)) where
  open inv use {listed, listing, distinct, counted, clean, fits, inner}

  first : Loose c s r × IsInner (s.pages r) c.max_order
  first = spare r (omega arith) (omega (arith, pow-pos i))

  pub headed : State
  headed = set_page s r (record (s.pages r) { buddy_order = i; buddy_flags = flag_head })

  headed-IsBuddy : IsBuddy c headed
  unfolding headed
  headed-IsBuddy = record {
    listed = λ k q h mem. ground (arith, listed k q, first);
    listing = λ q h free. ground (arith, listing q);
    distinct = distinct;
    counted = counted;
    clean = λ q h head. ground (arith, clean q);
    fits = λ q h head. ground (arith, fits q);
    inner = λ q j h head lo hi. ground (arith, inner q j, spare j, first.0 q);
  }

  headed-InUse : InUse c headed r i
  unfolding headed
  headed-InUse = record {
    in_range = omega (arith, pow-pos i);
    kind = ground (arith, first);
    in_use = ground arith;
    order = ground arith;
  }

-- The frames behind that block are still spare, and stay so while it is given back.
Spare-headed :
    (c : Config) (s : State) (r i hi : ℕ)
    → Spare c s r hi
    → r + 2 ^ i ≤ hi
    → Spare c
        (set_page s r (record (s.pages r) { buddy_order = i; buddy_flags = flag_head }))
        (r + 2 ^ i)
        hi
Spare-headed c s r i hi spare h j lo up =
    let here = spare j (omega (arith, pow-pos i)) up in
    (λ q k head. ground (arith, here.0 q), ground (arith, here.1, pow-pos i))

Spare-Keeps :
    {c : Config} {s t : State} {p : ℕ} (lo hi : ℕ)
    → Keeps c p s t
    → Spare c s lo hi
    → Spare c t lo hi
Spare-Keeps lo hi keeps spare j h k =
    let here = spare j h k in
    let (free, e) = keeps.loose j here.0 in (free, ground (arith, e, here.1))

-- Giving the frames from `r` to `hi` back keeps every block in use as it is, frees these frames, and
-- leaves no free frame behind.
pub record GivenBack (c : Config) (r hi : ℕ) (s t : State) : Type 0 where
  pub inv : IsBuddy c t
  pub held : (q : ℕ) → q < count c → IsHeld (s.pages q) → t.pages q ≡ s.pages q
  pub free : (j : ℕ) → FreeAt c s j → FreeAt c t j
  pub home : (j : ℕ) → r ≤ j → j < hi → FreeAt c t j

module _ {c : Config} (wf : IsConfig c) (o : ℕ) where
  -- One piece: its frames become a block, the block is freed, and then the rest goes back.
  piece_then :
      (s t u : State) (r i hi : ℕ)
      → IsInner (s.pages r) c.max_order
      → Freed c r i
          (set_page s r (record (s.pages r) { buddy_order = i; buddy_flags = flag_head }))
          t
      → GivenBack c (r + 2 ^ i) hi t u
      → GivenBack c r hi s u
  piece_then s t u r i hi inner freed done = record {
    inv = done.inv;
    held = λ q h held. ground (arith, freed.keeps.held q, done.held q);
    free = λ j f. done.free j (freed.free j f);
    home = λ j lo up. elim (dec_lt j (r + 2 ^ i)) [
      | yes h ↦ done.free j (freed.home j lo h)
      | no h ↦ done.home j (omega arith) up
    ];
  }

  nothing_left : (s : State) (r hi : ℕ) → IsBuddy c s → hi ≤ r → GivenBack c r hi s s
  nothing_left s r hi inv e = record {
    inv = inv;
    held = λ q h held. refl;
    free = λ j f. f;
    home = λ j lo up. absurd (omega arith);
  }

  -- `rest` is 2^e - 2^o for the order `e` that the loop has come down to.
  pub give_back-GivenBack :
      (m e r rest hi : ℕ) (s : State)
      → IsBuddy c s
      → o ≤ e
      → rest + 2 ^ o ≡ 2 ^ e
      → (e ≤ m) ⊎ (rest ≡ 0)
      → m ≤ c.max_order
      → r + rest ≡ hi
      → hi ≤ count c
      → Spare c s r hi
      → Returns (GivenBack c r hi s) (give_back c m r rest s)
  unfolding give_back headed
  give_back-GivenBack zero e r rest hi s inv oe sum top small end room spare = returns (
      nothing_left s r hi inv (elim top [
        | inl h ↦
            let eo : e ≡ o = omega arith in
            let same : 2 ^ e ≡ 2 ^ o = ap (λ x. 2 ^ x) eo in omega arith
        | inr none_left ↦ omega arith
      ]))
  give_back-GivenBack (suc i) e r rest hi s inv oe sum top small end room spare =
      elim (Bool-cases (rest == 0)) [
        | inl done ↦ rw done (returns (nothing_left s r hi inv (ground arith)))
        | inr more ↦ elim (top_bit o e rest i oe sum (ground arith) (ground arith)) [
          | inr (unset, lower) ↦
              rw (more, unset)
                (give_back-GivenBack i e r rest hi s inv oe sum (inl lower) (omega arith) end room
                  spare)
          | inl (set, at_top, lower) ↦
              let sum' : rest + 2 ^ o ≡ 2 ^ suc i = subst (λ x. rest + 2 ^ o ≡ 2 ^ x) at_top sum in
              let m = pow_mono o i lower in
              let piece : 2 ^ i ≤ rest = omega (arith, pow-suc 2 i) in
              let (free, inner) = spare r (omega arith) (omega (arith, pow-pos i)) in
              let block : Spare c s r (r + 2 ^ i) = λ j lo up. spare j lo (omega arith) in
              let full : ((s.pages r).buddy_order == c.max_order) ≡ true = ground (arith, inner) in
              let fits : r + 2 ^ i ≤ count c = omega arith in
              let back : r + 2 ^ i + (rest - 2 ^ i) ≡ hi = omega arith in
              rw (more, set, inner.1, full)
                (Returns-bind
                  (bkp_free-Freed (headed r i inv small fits block) r i wf
                    (headed-IsBuddy r i inv small fits block)
                    (headed-InUse r i inv small fits block))
                  λ t freed.
                    Returns-mono
                      (give_back-GivenBack i i (r + 2 ^ i) (rest - 2 ^ i) hi t freed.inv lower
                        (omega (arith, sum', pow-suc 2 i)) (inl (le_refl i)) (omega arith) back room
                        (Spare-Keeps (r + 2 ^ i) hi freed.keeps
                          (Spare-headed c s r i hi spare (omega arith))))
                      λ u done. piece_then s t u r i hi inner freed done)
        ]
      ]
