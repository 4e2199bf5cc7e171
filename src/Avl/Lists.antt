-- ===== src/Avl/Lists.antt =====
-- Sorted lists meet what is asked of the trees.
use aco_os.Base.{
  ℕ, ◌≡◌, refl, Option, none, some, List, [], ◌∷◌, ◌++◌, remove, ◌∉◌, ◌==◌, if◌then◌else◌, arith,
}
use aco_os.Avl.{Compared, less, equal, greater, All, last, Avl}

abbrev pub add : (ℕ → Compared) → ℕ → List ℕ → Option ℕ × List ℕ
add f x [] = (none, x ∷ [])
add f x (y ∷ ys) = elim (f y) [
  | less ↦ (none, x ∷ y ∷ ys)
  | equal ↦ (some y, y ∷ ys)
  | greater ↦ ((add f x ys).0, y ∷ (add f x ys).1)
]

abbrev pub find : (ℕ → Compared) → List ℕ → Option ℕ
find f [] = none
find f (y ∷ ys) = elim (f y) [ less ↦ none | equal ↦ some y | greater ↦ find f ys ]

abbrev pub prev_from : Option ℕ → ℕ → List ℕ → Option ℕ
prev_from p x [] = none
prev_from p x (y ∷ ys) = if x == y then p else prev_from (some y) x ys

-- The last of a list, `p` for the empty list.
abbrev pub last_or : Option ℕ → List ℕ → Option ℕ
last_or p [] = p
last_or p (x ∷ xs) = last_or (some x) xs

last_or_lem : (x : ℕ) (xs : List ℕ) → last_or (some x) xs ≡ last (x ∷ xs)
last_or_lem x [] = refl
last_or_lem x (y ∷ ys) = last_or_lem y ys

pub add_free :
    (f : ℕ → Compared) (x : ℕ) (before after : List ℕ)
    → All f greater before
    → All f less after
    → ((add f x (before ++ after)).0 ≡ none)
      × ((add f x (before ++ after)).1 ≡ before ++ (x ∷ after))
add_free f x [] [] b a = (refl, refl)
add_free f x [] (y ∷ ys) b a = ground arith
add_free f x (y ∷ ys) after b a = ground (arith, add_free f x ys after)

pub add_taken :
    (f : ℕ → Compared) (x : ℕ) (before among after : List ℕ) (y : ℕ)
    → All f greater before
    → f y ≡ equal
    → (z : ℕ) × (add f x (before ++ ((y ∷ among) ++ after))
        ≡ (some z, before ++ ((y ∷ among) ++ after)))
add_taken f x [] among after y b e = (y, ground arith)
add_taken f x (w ∷ ws) among after y b e =
    let (z, h) = add_taken f x ws among after y b.1 e in (z, ground (arith, h))

pub find-some :
    (f : ℕ → Compared) (before after : List ℕ) (y : ℕ)
    → All f greater before
    → f y ≡ equal
    → find f (before ++ (y ∷ after)) ≡ some y
find-some f [] after y b e = ground arith
find-some f (w ∷ ws) after y b e = ground (arith, find-some f ws after y)

pub find-none :
    (f : ℕ → Compared) (before after : List ℕ)
    → All f greater before
    → All f less after
    → find f (before ++ after) ≡ none
find-none f [] [] b a = refl
find-none f [] (y ∷ ys) b a = ground arith
find-none f (w ∷ ws) after b a = ground (arith, find-none f ws after)

prev_from_lem :
    (p : Option ℕ) (x : ℕ) (before after : List ℕ)
    → x ∉ before
    → prev_from p x (before ++ (x ∷ after)) ≡ last_or p before
prev_from_lem p x [] after out = ground arith
prev_from_lem p x (y ∷ ys) after out = ground (arith, prev_from_lem (some y) x ys after)

pub prev_lem :
    (x : ℕ) (before after : List ℕ)
    → x ∉ before
    → prev_from none x (before ++ (x ∷ after)) ≡ last before
prev_lem x [] after out = ground arith
prev_lem x (y ∷ ys) after out = ground (arith, prev_from_lem (some y) x ys after, last_or_lem y ys)

abbrev pub sorted_lists : Avl
sorted_lists = record {
  Tree = List ℕ;
  nodes = λ t. t;
  root_init = [];
  node_add = add;
  node_find = find;
  node_prev = prev_from none;
  node_erase = remove;
  nodes-root_init = refl;
  nodes-node_add = λ f x t before after e b a. rw e (add_free f x before after b a);
  node_add_taken =
      λ f x t before among after y e b q a. rw e (add_taken f x before among after y b q.0);
  node_find_some = λ f t before after y e b q a. rw e (find-some f before after y b q);
  node_find_none = λ f t before after e b a. rw e (find-none f before after b a);
  node_prev_lem = λ x t before after e out. rw e (prev_lem x before after out);
  nodes-node_erase = λ x t d mem. refl;
}
