-- ===== src/Sv39/Walk/Slot.antt =====
-- Which pages an entry of a table is for: arithmetic at each index.
use aco_os.Base.{ℕ, zero, suc, ◌+◌, ◌-◌, ◌*◌, ◌/◌, ◌%◌, ◌≤◌, ◌<◌, ◌≡◌, refl, arith}
use aco_os.Sv39.{index2id}
use aco_os.Sv39.Walk.{index_pages}
use aco_os.Sv39.Tree.{table_pages, slot_pages}

pub slot_aligned :
    (k st i : ℕ)
    → k < 2
    → st % table_pages k ≡ 0
    → (st + i * index_pages k) % table_pages (k + 1) ≡ 0
slot_aligned zero st i h a = omega arith
slot_aligned (suc zero) st i h a = omega arith
slot_aligned (suc (suc k)) st i h a = absurd (omega arith)

pub slot_unique :
    (k st su i j : ℕ)
    → k < 2
    → st % table_pages k ≡ 0
    → su % table_pages k ≡ 0
    → i < 512
    → j < 512
    → st + i * index_pages k ≡ su + j * index_pages k
    → (st ≡ su) × (i ≡ j)
slot_unique zero st su i j h a b c d e = omega arith
slot_unique (suc zero) st su i j h a b c d e = omega arith
slot_unique (suc (suc k)) st su i j h a b c d e = absurd (omega arith)

-- The entry that a walk for the page `n` begins at.
pub index2id_slot :
    (k st n : ℕ)
    → k ≤ 2
    → st % table_pages k ≡ 0
    → st ≤ n
    → n < st + table_pages k
    → (index2id (n * 4096) k < 512)
      × (st + index2id (n * 4096) k * index_pages k ≤ n)
      × (n < st + index2id (n * 4096) k * index_pages k + index_pages k)
unfolding index2id
index2id_slot zero st n h a lo hi = omega arith
index2id_slot (suc zero) st n h a lo hi = omega arith
index2id_slot (suc (suc zero)) st n h a lo hi = omega arith
index2id_slot (suc (suc (suc k))) st n h a lo hi = absurd (omega arith)

pub slot_total : (k : ℕ) → k < 2 → table_pages k ≡ 512 * index_pages k
slot_total zero h = omega arith
slot_total (suc zero) h = omega arith
slot_total (suc (suc k)) h = absurd (omega arith)

-- The table below an entry is for the pages of the entry.
pub slot_table : (k : ℕ) → k < 2 → table_pages (k + 1) ≡ index_pages k
slot_table zero h = refl
slot_table (suc zero) h = refl
slot_table (suc (suc k)) h = absurd (omega arith)

pub slot_next : (i span : ℕ) → (i + 1) * span ≡ i * span + span
slot_next i span = grind arith

pub slot_end :
    (k st i : ℕ)
    → k < 2
    → st % table_pages k ≡ 0
    → (st + i * index_pages k + index_pages k) % 512 ≡ 0
slot_end zero st i h a = omega arith
slot_end (suc zero) st i h a = omega arith
slot_end (suc (suc k)) st i h a = absurd (omega arith)

-- The entry for a page, with `below` levels below the table.
pub slot_lem :
    (below st i m : ℕ)
    → below < 2
    → st % table_pages (1 - below) ≡ 0
    → i < 512
    → st + i * index_pages (1 - below) ≤ m
    → m < st + i * index_pages (1 - below) + index_pages (1 - below)
    → m / slot_pages (suc below) % 512 ≡ i
slot_lem zero st i m low a small lo hi = omega arith
slot_lem (suc zero) st i m low a small lo hi = omega arith
slot_lem (suc (suc below)) st i m low a small lo hi = absurd (omega arith)

pub slot_limit :
    (k st i : ℕ)
    → k < 2
    → i < 512
    → (st + i * index_pages k + index_pages k ≤ st + table_pages k) × (0 < index_pages k)
slot_limit zero st i h small = omega arith
slot_limit (suc zero) st i h small = omega arith
slot_limit (suc (suc k)) st i h small = absurd (omega arith)

pub slot_holds :
    (below st m : ℕ)
    → below < 2
    → st % table_pages (1 - below) ≡ 0
    → st ≤ m
    → m < st + table_pages (1 - below)
    → (st + m / slot_pages (suc below) % 512 * index_pages (1 - below) ≤ m)
      × (m
          < st
            + m / slot_pages (suc below) % 512 * index_pages (1 - below)
            + index_pages (1 - below))
slot_holds zero st m low a lo hi = omega arith
slot_holds (suc zero) st m low a lo hi = omega arith
slot_holds (suc (suc below)) st m low a lo hi = absurd (omega arith)

pub same_start :
    (k a b m : ℕ)
    → k ≤ 2
    → a % table_pages k ≡ 0
    → b % table_pages k ≡ 0
    → (a ≤ m) × (m < a + table_pages k)
    → (b ≤ m) × (m < b + table_pages k)
    → a ≡ b
same_start zero a b m low ea eb r r' = omega arith
same_start (suc zero) a b m low ea eb r r' = omega arith
same_start (suc (suc zero)) a b m low ea eb r r' = omega arith
same_start (suc (suc (suc k))) a b m low ea eb r r' = absurd (omega (arith, low))
