-- ===== src/Sv39.antt =====
-- arch/riscv/include/asm/vm.h: page table entries and the page table register of Sv39. Entries and
-- addresses are 64 bits; `& (2^k - 1)` is the remainder by 2^k, a shift a product or a quotient.
pub mod Backing
pub mod Others
pub mod Fields
pub mod Pages
pub mod Walk
pub mod Tree
pub mod Grown
pub mod Shrunk
pub mod Sample
mod Tests
use aco_os.Base.{ℕ, ◌+◌, ◌-◌, ◌*◌, ◌/◌, ◌%◌, ◌^◌, Bool, ◌&&◌, ◌||◌, not, ◌==◌}

abbrev pub pte_bit : ℕ → ℕ → Bool
pte_bit pte i = pte / 2 ^ i % 2 == 1

-- PTE_VALID, PTE_READABLE, PTE_WRITEABLE, PTE_EXCUTABLE: bits 0 to 3
unfoldable pub pte_valid : ℕ → Bool
pte_valid pte = pte_bit pte 0

unfoldable pub pte_readable : ℕ → Bool
pte_readable pte = pte_bit pte 1

unfoldable pub pte_writeable : ℕ → Bool
pte_writeable pte = pte_bit pte 2

unfoldable pub pte_excutable : ℕ → Bool
pte_excutable pte = pte_bit pte 3

pub pte_nextpgt : ℕ → Bool
pte_nextpgt pte =
    pte_valid pte
    && (not (pte_writeable pte) && (not (pte_readable pte) && not (pte_excutable pte)))

-- SV39_Index2Shift and SV39_Index2Id, for an index from 0 to 2
abbrev pub index2shift : ℕ → ℕ
index2shift index = 12 + 9 * (2 - index)

pub index2id : ℕ → ℕ → ℕ
index2id va index = va / 2 ^ index2shift index % 2 ^ 9

pub pa2pte : ℕ → ℕ → ℕ
pa2pte pa prot = pa / 2 ^ 12 % 2 ^ 44 * 2 ^ 10 + prot % 2 ^ 10

pub pte2pa : ℕ → ℕ
pte2pa pte = pte / 2 ^ 10 % 2 ^ 44 * 2 ^ 12

-- SV39_PGT2SATP; the mode is 8 in the top four bits.
pub pgt2satp : ℕ → ℕ
pgt2satp pgt = pgt % 2 ^ 44 / 2 ^ 12 + 8 * 2 ^ 60

pub satp2pgt : ℕ → ℕ
satp2pgt satp = satp % 2 ^ 44 * 2 ^ 12
