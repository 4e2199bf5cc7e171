-- ===== src/Sv39/Fields.antt =====
-- The fields of an entry, of the register and of a virtual address can be read back.
use aco_os.Base.{ℕ, ◌/◌, ◌%◌, ◌^◌, ◌<◌, ◌≡◌, true, arith}
use aco_os.Sv39.{
  pte_valid, pte_readable, pte_writeable, pte_excutable, pte_nextpgt, index2id, pa2pte, pte2pa,
  pgt2satp, satp2pgt,
}

-- An entry made from the address of a page below 2^56 and ten bits of flags gives both back, and fits
-- into 54 bits.
pub pte2pa-pa2pte :
    (pa prot : ℕ)
    → pa % 2 ^ 12 ≡ 0
    → pa < 2 ^ 56
    → prot < 2 ^ 10
    → (pte2pa (pa2pte pa prot) ≡ pa) × (pa2pte pa prot % 2 ^ 10 ≡ prot) × (pa2pte pa prot < 2 ^ 54)
unfolding pte2pa pa2pte
pte2pa-pa2pte pa prot aligned small flags = omega arith

-- An entry made with the flag VM_PROT_V alone points to a table; and on an entry made from ten bits of
-- flags, PTE_VALID and PTE_NEXTPGT say what they say of the flags.
pub pte_nextpgt-pa2pte :
    (pa prot : ℕ)
    → prot < 2 ^ 10
    → (pte_nextpgt (pa2pte pa 1) ≡ true)
      × (pte_valid (pa2pte pa prot) ≡ pte_valid prot)
      × (pte_nextpgt (pa2pte pa prot) ≡ pte_nextpgt prot)
unfolding pte_nextpgt pte_valid pte_readable pte_writeable pte_excutable pa2pte
pte_nextpgt-pa2pte pa prot flags = ground arith

-- The register made from a table's page below 2^44 gives the table back, and has mode 8.
pub satp2pgt-pgt2satp :
    (pgt : ℕ)
    → pgt % 2 ^ 12 ≡ 0
    → pgt < 2 ^ 44
    → (satp2pgt (pgt2satp pgt) ≡ pgt) × (pgt2satp pgt / 2 ^ 60 ≡ 8)
unfolding satp2pgt pgt2satp
satp2pgt-pgt2satp pgt aligned small = omega arith

-- The three indices of an address are below 512, and with the offset they determine an address below 2^39.
pub index2id_unique :
    (va vb : ℕ)
    → va < 2 ^ 39
    → vb < 2 ^ 39
    → index2id va 0 ≡ index2id vb 0
    → index2id va 1 ≡ index2id vb 1
    → index2id va 2 ≡ index2id vb 2
    → va % 2 ^ 12 ≡ vb % 2 ^ 12
    → va ≡ vb
unfolding index2id
index2id_unique va vb ha hb e₀ e₁ e₂ e = omega arith
