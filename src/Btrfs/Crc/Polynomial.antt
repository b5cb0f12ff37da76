-- ===== src/Btrfs/Crc/Polynomial.antt =====
-- The table is that of the polynomial of CRC-32C.
use mftextractor.Base.{
  ℕ, zero, suc, ◌+◌, ◌/◌, ◌%◌, ◌<◌, ◌≡◌, refl, ap, ◌∙◌, some, List, [], ◌∷◌, ◌==◌, if◌then◌else◌,
  get_elem?, bit_xor, arith,
}
use mftextractor.Btrfs.Crc.{crctable}
use native.Mathlib.Nat.{add-zero, suc-add, add-suc, zero-add}

-- The polynomial, its bits reversed.
abbrev castagnoli : ℕ
castagnoli = 0x82f63b78

abbrev divide_bit : ℕ → ℕ
divide_bit c = if c % 2 == 1 then bit_xor (c / 2) castagnoli else c / 2

-- The remainder of the division of the bits of c, of which there are n.
unfoldable pub remainder_of : ℕ → ℕ → ℕ
remainder_of zero c = c
remainder_of (suc n) c = remainder_of n (divide_bit c)

table_from : ℕ → ℕ → List ℕ
unfolding remainder_of
table_from start zero = []
table_from start (suc n) = remainder_of 8 start ∷ table_from (suc start) n

get_elem?-table_from :
    (start n i : ℕ) → i < n → get_elem? (table_from start n) i ≡ some (remainder_of 8 (start + i))
unfolding table_from
get_elem?-table_from start zero i h = absurd (omega arith)
get_elem?-table_from start (suc n) zero h = rw (add-zero start)
get_elem?-table_from start (suc n) (suc i) h =
    rw (get_elem?-table_from (suc start) n i (omega arith), suc-add start i, add-suc start i)

crctable-table_from : crctable ≡ table_from 0 256
unfolding table_from
crctable-table_from = refl

-- The entry i of the table of CalcCRC32, for every byte i, is the remainder of the eight bits of i in
-- the division by the polynomial of CRC-32C.
pub crctable-remainder_of : (i : ℕ) → i < 256 → get_elem? crctable i ≡ some (remainder_of 8 i)
crctable-remainder_of i h =
    ap (λ t. get_elem? t i) crctable-table_from
    ∙ get_elem?-table_from 0 256 i h
    ∙ ap (λ j. some (remainder_of 8 j)) (zero-add i)
