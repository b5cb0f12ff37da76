-- ===== src/Attributes/Bitmap/Free.antt =====
-- GetUnallocatedClusters against the bits of the bitmap.
use mftextractor.Base.{
  ℕ, zero, suc, ◌+◌, ◌/◌, ◌%◌, ◌^◌, ◌≡◌, refl, ◌∙◌, List, [], ◌∷◌, ◌++◌, bit_and, ◌==◌, ltb, Bool,
  true, false, not, ◌<◌, if◌then◌else◌, arith, All,
}
use mathlib.Core.List.{append-nil, append_assoc}
use native.Mathlib.Nat.{add-zero}
use mftextractor.Utils.Endian.Laws.{holds_under, at_each}
use mftextractor.Attributes.Bitmap.{scan_byte, scan_bytes, unallocated_clusters}

xnor : Bool → Bool → Bool
xnor true c = c
xnor false c = not c

-- Bit `i` of a number.
abbrev pub bit : ℕ → ℕ → ℕ
bit b i = b / 2 ^ i % 2

-- The positions, from `pos` on, of the zero bits among the `left` bits from `i` on.
unfoldable pub free_bits : ℕ → ℕ → ℕ → ℕ → List ℕ
free_bits zero b i pos = []
free_bits (suc left) b i pos =
    let rest = free_bits left b (i + 1) (pos + 1) in if bit b i == 0 then pos ∷ rest else rest

-- The same for the eight bits of each byte.
unfoldable pub free_positions : List ℕ → ℕ → List ℕ
free_positions [] pos = []
free_positions (b ∷ bs) pos = free_bits 8 b 0 pos ++ free_positions bs (pos + 8)

-- The mask of a bit tells whether the bit is zero.
abbrev mask_tells : ℕ → ℕ → Bool
mask_tells b i = xnor (bit_and b (2 ^ i % 2 ^ 8) == 0) (bit b i == 0)

mask_table : holds_under (λ b. holds_under (mask_tells b) 8) 256 ≡ true
unfolding holds_under xnor
mask_table = refl

xnor-eq : (b c : Bool) → xnor b c ≡ true → b ≡ c
unfolding xnor
xnor-eq true c h = ground arith
xnor-eq false c h = ground arith

mask_bit : (b i : ℕ) → b < 256 → i < 8 → (bit_and b (2 ^ i % 2 ^ 8) == 0) ≡ (bit b i == 0)
mask_bit b i h k =
    xnor-eq _ _ (
      at_each (mask_tells b) 8 i k (at_each (λ x. holds_under (mask_tells x) 8) 256 b h mask_table))

-- The loop goes on as long as a bit is left.
mask_goes_on : (i : ℕ) → i < 8 → ltb (2 ^ i % 2 ^ 8) 128 ≡ ltb i 7
unfolding holds_under xnor
mask_goes_on i h = xnor-eq _ _ (at_each (λ k. xnor (ltb (2 ^ k % 2 ^ 8) 128) (ltb k 7)) 8 i h refl)

scan_byte-eq :
    (left i b mask pos : ℕ) (found : List ℕ)
    → b < 256
    → i + left ≡ 8
    → ltb mask 128 ≡ ltb 0 left
    → scan_byte (suc left) b mask i pos found ≡ (pos + left, found ++ free_bits left b i pos)
unfolding scan_byte free_bits
scan_byte-eq zero i b mask pos found h e m = rw (m, add-zero, append-nil)
scan_byte-eq (suc left) i b mask pos found h e m =
    let next : ltb (2 ^ i % 2 ^ 8) 128 ≡ ltb 0 left = mask_goes_on i (omega arith) ∙ ground arith in
    rw
      (
        m,
        scan_byte-eq left (i + 1) b (2 ^ i % 2 ^ 8) (pos + 1) _ h (omega arith) next,
        mask_bit b i h (omega arith),
      )
      (ground (arith, append_assoc found (pos ∷ []) (free_bits left b (i + 1) (pos + 1))))

scan_bytes-eq :
    (bs : List ℕ) (pos : ℕ) (found : List ℕ)
    → All (λ b. b < 256) bs
    → (scan_bytes bs pos found).1 ≡ found ++ free_positions bs pos
unfolding scan_bytes free_positions
scan_bytes-eq [] pos found h = rw append-nil
scan_bytes-eq (b ∷ bs) pos found (h, hs) =
    scan_bytes-eq bs (scan_byte 9 b 0x01 0 pos found).0 (scan_byte 9 b 0x01 0 pos found).1 hs
    ∙ rw (scan_byte-eq 8 0 b 0x01 pos found h refl refl)
        (append_assoc found (free_bits 8 b 0 pos) (free_positions bs (pos + 8)))

-- On every bitmap of bytes GetUnallocatedClusters returns, in ascending order, the positions of the
-- zero bits, bit i of byte j having the position 8 * j + i + 1.
pub unallocated_clusters-free :
    (status : List ℕ)
    → All (λ b. b < 256) status
    → unallocated_clusters status ≡ free_positions status 1
unfolding unallocated_clusters
unallocated_clusters-free status h = scan_bytes-eq status 1 [] h
