-- ===== src/Attributes/Bitmap.antt =====
-- FS/NTFS/MFT/attributes/bitmap.go: the clusters that a bitmap shows as free.
pub mod Free
use mftextractor.Base.{
  ℕ, zero, suc, ◌+◌, ◌*◌, ◌%◌, ◌^◌, bit_and, List, [], ◌∷◌, ◌++◌, ltb, ◌==◌, if◌then◌else◌,
}

-- `for bitmask < 128`: one round tests the bit `shifter`, with the uint8 mask that it sets first.
-- The state is the last mask, the shift, the position and the clusters found.
unfoldable pub scan_byte : ℕ → ℕ → ℕ → ℕ → ℕ → List ℕ → ℕ × List ℕ
scan_byte zero byteval bitmask shifter pos found = (pos, found)
scan_byte (suc fuel) byteval bitmask shifter pos found =
    let mask = 2 ^ shifter % 2 ^ 8 in
    let found' = if bit_and byteval mask == 0x00 then found ++ (pos ∷ []) else found in
    let rest = scan_byte fuel byteval mask (shifter + 1) (pos + 1) found' in
    if ltb bitmask 128 then rest else (pos, found)

-- The outer loop. Nine rounds are enough for a byte: the eighth sets the mask to 128.
unfoldable pub scan_bytes : List ℕ → ℕ → List ℕ → ℕ × List ℕ
scan_bytes [] pos found = (pos, found)
scan_bytes (byteval ∷ bs) pos found =
    let (pos', found') = scan_byte 9 byteval 0x01 0 pos found in scan_bytes bs pos' found'

-- BitMap.GetUnallocatedClusters: positions count from one.
unfoldable pub unallocated_clusters : List ℕ → List ℕ
unfolding scan_bytes scan_byte
unallocated_clusters status = (scan_bytes status 1 []).1
