-- ===== src/Utils/Endian.antt =====
-- utils/utils.go: integers from little-endian byte slices.
pub mod Laws
use mftextractor.Base.{
  ℕ, zero, suc, ◌+◌, ◌-◌, ◌*◌, ◌%◌, ◌^◌, ◌<◌, bit_and, Bool, List, [], ◌∷◌, ◌++◌, ltb, leb, ◌==◌,
  if◌then◌else◌, length, take, drop, replicate,
}
use mftextractor.Base.Int.{ℤ, of_pattern}

abbrev pub IsByte : ℕ → Type 0
IsByte b = b < 256

-- binary.LittleEndian on all the bytes given.
unfoldable pub little_endian : List ℕ → ℕ
little_endian [] = 0
little_endian (b ∷ bs) = b + 256 * little_endian bs

-- ToUint32. With fewer than four bytes `binary.Read` leaves the variable at zero.
unfoldable pub to_uint32 : List ℕ → ℕ
to_uint32 bs = if ltb (length bs) 4 then 0 else little_endian (take 4 bs)

-- The loop of ReadEndianUInt, from `index` on.
unfoldable pub read_endian_uint_from : ℕ → ℕ → List ℕ → ℕ
read_endian_uint_from index sum [] = sum
read_endian_uint_from index sum (val ∷ vals) =
    read_endian_uint_from (suc index) ((sum + val * 2 ^ (index * 8) % 2 ^ 64) % 2 ^ 64) vals

-- ReadEndianUInt
unfoldable pub read_endian_uint : List ℕ → ℕ
unfolding read_endian_uint_from
read_endian_uint = read_endian_uint_from 0 0

-- barray[len(barray)-1] & 0x80 != 0, and false for an empty slice.
unfoldable pub is_negative : List ℕ → Bool
is_negative [] = ltb 0 0
is_negative (b ∷ []) = ltb 0 (bit_and b 0x80)
is_negative (b ∷ c ∷ bs) = is_negative (c ∷ bs)

-- copy(buf, src) for a buffer of the bytes `buf`.
abbrev pub copied : List ℕ → List ℕ → List ℕ
copied buf src = take (length buf) src ++ drop (length src) buf

-- ReadEndianInt: at most four bytes, extended by their sign, read as an int32.
unfoldable pub read_endian_int : List ℕ → ℤ
unfolding is_negative little_endian
read_endian_int bs =
    let buf = if is_negative bs then replicate 4 0xff else replicate 4 0x00 in
    of_pattern (2 ^ 32) (little_endian (copied buf bs))
