-- ===== src/Mft/FixUps.antt =====
-- FS/NTFS/MFT/MFT.go: the update sequence array of a record, and the repair of its first sector.
pub mod Sector
use mftextractor.Base.{
  ℕ, zero, suc, ◌+◌, ◌*◌, ◌%◌, ◌^◌, Bool, false, Option, none, some, List, [], ◌∷◌, ◌++◌, ltb, ◌==◌,
  if◌then◌else◌,
}
use mftextractor.Go.Outcome.{Outcome, ok, stuck, or_panic, ◌>>=◌}
use mftextractor.Go.Slice.{Slice, bytes, slice, index, store}
use mftextractor.Base.{get_elem?}
use mftextractor.Mft.Record.{Record, FixUp}

-- The loop of ProcessFixUpArrays over the pairs of bytes behind the signature.
unfoldable pub fix_up_values : ℕ → Slice → ℕ → List (List ℕ) → Outcome (List (List ℕ))
fix_up_values zero s val found = stuck
fix_up_values (suc fuel) s val found =
    let round = do
      v ← slice s val (val + 2)
      fix_up_values fuel s (val + 2) (found ++ (bytes v ∷ []))
    in if ltb val s.len then round else ok found

-- An array of an earlier record stands in another part of the memory.
abbrev elsewhere : Option FixUp → Option FixUp
elsewhere none = none
elsewhere (some fix) = some (record fix { place = none })

-- ProcessFixUpArrays. With too little data the record keeps the array that it had.
unfoldable pub process_fix_up_arrays : Slice → Record → Outcome Record
unfolding fix_up_values
process_fix_up_arrays buf r =
    let twice = 2 * r.update_fix_up_arr_size % 2 ^ 16 in
    let filled = do
      s ← slice buf r.update_fix_up_arr_offset ((r.update_fix_up_arr_offset + twice) % 2 ^ 16)
      values ← fix_up_values (suc s.len) s 2 []
      sig ← slice s 0 2
      ok (record r {
        fix_up = some (record {
          signature = bytes sig;
          original_values = values;
          place = some r.update_fix_up_arr_offset;
        });
      })
    in if ltb buf.len twice then ok (record r { fix_up = elsewhere r.fix_up }) else filled

abbrev byte_at : List ℕ → ℕ → Outcome ℕ
byte_at bs i = or_panic (get_elem? bs i)

abbrev pub is_at : ℕ → Option ℕ → Bool
is_at n none = false
is_at n (some place) = place == n

-- The check at the end of the first sector: if the signature stands there, the two bytes that the
-- array has for it are put back. The array is a part of the buffer: where its first pair stands at 509, the
-- second store reads the byte that the first one has written.
unfoldable pub fix_first_sector : FixUp → Slice → Outcome Slice
fix_first_sector fix bs = do
  s0 ← byte_at fix.signature 0
  b0 ← index bs 510
  let restored = do
    first ← or_panic (get_elem? fix.original_values 0)
    v0 ← byte_at first 0
    bs' ← store bs 510 v0
    v1 ← (let read = byte_at first 1 in if is_at 507 fix.place then ok v0 else read)
    store bs' 511 v1
  let second = do
    s1 ← byte_at fix.signature 1
    b1 ← index bs 511
    if s1 == b1 then restored else ok bs
  if s0 == b0 then second else ok bs
