-- ===== src/Mft/Process.antt =====
-- FS/NTFS/MFT/MFT.go, Record.Process: a record of 1024 bytes is decoded with its attributes.
pub mod Links
pub mod Ends
use mftextractor.Base.{ℕ, zero, suc, ◌+◌, ◌%◌, ◌^◌, not, Option, none, some, [], ltb, if◌then◌else◌}
use mftextractor.Go.Outcome.{Outcome, ok, stuck, or_panic, ◌>>=◌}
use mftextractor.Go.Slice.{Slice, bytes, slice}
use mftextractor.Go.Text.{codes, str_eq}
use mftextractor.Utils.Bytes.{hexify}
use mftextractor.Utils.Unmarshal.{unmarshal}
use mftextractor.Attributes.Header.{
  AttributeHeader, header_fields, header_of, type_name, is_type, is_no_n_resident,
}
use mftextractor.Mft.Record.{Record, record_fields, record_of}
use mftextractor.Mft.FixUps.{process_fix_up_arrays, fix_first_sector}
use mftextractor.Mft.Round.{Collected, resident_round, non_resident_round}

-- The header at `ptr`; none at the end of the attributes.
unfoldable pub read_header : Slice → ℕ → Outcome (Option AttributeHeader)
read_header bs ptr = do
  mark ← slice bs ptr (ptr + 4)
  let header = do
    s ← slice bs ptr (ptr + 16)
    u ← unmarshal header_fields s
    let h = header_of u.values
    if is_type (codes "Last") h then ok none else ok (some h)
  if str_eq (hexify (bytes mark)) (codes "ffffffff") then ok none else header

unfoldable pub attribute_round : Slice → ℕ → AttributeHeader → Collected → Outcome Collected
attribute_round bs ptr h c =
    if not (is_no_n_resident h) then resident_round bs ptr h c else non_resident_round bs ptr h c

-- The loop over the attributes, at ReadPtr, a uint16. Where it ends, ReadPtr takes no value twice
-- and stays below 1024.
unfoldable pub attributes_from : ℕ → Slice → ℕ → Collected → Outcome Collected
attributes_from zero bs ptr c = stuck
attributes_from (suc fuel) bs ptr c =
    let round = do
      o ← read_header bs ptr
      elim o [
        | none ↦ ok c
        | some h ↦ (do
          c' ← attribute_round bs ptr h c
          attributes_from fuel bs ((ptr + h.attr_len) % 2 ^ 16) c')
      ]
    in if ltb ptr 1024 then round else ok c

pub data Error : Type 0 where
  corrupt invalid_signature : Error

-- What Process leaves: the record, the bytes of the buffer and the error.
pub record Processed : Type 0 where
  pub result : Record
  pub buffer : Slice
  pub error : Option Error

-- The part of Process behind the checks of the signature. The array that the record keeps is a part
-- of the buffer, so it is seen as the repair leaves it.
unfoldable pub process_checked : Slice → Record → Outcome Processed
process_checked bs r0 = do
  r1 ← process_fix_up_arrays bs r0
  fix ← or_panic r1.fix_up
  bs' ← fix_first_sector fix bs
  c ←
      attributes_from 1025 bs' r1.attr_off
        (record { attributes = []; linked = []; bitmap = r1.bitmap })
  r2 ← process_fix_up_arrays bs' r1
  ok (record {
    result = record r2 {
      i30_size = 0;
      attributes = c.attributes;
      linked_records_info = c.linked;
      bitmap = c.bitmap;
    };
    buffer = bs';
    error = none;
  })

-- Record.Process, on a receiver that may hold an earlier record.
unfoldable pub process_record : Slice → Record → Outcome Processed
process_record bs r = do
  u ← unmarshal record_fields bs
  let r0 = record_of r u.values
  if str_eq r0.signature (codes "BAAD")
      then ok (record { result = r0; buffer = bs; error = some corrupt })
      else if not (str_eq r0.signature (codes "FILE"))
      then ok (record { result = r0; buffer = bs; error = some invalid_signature })
      else process_checked bs r0
