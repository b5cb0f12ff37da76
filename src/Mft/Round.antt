-- ===== src/Mft/Round.antt =====
-- FS/NTFS/MFT/MFT.go, Record.Process: one attribute, resident or not, is decoded.
use mftextractor.Base.{
  ℕ, ◌+◌, ◌*◌, ◌%◌, ◌^◌, Bool, true, false, ◌||◌, Option, none, some, List, [], ◌∷◌, ◌++◌, ltb,
  if◌then◌else◌,
}
use mftextractor.Go.Outcome.{Outcome, ok, ◌>>=◌}
use mftextractor.Go.Slice.{Slice, bytes, slice, slice_from}
use mftextractor.Go.Text.{GoString, codes, str_eq}
use mftextractor.Utils.Bytes.{decode_utf16}
use mftextractor.Utils.Unmarshal.{unmarshal}
use mftextractor.Attributes.Header.{
  AttributeHeader, parse_resident, NonResidentRecord, non_resident_fields, non_resident_of, is_type,
}
use mftextractor.Attributes.RunList.{process}
use mftextractor.Attributes.Fields.{parse_fn, parse_si, parse_object_id, parse_volume_info}
use mftextractor.Attributes.Fields.Extended.{
  Reparse, reparse_of, parse_reparse, parse_ea_information, parse_extended, parse_logged_utility,
}
use mftextractor.Attributes.Index.{parse_index_root, new_index_allocation}
use mftextractor.Attributes.AttrList.{AttributeList, entry_type, parse_list}
use mftextractor.Attributes.Attribute.{Attribute, Content}
use mftextractor.Mft.Record.{LinkedRecordInfo}

-- The loop over the entries of an attribute list that are of the type DATA.
unfoldable pub linked_infos : List AttributeList → List LinkedRecordInfo → List LinkedRecordInfo
unfolding entry_type str_eq
linked_infos [] found = found
linked_infos (e ∷ es) found = linked_infos es (
    if str_eq (entry_type e) (codes "DATA")
    then found
      ++ (record { ref_entry = e.par_ref % 2 ^ 32; ref_seq = e.par_seq; start_vcn = e.start_vcn }
          ∷ [])
    else found)

-- What the loop has collected.
pub record Collected : Type 0 where
  pub attributes : List Attribute
  pub linked : List LinkedRecordInfo
  pub bitmap : Bool

-- The chain of tests on a resident attribute; none is an unknown one. `part` is the content.
unfoldable pub resident_content :
    AttributeHeader → GoString → Outcome Slice → Outcome (Option Content)
resident_content h name part =
    if is_type (codes "FileName") h
    then (do s ← part; c ← parse_fn s; ok (some (Content.file_name c)))
    else if is_type (codes "Reparse Point") h
    then (do s ← part; c ← parse_reparse s; ok (some (Content.reparse c)))
    else if is_type (codes "DATA") h
    then (do s ← part; ok (some (Content.data_ (bytes s))))
    else if is_type (codes "Object ID") h
    then (do s ← part; c ← parse_object_id s; ok (some (Content.object_id c)))
    else if is_type (codes "Attribute List") h
    then (do s ← part; c ← parse_list s; ok (some (Content.attr_list c)))
    else if is_type (codes "BitMap") h
    then (do s ← part; ok (some (Content.bitmap (bytes s))))
    else if is_type (codes "Volume Name") h
    then (do s ← part; ok (some (Content.volume_name (bytes s))))
    else if is_type (codes "Volume Information") h
    then (do s ← part; c ← parse_volume_info s; ok (some (Content.volume_info c)))
    else if is_type (codes "Index Root") h
    then (do s ← part; c ← parse_index_root s; ok (some (Content.index_root c)))
    else if is_type (codes "Standard Information") h
    then (do s ← part; c ← parse_si s; ok (some (Content.std_info c)))
    else if is_type (codes "Logged Utility Stream") h
    then (do s ← part; c ← parse_logged_utility name s; ok (some (Content.logged_utility name c)))
    else if is_type (codes "Extended Attribute") h
    then (do s ← part; c ← parse_extended s; ok (some (Content.extended c)))
    else if is_type (codes "Extended Attribute Information") h
    then (do s ← part; c ← parse_ea_information s; ok (some (Content.ea_information c)))
    else ok none

-- An attribute list adds its entries of the type DATA, a bitmap sets the record's flag.
abbrev pub linked_by : Content → List LinkedRecordInfo → List LinkedRecordInfo
linked_by (Content.attr_list es) found = linked_infos es found
linked_by _ found = found

abbrev pub is_bitmap : Content → Bool
is_bitmap (Content.bitmap b) = true
is_bitmap _ = false

-- `if attr != nil` at the end of a round.
abbrev pub collect : Collected → AttributeHeader → Option Content → Collected
collect c h none = c
collect c h (some x) = record {
  attributes = c.attributes ++ (record { header = h; content = x } ∷ []);
  linked = linked_by x c.linked;
  bitmap = c.bitmap || is_bitmap x;
}

-- The branch for a resident attribute whose header stands at `ptr`.
unfoldable pub resident_round : Slice → ℕ → AttributeHeader → Collected → Outcome Collected
resident_round bs ptr h c = do
  behind ← slice_from bs ((ptr + 16) % 2 ^ 16)
  r ← parse_resident behind
  n ← slice bs ((ptr + h.name_off) % 2 ^ 16) ((ptr + h.name_off + 2 * h.nlen) % 2 ^ 16)
  let res = record r { name = decode_utf16 (bytes n) }
  let h' = record h { resident = some res }
  let start = (ptr + res.offset_content) % 2 ^ 16
  x ← resident_content h' res.name (slice bs start ((start + res.content_size) % 2 ^ 32))
  ok (collect c h' x)

-- new(Reparse)
abbrev new_reparse : Reparse
new_reparse = reparse_of []

-- The chain of tests on a non-resident attribute; its content is not parsed here.
unfoldable pub non_resident_content : AttributeHeader → Option Content
non_resident_content h =
    if is_type (codes "DATA") h
    then some (Content.data_ [])
    else if is_type (codes "Index Allocation") h
    then some (Content.index_allocation new_index_allocation)
    else if is_type (codes "BitMap") h
    then some (Content.bitmap [])
    else if is_type (codes "Attribute List") h
    then some (Content.attr_list [])
    else if is_type (codes "Reparse Point") h
    then some (Content.reparse new_reparse)
    else none

-- The run list, if the test on the sum of the offsets, a uint16, lets it be read.
unfoldable pub with_run_list :
    Slice → ℕ → AttributeHeader → NonResidentRecord → Outcome NonResidentRecord
with_run_list bs ptr h n =
    let filled = do
      s ← slice bs ((ptr + n.run_off) % 2 ^ 16) ((ptr + h.attr_len) % 2 ^ 16)
      (runs, total) ← process s
      ok (record n { run_list = some runs; run_list_total_len_cl = total })
    in if ltb ((ptr + n.run_off + h.attr_len) % 2 ^ 16) bs.len then filled else ok n

-- The branch for a non-resident attribute.
unfoldable pub non_resident_round : Slice → ℕ → AttributeHeader → Collected → Outcome Collected
non_resident_round bs ptr h c = do
  s ← slice bs ((ptr + 16) % 2 ^ 16) ((ptr + 64) % 2 ^ 16)
  u ← unmarshal non_resident_fields s
  n ← with_run_list bs ptr h (non_resident_of u.values)
  let h' = record h { non_resident = some n }
  ok (collect c h' (non_resident_content h'))
