-- ===== src/Mft/NonResident.antt =====
-- FS/NTFS/MFT/MFT.go and Table.go: the attributes whose content stands in clusters of their own, the
-- content of files left out, are read and decoded.
pub mod Kept
use mftextractor.Base.{
  ℕ, ◌-◌, ◌^◌, Bool, not, ◌&&◌, none, some, List, [], ◌∷◌, ◌++◌, if◌then◌else◌, length, replicate,
}
use mftextractor.Base.Int.{ℤ, pos, negsuc, pos_part, ◌+ℤ◌, ◌*ℤ◌, ltb_ℤ, leb_ℤ, of_pattern}
use mftextractor.Go.Outcome.{Outcome, ok, panic, or_panic, ◌>>=◌}
use mftextractor.Go.Slice.{Slice, bytes}
use mftextractor.Go.Text.{codes, str_eq}
use mftextractor.Attributes.Header.{NonResidentRecord}
use mftextractor.Attributes.RunList.{RunList}
use mftextractor.Attributes.Fields.{parse_fn, parse_si, parse_object_id, parse_volume_info}
use mftextractor.Attributes.Fields.Extended.{
  parse_reparse, parse_ea_information, parse_extended, parse_logged_utility,
}
use mftextractor.Attributes.Index.{parse_index_root, parse_index_allocation}
use mftextractor.Attributes.AttrList.{parse_list}
use mftextractor.Attributes.Attribute.{Attribute, Content, find_type, is_non_resident}
use mftextractor.Data.{is_empty_run, is_zero_ℤ}
use mftextractor.Disk.Reader.{DiskReader, int64}
use mftextractor.Mft.Record.{Record}
use mftextractor.Mft.Table.{Records}

-- attribute.Parse, of the implementation behind the interface; an attribute list appends.
unfoldable pub parse_non_resident : Content → Slice → Outcome Content
parse_non_resident (Content.file_name x) s = do c ← parse_fn s; ok (Content.file_name c)
parse_non_resident (Content.reparse x) s = do c ← parse_reparse s; ok (Content.reparse c)
parse_non_resident (Content.data_ x) s = ok (Content.data_ (bytes s))
parse_non_resident (Content.object_id x) s = do c ← parse_object_id s; ok (Content.object_id c)
parse_non_resident (Content.attr_list es) s = do c ← parse_list s; ok (Content.attr_list (es ++ c))
parse_non_resident (Content.bitmap x) s = ok (Content.bitmap (bytes s))
parse_non_resident (Content.volume_name x) s = ok (Content.volume_name (bytes s))
parse_non_resident (Content.volume_info x) s = do
  c ← parse_volume_info s
  ok (Content.volume_info c)
parse_non_resident (Content.index_root x) s = do c ← parse_index_root s; ok (Content.index_root c)
parse_non_resident (Content.index_allocation a) s = do
  c ← parse_index_allocation a s
  ok (Content.index_allocation c)
parse_non_resident (Content.std_info x) s = do c ← parse_si s; ok (Content.std_info c)
parse_non_resident (Content.logged_utility name x) s = do
  c ← parse_logged_utility name s
  ok (Content.logged_utility name c)
parse_non_resident (Content.extended x) s = do c ← parse_extended s; ok (Content.extended c)
parse_non_resident (Content.ea_information x) s = do
  c ← parse_ea_information s
  ok (Content.ea_information c)

-- The disk, the start of the partition and the size of a cluster, all in bytes.
module _ (hd : DiskReader) (start cluster : ℤ) where
  -- offset*int64(clusterSizeB) >= diskSizeB-partitionOffsetB
  abbrev pub is_outside : ℤ → Bool
  is_outside offset = leb_ℤ (int64 (hd.disk_size +ℤ negsuc 0 *ℤ start)) (int64 (offset *ℤ cluster))

  -- The loop over the runs, at `offset` clusters: what it writes to the buffer.
  unfoldable pub cluster_bytes : ℤ → RunList → List ℕ
  cluster_bytes offset [] = []
  cluster_bytes offset (r ∷ rs) =
      let o = int64 (offset +ℤ r.offset) in
      let n = int64 (of_pattern (2 ^ 64) r.length *ℤ cluster) in
      let rest = cluster_bytes o rs in
      if is_empty_run r rs
      then []
      else if is_outside o
      then []
      else hd.read_file (int64 (start +ℤ int64 (o *ℤ cluster))) n ++ rest

  -- buf.Bytes()[:actualLen] of the buffer that Grow has given `size` bytes, of zeros, and that may
  -- hold fewer: what the slice has behind them is zero.
  unfoldable pub front_of : List ℕ → ℤ → ℤ → Outcome Slice
  front_of bs size actual =
      let s : Slice = record {
        cells = bs ++ replicate (pos_part size - length bs) 0;
        len = pos_part actual;
      } in
      if ltb_ℤ actual (pos 0) then panic else ok s

  -- The part of the round that follows the test that there is a run list.
  unfoldable pub read_content : Content → NonResidentRecord → RunList → Outcome Content
  unfolding cluster_bytes front_of parse_non_resident
  read_content c n runs =
      let size = int64 (of_pattern (2 ^ 64) n.run_list_total_len_cl *ℤ cluster) in
      let actual = of_pattern (2 ^ 64) n.actual_length in
      let parsed = do s ← front_of (cluster_bytes (pos 0) runs) size actual; parse_non_resident c s
      in if is_zero_ℤ size
        then ok c
        else if ltb_ℤ size (pos 0)
        then panic
        else if ltb_ℤ size actual
        then ok c
        else parsed

  -- One round of the loop of ProcessNoNResidentAttributes.
  unfoldable pub process_attribute : Attribute → Outcome Attribute
  unfolding read_content
  process_attribute a = do
    n ← or_panic a.header.non_resident
    elim n.run_list [
      | none ↦ ok a
      | some runs ↦ (do c ← read_content a.content n runs; ok (record a { content = c }))
    ]

  -- The attributes that FilterOutNonResidentAttributes("DATA") gives are changed in place.
  unfoldable pub process_attributes : List Attribute → Outcome (List Attribute)
  unfolding process_attribute
  process_attributes [] = ok []
  process_attributes (a ∷ as_) = do
    b ←
        (let new = process_attribute a in
          if is_non_resident a && not (str_eq (find_type a) (codes "DATA")) then new else ok a)
    bs ← process_attributes as_
    ok (b ∷ bs)

  -- Record.ProcessNoNResidentAttributes
  unfoldable pub process_non_resident_attributes : Record → Outcome Record
  unfolding process_attributes
  process_non_resident_attributes r = do
    as_ ← process_attributes r.attributes
    ok (record r { attributes = as_ })

  -- MFTTable.ProcessNonResidentRecords
  unfoldable pub process_non_resident_records : Records → Outcome Records
  unfolding process_non_resident_attributes
  process_non_resident_records [] = ok []
  process_non_resident_records (r ∷ rs) = do
    r' ← process_non_resident_attributes r
    rs' ← process_non_resident_records rs
    ok (r' ∷ rs')
