-- ===== src/Volume.antt =====
-- disk/volume/ntfs.go: the boot record of an NTFS volume, the clusters of its $MFT, the selection of
-- the records that are decoded, and the blocks of clusters that are not allocated.
pub mod Process
pub mod Whole
use mftextractor.Base.{
  ℕ, zero, suc, ◌+◌, ◌-◌, ◌*◌, ◌/◌, ◌%◌, ◌^◌, Bool, true, false, not, ◌&&◌, Option, none, some,
  List, [], ◌∷◌, ◌++◌, ltb, leb, ◌==◌, if◌then◌else◌, length, get_elem?,
}
use mftextractor.Base.Int.{ℤ, pos, negsuc, ◌+ℤ◌, ◌*ℤ◌, ltb_ℤ, leb_ℤ, of_pattern}
use mftextractor.Go.Outcome.{Outcome, ok, panic, stuck, or_panic, ◌>>=◌}
use mftextractor.Go.Slice.{Slice, bytes, slice}
use mftextractor.Go.Text.{GoString, codes, str_eq}
use mftextractor.Utils.Unmarshal.{Kind, Value, unmarshal, nth_number, nth_raw}
use mftextractor.Attributes.Attribute.{as_bitmap}
use mftextractor.Attributes.Bitmap.{unallocated_clusters}
use mftextractor.Attributes.RunList.{Run, RunList}
use mftextractor.Disk.Reader.{DiskReader, int64}
use mftextractor.Data.{is_empty_run, get_run_list}
use mftextractor.Mft.Record.{Record, find_attribute}
use mftextractor.Mft.Table.{Records, record_size}

-- VBR
pub record Vbr : Type 0 where
  pub signature : List ℕ
  pub bytes_per_sector : ℕ
  pub sectors_per_cluster : ℕ
  pub total_sectors : ℕ
  pub mft_offset : ℕ
  pub mft_mirr_offset : ℕ

abbrev pub vbr_fields : List Kind
vbr_fields =
    Kind.array 3
    ∷ Kind.array 4
    ∷ Kind.array 4
    ∷ Kind.uint16
    ∷ Kind.uint8
    ∷ Kind.array 26
    ∷ Kind.uint64
    ∷ Kind.uint64
    ∷ Kind.uint64
    ∷ []

abbrev pub vbr_of : List Value → Vbr
vbr_of vs = record {
  signature = nth_raw vs 1;
  bytes_per_sector = nth_number vs 3;
  sectors_per_cluster = nth_number vs 4;
  total_sectors = nth_number vs 6;
  mft_offset = nth_number vs 7;
  mft_mirr_offset = nth_number vs 8;
}

-- VBR.Parse, which AddVolume calls.
unfoldable pub parse_vbr : Slice → Outcome Vbr
parse_vbr buf = do u ← unmarshal vbr_fields buf; ok (vbr_of u.values)

-- HasValidSignature
unfoldable pub has_valid_signature : Vbr → Bool
has_valid_signature v = str_eq v.signature (codes "NTFS")

-- The size of a cluster in bytes, which cannot overflow an int.
abbrev pub cluster_size : Vbr → ℕ
cluster_size v = v.sectors_per_cluster * v.bytes_per_sector

-- DetermineClusterOffsetLength: the clusters of $MFT, as an int.
unfoldable pub determine_cluster_offset_length : Records → Outcome ℤ
determine_cluster_offset_length rs = do
  r ← or_panic (get_elem? rs 0)
  a ← or_panic (find_attribute r (codes "DATA"))
  n ← or_panic a.header.non_resident
  ok (of_pattern (2 ^ 64) n.run_list_total_len_cl)

-- The loop of CollectMFTArea, at `offset` clusters.
unfoldable pub area_from : DiskReader → Vbr → ℤ → ℤ → RunList → List ℕ
area_from hd v start offset [] = []
area_from hd v start offset (r ∷ rs) =
    let o = int64 (offset +ℤ r.offset) in
    let n = int64 (of_pattern (2 ^ 64) r.length *ℤ pos (cluster_size v)) in
    let rest = area_from hd v start o rs in
    if is_empty_run r rs
    then []
    else hd.read_file (int64 (start +ℤ o *ℤ pos (cluster_size v))) n ++ rest

-- CollectMFTArea: the buffer cannot be made for a negative length.
unfoldable pub collect_mft_area : DiskReader → Vbr → Records → ℤ → ℤ → Outcome (List ℕ)
collect_mft_area hd v rs size start = do
  r ← or_panic (get_elem? rs 0)
  let area = do runs ← get_run_list rs r (codes "DATA"); ok (area_from hd v start (pos 0) runs)
  if ltb_ℤ (int64 (size *ℤ pos (cluster_size v))) (pos 0) then panic else area

abbrev pub eqb_ℤ : ℤ → ℤ → Bool
eqb_ℤ a b = leb_ℤ a b && leb_ℤ b a

-- math.MaxUint32, which means that no last entry is given; -1 means that no first one is.
abbrev pub no_last : ℤ
no_last = pos 4294967295

abbrev pub no_first : ℤ
no_first = negsuc 0

-- a - b
abbrev minus : ℤ → ℤ → ℤ
minus a b = a +ℤ negsuc 0 *ℤ b

-- The two tests of ProcessMFT, on the number of records less the first entry.
abbrev pub is_in_range : ℕ → ℤ → ℤ → Bool
is_in_range total first last =
    let left = if eqb_ℤ first no_first then pos total else minus (pos total) first in
    leb_ℤ first left && (if eqb_ℤ last no_last then true else leb_ℤ last left)

-- The loop over the selected entries, of which one may be there twice. `part` is the slice of the
-- record, which is taken where it is written.
unfoldable pub write_selected : List ℤ → ℤ → Outcome Slice → List ℕ → Outcome (List ℕ)
write_selected [] entry part buf = ok buf
write_selected (s ∷ ss) entry part buf =
    let skipped = write_selected ss entry part buf in
    let written = do p ← part; write_selected ss entry part (buf ++ bytes p)
    in if eqb_ℤ entry s then written else skipped

-- `if len(MFTSelectedEntries) == 0`
abbrev pub write_unselected : List ℤ → Outcome Slice → List ℕ → Outcome (List ℕ)
write_unselected [] part buf = do p ← part; ok (buf ++ bytes p)
write_unselected (s ∷ ss) part buf = ok buf

-- The loop of ProcessMFT at the byte `i`.
unfoldable pub select_from : ℕ → Slice → List ℤ → ℤ → ℤ → ℕ → List ℕ → Outcome (List ℕ)
select_from zero data_ selected first last i buf = stuck
select_from (suc fuel) data_ selected first last i buf =
    let entry = pos (i / record_size) in
    let part = slice data_ i (i + record_size) in
    let round = do
      chosen ← write_selected selected entry part buf
      let skipped = select_from fuel data_ selected first last (i + record_size) chosen
      let written = do
        all ← write_unselected selected part chosen
        let rest = select_from fuel data_ selected first last (i + record_size) all
        if length all == length selected * record_size then ok all else rest
      if ltb_ℤ entry first then skipped else written
    in if ltb i data_.len then (if ltb_ℤ last entry then ok buf else round) else ok buf

-- The part of ProcessMFT that selects the bytes of the records.
unfoldable pub select_mft : Slice → List ℤ → ℤ → ℤ → Outcome (List ℕ)
select_mft data_ selected first last =
    let selection = select_from (suc data_.len) data_ selected first last 0 [] in
    if is_in_range (data_.len / record_size) first last then selection else panic

-- One step of CollectUnallocated: the bytes of the block that ends before the cluster at `idx`. The
-- size of a cluster is taken in uint8 for the offset and in uint16 for the length.
abbrev pub read_block : DiskReader → Vbr → ℤ → ℕ → ℕ → List ℕ
read_block hd v start first_cluster block_size =
    hd.read_file
      (int64 (start +ℤ pos (first_cluster * (v.sectors_per_cluster * v.bytes_per_sector % 2 ^ 8))))
      (pos (block_size * cluster_size v % 2 ^ 16))

-- Its loop: the clusters behind the first one, the block that is open, and what the buffer holds. The
-- slices that were sent share the buffer's memory, and each is a longer beginning of it.
unfoldable pub blocks_from : DiskReader → Vbr → ℤ → ℕ → ℕ → ℕ → List ℕ → List ℕ → List (List ℕ)
blocks_from hd v start first_cluster prev block_size buf [] = []
blocks_from hd v start first_cluster prev block_size buf (c ∷ cs) =
    let buf' = buf ++ read_block hd v start first_cluster block_size in
    let same = blocks_from hd v start first_cluster c (block_size + 1) buf cs in
    let new = buf' ∷ blocks_from hd v start c c 1 buf' cs in if leb (c - prev) 1 then same else new

-- CollectUnallocated: the slices that are sent.
unfoldable pub collect_unallocated : DiskReader → Vbr → Records → ℤ → Outcome (List (List ℕ))
collect_unallocated hd v rs start = do
  r ← or_panic (get_elem? rs 0)
  a ← or_panic (find_attribute r (codes "BitMap"))
  bitmap ← or_panic (as_bitmap a.content)
  elim (unallocated_clusters bitmap) [
    | [] ↦ panic
    | c ∷ cs ↦ ok (blocks_from hd v start c c 1 [] cs)
  ]
