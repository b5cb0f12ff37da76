-- ===== src/Disk/Mbr.antt =====
-- disk/partition/MBR/mbr.go: the four entries of the partition table, and those of an extended one.
-- The bytes of a sector that ReadFile has returned.
pub mod Entries
use mftextractor.Base.{
  ℕ, zero, suc, ◌+◌, ◌*◌, ◌%◌, ◌^◌, Bool, true, false, Option, none, some, List, [], ◌∷◌, ◌++◌, ltb,
  ◌==◌, if◌then◌else◌, length, get_elem?, map, replicate,
}
use mftextractor.Go.Outcome.{Outcome, ok, stuck, or_panic, ◌>>=◌}
use mftextractor.Go.Slice.{Slice, slice, of_bytes}
use mftextractor.Go.Text.{GoString, codes, str_eq}
use mftextractor.Utils.Unmarshal.{Kind, Value, unmarshal, nth_number, nth_raw}

-- Partition, less its Volume.
pub record Partition : Type 0 where
  pub flag : ℕ
  pub start_chs : List ℕ
  pub type_ : ℕ
  pub end_chs : List ℕ
  pub start_lba : ℕ
  pub size : ℕ

abbrev pub partition_fields : List Kind
partition_fields =
    Kind.uint8
    ∷ Kind.array 3
    ∷ Kind.uint8
    ∷ Kind.array 3
    ∷ Kind.uint32
    ∷ Kind.uint32
    ∷ Kind.unhandled
    ∷ []

abbrev pub partition_of : List Value → Partition
partition_of vs = record {
  flag = nth_number vs 0;
  start_chs = nth_raw vs 1;
  type_ = nth_number vs 2;
  end_chs = nth_raw vs 3;
  start_lba = nth_number vs 4;
  size = nth_number vs 5;
}

-- ExtendedPartition: the pointer is to a partition that nothing else uses.
pub record ExtendedPartition : Type 0 where
  pub partition : Partition
  pub table_offset : ℕ

pub record Mbr : Type 0 where
  pub boot_code : List ℕ
  pub partitions : List Partition
  pub extended_partitions : List ExtendedPartition
  pub signature : List ℕ

abbrev pub mbr_fields : List Kind
mbr_fields = Kind.array 446 ∷ Kind.unhandled ∷ Kind.unhandled ∷ Kind.array 2 ∷ []

-- Partition.GetOffset, ExtendedPartition.GetOffset
abbrev pub get_offset : Partition → ℕ
get_offset p = p.start_lba

abbrev pub get_extended_offset : ExtendedPartition → ℕ
get_extended_offset e = (e.partition.start_lba + e.table_offset) % 2 ^ 64

-- PartitionTypes, GetPartitionType
unfoldable pub get_partition_type : Partition → GoString
get_partition_type p =
    if p.type_ == 0x07
    then codes "HPFS/NTFS/exFAT"
    else if p.type_ == 0x0c
    then codes "W95 FAT32 (LBA)"
    else if p.type_ == 0x0f
    then codes "Extended"
    else if p.type_ == 0x27
    then codes "Hidden NTFS Win"
    else []

-- The loop of LocatePartitions, at `pos`.
unfoldable pub locate_partitions_from : ℕ → Slice → ℕ → List Partition → Outcome (List Partition)
locate_partitions_from zero buf pos found = stuck
locate_partitions_from (suc fuel) buf pos found =
    let round = do
      part ← slice buf pos (pos + 16)
      u ← unmarshal partition_fields part
      locate_partitions_from fuel buf (pos + 16) (found ++ (partition_of u.values ∷ []))
    in if ltb pos buf.len then round else ok found

-- LocatePartitions
unfoldable pub locate_partitions : Slice → Outcome (List Partition)
locate_partitions buf = locate_partitions_from (suc buf.len) buf 0 []

-- MBR.Parse
unfoldable pub parse_mbr : Mbr → Slice → Outcome Mbr
parse_mbr m buf = do
  u ← unmarshal mbr_fields buf
  table ← slice buf 446 510
  ps ← locate_partitions table
  ok (record m { boot_code = nth_raw u.values 0; signature = nth_raw u.values 3; partitions = ps })

-- PopulatePseudoMBR
unfoldable pub populate_pseudo_mbr : Mbr → GoString → Outcome Mbr
populate_pseudo_mbr m voltype = do
  u ← unmarshal partition_fields (of_bytes (replicate 16 0))
  let p = partition_of u.values
  ok (record m {
    partitions = (if str_eq voltype (codes "NTFS") then record p { type_ = 0x07 } else p) ∷ [];
  })

-- DiscoverExtendedPartitions
unfoldable pub discover_extended_partitions : Mbr → Slice → ℕ → Outcome Mbr
discover_extended_partitions m buf offset = do
  table ← slice buf 446 510
  ps ← locate_partitions table
  ok (record m {
    extended_partitions = map (λ p. record { partition = p; table_offset = offset }) ps;
  })

-- GetExtendedPartitionOffset; none is the error.
unfoldable pub extended_offset_of : List Partition → Option ℕ
extended_offset_of [] = none
extended_offset_of (p ∷ ps) =
    let rest = extended_offset_of ps in if p.type_ == 0x0f then some (get_offset p) else rest

abbrev pub get_extended_partition_offset : Mbr → Option ℕ
get_extended_partition_offset m = extended_offset_of m.partitions

-- The loop of UpdateExtendedPartitionsOffsets.
unfoldable pub update_offsets : ℕ → List Partition → List Partition
update_offsets base [] = []
update_offsets base (p ∷ ps) =
    let rest = update_offsets base ps in
    if p.type_ == 0x0f
    then record p { start_lba = (p.start_lba + base) % 2 ^ 32 } ∷ rest
    else p ∷ rest

abbrev pub update_extended_partitions_offsets : ℕ → Mbr → Mbr
update_extended_partitions_offsets base m = record m {
  partitions = update_offsets base m.partitions;
}

-- IsProtective, GetPartition
unfoldable pub is_protective : Mbr → Outcome Bool
is_protective m = do p ← or_panic (get_elem? m.partitions 0); ok (p.type_ == 0xee)

abbrev pub get_partition : Mbr → ℕ → Outcome Partition
get_partition m i = or_panic (get_elem? m.partitions i)
