-- ===== src/Disk/Partitions.antt =====
-- disk/volume/volume.go and the LocateVolume methods of disk/partition: the volumes and partitions
-- behind the two interfaces.
use mftextractor.Base.{
  ℕ, ◌+◌, ◌*◌, ◌%◌, ◌^◌, Bool, true, false, ◌||◌, Option, none, some, List, [], ◌∷◌, ◌++◌, ◌==◌,
  if◌then◌else◌, drop,
}
use mftextractor.Base.Int.{ℤ, pos, of_pattern}
use mftextractor.Go.Outcome.{Outcome, ok, panic, ◌>>=◌}
use mftextractor.Go.Slice.{of_bytes, bytes, slice}
use mftextractor.Go.Text.{GoString, codes, str_eq}
use mftextractor.Utils.Bytes.{hexify, bytereverse}
use mftextractor.Utils.Unmarshal.{Kind, Value, unmarshal, nth_number}
use mftextractor.Attributes.Fields.{FnAttribute}
use mftextractor.Attributes.Index.{IndexEntry}
use mftextractor.Disk.Reader.{DiskReader}
use mftextractor.Disk.Mbr.{Partition, ExtendedPartition, get_offset, get_extended_offset}
use mftextractor.Disk.Gpt.{GptPartition, get_partition_type, get_gpt_offset}
use mftextractor.Lvm.{
  Lvm2, process_header, process_lvm2, lvm2_bytes_per_sector, lvm2_sectors_per_cluster,
  lvm2_signature,
}
use mftextractor.Volume.{Vbr, parse_vbr, has_valid_signature, collect_unallocated}
use mftextractor.Volume.Process.{MftTable, process_ntfs}

-- The implementations of Volume; the table of an NTFS volume is nil before Process.
pub data Volume : Type 0 where
  ntfs : Vbr → Option MftTable → Volume
  lvm2 : Lvm2 → Volume

-- GetBytesPerSector, GetSectorsPerCluster, GetSignature
unfoldable pub get_bytes_per_sector : Volume → ℕ
unfolding lvm2_bytes_per_sector
get_bytes_per_sector (ntfs v t) = v.bytes_per_sector
get_bytes_per_sector (lvm2 l) = lvm2_bytes_per_sector l

unfoldable pub get_sectors_per_cluster : Volume → ℕ
unfolding lvm2_sectors_per_cluster
get_sectors_per_cluster (ntfs v t) = v.sectors_per_cluster
get_sectors_per_cluster (lvm2 l) = lvm2_sectors_per_cluster l

unfoldable pub get_signature : Volume → GoString
unfolding lvm2_signature
get_signature (ntfs v t) = v.signature
get_signature (lvm2 l) = lvm2_signature l

-- Volume.Process; sort.Sort is the parameter of Mft.Table.
unfoldable pub process_volume :
    (List (IndexEntry × FnAttribute) → List (IndexEntry × FnAttribute))
    → DiskReader
    → ℤ
    → List ℤ
    → ℤ
    → ℤ
    → Volume
    → Outcome Volume
process_volume sort hd start selected first last (ntfs v t) = do
  t' ← process_ntfs sort hd v start selected first last
  ok (ntfs v (some t'))
process_volume sort hd start selected first last (lvm2 l) = do
  sb ← process_lvm2 hd start l
  ok (lvm2 l)

-- Volume.CollectUnallocated: what is sent.
unfoldable pub volume_unallocated : DiskReader → ℤ → Volume → Outcome (List (List ℕ))
volume_unallocated hd start (ntfs v none) = panic
volume_unallocated hd start (ntfs v (some t)) = collect_unallocated hd v t.records start
volume_unallocated hd start (lvm2 l) = ok []

-- Whether CollectUnallocated closes the channel at its end.
unfoldable pub closes_channel : Volume → Bool
closes_channel (ntfs v t) = true
closes_channel (lvm2 l) = false

-- The implementations of Partition, and the volume that each holds.
pub data Entry : Type 0 where
  mbr : Partition → Entry
  extended : ExtendedPartition → Entry
  gpt : GptPartition → Entry

pub record DiskPartition : Type 0 where
  pub entry : Entry
  pub volume : Option Volume

-- GetOffset, in sectors
abbrev pub entry_offset : Entry → ℕ
entry_offset (mbr p) = get_offset p
entry_offset (extended e) = get_extended_offset e
entry_offset (gpt g) = get_gpt_offset g

abbrev pub get_partition_offset : DiskPartition → ℕ
get_partition_offset p = entry_offset p.entry

-- int64(uint64(offset * 512))
abbrev pub byte_offset : ℕ → ℤ
byte_offset sectors = of_pattern (2 ^ 64) (sectors * 512 % 2 ^ 64)

-- Partition.LocateVolume of the master boot record: the volume that it leaves.
unfoldable pub locate_mbr_volume : DiskReader → Partition → Option Volume → Outcome (Option Volume)
locate_mbr_volume hd p old =
    let found = do
      v ← parse_vbr (of_bytes (hd.read_file (byte_offset (get_offset p)) (pos 512)))
      ok (if has_valid_signature v then some (ntfs v none) else none)
    in if p.type_ == 0x07 || p.type_ == 0x17 then found else ok old

-- disk/raid/mdraid.go, Superblock: the fields of the struct; the program uses DataOffset.
abbrev pub raid_fields : List Kind
raid_fields =
    Kind.array 4
    ∷ Kind.uint32
    ∷ Kind.uint32
    ∷ Kind.array 4
    ∷ Kind.array 16
    ∷ Kind.array 32
    ∷ Kind.uint64
    ∷ Kind.uint32
    ∷ Kind.uint32
    ∷ Kind.uint64
    ∷ Kind.uint32
    ∷ Kind.uint32
    ∷ Kind.array 32
    ∷ Kind.uint64
    ∷ Kind.uint64
    ∷ Kind.uint64
    ∷ Kind.array 8
    ∷ Kind.uint32
    ∷ Kind.uint32
    ∷ Kind.array 16
    ∷ Kind.uint8
    ∷ Kind.uint8
    ∷ Kind.uint16
    ∷ Kind.uint32
    ∷ Kind.uint64
    ∷ Kind.uint64
    ∷ Kind.uint64
    ∷ Kind.array 4
    ∷ Kind.uint32
    ∷ Kind.array 32
    ∷ Kind.unhandled
    ∷ []

-- superblock.DataOffset
abbrev pub data_offset_of : List Value → ℕ
data_offset_of vs = nth_number vs 13

-- The branch of LocateVolume for a RAID: the superblock stands eight sectors into the partition, and
-- the magic number is reversed where it stands.
unfoldable pub locate_raid :
    DiskReader → GptPartition → Option Volume → Outcome (GptPartition × Option Volume)
locate_raid hd g old = do
  let start = get_gpt_offset g * 512 % 2 ^ 64
  let data_ = hd.read_file (of_pattern (2 ^ 64) ((start + 8 * 512) % 2 ^ 64)) (pos 512)
  s ← slice (of_bytes data_) 0 4
  let magic = bytereverse (bytes s)
  let found = do
    u ← unmarshal raid_fields (of_bytes (magic ++ drop 4 data_))
    let offset = data_offset_of u.values
    l ← process_header hd (of_pattern (2 ^ 64) ((start + offset * 512) % 2 ^ 64))
    ok (record g { raid = some offset }, some (lvm2 l))
  if str_eq (hexify magic) (codes "a92b4efc") then found else ok (g, old)

-- Partition.LocateVolume of the GUID partition table
unfoldable pub locate_gpt_volume :
    DiskReader → GptPartition → Option Volume → Outcome (GptPartition × Option Volume)
locate_gpt_volume hd g old = do
  t ← get_partition_type g
  let windows = do
    v ← parse_vbr (of_bytes (hd.read_file (byte_offset (get_gpt_offset g)) (pos 512)))
    ok (g, some (ntfs v none))
  let raid = locate_raid hd g old
  if str_eq t (codes "Windows")
      then windows
      else if str_eq t (codes "Linux RAID")
      then raid
      else ok (g, none)

-- LocateVolume; that of an extended partition calls that of its partition, which knows no offset
-- of the table.
unfoldable pub locate_volume : DiskReader → DiskPartition → Outcome DiskPartition
unfolding locate_mbr_volume locate_gpt_volume
locate_volume hd d = elim d.entry [
  | mbr p ↦ (do v ← locate_mbr_volume hd p d.volume; ok (record d { volume = v }))
  | extended e ↦ (do v ← locate_mbr_volume hd e.partition d.volume; ok (record d { volume = v }))
  | gpt g ↦ (do
    (g', v) ← locate_gpt_volume hd g d.volume
    ok (record { entry = gpt g'; volume = v }))
]
