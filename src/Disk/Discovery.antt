-- ===== src/Disk/Discovery.antt =====
-- disk/disk.go: the partitions of a disk, the volumes in them, and what is read from the volumes.
pub mod Bare
pub mod Selection
use mftextractor.Base.{
  ℕ, zero, suc, ◌+◌, ◌*◌, ◌%◌, ◌^◌, Bool, true, false, not, ◌&&◌, ◌||◌, Option, none, some, List,
  [], ◌∷◌, ◌++◌, ◌==◌, if◌then◌else◌, map,
}
use mftextractor.Base.Int.{ℤ, pos, negsuc, ◌*ℤ◌, of_pattern}
use mftextractor.Go.Outcome.{Outcome, ok, panic, or_panic, ◌>>=◌}
use mftextractor.Go.Slice.{of_bytes, bytes, slice}
use mftextractor.Go.Text.{GoString, codes, str_eq}
use mftextractor.Attributes.Fields.{FnAttribute}
use mftextractor.Attributes.Index.{IndexEntry}
use mftextractor.Disk.Reader.{DiskReader, int64}
use mftextractor.Disk.Mbr.{
  Partition, ExtendedPartition, Mbr, parse_mbr, get_extended_partition_offset,
  discover_extended_partitions, populate_pseudo_mbr, is_protective,
}
use mftextractor.Disk.Gpt.{
  GptHeader, GptPartition, parse_header, get_partition_array_size, parse_partitions,
}
use mftextractor.Disk.Partitions.{
  Volume, Entry, DiskPartition, get_bytes_per_sector, process_volume, volume_unallocated,
  closes_channel, get_partition_offset, locate_volume,
}
use mftextractor.Volume.{eqb_ℤ}

-- Disk. The entries of the list of partitions are pointers to those of the two tables; the methods
-- that change an entry after it has been listed are reached by the list only.
pub record Disk : Type 0 where
  pub mbr : Option Mbr
  pub gpt : Option (GptHeader × List GptPartition)
  pub handler : DiskReader
  pub partitions : List DiskPartition

-- mbrLib.MBR{}
abbrev pub new_mbr : Mbr
new_mbr = record { boot_code = []; partitions = []; extended_partitions = []; signature = [] }

-- The second sector that populateMBR reads, if there is an extended partition.
abbrev pub with_extended : DiskReader → Mbr → Outcome Mbr
with_extended hd m = elim (get_extended_partition_offset m) [
  | none ↦ ok m
  | some offset ↦
      discover_extended_partitions m (of_bytes (hd.read_file (pos (offset * 512)) (pos 512))) offset
]

-- populateMBR; none is ErrNTFSVol.
unfoldable pub populate_mbr : Disk → Outcome (Option Disk)
populate_mbr d = do
  let data_ = of_bytes (d.handler.read_file (pos 0) (pos 512))
  mark ← slice data_ 3 7
  let table = do
    m ← parse_mbr new_mbr data_
    m' ← with_extended d.handler m
    ok (some (record d { mbr = some m' }))
  if str_eq (bytes mark) (codes "NTFS") then ok none else table

-- populateGPT
unfoldable pub populate_gpt : Disk → Outcome Disk
populate_gpt d = do
  h ← parse_header (of_bytes (d.handler.read_file (pos 512) (pos 512)))
  let at = of_pattern (2 ^ 64) (h.partitions_start_lba * 512 % 2 ^ 64)
  ps ← parse_partitions h (of_bytes (d.handler.read_file at (pos (get_partition_array_size h))))
  ok (record d { gpt = some (h, ps) })

-- CreatePseudoMBR: the MBR has one partition.
unfoldable pub create_pseudo_mbr : GoString → Disk → Outcome Disk
create_pseudo_mbr voltype d = do
  m ← populate_pseudo_mbr new_mbr voltype
  let ps = map (λ p. record { entry = Entry.mbr p; volume = none }) m.partitions
  ok (record d { mbr = some m; partitions = d.partitions ++ ps })

abbrev pub no_number : ℤ
no_number = negsuc 0

-- A number that is given, and not the given one.
abbrev pub is_other : ℤ → ℕ → Bool
is_other number n = not (eqb_ℤ number no_number) && not (eqb_ℤ number (pos n))

-- The loop of DiscoverPartitions over the GUID partition table, at the index `idx`.
unfoldable pub gpt_entries_from : ℤ → ℕ → List GptPartition → List DiskPartition
gpt_entries_from number idx [] = []
gpt_entries_from number idx (p ∷ ps) =
    let rest = gpt_entries_from number (suc idx) ps in
    if is_other number idx then rest else record { entry = Entry.gpt p; volume = none } ∷ rest

-- The two loops over the master boot record.
abbrev pub mbr_entries : Mbr → List DiskPartition
mbr_entries m =
    map (λ p. record { entry = Entry.mbr p; volume = none }) m.partitions
    ++ map (λ e. record { entry = Entry.extended e; volume = none }) m.extended_partitions

-- hasProtectiveMBR
unfoldable pub has_protective_mbr : Disk → Outcome Bool
has_protective_mbr d = do m ← or_panic d.mbr; is_protective m

-- The part of DiscoverPartitions behind populateMBR.
unfoldable pub list_partitions : ℤ → Disk → Outcome Disk
unfolding has_protective_mbr populate_gpt gpt_entries_from
list_partitions number d = do
  is_gpt ← has_protective_mbr d
  let from_gpt = do
    d' ← populate_gpt d
    (h, ps) ← or_panic d'.gpt
    ok (record d' { partitions = d'.partitions ++ gpt_entries_from number 0 ps })
  let from_mbr = do m ← or_panic d.mbr; ok (record d { partitions = d.partitions ++ mbr_entries m })
  if is_gpt then from_gpt else from_mbr

-- DiscoverPartitions; none is ErrNTFSVol.
unfoldable pub discover_partitions : ℤ → Disk → Outcome (Option Disk)
unfolding populate_mbr list_partitions
discover_partitions number d = do
  o ← populate_mbr d
  elim o [ none ↦ ok none | some d' ↦ (do d'' ← list_partitions number d'; ok (some d'')) ]

-- The loop of ProcessPartitions, at the index `idx`.
unfoldable pub process_partitions_from :
    DiskReader → ℤ → ℕ → List DiskPartition → Outcome (List DiskPartition)
process_partitions_from hd number idx [] = ok []
process_partitions_from hd number idx (p ∷ ps) = do
  p' ← (let located = locate_volume hd p in if is_other number (suc idx) then ok p else located)
  rest ← process_partitions_from hd number (suc idx) ps
  ok (p' ∷ rest)

-- ProcessPartitions
unfoldable pub process_partitions : ℤ → Disk → Outcome Disk
unfolding process_partitions_from
process_partitions number d = do
  ps ← process_partitions_from d.handler number 0 d.partitions
  ok (record d { partitions = ps })

-- int64(GetOffset() * GetBytesPerSector())
abbrev pub volume_start : DiskPartition → Volume → ℤ
volume_start p v = of_pattern (2 ^ 64) (get_partition_offset p * get_bytes_per_sector v % 2 ^ 64)

-- sort.Sort of the index entries is the parameter of Mft.Table.
module _ (sort : List (IndexEntry × FnAttribute) → List (IndexEntry × FnAttribute)) where
  -- One round of DiscoverFileSystems.
  abbrev pub process_file_system :
      DiskReader → List ℤ → ℤ → ℤ → DiskPartition → Outcome DiskPartition
  process_file_system hd selected first last p = elim p.volume [
    | none ↦ ok p
    | some v ↦ (do
      v' ← process_volume sort hd (volume_start p v) selected first last v
      ok (record p { volume = some v' }))
  ]

  unfoldable pub file_systems_of :
      DiskReader → List ℤ → ℤ → ℤ → List DiskPartition → Outcome (List DiskPartition)
  file_systems_of hd selected first last [] = ok []
  file_systems_of hd selected first last (p ∷ ps) = do
    p' ← process_file_system hd selected first last p
    rest ← file_systems_of hd selected first last ps
    ok (p' ∷ rest)

  -- DiscoverFileSystems
  unfoldable pub discover_file_systems : List ℤ → ℤ → ℤ → Disk → Outcome Disk
  unfolding file_systems_of
  discover_file_systems selected first last d = do
    ps ← file_systems_of d.handler selected first last d.partitions
    ok (record d { partitions = ps })

  -- Disk.Process: the disk that it leaves. The map that it returns is always empty.
  unfoldable pub process_disk : ℤ → List ℤ → ℤ → ℤ → Disk → Outcome Disk
  unfolding discover_partitions create_pseudo_mbr process_partitions discover_file_systems
  process_disk number selected first last d = do
    o ← discover_partitions number d
    d1 ← elim o [ none ↦ create_pseudo_mbr (codes "NTFS") d | some d' ↦ ok d' ]
    d2 ← process_partitions number d1
    discover_file_systems selected first last d2

-- What the volume of one partition sends. A channel that has been closed takes nothing more, and is
-- not closed again without a panic.
abbrev pub partition_unallocated :
    DiskReader → Bool → DiskPartition → Volume → Outcome (List (List ℕ))
partition_unallocated hd is_open p v =
    let start = int64 (
      of_pattern (2 ^ 64) (get_partition_offset p)
      *ℤ of_pattern (2 ^ 64) (get_bytes_per_sector v)) in
    let sent = volume_unallocated hd start v in
    if closes_channel v && not is_open then panic else sent

-- The loop of CollectedUnallocated, with the state of the channel.
unfoldable pub unallocated_of : DiskReader → Bool → List DiskPartition → Outcome (List (List ℕ))
unallocated_of hd is_open [] = ok []
unallocated_of hd is_open (p ∷ ps) = elim p.volume [
  | none ↦ unallocated_of hd is_open ps
  | some v ↦ (do
    sent ← partition_unallocated hd is_open p v
    more ← unallocated_of hd (is_open && not (closes_channel v)) ps
    ok (sent ++ more))
]

-- CollectedUnallocated, on an open channel
unfoldable pub collected_unallocated : Disk → Outcome (List (List ℕ))
unfolding unallocated_of
collected_unallocated d = unallocated_of d.handler true d.partitions
