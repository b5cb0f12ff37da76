-- ===== src/Disk/Workers.antt =====
-- disk/disk.go, Worker and AsyncWorker: the content of files, from the volume of one partition. What
-- is sent on a channel is a list; the channel is closed at the end.
pub mod Agree
use mftextractor.Base.{ℕ, ◌^◌, List, [], ◌∷◌, ◌++◌, if◌then◌else◌, get_elem?}
use mftextractor.Base.Int.{ℤ, pos, ◌*ℤ◌, of_pattern}
use mftextractor.Go.Outcome.{Outcome, ok, or_panic, ◌>>=◌}
use mftextractor.Data.{AskedFile, locate_data, locate_data_async}
use mftextractor.Disk.Reader.{DiskReader, int64}
use mftextractor.Disk.Partitions.{
  Volume, DiskPartition, get_bytes_per_sector, get_sectors_per_cluster, get_partition_offset,
}
use mftextractor.Disk.Discovery.{Disk}
use mftextractor.Filters.{get_fname}
use mftextractor.Mft.Record.{Record, is_folder}
use mftextractor.Mft.Table.{Records}

-- int64(partition.GetOffset()) * int64(bytesPerSector)
abbrev pub partition_start : DiskPartition → Volume → ℤ
partition_start p v =
    int64
      (of_pattern (2 ^ 64) (get_partition_offset p) *ℤ of_pattern (2 ^ 64) (get_bytes_per_sector v))

-- sectorsPerCluster * bytesPerSector
abbrev pub cluster_bytes : Volume → ℤ
cluster_bytes v =
    int64 (pos (get_sectors_per_cluster v) *ℤ of_pattern (2 ^ 64) (get_bytes_per_sector v))

-- The records into which the pointers of the records to be read lead.
module _ (table : Records) where
  -- The records whose runs are read for the given one.
  unfoldable pub parts_of : Record → List ℕ → Outcome Records
  parts_of r [] = ok []
  parts_of r (i ∷ is) = do l ← or_panic (get_elem? table i); ls ← parts_of r is; ok (l ∷ ls)

  -- `if len(record.LinkedRecords) == 0`
  abbrev pub sources_of : Record → Outcome Records
  sources_of r = elim r.linked_records [ [] ↦ ok (r ∷ []) | i ∷ is ↦ parts_of r (i ∷ is) ]

  -- LocateData and LocateDataAsync on each of them.
  unfoldable pub located_of : DiskReader → ℤ → ℤ → Records → Outcome (List AskedFile)
  located_of hd start cluster [] = ok []
  located_of hd start cluster (r ∷ rs) = do
    f ← locate_data hd cluster table start r
    fs ← located_of hd start cluster rs
    ok (f ∷ fs)

  unfoldable pub fragments_of : DiskReader → ℤ → ℤ → Records → Outcome (List (List ℕ))
  fragments_of hd start cluster [] = ok []
  fragments_of hd start cluster (r ∷ rs) = do
    f ← locate_data_async hd cluster table start r
    fs ← fragments_of hd start cluster rs
    ok (f ++ fs)

  -- The loop of Worker; the name stands in a message, for a folder and for a file.
  unfoldable pub files_of : DiskReader → ℤ → ℤ → Records → Outcome (List AskedFile)
  unfolding parts_of located_of
  files_of hd start cluster [] = ok []
  files_of hd start cluster (r ∷ rs) = do
    name ← get_fname table r
    sent ←
        (let located = (do ls ← sources_of r; located_of hd start cluster ls) in
          if is_folder r then ok [] else located)
    more ← files_of hd start cluster rs
    ok (sent ++ more)

  -- Disk.Worker
  unfoldable pub worker : Disk → Records → ℕ → Outcome (List AskedFile)
  unfolding files_of
  worker d rs number = do
    p ← or_panic (get_elem? d.partitions number)
    v ← or_panic p.volume
    files_of d.handler (partition_start p v) (cluster_bytes v) rs

  -- Disk.AsyncWorker
  unfoldable pub async_worker : Disk → Record → ℕ → Outcome (List (List ℕ))
  unfolding parts_of fragments_of
  async_worker d r number = do
    p ← or_panic (get_elem? d.partitions number)
    v ← or_panic p.volume
    name ← get_fname table r
    let sent = do
      ls ← sources_of r
      fragments_of d.handler (partition_start p v) (cluster_bytes v) ls
    if is_folder r then ok [] else sent
