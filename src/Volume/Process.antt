-- ===== src/Volume/Process.antt =====
-- disk/volume/ntfs.go, NTFS.Process: the whole way from the boot record to the table of records.
use mftextractor.Base.{ℕ, ◌^◌, Bool, false, ◌&&◌, List, [], ◌∷◌, if◌then◌else◌}
use mftextractor.Base.Int.{ℤ, pos, ◌+ℤ◌, ◌*ℤ◌, of_pattern}
use mftextractor.Go.Outcome.{Outcome, ok, ◌>>=◌}
use mftextractor.Go.Slice.{of_bytes}
use mftextractor.Attributes.Fields.{FnAttribute}
use mftextractor.Attributes.Index.{IndexEntry}
use mftextractor.Disk.Reader.{DiskReader, int64}
use mftextractor.Mft.Table.{
  Records, process_records, create_linked_records, find_parent_records, calculate_file_sizes,
}
use mftextractor.Mft.NonResident.{process_non_resident_records}
use mftextractor.Volume.{
  Vbr, cluster_size, determine_cluster_offset_length, collect_mft_area, select_mft, eqb_ℤ, no_first,
  no_last,
}

-- MFTTable
pub record MftTable : Type 0 where
  pub records : Records
  pub size : ℤ

-- len(MFTSelectedEntries) == 0 && fromMFTEntry == -1 && toMFTEntry == math.MaxUint32
abbrev pub is_whole : List ℤ → ℤ → ℤ → Bool
is_whole [] first last = eqb_ℤ first no_first && eqb_ℤ last no_last
is_whole (s ∷ ss) first last = false

-- The offset of the first record in bytes.
abbrev pub first_record_offset : Vbr → ℤ → ℤ
first_record_offset v start =
    int64 (start +ℤ of_pattern (2 ^ 64) v.mft_offset *ℤ pos (cluster_size v))

-- sort.Sort of the index entries is a parameter, as in Mft.Table.
module _ (sort : List (IndexEntry × FnAttribute) → List (IndexEntry × FnAttribute)) where
  -- The passes that follow if no entries were selected.
  unfoldable pub connect_records : Records → Outcome Records
  connect_records rs = do
    linked ← create_linked_records rs
    parented ← find_parent_records linked
    calculate_file_sizes sort parented

  -- NTFS.ProcessMFT
  unfoldable pub process_mft : List ℕ → List ℤ → ℤ → ℤ → Outcome Records
  process_mft area selected first last = do
    chosen ← select_mft (of_bytes area) selected first last
    process_records (of_bytes chosen)

  -- NTFS.Process
  unfoldable pub process_ntfs : DiskReader → Vbr → ℤ → List ℤ → ℤ → ℤ → Outcome MftTable
  unfolding process_mft connect_records
  process_ntfs hd v start selected first last = do
    rs0 ← process_records (of_bytes (hd.read_file (first_record_offset v start) (pos 1024)))
    size ← determine_cluster_offset_length rs0
    area ← collect_mft_area hd v rs0 size start
    rs1 ← process_mft area selected first last
    rs2 ← process_non_resident_records hd start (pos (cluster_size v)) rs1
    rs3 ←
        (let connected = connect_records rs2 in
          if is_whole selected first last then connected else ok rs2)
    ok (record { records = rs3; size = size })
