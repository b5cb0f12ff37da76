-- ===== src/Disk/Discovery/Bare.antt =====
-- A disk with no table of partitions, on which a volume stands at the first sector.
use native.Mathlib.Nat.{zero-mul}
use mftextractor.Base.{◌≡◌, refl, true, Option, none, some, List, [], ◌∷◌}
use mftextractor.Base.Int.{ℤ, pos}
use mftextractor.Go.Outcome.{Outcome, ok, ◌>>=◌, >>=-pure}
use mftextractor.Go.Slice.{Slice, of_bytes, bytes, slice}
use mftextractor.Go.Text.{codes, str_eq, str_eq_refl}
use mftextractor.Attributes.Fields.{FnAttribute}
use mftextractor.Attributes.Index.{IndexEntry}
use mftextractor.Utils.Unmarshal.{unmarshal, unmarshal_from, unmarshal_field, read_uint, read_array}
use mftextractor.Utils.Endian.{little_endian}
use mftextractor.Disk.Reader.{DiskReader}
use mftextractor.Disk.Mbr.{Partition, Mbr, populate_pseudo_mbr}
use mftextractor.Disk.Partitions.{
  Volume, ntfs, Entry, locate_volume, locate_mbr_volume, process_volume, get_bytes_per_sector,
}
use mftextractor.Disk.Discovery.{
  Disk, new_mbr, no_number, populate_mbr, discover_partitions, create_pseudo_mbr,
  process_partitions, process_partitions_from, file_systems_of, discover_file_systems, process_disk,
}
use mftextractor.Volume.{Vbr, parse_vbr, has_valid_signature}
use mftextractor.Volume.Process.{process_ntfs}

-- A disk as Initialize leaves it.
abbrev pub new_disk : DiskReader → Disk
new_disk hd = record { mbr = none; gpt = none; handler = hd; partitions = [] }

-- The partition that PopulatePseudoMBR makes, at the first sector.
abbrev pub bare_partition : Partition
bare_partition = record {
  flag = 0;
  start_chs = 0 ∷ 0 ∷ 0 ∷ [];
  type_ = 0x07;
  end_chs = 0 ∷ 0 ∷ 0 ∷ [];
  start_lba = 0;
  size = 0;
}

abbrev pub bare_mbr : Mbr
bare_mbr = record new_mbr { partitions = bare_partition ∷ [] }

-- The disk whose one partition holds the volume.
abbrev pub bare_disk : DiskReader → Option Volume → Disk
bare_disk hd v = record {
  mbr = some bare_mbr;
  gpt = none;
  handler = hd;
  partitions = record { entry = Entry.mbr bare_partition; volume = v } ∷ [];
}

-- The disk that is left with the table that NTFS.Process makes, or its failure.
abbrev pub with_table :
    (List (IndexEntry × FnAttribute) → List (IndexEntry × FnAttribute))
    → List ℤ
    → ℤ
    → ℤ
    → DiskReader
    → Vbr
    → Outcome Disk
with_table sort selected first last hd v = do
  t ← process_ntfs sort hd v (pos 0) selected first last
  ok (bare_disk hd (some (ntfs v (some t))))

create_pseudo_mbr-bare :
    (hd : DiskReader) → create_pseudo_mbr (codes "NTFS") (new_disk hd) ≡ ok (bare_disk hd none)
unfolding create_pseudo_mbr populate_pseudo_mbr unmarshal unmarshal_from unmarshal_field read_uint
    read_array little_endian str_eq
create_pseudo_mbr-bare hd = refl

-- The bytes of the sign of NTFS in the first sector.
abbrev pub HasNtfsMark : DiskReader → Type 0
HasNtfsMark hd =
    (s : Slice) × (slice (of_bytes (hd.read_file (pos 0) (pos 512))) 3 7 ≡ ok s)
    × (bytes s ≡ codes "NTFS")

module _ (hd : DiskReader) (mark : HasNtfsMark hd) where
  discover_partitions-bare : discover_partitions no_number (new_disk hd) ≡ ok none
  unfolding discover_partitions populate_mbr
  discover_partitions-bare = let (s, e, m) = mark in rw (e, m, str_eq_refl (codes "NTFS"))

  module _ (v : Vbr) (read : parse_vbr (of_bytes (hd.read_file (pos 0) (pos 512))) ≡ ok v)
      (valid : has_valid_signature v ≡ true) where
    process_partitions-bare :
        process_partitions no_number (bare_disk hd none) ≡ ok (bare_disk hd (some (ntfs v none)))
    unfolding process_partitions process_partitions_from locate_volume locate_mbr_volume
    process_partitions-bare = rw (read, valid)

    module _ (sort : List (IndexEntry × FnAttribute) → List (IndexEntry × FnAttribute))
        (selected : List ℤ) (first last : ℤ) where
      discover_file_systems-bare :
          discover_file_systems sort selected first last (bare_disk hd (some (ntfs v none)))
          ≡ with_table sort selected first last hd v
      unfolding discover_file_systems file_systems_of process_volume get_bytes_per_sector
      discover_file_systems-bare = simp (zero-mul v.bytes_per_sector, >>=-pure)

      -- On a disk whose first sector is the boot record of an NTFS volume, Disk.Process with no number
      -- given runs NTFS.Process on that volume at the offset zero: it fails as that does, and
      -- otherwise leaves the disk with one partition at the first sector, and in it the volume
      -- with its boot record and the table of that run.
      pub process_disk-bare :
          process_disk sort no_number selected first last (new_disk hd)
          ≡ with_table sort selected first last hd v
      unfolding process_disk
      process_disk-bare = rw (
        discover_partitions-bare,
        create_pseudo_mbr-bare hd,
        process_partitions-bare,
        discover_file_systems-bare,
      )
