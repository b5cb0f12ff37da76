-- ===== src/Tests/Disks.antt =====
-- A disk of one boot record.
use mftextractor.Base.{ℕ, ◌≡◌, refl, true, List, [], ◌∷◌, ◌++◌, replicate, drop}
use mftextractor.Base.Int.{pos}
use mftextractor.Go.Outcome.{ok}
use mftextractor.Go.Slice.{Slice, of_bytes}
use mftextractor.Go.Text.{codes, str_eq}
use mftextractor.Utils.Unmarshal.{unmarshal, unmarshal_from, unmarshal_field, read_uint, read_array}
use mftextractor.Utils.Endian.{little_endian}
use mftextractor.Disk.Reader.{DiskReader}
use mftextractor.Disk.Discovery.{no_number, process_disk}
use mftextractor.Disk.Discovery.Bare.{new_disk, with_table, HasNtfsMark, process_disk-bare}
use mftextractor.Volume.{Vbr, parse_vbr, has_valid_signature}

-- A boot record with clusters of eight sectors of 512 bytes and the table at the cluster four.
abbrev boot_record : List ℕ
boot_record =
    0xeb ∷ 0x52 ∷ 0x90 ∷ codes "NTFS"
    ++ replicate 4 32
    ++ 0 ∷ 2 ∷ 8 ∷ replicate 34 0
    ++ 4 ∷ replicate 463 0

abbrev bare_reader : DiskReader
bare_reader = record { read_file = λ offset n. boot_record; disk_size = pos 1048576 }

abbrev boot_values : Vbr
boot_values = record {
  signature = codes "NTFS";
  bytes_per_sector = 512;
  sectors_per_cluster = 8;
  total_sectors = 0;
  mft_offset = 4;
  mft_mirr_offset = 0;
}

-- What stands behind the jump.
abbrev after_jump : Slice
after_jump = record { cells = drop 3 boot_record; len = 4 }

bare_reader-HasNtfsMark : HasNtfsMark bare_reader
bare_reader-HasNtfsMark = (after_jump, refl, refl)

boot_record-parsed : parse_vbr (of_bytes boot_record) ≡ ok boot_values
unfolding parse_vbr unmarshal unmarshal_from unmarshal_field read_uint read_array little_endian
boot_record-parsed = refl

boot_values-valid : has_valid_signature boot_values ≡ true
unfolding has_valid_signature str_eq
boot_values-valid = refl

process_disk-bare_example :
    process_disk (λ es. es) no_number [] (pos 0) (pos 5) (new_disk bare_reader)
    ≡ with_table (λ es. es) [] (pos 0) (pos 5) bare_reader boot_values
process_disk-bare_example =
    process_disk-bare bare_reader bare_reader-HasNtfsMark boot_values boot_record-parsed
      boot_values-valid (λ es. es) [] (pos 0) (pos 5)
