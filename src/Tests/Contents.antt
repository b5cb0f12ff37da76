-- ===== src/Tests/Contents.antt =====
-- Reading files from the partition of a disk, on small inputs.
use mftextractor.Base.{ℕ, ◌≡◌, refl, false, Option, none, some, List, [], ◌∷◌, map}
use mftextractor.Base.Int.{pos, ◌+ℤ◌, ◌*ℤ◌}
use mftextractor.Go.Outcome.{ok}
use mftextractor.Go.Text.{GoString, codes, str_eq}
use mftextractor.Attributes.Attribute.{Attribute, Content}
use mftextractor.Attributes.Header.{header_of, type_name, lookup, non_resident_of}
use mftextractor.Btrfs.Entries.{
  FileDirEntry, build_path, build_paths, set_path, names_above, append_names,
}
use mftextractor.Data.{AskedFile, is_zero_ℤ, locate_data, located_content, logical_size_from}
use mftextractor.Data.Fragments.{joined}
use mftextractor.Disk.Reader.{DiskReader}
use mftextractor.Disk.Partitions.{
  Volume, Entry, DiskPartition, ntfs, get_bytes_per_sector, get_sectors_per_cluster,
}
use mftextractor.Disk.Discovery.{Disk}
use mftextractor.Disk.Workers.{cluster_bytes, worker, async_worker, files_of, located_of, parts_of}
use mftextractor.Disk.Workers.Agree.{worker-async_worker}
use mftextractor.Filters.{fname_from}
use mftextractor.Mft.NonResident.{
  process_non_resident_attributes, process_attributes, process_attribute,
}
use mftextractor.Mft.NonResident.Kept.{process_non_resident_attributes-find_attribute}
use mftextractor.Mft.Record.{
  Record, new_record, find_attribute, find_in, is_folder, has_resident_data_attr, get_resident_data,
  own_fname, get_fnames, fnames_of, first_name,
}
use mftextractor.Utils.Bytes.{filter, hexify, bytereverse}
use mftextractor.Utils.Unmarshal.{raw}
use mftextractor.Volume.{vbr_of}

abbrev bytes_of_data : List ℕ
bytes_of_data = 1 ∷ 2 ∷ 3 ∷ []

abbrev data_attribute : Attribute
data_attribute = record {
  header = header_of (raw (0x80 ∷ 0 ∷ 0 ∷ 0 ∷ []) ∷ []);
  content = Content.data_ bytes_of_data;
}

abbrev small_file : Record
small_file = record new_record { entry = 30; flags = 1; attributes = data_attribute ∷ [] }

abbrev still : DiskReader
still = record { read_file = λ offset n. []; disk_size = pos 4096 }

abbrev small_volume : Volume
small_volume = ntfs (record (vbr_of []) { bytes_per_sector = 512; sectors_per_cluster = 8 }) none

abbrev ntfs_partition : DiskPartition
ntfs_partition = record {
  entry =
      Entry.mbr
        (record { flag = 0; start_chs = []; type_ = 7; end_chs = []; start_lba = 8; size = 1 });
  volume = some small_volume;
}

abbrev one_partition : Disk
one_partition = record { mbr = none; gpt = none; handler = still; partitions = ntfs_partition ∷ [] }

abbrev sent_file : AskedFile
sent_file = record { fname = codes "-"; content = bytes_of_data; id = 30 }

small_file-sent : worker [] one_partition (small_file ∷ []) 0 ≡ ok (sent_file ∷ [])
unfolding worker files_of located_of parts_of locate_data located_content logical_size_from
    fname_from has_resident_data_attr get_resident_data own_fname get_fnames fnames_of first_name
    is_folder get_bytes_per_sector get_sectors_per_cluster find_in filter str_eq type_name lookup
    hexify bytereverse
small_file-sent = refl

small_volume-whole : is_zero_ℤ (cluster_bytes small_volume) ≡ false
unfolding get_bytes_per_sector get_sectors_per_cluster ◌*ℤ◌
small_volume-whole = refl

worker-async_worker_example :
    (ds : List (List ℕ)) × (async_worker [] one_partition small_file 0 ≡ ok ds)
    × (joined (map (λ f. f.content) (sent_file ∷ [])) ≡ joined ds)
worker-async_worker_example =
    worker-async_worker [] one_partition small_file 0 ntfs_partition small_volume (sent_file ∷ [])
      refl refl small_volume-whole small_file-sent

-- A bitmap of one cluster, and the file's data.
abbrev with_bitmap : List ℕ → Record
with_bitmap bs = record small_file {
  attributes =
      record {
        header = record (header_of (raw (0xb0 ∷ 0 ∷ 0 ∷ 0 ∷ []) ∷ [])) {
          no_n_resident = 1;
          non_resident = some (record (non_resident_of []) {
            actual_length = 2;
            run_list = some (record { offset = pos 1; length = 1 } ∷ []);
            run_list_total_len_cl = 1;
          });
        };
        content = Content.bitmap bs;
      }
      ∷ data_attribute
      ∷ [];
}

abbrev four_sectors : DiskReader
four_sectors = record { read_file = λ offset n. 7 ∷ 8 ∷ 9 ∷ []; disk_size = pos 4096 }

bitmap-read :
    process_non_resident_attributes four_sectors (pos 0) (pos 4) (with_bitmap [])
    ≡ ok (with_bitmap (7 ∷ 8 ∷ []))
unfolding process_non_resident_attributes process_attributes process_attribute str_eq type_name ◌*ℤ◌
    ◌+ℤ◌
bitmap-read = refl

process_non_resident_attributes-find_attribute_example :
    find_attribute (with_bitmap (7 ∷ 8 ∷ [])) (codes "DATA")
    ≡ find_attribute (with_bitmap []) (codes "DATA")
process_non_resident_attributes-find_attribute_example =
    process_non_resident_attributes-find_attribute four_sectors (pos 0) (pos 4) (with_bitmap [])
      (with_bitmap (7 ∷ 8 ∷ [])) bitmap-read

-- The path of a file in a folder.
abbrev entry_at : Option ℕ → GoString → List ℕ → GoString → FileDirEntry
entry_at p n cs path = record { id = pos 0; name = n; children = cs; parent = p; path = path }

path_built :
    build_path
      (entry_at none (codes "home") (1 ∷ []) []
        ∷ entry_at (some 0) [] (2 ∷ []) []
        ∷ entry_at (some 1) (codes "a") [] []
        ∷ [])
      0
    ≡ ok (
        entry_at none (codes "home") (1 ∷ []) []
        ∷ entry_at (some 0) [] (2 ∷ []) (codes "\\home")
        ∷ entry_at (some 1) (codes "a") [] (codes "\\home")
        ∷ [])
unfolding build_paths set_path names_above append_names str_eq
path_built = refl
