-- ===== src/Tests/Volumes.antt =====
-- The trees of BTRFS, the volumes and the disk on small inputs.
use mftextractor.Base.{
  ℕ, ◌+◌, ◌*◌, ◌≡◌, ◌≢◌, refl, arith, true, false, none, some, List, [], ◌∷◌, ◌++◌, length,
  replicate, get_elem?,
}
use mftextractor.Base.Int.{pos}
use mftextractor.Go.Outcome.{ok, stuck, Returns}
use mftextractor.Go.Slice.{Slice, of_bytes}
use mftextractor.Go.Text.{codes}
use mftextractor.Utils.Unmarshal.{Value, number, untouched}
use mftextractor.Btrfs.{Key}
use mftextractor.Btrfs.Crc.{crctable}
use mftextractor.Btrfs.Crc.Polynomial.{remainder_of, crctable-remainder_of}
use mftextractor.Btrfs.Items.Chunks.{
  ChunkItem, ChunkItemStripe, parse_chunk_item, parse_checksum_item,
}
use mftextractor.Btrfs.Items.Layout.{encode_checksums, parse_checksum_item-encode}
use mftextractor.Btrfs.Items.Stripes.{IsChunk, chunk_bytes, parse_chunk_item-encode}
use mftextractor.Btrfs.Items.Names.{dir_index_of, parse_dir_index}
use mftextractor.Btrfs.Items.Entries.{front, parse_dir_index-name}
use mftextractor.Btrfs.Leaf.{parse_item}
use mftextractor.Btrfs.Leaf.Layout.{item_layout, parse_item-layout}
use mftextractor.Btrfs.Node.{GenericNode, parse_node, filter_items_by_id}
use mftextractor.Btrfs.Node.Laws.{
  IsParsed, found_in, parse_node-IsNode, parse_node-ne-stuck, filter_items_by_id-IsNode,
}
use mftextractor.Btrfs.Superblock.{Superblock, superblock_of, parse_system_chunks}
use mftextractor.Btrfs.Superblock.Loop.{parse_system_chunks-ne-stuck}
use mftextractor.Disk.Reader.{DiskReader}
use mftextractor.Disk.Mbr.{Partition, Mbr, is_protective}
use mftextractor.Disk.Partitions.{Entry, DiskPartition, locate_volume, locate_mbr_volume}
use mftextractor.Disk.Discovery.{Disk, has_protective_mbr, list_partitions, process_partitions}
use mftextractor.Disk.Discovery.Selection.{
  process_partitions-set, process_partitions-list_partitions,
}
use mftextractor.Lvm.{DataAreaDescriptor, PhysicalVolHeader, parse_vol_header}
use mftextractor.Lvm.Areas.{parse_vol_header-ne-stuck}
use mftextractor.Lvm.Header.{header_bytes, parse_vol_header-encode}

-- A sum in place of that of hash/crc32.
abbrev no_checksum : List ℕ → List ℕ → ℕ
no_checksum table bs = 0

-- The header of a leaf with one item, and bytes of the item.
abbrev one_item : Slice
one_item = of_bytes (replicate 96 0 ++ 1 ∷ replicate 60 0)

parse_node-IsNode_example : Returns IsParsed (parse_node no_checksum one_item true)
parse_node-IsNode_example = parse_node-IsNode no_checksum one_item true

parse_node-ne-stuck_example : parse_node no_checksum one_item false ≢ stuck
parse_node-ne-stuck_example = parse_node-ne-stuck no_checksum one_item false

abbrev five : Key
five = record { object_id = 5; item_type = 0x84; offset = 0 }

abbrev leaf_of_five : GenericNode
leaf_of_five = record {
  header = some (record {
    chksum = [];
    fs_uuid = [];
    logical_address_node = 0;
    flags = [];
    back_ref = 0;
    chunk_tree_uuid = [];
    generation = 0;
    owner = 0;
    nof_items = 1;
    level = 0;
  });
  leaf_node = some (record {
    items = record { key = five; data_offset = 0; data_len = 0 } ∷ [];
    data_items = none ∷ [];
  });
  internal_node = none;
}

filter_items_by_id-IsNode_example :
    filter_items_by_id 5 leaf_of_five ≡ ok (found_in 5 leaf_of_five.leaf_node)
filter_items_by_id-IsNode_example = filter_items_by_id-IsNode 5 leaf_of_five (refl, (refl, refl))

abbrev inode_key : Key
inode_key = record { object_id = 256; item_type = 1; offset = 0 }

parse_item-layout_example :
    parse_item (of_bytes (item_layout inode_key 16000 160 ++ []))
    ≡ ok (record { key = inode_key; data_offset = 256; data_len = 0 }, 8)
parse_item-layout_example =
    parse_item-layout inode_key 256 0 refl (omega arith) (omega arith) (omega arith) (omega arith)
      16000 160 []

abbrev one_stripe : ChunkItemStripe
one_stripe = record { device_id = 1; offset = 4096; device_uuid = replicate 16 7 }

abbrev one_chunk : ChunkItem
one_chunk = record {
  size = 8192;
  owner = 2;
  stripe_len = 65536;
  type = 1;
  optimal_io_alignment = 4096;
  optimal_io_width = 4096;
  minimal_io_size = 512;
  nof_stripes = 1;
  nof_sub_stripes = 0;
  stripes = one_stripe ∷ [];
}

one_chunk-IsChunk : IsChunk one_chunk
one_chunk-IsChunk = record {
  size_fits = omega arith;
  owner_fits = omega arith;
  stripe_len_fits = omega arith;
  type_fits = omega arith;
  alignment_fits = omega arith;
  width_fits = omega arith;
  io_size_fits = omega arith;
  nof_stripes_fits = omega arith;
  nof_sub_stripes_fits = omega arith;
  counted = refl;
  all_stripes = ((omega arith, omega arith, refl), tt);
}

parse_chunk_item-encode_example :
    parse_chunk_item (of_bytes (chunk_bytes one_chunk (9 ∷ [])))
    ≡ ok (one_chunk, 48 + 32 * length one_chunk.stripes)
parse_chunk_item-encode_example = parse_chunk_item-encode one_chunk (9 ∷ []) one_chunk-IsChunk

abbrev two_sums : List ℕ
two_sums = 7 ∷ 4294967295 ∷ []

parse_checksum_item-encode_example :
    parse_checksum_item (of_bytes (encode_checksums two_sums)) ≡ ok (two_sums, 4 * length two_sums)
parse_checksum_item-encode_example =
    parse_checksum_item-encode two_sums (omega arith, (omega arith, tt))

abbrev entry_values : List Value
entry_values = number 9 ∷ number 0 ∷ number 1 ∷ number 1 ∷ untouched ∷ []

abbrev entry_name : List ℕ
entry_name = codes "a"

parse_dir_index-name_example :
    parse_dir_index (of_bytes (front entry_values ++ (entry_name ++ [])))
    ≡ ok (record (dir_index_of entry_values) { name = [] }, 13 + length entry_name)
parse_dir_index-name_example =
    parse_dir_index-name entry_values entry_name
      (omega arith, (omega arith, (omega arith, (omega arith, (tt, tt))))) refl []

crctable-remainder_of_example : get_elem? crctable 255 ≡ some (remainder_of 8 255)
crctable-remainder_of_example = crctable-remainder_of 255 (omega arith)

abbrev empty_superblock : Superblock
empty_superblock = record (superblock_of []) { system_chunk_arr_size = 97 }

parse_system_chunks-ne-stuck_example : parse_system_chunks empty_superblock ≢ stuck
parse_system_chunks-ne-stuck_example = parse_system_chunks-ne-stuck empty_superblock

abbrev reader : DiskReader
reader = record { read_file = λ offset n. replicate 512 0; disk_size = pos 1024 }

abbrev linux_partition : Partition
linux_partition = record {
  flag = 0;
  start_chs = [];
  type_ = 0x83;
  end_chs = [];
  start_lba = 1;
  size = 1;
}

abbrev linux_entry : DiskPartition
linux_entry = record { entry = Entry.mbr linux_partition; volume = none }

abbrev linux_disk : Disk
linux_disk = record { mbr = none; gpt = none; handler = reader; partitions = linux_entry ∷ [] }

linux_entry-located : locate_volume reader linux_entry ≡ ok linux_entry
unfolding locate_volume locate_mbr_volume
linux_entry-located = refl

process_partitions-set_example :
    process_partitions (pos 1) linux_disk ≡ ok (record linux_disk { partitions = linux_entry ∷ [] })
process_partitions-set_example =
    process_partitions-set linux_disk 0 linux_entry linux_entry refl linux_entry-located

abbrev protective : Mbr
protective = record {
  boot_code = [];
  partitions = record linux_partition { type_ = 0xee } ∷ [];
  extended_partitions = [];
  signature = [];
}

abbrev gpt_disk : Disk
gpt_disk = record { mbr = some protective; gpt = none; handler = reader; partitions = [] }

gpt_disk-protective : has_protective_mbr gpt_disk ≡ ok true
unfolding has_protective_mbr is_protective
gpt_disk-protective = refl

process_partitions-list_partitions_example :
    Returns (λ d. process_partitions (pos 2) d ≡ ok d) (list_partitions (pos 2) gpt_disk)
process_partitions-list_partitions_example =
    process_partitions-list_partitions 2 gpt_disk (λ e. absurd (omega (arith, e))) refl
      gpt_disk-protective

abbrev one_area : DataAreaDescriptor
one_area = record { offset_b = 1048576; len_b = 0 }

abbrev one_volume : PhysicalVolHeader
one_volume = record {
  uuid = replicate 32 1;
  vol_size = 1048576;
  data_area_descriptors = one_area ∷ [];
}

parse_vol_header-encode_example :
    parse_vol_header (of_bytes (header_bytes one_volume [])) ≡ ok one_volume
parse_vol_header-encode_example =
    parse_vol_header-encode (replicate 32 1) 1048576 one_area [] [] refl (omega arith)
      ((omega arith, omega arith, λ e. absurd (omega (arith, e))), tt)

parse_vol_header-ne-stuck_example : parse_vol_header (of_bytes (replicate 80 1)) ≢ stuck
parse_vol_header-ne-stuck_example = parse_vol_header-ne-stuck (of_bytes (replicate 80 1))
