-- ===== src/Btrfs/Superblock.antt =====
-- FS/BTRFS/btrfs.go: the superblock and the chunks that it holds.
pub mod Loop
use mftextractor.Base.{
  ℕ, zero, suc, ◌+◌, ◌-◌, ◌*◌, ◌%◌, Bool, true, false, not, ◌&&◌, Option, none, some, List, [], ◌∷◌,
  ◌++◌, ltb, leb, ◌==◌, if◌then◌else◌,
}
use mftextractor.Go.Outcome.{Outcome, ok, panic, stuck, ◌>>=◌}
use mftextractor.Go.Slice.{Slice, of_bytes, bytes, slice, slice_from}
use mftextractor.Go.Text.{GoString, codes, str_eq}
use mftextractor.Utils.Endian.{to_uint32}
use mftextractor.Utils.Unmarshal.{Kind, Value, unmarshal, nth_number, nth_raw}
use mftextractor.Base.Int.{ℤ, pos}
use mftextractor.Btrfs.{Key, array_of, parse_key}
use mftextractor.Btrfs.Crc.{calc_crc32}
use mftextractor.Btrfs.Items.{DevItem, parse_dev_item}
use mftextractor.Btrfs.Items.Chunks.{ChunkItem, parse_chunk_item}
use mftextractor.Btrfs.Leaf.{Item, chunk, LeafNode}
use mftextractor.Btrfs.Node.{GenericNode}
use mftextractor.Disk.Reader.{DiskReader}

-- Superblock
pub record Superblock : Type 0 where
  pub chksum : List ℕ
  pub uuid : List ℕ
  pub physical_address : ℕ
  pub flags : ℕ
  pub signature : GoString
  pub generation : ℕ
  pub logical_address_root_tree : ℕ
  pub logical_address_root_chunk_tree : ℕ
  pub logical_address_log_root_tree : ℕ
  pub log_root_transid : ℕ
  pub volume_size_b : ℕ
  pub volume_used_size_b : ℕ
  pub object_id : ℕ
  pub nof_volume_devices : ℕ
  pub sector_size : ℕ
  pub node_size : ℕ
  pub leaf_size : ℕ
  pub stripe_size : ℕ
  pub system_chunk_arr_size : ℕ
  pub chunk_root_generation : ℕ
  pub compat_flags : ℕ
  pub compat_ro_flags : ℕ
  pub in_compat_flags : ℕ
  pub csum_type : ℕ
  pub root_level : ℕ
  pub chunk_root_level : ℕ
  pub log_root_level : ℕ
  pub dev_item : Option DevItem
  pub label : List ℕ
  pub reserved : List ℕ
  pub system_chunk_arr : List ℕ

-- Signature is a string and DevItem a pointer: they take no bytes.
abbrev pub superblock_fields : List Kind
superblock_fields =
    Kind.array 32
    ∷ Kind.array 16
    ∷ Kind.uint64
    ∷ Kind.uint64
    ∷ Kind.unhandled
    ∷ Kind.uint64
    ∷ Kind.uint64
    ∷ Kind.uint64
    ∷ Kind.uint64
    ∷ Kind.uint64
    ∷ Kind.uint64
    ∷ Kind.uint64
    ∷ Kind.uint64
    ∷ Kind.uint64
    ∷ Kind.uint32
    ∷ Kind.uint32
    ∷ Kind.uint32
    ∷ Kind.uint32
    ∷ Kind.uint32
    ∷ Kind.uint64
    ∷ Kind.uint64
    ∷ Kind.uint64
    ∷ Kind.uint64
    ∷ Kind.uint16
    ∷ Kind.uint8
    ∷ Kind.uint8
    ∷ Kind.uint8
    ∷ Kind.unhandled
    ∷ Kind.array 256
    ∷ Kind.array 256
    ∷ Kind.array 2048
    ∷ []

abbrev pub superblock_of : List Value → Superblock
superblock_of vs = record {
  chksum = array_of 32 vs 0;
  uuid = array_of 16 vs 1;
  physical_address = nth_number vs 2;
  flags = nth_number vs 3;
  signature = [];
  generation = nth_number vs 5;
  logical_address_root_tree = nth_number vs 6;
  logical_address_root_chunk_tree = nth_number vs 7;
  logical_address_log_root_tree = nth_number vs 8;
  log_root_transid = nth_number vs 9;
  volume_size_b = nth_number vs 10;
  volume_used_size_b = nth_number vs 11;
  object_id = nth_number vs 12;
  nof_volume_devices = nth_number vs 13;
  sector_size = nth_number vs 14;
  node_size = nth_number vs 15;
  leaf_size = nth_number vs 16;
  stripe_size = nth_number vs 17;
  system_chunk_arr_size = nth_number vs 18;
  chunk_root_generation = nth_number vs 19;
  compat_flags = nth_number vs 20;
  compat_ro_flags = nth_number vs 21;
  in_compat_flags = nth_number vs 22;
  csum_type = nth_number vs 23;
  root_level = nth_number vs 24;
  chunk_root_level = nth_number vs 25;
  log_root_level = nth_number vs 26;
  dev_item = none;
  label = array_of 256 vs 28;
  reserved = array_of 256 vs 29;
  system_chunk_arr = array_of 2048 vs 30;
}

-- BTRFS.Parse: the device item is parsed from the start of the data.
unfoldable pub parse_superblock : Slice → Outcome Superblock
parse_superblock buf = do
  u ← unmarshal superblock_fields buf
  (dev, read) ← parse_dev_item buf
  ok (record (superblock_of u.values) { dev_item = some dev })

-- BTRFS.Process: 1024 bytes at the start of the partition.
abbrev pub process_btrfs : DiskReader → ℤ → Outcome Superblock
process_btrfs hd offset = parse_superblock (of_bytes (hd.read_file offset (pos 1024)))

-- BTRFS.VerifySuperBlock
unfoldable pub verify_super_block : (List ℕ → List ℕ → ℕ) → Superblock → Slice → Outcome Bool
unfolding calc_crc32
verify_super_block checksum sb buf = do
  rest ← slice_from buf 32
  ok (to_uint32 sb.chksum == calc_crc32 checksum (bytes rest))

-- The node of a leaf with one item, which has a key only.
abbrev pub chunk_node : Key → ChunkItem → GenericNode
chunk_node key c = record {
  header = none;
  leaf_node = some (record {
    items = record { key = key; data_offset = 0; data_len = 0 } ∷ [];
    data_items = some (chunk c) ∷ [];
  });
  internal_node = none;
}

-- The loop of ParseSystemChunks
unfoldable pub system_chunks_from : ℕ → Slice → ℕ → List GenericNode → Outcome (List GenericNode)
system_chunks_from zero buf cur nodes = stuck
system_chunks_from (suc fuel) buf cur nodes =
    let round = do
      rest ← slice_from buf cur
      (key, read) ← parse_key rest
      rest' ← slice_from buf (cur + read)
      (c, read') ← parse_chunk_item rest'
      system_chunks_from fuel buf (cur + read + read') (nodes ++ (chunk_node key c ∷ []))
    in if ltb cur buf.len then round else ok nodes

-- BTRFS.ParseSystemChunks
unfoldable pub parse_system_chunks : Superblock → Outcome (List GenericNode)
unfolding system_chunks_from
parse_system_chunks sb = do
  buf ← slice (of_bytes sb.system_chunk_arr) 0 sb.system_chunk_arr_size
  system_chunks_from (suc buf.len) buf 0 []

-- BTRFS.GetSectorsPerCluster, BTRFS.GetBytesPerSector
unfoldable pub get_sectors_per_cluster : Superblock → ℕ
get_sectors_per_cluster sb = sb.node_size

unfoldable pub get_bytes_per_sector : Superblock → ℕ
get_bytes_per_sector sb = sb.sector_size

-- BTRFS.GetSignature
unfoldable pub get_signature : Superblock → GoString
get_signature sb = sb.signature
