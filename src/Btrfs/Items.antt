-- ===== src/Btrfs/Items.antt =====
-- FS/BTRFS/leafnode/structures.go: the items of a leaf that are structs of numbers.
pub mod Extents
pub mod Names
pub mod Chunks
pub mod Ends
pub mod Layout
pub mod Stripes
pub mod Entries
pub mod Roots
use mftextractor.Base.{
  ℕ, zero, suc, ◌+◌, ◌-◌, ◌*◌, ◌%◌, Bool, true, false, not, ◌&&◌, Option, none, some, List, [], ◌∷◌,
  ◌++◌, ltb, leb, ◌==◌, if◌then◌else◌,
}
use mftextractor.Go.Outcome.{Outcome, ok, panic, stuck, ◌>>=◌}
use mftextractor.Go.Slice.{Slice, bytes, slice, slice_from}
use mftextractor.Go.Text.{GoString, codes, str_eq}
use mftextractor.Utils.Endian.{to_uint32}
use mftextractor.Utils.Unmarshal.{Kind, Value, unmarshal, nth_number, nth_raw}
use mftextractor.Btrfs.{Key, array_of, parse_struct}

-- DevItem
pub record DevItem : Type 0 where
  pub device_id : ℕ
  pub nof_bytes : ℕ
  pub nof_used_bytes : ℕ
  pub optimal_io_alignment : ℕ
  pub optimal_io_width : ℕ
  pub minimail_io_size : ℕ
  pub type : ℕ
  pub generation : ℕ
  pub start_offset : ℕ
  pub dev_group : ℕ
  pub seek_speed : ℕ
  pub bandwidth : ℕ
  pub device_uuid : List ℕ
  pub filesystem_uuid : List ℕ

abbrev pub dev_item_fields : List Kind
dev_item_fields =
    Kind.uint64
    ∷ Kind.uint64
    ∷ Kind.uint64
    ∷ Kind.uint32
    ∷ Kind.uint32
    ∷ Kind.uint32
    ∷ Kind.uint64
    ∷ Kind.uint64
    ∷ Kind.uint64
    ∷ Kind.uint32
    ∷ Kind.uint8
    ∷ Kind.uint8
    ∷ Kind.array 16
    ∷ Kind.array 16
    ∷ []

abbrev pub dev_item_of : List Value → DevItem
dev_item_of vs = record {
  device_id = nth_number vs 0;
  nof_bytes = nth_number vs 1;
  nof_used_bytes = nth_number vs 2;
  optimal_io_alignment = nth_number vs 3;
  optimal_io_width = nth_number vs 4;
  minimail_io_size = nth_number vs 5;
  type = nth_number vs 6;
  generation = nth_number vs 7;
  start_offset = nth_number vs 8;
  dev_group = nth_number vs 9;
  seek_speed = nth_number vs 10;
  bandwidth = nth_number vs 11;
  device_uuid = array_of 16 vs 12;
  filesystem_uuid = array_of 16 vs 13;
}

-- DevItem.Parse
unfoldable pub parse_dev_item : Slice → Outcome (DevItem × ℕ)
parse_dev_item = parse_struct dev_item_fields dev_item_of

-- InodeItem
pub record InodeItem : Type 0 where
  pub generation : ℕ
  pub transid : ℕ
  pub st_size : ℕ
  pub st_block : ℕ
  pub block_group : ℕ
  pub st_nlink : ℕ
  pub st_uid : ℕ
  pub st_gid : ℕ
  pub st_mode : ℕ
  pub st_rdev : ℕ
  pub flags : ℕ
  pub sequence : ℕ
  pub reserved : List ℕ
  pub atime : ℕ
  pub ctime : ℕ
  pub mtime : ℕ
  pub otime : ℕ

abbrev pub inode_item_fields : List Kind
inode_item_fields =
    Kind.uint64
    ∷ Kind.uint64
    ∷ Kind.uint64
    ∷ Kind.uint64
    ∷ Kind.uint64
    ∷ Kind.uint32
    ∷ Kind.uint32
    ∷ Kind.uint32
    ∷ Kind.uint32
    ∷ Kind.uint64
    ∷ Kind.uint64
    ∷ Kind.uint64
    ∷ Kind.array 32
    ∷ Kind.time_spec
    ∷ Kind.time_spec
    ∷ Kind.time_spec
    ∷ Kind.time_spec
    ∷ []

abbrev pub inode_item_of : List Value → InodeItem
inode_item_of vs = record {
  generation = nth_number vs 0;
  transid = nth_number vs 1;
  st_size = nth_number vs 2;
  st_block = nth_number vs 3;
  block_group = nth_number vs 4;
  st_nlink = nth_number vs 5;
  st_uid = nth_number vs 6;
  st_gid = nth_number vs 7;
  st_mode = nth_number vs 8;
  st_rdev = nth_number vs 9;
  flags = nth_number vs 10;
  sequence = nth_number vs 11;
  reserved = array_of 32 vs 12;
  atime = nth_number vs 13;
  ctime = nth_number vs 14;
  mtime = nth_number vs 15;
  otime = nth_number vs 16;
}

-- InodeItem.Parse
unfoldable pub parse_inode_item : Slice → Outcome (InodeItem × ℕ)
parse_inode_item = parse_struct inode_item_fields inode_item_of

-- DevExtentItem
pub record DevExtentItem : Type 0 where
  pub chunk_tree : ℕ
  pub chunk_object_id : ℕ
  pub chunk_offset : ℕ
  pub length : ℕ
  pub uuid : List ℕ

abbrev pub dev_extent_item_fields : List Kind
dev_extent_item_fields = Kind.uint64 ∷ Kind.uint64 ∷ Kind.uint64 ∷ Kind.uint64 ∷ Kind.array 16 ∷ []

abbrev pub dev_extent_item_of : List Value → DevExtentItem
dev_extent_item_of vs = record {
  chunk_tree = nth_number vs 0;
  chunk_object_id = nth_number vs 1;
  chunk_offset = nth_number vs 2;
  length = nth_number vs 3;
  uuid = array_of 16 vs 4;
}

-- DevExtentItem.Parse
unfoldable pub parse_dev_extent_item : Slice → Outcome (DevExtentItem × ℕ)
parse_dev_extent_item = parse_struct dev_extent_item_fields dev_extent_item_of

-- BlockGroupItem
pub record BlockGroupItem : Type 0 where
  pub used : ℕ
  pub chunk_object_id : ℕ
  pub flags : ℕ

abbrev pub block_group_item_fields : List Kind
block_group_item_fields = Kind.uint64 ∷ Kind.uint64 ∷ Kind.uint64 ∷ []

abbrev pub block_group_item_of : List Value → BlockGroupItem
block_group_item_of vs = record {
  used = nth_number vs 0;
  chunk_object_id = nth_number vs 1;
  flags = nth_number vs 2;
}

-- BlockGroupItem.Parse
unfoldable pub parse_block_group_item : Slice → Outcome (BlockGroupItem × ℕ)
parse_block_group_item = parse_struct block_group_item_fields block_group_item_of
