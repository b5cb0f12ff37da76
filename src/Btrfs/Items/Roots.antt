-- ===== src/Btrfs/Items/Roots.antt =====
-- FS/BTRFS/leafnode/structures.go: RootItem.
use mftextractor.Base.{ℕ, ◌+◌, Option, none, some, List, [], ◌∷◌}
use mftextractor.Go.Outcome.{Outcome, ok, ◌>>=◌}
use mftextractor.Go.Slice.{Slice, slice_from}
use mftextractor.Utils.Unmarshal.{Kind, Value, nth_number}
use mftextractor.Btrfs.{Key, array_of, parse_struct}
use mftextractor.Btrfs.Items.{InodeItem, parse_inode_item}

-- The pointers Inode and DropProgress are not read by Unmarshal.
-- RootItem
pub record RootItem : Type 0 where
  pub inode : Option InodeItem
  pub generation : ℕ
  pub root_dir_id : ℕ
  pub bytenr : ℕ
  pub byte_limit : ℕ
  pub bytes_used : ℕ
  pub last_snapshot : ℕ
  pub flags : ℕ
  pub refs : ℕ
  pub drop_progress : Option Key
  pub drop_level : ℕ
  pub level : ℕ
  pub gen_v2 : ℕ
  pub uuid : List ℕ
  pub parent_uuid : List ℕ
  pub received_uuid : List ℕ
  pub ctrans_id : ℕ
  pub otrans_id : ℕ
  pub strans_id : ℕ
  pub rtrans_id : ℕ
  pub atime : ℕ
  pub ctime : ℕ
  pub mtime : ℕ
  pub otime : ℕ

abbrev pub root_item_fields : List Kind
root_item_fields =
    Kind.unhandled
    ∷ Kind.uint64
    ∷ Kind.uint64
    ∷ Kind.uint64
    ∷ Kind.uint64
    ∷ Kind.uint64
    ∷ Kind.uint64
    ∷ Kind.uint64
    ∷ Kind.uint32
    ∷ Kind.unhandled
    ∷ Kind.uint8
    ∷ Kind.uint8
    ∷ Kind.uint64
    ∷ Kind.array 16
    ∷ Kind.array 16
    ∷ Kind.array 16
    ∷ Kind.uint64
    ∷ Kind.uint64
    ∷ Kind.uint64
    ∷ Kind.uint64
    ∷ Kind.time_spec
    ∷ Kind.time_spec
    ∷ Kind.time_spec
    ∷ Kind.time_spec
    ∷ []

abbrev pub root_item_of : List Value → RootItem
root_item_of vs = record {
  inode = none;
  generation = nth_number vs 1;
  root_dir_id = nth_number vs 2;
  bytenr = nth_number vs 3;
  byte_limit = nth_number vs 4;
  bytes_used = nth_number vs 5;
  last_snapshot = nth_number vs 6;
  flags = nth_number vs 7;
  refs = nth_number vs 8;
  drop_progress = none;
  drop_level = nth_number vs 10;
  level = nth_number vs 11;
  gen_v2 = nth_number vs 12;
  uuid = array_of 16 vs 13;
  parent_uuid = array_of 16 vs 14;
  received_uuid = array_of 16 vs 15;
  ctrans_id = nth_number vs 16;
  otrans_id = nth_number vs 17;
  strans_id = nth_number vs 18;
  rtrans_id = nth_number vs 19;
  atime = nth_number vs 20;
  ctime = nth_number vs 21;
  mtime = nth_number vs 22;
  otime = nth_number vs 23;
}

-- RootItem.Parse
unfoldable pub parse_root_item : Slice → Outcome (RootItem × ℕ)
unfolding parse_inode_item
parse_root_item buf = do
  (inode, inode_offset) ← parse_inode_item buf
  rest ← slice_from buf inode_offset
  (root, offset) ← parse_struct root_item_fields root_item_of rest
  ok (record root { inode = some inode }, offset + inode_offset)
