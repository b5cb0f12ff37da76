-- ===== src/Btrfs/Leaf.antt =====
-- FS/BTRFS/leafnode/structures.go: the leaf, its items and their data. The log lines are left out.
pub mod Laws
pub mod Layout
use mftextractor.Base.{
  ℕ, zero, suc, ◌+◌, ◌-◌, ◌*◌, ◌%◌, ◌^◌, Bool, true, false, not, ◌&&◌, Option, none, some, List, [],
  ◌∷◌, ◌++◌, ltb, leb, ◌==◌, if◌then◌else◌,
}
use mftextractor.Go.Outcome.{Outcome, ok, panic, stuck, ◌>>=◌}
use mftextractor.Go.Slice.{Slice, bytes, slice, slice_from}
use mftextractor.Go.Text.{GoString, codes, str_eq}
use mftextractor.Utils.Endian.{to_uint32}
use mftextractor.Utils.Unmarshal.{Kind, Value, unmarshal, nth_number, nth_raw}
use mftextractor.Btrfs.{
  Key, key_of, parse_key, parse_struct, get_key_type, object_type, key_is_dev_item,
  key_is_dev_extent_item,
}
use mftextractor.Btrfs.Items.{
  DevItem, InodeItem, DevExtentItem, BlockGroupItem, parse_dev_item, parse_inode_item,
  parse_dev_extent_item, parse_block_group_item,
}
use mftextractor.Btrfs.Items.Roots.{RootItem, parse_root_item}
use mftextractor.Btrfs.Items.Extents.{ExtentItem, ExtentData, parse_extent_item, parse_extent_data}
use mftextractor.Btrfs.Items.Names.{
  RootRef, InodeRef, DirItem, DirIndex, parse_root_ref, parse_inode_ref, parse_dir_item,
  parse_dir_index,
}
use mftextractor.Btrfs.Items.Chunks.{ChunkItem, parse_chunk_item, parse_checksum_item}

-- Item
pub record Item : Type 0 where
  pub key : Key
  pub data_offset : ℕ
  pub data_len : ℕ

-- Key is a pointer, which Unmarshal leaves alone.
abbrev pub item_fields : List Kind
item_fields = Kind.unhandled ∷ Kind.uint32 ∷ Kind.uint32 ∷ []

-- Item.Parse
unfoldable pub parse_item : Slice → Outcome (Item × ℕ)
parse_item buf = do
  (key, read) ← parse_key buf
  u ← unmarshal item_fields buf
  ok (
    record { key = key; data_offset = nth_number u.values 1; data_len = nth_number u.values 2 },
    u.idx,
  )

-- The implementations of DataItem.
pub data DataItem : Type 0 where
  dev : DevItem → DataItem
  chunk : ChunkItem → DataItem
  inode : InodeItem → DataItem
  extent : ExtentItem → DataItem
  extent_data : ExtentData → DataItem
  root : RootItem → DataItem
  inode_ref : InodeRef → DataItem
  dir : DirItem → DataItem
  dir_index : DirIndex → DataItem
  block_group : BlockGroupItem → DataItem
  dev_stats : DataItem
  dev_extent : DevExtentItem → DataItem
  root_ref : RootRef → DataItem
  root_back_ref : RootRef → DataItem
  checksums : List ℕ → DataItem

-- Item.GetType
unfoldable pub get_item_type : Item → GoString
unfolding get_key_type
get_item_type item = get_key_type item.key

-- Item.IsDevType, Item.IsChunkType and the other questions about the type
unfoldable pub is_dev_type : Item → Bool
unfolding key_is_dev_item
is_dev_type item = key_is_dev_item item.key

unfoldable pub is_chunk_type : Item → Bool
unfolding get_item_type
is_chunk_type item = str_eq (get_item_type item) (codes "CHUNK_ITEM")

unfoldable pub is_checksum_item : Item → Bool
unfolding get_item_type
is_checksum_item item = str_eq (get_item_type item) (codes "EXTENT_CSUM")

unfoldable pub is_extent_item : Item → Bool
unfolding get_item_type
is_extent_item item = str_eq (get_item_type item) (codes "EXTENT_ITEM")

unfoldable pub is_extent_data : Item → Bool
unfolding get_item_type
is_extent_data item = str_eq (get_item_type item) (codes "EXTENT_DATA")

unfoldable pub is_root_ref : Item → Bool
unfolding get_item_type
is_root_ref item = str_eq (get_item_type item) (codes "ROOT_REF")

unfoldable pub is_root_back_ref : Item → Bool
unfolding get_item_type
is_root_back_ref item = str_eq (get_item_type item) (codes "ROOT_BACKREF")

unfoldable pub is_root_item : Item → Bool
unfolding get_item_type
is_root_item item = str_eq (get_item_type item) (codes "ROOT_ITEM")

unfoldable pub is_block_group_item : Item → Bool
unfolding get_item_type
is_block_group_item item = str_eq (get_item_type item) (codes "BLOCK_GROUP_ITEM")

unfoldable pub is_inode_ref : Item → Bool
unfolding get_item_type
is_inode_ref item = str_eq (get_item_type item) (codes "INODE_REF")

unfoldable pub is_dev_item : Item → Bool
unfolding get_item_type
is_dev_item item = str_eq (get_item_type item) (codes "DEV_ITEM")

unfoldable pub is_dir_item : Item → Bool
unfolding get_item_type
is_dir_item item = str_eq (get_item_type item) (codes "DIR_ITEM")

unfoldable pub is_inode_item : Item → Bool
unfolding get_item_type
is_inode_item item = str_eq (get_item_type item) (codes "INODE_ITEM")

unfoldable pub is_xattr : Item → Bool
unfolding get_item_type
is_xattr item = str_eq (get_item_type item) (codes "XATTR_ITEM")

unfoldable pub is_dir_index : Item → Bool
unfolding get_item_type
is_dir_index item = str_eq (get_item_type item) (codes "DIR_INDEX")

unfoldable pub is_metadata_item : Item → Bool
unfolding get_item_type
is_metadata_item item = str_eq (get_item_type item) (codes "METADATA_ITEM")

unfoldable pub is_dev_stats : Item → Bool
unfolding get_item_type
is_dev_stats item = str_eq (get_item_type item) (codes "DEV_STATS")

-- Item.IsFSTree, Item.IsDIRTree, Item.IsExtentTree, Item.IsDEVTree
unfoldable pub is_fs_tree : Item → Bool
unfolding object_type
is_fs_tree item = str_eq (object_type item.key) (codes "FS_TREE")

unfoldable pub is_dir_tree : Item → Bool
unfolding object_type
is_dir_tree item = str_eq (object_type item.key) (codes "ROOT_DIR_TREE")

unfoldable pub is_extent_tree : Item → Bool
unfolding object_type
is_extent_tree item = str_eq (object_type item.key) (codes "EXTENT_TREE")

unfoldable pub is_dev_tree : Item → Bool
unfolding object_type
is_dev_tree item = str_eq (object_type item.key) (codes "DEV_TREE")

-- Parse, called through the interface on the new data item.
abbrev pub as_data_item {ℓ} :
    {A : Type ℓ} → (A → DataItem) → (Slice → Outcome (A × ℕ)) → Slice → Outcome DataItem
as_data_item wrap parse buf = do (a, read) ← parse buf; ok (wrap a)

-- The first entry whose test holds.
abbrev pub first_of {ℓ} : {A : Type ℓ} → List (Bool × A) → Option A
first_of [] = none
first_of ((b, a) ∷ rest) = let other = first_of rest in if b then some a else other

-- The tests of LeafNode.Parse, in their order, with the Parse of the data item that each makes.
unfoldable pub parsers : Item → List (Bool × (Slice → Outcome DataItem))
unfolding is_dev_type
parsers item =
    (is_dev_type item, as_data_item dev parse_dev_item)
    ∷ (is_chunk_type item, as_data_item chunk parse_chunk_item)
    ∷ (is_inode_item item, as_data_item inode parse_inode_item)
    ∷ (is_extent_item item, as_data_item extent parse_extent_item)
    ∷ (is_extent_data item, as_data_item extent_data parse_extent_data)
    ∷ (is_root_item item, as_data_item root parse_root_item)
    ∷ (is_inode_ref item, as_data_item inode_ref parse_inode_ref)
    ∷ (is_dir_item item, as_data_item dir parse_dir_item)
    ∷ (is_dir_index item, as_data_item dir_index parse_dir_index)
    ∷ (is_block_group_item item, as_data_item block_group parse_block_group_item)
    ∷ (is_metadata_item item, as_data_item extent parse_extent_item)
    ∷ (is_dev_stats item, λ buf. ok dev_stats)
    ∷ (key_is_dev_extent_item item.key, as_data_item dev_extent parse_dev_extent_item)
    ∷ (is_root_ref item, as_data_item root_ref parse_root_ref)
    ∷ (is_root_back_ref item, as_data_item root_back_ref parse_root_ref)
    ∷ (is_checksum_item item, as_data_item checksums parse_checksum_item)
    ∷ (is_xattr item, as_data_item dir parse_dir_item)
    ∷ []

-- The choice in LeafNode.Parse: none leaves the data item nil.
unfoldable pub data_parser : Item → Option (Slice → Outcome DataItem)
unfolding parsers
data_parser item = first_of (parsers item)

-- The first loop of LeafNode.Parse: `left` items are to be read, from `offset` on.
unfoldable pub items_from : ℕ → Slice → ℕ → Outcome (List Item × ℕ)
items_from zero buf offset = ok ([], offset)
items_from (suc left) buf offset = do
  part ← slice_from buf offset
  (item, read) ← parse_item part
  (rest, end) ← items_from left buf (offset + read)
  ok (item ∷ rest, end)

-- One round of the second loop; the sum of the two uint32 wraps around.
unfoldable pub parse_data_item : Slice → Item → Outcome (Option DataItem)
unfolding data_parser
parse_data_item buf item = elim (data_parser item) [
  | none ↦ ok none
  | some parse ↦ (do
    part ← slice buf item.data_offset ((item.data_offset + item.data_len) % 2 ^ 32)
    d ← parse part
    ok (some d))
]

-- The second loop
unfoldable pub data_items_of : Slice → List Item → Outcome (List (Option DataItem))
data_items_of buf [] = ok []
data_items_of buf (item ∷ items) = do
  d ← parse_data_item buf item
  ds ← data_items_of buf items
  ok (d ∷ ds)

-- LeafNode
pub record LeafNode : Type 0 where
  pub items : List Item
  pub data_items : List (Option DataItem)

-- LeafNode.Parse, on a leaf whose two slices were made for n items.
unfoldable pub parse_leaf : ℕ → Slice → Outcome (LeafNode × ℕ)
unfolding items_from parse_data_item data_items_of
parse_leaf n buf = do
  (items, offset) ← items_from n buf 0
  ds ← data_items_of buf items
  ok (record { items = items; data_items = ds }, offset)
