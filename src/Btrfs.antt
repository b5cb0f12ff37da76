-- ===== src/Btrfs.antt =====
-- FS/BTRFS: the keys, which the three packages declare alike, and leafnode/maps.go.
pub mod Items
pub mod Leaf
pub mod Node
pub mod Superblock
pub mod Crc
pub mod Entries
use mftextractor.Base.{
  ℕ, zero, suc, Bool, Option, none, some, List, [], ◌∷◌, ◌++◌, ◌-◌, ◌==◌, if◌then◌else◌, length,
  replicate,
}
use mftextractor.Go.Outcome.{Outcome, ok, ◌>>=◌}
use mftextractor.Go.Slice.{Slice}
use mftextractor.Go.Text.{GoString, codes, str_eq}
use mftextractor.Utils.Unmarshal.{Kind, Value, unmarshal, nth_number, nth_raw}

-- A Parse method that only calls Unmarshal: the struct and the offset that it returns.
abbrev pub parse_struct {ℓ} : {A : Type ℓ} → List Kind → (List Value → A) → Slice → Outcome (A × ℕ)
parse_struct ks of_values buf = do u ← unmarshal ks buf; ok (of_values u.values, u.idx)

-- The i-th field, an array of n bytes, which are zero before the call.
abbrev pub array_of : ℕ → List Value → ℕ → List ℕ
array_of n vs i = nth_raw vs i ++ replicate (n - length (nth_raw vs i)) 0

-- Key
pub record Key : Type 0 where
  pub object_id : ℕ
  pub item_type : ℕ
  pub offset : ℕ

abbrev pub key_fields : List Kind
key_fields = Kind.uint64 ∷ Kind.uint8 ∷ Kind.uint64 ∷ []

abbrev pub key_of : List Value → Key
key_of vs = record {
  object_id = nth_number vs 0;
  item_type = nth_number vs 1;
  offset = nth_number vs 2;
}

-- Key.Parse
unfoldable pub parse_key : Slice → Outcome (Key × ℕ)
parse_key = parse_struct key_fields key_of

-- A map from integers to names: a missing key gives the empty string.
abbrev pub name_in : List (ℕ × GoString) → ℕ → GoString
name_in [] n = []
name_in ((k, name) ∷ rest) n = let other = name_in rest n in if k == n then name else other

-- ItemTypes
abbrev pub item_types : List (ℕ × GoString)
item_types =
    (0x01, codes "INODE_ITEM")
    ∷ (0x0c, codes "INODE_REF")
    ∷ (0x0d, codes "INODE_EXTREF")
    ∷ (0xb0, codes "TREE_BLOCK_REF")
    ∷ (0x18, codes "XATTR_ITEM")
    ∷ (0x30, codes "ORPHAN_ITEM")
    ∷ (0x48, codes "DIR_LOG_INDEX")
    ∷ (0x54, codes "DIR_ITEM")
    ∷ (0x60, codes "DIR_INDEX")
    ∷ (0x6c, codes "EXTENT_DATA")
    ∷ (0x80, codes "EXTENT_CSUM")
    ∷ (0x84, codes "ROOT_ITEM")
    ∷ (0x90, codes "ROOT_BACKREF")
    ∷ (0x9c, codes "ROOT_REF")
    ∷ (0xa8, codes "EXTENT_ITEM")
    ∷ (0xa9, codes "METADATA_ITEM")
    ∷ (0xb2, codes "EXTENT_DATA_REF")
    ∷ (0xb4, codes "EXTENT_REF_V0")
    ∷ (0xb6, codes "SHARED_BLOCK_REF")
    ∷ (0xb8, codes "SHARED_DATA_REF")
    ∷ (0xc0, codes "BLOCK_GROUP_ITEM")
    ∷ (0xc6, codes "FREE_SPACE_INFO")
    ∷ (0xc7, codes "FREE_SPACE_EXTENT")
    ∷ (0xc8, codes "FREE_SPACE_BITMAP")
    ∷ (0xc9, codes "PERSISTENT_ITEM")
    ∷ (0xcc, codes "DEV_EXTENT")
    ∷ (0x3c, codes "DIR_LOG_ITEM")
    ∷ (0xd8, codes "DEV_ITEM")
    ∷ (0xe4, codes "CHUNK_ITEM")
    ∷ (0xf8, codes "TEMPORARY_ITEM")
    ∷ (0xf9, codes "DEV_STATS")
    ∷ (0xfd, codes "STRING_ITEM")
    ∷ []

-- ObjectTypes
abbrev pub object_types : List (ℕ × GoString)
object_types =
    (0, codes "DEV_STATS")
    ∷ (1, codes "ROOT_TREE")
    ∷ (2, codes "EXTENT_TREE")
    ∷ (3, codes "CHUNK_TREE")
    ∷ (4, codes "DEV_TREE")
    ∷ (5, codes "FS_TREE")
    ∷ (6, codes "ROOT_DIR_TREE")
    ∷ (7, codes "CSUM_TREE")
    ∷ (8, codes "QUOTA_TREE")
    ∷ (9, codes "UUID_TREE")
    ∷ (10, codes "FREE_SPACE")
    ∷ (11, codes "BLOCK_GROUP")
    ∷ (12, codes "RAID_STRIPE")
    ∷ []

-- DirTypes
abbrev pub dir_types : List (ℕ × GoString)
dir_types =
    (0, codes "BTRFS_TYPE_UNKNOWN")
    ∷ (1, codes "BTRFS_TYPE_FILE")
    ∷ (2, codes "BTRFS_TYPE_DIRECTORY")
    ∷ (3, codes "BTRFS_TYPE_CHARDEV")
    ∷ (4, codes "BTRFS_TYPE_BLOCKDEV")
    ∷ (5, codes "BTRFS_TYPE_FIFO")
    ∷ (6, codes "BTRFS_TYPE_SOCKET")
    ∷ (7, codes "BTRFS_TYPE_SYMLINK")
    ∷ (8, codes "BTRFS_TYPE_EA")
    ∷ []

-- ExtentTypes
abbrev pub extent_types : List (ℕ × GoString)
extent_types =
    (0, codes "Inline Extent") ∷ (1, codes "Regular Extent") ∷ (2, codes "Pre-alloc Extent") ∷ []

-- ExtentItemTypes
abbrev pub extent_item_types : List (ℕ × GoString)
extent_item_types =
    (1, codes "BTRFS_EXTENT_FLAG_DATA")
    ∷ (2, codes "BTRFS_EXTENT_FLAG_TREE_BLOCK")
    ∷ (128, codes "BTRFS_BLOCK_FLAG_FULL_BACKREF")
    ∷ []

-- Key.GetType
unfoldable pub get_key_type : Key → GoString
get_key_type k = name_in item_types k.item_type

-- ObjectTypes[int(key.ObjectID)]: an id of 2^63 and more is negative, and is no key of the map.
unfoldable pub object_type : Key → GoString
object_type k = name_in object_types k.object_id

-- Key.IsDevItem
unfoldable pub key_is_dev_item : Key → Bool
unfolding get_key_type
key_is_dev_item k = str_eq (get_key_type k) (codes "DEV_ITEM")

-- Key.IsDevExtentItem
unfoldable pub key_is_dev_extent_item : Key → Bool
unfolding get_key_type
key_is_dev_extent_item k = str_eq (get_key_type k) (codes "DEV_EXTENT")
