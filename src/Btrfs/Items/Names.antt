-- ===== src/Btrfs/Items/Names.antt =====
-- FS/BTRFS/leafnode/structures.go: the items that hold a name.
use mftextractor.Base.{ℕ, ◌+◌, List, [], ◌∷◌, ltb, if◌then◌else◌}
use mftextractor.Go.Outcome.{Outcome, ok, ◌>>=◌}
use mftextractor.Go.Slice.{Slice, bytes, slice}
use mftextractor.Go.Text.{GoString}
use mftextractor.Utils.Unmarshal.{Kind, Value, nth_number}
use mftextractor.Btrfs.{dir_types, name_in, parse_struct}

-- RootRef; RootBackRef has the same fields and the same Parse.
-- RootRef
pub record RootRef : Type 0 where
  pub dir_id : ℕ
  pub index : ℕ
  pub length : ℕ
  pub name : GoString

abbrev pub root_ref_fields : List Kind
root_ref_fields = Kind.uint64 ∷ Kind.uint64 ∷ Kind.uint16 ∷ Kind.unhandled ∷ []

abbrev pub root_ref_of : List Value → RootRef
root_ref_of vs = record {
  dir_id = nth_number vs 0;
  index = nth_number vs 1;
  length = nth_number vs 2;
  name = [];
}

-- InodeRef
pub record InodeRef : Type 0 where
  pub index : ℕ
  pub length : ℕ
  pub name : GoString

abbrev pub inode_ref_fields : List Kind
inode_ref_fields = Kind.uint64 ∷ Kind.uint16 ∷ Kind.unhandled ∷ []

abbrev pub inode_ref_of : List Value → InodeRef
inode_ref_of vs = record { index = nth_number vs 0; length = nth_number vs 1; name = [] }

-- DirItem
pub record DirItem : Type 0 where
  pub transid : ℕ
  pub data_len : ℕ
  pub name_len : ℕ
  pub type : ℕ
  pub name : GoString
  pub xatt_value : GoString

abbrev pub dir_item_fields : List Kind
dir_item_fields =
    Kind.uint64 ∷ Kind.uint16 ∷ Kind.uint16 ∷ Kind.uint8 ∷ Kind.unhandled ∷ Kind.unhandled ∷ []

abbrev pub dir_item_of : List Value → DirItem
dir_item_of vs = record {
  transid = nth_number vs 0;
  data_len = nth_number vs 1;
  name_len = nth_number vs 2;
  type = nth_number vs 3;
  name = [];
  xatt_value = [];
}

-- DirIndex
pub record DirIndex : Type 0 where
  pub transid : ℕ
  pub data_len : ℕ
  pub name_len : ℕ
  pub type : ℕ
  pub name : GoString

abbrev pub dir_index_fields : List Kind
dir_index_fields = Kind.uint64 ∷ Kind.uint16 ∷ Kind.uint16 ∷ Kind.uint8 ∷ Kind.unhandled ∷ []

abbrev pub dir_index_of : List Value → DirIndex
dir_index_of vs = record {
  transid = nth_number vs 0;
  data_len = nth_number vs 1;
  name_len = nth_number vs 2;
  type = nth_number vs 3;
  name = [];
}

-- RootRef.Parse, RootBackRef.Parse: the name is read if it is shorter than the fixed part.
unfoldable pub parse_root_ref : Slice → Outcome (RootRef × ℕ)
parse_root_ref buf = do
  (ref, offset) ← parse_struct root_ref_fields root_ref_of buf
  let named = do
    s ← slice buf offset (offset + ref.length)
    ok (record ref { name = bytes s }, offset + ref.length)
    in if ltb ref.length offset then named else ok (ref, offset)

-- InodeRef.Parse
unfoldable pub parse_inode_ref : Slice → Outcome (InodeRef × ℕ)
parse_inode_ref buf = do
  (ref, offset) ← parse_struct inode_ref_fields inode_ref_of buf
  s ← slice buf offset (offset + ref.length)
  ok (record ref { name = bytes s }, offset + ref.length)

-- DirIndex.Parse
unfoldable pub parse_dir_index : Slice → Outcome (DirIndex × ℕ)
parse_dir_index buf = do
  (entry, offset) ← parse_struct dir_index_fields dir_index_of buf
  let named = do
    s ← slice buf offset (offset + entry.name_len)
    ok (record entry { name = bytes s }, offset + entry.name_len)
    in if ltb (offset + entry.name_len) buf.len then named else ok (entry, buf.len)

-- The part of DirItem.Parse behind the name, which ends at `pos`.
abbrev pub with_xattr : Slice → DirItem → ℕ → Outcome (DirItem × ℕ)
with_xattr buf item pos =
    let read = do
      s ← slice buf pos (pos + item.data_len)
      ok (record item { xatt_value = bytes s }, pos + item.data_len)
    in if ltb 1 item.data_len then read else ok (item, pos)

-- DirItem.Parse
unfoldable pub parse_dir_item : Slice → Outcome (DirItem × ℕ)
parse_dir_item buf = do
  (item, offset) ← parse_struct dir_item_fields dir_item_of buf
  let named = do
    s ← slice buf offset (offset + item.name_len)
    with_xattr buf (record item { name = bytes s }) (offset + item.name_len)
    in if ltb (offset + item.name_len) buf.len then named else ok (item, buf.len)

-- DirItem.GetType, DirIndex.GetType
unfoldable pub dir_item_type : DirItem → GoString
dir_item_type item = name_in dir_types item.type

unfoldable pub dir_index_type : DirIndex → GoString
dir_index_type entry = name_in dir_types entry.type
