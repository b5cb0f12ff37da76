-- ===== src/Btrfs/Node.antt =====
-- FS/BTRFS/genericnode.go and internalnode/structures.go: the nodes of the trees.
pub mod Laws
use mftextractor.Base.{
  ℕ, zero, suc, ◌+◌, ◌-◌, ◌*◌, ◌%◌, Bool, true, false, not, ◌&&◌, Option, none, some, List, [], ◌∷◌,
  ◌++◌, ltb, leb, ◌==◌, if◌then◌else◌,
}
use mftextractor.Go.Outcome.{Outcome, ok, panic, stuck, ◌>>=◌}
use mftextractor.Go.Slice.{Slice, bytes, slice, slice_from}
use mftextractor.Go.Text.{GoString, codes, str_eq}
use mftextractor.Utils.Endian.{to_uint32}
use mftextractor.Utils.Unmarshal.{Kind, Value, unmarshal, nth_number, nth_raw}
use mftextractor.Btrfs.{Key, array_of, parse_key, parse_struct}
use mftextractor.Btrfs.Crc.{calc_crc32}
use mftextractor.Btrfs.Leaf.{Item, DataItem, LeafNode, parse_leaf}

-- Header
pub record Header : Type 0 where
  pub chksum : List ℕ
  pub fs_uuid : List ℕ
  pub logical_address_node : ℕ
  pub flags : List ℕ
  pub back_ref : ℕ
  pub chunk_tree_uuid : List ℕ
  pub generation : ℕ
  pub owner : ℕ
  pub nof_items : ℕ
  pub level : ℕ

abbrev pub tree_header_fields : List Kind
tree_header_fields =
    Kind.array 32
    ∷ Kind.array 16
    ∷ Kind.uint64
    ∷ Kind.array 7
    ∷ Kind.uint8
    ∷ Kind.array 16
    ∷ Kind.uint64
    ∷ Kind.uint64
    ∷ Kind.uint32
    ∷ Kind.uint8
    ∷ []

abbrev pub tree_header_of : List Value → Header
tree_header_of vs = record {
  chksum = array_of 32 vs 0;
  fs_uuid = array_of 16 vs 1;
  logical_address_node = nth_number vs 2;
  flags = array_of 7 vs 3;
  back_ref = nth_number vs 4;
  chunk_tree_uuid = array_of 16 vs 5;
  generation = nth_number vs 6;
  owner = nth_number vs 7;
  nof_items = nth_number vs 8;
  level = nth_number vs 9;
}

-- BlockPointer, zero before the call of Parse; Key is a pointer.
pub record BlockPointer : Type 0 where
  pub key : Option Key
  pub logical_address_ref_header : ℕ
  pub generation : ℕ

abbrev pub block_pointer_fields : List Kind
block_pointer_fields = Kind.unhandled ∷ Kind.uint64 ∷ Kind.uint64 ∷ []

-- The size of a reflect.Value, which is what BlockPointer.Parse compares the data with, twice.
abbrev value_size : ℕ
value_size = 24

-- BlockPointer.Parse
unfoldable pub parse_block_pointer : Slice → Outcome (BlockPointer × ℕ)
parse_block_pointer buf =
    let short : BlockPointer = record {
      key = none;
      logical_address_ref_header = 0;
      generation = 0;
    } in
    let long = do
      (key, read) ← parse_key buf
      u ← unmarshal block_pointer_fields buf
      ok (
        record {
          key = some key;
          logical_address_ref_header = nth_number u.values 1;
          generation = nth_number u.values 2;
        },
        u.idx,
      )
    in if ltb buf.len value_size then ok (short, 0) else long

-- The loop of InternalNode.Parse: `left` items are to be read, from `start` on.
unfoldable pub block_pointers_from : ℕ → Slice → ℕ → Outcome (List BlockPointer × ℕ)
unfolding parse_block_pointer
block_pointers_from zero buf start = ok ([], start)
block_pointers_from (suc left) buf start = do
  part ← slice_from buf start
  (item, read) ← parse_block_pointer part
  (rest, end) ← block_pointers_from left buf (start + read)
  ok (item ∷ rest, end)

-- InternalNode.Parse, on a node whose slice was made for n items.
abbrev pub parse_internal : ℕ → Slice → Outcome (List BlockPointer × ℕ)
parse_internal n buf = block_pointers_from n buf 0

-- GenericNode; an internal node is the list of its items.
pub record GenericNode : Type 0 where
  pub header : Option Header
  pub leaf_node : Option LeafNode
  pub internal_node : Option (List BlockPointer)

-- GenericNode.ChsumToUint
abbrev pub chsum_to_uint : Header → ℕ
chsum_to_uint h = to_uint32 h.chksum

module _ (checksum : List ℕ → List ℕ → ℕ) where
  -- GenericNode.VerifyChkSum
  unfoldable pub verify_chk_sum : Header → Slice → Outcome Bool
  unfolding calc_crc32
  verify_chk_sum h buf = do
    rest ← slice_from buf 32
    ok (chsum_to_uint h == calc_crc32 checksum (bytes rest))

  -- The part of GenericNode.Parse behind the verification.
  unfoldable pub parse_items : Header → Slice → ℕ → Outcome (Option (GenericNode × ℕ))
  parse_items h buf offset =
      let as_leaf = do
        rest ← slice_from buf offset
        (leaf, read) ← parse_leaf h.nof_items rest
        ok (
            some (
              record { header = some h; leaf_node = some leaf; internal_node = none },
              offset + read,
            ))
      in let as_internal = do
        rest ← slice_from buf offset
        (items, read) ← parse_internal h.nof_items rest
        ok (
            some (
              record { header = some h; leaf_node = none; internal_node = some items },
              offset + read,
            ))
        in if h.level == 0 then as_leaf else as_internal

  -- GenericNode.Parse; none is its error. The checksum is computed only if it is to be verified.
  unfoldable pub parse_node : Slice → Bool → Outcome (Option (GenericNode × ℕ))
  unfolding verify_chk_sum parse_items
  parse_node buf noverify = do
    (h, offset) ← parse_struct tree_header_fields tree_header_of buf
    is_good ← (let check = verify_chk_sum h buf in if noverify then ok true else check)
    let rest = parse_items h buf offset in if is_good then rest else ok none

-- The loop of FilterItemsById: the i-th item has the i-th data item, an access that panics.
unfoldable pub with_id_from :
    ℕ → List Item → List (Option DataItem) → Outcome (List Item × List (Option DataItem))
with_id_from id [] ds = ok ([], [])
with_id_from id (item ∷ items) [] =
    let rest = with_id_from id items [] in if item.key.object_id == id then panic else rest
with_id_from id (item ∷ items) (d ∷ ds) = do
  (is, es) ← with_id_from id items ds
  ok (if item.key.object_id == id then (item ∷ is, d ∷ es) else (is, es))

-- GenericNode.FilterItemsById
unfoldable pub filter_items_by_id : ℕ → GenericNode → Outcome (List Item × List (Option DataItem))
unfolding with_id_from
filter_items_by_id id node = elim node.leaf_node [
  | none ↦ ok ([], [])
  | some leaf ↦ with_id_from id leaf.items leaf.data_items
]

-- The inner loop of FilterItemsByIds, for one id.
unfoldable pub nodes_with_id : ℕ → List GenericNode → Outcome (List Item × List (Option DataItem))
unfolding filter_items_by_id
nodes_with_id id [] = ok ([], [])
nodes_with_id id (node ∷ nodes) = do
  (is, es) ← filter_items_by_id id node
  (is', es') ← nodes_with_id id nodes
  ok (is ++ is', es ++ es')

-- GenericNodesPtr.FilterItemsByIds; an id is what ParseUint makes of its string, none for an error.
unfoldable pub filter_items_by_ids :
    List (Option ℕ) → List GenericNode → Outcome (List Item × List (Option DataItem))
unfolding nodes_with_id
filter_items_by_ids [] nodes = ok ([], [])
filter_items_by_ids (none ∷ ids) nodes = filter_items_by_ids ids nodes
filter_items_by_ids (some id ∷ ids) nodes = do
  (is, es) ← nodes_with_id id nodes
  (is', es') ← filter_items_by_ids ids nodes
  ok (is ++ is', es ++ es')
