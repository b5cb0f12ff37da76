-- ===== src/Btrfs/Items/Extents.antt =====
-- FS/BTRFS/leafnode/structures.go: the extents.
use mftextractor.Base.{
  ℕ, ◌+◌, ◌%◌, Bool, not, ◌&&◌, Option, none, some, List, [], ◌∷◌, ◌==◌, if◌then◌else◌,
}
use mftextractor.Go.Outcome.{Outcome, ok, ◌>>=◌}
use mftextractor.Go.Slice.{Slice, slice_from}
use mftextractor.Go.Text.{codes, str_eq}
use mftextractor.Utils.Unmarshal.{Kind, Value, nth_number}
use mftextractor.Btrfs.{extent_types, extent_item_types, name_in, parse_struct}

-- ExtentDataRef
pub record ExtentDataRef : Type 0 where
  pub root : ℕ
  pub object_id : ℕ
  pub offset : ℕ
  pub count : ℕ

abbrev pub extent_data_ref_fields : List Kind
extent_data_ref_fields = Kind.uint64 ∷ Kind.uint64 ∷ Kind.uint64 ∷ Kind.uint32 ∷ []

abbrev pub extent_data_ref_of : List Value → ExtentDataRef
extent_data_ref_of vs = record {
  root = nth_number vs 0;
  object_id = nth_number vs 1;
  offset = nth_number vs 2;
  count = nth_number vs 3;
}

-- ExtentDataRem
pub record ExtentDataRem : Type 0 where
  pub logica_address : ℕ
  pub size : ℕ
  pub offset : ℕ
  pub logical_bytes : ℕ

abbrev pub extent_data_rem_fields : List Kind
extent_data_rem_fields = Kind.uint64 ∷ Kind.uint64 ∷ Kind.uint64 ∷ Kind.uint64 ∷ []

abbrev pub extent_data_rem_of : List Value → ExtentDataRem
extent_data_rem_of vs = record {
  logica_address = nth_number vs 0;
  size = nth_number vs 1;
  offset = nth_number vs 2;
  logical_bytes = nth_number vs 3;
}

-- InlineRef
pub record InlineRef : Type 0 where
  pub type : ℕ
  pub offset : ℕ

abbrev pub inline_ref_fields : List Kind
inline_ref_fields = Kind.uint8 ∷ Kind.uint64 ∷ []

abbrev pub inline_ref_of : List Value → InlineRef
inline_ref_of vs = record { type = nth_number vs 0; offset = nth_number vs 1 }

-- ExtentDataRefKey
pub record ExtentDataRefKey : Type 0 where
  pub count : ℕ

-- ExtentItem
pub record ExtentItem : Type 0 where
  pub ref_count : ℕ
  pub generation : ℕ
  pub flags : ℕ
  pub inline_ref : Option InlineRef
  pub extent_data_ref : Option ExtentDataRef
  pub extent_data_ref_key : Option ExtentDataRefKey

abbrev pub extent_item_fields : List Kind
extent_item_fields =
    Kind.uint64 ∷ Kind.uint64 ∷ Kind.uint64 ∷ Kind.unhandled ∷ Kind.unhandled ∷ Kind.unhandled ∷ []

abbrev pub extent_item_of : List Value → ExtentItem
extent_item_of vs = record {
  ref_count = nth_number vs 0;
  generation = nth_number vs 1;
  flags = nth_number vs 2;
  inline_ref = none;
  extent_data_ref = none;
  extent_data_ref_key = none;
}

-- ExtentData
pub record ExtentData : Type 0 where
  pub generation : ℕ
  pub logical_data_len : ℕ
  pub compression : ℕ
  pub encryption : ℕ
  pub other_encoding : ℕ
  pub type : ℕ
  pub extent_data_rem : Option ExtentDataRem
  pub inline_data : List ℕ

abbrev pub extent_data_fields : List Kind
extent_data_fields =
    Kind.uint64 ∷ Kind.uint64 ∷ Kind.uint8 ∷ Kind.uint8 ∷ Kind.uint16 ∷ Kind.uint8 ∷ Kind.unhandled
    ∷ Kind.unhandled ∷ []

abbrev pub extent_data_of : List Value → ExtentData
extent_data_of vs = record {
  generation = nth_number vs 0;
  logical_data_len = nth_number vs 1;
  compression = nth_number vs 2;
  encryption = nth_number vs 3;
  other_encoding = nth_number vs 4;
  type = nth_number vs 5;
  extent_data_rem = none;
  inline_data = [];
}

-- ExtentItem.Parse. What it returns is the size of the struct that is read last.
unfoldable pub parse_extent_item : Slice → Outcome (ExtentItem × ℕ)
parse_extent_item buf = do
  (item, cur_offset) ← parse_struct extent_item_fields extent_item_of buf
  rest ← slice_from buf cur_offset
  (inline, offset) ← parse_struct inline_ref_fields inline_ref_of rest
  let item' = record item { inline_ref = some inline } in
      let with_ref = do
        rest' ← slice_from buf (cur_offset + offset)
        (ref, offset') ← parse_struct extent_data_ref_fields extent_data_ref_of rest'
        ok (record item' { extent_data_ref = some ref }, offset')
      in if str_eq (name_in extent_item_types (item.flags % 256)) (codes "BTRFS_EXTENT_FLAG_DATA")
          && inline.type == 0
        then with_ref
        else ok (item', offset)

abbrev pub is_inline : ExtentData → Bool
is_inline e = str_eq (name_in extent_types e.type) (codes "Inline Extent")

-- The test that ExtentData.Parse makes of the encodings.
abbrev pub is_verbatim : ExtentData → Bool
is_verbatim e = e.compression == 0 && e.encryption == 0

-- ExtentData.Parse. `copy` into the nil InlineData copies nothing.
unfoldable pub parse_extent_data : Slice → Outcome (ExtentData × ℕ)
parse_extent_data buf = do
  (extent, offset) ← parse_struct extent_data_fields extent_data_of buf
  let with_rem = do
    rest ← slice_from buf offset
    (rem, cur_offset) ← parse_struct extent_data_rem_fields extent_data_rem_of rest
    ok (record extent { extent_data_rem = some rem }, offset + cur_offset)
    in let inline = (do rest ← slice_from buf offset; ok (extent, buf.len)) in
      if is_verbatim extent && not (is_inline extent)
      then with_rem
      else if is_verbatim extent && is_inline extent
      then inline
      else ok (extent, offset)
