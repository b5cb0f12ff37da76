-- ===== src/Attributes/Header.antt =====
-- FS/NTFS/MFT/attributes/attributes.go: the header that every attribute starts with.
use mftextractor.Base.{ℕ, Bool, Option, none, some, List, [], ◌∷◌, ◌++◌, ◌==◌, if◌then◌else◌}
use mftextractor.Go.Outcome.{Outcome, ok, ◌>>=◌}
use mftextractor.Go.Slice.{Slice, slice}
use mftextractor.Go.Text.{GoString, codes, str_eq}
use mftextractor.Utils.Bytes.{bytereverse, hexify}
use mftextractor.Utils.Unmarshal.{Kind, Value, unmarshal, nth_number, nth_raw}
use mftextractor.Attributes.RunList.{RunList}

-- A Go map with string keys, read by `m[k]`.
unfoldable pub lookup {ℓ} : {V : Type ℓ} → GoString → List (GoString × V) → Option V
unfolding str_eq
lookup k [] = none
lookup k ((j, v) ∷ m) = let rest = lookup k m in if str_eq j k then some v else rest

-- AttrTypes
abbrev pub attr_types : List (GoString × GoString)
attr_types =
    (codes "00000010", codes "Standard Information")
    ∷ (codes "00000020", codes "Attribute List")
    ∷ (codes "00000030", codes "FileName")
    ∷ (codes "00000040", codes "Object ID")
    ∷ (codes "00000050", codes "Security Descriptor")
    ∷ (codes "00000060", codes "Volume Name")
    ∷ (codes "00000070", codes "Volume Information")
    ∷ (codes "00000080", codes "DATA")
    ∷ (codes "00000090", codes "Index Root")
    ∷ (codes "000000a0", codes "Index Allocation")
    ∷ (codes "000000b0", codes "BitMap")
    ∷ (codes "000000c0", codes "Reparse Point")
    ∷ (codes "000000d0", codes "Extended Attribute Information")
    ∷ (codes "000000e0", codes "Extended Attribute")
    ∷ (codes "000000f0", codes "Extended Attribute Information")
    ∷ (codes "00000100", codes "Logged Utility Stream")
    ∷ (codes "ffffffff", codes "Last")
    ∷ []

pub record ResidentRecord : Type 0 where
  pub content_size : ℕ
  pub offset_content : ℕ
  pub idx_flags : ℕ
  pub name : GoString

pub record NonResidentRecord : Type 0 where
  pub start_vcn : ℕ
  pub last_vcn : ℕ
  pub run_off : ℕ
  pub compusize : ℕ
  pub f1 : ℕ
  pub length : ℕ
  pub actual_length : ℕ
  pub init_length : ℕ
  pub run_list : Option RunList
  pub run_list_total_len_cl : ℕ

pub record AttributeHeader : Type 0 where
  pub type_ : List ℕ
  pub attr_len : ℕ
  pub no_n_resident : ℕ
  pub nlen : ℕ
  pub name_off : ℕ
  pub flags : ℕ
  pub id : ℕ
  pub resident : Option ResidentRecord
  pub non_resident : Option NonResidentRecord

-- The fields of AttributeHeader as Unmarshal meets them; the two pointers are left alone.
abbrev pub header_fields : List Kind
header_fields =
    Kind.array 4
    ∷ Kind.uint16
    ∷ Kind.array 2
    ∷ Kind.uint8
    ∷ Kind.uint8
    ∷ Kind.uint16
    ∷ Kind.uint16
    ∷ Kind.uint16
    ∷ Kind.unhandled
    ∷ Kind.unhandled
    ∷ []

abbrev pub header_of : List Value → AttributeHeader
header_of vs = record {
  type_ = nth_raw vs 0;
  attr_len = nth_number vs 1;
  no_n_resident = nth_number vs 3;
  nlen = nth_number vs 4;
  name_off = nth_number vs 5;
  flags = nth_number vs 6;
  id = nth_number vs 7;
  resident = none;
  non_resident = none;
}

-- The string has no case in Unmarshal.
abbrev pub resident_fields : List Kind
resident_fields = Kind.uint32 ∷ Kind.uint16 ∷ Kind.uint16 ∷ Kind.unhandled ∷ []

abbrev pub resident_of : List Value → ResidentRecord
resident_of vs = record {
  content_size = nth_number vs 0;
  offset_content = nth_number vs 1;
  idx_flags = nth_number vs 2;
  name = [];
}

-- `RunListTotalLenCl` is a uint64, so Unmarshal reads eight bytes into it too.
abbrev pub non_resident_fields : List Kind
non_resident_fields =
    Kind.uint64 ∷ Kind.uint64 ∷ Kind.uint16 ∷ Kind.uint16 ∷ Kind.uint32 ∷ Kind.uint64 ∷ Kind.uint64
    ∷ Kind.uint64 ∷ Kind.unhandled ∷ Kind.uint64 ∷ []

abbrev pub non_resident_of : List Value → NonResidentRecord
non_resident_of vs = record {
  start_vcn = nth_number vs 0;
  last_vcn = nth_number vs 1;
  run_off = nth_number vs 2;
  compusize = nth_number vs 3;
  f1 = nth_number vs 4;
  length = nth_number vs 5;
  actual_length = nth_number vs 6;
  init_length = nth_number vs 7;
  run_list = none;
  run_list_total_len_cl = nth_number vs 9;
}

-- ATRrecordResident.Parse
unfoldable pub parse_resident : Slice → Outcome ResidentRecord
unfolding unmarshal
parse_resident buf = do
  s ← slice buf 0 8
  u ← unmarshal resident_fields s
  ok (resident_of u.values)

-- The text that GetType returns for a type that the table does not name.
abbrev pub unknown_type : List ℕ → GoString
unknown_type bs = bs ++ codes " "

-- GetType, on the four bytes of the type. Bytereverse turns the bytes of the receiver's copy round in
-- place, so an unknown type is printed reversed.
unfoldable pub type_name : List ℕ → GoString
unfolding lookup hexify bytereverse
type_name bs = elim (lookup (hexify (bytereverse bs)) attr_types) [
  | some t ↦ t
  | none ↦ unknown_type (bytereverse bs)
]

abbrev pub get_type : AttributeHeader → GoString
get_type h = type_name h.type_

-- IsLast, IsFileName, IsData and the other twelve tests of the kind.
abbrev pub is_type : GoString → AttributeHeader → Bool
is_type name h = str_eq (get_type h) name

-- IsNoNResident
abbrev pub is_no_n_resident : AttributeHeader → Bool
is_no_n_resident h = h.no_n_resident == 1
