-- ===== src/Mft/Record.antt =====
-- FS/NTFS/MFT/MFT.go: a record of the table, and what it answers about itself.
use mftextractor.Base.{
  ℕ, Bool, true, false, not, ◌&&◌, ◌||◌, Option, none, some, List, [], ◌∷◌, ◌==◌, if◌then◌else◌,
}
use mftextractor.Go.Outcome.{Outcome, ok, or_panic, ◌>>=◌}
use mftextractor.Go.Text.{GoString, codes, str_eq}
use mftextractor.Utils.Bytes.{filter}
use mftextractor.Utils.Unmarshal.{Kind, Value, nth_number, nth_raw}
use mftextractor.Attributes.Attribute.{Attribute, find_type, is_non_resident, as_fn, as_data}
use mftextractor.Attributes.Fields.{FnAttribute}
use mftextractor.Attributes.Header.{lookup}
use mftextractor.Attributes.RunList.{RunList}

-- FixUp. The two fields of the code are slices of the buffer: `place` is where they start in that of
-- the record, if they are a part of it.
pub record FixUp : Type 0 where
  pub signature : List ℕ
  pub original_values : List (List ℕ)
  pub place : Option ℕ

pub record LinkedRecordInfo : Type 0 where
  pub ref_entry : ℕ
  pub ref_seq : ℕ
  pub start_vcn : ℕ

-- A pointer to a record is always one into the table's slice of records: it is the index there.
pub record Record : Type 0 where
  pub signature : GoString
  pub update_fix_up_arr_offset : ℕ
  pub update_fix_up_arr_size : ℕ
  pub lsn : ℕ
  pub seq : ℕ
  pub linkcount : ℕ
  pub attr_off : ℕ
  pub flags : ℕ
  pub size : ℕ
  pub alloc_size : ℕ
  pub base_ref : ℕ
  pub next_attr_id : ℕ
  pub f1 : ℕ
  pub entry : ℕ
  pub fix_up : Option FixUp
  pub attributes : List Attribute
  pub bitmap : Bool
  pub linked_records_info : List LinkedRecordInfo
  pub linked_records : List ℕ
  pub origin_linked_record : Option ℕ
  pub i30_size : ℕ
  pub parent : Option ℕ

-- Record{}
abbrev pub new_record : Record
new_record = record {
  signature = 0 ∷ 0 ∷ 0 ∷ 0 ∷ [];
  update_fix_up_arr_offset = 0;
  update_fix_up_arr_size = 0;
  lsn = 0;
  seq = 0;
  linkcount = 0;
  attr_off = 0;
  flags = 0;
  size = 0;
  alloc_size = 0;
  base_ref = 0;
  next_attr_id = 0;
  f1 = 0;
  entry = 0;
  fix_up = none;
  attributes = [];
  bitmap = false;
  linked_records_info = [];
  linked_records = [];
  origin_linked_record = none;
  i30_size = 0;
  parent = none;
}

-- The fields of Record: the boolean takes a byte, and the size behind it eight.
abbrev pub record_fields : List Kind
record_fields =
    Kind.array 4
    ∷ Kind.uint16
    ∷ Kind.uint16
    ∷ Kind.uint64
    ∷ Kind.uint16
    ∷ Kind.uint16
    ∷ Kind.uint16
    ∷ Kind.uint16
    ∷ Kind.uint32
    ∷ Kind.uint32
    ∷ Kind.uint64
    ∷ Kind.uint16
    ∷ Kind.uint16
    ∷ Kind.uint32
    ∷ Kind.unhandled
    ∷ Kind.unhandled
    ∷ Kind.boolean
    ∷ Kind.unhandled
    ∷ Kind.unhandled
    ∷ Kind.unhandled
    ∷ Kind.uint64
    ∷ Kind.unhandled
    ∷ []

-- Unmarshal into a record that may have been used before: pointers and slices keep their values.
abbrev pub record_of : Record → List Value → Record
record_of r vs = record r {
  signature = nth_raw vs 0;
  update_fix_up_arr_offset = nth_number vs 1;
  update_fix_up_arr_size = nth_number vs 2;
  lsn = nth_number vs 3;
  seq = nth_number vs 4;
  linkcount = nth_number vs 5;
  attr_off = nth_number vs 6;
  flags = nth_number vs 7;
  size = nth_number vs 8;
  alloc_size = nth_number vs 9;
  base_ref = nth_number vs 10;
  next_attr_id = nth_number vs 11;
  f1 = nth_number vs 12;
  entry = nth_number vs 13;
  bitmap = false;
  i30_size = nth_number vs 20;
}

-- MFTflags[record.Flags]
unfoldable pub record_type : Record → GoString
record_type r =
    if r.flags == 0
    then codes "File Unallocated"
    else if r.flags == 1
    then codes "File Allocated"
    else if r.flags == 2
    then codes "Folder Unallocated"
    else if r.flags == 3
    then codes "Folder Allocated"
    else []

-- IsFolder
unfoldable pub is_folder : Record → Bool
unfolding record_type str_eq
is_folder r =
    str_eq (record_type r) (codes "Folder Unallocated")
    || str_eq (record_type r) (codes "Folder Allocated")

-- IsDeleted
unfoldable pub is_deleted : Record → Bool
unfolding record_type str_eq
is_deleted r =
    str_eq (record_type r) (codes "File Unallocated")
    || str_eq (record_type r) (codes "Folder Unallocated")

unfoldable pub find_in : GoString → List Attribute → Option Attribute
find_in name [] = none
find_in name (a ∷ as_) =
    let rest = find_in name as_ in if str_eq (find_type a) name then some a else rest

-- FindAttribute
abbrev pub find_attribute : Record → GoString → Option Attribute
find_attribute r name = find_in name r.attributes

abbrev pub is_some {ℓ} : {A : Type ℓ} → Option A → Bool
is_some none = false
is_some (some a) = true

-- HasAttr
abbrev pub has_attr : Record → GoString → Bool
has_attr r name = is_some (find_attribute r name)

abbrev is_resident : Option Attribute → Bool
is_resident none = false
is_resident (some a) = not (is_non_resident a)

-- HasResidentDataAttr
unfoldable pub has_resident_data_attr : Record → Bool
unfolding find_in
has_resident_data_attr r = is_resident (find_attribute r (codes "DATA"))

-- FindNonResidentAttributes
unfoldable pub find_non_resident_attributes : Record → List Attribute
unfolding filter
find_non_resident_attributes r = filter r.attributes is_non_resident

-- FilterOutNonResidentAttributes
unfoldable pub filter_out_non_resident_attributes : Record → GoString → List Attribute
unfolding filter str_eq
filter_out_non_resident_attributes r name =
    filter r.attributes (λ a. is_non_resident a && not (str_eq (find_type a) name))

-- *attr.GetHeader().ATRrecordNoNResident.RunList, through three pointers that may be nil.
abbrev pub run_list_of : Option Attribute → Outcome RunList
run_list_of a = do attr ← or_panic a; n ← or_panic attr.header.non_resident; or_panic n.run_list

-- GetResidentData
unfoldable pub get_resident_data : Record → Outcome (List ℕ)
unfolding find_in
get_resident_data r = do
  a ← or_panic (find_attribute r (codes "DATA"))
  or_panic (as_data a.content)

-- NameSpaceFlags[fnAttr.Nspace]
unfoldable pub file_name_type : FnAttribute → GoString
file_name_type f =
    if f.nspace == 0
    then codes "POSIX"
    else if f.nspace == 1
    then codes "Win32"
    else if f.nspace == 2
    then codes "Dos"
    else if f.nspace == 3
    then codes "Win32 & Dos"
    else []

-- The map of GetFnames, newest binding first: a later name of a kind hides an earlier one.
unfoldable pub fnames_of :
    List Attribute → List (GoString × GoString) → Outcome (List (GoString × GoString))
fnames_of [] m = ok m
fnames_of (a ∷ as_) m = do
  f ← or_panic (as_fn a.content)
  fnames_of as_ ((file_name_type f, f.fname) ∷ m)

-- GetFnames
unfoldable pub get_fnames : Record → Outcome (List (GoString × GoString))
unfolding filter str_eq fnames_of file_name_type
get_fnames r = fnames_of (filter r.attributes (λ a. str_eq (find_type a) (codes "FileName"))) []

-- The loop of GetFname over the kinds of names.
unfoldable pub first_name : List GoString → List (GoString × GoString) → GoString
unfolding lookup
first_name [] m = codes "-"
first_name (scheme ∷ schemes) m =
    let rest = first_name schemes m in elim (lookup scheme m) [ some name ↦ name | none ↦ rest ]

abbrev pub name_schemes : List GoString
name_schemes = codes "Win32" ∷ codes "Win32 & Dos" ∷ codes "POSIX" ∷ codes "Dos" ∷ []

-- GetFname on a record with no OriginLinkedRecord.
unfoldable pub own_fname : Record → Outcome GoString
unfolding get_fnames first_name
own_fname r = do m ← get_fnames r; ok (first_name name_schemes m)
