-- ===== src/Attributes/Attribute.antt =====
-- FS/NTFS/MFT/MFT.go, interface Attribute: the kinds of attributes behind one interface.
use mftextractor.Base.{ℕ, Bool, false, Option, List, none, some}
use mftextractor.Go.Text.{GoString}
use mftextractor.Attributes.Header.{AttributeHeader, get_type, is_no_n_resident}
use mftextractor.Attributes.Fields.{FnAttribute, SiAttribute, ObjectId, VolumeInfo}
use mftextractor.Attributes.Fields.Extended.{Reparse, EaInformation, ExtendedAttribute, TxfData}
use mftextractor.Attributes.Index.{IndexRoot, IndexAllocation}
use mftextractor.Attributes.AttrList.{AttributeList}

-- The types that implement the interface, each with the fields that its Parse sets. One that stands
-- for a non-resident attribute has not been parsed.
pub data Content : Type 0 where
  file_name : FnAttribute → Content
  reparse : Reparse → Content
  data_ : List ℕ → Content
  object_id : ObjectId → Content
  attr_list : List AttributeList → Content
  bitmap : List ℕ → Content
  volume_name : GoString → Content
  volume_info : VolumeInfo → Content
  index_root : IndexRoot → Content
  index_allocation : IndexAllocation → Content
  std_info : SiAttribute → Content
  logged_utility : GoString → Option TxfData → Content
  extended : ExtendedAttribute → Content
  ea_information : EaInformation → Content

-- Every implementation has a pointer to its header, which SetHeader sets.
pub record Attribute : Type 0 where
  pub header : AttributeHeader
  pub content : Content

-- FindType
abbrev pub find_type : Attribute → GoString
find_type a = get_type a.header

-- IsNoNResident: an index root answers false whatever its header says.
abbrev pub is_non_resident_content : Content → AttributeHeader → Bool
is_non_resident_content (index_root r) h = false
is_non_resident_content (file_name x) h = is_no_n_resident h
is_non_resident_content (reparse x) h = is_no_n_resident h
is_non_resident_content (data_ x) h = is_no_n_resident h
is_non_resident_content (object_id x) h = is_no_n_resident h
is_non_resident_content (attr_list x) h = is_no_n_resident h
is_non_resident_content (bitmap x) h = is_no_n_resident h
is_non_resident_content (volume_name x) h = is_no_n_resident h
is_non_resident_content (volume_info x) h = is_no_n_resident h
is_non_resident_content (index_allocation x) h = is_no_n_resident h
is_non_resident_content (std_info x) h = is_no_n_resident h
is_non_resident_content (logged_utility x y) h = is_no_n_resident h
is_non_resident_content (extended x) h = is_no_n_resident h
is_non_resident_content (ea_information x) h = is_no_n_resident h

abbrev pub is_non_resident : Attribute → Bool
is_non_resident a = is_non_resident_content a.content a.header

-- The type assertion attr.(*FNAttribute)
abbrev pub as_fn : Content → Option FnAttribute
as_fn (file_name f) = some f
as_fn _ = none

-- attr.(*DATA).Content
abbrev pub as_data : Content → Option (List ℕ)
as_data (data_ c) = some c
as_data _ = none

-- attr.(*BitMap).AllocationStatus
abbrev pub as_bitmap : Content → Option (List ℕ)
as_bitmap (bitmap b) = some b
as_bitmap _ = none
