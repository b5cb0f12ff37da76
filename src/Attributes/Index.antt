-- ===== src/Attributes/Index.antt =====
-- FS/NTFS/MFT/attributes/indexattributes.go: the entries of a directory index.
use mftextractor.Base.{
  ℕ, zero, suc, ◌+◌, ◌-◌, ◌*◌, ◌%◌, ◌^◌, Bool, Option, none, some, List, [], ◌∷◌, ◌++◌, ltb, ◌==◌,
  if◌then◌else◌,
}
use mftextractor.Base.Int.{ℤ, of_pattern}
use mftextractor.Go.Outcome.{Outcome, ok, stuck, ◌>>=◌}
use mftextractor.Go.Slice.{Slice, bytes, slice, slice_from}
use mftextractor.Go.Text.{GoString, codes, str_eq}
use mftextractor.Utils.Bytes.{decode_utf16}
use mftextractor.Utils.Endian.{read_endian_int}
use mftextractor.Utils.Unmarshal.{Kind, Value, unmarshal, nth_number, nth_raw}
use mftextractor.Attributes.Fields.{FnAttribute, fn_fields, fn_of}

pub record IndexEntry : Type 0 where
  pub par_ref : ℕ
  pub par_seq : ℕ
  pub len : ℕ
  pub content_len : ℕ
  pub flags : ℕ
  pub child_vcn : ℤ
  pub fnattr : Option FnAttribute

-- `ChildVCN` is an int64, so Unmarshal reads eight bytes for it behind the sixteen of the header.
abbrev pub entry_fields : List Kind
entry_fields =
    Kind.par_ref ∷ Kind.uint16 ∷ Kind.uint16 ∷ Kind.uint16 ∷ Kind.uint32 ∷ Kind.int64
    ∷ Kind.unhandled ∷ []

abbrev pub entry_of : List Value → IndexEntry
entry_of vs = record {
  par_ref = nth_number vs 0;
  par_seq = nth_number vs 1;
  len = nth_number vs 2;
  content_len = nth_number vs 3;
  flags = nth_number vs 4;
  child_vcn = of_pattern (2 ^ 64) (nth_number vs 5);
  fnattr = none;
}

-- IndexFlags[flags] == "Has VCN"
abbrev has_vcn : ℕ → Bool
has_vcn flags = flags == 1

parse_child_vcn : Slice → IndexEntry → Outcome IndexEntry
unfolding read_endian_int
parse_child_vcn buf e =
    if has_vcn e.flags
    then (do
      s ← slice buf ((16 + e.len + 2 ^ 16 - 8) % 2 ^ 16) ((16 + e.len) % 2 ^ 16)
      ok (record e { child_vcn = read_endian_int (bytes s) }))
    else ok e

parse_content : Slice → IndexEntry → Outcome IndexEntry
unfolding unmarshal decode_utf16
parse_content buf e =
    if ltb 0 e.content_len
    then (do
      s ← slice buf 16 (16 + e.content_len)
      u ← unmarshal fn_fields s
      let fn = fn_of u.values
      n ← slice buf (16 + 66) (16 + 66 + 2 * fn.nlen)
      ok (record e { fnattr = some (record fn { fname = decode_utf16 (bytes n) }) }))
    else ok e

-- IndexEntry.Parse
unfoldable pub parse_entry : Slice → Outcome IndexEntry
unfolding unmarshal parse_child_vcn parse_content
parse_entry buf = do
  s ← slice buf 0 16
  u ← unmarshal entry_fields s
  e ← parse_child_vcn buf (entry_of u.values)
  parse_content buf e

-- The loop of Parse over the entries, at an offset that is a uint16.
unfoldable pub parse_entries_from : ℕ → Slice → ℕ → List IndexEntry → Outcome (List IndexEntry)
parse_entries_from zero buf offset entries = stuck
parse_entries_from (suc fuel) buf offset entries =
    let round = do
      s ← slice_from buf offset
      e ← parse_entry s
      parse_entries_from fuel buf ((offset + e.len) % 2 ^ 16) (entries ++ (e ∷ []))
    in if ltb offset (buf.len % 2 ^ 16) then round else ok entries

-- Parse. A run that ends meets no offset twice, so it has fewer rounds than there are offsets.
unfoldable pub parse_entries : Slice → Outcome (List IndexEntry)
unfolding parse_entries_from parse_entry
parse_entries buf = parse_entries_from (suc (2 ^ 16)) buf 0 []

pub record NodeHeader : Type 0 where
  pub offset_entry_list : ℕ
  pub offset_end_used_entry_list : ℕ
  pub offset_end_entry_list_buffer : ℕ
  pub flags : ℕ

abbrev pub node_header_fields : List Kind
node_header_fields = Kind.uint32 ∷ Kind.uint32 ∷ Kind.uint32 ∷ Kind.uint32 ∷ []

abbrev pub node_header_of : List Value → NodeHeader
node_header_of vs = record {
  offset_entry_list = nth_number vs 0;
  offset_end_used_entry_list = nth_number vs 1;
  offset_end_entry_list_buffer = nth_number vs 2;
  flags = nth_number vs 3;
}

pub record IndexRoot : Type 0 where
  pub type_ : List ℕ
  pub collation_sorting_rule : List ℕ
  pub sizebytes : ℕ
  pub sizeclusters : ℕ
  pub nodeheader : NodeHeader
  pub index_entries : List IndexEntry

abbrev pub index_root_fields : List Kind
index_root_fields =
    Kind.array 4
    ∷ Kind.array 4
    ∷ Kind.uint32
    ∷ Kind.uint8
    ∷ Kind.unhandled
    ∷ Kind.unhandled
    ∷ Kind.unhandled
    ∷ []

-- IndexRoot.Parse
unfoldable pub parse_index_root : Slice → Outcome IndexRoot
unfolding unmarshal parse_entries
parse_index_root buf = do
  s ← slice buf 0 12
  u ← unmarshal index_root_fields s
  t ← slice buf 16 32
  v ← unmarshal node_header_fields t
  let node = node_header_of v.values
  let first = (16 + node.offset_entry_list % 2 ^ 16) % 2 ^ 16
  list ← slice buf first node.offset_end_used_entry_list
  entries ← parse_entries list
  ok (record {
    type_ = nth_raw u.values 0;
    collation_sorting_rule = nth_raw u.values 1;
    sizebytes = nth_number u.values 2;
    sizeclusters = nth_number u.values 3;
    nodeheader = node;
    index_entries = entries;
  })

-- The pointer to the node header is nil until Parse sets it.
pub record IndexAllocation : Type 0 where
  pub signature : GoString
  pub fixup_array_offset : ℕ
  pub num_fixup_entries : ℕ
  pub lsn : ℕ
  pub vcn : ℕ
  pub nodeheader : Option NodeHeader
  pub index_entries : List IndexEntry

-- `Signature` is a string and the next two fields are int16: none of them has a case in Unmarshal.
abbrev pub index_allocation_fields : List Kind
index_allocation_fields =
    Kind.unhandled ∷ Kind.unhandled ∷ Kind.unhandled ∷ Kind.int64 ∷ Kind.int64 ∷ Kind.unhandled
    ∷ Kind.unhandled ∷ Kind.unhandled ∷ []

-- new(IndexAllocation)
abbrev pub new_index_allocation : IndexAllocation
new_index_allocation = record {
  signature = [];
  fixup_array_offset = 0;
  num_fixup_entries = 0;
  lsn = 0;
  vcn = 0;
  nodeheader = none;
  index_entries = [];
}

-- A string that Unmarshal has not touched keeps its value.
abbrev pub allocation_of : IndexAllocation → List Value → IndexAllocation
allocation_of a vs = record a { lsn = nth_number vs 3; vcn = nth_number vs 4 }

parse_allocation_node : Slice → IndexAllocation → Outcome IndexAllocation
unfolding unmarshal parse_entries
parse_allocation_node buf a = do
  t ← slice buf 24 (24 + 16)
  v ← unmarshal node_header_fields t
  let node = node_header_of v.values
  let first = (node.offset_entry_list + 24) % 2 ^ 32
  let b = record a { nodeheader = some node }
  let filled = do
    list ← slice buf first node.offset_end_used_entry_list
    entries ← parse_entries list
    ok (record b { index_entries = entries })
  if ltb first node.offset_end_used_entry_list then filled else ok b

-- IndexAllocation.Parse, on the receiver `a`.
unfoldable pub parse_index_allocation : IndexAllocation → Slice → Outcome IndexAllocation
unfolding unmarshal parse_allocation_node str_eq
parse_index_allocation a buf = do
  s ← slice buf 0 24
  u ← unmarshal index_allocation_fields s
  let b = allocation_of a u.values
  if str_eq b.signature (codes "INDX") then parse_allocation_node buf b else ok b
