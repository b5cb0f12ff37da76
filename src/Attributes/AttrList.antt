-- ===== src/Attributes/AttrList.antt =====
-- FS/NTFS/MFT/attributes/attrlist.go: the attributes of a record that are stored elsewhere.
pub mod Types
use mftextractor.Base.{
  ℕ, zero, suc, ◌+◌, ◌-◌, ◌*◌, ◌%◌, ◌^◌, Bool, ◌&&◌, ◌||◌, List, [], ◌∷◌, ◌++◌, ltb, ◌==◌,
  if◌then◌else◌,
}
use mftextractor.Go.Outcome.{Outcome, ok, stuck, ◌>>=◌}
use mftextractor.Go.Slice.{Slice, bytes, slice}
use mftextractor.Go.Text.{GoString, codes}
use mftextractor.Utils.Bytes.{remove_nulls}
use mftextractor.Utils.Unmarshal.{Kind, Value, unmarshal, nth_number, nth_raw}
use mftextractor.Attributes.Header.{lookup, attr_types}
use mftextractor.Base.{Option, none, some}

pub record AttributeList : Type 0 where
  pub type_ : GoString
  pub len : ℕ
  pub namelen : ℕ
  pub nameoffset : ℕ
  pub start_vcn : ℕ
  pub par_ref : ℕ
  pub par_seq : ℕ
  pub id : ℕ
  pub name : GoString

-- `Type` is a string, which has no case in Unmarshal, so `Len` is read from the first bytes.
abbrev pub list_fields : List Kind
list_fields =
    Kind.unhandled ∷ Kind.uint16 ∷ Kind.uint8 ∷ Kind.uint8 ∷ Kind.uint64 ∷ Kind.par_ref
    ∷ Kind.uint16 ∷ Kind.uint8 ∷ Kind.unhandled ∷ []

-- The entry is a fresh variable in each round, so a string that is not set is the empty one.
abbrev pub list_of : List Value → AttributeList
list_of vs = record {
  type_ = nth_raw vs 0;
  len = nth_number vs 1;
  namelen = nth_number vs 2;
  nameoffset = nth_number vs 3;
  start_vcn = nth_number vs 4;
  par_ref = nth_number vs 5;
  par_seq = nth_number vs 6;
  id = nth_number vs 7;
  name = nth_raw vs 8;
}

-- A missing key of a map of strings gives the empty string.
abbrev or_empty : Option GoString → GoString
or_empty (some t) = t
or_empty none = []

-- AttributeList.GetType
unfoldable pub entry_type : AttributeList → GoString
unfolding lookup
entry_type e = or_empty (lookup e.type_ attr_types)

-- The name of the entry that stands at `attr_len`, in uint16 arithmetic.
abbrev pub read_name : Slice → ℕ → AttributeList → Outcome AttributeList
read_name buf attr_len e = do
  s ←
      slice buf ((attr_len + e.nameoffset) % 2 ^ 16)
        ((attr_len + e.nameoffset + 2 * e.namelen) % 2 ^ 16)
  ok (record e { name = remove_nulls (bytes s) })

-- The condition of the loop; the left sum is taken in uint16.
abbrev pub in_list : Slice → ℕ → Bool
in_list buf attr_len =
    ltb ((24 + attr_len) % 2 ^ 16) (buf.len % 2 ^ 16) && ltb attr_len (65535 - 24)

-- The loop of AttributeListEntries.Parse.
unfoldable pub parse_list_from : ℕ → Slice → ℕ → List AttributeList → Outcome (List AttributeList)
parse_list_from zero buf attr_len entries = stuck
parse_list_from (suc fuel) buf attr_len entries =
    let round = do
      s ← slice buf attr_len (attr_len + 24)
      u ← unmarshal list_fields s
      e ← read_name buf attr_len (list_of u.values)
      let attr_len' = (attr_len + e.len) % 2 ^ 16
      let rest = parse_list_from fuel buf attr_len' (entries ++ (e ∷ []))
      if attr_len' == 0 || e.len == 0 then ok (entries ++ (e ∷ [])) else rest
    in if in_list buf attr_len then round else ok entries

-- AttributeListEntries.Parse. A run that ends meets no value of `attr_len` twice.
unfoldable pub parse_list : Slice → Outcome (List AttributeList)
unfolding parse_list_from unmarshal remove_nulls
parse_list buf = parse_list_from (suc (2 ^ 16)) buf 0 []
