-- ===== src/Attributes/Fields/Extended.antt =====
-- FS/NTFS/MFT/attributes: reparse.go, eaattr.go and loggedutility.go.
use mftextractor.Base.{ℕ, ◌+◌, ◌%◌, ◌^◌, Option, none, some, List, [], ◌∷◌, ltb, if◌then◌else◌}
use mftextractor.Go.Outcome.{Outcome, ok, ◌>>=◌}
use mftextractor.Go.Slice.{Slice, bytes, slice}
use mftextractor.Go.Text.{GoString, codes, str_eq}
use mftextractor.Utils.Bytes.{decode_utf16}
use mftextractor.Utils.Unmarshal.{Kind, Value, unmarshal, nth_number, nth_raw}

pub record Reparse : Type 0 where
  pub flags : ℕ
  pub size : ℕ
  pub target_name_offset : ℕ
  pub target_len : ℕ
  pub target_print_name_offset : ℕ
  pub target_print_name_len : ℕ
  pub name : GoString
  pub print_name : GoString

-- The two offsets are int16, which has no case in Unmarshal.
abbrev pub reparse_fields : List Kind
reparse_fields =
    Kind.uint32
    ∷ Kind.uint16
    ∷ Kind.array 2
    ∷ Kind.unhandled
    ∷ Kind.uint16
    ∷ Kind.unhandled
    ∷ Kind.uint16
    ∷ Kind.unhandled
    ∷ Kind.unhandled
    ∷ Kind.unhandled
    ∷ []

abbrev pub reparse_of : List Value → Reparse
reparse_of vs = record {
  flags = nth_number vs 0;
  size = nth_number vs 1;
  target_name_offset = nth_number vs 3;
  target_len = nth_number vs 4;
  target_print_name_offset = nth_number vs 5;
  target_print_name_len = nth_number vs 6;
  name = [];
  print_name = [];
}

-- Reparse.Parse, in uint16 arithmetic.
unfoldable pub parse_reparse : Slice → Outcome Reparse
unfolding unmarshal decode_utf16
parse_reparse buf = do
  s ← slice buf 0 16
  u ← unmarshal reparse_fields s
  let r = reparse_of u.values
  let names = do
    n ←
        slice buf ((16 + r.target_name_offset) % 2 ^ 16)
          ((16 + r.target_name_offset + r.target_len) % 2 ^ 16)
    p ←
        slice buf ((16 + r.target_print_name_offset) % 2 ^ 16)
          ((16 + r.target_print_name_len) % 2 ^ 16)
    ok (record r { name = decode_utf16 (bytes n); print_name = decode_utf16 (bytes p) })
  if ltb buf.len 16 then ok r else names

pub record EaInformation : Type 0 where
  pub size_of_entry : ℕ
  pub nof_ea : ℕ
  pub size : ℕ

-- EA_INFORMATION.Parse
unfoldable pub parse_ea_information : Slice → Outcome EaInformation
unfolding unmarshal
parse_ea_information buf = do
  u ← unmarshal (Kind.uint16 ∷ Kind.uint16 ∷ Kind.uint32 ∷ Kind.unhandled ∷ []) buf
  ok (record {
    size_of_entry = nth_number u.values 0;
    nof_ea = nth_number u.values 1;
    size = nth_number u.values 2;
  })

-- `Name` and `Value` are never set.
pub record ExtendedAttribute : Type 0 where
  pub next_attr_offset : ℕ
  pub flags : ℕ
  pub nof_chars : ℕ
  pub data_size : ℕ

-- The int32 at the front has no case in Unmarshal.
abbrev pub extended_fields : List Kind
extended_fields =
    Kind.unhandled ∷ Kind.uint8 ∷ Kind.uint8 ∷ Kind.uint16 ∷ Kind.unhandled ∷ Kind.unhandled
    ∷ Kind.unhandled ∷ []

-- ExtendedAttribute.Parse
unfoldable pub parse_extended : Slice → Outcome ExtendedAttribute
unfolding unmarshal
parse_extended buf = do
  u ← unmarshal extended_fields buf
  ok (record {
    next_attr_offset = nth_number u.values 0;
    flags = nth_number u.values 1;
    nof_chars = nth_number u.values 2;
    data_size = nth_number u.values 3;
  })

pub record TxfData : Type 0 where
  pub par_ref : ℕ
  pub par_seq : ℕ
  pub flags : List ℕ
  pub usn : ℕ
  pub tx_id : ℕ
  pub lsn_ntfs_metadata : ℕ
  pub lsn_user_data : ℕ
  pub lsn_directory_index : ℕ

abbrev pub txf_fields : List Kind
txf_fields =
    Kind.par_ref
    ∷ Kind.uint16
    ∷ Kind.array 8
    ∷ Kind.uint64
    ∷ Kind.uint64
    ∷ Kind.uint64
    ∷ Kind.uint64
    ∷ Kind.uint64
    ∷ []

abbrev txf_of : List Value → TxfData
txf_of vs = record {
  par_ref = nth_number vs 0;
  par_seq = nth_number vs 1;
  flags = nth_raw vs 2;
  usn = nth_number vs 3;
  tx_id = nth_number vs 4;
  lsn_ntfs_metadata = nth_number vs 5;
  lsn_user_data = nth_number vs 6;
  lsn_directory_index = nth_number vs 7;
}

-- LoggedUtilityStream.Parse: only a stream of the kind $TXF_DATA is decoded.
unfoldable pub parse_logged_utility : GoString → Slice → Outcome (Option TxfData)
unfolding unmarshal str_eq
parse_logged_utility kind buf =
    if str_eq kind (codes "$TXF_DATA")
    then (do u ← unmarshal txf_fields buf; ok (some (txf_of u.values)))
    else ok none
