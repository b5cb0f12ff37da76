-- ===== src/Attributes/Fields.antt =====
-- FS/NTFS/MFT/attributes: the attributes that are a fixed layout, or a layout and a name:
-- fnattr.go, siattr.go, objectid.go, volattributes.go. Extended has the others.
pub mod Extended
use mftextractor.Base.{ℕ, ◌+◌, ◌*◌, ◌%◌, ◌^◌, Option, none, some, List, [], ◌∷◌, ltb, if◌then◌else◌}
use mftextractor.Go.Outcome.{Outcome, ok, ◌>>=◌}
use mftextractor.Go.Slice.{Slice, bytes, slice}
use mftextractor.Go.Text.{GoString, codes, str_eq}
use mftextractor.Utils.Bytes.{decode_utf16}
use mftextractor.Utils.Unmarshal.{Kind, Value, unmarshal, nth_number, nth_raw}

-- The four stamps are WindowsTimes, `HexFlag` and `UnicodeHack` are always false and are left out.
pub record FnAttribute : Type 0 where
  pub par_ref : ℕ
  pub par_seq : ℕ
  pub crtime : ℕ
  pub mtime : ℕ
  pub mft_mtime : ℕ
  pub atime : ℕ
  pub alloc_fsize : ℕ
  pub real_fsize : ℕ
  pub flags : ℕ
  pub reparse : ℕ
  pub nlen : ℕ
  pub nspace : ℕ
  pub fname : GoString

-- The fields of FNAttribute: after `Nspace` come a string, two booleans and a pointer.
abbrev pub fn_fields : List Kind
fn_fields =
    Kind.par_ref ∷ Kind.uint16 ∷ Kind.windows_time ∷ Kind.windows_time ∷ Kind.windows_time
    ∷ Kind.windows_time ∷ Kind.uint64 ∷ Kind.uint64 ∷ Kind.uint32 ∷ Kind.uint32 ∷ Kind.uint8
    ∷ Kind.uint8 ∷ Kind.unhandled ∷ Kind.boolean ∷ Kind.boolean ∷ Kind.unhandled ∷ []

abbrev pub fn_of : List Value → FnAttribute
fn_of vs = record {
  par_ref = nth_number vs 0;
  par_seq = nth_number vs 1;
  crtime = nth_number vs 2;
  mtime = nth_number vs 3;
  mft_mtime = nth_number vs 4;
  atime = nth_number vs 5;
  alloc_fsize = nth_number vs 6;
  real_fsize = nth_number vs 7;
  flags = nth_number vs 8;
  reparse = nth_number vs 9;
  nlen = nth_number vs 10;
  nspace = nth_number vs 11;
  fname = [];
}

-- FNAttribute.Parse
unfoldable pub parse_fn : Slice → Outcome FnAttribute
unfolding unmarshal decode_utf16
parse_fn buf = do
  s ← slice buf 0 66
  u ← unmarshal fn_fields s
  let fn = fn_of u.values
  n ← slice buf 66 (66 + 2 * fn.nlen)
  ok (record fn { fname = decode_utf16 (bytes n) })

pub record SiAttribute : Type 0 where
  pub crtime : ℕ
  pub mtime : ℕ
  pub mft_mtime : ℕ
  pub atime : ℕ
  pub dos : ℕ
  pub maxver : ℕ
  pub ver : ℕ
  pub class_id : ℕ
  pub own_id : ℕ
  pub sec_id : ℕ
  pub quota : ℕ
  pub usn : ℕ

abbrev pub si_fields : List Kind
si_fields =
    Kind.windows_time ∷ Kind.windows_time ∷ Kind.windows_time ∷ Kind.windows_time ∷ Kind.uint32
    ∷ Kind.uint32 ∷ Kind.uint32 ∷ Kind.uint32 ∷ Kind.uint32 ∷ Kind.uint32 ∷ Kind.uint64
    ∷ Kind.uint64 ∷ Kind.unhandled ∷ []

abbrev pub si_of : List Value → SiAttribute
si_of vs = record {
  crtime = nth_number vs 0;
  mtime = nth_number vs 1;
  mft_mtime = nth_number vs 2;
  atime = nth_number vs 3;
  dos = nth_number vs 4;
  maxver = nth_number vs 5;
  ver = nth_number vs 6;
  class_id = nth_number vs 7;
  own_id = nth_number vs 8;
  sec_id = nth_number vs 9;
  quota = nth_number vs 10;
  usn = nth_number vs 11;
}

-- SIAttribute.Parse
unfoldable pub parse_si : Slice → Outcome SiAttribute
unfolding unmarshal
parse_si buf = do u ← unmarshal si_fields buf; ok (si_of u.values)

pub record ObjectId : Type 0 where
  pub obj_guid : List ℕ
  pub orig_vol_guid : List ℕ
  pub orig_obj_guid : List ℕ
  pub orig_dom_guid : List ℕ

abbrev pub object_id_fields : List Kind
object_id_fields =
    Kind.array 16 ∷ Kind.array 16 ∷ Kind.array 16 ∷ Kind.array 16 ∷ Kind.unhandled ∷ []

-- ObjectID.Parse
unfoldable pub parse_object_id : Slice → Outcome ObjectId
unfolding unmarshal
parse_object_id buf = do
  u ← unmarshal object_id_fields buf
  ok (record {
    obj_guid = nth_raw u.values 0;
    orig_vol_guid = nth_raw u.values 1;
    orig_obj_guid = nth_raw u.values 2;
    orig_dom_guid = nth_raw u.values 3;
  })

pub record VolumeInfo : Type 0 where
  pub f1 : ℕ
  pub maj_ver : ℕ
  pub min_ver : ℕ
  pub flags : ℕ
  pub f2 : ℕ

abbrev pub volume_info_fields : List Kind
volume_info_fields =
    Kind.uint64 ∷ Kind.uint8 ∷ Kind.uint8 ∷ Kind.uint16 ∷ Kind.uint32 ∷ Kind.unhandled ∷ []

-- VolumeInfo.Parse
unfoldable pub parse_volume_info : Slice → Outcome VolumeInfo
unfolding unmarshal
parse_volume_info buf = do
  u ← unmarshal volume_info_fields buf
  ok (record {
    f1 = nth_number u.values 0;
    maj_ver = nth_number u.values 1;
    min_ver = nth_number u.values 2;
    flags = nth_number u.values 3;
    f2 = nth_number u.values 4;
  })
