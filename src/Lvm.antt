-- ===== src/Lvm.antt =====
-- disk/volume/lvm.go: the header of an LVM2 physical volume and its metadata area.
pub mod Areas
pub mod Header
use mftextractor.Base.{
  ℕ, zero, suc, ◌+◌, ◌-◌, ◌*◌, ◌^◌, Bool, true, false, Option, none, some, List, [], ◌∷◌, ◌++◌, ltb,
  ◌==◌, if◌then◌else◌, length, replicate, get_elem?,
}
use mftextractor.Base.Int.{ℤ, pos, ◌+ℤ◌, of_pattern}
use mftextractor.Go.Outcome.{Outcome, ok, stuck, or_panic, ◌>>=◌}
use mftextractor.Go.Slice.{Slice, of_bytes, bytes, slice, slice_from}
use mftextractor.Go.Text.{GoString}
use mftextractor.Utils.Unmarshal.{Kind, Value, unmarshal, nth_number, nth_raw}
use mftextractor.Btrfs.{array_of, parse_struct}
use mftextractor.Btrfs.Superblock.{Superblock, process_btrfs}
use mftextractor.Disk.Reader.{DiskReader, int64}

-- PhysicalVolLabelHeader
pub record PhysicalVolLabelHeader : Type 0 where
  pub signature : List ℕ
  pub sector_num : ℕ
  pub chksum : List ℕ
  pub header_size : ℕ
  pub indicator_type : List ℕ

abbrev pub label_header_fields : List Kind
label_header_fields = Kind.array 8 ∷ Kind.uint64 ∷ Kind.array 4 ∷ Kind.uint32 ∷ Kind.array 8 ∷ []

abbrev pub label_header_of : List Value → PhysicalVolLabelHeader
label_header_of vs = record {
  signature = array_of 8 vs 0;
  sector_num = nth_number vs 1;
  chksum = array_of 4 vs 2;
  header_size = nth_number vs 3;
  indicator_type = array_of 8 vs 4;
}

-- DataAreaDescriptor; the offset is the pattern of an int64.
pub record DataAreaDescriptor : Type 0 where
  pub offset_b : ℕ
  pub len_b : ℕ

abbrev pub data_area_fields : List Kind
data_area_fields = Kind.int64 ∷ Kind.uint64 ∷ []

abbrev pub data_area_of : List Value → DataAreaDescriptor
data_area_of vs = record { offset_b = nth_number vs 0; len_b = nth_number vs 1 }

-- PhysicalVolHeader
pub record PhysicalVolHeader : Type 0 where
  pub uuid : List ℕ
  pub vol_size : ℕ
  pub data_area_descriptors : List DataAreaDescriptor

abbrev pub vol_header_fields : List Kind
vol_header_fields = Kind.array 32 ∷ Kind.uint64 ∷ Kind.unhandled ∷ []

abbrev pub vol_header_of : List Value → PhysicalVolHeader
vol_header_of vs = record {
  uuid = array_of 32 vs 0;
  vol_size = nth_number vs 1;
  data_area_descriptors = [];
}

-- RawLocationDescriptor; the offset is the pattern of an int64.
pub record RawLocationDescriptor : Type 0 where
  pub offset : ℕ
  pub len : ℕ
  pub chksum : List ℕ
  pub flags : ℕ

abbrev pub raw_location_fields : List Kind
raw_location_fields = Kind.int64 ∷ Kind.uint64 ∷ Kind.array 4 ∷ Kind.uint64 ∷ []

abbrev pub raw_location_of : List Value → RawLocationDescriptor
raw_location_of vs = record {
  offset = nth_number vs 0;
  len = nth_number vs 1;
  chksum = array_of 4 vs 2;
  flags = nth_number vs 3;
}

-- MetadataAreaHeader
pub record MetadataAreaHeader : Type 0 where
  pub chksum : List ℕ
  pub signature : List ℕ
  pub version : ℕ
  pub offset : ℕ
  pub size : ℕ
  pub raw_location_descriptors : List RawLocationDescriptor

abbrev pub metadata_fields : List Kind
metadata_fields =
    Kind.array 4 ∷ Kind.array 16 ∷ Kind.uint32 ∷ Kind.int64 ∷ Kind.int64 ∷ Kind.unhandled ∷ []

abbrev pub metadata_of : List Value → MetadataAreaHeader
metadata_of vs = record {
  chksum = array_of 4 vs 0;
  signature = array_of 16 vs 1;
  version = nth_number vs 2;
  offset = nth_number vs 3;
  size = nth_number vs 4;
  raw_location_descriptors = [];
}

-- PhysicalVolLabel and LVM2
pub record PhysicalVolLabel : Type 0 where
  pub label_header : PhysicalVolLabelHeader
  pub vol_header : PhysicalVolHeader
  pub metadata : Option MetadataAreaHeader

pub record Lvm2 : Type 0 where
  pub header : PhysicalVolLabel
  pub configuration_info : GoString

-- The loop of PhysicalVolHeader.Parse, with the descriptor that was read last; the one that ends the
-- loop has the offset zero.
unfoldable pub data_areas_from :
    ℕ
    → Slice
    → ℕ
    → ℕ
    → DataAreaDescriptor
    → List DataAreaDescriptor
    → Outcome (List DataAreaDescriptor)
data_areas_from zero buf offset cur d found = stuck
data_areas_from (suc fuel) buf offset cur d found =
    let round = do
      rest ← slice_from buf (offset + cur)
      (d', read) ← parse_struct data_area_fields data_area_of rest
      data_areas_from fuel buf offset (cur + read) d' (found ++ (d ∷ []))
    in if d.offset_b == 0 then ok found else round

-- PhysicalVolHeader.Parse
unfoldable pub parse_vol_header : Slice → Outcome PhysicalVolHeader
unfolding data_areas_from
parse_vol_header buf = do
  (h, offset) ← parse_struct vol_header_fields vol_header_of buf
  rest ← slice_from buf offset
  (d, cur) ← parse_struct data_area_fields data_area_of rest
  ds ← data_areas_from (suc buf.len) buf offset cur d []
  ok (record h { data_area_descriptors = ds })

-- PhysicalVolLabel.Parse
unfoldable pub parse_label : Slice → Outcome PhysicalVolLabel
unfolding parse_vol_header
parse_label buf = do
  (l, read) ← parse_struct label_header_fields label_header_of buf
  rest ← slice_from buf l.header_size
  h ← parse_vol_header rest
  ok (record { label_header = l; vol_header = h; metadata = none })

-- LVM2.Parse, on a new LVM2
unfoldable pub parse_lvm2 : Slice → Outcome Lvm2
unfolding parse_label
parse_lvm2 buf = do
  rest ← slice_from buf 512
  h ← parse_label rest
  ok (record { header = h; configuration_info = [] })

-- GetStructSize, on a struct with no pointers: an array has no case and adds nothing.
unfoldable pub get_struct_size : List Kind → ℕ
get_struct_size [] = 0
get_struct_size (Kind.uint8 ∷ ks) = 1 + get_struct_size ks
get_struct_size (Kind.uint16 ∷ ks) = 2 + get_struct_size ks
get_struct_size (Kind.uint32 ∷ ks) = 4 + get_struct_size ks
get_struct_size (Kind.uint64 ∷ ks) = 8 + get_struct_size ks
get_struct_size (Kind.int64 ∷ ks) = 8 + get_struct_size ks
get_struct_size (Kind.par_ref ∷ ks) = 8 + get_struct_size ks
get_struct_size (Kind.child_vcn ∷ ks) = 8 + get_struct_size ks
get_struct_size (k ∷ ks) = get_struct_size ks

-- The loop of ParseMetaHeader: `left` descriptors are to be read, from the one with the index `idx`.
unfoldable pub raw_locations_from : ℕ → Slice → ℕ → ℕ → Outcome (List RawLocationDescriptor)
unfolding get_struct_size
raw_locations_from zero buf offset idx = ok []
raw_locations_from (suc left) buf offset idx =
    let size = get_struct_size raw_location_fields in
    (do
      part ← slice buf (offset + idx * size) (offset + (idx + 1) * size)
      (d, read) ← parse_struct raw_location_fields raw_location_of part
      ds ← raw_locations_from left buf offset (idx + 1)
      ok (d ∷ ds))

-- LVM2.ParseMetaHeader
unfoldable pub parse_meta_header : Lvm2 → Slice → Outcome Lvm2
unfolding raw_locations_from
parse_meta_header v buf = do
  (m, offset) ← parse_struct metadata_fields metadata_of buf
  ds ← raw_locations_from 4 buf offset 0
  ok (record v {
    header = record v.header { metadata = some (record m { raw_location_descriptors = ds }) };
  })

-- The read of the configuration, at the first of the four descriptors.
abbrev pub read_configuration : DiskReader → ℤ → Lvm2 → Outcome Lvm2
read_configuration hd start v = do
  m ← or_panic v.header.metadata
  d ← or_panic (get_elem? m.raw_location_descriptors 0)
  let at = int64 (start +ℤ pos 4096 +ℤ of_pattern (2 ^ 64) d.offset)
  ok (record v { configuration_info = hd.read_file at (of_pattern (2 ^ 64) d.len) })

-- LVM2.ProcessHeader, on a new LVM2
unfoldable pub process_header : DiskReader → ℤ → Outcome Lvm2
unfolding parse_lvm2 parse_meta_header
process_header hd start = do
  v1 ← parse_lvm2 (of_bytes (hd.read_file start (pos 4096)))
  v2 ← parse_meta_header v1 (of_bytes (hd.read_file (int64 (start +ℤ pos 4096)) (pos 512)))
  read_configuration hd start v2

-- LVM2.Process: what it reads stays in a variable of its own.
unfoldable pub process_lvm2 : DiskReader → ℤ → Lvm2 → Outcome Superblock
process_lvm2 hd start v = do
  d ← or_panic (get_elem? v.header.vol_header.data_area_descriptors 0)
  process_btrfs hd (int64 (start +ℤ of_pattern (2 ^ 64) d.offset_b +ℤ pos (128 * 512)))

-- LVM2.GetBytesPerSector, GetSectorsPerCluster, GetSignature
unfoldable pub lvm2_bytes_per_sector : Lvm2 → ℕ
lvm2_bytes_per_sector v = 512

unfoldable pub lvm2_sectors_per_cluster : Lvm2 → ℕ
lvm2_sectors_per_cluster v = 0

unfoldable pub lvm2_signature : Lvm2 → GoString
lvm2_signature v = v.header.label_header.signature
