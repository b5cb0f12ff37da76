-- ===== src/Lvm/Header.antt =====
-- The header of a physical volume, laid out byte by byte, is read back.
use mftextractor.Base.{
  ℕ, ◌^◌, ◌<◌, ◌≡◌, ◌≢◌, refl, ap, List, [], ◌∷◌, ◌++◌, length, replicate, map, All,
}
use mftextractor.Go.Outcome.{ok}
use mftextractor.Go.Slice.{of_bytes}
use mftextractor.Utils.Unmarshal.{Value, number, raw, untouched, size_of}
use mftextractor.Utils.Unmarshal.RoundTrip.{little_endian_bytes, encode, encode_all}
use mftextractor.Lvm.{DataAreaDescriptor, PhysicalVolHeader, data_area_of, parse_vol_header}
use mftextractor.Lvm.Areas.{IsArea, encode_areas, encode_header, parse_vol_header-values}
use mathlib.Core.List.{append-nil, append_assoc}

-- A descriptor that does not end the list: two numbers of eight bytes, the first not zero.
abbrev pub IsDescriptor : DataAreaDescriptor → Type 0
IsDescriptor d = (d.offset_b < 2 ^ 64) × (d.len_b < 2 ^ 64) × (d.offset_b ≢ 0)

-- The bytes of the descriptors.
unfoldable pub descriptor_bytes : List DataAreaDescriptor → List ℕ
descriptor_bytes [] = []
descriptor_bytes (d ∷ ds) =
    little_endian_bytes 8 d.offset_b ++ (little_endian_bytes 8 d.len_b ++ descriptor_bytes ds)

-- The bytes of a header: the UUID, the size of the volume, the descriptors, and one of zeros.
abbrev pub header_bytes : PhysicalVolHeader → List ℕ → List ℕ
header_bytes h rest =
    h.uuid
    ++ (little_endian_bytes 8 h.vol_size
        ++ (descriptor_bytes h.data_area_descriptors ++ (replicate 16 0 ++ rest)))

-- The values that the bytes stand for.
abbrev area_values : DataAreaDescriptor → List Value
area_values d = number d.offset_b ∷ number d.len_b ∷ []

abbrev header_values : PhysicalVolHeader → List Value
header_values h = raw h.uuid ∷ number h.vol_size ∷ untouched ∷ []

values-IsArea :
    (ds : List DataAreaDescriptor) → All IsDescriptor ds → All IsArea (map area_values ds)
values-IsArea [] h = tt
values-IsArea (d ∷ ds) ((o, l, n), hs) = (((o, (l, tt)), n), values-IsArea ds hs)

map-data_area_of : (ds : List DataAreaDescriptor) → map data_area_of (map area_values ds) ≡ ds
map-data_area_of [] = refl
map-data_area_of (d ∷ ds) = ap (λ es. d ∷ es) (map-data_area_of ds)

areas-bytes :
    (ds : List DataAreaDescriptor) → encode_areas (map area_values ds) ≡ descriptor_bytes ds
unfolding encode_areas encode_all encode size_of little_endian_bytes descriptor_bytes
areas-bytes [] = refl
areas-bytes (d ∷ ds) = rw (areas-bytes ds)

values-bytes :
    (h : PhysicalVolHeader) (rest : List ℕ)
    → encode_header (header_values h) (map area_values h.data_area_descriptors) rest
      ≡ header_bytes h rest
unfolding encode_header encode_all encode size_of
values-bytes h rest =
    let size = little_endian_bytes 8 h.vol_size in
    let end : List ℕ = replicate 16 0 ++ rest in
    rw (
      areas-bytes h.data_area_descriptors,
      append-nil size,
      append_assoc h.uuid size (descriptor_bytes h.data_area_descriptors ++ end),
    )

-- PhysicalVolHeader.Parse reads back a header with a UUID of 32 bytes, a size of eight bytes, and one
-- or more descriptors, none with the offset zero, if one of zeros ends them: every field of the header
-- and of each descriptor, in their order, whatever follows.
pub parse_vol_header-encode :
    (uuid : List ℕ) (size : ℕ) (d : DataAreaDescriptor) (ds : List DataAreaDescriptor)
    (rest : List ℕ)
    → length uuid ≡ 32
    → size < 2 ^ 64
    → All IsDescriptor (d ∷ ds)
    → parse_vol_header (
        of_bytes (
          header_bytes
            (record { uuid = uuid; vol_size = size; data_area_descriptors = d ∷ ds })
            rest))
      ≡ ok (record { uuid = uuid; vol_size = size; data_area_descriptors = d ∷ ds })
parse_vol_header-encode uuid size d ds rest u s f =
    let h : PhysicalVolHeader = record {
      uuid = uuid;
      vol_size = size;
      data_area_descriptors = d ∷ ds;
    } in
    let read =
      parse_vol_header-values (header_values h) (area_values d) (map area_values ds) rest
        (u, (s, (tt, tt))) (values-IsArea (d ∷ ds) f) in
    rw (values-bytes h rest, map-data_area_of (d ∷ ds), u, append-nil uuid) at read
