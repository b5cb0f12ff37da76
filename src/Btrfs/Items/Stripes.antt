-- ===== src/Btrfs/Items/Stripes.antt =====
-- A chunk item and its stripes, laid out byte by byte, are read back.
use mftextractor.Base.{ℕ, ◌+◌, ◌*◌, ◌^◌, ◌<◌, ◌≡◌, refl, ap, List, [], ◌∷◌, ◌++◌, length, map, All}
use mftextractor.Go.Outcome.{ok}
use mftextractor.Go.Slice.{of_bytes}
use mftextractor.Utils.Unmarshal.{Value, number, raw, untouched, size_of}
use mftextractor.Utils.Unmarshal.RoundTrip.{little_endian_bytes, encode, encode_all, FitsAll}
use mftextractor.Btrfs.Items.Chunks.{
  ChunkItem, ChunkItemStripe, chunk_item_fields, chunk_item_stripe_fields, chunk_item_stripe_of,
  parse_chunk_item,
}
use mftextractor.Btrfs.Items.Layout.{encode_stripes, parse_chunk_item-values}
use mathlib.Core.List.{append-nil}

-- A stripe that can be written: two numbers of eight bytes and a UUID of sixteen.
abbrev pub IsStripe : ChunkItemStripe → Type 0
IsStripe s = (s.device_id < 2 ^ 64) × (s.offset < 2 ^ 64) × (length s.device_uuid ≡ 16)

-- A chunk item whose numbers fit their fields, with the number of its stripes.
pub record IsChunk (c : ChunkItem) : Type 0 where
  pub size_fits : c.size < 2 ^ 64
  pub owner_fits : c.owner < 2 ^ 64
  pub stripe_len_fits : c.stripe_len < 2 ^ 64
  pub type_fits : c.type < 2 ^ 64
  pub alignment_fits : c.optimal_io_alignment < 2 ^ 32
  pub width_fits : c.optimal_io_width < 2 ^ 32
  pub io_size_fits : c.minimal_io_size < 2 ^ 32
  pub nof_stripes_fits : c.nof_stripes < 2 ^ 16
  pub nof_sub_stripes_fits : c.nof_sub_stripes < 2 ^ 16
  pub counted : c.nof_stripes ≡ length c.stripes
  pub all_stripes : All IsStripe c.stripes

-- The bytes of the stripes.
unfoldable pub stripe_bytes : List ChunkItemStripe → List ℕ
stripe_bytes [] = []
stripe_bytes (s ∷ ss) =
    little_endian_bytes 8 s.device_id
    ++ (little_endian_bytes 8 s.offset ++ (s.device_uuid ++ stripe_bytes ss))

-- The bytes of a chunk item, its nine numbers in the order of btrfs_chunk, and of its stripes.
unfoldable pub chunk_bytes : ChunkItem → List ℕ → List ℕ
chunk_bytes c rest =
    little_endian_bytes 8 c.size
    ++ (little_endian_bytes 8 c.owner
        ++ (little_endian_bytes 8 c.stripe_len
            ++ (little_endian_bytes 8 c.type
                ++ (little_endian_bytes 4 c.optimal_io_alignment
                    ++ (little_endian_bytes 4 c.optimal_io_width
                        ++ (little_endian_bytes 4 c.minimal_io_size
                            ++ (little_endian_bytes 2 c.nof_stripes
                                ++ (little_endian_bytes 2 c.nof_sub_stripes
                                    ++ (stripe_bytes c.stripes ++ rest)))))))))

abbrev stripe_values : ChunkItemStripe → List Value
stripe_values s = number s.device_id ∷ number s.offset ∷ raw s.device_uuid ∷ []

abbrev chunk_values : ChunkItem → List Value
chunk_values c =
    number c.size
    ∷ number c.owner
    ∷ number c.stripe_len
    ∷ number c.type
    ∷ number c.optimal_io_alignment
    ∷ number c.optimal_io_width
    ∷ number c.minimal_io_size
    ∷ number c.nof_stripes
    ∷ number c.nof_sub_stripes
    ∷ untouched
    ∷ []

values-FitsAll :
    (ss : List ChunkItemStripe)
    → All IsStripe ss
    → All (FitsAll chunk_item_stripe_fields) (map stripe_values ss)
values-FitsAll [] h = tt
values-FitsAll (s ∷ ss) ((i, o, u), hs) = ((i, (o, (u, tt))), values-FitsAll ss hs)

chunk-FitsAll : (c : ChunkItem) → IsChunk c → FitsAll chunk_item_fields (chunk_values c)
chunk-FitsAll c h = (
  h.size_fits,
  (
    h.owner_fits,
    (
      h.stripe_len_fits,
      (
        h.type_fits,
        (
          h.alignment_fits,
          (
            h.width_fits,
            (h.io_size_fits, (h.nof_stripes_fits, (h.nof_sub_stripes_fits, (tt, tt)))),
          ),
        ),
      ),
    ),
  ),
)

map-stripe_of :
    (ss : List ChunkItemStripe)
    → All IsStripe ss
    → map chunk_item_stripe_of (map stripe_values ss) ≡ ss
map-stripe_of [] h = refl
map-stripe_of (s ∷ ss) ((i, o, u), hs) = rw (map-stripe_of ss hs, u, append-nil s.device_uuid)

length-values : (ss : List ChunkItemStripe) → length (map stripe_values ss) ≡ length ss
length-values [] = refl
length-values (s ∷ ss) = ap ℕ.suc (length-values ss)

stripes-bytes :
    (ss : List ChunkItemStripe) → encode_stripes (map stripe_values ss) ≡ stripe_bytes ss
unfolding encode_stripes encode_all encode size_of little_endian_bytes stripe_bytes
stripes-bytes [] = refl
stripes-bytes (s ∷ ss) = rw (stripes-bytes ss, append-nil s.device_uuid)

chunk-bytes :
    (c : ChunkItem) (rest : List ℕ)
    → encode_all chunk_item_fields (chunk_values c)
        ++ (encode_stripes (map stripe_values c.stripes) ++ rest)
      ≡ chunk_bytes c rest
unfolding encode_all encode size_of little_endian_bytes chunk_bytes
chunk-bytes c rest = rw (stripes-bytes c.stripes)

-- ChunkItem.Parse reads back every chunk item whose numbers fit their fields and which gives the
-- number of its stripes: all its fields and all fields of its stripes, whatever follows them. It
-- returns the number of their bytes.
pub parse_chunk_item-encode :
    (c : ChunkItem) (rest : List ℕ)
    → IsChunk c
    → parse_chunk_item (of_bytes (chunk_bytes c rest)) ≡ ok (c, 48 + 32 * length c.stripes)
parse_chunk_item-encode c rest h =
    let read =
      parse_chunk_item-values (chunk_values c) (map stripe_values c.stripes) rest
        (chunk-FitsAll c h) (values-FitsAll c.stripes h.all_stripes)
        (rw (length-values c.stripes) h.counted) in
    rw (chunk-bytes c rest, map-stripe_of c.stripes h.all_stripes, length-values c.stripes) at read
