-- ===== src/Btrfs/Items/Chunks.antt =====
-- FS/BTRFS/leafnode/structures.go: chunks and checksums, which are read in loops.
use mftextractor.Base.{ℕ, zero, suc, ◌+◌, List, [], ◌∷◌, ◌++◌, ltb, if◌then◌else◌}
use mftextractor.Go.Outcome.{Outcome, ok, stuck, ◌>>=◌}
use mftextractor.Go.Slice.{Slice, bytes, slice, slice_from}
use mftextractor.Utils.Endian.{to_uint32}
use mftextractor.Utils.Unmarshal.{Kind, Value, nth_number}
use mftextractor.Btrfs.{array_of, parse_struct}

-- ChunkItemStripe
pub record ChunkItemStripe : Type 0 where
  pub device_id : ℕ
  pub offset : ℕ
  pub device_uuid : List ℕ

abbrev pub chunk_item_stripe_fields : List Kind
chunk_item_stripe_fields = Kind.uint64 ∷ Kind.uint64 ∷ Kind.array 16 ∷ []

abbrev pub chunk_item_stripe_of : List Value → ChunkItemStripe
chunk_item_stripe_of vs = record {
  device_id = nth_number vs 0;
  offset = nth_number vs 1;
  device_uuid = array_of 16 vs 2;
}

-- ChunkItem
pub record ChunkItem : Type 0 where
  pub size : ℕ
  pub owner : ℕ
  pub stripe_len : ℕ
  pub type : ℕ
  pub optimal_io_alignment : ℕ
  pub optimal_io_width : ℕ
  pub minimal_io_size : ℕ
  pub nof_stripes : ℕ
  pub nof_sub_stripes : ℕ
  pub stripes : List ChunkItemStripe

abbrev pub chunk_item_fields : List Kind
chunk_item_fields =
    Kind.uint64 ∷ Kind.uint64 ∷ Kind.uint64 ∷ Kind.uint64 ∷ Kind.uint32 ∷ Kind.uint32 ∷ Kind.uint32
    ∷ Kind.uint16 ∷ Kind.uint16 ∷ Kind.unhandled ∷ []

abbrev pub chunk_item_of : List Value → ChunkItem
chunk_item_of vs = record {
  size = nth_number vs 0;
  owner = nth_number vs 1;
  stripe_len = nth_number vs 2;
  type = nth_number vs 3;
  optimal_io_alignment = nth_number vs 4;
  optimal_io_width = nth_number vs 5;
  minimal_io_size = nth_number vs 6;
  nof_stripes = nth_number vs 7;
  nof_sub_stripes = nth_number vs 8;
  stripes = [];
}

-- The loop of ChunkItem.Parse: `left` stripes are to be read, from `start` on.
unfoldable pub stripes_from : ℕ → Slice → ℕ → Outcome (List ChunkItemStripe × ℕ)
stripes_from zero buf start = ok ([], start)
stripes_from (suc left) buf start = do
  part ← slice_from buf start
  (stripe, offset) ← parse_struct chunk_item_stripe_fields chunk_item_stripe_of part
  (rest, end) ← stripes_from left buf (start + offset)
  ok (stripe ∷ rest, end)

-- ChunkItem.Parse
unfoldable pub parse_chunk_item : Slice → Outcome (ChunkItem × ℕ)
unfolding stripes_from
parse_chunk_item buf = do
  (chunk, start) ← parse_struct chunk_item_fields chunk_item_of buf
  (stripes, end) ← stripes_from chunk.nof_stripes buf start
  ok (record chunk { stripes = stripes }, end)

-- The loop of ChecksumItem.Parse.
unfoldable pub checksums_from : ℕ → Slice → ℕ → List ℕ → Outcome (List ℕ × ℕ)
checksums_from zero buf offset sums = stuck
checksums_from (suc fuel) buf offset sums =
    let round = do
      s ← slice buf offset (offset + 4)
      checksums_from fuel buf (offset + 4) (sums ++ (to_uint32 (bytes s) ∷ []))
    in if ltb offset buf.len then round else ok (sums, offset)

-- ChecksumItem.Parse
unfoldable pub parse_checksum_item : Slice → Outcome (List ℕ × ℕ)
unfolding checksums_from
parse_checksum_item buf = checksums_from (suc buf.len) buf 0 []
