-- ===== src/Btrfs/Items/Layout.antt =====
-- Chunks, checksums and directory entries that are laid out field after field are read back.
use mftextractor.Base.{
  ℕ, zero, suc, ◌+◌, ◌-◌, ◌*◌, ◌^◌, ◌≤◌, ◌<◌, ◌≡◌, refl, ap, sym, ◌∙◌, List, [], ◌∷◌, ◌++◌, lt→ltb,
  length, take, drop, map, All, length-append, length-drop, drop-append, drop-add, arith,
}
use mftextractor.Go.Outcome.{ok}
use mftextractor.Go.Slice.{Slice, IsSlice, of_bytes, slice_from, slice-add}
use mftextractor.Utils.Endian.{to_uint32}
use mftextractor.Utils.Unmarshal.{Kind, Value, unmarshal, size_all}
use mftextractor.Utils.Unmarshal.RoundTrip.{
  encode_all, FitsAll, little_endian_bytes, length-little_endian_bytes, little_endian-bytes,
  take_bytes, length-encode_all, unmarshal_from-encode_all,
}
use mftextractor.Btrfs.{parse_struct}
use mftextractor.Btrfs.Items.Chunks.{
  chunk_item_fields, chunk_item_of, chunk_item_stripe_fields, chunk_item_stripe_of, stripes_from,
  parse_chunk_item, checksums_from, parse_checksum_item,
}
use mathlib.Core.List.{append-nil, append_assoc}
use native.Mathlib.Nat.{zero-add}

pub slice_from-eq :
    (s : Slice) (lo : ℕ)
    → lo ≤ s.len
    → slice_from s lo ≡ ok (record { cells = drop lo s.cells; len = s.len - lo })
slice_from-eq s lo h = ground arith

-- A struct at the front of a slice.
pub parse_struct-encode_all {ℓ} :
    {A : Type ℓ} (ks : List Kind) (vs : List Value) (of_values : List Value → A) (buf : Slice)
    (rest : List ℕ)
    → FitsAll ks vs
    → buf.cells ≡ encode_all ks vs ++ rest
    → size_all ks ≤ buf.len
    → IsSlice buf
    → 0 < buf.len
    → parse_struct ks of_values buf ≡ ok (of_values vs, size_all ks)
unfolding unmarshal
parse_struct-encode_all ks vs of_values buf rest f d l w p =
    rw (unmarshal_from-encode_all ks vs buf 0 rest f d (omega arith) w p, zero-add (size_all ks))

-- The bytes of the stripes with the given field values.
unfoldable pub encode_stripes : List (List Value) → List ℕ
encode_stripes [] = []
encode_stripes (vs ∷ vss) = encode_all chunk_item_stripe_fields vs ++ encode_stripes vss

stripe-size : size_all chunk_item_stripe_fields ≡ 32
unfolding size_all
stripe-size = refl

chunk-size : size_all chunk_item_fields ≡ 48
unfolding size_all
chunk-size = refl

length-encode_stripes :
    (vss : List (List Value))
    → All (FitsAll chunk_item_stripe_fields) vss
    → length (encode_stripes vss) ≡ 32 * length vss
unfolding encode_stripes
length-encode_stripes [] f = refl
length-encode_stripes (vs ∷ vss) (f, fs) =
    let one = encode_all chunk_item_stripe_fields vs in
    omega (
      arith,
      length-append one (encode_stripes vss),
      length-encode_all chunk_item_stripe_fields vs f,
      stripe-size,
      length-encode_stripes vss fs,
    )

stripes_from-encode :
    (vss : List (List Value)) (buf : Slice) (start : ℕ) (rest : List ℕ)
    → All (FitsAll chunk_item_stripe_fields) vss
    → drop start buf.cells ≡ encode_stripes vss ++ rest
    → start + 32 * length vss ≤ buf.len
    → IsSlice buf
    → stripes_from (length vss) buf start
      ≡ ok (map chunk_item_stripe_of vss, start + 32 * length vss)
unfolding stripes_from encode_stripes
stripes_from-encode [] buf start rest f d l w = ap (λ n. ok ([], n)) (omega arith)
stripes_from-encode (vs ∷ vss) buf start rest (f, fs) d l w =
    let part : Slice = record { cells = drop start buf.cells; len = buf.len - start } in
    let rest' : List ℕ = encode_stripes vss ++ rest in
    let one = encode_all chunk_item_stripe_fields vs in
    let d' : drop start buf.cells ≡ one ++ rest' = d ∙ append_assoc one (encode_stripes vss) rest in
    let len_one : length one ≡ 32 = length-encode_all chunk_item_stripe_fields vs f ∙ stripe-size in
    let next : drop (start + 32) buf.cells ≡ rest' =
      drop-add start 32 buf.cells
      ∙ ap (drop 32) d'
      ∙ ap (λ n. drop n (one ++ rest')) (sym len_one)
      ∙ drop-append one rest' in
    let read : parse_struct chunk_item_stripe_fields chunk_item_stripe_of part
        ≡ ok (chunk_item_stripe_of vs, 32) =
      rw stripe-size at (
        parse_struct-encode_all chunk_item_stripe_fields vs chunk_item_stripe_of part rest' f d'
          (omega (arith, stripe-size)) (omega (arith, length-drop start buf.cells))
          (omega arith)) in
    rw
      (
        slice_from-eq buf start (omega arith),
        read,
        stripes_from-encode vss buf (start + 32) rest fs next (omega arith) w,
      )
      (ap (λ n. ok (map chunk_item_stripe_of (vs ∷ vss), n)) (omega arith))

-- ChunkItem.Parse on the values of a chunk item and of all its stripes.
pub parse_chunk_item-values :
    (vs : List Value) (vss : List (List Value)) (rest : List ℕ)
    → FitsAll chunk_item_fields vs
    → All (FitsAll chunk_item_stripe_fields) vss
    → (chunk_item_of vs).nof_stripes ≡ length vss
    → parse_chunk_item (of_bytes (encode_all chunk_item_fields vs ++ (encode_stripes vss ++ rest)))
      ≡ ok (
        record (chunk_item_of vs) { stripes = map chunk_item_stripe_of vss },
        48 + 32 * length vss,
      )
unfolding parse_chunk_item
parse_chunk_item-values vs vss rest f fs n =
    let one = encode_all chunk_item_fields vs in
    let tail : List ℕ = encode_stripes vss ++ rest in
    let buf = of_bytes (one ++ tail) in
    let len_one : length one ≡ 48 = length-encode_all chunk_item_fields vs f ∙ chunk-size in
    let long : 48 + 32 * length vss ≤ buf.len = omega (
      arith,
      len_one,
      length-append one tail,
      length-append (encode_stripes vss) rest,
      length-encode_stripes vss fs,
    ) in
    let read : parse_struct chunk_item_fields chunk_item_of buf ≡ ok (chunk_item_of vs, 48) =
      rw chunk-size at (
        parse_struct-encode_all chunk_item_fields vs chunk_item_of buf tail f refl
          (omega (arith, chunk-size)) (omega arith) (omega arith)) in
    let next : drop 48 buf.cells ≡ tail =
      ap (λ k. drop k (one ++ tail)) (sym len_one) ∙ drop-append one tail in
    rw (read, n, stripes_from-encode vss buf 48 rest fs next long (omega arith))

-- The bytes of the checksums.
pub encode_checksums : List ℕ → List ℕ
encode_checksums [] = []
encode_checksums (c ∷ cs) = little_endian_bytes 4 c ++ encode_checksums cs

drop_bytes : (c : ℕ) (rest : List ℕ) → drop 4 (little_endian_bytes 4 c ++ rest) ≡ rest
unfolding little_endian_bytes
drop_bytes c rest = refl

to_uint32-bytes :
    (c : ℕ) (rest : List ℕ) → c < 2 ^ 32 → to_uint32 (take 4 (little_endian_bytes 4 c ++ rest)) ≡ c
unfolding to_uint32
to_uint32-bytes c rest h =
    let bs = little_endian_bytes 4 c in
    let whole : take 4 bs ≡ bs = ap (take 4) (sym (append-nil bs)) ∙ take_bytes 4 c [] in
    rw (take_bytes 4 c rest, length-little_endian_bytes 4 c, whole) (little_endian-bytes 4 c h)

checksums_from-encode :
    (cs : List ℕ) (fuel : ℕ) (buf : Slice) (offset : ℕ) (sums rest : List ℕ)
    → All (λ c. c < 2 ^ 32) cs
    → drop offset buf.cells ≡ encode_checksums cs ++ rest
    → buf.len ≡ offset + 4 * length cs
    → IsSlice buf
    → length cs < fuel
    → checksums_from fuel buf offset sums ≡ ok (sums ++ cs, buf.len)
unfolding checksums_from encode_checksums
checksums_from-encode cs zero buf offset sums rest f d l w h = absurd (omega arith)
checksums_from-encode [] (suc fuel) buf offset sums rest f d l w h = ground (arith, append-nil sums)
checksums_from-encode (c ∷ cs) (suc fuel) buf offset sums rest (f, fs) d l w h =
    let rest' : List ℕ = encode_checksums cs ++ rest in
    let d' : drop offset buf.cells ≡ little_endian_bytes 4 c ++ rest' =
      d ∙ append_assoc (little_endian_bytes 4 c) (encode_checksums cs) rest in
    let next : drop (offset + 4) buf.cells ≡ rest' =
      drop-add offset 4 buf.cells ∙ ap (drop 4) d' ∙ drop_bytes c rest' in
    rw (
      lt→ltb offset buf.len (omega arith),
      slice-add buf offset 4 (omega arith),
      d',
      to_uint32-bytes c rest' f,
      checksums_from-encode cs fuel buf (offset + 4) (sums ++ (c ∷ [])) rest fs next (omega arith) w
          (omega arith),
      append_assoc sums (c ∷ []) cs,
    )

length-encode_checksums : (cs : List ℕ) → length (encode_checksums cs) ≡ 4 * length cs
unfolding encode_checksums
length-encode_checksums [] = refl
length-encode_checksums (c ∷ cs) = omega (
  arith,
  length-append (little_endian_bytes 4 c) (encode_checksums cs),
  length-little_endian_bytes 4 c,
  length-encode_checksums cs,
)

-- ChecksumItem.Parse reads back every sequence of checksums, each in four little-endian bytes, and
-- returns the number of their bytes.
pub parse_checksum_item-encode :
    (cs : List ℕ)
    → All (λ c. c < 2 ^ 32) cs
    → parse_checksum_item (of_bytes (encode_checksums cs)) ≡ ok (cs, 4 * length cs)
unfolding parse_checksum_item
parse_checksum_item-encode cs f =
    let bs = encode_checksums cs in
    let len = length-encode_checksums cs in
    checksums_from-encode cs (suc (length bs)) (of_bytes bs) 0 [] [] f (sym (append-nil bs))
      (omega (arith, len)) (omega arith) (omega (arith, len))
    ∙ ap (λ n. ok (cs, n)) len
