-- ===== src/Btrfs/Leaf/Layout.antt =====
-- An item as a leaf lays it out: its key, then the place of its data.
use mftextractor.Base.{
  ℕ, zero, suc, ◌+◌, ◌*◌, ◌/◌, ◌%◌, ◌^◌, ◌<◌, ◌≡◌, ap, ◌∙◌, true, List, [], ◌∷◌, ◌++◌, arith,
}
use mftextractor.Go.Outcome.{ok}
use mftextractor.Go.Slice.{Slice, of_bytes}
use mftextractor.Utils.Unmarshal.{Value, number, untouched, unmarshal, size_all}
use mftextractor.Utils.Unmarshal.RoundTrip.{
  little_endian_bytes, encode_all, FitsAll, unmarshal-encode_all,
}
use mftextractor.Btrfs.{Key, key_fields, parse_key}
use mftextractor.Btrfs.Leaf.{item_fields, parse_item}
use mathlib.Core.List.{append_assoc}
use native.Mathlib.Nat.{pow-suc, zero-add, suc-add, mul_comm, mul_assoc}

-- The bytes of a number whose low part takes m bytes.
pub little_endian_bytes-add :
    (m n lo hi : ℕ)
    → lo < 256 ^ m
    → little_endian_bytes (m + n) (lo + 256 ^ m * hi)
      ≡ little_endian_bytes m lo ++ little_endian_bytes n hi
unfolding little_endian_bytes
little_endian_bytes-add zero n lo hi h = rw (zero-add n) (ap (little_endian_bytes n) (omega arith))
little_endian_bytes-add (suc m) n lo hi h =
    let x = lo + 256 ^ suc m * hi in
    let e : 256 ^ suc m * hi ≡ 256 * (256 ^ m * hi) =
      rw (pow-suc 256 m, mul_comm (256 ^ m) 256) (mul_assoc 256 (256 ^ m) hi) in
    let low : x % 256 ≡ lo % 256 = omega (arith, e) in
    let high : x / 256 ≡ lo / 256 + 256 ^ m * hi = omega (arith, e) in
    rw (suc-add m n, low, high)
      (ap (◌∷◌ (lo % 256))
        (little_endian_bytes-add m n (lo / 256) hi (omega (arith, pow-suc 256 m))))

abbrev key_values : Key → List Value
key_values k = number k.object_id ∷ number k.item_type ∷ number k.offset ∷ []

abbrev place_values : ℕ → ℕ → List Value
place_values lo hi = untouched ∷ number lo ∷ number hi ∷ []

-- The bytes of an item.
pub item_layout : Key → ℕ → ℕ → List ℕ
unfolding encode_all
item_layout k offset len =
    encode_all key_fields (key_values k)
    ++ (little_endian_bytes 4 offset ++ little_endian_bytes 4 len)

item_layout-key :
    (k : Key) (offset len : ℕ) (rest : List ℕ)
    → item_layout k offset len ++ rest
      ≡ encode_all key_fields (key_values k)
        ++ ((little_endian_bytes 4 offset ++ little_endian_bytes 4 len) ++ rest)
unfolding item_layout
item_layout-key k offset len rest =
    append_assoc (encode_all key_fields (key_values k))
      (little_endian_bytes 4 offset ++ little_endian_bytes 4 len) rest

parse_item-unmarshal :
    (buf : Slice) (k : Key) (lo hi : ℕ)
    → unmarshal key_fields buf ≡ ok (record { values = key_values k; idx = 17; is_complete = true })
    → unmarshal item_fields buf
      ≡ ok (record { values = place_values lo hi; idx = 8; is_complete = true })
    → parse_item buf ≡ ok (record { key = k; data_offset = lo; data_len = hi }, 8)
unfolding parse_item parse_key
parse_item-unmarshal buf k lo hi e e' = rw (e, e')

module _ (k : Key) (lo hi : ℕ) (id : k.object_id ≡ lo + 256 ^ 4 * hi) (l : lo < 256 ^ 4) where
  behind_id : List ℕ
  behind_id = little_endian_bytes 1 k.item_type ++ (little_endian_bytes 8 k.offset ++ [])

  encode_all-key :
      encode_all key_fields (key_values k)
      ≡ encode_all item_fields (place_values lo hi) ++ behind_id
  unfolding encode_all behind_id
  encode_all-key =
      ap (λ x. little_endian_bytes 8 x ++ behind_id) id
      ∙ ap (λ xs. xs ++ behind_id) (little_endian_bytes-add 4 4 lo hi l)

  -- An item whose key has the object id lo + 2^32 * hi is decoded with lo as the offset and hi as the
  -- length of its data, whatever place the item itself gives, and eight bytes are counted for it.
  pub parse_item-layout :
      hi < 256 ^ 4
      → k.item_type < 256
      → k.offset < 256 ^ 8
      → (offset len : ℕ) (rest : List ℕ)
      → parse_item (of_bytes (item_layout k offset len ++ rest))
        ≡ ok (record { key = k; data_offset = lo; data_len = hi }, 8)
  unfolding size_all
  parse_item-layout h t o offset len rest =
      let tail : List ℕ = (little_endian_bytes 4 offset ++ little_endian_bytes 4 len) ++ rest in
      let e = item_layout-key k offset len rest in
      let fits : FitsAll item_fields (place_values lo hi) = (tt, (l, (h, tt))) in
      parse_item-unmarshal _ k lo hi
        (ap (λ bs. unmarshal key_fields (of_bytes bs)) e
          ∙ unmarshal-encode_all key_fields (key_values k) tail (omega arith, (t, (o, tt)))
              (omega arith))
        (ap (λ bs. unmarshal item_fields (of_bytes bs))
            (e
              ∙ ap (λ bs. bs ++ tail) encode_all-key
              ∙ append_assoc (encode_all item_fields (place_values lo hi)) behind_id tail)
          ∙ unmarshal-encode_all item_fields (place_values lo hi) (behind_id ++ tail) fits
              (omega arith))
