-- ===== src/Btrfs/Items/Ends.antt =====
-- The Parse methods of the data items come to an end.
use mftextractor.Base.{
  ℕ, zero, suc, ◌+◌, ◌<◌, ◌≢◌, ltb, ltb→lt, List, [], ◌∷◌, ◌++◌, arith, ◌==◌, ◌&&◌, not, ◌%◌,
}
use mftextractor.Go.Outcome.{stuck, >>=-ne-stuck, ok-ne-stuck, if-ne-stuck}
use mftextractor.Go.Slice.{Slice, slice, slice_from, bytes}
use mftextractor.Go.Text.{codes, str_eq}
use mftextractor.Utils.Unmarshal.{Kind, Value, unmarshal}
use mftextractor.Utils.Endian.{to_uint32}
use mftextractor.Usn.Ends.{unmarshal-ne-stuck}
use mftextractor.Btrfs.{name_in, extent_item_types, key_fields, key_of, parse_key, parse_struct}
use mftextractor.Btrfs.Items.{
  parse_dev_item, parse_inode_item, parse_dev_extent_item, parse_block_group_item, dev_item_fields,
  dev_item_of, inode_item_fields, inode_item_of, dev_extent_item_fields, dev_extent_item_of,
  block_group_item_fields, block_group_item_of,
}
use mftextractor.Btrfs.Items.Roots.{parse_root_item, root_item_fields, root_item_of}
use mftextractor.Btrfs.Items.Extents.{
  parse_extent_item, parse_extent_data, is_verbatim, is_inline, extent_item_fields, extent_item_of,
  inline_ref_fields, inline_ref_of, extent_data_ref_fields, extent_data_ref_of, extent_data_fields,
  extent_data_of, extent_data_rem_fields, extent_data_rem_of,
}
use mftextractor.Btrfs.Items.Names.{
  DirItem, parse_root_ref, parse_inode_ref, parse_dir_item, parse_dir_index, with_xattr,
  root_ref_fields, root_ref_of, inode_ref_fields, inode_ref_of, dir_item_fields, dir_item_of,
  dir_index_fields, dir_index_of,
}
use mftextractor.Btrfs.Items.Chunks.{
  parse_chunk_item, parse_checksum_item, stripes_from, checksums_from, chunk_item_fields,
  chunk_item_of, chunk_item_stripe_fields, chunk_item_stripe_of,
}

pub slice-ne-stuck : (s : Slice) (lo hi : ℕ) → slice s lo hi ≢ stuck
slice-ne-stuck s lo hi = ground arith

pub slice_from-ne-stuck : (s : Slice) (lo : ℕ) → slice_from s lo ≢ stuck
slice_from-ne-stuck s lo = ground arith

pub parse_struct-ne-stuck {ℓ} :
    {A : Type ℓ} (ks : List Kind) (of_values : List Value → A) (s : Slice)
    → parse_struct ks of_values s ≢ stuck
parse_struct-ne-stuck ks of_values s =
    >>=-ne-stuck (unmarshal ks s) _ (unmarshal-ne-stuck ks s) λ u _. ok-ne-stuck _

pub parse_key-ne-stuck : (s : Slice) → parse_key s ≢ stuck
unfolding parse_key
parse_key-ne-stuck = parse_struct-ne-stuck key_fields key_of

pub parse_dev_item-ne-stuck : (s : Slice) → parse_dev_item s ≢ stuck
unfolding parse_dev_item
parse_dev_item-ne-stuck = parse_struct-ne-stuck dev_item_fields dev_item_of

pub parse_inode_item-ne-stuck : (s : Slice) → parse_inode_item s ≢ stuck
unfolding parse_inode_item
parse_inode_item-ne-stuck = parse_struct-ne-stuck inode_item_fields inode_item_of

pub parse_dev_extent_item-ne-stuck : (s : Slice) → parse_dev_extent_item s ≢ stuck
unfolding parse_dev_extent_item
parse_dev_extent_item-ne-stuck = parse_struct-ne-stuck dev_extent_item_fields dev_extent_item_of

pub parse_block_group_item-ne-stuck : (s : Slice) → parse_block_group_item s ≢ stuck
unfolding parse_block_group_item
parse_block_group_item-ne-stuck = parse_struct-ne-stuck block_group_item_fields block_group_item_of

pub parse_root_item-ne-stuck : (s : Slice) → parse_root_item s ≢ stuck
unfolding parse_root_item
parse_root_item-ne-stuck s =
    >>=-ne-stuck (parse_inode_item s) _ (parse_inode_item-ne-stuck s) λ (inode, n) _.
      >>=-ne-stuck (slice_from s n) _ (slice_from-ne-stuck s n) λ rest _.
        >>=-ne-stuck (parse_struct root_item_fields root_item_of rest) _
          (parse_struct-ne-stuck root_item_fields root_item_of rest) λ (root, m) _. ok-ne-stuck _

pub parse_extent_item-ne-stuck : (s : Slice) → parse_extent_item s ≢ stuck
unfolding parse_extent_item
parse_extent_item-ne-stuck s =
    >>=-ne-stuck (parse_struct extent_item_fields extent_item_of s) _
      (parse_struct-ne-stuck extent_item_fields extent_item_of s)
      λ (item, n) _. >>=-ne-stuck (slice_from s n) _ (slice_from-ne-stuck s n) λ rest _.
        >>=-ne-stuck (parse_struct inline_ref_fields inline_ref_of rest) _
          (parse_struct-ne-stuck inline_ref_fields inline_ref_of rest)
          λ (inline, m) _.
            if-ne-stuck
              (str_eq (name_in extent_item_types (item.flags % 256))
                  (codes "BTRFS_EXTENT_FLAG_DATA")
                && inline.type == 0)
              _ _
              (λ _. >>=-ne-stuck (slice_from s (n + m)) _ (slice_from-ne-stuck s (n + m)) λ rest' _.
                >>=-ne-stuck (parse_struct extent_data_ref_fields extent_data_ref_of rest') _
                  (parse_struct-ne-stuck extent_data_ref_fields extent_data_ref_of rest')
                  λ (ref, k) _. ok-ne-stuck _)
              (λ _. ok-ne-stuck _)

pub parse_extent_data-ne-stuck : (s : Slice) → parse_extent_data s ≢ stuck
unfolding parse_extent_data
parse_extent_data-ne-stuck s =
    >>=-ne-stuck (parse_struct extent_data_fields extent_data_of s) _
      (parse_struct-ne-stuck extent_data_fields extent_data_of s)
      λ (e, n) _.
        if-ne-stuck (is_verbatim e && not (is_inline e)) _ _
          (λ _. >>=-ne-stuck (slice_from s n) _ (slice_from-ne-stuck s n) λ rest _.
            >>=-ne-stuck (parse_struct extent_data_rem_fields extent_data_rem_of rest) _
              (parse_struct-ne-stuck extent_data_rem_fields extent_data_rem_of rest)
              λ (rem, k) _. ok-ne-stuck _)
          (λ _.
            if-ne-stuck (is_verbatim e && is_inline e) _ _
              (λ _.
                >>=-ne-stuck (slice_from s n) _ (slice_from-ne-stuck s n) λ rest _. ok-ne-stuck _)
              (λ _. ok-ne-stuck _))

pub parse_root_ref-ne-stuck : (s : Slice) → parse_root_ref s ≢ stuck
unfolding parse_root_ref
parse_root_ref-ne-stuck s =
    >>=-ne-stuck (parse_struct root_ref_fields root_ref_of s) _
      (parse_struct-ne-stuck root_ref_fields root_ref_of s)
      λ (r, n) _.
        if-ne-stuck (ltb r.length n) _ _
          (λ _.
            >>=-ne-stuck (slice s n (n + r.length)) _ (slice-ne-stuck s n _) λ t _. ok-ne-stuck _)
          (λ _. ok-ne-stuck _)

pub parse_inode_ref-ne-stuck : (s : Slice) → parse_inode_ref s ≢ stuck
unfolding parse_inode_ref
parse_inode_ref-ne-stuck s =
    >>=-ne-stuck (parse_struct inode_ref_fields inode_ref_of s) _
      (parse_struct-ne-stuck inode_ref_fields inode_ref_of s)
      λ (r, n) _.
        >>=-ne-stuck (slice s n (n + r.length)) _ (slice-ne-stuck s n _) λ t _. ok-ne-stuck _

pub parse_dir_index-ne-stuck : (s : Slice) → parse_dir_index s ≢ stuck
unfolding parse_dir_index
parse_dir_index-ne-stuck s =
    >>=-ne-stuck (parse_struct dir_index_fields dir_index_of s) _
      (parse_struct-ne-stuck dir_index_fields dir_index_of s)
      λ (e, n) _.
        if-ne-stuck (ltb (n + e.name_len) s.len) _ _
          (λ _.
            >>=-ne-stuck (slice s n (n + e.name_len)) _ (slice-ne-stuck s n _) λ t _. ok-ne-stuck _)
          (λ _. ok-ne-stuck _)

with_xattr-ne-stuck : (s : Slice) (i : DirItem) (n : ℕ) → with_xattr s i n ≢ stuck
with_xattr-ne-stuck s i n =
    if-ne-stuck (ltb 1 i.data_len) _ _
      (λ _. >>=-ne-stuck (slice s n (n + i.data_len)) _ (slice-ne-stuck s n _) λ t _. ok-ne-stuck _)
      (λ _. ok-ne-stuck _)

pub parse_dir_item-ne-stuck : (s : Slice) → parse_dir_item s ≢ stuck
unfolding parse_dir_item
parse_dir_item-ne-stuck s =
    >>=-ne-stuck (parse_struct dir_item_fields dir_item_of s) _
      (parse_struct-ne-stuck dir_item_fields dir_item_of s)
      λ (i, n) _.
        if-ne-stuck (ltb (n + i.name_len) s.len) _ _
          (λ _.
            >>=-ne-stuck (slice s n (n + i.name_len)) _ (slice-ne-stuck s n _)
              λ t _. with_xattr-ne-stuck s (record i { name = bytes t }) (n + i.name_len))
          (λ _. ok-ne-stuck _)

stripes_from-ne-stuck : (left : ℕ) (s : Slice) (start : ℕ) → stripes_from left s start ≢ stuck
unfolding stripes_from
stripes_from-ne-stuck zero s start = ok-ne-stuck _
stripes_from-ne-stuck (suc left) s start =
    >>=-ne-stuck (slice_from s start) _ (slice_from-ne-stuck s start) λ part _.
      >>=-ne-stuck (parse_struct chunk_item_stripe_fields chunk_item_stripe_of part) _
        (parse_struct-ne-stuck chunk_item_stripe_fields chunk_item_stripe_of part)
        λ (x, n) _.
          >>=-ne-stuck (stripes_from left s (start + n)) _
            (stripes_from-ne-stuck left s (start + n)) λ (xs, end) _. ok-ne-stuck _

pub parse_chunk_item-ne-stuck : (s : Slice) → parse_chunk_item s ≢ stuck
unfolding parse_chunk_item
parse_chunk_item-ne-stuck s =
    >>=-ne-stuck (parse_struct chunk_item_fields chunk_item_of s) _
      (parse_struct-ne-stuck chunk_item_fields chunk_item_of s)
      λ (c, n) _.
        >>=-ne-stuck (stripes_from c.nof_stripes s n) _ (stripes_from-ne-stuck c.nof_stripes s n)
          λ (xs, end) _. ok-ne-stuck _

checksums_from-ne-stuck :
    (fuel : ℕ) (s : Slice) (offset : ℕ) (sums : List ℕ)
    → 0 < fuel
    → s.len < offset + fuel
    → checksums_from fuel s offset sums ≢ stuck
unfolding checksums_from
checksums_from-ne-stuck zero s offset sums p h = absurd (omega arith)
checksums_from-ne-stuck (suc fuel) s offset sums p h =
    if-ne-stuck (ltb offset s.len) _ _
      (λ more. >>=-ne-stuck (slice s offset (offset + 4)) _ (slice-ne-stuck s offset _) λ t _.
        checksums_from-ne-stuck fuel s (offset + 4) (sums ++ (to_uint32 (bytes t) ∷ []))
          (omega (arith, ltb→lt offset s.len more)) (omega arith))
      (λ past. ok-ne-stuck _)

pub parse_checksum_item-ne-stuck : (s : Slice) → parse_checksum_item s ≢ stuck
unfolding parse_checksum_item
parse_checksum_item-ne-stuck s =
    checksums_from-ne-stuck (suc s.len) s 0 [] (omega arith) (omega arith)
