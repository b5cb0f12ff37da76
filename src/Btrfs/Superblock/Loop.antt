-- ===== src/Btrfs/Superblock/Loop.antt =====
-- The loop over the array of system chunks ends: a key takes seventeen bytes.
use mftextractor.Base.{ℕ, zero, suc, ◌+◌, ◌<◌, ◌≡◌, ◌≢◌, List, [], ◌∷◌, ◌++◌, ltb, ltb→lt, arith}
use mftextractor.Go.Outcome.{
  stuck, >>=-ne-stuck, ok-ne-stuck, if-ne-stuck, Returns, >>=-Returns, Returns-ok,
}
use mftextractor.Go.Slice.{Slice, of_bytes, slice, slice_from}
use mftextractor.Utils.Unmarshal.{unmarshal, size_all}
use mftextractor.Utils.Unmarshal.Sizes.{unmarshal-EndsAt}
use mftextractor.Btrfs.{Key, key_fields, parse_key}
use mftextractor.Btrfs.Items.Ends.{
  slice-ne-stuck, slice_from-ne-stuck, parse_key-ne-stuck, parse_chunk_item-ne-stuck,
}
use mftextractor.Btrfs.Items.Chunks.{parse_chunk_item}
use mftextractor.Btrfs.Node.{GenericNode}
use mftextractor.Btrfs.Superblock.{Superblock, chunk_node, system_chunks_from, parse_system_chunks}

abbrev TakesKey : Key × ℕ → Type 0
TakesKey (k, n) = n ≡ 17

parse_key-TakesKey : (s : Slice) → Returns TakesKey (parse_key s)
unfolding parse_key size_all
parse_key-TakesKey s = >>=-Returns TakesKey (unmarshal key_fields s) _ λ u e.
    Returns-ok (λ v. v.idx ≡ size_all key_fields) (unmarshal key_fields s) u
      (unmarshal-EndsAt key_fields s (tt, (tt, (tt, tt)))) e

system_chunks_from-ne-stuck :
    (fuel : ℕ) (s : Slice) (cur : ℕ) (nodes : List GenericNode)
    → 0 < fuel
    → s.len < cur + fuel
    → system_chunks_from fuel s cur nodes ≢ stuck
unfolding system_chunks_from
system_chunks_from-ne-stuck zero s cur nodes p h = absurd (omega arith)
system_chunks_from-ne-stuck (suc fuel) s cur nodes p h =
    if-ne-stuck (ltb cur s.len) _ _
      (λ more. >>=-ne-stuck (slice_from s cur) _ (slice_from-ne-stuck s cur) λ rest _.
        >>=-ne-stuck (parse_key rest) _ (parse_key-ne-stuck rest) λ (key, n) e.
          >>=-ne-stuck (slice_from s (cur + n)) _ (slice_from-ne-stuck s (cur + n)) λ rest' _.
            >>=-ne-stuck (parse_chunk_item rest') _ (parse_chunk_item-ne-stuck rest') λ (c, m) _.
              let read : n ≡ 17 =
                Returns-ok TakesKey (parse_key rest) (key, n) (parse_key-TakesKey rest) e in
              system_chunks_from-ne-stuck fuel s (cur + n + m) (nodes ++ (chunk_node key c ∷ []))
                (omega (arith, ltb→lt cur s.len more)) (omega (arith, read)))
      (λ past. ok-ne-stuck _)

-- ParseSystemChunks comes to an end, or panics, on every superblock: each round of its loop goes
-- forward by the bytes of a key at least.
pub parse_system_chunks-ne-stuck : (sb : Superblock) → parse_system_chunks sb ≢ stuck
unfolding parse_system_chunks
parse_system_chunks-ne-stuck sb =
    >>=-ne-stuck (slice (of_bytes sb.system_chunk_arr) 0 sb.system_chunk_arr_size) _
      (slice-ne-stuck (of_bytes sb.system_chunk_arr) 0 sb.system_chunk_arr_size)
      λ s _. system_chunks_from-ne-stuck (suc s.len) s 0 [] (omega arith) (omega arith)
