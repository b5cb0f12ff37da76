-- ===== src/Attributes/RunList/Encoding.antt =====
-- The format of NTFS for a run list, and how Process reads one run in it.
use mftextractor.Base.{
  ℕ, zero, suc, ◌+◌, ◌-◌, ◌*◌, ◌/◌, ◌%◌, ◌^◌, ◌≤◌, ◌<◌, ◌≡◌, refl, ◌∙◌, List, [], ◌∷◌, ◌++◌, map,
  ◌==◌, ==_iff, if◌then◌else◌, length, drop, take, arith, length-append, drop-append, drop-add,
}
use mftextractor.Base.Int.{pos, of_pattern}
use mftextractor.Go.Outcome.{ok, >>=-ok}
use mftextractor.Go.Slice.{Slice, IsSlice, slice, slice-eq}
use mftextractor.Utils.Endian.{read_endian_uint, read_endian_int}
use mftextractor.Utils.Endian.Laws.{
  holds_under, at_each, read_endian_uint-little_endian, read_endian_int-of_pattern,
}
use mftextractor.Utils.Unmarshal.RoundTrip.{
  little_endian_bytes, length-little_endian_bytes, take_bytes, little_endian_bytes-IsByte,
  little_endian-bytes,
}
use mftextractor.Attributes.RunList.{
  Run, RunList, zero_run, cluster_offs_b, cluster_len_b, read_run,
}
use mathlib.Core.List.{append_assoc}

-- A run as it is written: the sizes of its two numbers, the length, and the bit pattern of the
-- offset. A sparse run has an offset of no bytes.
pub record Encoded : Type 0 where
  pub len_b : ℕ
  pub offs_b : ℕ
  pub clusters : ℕ
  pub pattern : ℕ

pub record IsEncoded (r : Encoded) : Type 0 where
  pub some_length : 1 ≤ r.len_b
  pub short_length : r.len_b ≤ 8
  pub short_offset : r.offs_b ≤ 4
  pub length_fits : r.clusters < 256 ^ r.len_b
  pub offset_fits : r.pattern < 256 ^ r.offs_b

-- The run that is meant: the offset is a two's complement number of its size.
abbrev pub meant : Encoded → Run
meant r = record {
  offset = if r.offs_b == 0 then pos 0 else of_pattern (256 ^ r.offs_b) r.pattern;
  length = r.clusters;
}

-- What is read: the runs meant, or the zero run of a fresh RunList.
abbrev pub run_list_of : List Encoded → RunList
run_list_of [] = zero_run ∷ []
run_list_of (r ∷ rs) = meant r ∷ map meant rs

unfoldable pub encode : Encoded → List ℕ
encode r =
    (16 * r.offs_b + r.len_b)
    ∷ (little_endian_bytes r.len_b r.clusters ++ little_endian_bytes r.offs_b r.pattern)

unfoldable pub encode_all : List Encoded → List ℕ
unfolding encode
encode_all [] = []
encode_all (r ∷ rs) = encode r ++ encode_all rs

abbrev pub clusters_of : List Encoded → ℕ
clusters_of [] = 0
clusters_of (r ∷ rs) = r.clusters + clusters_of rs

nibbles : (b : ℕ) → b < 256 → (cluster_offs_b b ≡ b / 16) × (cluster_len_b b ≡ b % 16)
unfolding holds_under
nibbles b h = (
  (==_iff _ _).0 (at_each (λ x. cluster_offs_b x == x / 16) 256 b h refl),
  (==_iff _ _).0 (at_each (λ x. cluster_len_b x == x % 16) 256 b h refl),
)

pub head_nibbles :
    (r : Encoded)
    → IsEncoded r
    → (cluster_offs_b (16 * r.offs_b + r.len_b) ≡ r.offs_b)
      × (cluster_len_b (16 * r.offs_b + r.len_b) ≡ r.len_b)
head_nibbles r f =
    let n = nibbles (16 * r.offs_b + r.len_b) (omega arith) in
    (omega (arith, n.0), omega (arith, n.1))

pub length-encode : (r : Encoded) → length (encode r) ≡ 1 + r.len_b + r.offs_b
unfolding encode
length-encode r = omega (
  arith,
  length-append (little_endian_bytes r.len_b r.clusters) (little_endian_bytes r.offs_b r.pattern),
  length-little_endian_bytes r.len_b r.clusters,
  length-little_endian_bytes r.offs_b r.pattern,
)

read_length : (n v : ℕ) → n ≤ 8 → v < 256 ^ n → read_endian_uint (little_endian_bytes n v) ≡ v
read_length n v h f =
    read_endian_uint-little_endian _ (little_endian_bytes-IsByte n v)
      (omega (arith, length-little_endian_bytes n v))
    ∙ little_endian-bytes n v f

read_offset :
    (n v : ℕ)
    → n ≤ 4
    → v < 256 ^ n
    → read_endian_int (little_endian_bytes n v) ≡ (if n == 0 then pos 0 else of_pattern (256 ^ n) v)
read_offset zero v h f = unfold read_endian_int little_endian_bytes in refl
read_offset (suc n) v h f =
    read_endian_int-of_pattern _ (little_endian_bytes-IsByte (suc n) v)
      (omega (arith, length-little_endian_bytes (suc n) v))
      (omega (arith, length-little_endian_bytes (suc n) v))
    ∙ rw (length-little_endian_bytes (suc n) v, little_endian-bytes (suc n) v f) (ground arith)

drop_bytes : (n v : ℕ) (rest : List ℕ) → drop n (little_endian_bytes n v ++ rest) ≡ rest
drop_bytes n v rest =
    rw (length-little_endian_bytes n v) at (drop-append (little_endian_bytes n v) rest)

first_bytes :
    (k n v : ℕ) (rest : List ℕ) {xs : List ℕ}
    → k ≡ n
    → xs ≡ little_endian_bytes n v ++ rest
    → take k xs ≡ little_endian_bytes n v
first_bytes k n v rest e d = rw (e, d) (take_bytes n v rest)

-- Both numbers of a run are read, and the next head stands behind them.
pub read_run-encode :
    (r : Encoded) (s : Slice) (ptr : ℕ) (rest : List ℕ)
    → IsEncoded r
    → IsSlice s
    → drop ptr s.cells ≡ encode r ++ rest
    → ptr + (1 + r.len_b + r.offs_b) ≤ s.len
    → read_run s ptr r.len_b r.offs_b ≡ ok (meant r)
unfolding read_run
read_run-encode r s ptr rest f w d l =
    let low = little_endian_bytes r.len_b r.clusters in
    let high = little_endian_bytes r.offs_b r.pattern in
    let behind : drop (ptr + 1) s.cells ≡ low ++ (high ++ rest) =
      drop-add ptr 1 s.cells ∙ rw d (unfold encode in append_assoc low high rest) in
    let last : drop (ptr + 1 + r.len_b) s.cells ≡ high ++ rest =
      drop-add (ptr + 1) r.len_b s.cells
      ∙ rw behind (drop_bytes r.len_b r.clusters (high ++ rest)) in
    >>=-ok (slice s (ptr + 1) (ptr + r.len_b + 1)) _
      (slice-eq s (ptr + 1) (ptr + r.len_b + 1) (omega arith) (omega arith))
    ∙ >>=-ok (slice s (ptr + 1 + r.len_b) (ptr + r.len_b + r.offs_b + 1)) _
        (slice-eq s (ptr + 1 + r.len_b) (ptr + r.len_b + r.offs_b + 1) (omega arith) (omega arith))
    ∙ rw (
      first_bytes (ptr + r.len_b + 1 - (ptr + 1)) r.len_b r.clusters _ (omega arith) behind,
      first_bytes (ptr + r.len_b + r.offs_b + 1 - (ptr + 1 + r.len_b)) r.offs_b r.pattern _
          (omega arith) last,
      read_length r.len_b r.clusters f.short_length f.length_fits,
      read_offset r.offs_b r.pattern f.short_offset f.offset_fits,
    )
