-- ===== src/Attributes/RunList/RoundTrip.antt =====
-- RunList.Process reads back a run list that is written in the format of NTFS.
use mftextractor.Base.{
  ℕ, zero, suc, ◌+◌, ◌*◌, ◌%◌, ◌^◌, ◌≤◌, ◌<◌, ◌≡◌, refl, ◌∙◌, List, [], ◌∷◌, ◌++◌, map, ◌==◌, ltb,
  lt→ltb, length, drop, All, arith, length-append, drop-append, drop-add,
}
use mftextractor.Go.Outcome.{ok, >>=-ok, if-true, if-false}
use mftextractor.Go.Slice.{Slice, IsSlice, of_bytes, index, index-eq}
use mftextractor.Attributes.RunList.{
  Run, RunList, zero_run, link, cluster_offs_b, cluster_len_b, read_run, process_from, process,
}
use mftextractor.Attributes.RunList.Encoding.{
  Encoded, IsEncoded, meant, run_list_of, encode, encode_all, clusters_of, head_nibbles,
  length-encode, read_run-encode,
}
use mathlib.Core.List.{append-nil, append_assoc}
use native.Mathlib.Nat.{add-zero, zero-add, add_assoc, mod-eq_of_lt}

process_from_round :
    (fuel : ℕ) (s : Slice) (ptr : ℕ) (runs : RunList) (total b l o : ℕ) (r : Run)
    → ptr < s.len
    → index s ptr ≡ ok b
    → cluster_len_b b ≡ l
    → cluster_offs_b b ≡ o
    → 0 < l
    → read_run s ptr l o ≡ ok r
    → process_from (suc fuel) s ptr runs total
      ≡ process_from fuel s (ptr + (l + o + 1)) (link ptr runs r) ((total + r.length) % 2 ^ 64)
unfolding process_from
process_from_round fuel s ptr runs total b l o r h i el eo p e =
    if-true (ltb ptr s.len) _ _ (lt→ltb ptr s.len h)
    ∙ >>=-ok (index s ptr) _ i
    ∙ if-false (cluster_len_b b == 0) _ _ (rw el (ground arith))
    ∙ rw (el, eo) (>>=-ok (read_run s ptr l o) _ e)

process_from_stop :
    (fuel : ℕ) (s : Slice) (ptr : ℕ) (runs : RunList) (total : ℕ)
    → ptr < s.len
    → index s ptr ≡ ok 0
    → process_from (suc fuel) s ptr runs total ≡ ok (runs, total)
unfolding process_from
process_from_stop fuel s ptr runs total h i =
    if-true (ltb ptr s.len) _ _ (lt→ltb ptr s.len h) ∙ >>=-ok (index s ptr) _ i

drop_run :
    (r : Encoded) (s : Slice) (ptr : ℕ) (more : List ℕ)
    → drop ptr s.cells ≡ encode r ++ more
    → drop (ptr + (r.len_b + r.offs_b + 1)) s.cells ≡ more
drop_run r s ptr more d =
    let size : r.len_b + r.offs_b + 1 ≡ length (encode r) = omega (arith, length-encode r) in
    drop-add ptr (r.len_b + r.offs_b + 1) s.cells ∙ rw (d, size) (drop-append (encode r) more)

link_behind : (ptr : ℕ) (runs : RunList) (r : Run) → 0 < ptr → link ptr runs r ≡ runs ++ (r ∷ [])
link_behind ptr runs r h = ground arith

total_fits :
    (r : Encoded) (rs : List Encoded) (total : ℕ)
    → total + clusters_of (r ∷ rs) < 2 ^ 64
    → total + r.clusters < 2 ^ 64
total_fits r rs total h = omega arith

module _ (r : Encoded) (rs : List Encoded) (s : Slice) (ptr : ℕ) (rest : List ℕ) where
  abbrev behind_run : ℕ
  behind_run = ptr + (r.len_b + r.offs_b + 1)

  module _ (f : IsEncoded r) (w : IsSlice s)
      (d : drop ptr s.cells ≡ encode_all (r ∷ rs) ++ 0 ∷ rest)
      (l : ptr + length (encode_all (r ∷ rs)) < s.len) where
    -- One round reads the run at the front and goes on behind it.
    process_from-encode :
        (fuel : ℕ) (runs : RunList) (total : ℕ)
        → total + clusters_of (r ∷ rs) < 2 ^ 64
        → process_from (suc fuel) s ptr runs total
          ≡ process_from fuel s behind_run (link ptr runs (meant r)) (total + r.clusters)
    unfolding encode_all
    process_from-encode fuel runs total t =
        let more = encode_all rs ++ 0 ∷ rest in
        let here : drop ptr s.cells ≡ encode r ++ more =
          d ∙ append_assoc (encode r) (encode_all rs) (0 ∷ rest) in
        let size = length-encode r in
        let whole = length-append (encode r) (encode_all rs) in
        let (offs, len) = head_nibbles r f in
        process_from_round fuel s ptr runs total (16 * r.offs_b + r.len_b) r.len_b r.offs_b
          (meant r) (omega arith) (index-eq s ptr _ _ (unfold encode in here) (omega arith)) len
          offs f.some_length (read_run-encode r s ptr more f w here (omega (arith, size, whole)))
        ∙ rw (mod-eq_of_lt (total_fits r rs total t))

    rest_of_runs : drop behind_run s.cells ≡ encode_all rs ++ 0 ∷ rest
    unfolding encode_all
    rest_of_runs = drop_run r s ptr _ (d ∙ append_assoc (encode r) (encode_all rs) (0 ∷ rest))

    rest_in_range : behind_run + length (encode_all rs) < s.len
    unfolding encode_all
    rest_in_range = omega (arith, length-encode r, length-append (encode r) (encode_all rs))

process_from-encode_all :
    (rs : List Encoded) (fuel : ℕ) (s : Slice) (ptr : ℕ) (runs : RunList) (total : ℕ)
    (rest : List ℕ)
    → All IsEncoded rs
    → IsSlice s
    → drop ptr s.cells ≡ encode_all rs ++ 0 ∷ rest
    → ptr + length (encode_all rs) < s.len
    → length rs < fuel
    → 0 < ptr
    → total + clusters_of rs < 2 ^ 64
    → process_from fuel s ptr runs total ≡ ok (runs ++ map meant rs, total + clusters_of rs)
process_from-encode_all rs zero s ptr runs total rest f w d l h p t = absurd (omega arith)
process_from-encode_all [] (suc fuel) s ptr runs total rest f w d l h p t =
    process_from_stop fuel s ptr runs total (omega arith)
      (index-eq s ptr 0 rest (unfold encode_all in d) (omega arith))
    ∙ rw (append-nil, add-zero)
process_from-encode_all (r ∷ rs) (suc fuel) s ptr runs total rest (f, fs) w d l h p t =
    process_from-encode r rs s ptr rest f w d l fuel runs total t
    ∙ rw (link_behind ptr runs (meant r) p) (
        process_from-encode_all rs fuel s (behind_run r rs s ptr rest) (runs ++ meant r ∷ [])
          (total + r.clusters) rest fs w (rest_of_runs r rs s ptr rest f w d l)
          (rest_in_range r rs s ptr rest f w d l) (omega arith) (omega arith) (omega arith)
        ∙ rw (
          append_assoc runs (meant r ∷ []) (map meant rs),
          add_assoc total r.clusters (clusters_of rs),
        ))

length-le-encode_all : (rs : List Encoded) → length rs ≤ length (encode_all rs)
unfolding encode_all
length-le-encode_all [] = omega arith
length-le-encode_all (r ∷ rs) =
    omega
      (arith, length-encode r, length-append (encode r) (encode_all rs), length-le-encode_all rs)

-- A list of runs that ends with a zero byte, each run written with one to eight bytes of length and
-- at most four of offset, is read back in order, whatever follows it: the offsets as the signed
-- numbers that are meant, and the sum of the lengths, if that is below 2^64. With no run the list is
-- the one zero run.
pub process-encode_all :
    (rs : List Encoded) (rest : List ℕ)
    → All IsEncoded rs
    → clusters_of rs < 2 ^ 64
    → process (of_bytes (encode_all rs ++ 0 ∷ rest)) ≡ ok (run_list_of rs, clusters_of rs)
unfolding process
process-encode_all [] rest f t =
    let s = of_bytes (encode_all [] ++ 0 ∷ rest) in
    let long : 0 < s.len = omega (arith, length-append (encode_all []) (0 ∷ rest)) in
    process_from_stop s.len s 0 (zero_run ∷ []) 0 long
      (index-eq s 0 0 rest (unfold encode_all in refl) long)
process-encode_all (r ∷ rs) rest (f, fs) t =
    let s = of_bytes (encode_all (r ∷ rs) ++ 0 ∷ rest) in
    let whole = length-append (encode_all (r ∷ rs)) (0 ∷ rest) in
    let l : 0 + length (encode_all (r ∷ rs)) < s.len = omega (arith, whole) in
    process_from-encode r rs s 0 rest f (omega arith) refl l s.len (zero_run ∷ []) 0 (omega arith)
    ∙ process_from-encode_all rs s.len s (behind_run r rs s 0 rest) (meant r ∷ []) (0 + r.clusters)
        rest fs (omega arith) (rest_of_runs r rs s 0 rest f (omega arith) refl l)
        (rest_in_range r rs s 0 rest f (omega arith) refl l)
        (omega (arith, whole, length-le-encode_all (r ∷ rs))) (omega arith) (omega arith)
    ∙ rw (zero-add r.clusters)
