-- ===== src/Attributes/RunList.antt =====
-- FS/NTFS/MFT/attributes/attributes.go, RunList: the runs of clusters of a non-resident attribute.
pub mod Encoding
pub mod RoundTrip
pub mod Ends
use mftextractor.Base.{
  ℕ, zero, suc, ◌+◌, ◌/◌, ◌%◌, ◌^◌, bit_and, List, [], ◌∷◌, ◌++◌, ltb, ◌==◌, if◌then◌else◌,
}
use mftextractor.Base.Int.{ℤ, pos}
use mftextractor.Go.Outcome.{Outcome, ok, stuck, ◌>>=◌}
use mftextractor.Go.Slice.{Slice, bytes, slice, index}
use mftextractor.Utils.Endian.{read_endian_uint, read_endian_int}

-- One node of the linked list: `Offset`, relative to the previous run, and `Length`, in clusters.
pub record Run : Type 0 where
  pub offset : ℤ
  pub length : ℕ

-- A RunList with what its `Next` pointers lead to; it is never empty.
abbrev pub RunList : Type 0
RunList = List Run

-- new(RunList)
abbrev pub zero_run : Run
zero_run = record { offset = pos 0; length = 0 }

-- The first run is stored in the receiver, a later one becomes the `Next` of the last.
abbrev pub link : ℕ → RunList → Run → RunList
link cluster_ptr runs r = if cluster_ptr == 0 then r ∷ [] else runs ++ (r ∷ [])

-- The nibbles of the byte that heads a run.
abbrev pub cluster_offs_b : ℕ → ℕ
cluster_offs_b b = bit_and b 0xf0 / 2 ^ 4

abbrev pub cluster_len_b : ℕ → ℕ
cluster_len_b b = bit_and b 0x0f

-- The run whose head, with these two sizes, stands at `ptr`.
unfoldable pub read_run : Slice → ℕ → ℕ → ℕ → Outcome Run
read_run runlists ptr len_b offs_b = do
  l ← slice runlists (ptr + 1) (ptr + len_b + 1)
  o ← slice runlists (ptr + 1 + len_b) (ptr + len_b + offs_b + 1)
  ok (record { offset = read_endian_int (bytes o); length = read_endian_uint (bytes l) })

-- The loop of Process, at `cluster_ptr`, with the runs and the total length so far.
unfoldable pub process_from : ℕ → Slice → ℕ → RunList → ℕ → Outcome (RunList × ℕ)
process_from zero runlists cluster_ptr runs total = stuck
process_from (suc fuel) runlists cluster_ptr runs total =
    let round = do
      head ← index runlists cluster_ptr
      let len_b = cluster_len_b head
      let offs_b = cluster_offs_b head
      let next = do
        r ← read_run runlists cluster_ptr len_b offs_b
        process_from fuel runlists (cluster_ptr + (len_b + offs_b + 1)) (link cluster_ptr runs r)
            ((total + r.length) % 2 ^ 64)
      if len_b == 0 then ok (runs, total) else next
    in if ltb cluster_ptr runlists.len then round else ok (runs, total)

-- Process: the run list and the total length in clusters. Each round takes a byte at least.
unfoldable pub process : Slice → Outcome (RunList × ℕ)
unfolding process_from read_run
process runlists = process_from (suc runlists.len) runlists 0 (zero_run ∷ []) 0
