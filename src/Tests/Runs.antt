-- ===== src/Tests/Runs.antt =====
-- Run lists and attribute lists, on small inputs.
use mftextractor.Base.{◌<◌, ◌≤◌, ◌++◌, ◌≡◌, ◌≢◌, ◌^◌, arith, List, [], ◌∷◌, All}
use mftextractor.Go.Outcome.{ok, stuck}
use mftextractor.Go.Slice.{of_bytes}
use mftextractor.Attributes.RunList.{process}
use mftextractor.Attributes.RunList.RoundTrip.{process-encode_all}
use mftextractor.Attributes.RunList.Encoding.{
  Encoded, IsEncoded, encode_all, run_list_of, clusters_of,
}
use mftextractor.Attributes.RunList.Ends.{process-ne-stuck}

-- A run with a two-byte offset, one that leads back, and a sparse one.
abbrev three_runs : List Encoded
three_runs =
    (record { len_b = 1; offs_b = 2; clusters = 24; pattern = 22068 })
    ∷ (record { len_b = 1; offs_b = 1; clusters = 8; pattern = 224 })
    ∷ (record { len_b = 2; offs_b = 0; clusters = 300; pattern = 0 })
    ∷ []

is_encoded :
    (r : Encoded)
    → (1 ≤ r.len_b)
      × (r.len_b ≤ 8)
      × (r.offs_b ≤ 4)
      × (r.clusters < 256 ^ r.len_b)
      × (r.pattern < 256 ^ r.offs_b)
    → IsEncoded r
is_encoded r (a, b, c, d, e) = record {
  some_length = a;
  short_length = b;
  short_offset = c;
  length_fits = d;
  offset_fits = e;
}

three_runs-IsEncoded : All IsEncoded three_runs
three_runs-IsEncoded = (
  is_encoded _ (omega arith, omega arith, omega arith, omega arith, omega arith),
  (
    is_encoded _ (omega arith, omega arith, omega arith, omega arith, omega arith),
    (is_encoded _ (omega arith, omega arith, omega arith, omega arith, omega arith), tt),
  ),
)

process-encode_all_example :
    process (of_bytes (encode_all three_runs ++ 0 ∷ 255 ∷ []))
    ≡ ok (run_list_of three_runs, clusters_of three_runs)
process-encode_all_example =
    process-encode_all three_runs (255 ∷ []) three_runs-IsEncoded (omega arith)

process-ne-stuck_example : process (of_bytes (encode_all three_runs)) ≢ stuck
process-ne-stuck_example = process-ne-stuck (of_bytes (encode_all three_runs))
