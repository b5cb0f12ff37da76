-- ===== src/Tests/Bytes.antt =====
-- Numbers, structs and bitmaps, on small inputs.
use mftextractor.Base.{
  ℕ, ◌++◌, ◌≡◌, ◌≢◌, ◌^◌, refl, arith, true, List, [], ◌∷◌, All, length, replicate,
}
use mftextractor.Base.Int.{of_pattern}
use mftextractor.Go.Outcome.{ok, stuck}
use mftextractor.Go.Slice.{Slice, of_bytes}
use mftextractor.Utils.Endian.{read_endian_uint, read_endian_int, little_endian, IsByte}
use mftextractor.Utils.Endian.Laws.{read_endian_uint-little_endian, read_endian_int-of_pattern}
use mftextractor.Utils.Unmarshal.{Kind, Value, number, raw, time, unmarshal, size_all}
use mftextractor.Utils.Unmarshal.Layout.{
  DeclaredAll, layout, layout_all, kept_all, unmarshal-layout,
}
use mftextractor.Utils.Unmarshal.RoundTrip.{little_endian_bytes}
use mftextractor.Utils.Unmarshal.Total.{unmarshal_total}
use mftextractor.Usn.{async_process}
use mftextractor.Usn.Ends.{async_process-ne-stuck}
use mftextractor.Attributes.Bitmap.{unallocated_clusters}
use mftextractor.Attributes.Bitmap.Free.{unallocated_clusters-free, free_positions}

abbrev four_bytes : List ℕ
four_bytes = 0x10 ∷ 0x20 ∷ 0x30 ∷ 0xf0 ∷ []

four_bytes-IsByte : All IsByte four_bytes
four_bytes-IsByte = (omega arith, (omega arith, (omega arith, (omega arith, tt))))

read_endian_uint-little_endian_example : read_endian_uint four_bytes ≡ little_endian four_bytes
read_endian_uint-little_endian_example =
    read_endian_uint-little_endian four_bytes four_bytes-IsByte (omega arith)

read_endian_int-of_pattern_example :
    read_endian_int four_bytes ≡ of_pattern (256 ^ length four_bytes) (little_endian four_bytes)
read_endian_int-of_pattern_example =
    read_endian_int-of_pattern four_bytes four_bytes-IsByte (omega arith) (omega arith)

abbrev two_fields : List Kind
two_fields = Kind.uint16 ∷ Kind.array 3 ∷ Kind.par_ref ∷ []

abbrev stamped_fields : List Kind
stamped_fields = Kind.uint16 ∷ Kind.array 3 ∷ Kind.boolean ∷ Kind.par_ref ∷ Kind.time_spec ∷ []

abbrev stamped_values : List Value
stamped_values = number 515 ∷ raw (7 ∷ 8 ∷ 9 ∷ []) ∷ number 1 ∷ number 5 ∷ time 1700000000 250 ∷ []

stamped_values-declared : DeclaredAll stamped_fields stamped_values
stamped_values-declared =
    (omega arith, (refl, (omega arith, (omega arith, ((omega arith, omega arith), tt)))))

stamped_layout : length (layout_all stamped_fields stamped_values) ≡ 24
unfolding layout_all layout little_endian_bytes
stamped_layout = refl

unmarshal-layout_example :
    unmarshal stamped_fields (of_bytes (layout_all stamped_fields stamped_values ++ four_bytes))
    ≡ ok (record {
      values = kept_all stamped_fields stamped_values;
      idx = length (layout_all stamped_fields stamped_values);
      is_complete = true;
    })
unmarshal-layout_example =
    unmarshal-layout stamped_fields stamped_values four_bytes stamped_values-declared
      (omega (arith, stamped_layout))

unmarshal_total_example :
    (vs : List Value) × (unmarshal two_fields (of_bytes (replicate 12 1))
      ≡ ok (record { values = vs; idx = size_all two_fields; is_complete = true }))
    × (length vs ≡ length two_fields)
unmarshal_total_example =
    unmarshal_total two_fields (of_bytes (replicate 12 1)) (tt, (tt, (tt, tt))) (omega arith)
      (omega arith) (unfold size_all in omega arith)

unallocated_clusters-free_example : unallocated_clusters four_bytes ≡ free_positions four_bytes 1
unallocated_clusters-free_example = unallocated_clusters-free four_bytes four_bytes-IsByte

-- A cluster with one record of the journal, and the beginning of another.
abbrev journal : Slice
journal = of_bytes (60 ∷ replicate 7 0 ++ (9 ∷ replicate 91 0))

async_process-ne-stuck_example : async_process (journal ∷ []) ≢ stuck
async_process-ne-stuck_example = async_process-ne-stuck (journal ∷ [])
