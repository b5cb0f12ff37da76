-- ===== src/Disk/Mbr/Entries.antt =====
-- LocatePartitions reads a table of entries back.
use mftextractor.Base.{
  ℕ, zero, suc, true, ◌+◌, ◌-◌, ◌*◌, ◌<◌, ◌≤◌, ◌≡◌, refl, sym, ap, ◌∙◌, List, [], ◌∷◌, ◌++◌, length,
  length-append, drop, drop-add, drop-append, All, ltb, lt→ltb, arith,
}
use mftextractor.Go.Outcome.{ok, >>=-ok, if-true, if-false}
use mftextractor.Go.Slice.{Slice, of_bytes, slice, slice-eq}
use mftextractor.Utils.Unmarshal.{Value, number, raw, untouched, unmarshal, size_all}
use mftextractor.Utils.Unmarshal.RoundTrip.{
  FitsAll, encode_all, unmarshal_from-encode_all, length-encode_all,
}
use mftextractor.Disk.Mbr.{Partition, partition_fields, locate_partitions_from, locate_partitions}
use mathlib.Core.List.{append_assoc, append-nil}

-- The fields of an entry.
abbrev pub values_of : Partition → List Value
values_of p =
    number p.flag
    ∷ raw p.start_chs
    ∷ number p.type_
    ∷ raw p.end_chs
    ∷ number p.start_lba
    ∷ number p.size
    ∷ untouched
    ∷ []

-- The bytes of a table.
unfoldable pub encode_table : List Partition → List ℕ
encode_table [] = []
encode_table (p ∷ ps) = encode_all partition_fields (values_of p) ++ encode_table ps

abbrev pub IsEntry : Partition → Type 0
IsEntry p = FitsAll partition_fields (values_of p)

length-entry : (p : Partition) → IsEntry p → length (encode_all partition_fields (values_of p)) ≡ 16
unfolding size_all
length-entry p h = length-encode_all partition_fields (values_of p) h

length-encode_table :
    (ps : List Partition) → All IsEntry ps → length (encode_table ps) ≡ 16 * length ps
unfolding encode_table
length-encode_table [] h = refl
length-encode_table (p ∷ ps) (h, hs) = omega (
  arith,
  length-append (encode_all partition_fields (values_of p)) (encode_table ps),
  length-entry p h,
  length-encode_table ps hs,
)

unmarshal-entry :
    (s : Slice) (p : Partition) (rest : List ℕ)
    → IsEntry p
    → s.cells ≡ encode_all partition_fields (values_of p) ++ rest
    → s.len ≡ 16
    → unmarshal partition_fields s
      ≡ ok (record { values = values_of p; idx = 16; is_complete = true })
unfolding unmarshal size_all
unmarshal-entry s p rest h c l =
    let entry = encode_all partition_fields (values_of p) in
    let long : s.len ≤ length s.cells =
      rw c (omega (arith, l, length-append entry rest, length-entry p h)) in
    unmarshal_from-encode_all partition_fields (values_of p) s 0 rest h c (omega arith) long
      (omega arith)

-- The slice that one round takes.
abbrev entry_at : Slice → ℕ → Slice
entry_at s pos = record { cells = drop pos s.cells; len = pos + 16 - pos }

drop-entry :
    (s : Slice) (pos : ℕ) (p : Partition) (rest : List ℕ)
    → IsEntry p
    → drop pos s.cells ≡ encode_all partition_fields (values_of p) ++ rest
    → drop (pos + 16) s.cells ≡ rest
drop-entry s pos p rest h d =
    rw (drop-add pos 16 s.cells, d, ← length-entry p h)
      (drop-append (encode_all partition_fields (values_of p)) rest)

locate_partitions_from-encode :
    (ps : List Partition) (fuel : ℕ) (s : Slice) (pos : ℕ) (found : List Partition)
    → All IsEntry ps
    → drop pos s.cells ≡ encode_table ps
    → s.len ≡ length s.cells
    → pos + 16 * length ps ≡ s.len
    → length ps < fuel
    → locate_partitions_from fuel s pos found ≡ ok (found ++ ps)
unfolding locate_partitions_from encode_table
locate_partitions_from-encode ps zero s pos found h d c l f = absurd (omega arith)
locate_partitions_from-encode [] (suc fuel) s pos found h d c l f =
    if-false (ltb pos s.len) _ _ (ground arith) ∙ ap ok (sym (append-nil found))
locate_partitions_from-encode (p ∷ ps) (suc fuel) s pos found (h, hs) d c l f =
    if-true (ltb pos s.len) _ _ (lt→ltb pos s.len (omega arith))
    ∙ >>=-ok (slice s pos (pos + 16)) _ (slice-eq s pos (pos + 16) (omega arith) (omega arith))
    ∙ >>=-ok (unmarshal partition_fields (entry_at s pos)) _
        (unmarshal-entry (entry_at s pos) p (encode_table ps) h d (omega arith))
    ∙ locate_partitions_from-encode ps fuel s (pos + 16) (found ++ (p ∷ [])) hs
        (drop-entry s pos p (encode_table ps) h d) c (omega arith) (omega arith)
    ∙ ap ok (append_assoc found (p ∷ []) ps)

-- LocatePartitions reads back every entry of a table of sixteen bytes each, in order, whatever their
-- number: the flag, the two addresses, the type, the first sector and the size.
pub locate_partitions-encode_table :
    (ps : List Partition) → All IsEntry ps → locate_partitions (of_bytes (encode_table ps)) ≡ ok ps
unfolding locate_partitions
locate_partitions-encode_table ps h =
    let long = length-encode_table ps h in
    locate_partitions_from-encode ps _ (of_bytes (encode_table ps)) 0 [] h refl refl
      (omega (arith, long)) (omega (arith, long))
