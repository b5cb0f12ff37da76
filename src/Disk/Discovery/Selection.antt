-- ===== src/Disk/Discovery/Selection.antt =====
-- Which partitions a number selects.
use mftextractor.Base.{
  ℕ, zero, suc, ◌+◌, ◌≤◌, ◌<◌, ◌≡◌, ◌≢◌, refl, ap, ◌∙◌, true, false, some, List, [], ◌∷◌, ◌++◌,
  ◌==◌, length, get_elem?, set, length-append, ◌*◌, ◌%◌, arith, Bool-cases, ==→eq, ==→ne, ◌⊎◌, inl,
  inr, ◌^◌,
}
use mftextractor.Base.Int.{pos, of_pattern}
use mftextractor.Go.Outcome.{ok, or_panic, Returns, >>=-Returns, Returns-ok}
use mftextractor.Go.Slice.{of_bytes}
use mftextractor.Disk.Reader.{DiskReader}
use mftextractor.Disk.Gpt.{GptPartition, parse_header, parse_partitions, get_partition_array_size}
use mftextractor.Disk.Partitions.{DiskPartition, locate_volume}
use mftextractor.Disk.Discovery.{
  Disk, has_protective_mbr, populate_gpt, is_other, gpt_entries_from, list_partitions,
  process_partitions_from, process_partitions,
}

is_other_eq : (a b : ℕ) → a ≡ b → is_other (pos a) b ≡ false
is_other_eq a b h = ground arith

is_other_ne : (a b : ℕ) → a ≢ b → is_other (pos a) b ≡ true
is_other_ne a b h = ground arith

-- A selected number that has no partition changes nothing.
process_partitions_from-behind :
    (hd : DiskReader) (n idx : ℕ) (ps : List DiskPartition)
    → (n ≤ idx) ⊎ (idx + length ps < n)
    → process_partitions_from hd (pos n) idx ps ≡ ok ps
unfolding process_partitions_from
process_partitions_from-behind hd n idx [] h = refl
process_partitions_from-behind hd n idx (p ∷ ps) h =
    let apart : n ≢ suc idx = λ e. elim h [ inl l ↦ omega (arith, e) | inr l ↦ omega (arith, e) ] in
    let rest : (n ≤ suc idx) ⊎ (suc idx + length ps < n) = elim h [
      | inl l ↦ inl (omega arith)
      | inr l ↦ inr (omega arith)
    ] in
    rw (is_other_ne n (suc idx) apart, process_partitions_from-behind hd n (suc idx) ps rest)

process_partitions_from-set :
    (hd : DiskReader) (j n idx : ℕ) (ps : List DiskPartition) (p p' : DiskPartition)
    → n ≡ suc (idx + j)
    → get_elem? ps j ≡ some p
    → locate_volume hd p ≡ ok p'
    → process_partitions_from hd (pos n) idx ps ≡ ok (set ps j p')
unfolding process_partitions_from
process_partitions_from-set hd j n idx [] p p' h at e = absurd cc
process_partitions_from-set hd zero n idx (q ∷ ps) p p' h at e =
    let same : n ≡ suc idx = omega (arith, h) in
    let located : locate_volume hd q ≡ ok p' = ap (locate_volume hd) (cc) ∙ e in
    rw (
      is_other_eq n (suc idx) same,
      located,
      process_partitions_from-behind hd n (suc idx) ps (inl (omega (arith, same))),
    )
process_partitions_from-set hd (suc j) n idx (q ∷ ps) p p' h at e = rw (
  is_other_ne n (suc idx) (λ e'. absurd (omega (arith, e', h))),
  process_partitions_from-set hd j n (suc idx) ps p p' (omega (arith, h)) at e,
)

-- Given the number of a partition, counted from one, ProcessPartitions looks for the volume of that
-- partition and leaves all others as they are.
pub process_partitions-set :
    (d : Disk) (j : ℕ) (p p' : DiskPartition)
    → get_elem? d.partitions j ≡ some p
    → locate_volume d.handler p ≡ ok p'
    → process_partitions (pos (suc j)) d ≡ ok (record d { partitions = set d.partitions j p' })
unfolding process_partitions
process_partitions-set d j p p' at e =
    rw (process_partitions_from-set d.handler j (suc j) 0 d.partitions p p' (omega arith) at e)

gpt_entries_from-behind :
    (k idx : ℕ) (ps : List GptPartition) → k < idx → gpt_entries_from (pos k) idx ps ≡ []
unfolding gpt_entries_from
gpt_entries_from-behind k idx [] h = refl
gpt_entries_from-behind k idx (p ∷ ps) h =
    rw (is_other_ne k idx (λ e. absurd (omega (arith, e))))
      (gpt_entries_from-behind k (suc idx) ps (omega arith))

-- Of the GUID partition table a number selects one entry at most.
gpt_entries_from-short :
    (k idx : ℕ) (ps : List GptPartition) → length (gpt_entries_from (pos k) idx ps) ≤ 1
unfolding gpt_entries_from
gpt_entries_from-short k idx [] = omega arith
gpt_entries_from-short k idx (p ∷ ps) = elim (Bool-cases (k == idx)) [
  | inl e ↦
      rw
        (
          is_other_eq k idx (==→eq k idx e),
          gpt_entries_from-behind k (suc idx) ps (omega (arith, ==→eq k idx e)),
        )
        (omega arith)
  | inr e ↦ rw (is_other_ne k idx (==→ne k idx e)) (gpt_entries_from-short k (suc idx) ps)
]

selected-short : (k n : ℕ) → k ≢ 1 → n ≤ 1 → (k ≤ 0) ⊎ (0 + n < k)
selected-short zero n h l = inl (omega arith)
selected-short (suc zero) n h l = absurd (h refl)
selected-short (suc (suc k)) n h l = inr (omega arith)

process_partitions-short :
    (k : ℕ) (d : Disk) → k ≢ 1 → length d.partitions ≤ 1 → process_partitions (pos k) d ≡ ok d
unfolding process_partitions
process_partitions-short k d h l = rw (
    process_partitions_from-behind d.handler k 0 d.partitions
      (selected-short k (length d.partitions) h l))

populate_gpt-partitions : (d : Disk) → Returns (λ d'. d'.partitions ≡ d.partitions) (populate_gpt d)
unfolding populate_gpt
populate_gpt-partitions d =
    let P = λ (d' : Disk). d'.partitions ≡ d.partitions in
    >>=-Returns P (parse_header (of_bytes (d.handler.read_file (pos 512) (pos 512)))) _ λ h _.
      >>=-Returns P
        (parse_partitions h (
          of_bytes (
            d.handler.read_file (of_pattern (2 ^ 64) (h.partitions_start_lba * 512 % 2 ^ 64))
              (pos (get_partition_array_size h)))))
        _ λ ps _. refl

-- On a disk with a GUID partition table DiscoverPartitions counts the partitions from zero and
-- ProcessPartitions, on the list of the one that is left, from one: for every given number but one
-- no volume is looked for, whatever the table holds.
pub process_partitions-list_partitions :
    (k : ℕ) (d : Disk)
    → k ≢ 1
    → d.partitions ≡ []
    → has_protective_mbr d ≡ ok true
    → Returns (λ d'. process_partitions (pos k) d' ≡ ok d') (list_partitions (pos k) d)
unfolding list_partitions
process_partitions-list_partitions k d h e g =
    let P = λ (d' : Disk). process_partitions (pos k) d' ≡ ok d' in
    let kept = λ (d' : Disk) (q : populate_gpt d ≡ ok d').
      Returns-ok (λ x. x.partitions ≡ d.partitions) (populate_gpt d) d' (populate_gpt-partitions d)
        q
      ∙ e in
    rw g (
      >>=-Returns P (populate_gpt d) _ λ d' q. >>=-Returns P (or_panic d'.gpt) _ λ (header, ps) _.
        process_partitions-short k
          (record d' { partitions = d'.partitions ++ gpt_entries_from (pos k) 0 ps }) h
          (omega (
            arith,
            length-append d'.partitions (gpt_entries_from (pos k) 0 ps),
            ap length (kept d' q),
            gpt_entries_from-short k 0 ps,
          )))
