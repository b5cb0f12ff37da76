-- ===== src/Data.antt =====
-- FS/NTFS/MFT/MFT.go: the content of a file is read from the disk, by the runs of its clusters.
pub mod Fragments
use mftextractor.Base.{
  ℕ, zero, suc, ◌+◌, ◌^◌, Bool, true, false, not, ◌&&◌, Option, none, some, List, [], ◌∷◌, ◌++◌,
  ◌==◌, ltb, if◌then◌else◌, length, get_elem?,
}
use mftextractor.Base.Int.{ℤ, pos, negsuc, ◌+ℤ◌, ◌*ℤ◌, ltb_ℤ, of_pattern}
use mftextractor.Go.Outcome.{Outcome, ok, panic, stuck, or_panic, ◌>>=◌}
use mftextractor.Go.Text.{GoString, codes}
use mftextractor.Attributes.Attribute.{Attribute, as_fn, is_non_resident}
use mftextractor.Attributes.RunList.{Run, RunList}
use mftextractor.Disk.Reader.{DiskReader, int64}
use mftextractor.Filters.{get_fname}
use mftextractor.Mft.Record.{
  Record, find_attribute, has_resident_data_attr, get_resident_data, run_list_of,
}
use mftextractor.Mft.Table.{Records}

-- GetLogicalFileSize, which follows the pointers to the original records: the bits of an int64.
unfoldable pub logical_size_from : ℕ → Records → Record → Outcome ℕ
logical_size_from zero table r = stuck
logical_size_from (suc fuel) table r =
    let own : Outcome ℕ = elim (find_attribute r (codes "FileName")) [
      | none ↦ ok r.i30_size
      | some a ↦ (do
        f ← or_panic (as_fn a.content)
        ok (if not (f.real_fsize == 0) then f.real_fsize else r.i30_size))
    ] in
    elim r.origin_linked_record [
      | none ↦ own
      | some i ↦ (do o ← or_panic (get_elem? table i); logical_size_from fuel table o)
    ]

abbrev pub get_logical_file_size : Records → Record → Outcome ℕ
get_logical_file_size table = logical_size_from (suc (length table)) table

-- GetPhysicalSize
unfoldable pub get_physical_size : Record → Outcome ℕ
get_physical_size r = do
  a ← or_panic (find_attribute r (codes "FileName"))
  f ← or_panic (as_fn a.content)
  ok f.alloc_fsize

-- GetRunList: that of the first linked record, if there is one.
unfoldable pub get_run_list : Records → Record → GoString → Outcome RunList
get_run_list table r attr_type = elim r.linked_records [
  | [] ↦ run_list_of (find_attribute r attr_type)
  | i ∷ is ↦ (do o ← or_panic (get_elem? table i); run_list_of (find_attribute o attr_type))
]

abbrev pub is_zero_ℤ : ℤ → Bool
is_zero_ℤ (pos zero) = true
is_zero_ℤ _ = false

-- runlist == RunList{}: the zero run with no next one.
abbrev pub is_empty_run : Run → RunList → Bool
is_empty_run r [] = is_zero_ℤ r.offset && r.length == 0
is_empty_run r (n ∷ rs) = false

-- runlist.Offset != 0 && runlist.Length > 0
abbrev pub is_stored : Run → Bool
is_stored r = not (is_zero_ℤ r.offset) && ltb 0 r.length

-- offset + runlist.Offset * int64(sectorsPerCluster*bytesPerSector)
abbrev pub next_offset : ℤ → ℤ → Run → ℤ
next_offset cluster offset r = int64 (offset +ℤ r.offset *ℤ cluster)

-- int(runlist.Length)*sectorsPerCluster*bytesPerSector
abbrev pub run_bytes : ℤ → Run → ℤ
run_bytes cluster r = int64 (of_pattern (2 ^ 64) r.length *ℤ cluster)

-- The disk and the size of a cluster in bytes.
module _ (hd : DiskReader) (cluster : ℤ) where
  abbrev pub read_run_data : ℤ → Run → List ℕ
  read_run_data offset r = hd.read_file offset (run_bytes cluster r)

  -- The loop of LocateDataAsync: what it sends, in order. The message of every round divides by the
  -- size of a cluster.
  unfoldable pub fragments : ℤ → RunList → Outcome (List (List ℕ))
  fragments offset [] = ok []
  fragments offset (r ∷ rs) =
      let o = next_offset cluster offset r in
      let rest = fragments o rs in
      let sent = (do ds ← rest; ok (read_run_data o r ∷ ds)) in
      if is_empty_run r rs
      then ok []
      else if ltb_ℤ hd.disk_size o
      then ok []
      else if is_zero_ℤ cluster
      then panic
      else if is_stored r
      then sent
      else rest

  -- The loop of LocateData: what it writes behind the buffer. The division stands in the branch of a
  -- run that is stored.
  unfoldable pub write_runs : ℤ → RunList → List ℕ → Outcome (List ℕ)
  write_runs offset [] buf = ok buf
  write_runs offset (r ∷ rs) buf =
      let o = next_offset cluster offset r in
      let kept = write_runs o rs buf in
      let written = write_runs o rs (buf ++ read_run_data o r) in
      if is_empty_run r rs
      then ok buf
      else if ltb_ℤ hd.disk_size o
      then ok buf
      else if is_stored r
      then (if is_zero_ℤ cluster then panic else written)
      else kept

  -- LocateDataAsync
  unfoldable pub locate_data_async : Records → ℤ → Record → Outcome (List (List ℕ))
  locate_data_async table partition_offset r =
      let resident = (do d ← get_resident_data r; ok (d ∷ [])) in
      let stored = (do
        runs ← get_run_list table r (codes "DATA")
        fragments partition_offset runs) in
      if has_resident_data_attr r then resident else stored

-- utils.AskedFile
pub record AskedFile : Type 0 where
  pub fname : GoString
  pub content : List ℕ
  pub id : ℕ

module _ (hd : DiskReader) (cluster : ℤ) where
  -- The content that LocateData collects.
  unfoldable pub located_content : Records → ℤ → Record → Outcome (List ℕ)
  located_content table partition_offset r =
      let resident = (do d ← get_resident_data r; ok ([] ++ d)) in
      let stored = (do
        runs ← get_run_list table r (codes "DATA")
        write_runs hd cluster partition_offset runs []) in
      if has_resident_data_attr r then resident else stored

  -- LocateData: the buffer cannot be made for a size that is negative as an int. A size that
  -- the memory does not hold is not modelled.
  unfoldable pub locate_data : Records → ℤ → Record → Outcome AskedFile
  locate_data table partition_offset r = do
    size ← get_logical_file_size table r
    content ← located_content table partition_offset r
    name ← get_fname table r
    let file : AskedFile = record { fname = name; content = content; id = r.entry }
    if ltb size (2 ^ 63) then ok file else panic
