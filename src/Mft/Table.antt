-- ===== src/Mft/Table.antt =====
-- FS/NTFS/MFT/Table.go: the table of records, and the passes that connect its records.
pub mod Lookup
pub mod Indexed
use mftextractor.Base.{
  ℕ, zero, suc, ◌+◌, ◌-◌, ◌*◌, ◌/◌, ◌%◌, ◌^◌, Bool, true, false, not, ◌&&◌, Option, none, some,
  List, [], ◌∷◌, ◌++◌, ltb, ◌==◌, if◌then◌else◌, length, get_elem?, set, take, replicate,
}
use mftextractor.Go.Outcome.{Outcome, ok, panic, stuck, or_panic, ◌>>=◌}
use mftextractor.Go.Slice.{Slice, bytes, slice}
use mftextractor.Go.Text.{GoString, codes, str_eq}
use mftextractor.Utils.Bytes.{hexify}
use mftextractor.Attributes.Attribute.{Attribute, Content, as_fn}
use mftextractor.Attributes.Fields.{FnAttribute}
use mftextractor.Attributes.Index.{IndexEntry}
use mftextractor.Mft.Record.{
  Record, LinkedRecordInfo, new_record, find_attribute, has_attr, is_folder, own_fname,
}
use mftextractor.Mft.Process.{Processed, Error, process_record}

-- RecordSize
abbrev pub record_size : ℕ
record_size = 1024

abbrev pub Records : Type 0
Records = List Record

-- records[i] = r
abbrev pub store_record : Records → ℕ → Record → Outcome Records
store_record rs i r = if ltb i (length rs) then ok (set rs i r) else panic

-- The bytes behind a record belong to the same array, so its repair is seen there.
abbrev pub splice : Slice → ℕ → Slice → Slice
splice buf i part = record buf { cells = take i buf.cells ++ part.cells }

-- `mfttable.Records[record.Entry] = record` after a record with no error.
abbrev pub keep_if_valid : Records → Processed → Outcome Records
keep_if_valid rs p = elim p.error [
  | none ↦ store_record rs p.result.entry p.result
  | some e ↦ ok rs
]

-- The loop of ProcessRecords; one variable `record` serves every round.
unfoldable pub process_records_from : ℕ → Slice → ℕ → Record → Records → Outcome Records
process_records_from zero buf i r rs = stuck
process_records_from (suc fuel) buf i r rs =
    let round = do
      mark ← slice buf i (i + 4)
      let skip = process_records_from fuel buf (i + record_size) r rs
      let next = do
        part ← slice buf i (i + record_size)
        p ← process_record part r
        rs' ← keep_if_valid rs p
        process_records_from fuel (splice buf i p.buffer) (i + record_size) p.result rs'
      if str_eq (hexify (bytes mark)) (codes "00000000") then skip else next
    in if ltb i buf.len then round else ok rs

-- ProcessRecords
unfoldable pub process_records : Slice → Outcome Records
process_records buf =
    process_records_from (suc buf.len) buf 0 new_record
      (replicate (buf.len / record_size) new_record)

-- records[referencedEntry].Seq - referencedSeq in uint16
abbrev pub seq_distance : Record → ℕ → ℕ
seq_distance r ref_seq = (r.seq + 2 ^ 16 - ref_seq) % 2 ^ 16

abbrev pub check_record : Record → ℕ → ℕ → Option ℕ
check_record r ref_entry ref_seq =
    if r.entry == ref_entry
    then (if ltb 1 (seq_distance r ref_seq) then none else some ref_entry)
    else none

-- The search of GetRecord behind the table, over the records from `idx` on: the test of the entry is
-- followed by an access at `referencedEntry`.
unfoldable pub search_from : Records → ℕ → Records → ℕ → ℕ → Outcome (Option ℕ)
search_from table idx [] ref_entry ref_seq = ok none
search_from table idx (r ∷ rs) ref_entry ref_seq =
    let rest = search_from table (suc idx) rs ref_entry ref_seq in
    let accessed = do
      q ← or_panic (get_elem? table ref_entry)
      if q.seq == ref_seq then ok (some idx) else rest
    in if r.entry == ref_entry then accessed else rest

-- GetRecord: the index of the record found, or none for an error.
unfoldable pub get_record : Records → ℕ → ℕ → Outcome (Option ℕ)
unfolding search_from
get_record rs ref_entry ref_seq =
    let direct = do r ← or_panic (get_elem? rs ref_entry); ok (check_record r ref_entry ref_seq)
    in if ltb ref_entry (length rs) then direct else search_from rs 0 rs ref_entry ref_seq

-- One linked record of the record at `idx`.
unfoldable pub link_one : ℕ → LinkedRecordInfo → Records → Outcome Records
link_one idx info rs = do
  r ← or_panic (get_elem? rs idx)
  let found = do
    o ← get_record rs info.ref_entry info.ref_seq
    elim o [
      | none ↦ ok rs
      | some i ↦ (do
        l ← or_panic (get_elem? rs i)
        rs' ← store_record rs i (record l { origin_linked_record = some idx })
        r' ← or_panic (get_elem? rs' idx)
        store_record rs' idx (record r' { linked_records = r'.linked_records ++ (i ∷ []) }))
    ]
  if r.entry == info.ref_entry then ok rs else found

unfoldable pub link_all : ℕ → List LinkedRecordInfo → Records → Outcome Records
link_all idx [] rs = ok rs
link_all idx (info ∷ infos) rs = do rs' ← link_one idx info rs; link_all idx infos rs'

-- The loop of CreateLinkedRecords: `left` records are to come, from `idx` on. The list of links is
-- the one that the record has when the loop reaches it.
unfoldable pub create_linked_from : ℕ → ℕ → Records → Outcome Records
create_linked_from zero idx rs = ok rs
create_linked_from (suc left) idx rs = do
  r ← or_panic (get_elem? rs idx)
  rs' ← link_all idx r.linked_records_info rs
  create_linked_from left (idx + 1) rs'

-- CreateLinkedRecords
unfoldable pub create_linked_records : Records → Outcome Records
create_linked_records rs = create_linked_from (length rs) 0 rs

-- The parent that the name of the record at `idx` refers to.
unfoldable pub parent_one : ℕ → Records → Outcome Records
parent_one idx rs = do
  r ← or_panic (get_elem? rs idx)
  elim (find_attribute r (codes "FileName")) [
    | none ↦ ok rs
    | some a ↦ (do
      f ← or_panic (as_fn a.content)
      o ← get_record rs (f.par_ref % 2 ^ 32) f.par_seq
      elim o [ none ↦ ok rs | some i ↦ store_record rs idx (record r { parent = some i }) ])
  ]

unfoldable pub find_parents_from : ℕ → ℕ → Records → Outcome Records
find_parents_from zero idx rs = ok rs
find_parents_from (suc left) idx rs = do
  rs' ← parent_one idx rs
  find_parents_from left (idx + 1) rs'

-- FindParentRecords
unfoldable pub find_parent_records : Records → Outcome Records
find_parent_records rs = find_parents_from (length rs) 0 rs

-- The loop of Record.GetFullPath over the ancestors, up to the root, whose entry is 5; the names are
-- prepended. GetFname is a parameter, for it follows the pointer to an original record.
unfoldable pub path_from :
    (Record → Outcome GoString) → ℕ → Records → Option ℕ → List GoString → Outcome (List GoString)
path_from fname zero rs parent path = stuck
path_from fname (suc fuel) rs none path = ok path
path_from fname (suc fuel) rs (some i) path = do
  r ← or_panic (get_elem? rs i)
  let up = do name ← fname r; path_from fname fuel rs r.parent (name ∷ path)
  if r.entry == 5 then ok path else up

-- The type assertion attr.(IndexAttributes)
abbrev pub as_index : Content → Option (List IndexEntry)
as_index (Content.index_root r) = some r.index_entries
as_index (Content.index_allocation a) = some a.index_entries
as_index _ = none

-- The entries with a file name, in their order.
unfoldable pub named_entries : List IndexEntry → List (IndexEntry × FnAttribute)
named_entries [] = []
named_entries (e ∷ es) =
    let rest = named_entries es in elim e.fnattr [ none ↦ rest | some f ↦ (e, f) ∷ rest ]

-- The size that an entry gives to the file it refers to.
unfoldable pub size_one : IndexEntry → FnAttribute → Records → Outcome Records
size_one e f rs = do
  o ← get_record rs (e.par_ref % 2 ^ 32) e.par_seq
  elim o [
    | none ↦ ok rs
    | some i ↦ (do
      r ← or_panic (get_elem? rs i)
      let size = if ltb f.alloc_fsize f.real_fsize then f.alloc_fsize else f.real_fsize
      if is_folder r then ok rs else store_record rs i (record r { i30_size = size }))
  ]

unfoldable pub size_all : List (IndexEntry × FnAttribute) → Records → Outcome Records
size_all [] rs = ok rs
size_all ((e, f) ∷ es) rs = do rs' ← size_one e f rs; size_all es rs'

-- sort.Sort(ByMFTEntryID(entries)) orders by the reference that the file name holds. It is not
-- stable, so what it returns among equal references is a parameter.
module _ (sort : List (IndexEntry × FnAttribute) → List (IndexEntry × FnAttribute)) where
  -- SetI30Size
  unfoldable pub set_i30_size : ℕ → GoString → Records → Outcome Records
  set_i30_size idx attr_type rs = do
    r ← or_panic (get_elem? rs idx)
    a ← or_panic (find_attribute r attr_type)
    es ← or_panic (as_index a.content)
    size_all (sort (named_entries es)) rs

  abbrev set_if_present : ℕ → GoString → Records → Outcome Records
  set_if_present idx attr_type rs = do
    r ← or_panic (get_elem? rs idx)
    if has_attr r attr_type then set_i30_size idx attr_type rs else ok rs

  unfoldable pub file_sizes_from : ℕ → ℕ → Records → Outcome Records
  file_sizes_from zero idx rs = ok rs
  file_sizes_from (suc left) idx rs = do
    r ← or_panic (get_elem? rs idx)
    let sized = do
      rs' ← set_if_present idx (codes "Index Root") rs
      set_if_present idx (codes "Index Allocation") rs'
    rs'' ← if not (is_folder r) then ok rs else sized
    file_sizes_from left (idx + 1) rs''

  -- CalculateFileSizes
  unfoldable pub calculate_file_sizes : Records → Outcome Records
  calculate_file_sizes rs = file_sizes_from (length rs) 0 rs
