-- ===== src/Tests/Tables.antt =====
-- The table and the tree of records, the partitions and the filters, on small inputs.
use mftextractor.Base.{ℕ, ◌≤◌, ◌≡◌, ◌↔◌, refl, arith, true, List, [], ◌∷◌, none, some, All, length}
use mftextractor.Go.Outcome.{ok, panic, ◌>>=◌}
use mftextractor.Go.Slice.{of_bytes}
use mftextractor.Go.Text.{GoString, empty_string, codes, str_eq}
use mftextractor.Attributes.Attribute.{Attribute, Content}
use mftextractor.Attributes.Fields.{FnAttribute, fn_of}
use mftextractor.Attributes.Header.{header_of, type_name, lookup}
use mftextractor.Disk.Mbr.{Partition, locate_partitions}
use mftextractor.Disk.Mbr.Entries.{encode_table, locate_partitions-encode_table}
use mftextractor.Disk.Gpt.{GptPartition, identify_type}
use mftextractor.Disk.Gpt.Kinds.{identify_type-empty}
use mftextractor.Mft.Record.{Record, new_record, find_in, is_folder, is_deleted, record_type}
use mftextractor.Mft.Table.{Records, get_record}
use mftextractor.Mft.Table.Lookup.{
  HasSeq, IsReferenced, HasEntry, get_record-some, get_record-panic,
}
use mftextractor.Tree.{build, insert, insert_record, add_record, node, nil, cons, append_node}
use mftextractor.Tree.Search.{insert_all, build-insert}
use mftextractor.Filters.{
  Filter, apply_filters, execute, filter_by, filter_by_extensions, has_filename_extension,
  has_suffix,
}
use mftextractor.Filters.Passed.{PassesAll, apply_filters-PassesAll}
use mftextractor.Utils.Bytes.{hexify, bytereverse, stringify_guid}

-- A record with a number, a sequence number, flags and attributes.
abbrev record_with : ℕ → ℕ → List Attribute → Record
record_with e f as_ = record new_record { entry = e; seq = 1; flags = f; attributes = as_ }

abbrev three_records : Records
three_records = record_with 0 1 [] ∷ record_with 1 1 [] ∷ record_with 9 1 [] ∷ []

abbrev one : ℕ
one = 1

three_records-HasSeq : All HasSeq three_records
three_records-HasSeq = (omega arith, (omega arith, (omega arith, tt)))

get_record-some_example :
    (get_record three_records 1 0 ≡ ok (some 1))
    ↔ ((one ≡ 1) × ((r : Record) × IsReferenced three_records 1 0 r))
get_record-some_example = get_record-some three_records 1 0 1 three_records-HasSeq (omega arith)

get_record-panic_example :
    (get_record three_records 9 1 ≡ panic) ↔ ((length three_records ≤ 9) × HasEntry three_records 9)
get_record-panic_example = get_record-panic three_records 9 1

-- A name, with the entry and the sequence number of the parent.
abbrev name_in : ℕ → FnAttribute
name_in parent = record (fn_of []) {
  par_ref = parent;
  par_seq = 1;
  nspace = 1;
  fname = codes "a.txt";
}

abbrev name_attribute : ℕ → Attribute
name_attribute parent = record {
  header = record (header_of []) { type_ = 0x30 ∷ 0 ∷ 0 ∷ 0 ∷ [] };
  content = Content.file_name (name_in parent);
}

-- The root, a folder in it, a folder in that.
abbrev folders : Records
folders =
    record_with 5 3 []
    ∷ record_with 40 3 (name_attribute 5 ∷ [])
    ∷ record_with 60 3 (name_attribute 40 ∷ [])
    ∷ []

abbrev folder_tree : mftextractor.Tree.Node
folder_tree =
    node (record_with 5 3 [])
      (cons
        (node (record_with 40 3 (name_attribute 5 ∷ []))
          (cons (node (record_with 60 3 (name_attribute 40 ∷ [])) nil 60 60) nil) 40 60)
        nil)
      0 60

build-folders : build folders none ≡ ok (some folder_tree)
unfolding build add_record insert_record insert append_node find_in str_eq is_folder record_type
    type_name lookup hexify bytereverse
build-folders = refl

build-insert_example :
    insert (name_in 60) (record_with 70 1 []) folder_tree
    ≡ insert_all (name_in 60) (record_with 70 1 []) folder_tree
build-insert_example =
    build-insert folders folder_tree (name_in 60) (record_with 70 1 []) build-folders (omega arith)

abbrev two_entries : List Partition
two_entries =
    (record {
      flag = 0x80;
      start_chs = 1 ∷ 1 ∷ 0 ∷ [];
      type_ = 7;
      end_chs = 254 ∷ 255 ∷ 255 ∷ [];
      start_lba = 63;
      size = 204800;
    })
    ∷ (record {
      flag = 0;
      start_chs = 0 ∷ 0 ∷ 0 ∷ [];
      type_ = 15;
      end_chs = 254 ∷ 255 ∷ 255 ∷ [];
      start_lba = 204863;
      size = 1000000;
    })
    ∷ []

locate_partitions-encode_table_example :
    locate_partitions (of_bytes (encode_table two_entries)) ≡ ok two_entries
locate_partitions-encode_table_example = locate_partitions-encode_table two_entries (
  (omega arith, (refl, (omega arith, (refl, (omega arith, (omega arith, (tt, tt))))))),
  ((omega arith, (refl, (omega arith, (refl, (omega arith, (omega arith, (tt, tt))))))), tt),
)

-- A partition of the type that the table calls Windows.
abbrev windows_partition : GptPartition
windows_partition = record {
  partition_type_guid =
      0xa2 ∷ 0xa0 ∷ 0xd0 ∷ 0xeb ∷ 0xe5 ∷ 0xb9 ∷ 0x33 ∷ 0x44 ∷ 0x87 ∷ 0xc0 ∷ 0x68 ∷ 0xb6 ∷ 0xb7
      ∷ 0x26 ∷ 0x99 ∷ 0xc7 ∷ [];
  partition_guid = [];
  start_lba = 2048;
  end_lba = 4096;
  attributes = [];
  raid = none;
}

identify_type-empty_example :
    identify_type windows_partition
    ≡ (stringify_guid windows_partition.partition_type_guid >>= λ guid. ok empty_string)
identify_type-empty_example = identify_type-empty windows_partition

-- The file a.txt, deleted, and one that is not.
abbrev deleted_file : Record
deleted_file = record_with 70 0 (name_attribute 5 ∷ [])

abbrev two_files : Records
two_files = deleted_file ∷ record_with 71 1 (name_attribute 5 ∷ []) ∷ []

abbrev two_filters : List Filter
two_filters = Filter.deleted true ∷ Filter.extensions (codes "txt" ∷ []) ∷ []

abbrev unchanged : GoString → GoString
unchanged s = s

filtered :
    apply_filters two_files unchanged unchanged two_filters two_files ≡ ok (deleted_file ∷ [])
unfolding apply_filters execute filter_by is_deleted record_type str_eq filter_by_extensions
    has_filename_extension find_in type_name lookup hexify bytereverse has_suffix
filtered = refl

apply_filters-PassesAll_example :
    All
      (λ r. (r.seq ≡ 1) × PassesAll two_files unchanged unchanged two_filters r)
      (deleted_file ∷ [])
apply_filters-PassesAll_example =
    apply_filters-PassesAll two_files unchanged unchanged (λ r. r.seq ≡ 1) two_filters two_files
      (deleted_file ∷ []) (refl, (refl, tt)) filtered
