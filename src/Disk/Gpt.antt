-- ===== src/Disk/Gpt.antt =====
-- disk/partition/GPT/gpt.go: the header and the array of partitions. The volume and the RAID that a
-- partition may hold are not part of the array.
pub mod Kinds
use mftextractor.Base.{
  ℕ, zero, suc, ◌+◌, ◌*◌, ◌%◌, ◌^◌, Option, none, some, List, [], ◌∷◌, ◌++◌, if◌then◌else◌,
  get_elem?,
}
use mftextractor.Go.Outcome.{Outcome, ok, or_panic, ◌>>=◌}
use mftextractor.Go.Slice.{Slice, slice}
use mftextractor.Go.Text.{GoString, codes, str_eq}
use mftextractor.Attributes.Header.{lookup}
use mftextractor.Utils.Bytes.{stringify_guid}
use mftextractor.Utils.Unmarshal.{Kind, Value, unmarshal, nth_number, nth_raw}

-- The fields of GPTHeader that the program uses.
pub record GptHeader : Type 0 where
  pub start_signature : List ℕ
  pub header_size : ℕ
  pub current_lba : ℕ
  pub backup_lba : ℕ
  pub first_usable_lba : ℕ
  pub last_usable_lba : ℕ
  pub disk_guid : List ℕ
  pub partitions_start_lba : ℕ
  pub nof_partitions : ℕ
  pub partition_size : ℕ
  pub partition_array_crc : ℕ
  pub end_signature : List ℕ

abbrev pub gpt_header_fields : List Kind
gpt_header_fields =
    Kind.array 8
    ∷ Kind.array 4
    ∷ Kind.uint32
    ∷ Kind.uint32
    ∷ Kind.array 4
    ∷ Kind.uint64
    ∷ Kind.uint64
    ∷ Kind.uint64
    ∷ Kind.uint64
    ∷ Kind.array 16
    ∷ Kind.uint64
    ∷ Kind.uint32
    ∷ Kind.uint32
    ∷ Kind.uint32
    ∷ Kind.array 418
    ∷ Kind.array 2
    ∷ []

abbrev pub gpt_header_of : List Value → GptHeader
gpt_header_of vs = record {
  start_signature = nth_raw vs 0;
  header_size = nth_number vs 2;
  current_lba = nth_number vs 5;
  backup_lba = nth_number vs 6;
  first_usable_lba = nth_number vs 7;
  last_usable_lba = nth_number vs 8;
  disk_guid = nth_raw vs 9;
  partitions_start_lba = nth_number vs 10;
  nof_partitions = nth_number vs 11;
  partition_size = nth_number vs 12;
  partition_array_crc = nth_number vs 13;
  end_signature = nth_raw vs 15;
}

-- Partition; `raid` is the DataOffset of its superblock, if it has one.
pub record GptPartition : Type 0 where
  pub partition_type_guid : List ℕ
  pub partition_guid : List ℕ
  pub start_lba : ℕ
  pub end_lba : ℕ
  pub attributes : List ℕ
  pub raid : Option ℕ

-- Name is a string: it is not read.
abbrev pub gpt_partition_fields : List Kind
gpt_partition_fields =
    Kind.array 16
    ∷ Kind.array 16
    ∷ Kind.uint64
    ∷ Kind.uint64
    ∷ Kind.array 8
    ∷ Kind.unhandled
    ∷ Kind.unhandled
    ∷ Kind.unhandled
    ∷ []

abbrev pub gpt_partition_of : List Value → GptPartition
gpt_partition_of vs = record {
  partition_type_guid = nth_raw vs 0;
  partition_guid = nth_raw vs 1;
  start_lba = nth_number vs 2;
  end_lba = nth_number vs 3;
  attributes = nth_raw vs 4;
  raid = none;
}

-- PartitionTypeGuids
abbrev pub partition_type_guids : List (GoString × GoString)
partition_type_guids =
    (codes "ebd0a0a2-b9e5-4433-87c0-68b6b72699c7", codes "Windows")
    ∷ (codes "a19d880f-05fc-4d3b-a006-743f0f84911e", codes "Linux RAID")
    ∷ []

abbrev pub kind_of_guid : GoString → GoString
kind_of_guid guid = elim (lookup guid partition_type_guids) [ some t ↦ t | none ↦ guid ]

-- Partition.GetPartitionType
unfoldable pub get_partition_type : GptPartition → Outcome GoString
get_partition_type p = do guid ← stringify_guid p.partition_type_guid; ok (kind_of_guid guid)

-- GetUniquePartitionType
abbrev pub get_unique_partition_type : GptPartition → Outcome GoString
get_unique_partition_type p = stringify_guid p.partition_guid

-- IdentifyType: a missing key gives the empty string.
abbrev pub or_empty : Option GoString → GoString
or_empty none = []
or_empty (some t) = t

unfoldable pub identify_type : GptPartition → Outcome GoString
identify_type p = do t ← get_partition_type p; ok (or_empty (lookup t partition_type_guids))

-- ParseHeader
unfoldable pub parse_header : Slice → Outcome GptHeader
parse_header buf = do u ← unmarshal gpt_header_fields buf; ok (gpt_header_of u.values)

-- GetPartitionArraySize, a uint32
abbrev pub get_partition_array_size : GptHeader → ℕ
get_partition_array_size h = (h.partition_size * h.nof_partitions) % 2 ^ 32

-- The loop of ParsePartitions: `left` entries are to be read, from the entry `idx`.
unfoldable pub parse_partitions_from : ℕ → ℕ → ℕ → Slice → Outcome (List GptPartition)
parse_partitions_from zero size idx buf = ok []
parse_partitions_from (suc left) size idx buf = do
  part ← slice buf (idx * size) ((idx + 1) * size)
  u ← unmarshal gpt_partition_fields part
  rest ← parse_partitions_from left size (idx + 1) buf
  ok (gpt_partition_of u.values ∷ rest)

-- ParsePartitions
unfoldable pub parse_partitions : GptHeader → Slice → Outcome (List GptPartition)
parse_partitions h buf = parse_partitions_from h.nof_partitions h.partition_size 0 buf

-- GetPartition
abbrev pub get_gpt_partition : List GptPartition → ℕ → Outcome GptPartition
get_gpt_partition ps i = or_panic (get_elem? ps i)

-- Partition.GetOffset
abbrev pub get_gpt_offset : GptPartition → ℕ
get_gpt_offset p = elim p.raid [ none ↦ p.start_lba % 2 ^ 64 | some d ↦ (p.start_lba + d) % 2 ^ 64 ]
