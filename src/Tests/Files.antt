-- ===== src/Tests/Files.antt =====
-- Records with their attributes, and the content of files, on small inputs.
use mftextractor.Base.{
  ℕ, suc, ◌/◌, ◌≡◌, ◌≢◌, refl, arith, false, List, [], ◌∷◌, ◌++◌, none, some, All, length,
  replicate,
}
use mftextractor.Base.Int.{ℤ, pos, negsuc}
use mftextractor.Go.Outcome.{Outcome, ok, stuck}
use mftextractor.Go.Slice.{Slice, of_bytes, bytes}
use mftextractor.Go.Text.{codes, str_eq}
use mftextractor.Mft.Record.{FixUp, Record, new_record}
use mftextractor.Mft.FixUps.{process_fix_up_arrays, fix_first_sector, fix_up_values}
use mftextractor.Mft.FixUps.Sector.{SameOutside, fix_first_sector-SameOutside}
use mftextractor.Mft.Round.{Collected, resident_round, resident_content, linked_infos}
use mftextractor.Mft.Process.{
  Processed, process_record, process_checked, attributes_from, attribute_round, read_header,
}
use mftextractor.Mft.Process.Links.{process_record-unlinked}
use mftextractor.Mft.Process.Ends.{
  Hangs, Hangs-mark, Hangs-attribute, attributes_from_ends, attributes_from-zero_length,
}
use mftextractor.Mft.Table.{
  Records, process_records, process_records_from, create_linked_records, record_size,
}
use mftextractor.Mft.Table.Indexed.{
  IsIndexed, process_records-IsIndexed, create_linked_records-process_records,
}
use mftextractor.Attributes.Header.{AttributeHeader, header_of, parse_resident, type_name, lookup}
use mftextractor.Attributes.AttrList.{AttributeList, parse_list, parse_list_from, entry_type}
use mftextractor.Attributes.AttrList.Types.{parse_list-HasNoType}
use mftextractor.Utils.Bytes.{hexify, bytereverse, decode_utf16, remove_nulls, utf16_units}
use mftextractor.Utils.Endian.{little_endian}
use mftextractor.Disk.Reader.{DiskReader}
use mftextractor.Volume.{select_mft, no_first, no_last}
use mftextractor.Volume.Whole.{select_mft_whole}
use mftextractor.Attributes.Attribute.{Content}
use mftextractor.Attributes.RunList.{RunList}
use mftextractor.Attributes.Header.{non_resident_of}
use mftextractor.Utils.Unmarshal.{
  unmarshal, unmarshal_from, unmarshal_field, read_uint, read_array, read_par_ref,
}

-- The value of a run that returns.
abbrev returned {ℓ} : {A : Type ℓ} → A → Outcome A → A
returned d (ok a) = a
returned d _ = d

abbrev magnitude : ℤ → ℕ
magnitude (pos n) = n
magnitude (negsuc n) = suc n

abbrev nothing : Processed
nothing = record { result = new_record; buffer = of_bytes []; error = none }

-- One entry of an attribute list, of the type DATA, that is 32 bytes long.
abbrev list_entry : List ℕ
list_entry =
    0x80 ∷ 0 ∷ 0 ∷ 0 ∷ 32 ∷ 0 ∷ 0 ∷ 26 ∷ 0 ∷ 0 ∷ 0 ∷ 0 ∷ 0 ∷ 0 ∷ 0 ∷ 0 ∷ 40 ∷ 0 ∷ 0 ∷ 0 ∷ 0 ∷ 0 ∷ 1
    ∷ 0 ∷ 1 ∷ 0 ∷ 0 ∷ 0 ∷ 0 ∷ 0 ∷ 0 ∷ 0 ∷ []

abbrev listed : List AttributeList
listed = returned [] (parse_list (of_bytes list_entry))

list_parsed : parse_list (of_bytes list_entry) ≡ ok listed
unfolding parse_list parse_list_from unmarshal unmarshal_from unmarshal_field read_uint read_par_ref
    remove_nulls little_endian
list_parsed = refl

parse_list-HasNoType_example : All (λ x. (x.type_ ≡ []) × (entry_type x ≡ [])) listed
parse_list-HasNoType_example = parse_list-HasNoType (of_bytes list_entry) listed list_parsed

-- A record of 512 bytes: its header, a fix-up array, and an attribute list with that entry.
abbrev record_bytes : List ℕ
record_bytes =
    codes "FILE"
    ++ (48 ∷ 0 ∷ 2 ∷ 0 ∷ replicate 8 0)
    ++ (1 ∷ 0 ∷ 1 ∷ 0 ∷ 56 ∷ 0 ∷ 1 ∷ 0 ∷ replicate 20 0)
    ++ (0 ∷ 0 ∷ 0 ∷ 0 ∷ 7 ∷ 7 ∷ 5 ∷ 6 ∷ 0 ∷ 0 ∷ 0 ∷ 0 ∷ [])
    ++ (0x20 ∷ 0 ∷ 0 ∷ 0 ∷ 56 ∷ 0 ∷ 0 ∷ 0 ∷ 0 ∷ 0 ∷ 24 ∷ 0 ∷ 0 ∷ 0 ∷ 0 ∷ 0 ∷ 32 ∷ 0 ∷ 0 ∷ 0 ∷ 24 ∷ 0
        ∷ 0 ∷ 0 ∷ [])
    ++ list_entry
    ++ (255 ∷ 255 ∷ 255 ∷ 255 ∷ replicate 394 0)
    ++ (7 ∷ 7 ∷ [])

record_length : length record_bytes ≡ 512
record_length = refl

abbrev one_processed : Processed
one_processed = returned nothing (process_record (of_bytes record_bytes) new_record)

one_record : process_record (of_bytes record_bytes) new_record ≡ ok one_processed
unfolding process_record process_checked process_fix_up_arrays fix_up_values fix_first_sector
    attributes_from read_header attribute_round resident_round resident_content parse_resident
    type_name lookup str_eq hexify bytereverse decode_utf16 utf16_units parse_list parse_list_from
    unmarshal unmarshal_from unmarshal_field read_uint read_array read_par_ref remove_nulls
    linked_infos entry_type little_endian
one_record = refl

no_error : one_processed.error ≡ none
unfolding process_record process_checked process_fix_up_arrays fix_up_values fix_first_sector
    attributes_from read_header attribute_round resident_round resident_content parse_resident
    type_name lookup str_eq hexify bytereverse decode_utf16 utf16_units parse_list parse_list_from
    unmarshal unmarshal_from unmarshal_field read_uint read_array read_par_ref remove_nulls
    linked_infos entry_type little_endian
no_error = refl

process_record-unlinked_example : one_processed.result.linked_records_info ≡ []
process_record-unlinked_example =
    process_record-unlinked (of_bytes record_bytes) new_record one_processed one_record no_error

-- A table of that one record.
abbrev table_bytes : Slice
table_bytes = of_bytes (record_bytes ++ replicate 512 0)

abbrev one_table : Records
one_table = returned [] (process_records table_bytes)

table_processed : process_records table_bytes ≡ ok one_table
unfolding process_records process_records_from process_record process_checked process_fix_up_arrays
    fix_up_values fix_first_sector attributes_from read_header attribute_round resident_round
    resident_content parse_resident type_name lookup str_eq hexify bytereverse decode_utf16
    utf16_units parse_list parse_list_from unmarshal unmarshal_from unmarshal_field read_uint
    read_array read_par_ref remove_nulls linked_infos entry_type little_endian
table_processed = refl

process_records-IsIndexed_example :
    IsIndexed one_table × (length one_table ≡ table_bytes.len / record_size)
process_records-IsIndexed_example = process_records-IsIndexed table_bytes one_table table_processed

create_linked_records-process_records_example : create_linked_records one_table ≡ ok one_table
create_linked_records-process_records_example =
    create_linked_records-process_records table_bytes one_table table_processed

-- The end of the first sector is put back.
abbrev sector : Slice
sector = of_bytes (replicate 510 1 ++ (7 ∷ 7 ∷ []))

abbrev repaired : Slice
repaired = of_bytes (replicate 510 1 ++ (5 ∷ 6 ∷ []))

abbrev two_values : FixUp
two_values = record { signature = 7 ∷ 7 ∷ []; original_values = (5 ∷ 6 ∷ []) ∷ []; place = some 48 }

sector_fixed : fix_first_sector two_values sector ≡ ok repaired
unfolding fix_first_sector
sector_fixed = refl

fix_first_sector-SameOutside_example : SameOutside sector repaired
fix_first_sector-SameOutside_example =
    fix_first_sector-SameOutside two_values sector repaired sector_fixed

abbrev nothing_collected : Collected
nothing_collected = record { attributes = []; linked = []; bitmap = false }

-- The run over the attributes of the record above: the list at 56, and the mark of the end at 112.
abbrev list_header : AttributeHeader
list_header = record (header_of []) { type_ = 0x20 ∷ 0 ∷ 0 ∷ 0 ∷ []; attr_len = 56; name_off = 24 }

list_header_read : read_header (of_bytes record_bytes) 56 ≡ ok (some list_header)
unfolding read_header unmarshal unmarshal_from unmarshal_field read_uint read_array little_endian
    type_name lookup str_eq hexify bytereverse
list_header_read = refl

list_decoded :
    (c : Collected)
    → (d : Collected) × (attribute_round (of_bytes record_bytes) 56 list_header c ≡ ok d)
unfolding attribute_round resident_round resident_content parse_resident type_name lookup str_eq
    hexify bytereverse decode_utf16 utf16_units parse_list parse_list_from unmarshal unmarshal_from
    unmarshal_field read_uint read_array read_par_ref remove_nulls linked_infos entry_type
    little_endian
list_decoded c = (_, refl)

end_read : read_header (of_bytes record_bytes) 112 ≡ ok none
unfolding read_header str_eq hexify
end_read = refl

list-Hangs : ¬ Hangs (of_bytes record_bytes) 56 nothing_collected
list-Hangs =
    Hangs-attribute (of_bytes record_bytes) 56 list_header nothing_collected list_header_read
      (omega arith) (λ s. let (d, e) = list_decoded nothing_collected in absurd (cc e))
      λ c. Hangs-mark (of_bytes record_bytes) 112 c end_read

attributes_from_ends_example :
    attributes_from 1025 (of_bytes record_bytes) 56 nothing_collected ≢ stuck
attributes_from_ends_example =
    attributes_from_ends (of_bytes record_bytes) 56 nothing_collected list-Hangs

-- An attribute of an unknown type whose length is zero.
abbrev zero_length : Slice
zero_length = of_bytes (1 ∷ replicate 39 0)

abbrev zero_header : AttributeHeader
zero_header = record (header_of []) { type_ = 1 ∷ 0 ∷ 0 ∷ 0 ∷ [] }

zero_length_read : read_header zero_length 0 ≡ ok (some zero_header)
unfolding read_header unmarshal unmarshal_from unmarshal_field read_uint read_array little_endian
    type_name lookup str_eq hexify bytereverse
zero_length_read = refl

zero_length_round :
    (d : Collected) → (d' : Collected) × (attribute_round zero_length 0 zero_header d ≡ ok d')
unfolding attribute_round resident_round resident_content parse_resident decode_utf16 utf16_units
    unmarshal unmarshal_from unmarshal_field read_uint read_array little_endian type_name lookup
    str_eq hexify bytereverse
zero_length_round d = (d, refl)

attributes_from-zero_length_example : attributes_from 2000 zero_length 0 nothing_collected ≡ stuck
attributes_from-zero_length_example =
    attributes_from-zero_length 2000 zero_length 0 zero_header nothing_collected (omega arith)
      zero_length_read refl zero_length_round

-- A disk whose bytes at an offset are that offset, and a file of two runs, the second sparse.
abbrev small_disk : DiskReader
small_disk = record { read_file = λ o n. magnitude o ∷ magnitude n ∷ []; disk_size = pos 100000 }

abbrev two_runs : RunList
two_runs = (record { offset = pos 4; length = 2 }) ∷ (record { offset = pos 0; length = 9 }) ∷ []

abbrev stored_file : Record
stored_file = record new_record {
  entry = 30;
  attributes =
      (record {
        header = record (header_of []) {
          type_ = 0x80 ∷ 0 ∷ 0 ∷ 0 ∷ [];
          no_n_resident = 1;
          non_resident = some (record (non_resident_of []) { run_list = some two_runs });
        };
        content = Content.data_ [];
      })
      ∷ [];
}

-- Two records of an area, the second behind the first.
abbrev area : Slice
area = of_bytes (replicate 1024 1 ++ replicate 1024 2)

select_mft_whole_example : select_mft area [] no_first no_last ≡ ok (bytes area)
select_mft_whole_example = select_mft_whole area (omega arith) refl (omega arith)
