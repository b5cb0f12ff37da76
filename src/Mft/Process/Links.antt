-- ===== src/Mft/Process/Links.antt =====
-- Record.Process never records a link to another record of the table.
use mftextractor.Base.{
  ℕ, zero, suc, ◌+◌, ◌*◌, ◌%◌, ◌^◌, ◌≡◌, refl, Bool, true, false, not, Option, none, some, List, [],
  ◌∷◌, All, if◌then◌else◌, ltb, ◌∙◌,
}
use mftextractor.Go.Outcome.{
  Outcome, ok, or_panic, ◌>>=◌, Returns, >>=-Returns, if-Returns, Returns-ok,
}
use mftextractor.Go.Slice.{Slice, bytes, slice, slice_from}
use mftextractor.Go.Text.{GoString, codes, str_eq}
use mftextractor.Utils.Bytes.{decode_utf16}
use mftextractor.Utils.Unmarshal.{unmarshal}
use mftextractor.Attributes.Header.{
  AttributeHeader, parse_resident, non_resident_fields, non_resident_of, is_type, is_no_n_resident,
}
use mftextractor.Attributes.Fields.{parse_fn, parse_si, parse_object_id, parse_volume_info}
use mftextractor.Attributes.Fields.Extended.{
  parse_reparse, parse_ea_information, parse_extended, parse_logged_utility,
}
use mftextractor.Attributes.Index.{parse_index_root}
use mftextractor.Attributes.AttrList.{AttributeList, entry_type, parse_list}
use mftextractor.Attributes.AttrList.Types.{parse_list-HasNoType}
use mftextractor.Attributes.Attribute.{Content}
use mftextractor.Mft.Record.{Record, LinkedRecordInfo, record_fields, record_of}
use mftextractor.Mft.FixUps.{process_fix_up_arrays, fix_first_sector}
use mftextractor.Mft.Round.{
  Collected, linked_infos, linked_by, collect, resident_content, resident_round,
  non_resident_content, with_run_list, non_resident_round,
}
use mftextractor.Mft.Process.{
  Processed, read_header, attribute_round, attributes_from, process_checked, process_record,
}

linked_infos-eq :
    (es : List AttributeList) (found : List LinkedRecordInfo)
    → All (λ x. (x.type_ ≡ []) × (entry_type x ≡ [])) es
    → linked_infos es found ≡ found
unfolding linked_infos
linked_infos-eq [] found h = refl
linked_infos-eq (e ∷ es) found ((t, n), h) = rw (linked_infos-eq es _ h, n) (unfold str_eq in refl)

-- A content that adds no link.
abbrev IsSilent : Option Content → Type 0
IsSilent none = Unit
IsSilent (some x) = (found : List LinkedRecordInfo) → linked_by x found ≡ found

decoded {ℓ} :
    {A : Type ℓ} (part : Outcome Slice) (parse : Slice → Outcome A) (mk : A → Content)
    → ((a : A) → IsSilent (some (mk a)))
    → Returns IsSilent (do s ← part; c ← parse s; ok (some (mk c)))
decoded part parse mk h =
    >>=-Returns IsSilent part (λ s. do c ← parse s; ok (some (mk c)))
      λ s _. >>=-Returns IsSilent (parse s) (λ c. ok (some (mk c))) λ c _. h c

kept :
    (part : Outcome Slice) (mk : List ℕ → Content)
    → ((bs : List ℕ) → IsSilent (some (mk bs)))
    → Returns IsSilent (do s ← part; ok (some (mk (bytes s))))
kept part mk h = >>=-Returns IsSilent part (λ s. ok (some (mk (bytes s)))) λ s _. h (bytes s)

listed :
    (part : Outcome Slice)
    → Returns IsSilent (do s ← part; c ← parse_list s; ok (some (Content.attr_list c)))
listed part =
    >>=-Returns IsSilent part (λ s. do c ← parse_list s; ok (some (Content.attr_list c)))
      λ s _.
        >>=-Returns IsSilent (parse_list s) (λ c. ok (some (Content.attr_list c)))
          λ c e found. linked_infos-eq c found (parse_list-HasNoType s c e)

module _ (h : AttributeHeader) where
  else_if :
      (name : GoString) (x y : Outcome (Option Content))
      → Returns IsSilent x
      → Returns IsSilent y
      → Returns IsSilent (if is_type name h then x else y)
  else_if name x y p q = if-Returns IsSilent (is_type name h) x y (λ _. p) (λ _. q)

  resident_content-IsSilent :
      (name : GoString) (part : Outcome Slice) → Returns IsSilent (resident_content h name part)
  unfolding resident_content
  resident_content-IsSilent name part =
      else_if (codes "FileName") _ _ (decoded part parse_fn Content.file_name (λ _ _. refl)) (
        else_if (codes "Reparse Point") _ _
          (decoded part parse_reparse Content.reparse (λ _ _. refl))
          (else_if (codes "DATA") _ _ (kept part Content.data_ (λ _ _. refl)) (
            else_if (codes "Object ID") _ _
              (decoded part parse_object_id Content.object_id (λ _ _. refl))
              (else_if (codes "Attribute List") _ _ (listed part) (
                else_if (codes "BitMap") _ _ (kept part Content.bitmap (λ _ _. refl)) (
                  else_if (codes "Volume Name") _ _ (kept part Content.volume_name (λ _ _. refl)) (
                    else_if (codes "Volume Information") _ _
                      (decoded part parse_volume_info Content.volume_info (λ _ _. refl))
                      (else_if (codes "Index Root") _ _
                        (decoded part parse_index_root Content.index_root (λ _ _. refl))
                        (else_if (codes "Standard Information") _ _
                          (decoded part parse_si Content.std_info (λ _ _. refl))
                          (else_if (codes "Logged Utility Stream") _ _
                            (decoded part (parse_logged_utility name) (Content.logged_utility name)
                              (λ _ _. refl))
                            (else_if (codes "Extended Attribute") _ _
                              (decoded part parse_extended Content.extended (λ _ _. refl))
                              (else_if (codes "Extended Attribute Information") _ _
                                (decoded part parse_ea_information Content.ea_information
                                  (λ _ _. refl))
                                tt))))))))))))

abbrev HasNoLink : Collected → Type 0
HasNoLink c = c.linked ≡ []

collect-HasNoLink :
    (c : Collected) (h : AttributeHeader) (x : Option Content)
    → IsSilent x
    → HasNoLink c
    → HasNoLink (collect c h x)
collect-HasNoLink c h none s n = n
collect-HasNoLink c h (some x) s n = s c.linked ∙ n

if-IsSilent :
    (b : Bool) (x y : Option Content) → IsSilent x → IsSilent y → IsSilent (if b then x else y)
if-IsSilent true x y p q = p
if-IsSilent false x y p q = q

non_resident_content-IsSilent : (h : AttributeHeader) → IsSilent (non_resident_content h)
unfolding non_resident_content linked_infos
non_resident_content-IsSilent h =
    if-IsSilent (is_type (codes "DATA") h) _ _ (λ _. refl)
      (if-IsSilent (is_type (codes "Index Allocation") h) _ _ (λ _. refl)
        (if-IsSilent (is_type (codes "BitMap") h) _ _ (λ _. refl)
          (if-IsSilent (is_type (codes "Attribute List") h) _ _ (λ _. refl)
            (if-IsSilent (is_type (codes "Reparse Point") h) _ _ (λ _. refl) tt))))

resident_round-HasNoLink :
    (bs : Slice) (ptr : ℕ) (h : AttributeHeader) (c : Collected)
    → HasNoLink c
    → Returns HasNoLink (resident_round bs ptr h c)
unfolding resident_round
resident_round-HasNoLink bs ptr h c n =
    let P = HasNoLink in
    >>=-Returns P (slice_from bs ((ptr + 16) % 2 ^ 16)) _ λ behind _.
      >>=-Returns P (parse_resident behind) _ λ r _.
        >>=-Returns P
          (slice bs ((ptr + h.name_off) % 2 ^ 16) ((ptr + h.name_off + 2 * h.nlen) % 2 ^ 16)) _
          λ name _.
            let res = record r { name = decode_utf16 (bytes name) } in
            let h' = record h { resident = some res } in
            let start = (ptr + res.offset_content) % 2 ^ 16 in
            let part = slice bs start ((start + res.content_size) % 2 ^ 32) in
            >>=-Returns P (resident_content h' res.name part) _ λ x e.
              collect-HasNoLink c h' x
                (Returns-ok IsSilent _ x (resident_content-IsSilent h' res.name part) e) n

non_resident_round-HasNoLink :
    (bs : Slice) (ptr : ℕ) (h : AttributeHeader) (c : Collected)
    → HasNoLink c
    → Returns HasNoLink (non_resident_round bs ptr h c)
unfolding non_resident_round
non_resident_round-HasNoLink bs ptr h c n =
    let P = HasNoLink in
    >>=-Returns P (slice bs ((ptr + 16) % 2 ^ 16) ((ptr + 64) % 2 ^ 16)) _ λ s _.
      >>=-Returns P (unmarshal non_resident_fields s) _ λ u _.
        >>=-Returns P (with_run_list bs ptr h (non_resident_of u.values)) _ λ r _.
          let h' = record h { non_resident = some r } in
          collect-HasNoLink c h' (non_resident_content h') (non_resident_content-IsSilent h') n

attribute_round-HasNoLink :
    (bs : Slice) (ptr : ℕ) (h : AttributeHeader) (c : Collected)
    → HasNoLink c
    → Returns HasNoLink (attribute_round bs ptr h c)
unfolding attribute_round
attribute_round-HasNoLink bs ptr h c n =
    if-Returns HasNoLink (not (is_no_n_resident h)) _ _ (λ _. resident_round-HasNoLink bs ptr h c n)
      (λ _. non_resident_round-HasNoLink bs ptr h c n)

attributes_from-HasNoLink :
    (fuel : ℕ) (bs : Slice) (ptr : ℕ) (c : Collected)
    → HasNoLink c
    → Returns HasNoLink (attributes_from fuel bs ptr c)
unfolding attributes_from
attributes_from-HasNoLink zero bs ptr c n = tt
attributes_from-HasNoLink (suc fuel) bs ptr c n =
    if-Returns HasNoLink (ltb ptr 1024) _ _
      (λ _. >>=-Returns HasNoLink (read_header bs ptr) _ (elim [
        | none ↦ λ _. n
        | some h ↦ λ _. >>=-Returns HasNoLink (attribute_round bs ptr h c) _ λ c' e.
            attributes_from-HasNoLink fuel bs ((ptr + h.attr_len) % 2 ^ 16) c'
              (Returns-ok HasNoLink _ c' (attribute_round-HasNoLink bs ptr h c n) e)
      ]))
      (λ _. n)

-- After a successful call the record has no links; a failed one leaves the links as they were.
abbrev IsUnlinked : Record → Processed → Type 0
IsUnlinked r p = p.error ≡ none → p.result.linked_records_info ≡ []

process_checked-IsUnlinked :
    (r : Record) (bs : Slice) (r0 : Record) → Returns (IsUnlinked r) (process_checked bs r0)
unfolding process_checked
process_checked-IsUnlinked r bs r0 =
    let P = IsUnlinked r in
    >>=-Returns P (process_fix_up_arrays bs r0) _ λ r1 _.
      >>=-Returns P (or_panic r1.fix_up) _ λ fix _.
        >>=-Returns P (fix_first_sector fix bs) _ λ bs' _.
          let start : Collected = record { attributes = []; linked = []; bitmap = r1.bitmap } in
          >>=-Returns P (attributes_from 1025 bs' r1.attr_off start) _ λ c e.
            >>=-Returns P (process_fix_up_arrays bs' r1) _ λ r2 _ _.
              Returns-ok HasNoLink _ c (attributes_from-HasNoLink 1025 bs' r1.attr_off start refl) e

process_record-IsUnlinked : (bs : Slice) (r : Record) → Returns (IsUnlinked r) (process_record bs r)
unfolding process_record
process_record-IsUnlinked bs r =
    let P = IsUnlinked r in
    >>=-Returns P (unmarshal record_fields bs) _ λ u _.
      let r0 = record_of r u.values in
      if-Returns P (str_eq r0.signature (codes "BAAD")) _ _ (λ _ e. cc)
        λ _.
          if-Returns P (not (str_eq r0.signature (codes "FILE"))) _ _ (λ _ e. cc)
            λ _. process_checked-IsUnlinked r bs r0

-- Whenever Record.Process succeeds, on any buffer and any earlier state of the receiver, the list
-- LinkedRecordsInfo of the record is empty, also when the record has an attribute list.
pub process_record-unlinked :
    (bs : Slice) (r : Record) (p : Processed)
    → process_record bs r ≡ ok p
    → p.error ≡ none
    → p.result.linked_records_info ≡ []
process_record-unlinked bs r p e =
    Returns-ok (IsUnlinked r) (process_record bs r) p (process_record-IsUnlinked bs r) e
