-- ===== src/Mft/Table/Indexed.antt =====
-- ProcessRecords puts each record at its own entry, and none of them has links.
use mftextractor.Base.{
  ℕ, zero, suc, ◌+◌, ◌/◌, ◌<◌, ◌≡◌, refl, sym, ◌∙◌, ◌⊎◌, inl, inr, false, Option, none, some, [],
  ltb, ltb→lt, ◌==◌, ==_iff, length, get_elem?, set, replicate, Bool-cases, length-set,
  length-replicate, get_elem?-set_self, get_elem?-set_ne, arith, subst,
}
use mftextractor.Go.Outcome.{ok, Returns, >>=-Returns, if-Returns, Returns-ok}
use mftextractor.Go.Slice.{Slice, bytes, slice}
use mftextractor.Go.Text.{codes, str_eq}
use mftextractor.Utils.Bytes.{hexify}
use mftextractor.Mft.Record.{Record, new_record}
use mftextractor.Mft.Process.{Processed, Error, process_record}
use mftextractor.Mft.Process.Links.{process_record-unlinked}
use mftextractor.Mft.Table.Lookup.{elem_in_range}
use mftextractor.Mft.Table.{
  Records, record_size, store_record, splice, keep_if_valid, process_records_from, process_records,
  link_all, create_linked_from, create_linked_records,
}

-- A record of the table: one that was never written, or one that stands at its entry; no links.
abbrev pub FitsAt : ℕ → Record → Type 0
FitsAt k r = ((r ≡ new_record) ⊎ (r.entry ≡ k)) × (r.linked_records_info ≡ [])

abbrev pub IsIndexed : Records → Type 0
IsIndexed rs = (k : ℕ) (r : Record) → get_elem? rs k ≡ some r → FitsAt k r

some_eq {ℓ} : {A : Type ℓ} {a b : A} → some a ≡ some b → a ≡ b
some_eq e = cc

set-IsIndexed :
    (rs : Records) (r : Record)
    → IsIndexed rs
    → r.linked_records_info ≡ []
    → r.entry < length rs
    → IsIndexed (set rs r.entry r)
set-IsIndexed rs r h n l k q g = elim (Bool-cases (k == r.entry)) [
  | inl same ↦
      let here : k ≡ r.entry = (==_iff k r.entry).0 same in
      subst (FitsAt k) (some_eq (set_here here)) (inr (sym here), n)
  | inr other ↦ h k q (sym (get_elem?-set_ne rs r.entry k r (λ e. differs other e)) ∙ g)
]
  where
    set_here : k ≡ r.entry → some r ≡ some q
    set_here e = cc (get_elem?-set_self rs r.entry r l, e, g)

    differs : (k == r.entry) ≡ false → r.entry ≡ k → ⊥
    differs o e = ground arith

get_elem?-replicate {ℓ} :
    {A : Type ℓ} (n k : ℕ) (a x : A) → get_elem? (replicate n a) k ≡ some x → a ≡ x
get_elem?-replicate zero k a x g = cc
get_elem?-replicate (suc n) zero a x g = some_eq g
get_elem?-replicate (suc n) (suc k) a x g = get_elem?-replicate n k a x g

replicate-IsIndexed : (n : ℕ) → IsIndexed (replicate n new_record)
replicate-IsIndexed n k r g =
    subst (FitsAt k) (get_elem?-replicate n k new_record r g) (inl refl, refl)

-- The table has the size given, and its records are where they belong.
abbrev HasSize : ℕ → Records → Type 0
HasSize n rs = IsIndexed rs × (length rs ≡ n)

keep_if_valid-HasSize :
    (n : ℕ) (rs : Records) (part : Slice) (r : Record) (p : Processed)
    → HasSize n rs
    → process_record part r ≡ ok p
    → Returns (HasSize n) (keep_if_valid rs p)
keep_if_valid-HasSize n rs part r p h e = kept p.error refl
  where
    kept :
        (o : Option Error)
        → p.error ≡ o
        → Returns
            (HasSize n)
            (elim o [ none ↦ store_record rs p.result.entry p.result | some x ↦ ok rs ])
    kept (some x) f = h
    kept none f =
        if-Returns (HasSize n) (ltb p.result.entry (length rs)) _ _
          (λ inside. (
            set-IsIndexed rs p.result h.0 (process_record-unlinked part r p e f)
                (ltb→lt p.result.entry (length rs) inside),
            length-set rs p.result.entry p.result ∙ h.1,
          ))
          (λ _. tt)

process_records_from-HasSize :
    (fuel n : ℕ) (buf : Slice) (i : ℕ) (r : Record) (rs : Records)
    → HasSize n rs
    → Returns (HasSize n) (process_records_from fuel buf i r rs)
unfolding process_records_from
process_records_from-HasSize zero n buf i r rs h = tt
process_records_from-HasSize (suc fuel) n buf i r rs h =
    let P = HasSize n in
    if-Returns P (ltb i buf.len) _ _
      (λ _. >>=-Returns P (slice buf i (i + 4)) _ λ mark _.
        if-Returns P (str_eq (hexify (bytes mark)) (codes "00000000")) _ _
          (λ _. process_records_from-HasSize fuel n buf (i + record_size) r rs h)
          (λ _. >>=-Returns P (slice buf i (i + record_size)) _ λ part _.
            >>=-Returns P (process_record part r) _ λ p e.
              >>=-Returns P (keep_if_valid rs p) _ λ rs' k.
                process_records_from-HasSize fuel n (splice buf i p.buffer) (i + record_size)
                  p.result rs' (Returns-ok P _ rs' (keep_if_valid-HasSize n rs part r p h e) k)))
      (λ _. h)

-- ProcessRecords, where it returns: the table has one place for each 1024 bytes of the buffer; each
-- place holds the zero record or a record whose entry number is the place's index; and no record has
-- a linked record.
pub process_records-IsIndexed :
    (buf : Slice) (rs : Records)
    → process_records buf ≡ ok rs
    → IsIndexed rs × (length rs ≡ buf.len / record_size)
unfolding process_records
process_records-IsIndexed buf rs e =
    Returns-ok (HasSize (buf.len / record_size)) (process_records buf) rs
      (process_records_from-HasSize (suc buf.len) (buf.len / record_size) buf 0 new_record _ (
        replicate-IsIndexed (buf.len / record_size),
        length-replicate (buf.len / record_size) new_record,
      ))
      e

create_linked_from-eq :
    (left idx : ℕ) (rs : Records)
    → IsIndexed rs
    → idx + left ≡ length rs
    → create_linked_from left idx rs ≡ ok rs
unfolding create_linked_from link_all
create_linked_from-eq zero idx rs h e = refl
create_linked_from-eq (suc left) idx rs h e =
    let (r, g) = elem_in_range rs idx (omega arith) in
    rw (g, (h idx r g).1) (create_linked_from-eq left (idx + 1) rs h (omega arith))

-- CreateLinkedRecords after ProcessRecords changes nothing: no record is ever linked to the record
-- that holds its attribute list.
pub create_linked_records-process_records :
    (buf : Slice) (rs : Records) → process_records buf ≡ ok rs → create_linked_records rs ≡ ok rs
unfolding create_linked_records
create_linked_records-process_records buf rs e =
    create_linked_from-eq (length rs) 0 rs (process_records-IsIndexed buf rs e).0 (omega arith)
