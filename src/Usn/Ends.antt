-- ===== src/Usn/Ends.antt =====
-- The loops over the clusters of the journal end.
use mftextractor.Base.{
  ℕ, zero, suc, false, ◌+◌, ◌*◌, ◌≤◌, ◌<◌, ◌≢◌, Option, none, some, List, [], ◌∷◌, ◌++◌, ltb,
  ltb→lt, ◌==◌, if◌then◌else◌, arith,
}
use mftextractor.Go.Outcome.{
  Outcome, ok, stuck, ◌>>=◌, >>=-ne-stuck, ok-ne-stuck, if-ne-stuck, Returns, >>=-Returns,
  if-Returns, Returns-ok,
}
use mftextractor.Go.Slice.{Slice, slice, slice_from}
use mftextractor.Utils.Unmarshal.{
  Kind, Value, Unmarshalled, unmarshal_field, unmarshal_from, unmarshal, read_uint, read_par_ref,
  read_time_spec, read_windows_time, read_array,
}
use mftextractor.Usn.{
  UsnRecord, usn_fields, usn_of, with_name, parse_usn, usn_records_from, usn_records, async_process,
}

unmarshal_field-ne-stuck : (k : Kind) (buf : Slice) (idx : ℕ) → unmarshal_field k buf idx ≢ stuck
unfolding unmarshal_field read_uint read_par_ref read_time_spec read_windows_time read_array
unmarshal_field-ne-stuck Kind.uint8 buf idx = ground arith
unmarshal_field-ne-stuck Kind.uint16 buf idx = ground arith
unmarshal_field-ne-stuck Kind.uint32 buf idx = ground arith
unmarshal_field-ne-stuck Kind.int64 buf idx = ground arith
unmarshal_field-ne-stuck Kind.uint64 buf idx = ground arith
unmarshal_field-ne-stuck Kind.par_ref buf idx = ground arith
unmarshal_field-ne-stuck Kind.child_vcn buf idx = ground arith
unmarshal_field-ne-stuck Kind.boolean buf idx = ground arith
unmarshal_field-ne-stuck Kind.time_spec buf idx = ground arith
unmarshal_field-ne-stuck Kind.windows_time buf idx = ground arith
unmarshal_field-ne-stuck Kind.unhandled buf idx = ground arith
unmarshal_field-ne-stuck (Kind.array n) buf idx = ground arith

unmarshal_from-ne-stuck :
    (ks : List Kind) (buf : Slice) (idx : ℕ) → unmarshal_from ks buf idx ≢ stuck
unfolding unmarshal_from
unmarshal_from-ne-stuck [] buf idx = ok-ne-stuck _
unmarshal_from-ne-stuck (k ∷ ks) buf idx =
    >>=-ne-stuck (unmarshal_field k buf idx) _ (unmarshal_field-ne-stuck k buf idx)
      λ o _. after o (unmarshal_from-ne-stuck ks buf)
  where
    after :
        (o : Option (Value × ℕ))
        → ((i : ℕ) → unmarshal_from ks buf i ≢ stuck)
        → ◌≢◌ {A = Outcome Unmarshalled}
            (elim o [
              | none ↦ ok (record { values = []; idx = idx; is_complete = false })
              | some (v, i) ↦ (do
                u ← unmarshal_from ks buf i
                ok (record u { values = v ∷ u.values }))
            ])
            stuck
    after none h = ok-ne-stuck _
    after (some (v, i)) h = >>=-ne-stuck (unmarshal_from ks buf i) _ (h i) λ u _. ok-ne-stuck _

pub unmarshal-ne-stuck : (ks : List Kind) (buf : Slice) → unmarshal ks buf ≢ stuck
unfolding unmarshal
unmarshal-ne-stuck ks buf = unmarshal_from-ne-stuck ks buf 0

with_name-ne-stuck : (buf : Slice) (r : UsnRecord) (n : ℕ) → with_name buf r n ≢ stuck
with_name-ne-stuck buf r n =
    if-ne-stuck (ltb buf.len n) _ _ (λ _. ok-ne-stuck none)
      λ _. >>=-ne-stuck (slice buf 60 n) _ (ground arith) λ s _. ok-ne-stuck _

parse_usn-ne-stuck : (buf : Slice) → parse_usn buf ≢ stuck
unfolding parse_usn
parse_usn-ne-stuck buf =
    if-ne-stuck (ltb buf.len 60) _ _ (λ _. ok-ne-stuck none)
      λ _.
        >>=-ne-stuck (unmarshal usn_fields buf) _ (unmarshal-ne-stuck usn_fields buf)
          λ u _. with_name-ne-stuck buf (usn_of u.values) _

-- A record takes sixty bytes at least.
abbrev Advances : Option (UsnRecord × ℕ) → Type 0
Advances none = Unit
Advances (some (r, n)) = 60 ≤ n

parse_usn-Advances : (buf : Slice) → Returns Advances (parse_usn buf)
unfolding parse_usn
parse_usn-Advances buf =
    if-Returns Advances (ltb buf.len 60) _ _ (λ _. tt)
      λ _. >>=-Returns Advances (unmarshal usn_fields buf) _ λ u _.
        let n = 60 + 2 * (usn_of u.values).fname_len in
        if-Returns Advances (ltb buf.len n) _ _ (λ _. tt)
          λ _. >>=-Returns Advances (slice buf 60 n) _ λ s _. omega arith

usn_records_from-ne-stuck :
    (fuel : ℕ) (s : Slice) (offset : ℕ) (sent : List UsnRecord)
    → 0 < fuel
    → s.len < offset + fuel
    → usn_records_from fuel s offset sent ≢ stuck
unfolding usn_records_from
usn_records_from-ne-stuck zero s offset sent p h = absurd (omega arith)
usn_records_from-ne-stuck (suc fuel) s offset sent p h =
    if-ne-stuck (ltb offset s.len) _ _
      (λ more. >>=-ne-stuck (slice_from s offset) _ (ground arith) λ rest _.
        >>=-ne-stuck (parse_usn rest) _ (parse_usn-ne-stuck rest) λ o e.
          go o (Returns-ok Advances (parse_usn rest) o (parse_usn-Advances rest) e) (λ n xs l.
            usn_records_from-ne-stuck fuel s (offset + n) xs
              (omega (arith, ltb→lt offset s.len more)) (omega arith)))
      (λ past. ok-ne-stuck sent)
  where
    go :
        (o : Option (UsnRecord × ℕ))
        → Advances o
        → ((n : ℕ) (xs : List UsnRecord) → 60 ≤ n → usn_records_from fuel s (offset + n) xs ≢ stuck)
        → elim o [
          | none ↦ ok sent
          | some (r, n) ↦
              usn_records_from fuel s
                (offset + n)
                (if r.entry_ref == 0 then sent else sent ++ (r ∷ []))
        ]
          ≢ stuck
    go none a later = ok-ne-stuck sent
    go (some (r, n)) a later = later n _ a

-- AsyncProcess comes to an end, or a record makes it panic, whatever the clusters hold that it
-- receives: each record that it reads takes it forward.
pub async_process-ne-stuck : (cs : List Slice) → async_process cs ≢ stuck
unfolding async_process
async_process-ne-stuck [] = ok-ne-stuck []
async_process-ne-stuck (c ∷ cs) =
    >>=-ne-stuck (usn_records c) _
      (usn_records_from-ne-stuck (suc c.len) c 0 [] (omega arith) (omega arith))
      λ first _.
        >>=-ne-stuck (async_process cs) _ (async_process-ne-stuck cs) λ more _. ok-ne-stuck _
