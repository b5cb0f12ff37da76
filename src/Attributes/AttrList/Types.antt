-- ===== src/Attributes/AttrList/Types.antt =====
-- No entry of an attribute list has a type.
use mftextractor.Base.{
  ℕ, zero, suc, ◌+◌, ◌*◌, ◌%◌, ◌^◌, ◌≡◌, refl, List, [], ◌∷◌, ◌++◌, All, drop, ◌==◌, ◌||◌,
}
use mftextractor.Go.Outcome.{
  Outcome, ok, panic, stuck, ◌>>=◌, >>=-Returns, if-Returns, Returns-ok, Returns,
}
use mftextractor.Go.Slice.{Slice, bytes, slice}
use mftextractor.Utils.Bytes.{remove_nulls}
use mftextractor.Utils.Unmarshal.{
  Unmarshalled, untouched, unmarshal, unmarshal_from, unmarshal_field,
}
use mftextractor.Attributes.AttrList.{
  AttributeList, list_fields, list_of, entry_type, read_name, in_list, parse_list_from, parse_list,
}

abbrev pub HasNoType : AttributeList → Type 0
HasNoType e = e.type_ ≡ []

All-snoc :
    (es : List AttributeList) (e : AttributeList)
    → All HasNoType es
    → HasNoType e
    → All HasNoType (es ++ (e ∷ []))
All-snoc [] e h p = (p, tt)
All-snoc (x ∷ es) e (hx, h) p = (hx, All-snoc es e h p)

read_name-HasNoType :
    (buf : Slice) (attr_len : ℕ) (e : AttributeList)
    → HasNoType e
    → Returns HasNoType (read_name buf attr_len e)
read_name-HasNoType buf attr_len e h =
    let lo = (attr_len + e.nameoffset) % 2 ^ 16 in
    let hi = (attr_len + e.nameoffset + 2 * e.namelen) % 2 ^ 16 in
    >>=-Returns HasNoType (slice buf lo hi) (λ s. ok (record e { name = remove_nulls (bytes s) }))
      (λ s _. h)

-- Unmarshal sets no type in an entry.
behind_type :
    (m : Outcome Unmarshalled)
    → Returns
        (λ (u : Unmarshalled). HasNoType (list_of u.values))
        (m >>= λ u. ok (record u { values = untouched ∷ u.values }))
behind_type (ok u) = refl
behind_type panic = tt
behind_type stuck = tt

unmarshal-HasNoType :
    (s : Slice)
    → Returns (λ (u : Unmarshalled). HasNoType (list_of u.values)) (unmarshal list_fields s)
unfolding unmarshal unmarshal_from unmarshal_field
unmarshal-HasNoType s = behind_type (unmarshal_from (drop 1 list_fields) s 0)

parse_list_from-HasNoType :
    (fuel : ℕ) (buf : Slice) (attr_len : ℕ) (entries : List AttributeList)
    → All HasNoType entries
    → Returns (All HasNoType) (parse_list_from fuel buf attr_len entries)
unfolding parse_list_from
parse_list_from-HasNoType zero buf attr_len entries h = tt
parse_list_from-HasNoType (suc fuel) buf attr_len entries h =
    let P = All HasNoType in
    if-Returns P (in_list buf attr_len) _ _
      (λ _. >>=-Returns P (slice buf attr_len (attr_len + 24)) _ λ s _.
        >>=-Returns P (unmarshal list_fields s) _ λ u read.
          >>=-Returns P (read_name buf attr_len (list_of u.values)) _ λ e r.
            let unset =
              Returns-ok (λ v. HasNoType (list_of v.values)) (unmarshal list_fields s) u
                (unmarshal-HasNoType s) read in
            let typed =
              Returns-ok HasNoType _ e (read_name-HasNoType buf attr_len (list_of u.values) unset)
                r in
            let longer = All-snoc entries e h typed in
            if-Returns P ((attr_len + e.len) % 2 ^ 16 == 0 || e.len == 0) _ _ (λ _. longer)
              (λ _. parse_list_from-HasNoType fuel buf _ (entries ++ (e ∷ [])) longer))
      (λ _. h)

no_type :
    (es : List AttributeList)
    → All HasNoType es
    → All (λ x. (x.type_ ≡ []) × (entry_type x ≡ [])) es
unfolding entry_type
no_type [] h = tt
no_type (e ∷ es) (t, h) = ((t, rw t), no_type es h)

-- Every entry that AttributeListEntries.Parse returns, on any buffer, has the empty string for its
-- type, which GetType turns into the empty string: no entry is ever one of the type "DATA".
pub parse_list-HasNoType :
    (buf : Slice) (es : List AttributeList)
    → parse_list buf ≡ ok es
    → All (λ x. (x.type_ ≡ []) × (entry_type x ≡ [])) es
unfolding parse_list
parse_list-HasNoType buf es e = no_type es (
    Returns-ok (All HasNoType) (parse_list buf) es
      (parse_list_from-HasNoType (suc (2 ^ 16)) buf 0 [] tt) e)
