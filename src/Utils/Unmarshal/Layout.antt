-- ===== src/Utils/Unmarshal/Layout.antt =====
-- A struct that is laid out in the order of its declaration is read back.
use mftextractor.Base.{
  ℕ, ◌+◌, ◌^◌, ◌≤◌, ◌<◌, ◌≡◌, refl, ap, ◌∙◌, true, some, List, [], ◌∷◌, ◌++◌, length, drop,
  length-append, drop-append, drop-add, arith,
}
use mftextractor.Go.Outcome.{ok}
use mftextractor.Go.Slice.{Slice, IsSlice, of_bytes}
use mftextractor.Utils.Unmarshal.{
  Kind, Value, number, raw, time, unmarshal_field, unmarshal_from, unmarshal, size_of,
}
use mftextractor.Utils.Unmarshal.RoundTrip.{little_endian_bytes, encode, field_at, time_spec_at}
use mathlib.Core.List.{append_assoc}
use native.Mathlib.Nat.{add-zero, zero-add, add_assoc}

-- The values of a field of the declared type. A field whose kind has no case in Unmarshal, and the
-- uint64 ChildVCN, have none here: a struct with such a field is not one that Unmarshal can read.
abbrev pub Declared : Kind → Value → Type 0
Declared Kind.uint8 (number v) = v < 2 ^ 8
Declared Kind.uint16 (number v) = v < 2 ^ 16
Declared Kind.uint32 (number v) = v < 2 ^ 32
Declared Kind.int64 (number v) = v < 2 ^ 64
Declared Kind.uint64 (number v) = v < 2 ^ 64
Declared Kind.par_ref (number v) = v < 2 ^ 48
Declared Kind.windows_time (number v) = v < 2 ^ 64
Declared Kind.boolean (number v) = v < 2 ^ 8
Declared Kind.time_spec (time sec nsec) = (sec < 2 ^ 64) × (nsec < 2 ^ 32)
Declared (Kind.array n) (raw bs) = length bs ≡ n
Declared _ _ = ⊥

abbrev pub DeclaredAll : List Kind → List Value → Type 0
DeclaredAll [] [] = Unit {0}
DeclaredAll [] (v ∷ vs) = ⊥
DeclaredAll (k ∷ ks) [] = ⊥
DeclaredAll (k ∷ ks) (v ∷ vs) = Declared k v × DeclaredAll ks vs

-- The bytes of a field on the disk; a reference to a parent has six.
unfoldable pub layout : Kind → Value → List ℕ
layout Kind.uint8 (number v) = little_endian_bytes 1 v
layout Kind.uint16 (number v) = little_endian_bytes 2 v
layout Kind.uint32 (number v) = little_endian_bytes 4 v
layout Kind.int64 (number v) = little_endian_bytes 8 v
layout Kind.uint64 (number v) = little_endian_bytes 8 v
layout Kind.par_ref (number v) = little_endian_bytes 6 v
layout Kind.windows_time (number v) = little_endian_bytes 8 v
layout Kind.boolean (number v) = little_endian_bytes 1 v
layout Kind.time_spec (time sec nsec) = little_endian_bytes 8 sec ++ little_endian_bytes 4 nsec
layout (Kind.array n) (raw bs) = bs
layout _ _ = []

unfoldable pub layout_all : List Kind → List Value → List ℕ
unfolding layout
layout_all [] vs = []
layout_all (k ∷ ks) [] = []
layout_all (k ∷ ks) (v ∷ vs) = layout k v ++ layout_all ks vs

-- What is kept of a value: a boolean is false whatever its byte is, and of a TimeSpec the nanoseconds
-- are lost.
unfoldable pub kept : Kind → Value → Value
kept Kind.boolean v = number 0
kept Kind.time_spec (time sec nsec) = time sec 0
kept _ v = v

unfoldable pub kept_all : List Kind → List Value → List Value
unfolding kept
kept_all [] vs = []
kept_all (k ∷ ks) [] = []
kept_all (k ∷ ks) (v ∷ vs) = kept k v ∷ kept_all ks vs

field-layout :
    (k : Kind) (v : Value) (buf : Slice) (idx : ℕ) (rest : List ℕ)
    → Declared k v
    → drop idx buf.cells ≡ layout k v ++ rest
    → idx + length (layout k v) ≤ buf.len
    → IsSlice buf
    → 0 < buf.len
    → unmarshal_field k buf idx ≡ ok (some (kept k v, idx + length (layout k v)))
unfolding unmarshal_field layout kept little_endian_bytes encode size_of
field-layout Kind.uint8 (number v) buf idx rest f d l w p =
    field_at Kind.uint8 (number v) buf idx rest f d l w p
field-layout Kind.uint16 (number v) buf idx rest f d l w p =
    field_at Kind.uint16 (number v) buf idx rest f d l w p
field-layout Kind.uint32 (number v) buf idx rest f d l w p =
    field_at Kind.uint32 (number v) buf idx rest f d l w p
field-layout Kind.int64 (number v) buf idx rest f d l w p =
    field_at Kind.int64 (number v) buf idx rest f d l w p
field-layout Kind.uint64 (number v) buf idx rest f d l w p =
    field_at Kind.uint64 (number v) buf idx rest f d l w p
field-layout Kind.par_ref (number v) buf idx rest f d l w p =
    field_at Kind.par_ref (number v) buf idx rest f d l w p
field-layout Kind.windows_time (number v) buf idx rest f d l w p =
    field_at Kind.windows_time (number v) buf idx rest f d l w p
field-layout Kind.boolean (number v) buf idx rest f d l w p = refl
field-layout Kind.time_spec (time sec nsec) buf idx rest (f, g) d l w p =
    time_spec_at sec (little_endian_bytes 4 nsec ++ rest) buf idx f d l w
field-layout (Kind.array n) (raw bs) buf idx rest f d l w p =
    rw f (field_at (Kind.array n) (raw bs) buf idx rest f d (rw f at l) w p)
field-layout _ _ buf idx rest f d l w p = absurd f

unmarshal_from-layout_all :
    (ks : List Kind) (vs : List Value) (buf : Slice) (idx : ℕ) (rest : List ℕ)
    → DeclaredAll ks vs
    → drop idx buf.cells ≡ layout_all ks vs ++ rest
    → idx + length (layout_all ks vs) ≤ buf.len
    → IsSlice buf
    → 0 < buf.len
    → unmarshal_from ks buf idx
      ≡ ok (record {
        values = kept_all ks vs;
        idx = idx + length (layout_all ks vs);
        is_complete = true;
      })
unfolding unmarshal_from layout_all kept_all
unmarshal_from-layout_all [] [] buf idx rest f d l w p = rw (add-zero idx)
unmarshal_from-layout_all [] (v ∷ vs) buf idx rest f d l w p = absurd f
unmarshal_from-layout_all (k ∷ ks) [] buf idx rest f d l w p = absurd f
unmarshal_from-layout_all (k ∷ ks) (v ∷ vs) buf idx rest (f, fs) d l w p =
    let one = layout k v in
    let rest' : List ℕ = layout_all ks vs ++ rest in
    let d' : drop idx buf.cells ≡ one ++ rest' = d ∙ append_assoc one (layout_all ks vs) rest in
    let len = length-append one (layout_all ks vs) in
    let next : drop (idx + length one) buf.cells ≡ rest' =
      drop-add idx (length one) buf.cells ∙ ap (drop (length one)) d' ∙ drop-append one rest' in
    rw (
      field-layout k v buf idx rest' f d' (omega (arith, len)) w p,
      unmarshal_from-layout_all ks vs buf (idx + length one) rest fs next (omega (arith, len)) w p,
      len,
      add_assoc idx (length one) (length (layout_all ks vs)),
    )

-- A struct all of whose fields have a case in Unmarshal, laid out in the order of its declaration, is
-- read back field by field, whatever follows it: every number, array and stamp as it is; of a
-- TimeSpec the seconds, with zero nanoseconds; a boolean as false whatever its byte is. The index
-- returned is the length of the layout.
pub unmarshal-layout :
    (ks : List Kind) (vs : List Value) (rest : List ℕ)
    → DeclaredAll ks vs
    → 0 < length (layout_all ks vs)
    → unmarshal ks (of_bytes (layout_all ks vs ++ rest))
      ≡ ok (record { values = kept_all ks vs; idx = length (layout_all ks vs); is_complete = true })
unfolding unmarshal
unmarshal-layout ks vs rest f p =
    let len = length-append (layout_all ks vs) rest in
    unmarshal_from-layout_all ks vs (of_bytes (layout_all ks vs ++ rest)) 0 rest f refl
      (omega (arith, len)) (omega arith) (omega (arith, len))
    ∙ rw (zero-add (length (layout_all ks vs)))
