-- ===== src/Utils/Unmarshal/RoundTrip.antt =====
-- The bytes that Unmarshal takes for the values of a struct.
use mftextractor.Base.{
  ℕ, zero, suc, ◌+◌, ◌/◌, ◌%◌, ◌^◌, ◌≤◌, ◌<◌, ◌≡◌, refl, ap, ◌∙◌, true, some, List, [], ◌∷◌, ◌++◌,
  length, take, drop, length-append, take-append, drop-append, drop-add, length-drop, All, arith,
}
use mftextractor.Go.Outcome.{ok}
use mftextractor.Go.Slice.{Slice, IsSlice, of_bytes, slice-add}
use mftextractor.Utils.Endian.{IsByte, little_endian}
use mftextractor.Utils.Unmarshal.{
  Kind, Value, number, raw, time, untouched, read_uint, read_par_ref, read_time_spec,
  unmarshal_field, unmarshal_from, unmarshal, size_of, size_all,
}
use mathlib.Core.List.{append-nil, append_assoc}
use native.Mathlib.Nat.{pow-suc, add-zero, zero-add, add_assoc}

-- The n bytes of a number, lowest first.
unfoldable pub little_endian_bytes : ℕ → ℕ → List ℕ
little_endian_bytes zero v = []
little_endian_bytes (suc n) v = v % 256 ∷ little_endian_bytes n (v / 256)

pub length-little_endian_bytes : (n v : ℕ) → length (little_endian_bytes n v) ≡ n
unfolding little_endian_bytes
length-little_endian_bytes zero v = refl
length-little_endian_bytes (suc n) v = ap suc (length-little_endian_bytes n (v / 256))

pub little_endian_bytes-IsByte : (n v : ℕ) → All IsByte (little_endian_bytes n v)
unfolding little_endian_bytes
little_endian_bytes-IsByte zero v = tt
little_endian_bytes-IsByte (suc n) v = (omega arith, little_endian_bytes-IsByte n (v / 256))

pub little_endian-bytes : (n v : ℕ) → v < 256 ^ n → little_endian (little_endian_bytes n v) ≡ v
unfolding little_endian little_endian_bytes
little_endian-bytes zero v h = omega arith
little_endian-bytes (suc n) v h =
    omega (arith, little_endian-bytes n (v / 256) (omega (arith, pow-suc 256 n)))

-- The bytes of a field with the given value; a boolean is skipped, whatever the byte is.
unfoldable pub encode : Kind → Value → List ℕ
unfolding little_endian_bytes size_of
encode k (number v) = little_endian_bytes (size_of k) v
encode k (raw bs) = bs
encode k (time sec nsec) = little_endian_bytes 8 sec ++ little_endian_bytes 4 nsec
encode k untouched = []

-- The values that a field of the kind can hold after a call.
abbrev pub Fits : Kind → Value → Type 0
Fits Kind.uint8 (number v) = v < 256 ^ 1
Fits Kind.uint16 (number v) = v < 256 ^ 2
Fits Kind.uint32 (number v) = v < 256 ^ 4
Fits Kind.int64 (number v) = v < 256 ^ 8
Fits Kind.uint64 (number v) = v < 256 ^ 8
Fits Kind.par_ref (number v) = v < 256 ^ 6
Fits Kind.windows_time (number v) = v < 256 ^ 8
Fits Kind.boolean (number v) = v ≡ 0
Fits Kind.time_spec (time sec nsec) = (sec < 256 ^ 8) × (nsec ≡ 0)
Fits Kind.unhandled untouched = Unit {0}
Fits (Kind.array n) (raw bs) = length bs ≡ n
Fits _ _ = ⊥

abbrev pub FitsAll : List Kind → List Value → Type 0
FitsAll [] [] = Unit {0}
FitsAll [] (v ∷ vs) = ⊥
FitsAll (k ∷ ks) [] = ⊥
FitsAll (k ∷ ks) (v ∷ vs) = Fits k v × FitsAll ks vs

unfoldable pub encode_all : List Kind → List Value → List ℕ
unfolding encode
encode_all [] vs = []
encode_all (k ∷ ks) [] = []
encode_all (k ∷ ks) (v ∷ vs) = encode k v ++ encode_all ks vs

pub take_bytes :
    (n v : ℕ) (rest : List ℕ) → take n (little_endian_bytes n v ++ rest) ≡ little_endian_bytes n v
take_bytes n v rest =
    rw (length-little_endian_bytes n v) at (take-append (little_endian_bytes n v) rest)

-- A slice in which the bytes `bs` stand at `idx`, within the length.
abbrev At : Slice → ℕ → List ℕ → List ℕ → Type 0
At buf idx bs rest =
    (drop idx buf.cells ≡ bs ++ rest) × (idx + length bs ≤ buf.len) × (0 < buf.len) × IsSlice buf

read_uint_at :
    (n v : ℕ) (buf : Slice) (idx : ℕ) (rest : List ℕ)
    → v < 256 ^ n
    → drop idx buf.cells ≡ little_endian_bytes n v ++ rest
    → idx + n ≤ buf.len
    → IsSlice buf
    → read_uint n buf idx ≡ ok v
unfolding read_uint
read_uint_at n v buf idx rest h d l w =
    rw (slice-add buf idx n (omega arith), d, take_bytes n v rest)
      (ap ok (little_endian-bytes n v h))

little_endian-zeros : (bs : List ℕ) → little_endian (bs ++ 0 ∷ 0 ∷ []) ≡ little_endian bs
unfolding little_endian
little_endian-zeros [] = refl
little_endian-zeros (b ∷ bs) = omega (arith, little_endian-zeros bs)

par_ref_at :
    (v : ℕ) (buf : Slice) (idx : ℕ) (rest : List ℕ)
    → v < 256 ^ 6
    → drop idx buf.cells ≡ little_endian_bytes 6 v ++ rest
    → idx + 6 ≤ buf.len
    → IsSlice buf
    → read_par_ref buf idx ≡ ok (some (number v, idx + 6))
unfolding read_par_ref
par_ref_at v buf idx rest f d l w = rw (
  slice-add buf idx 6 (omega arith),
  d,
  take_bytes 6 v rest,
  little_endian-zeros (little_endian_bytes 6 v),
  little_endian-bytes 6 v f,
)

pub time_spec_at :
    (sec : ℕ) (rest : List ℕ) (buf : Slice) (idx : ℕ)
    → sec < 256 ^ 8
    → drop idx buf.cells ≡ little_endian_bytes 8 sec ++ rest
    → idx + 12 ≤ buf.len
    → IsSlice buf
    → read_time_spec buf idx ≡ ok (some (time sec 0, idx + 12))
unfolding read_time_spec
time_spec_at sec rest buf idx f d l w =
    let tail : Slice = record { cells = drop idx buf.cells; len = 12 } in
    let fits : IsSlice tail = omega (arith, length-drop idx buf.cells) in
    rw (slice-add buf idx 12 (omega arith), read_uint_at 8 sec tail 0 rest f d (omega arith) fits)

pub field_at :
    (k : Kind) (v : Value) (buf : Slice) (idx : ℕ) (rest : List ℕ)
    → Fits k v
    → drop idx buf.cells ≡ encode k v ++ rest
    → idx + size_of k ≤ buf.len
    → IsSlice buf
    → 0 < buf.len
    → unmarshal_field k buf idx ≡ ok (some (v, idx + size_of k))
unfolding unmarshal_field encode size_of
field_at Kind.uint8 (number v) buf idx rest f d l w p = rw (read_uint_at 1 v buf idx rest f d l w)
field_at Kind.uint16 (number v) buf idx rest f d l w p = rw (read_uint_at 2 v buf idx rest f d l w)
field_at Kind.uint32 (number v) buf idx rest f d l w p = rw (read_uint_at 4 v buf idx rest f d l w)
field_at Kind.int64 (number v) buf idx rest f d l w p = rw (read_uint_at 8 v buf idx rest f d l w)
field_at Kind.uint64 (number v) buf idx rest f d l w p = rw (read_uint_at 8 v buf idx rest f d l w)
field_at Kind.par_ref (number v) buf idx rest f d l w p = par_ref_at v buf idx rest f d l w
field_at Kind.windows_time (number v) buf idx rest f d l w p =
    rw (slice-add buf idx 8 (omega arith)) (
      rw (
        read_uint_at 8 v (record { cells = drop idx buf.cells; len = 8 }) 0 rest f d (omega arith)
          (omega (arith, length-drop idx buf.cells))))
field_at Kind.boolean (number v) buf idx rest f d l w p = rw f
field_at Kind.time_spec (time sec nsec) buf idx rest (f, z) d l w p = rw z (
    time_spec_at sec (little_endian_bytes 4 nsec ++ rest) buf idx f
      (d ∙ append_assoc (little_endian_bytes 8 sec) (little_endian_bytes 4 nsec) rest) l w)
field_at Kind.unhandled untouched buf idx rest f d l w p = rw (add-zero idx)
field_at (Kind.array n) (raw bs) buf idx rest f d l w p = ground (
  arith,
  d,
  slice-add buf idx n (omega arith),
  ap (λ (k : ℕ). take k (bs ++ rest)) f,
  take-append bs rest,
  append-nil bs,
)
field_at _ _ buf idx rest f d l w p = absurd f

length-encode : (k : Kind) (v : Value) → Fits k v → length (encode k v) ≡ size_of k
unfolding encode size_of
length-encode Kind.uint8 (number v) f = refl
length-encode Kind.uint16 (number v) f = refl
length-encode Kind.uint32 (number v) f = refl
length-encode Kind.int64 (number v) f = refl
length-encode Kind.uint64 (number v) f = refl
length-encode Kind.par_ref (number v) f = refl
length-encode Kind.windows_time (number v) f = refl
length-encode Kind.boolean (number v) f = refl
length-encode Kind.time_spec (time sec nsec) f = refl
length-encode Kind.unhandled untouched f = refl
length-encode (Kind.array n) (raw bs) f = f
length-encode _ _ f = absurd f

drop-field :
    (idx : ℕ) (k : Kind) (v : Value) (buf : Slice) (rest : List ℕ)
    → Fits k v
    → drop idx buf.cells ≡ encode k v ++ rest
    → drop (idx + size_of k) buf.cells ≡ rest
drop-field idx k v buf rest f d =
    rw (drop-add idx (size_of k) buf.cells, d, ← length-encode k v f)
      (drop-append (encode k v) rest)

pub unmarshal_from-encode_all :
    (ks : List Kind) (vs : List Value) (buf : Slice) (idx : ℕ) (rest : List ℕ)
    → FitsAll ks vs
    → drop idx buf.cells ≡ encode_all ks vs ++ rest
    → idx + size_all ks ≤ buf.len
    → IsSlice buf
    → 0 < buf.len
    → unmarshal_from ks buf idx
      ≡ ok (record { values = vs; idx = idx + size_all ks; is_complete = true })
unfolding unmarshal_from encode_all size_all
unmarshal_from-encode_all [] [] buf idx rest f d l w p = rw (add-zero idx)
unmarshal_from-encode_all [] (v ∷ vs) buf idx rest f d l w p = absurd f
unmarshal_from-encode_all (k ∷ ks) [] buf idx rest f d l w p = absurd f
unmarshal_from-encode_all (k ∷ ks) (v ∷ vs) buf idx rest (f, fs) d l w p =
    let rest' : List ℕ = encode_all ks vs ++ rest in
    let d' : drop idx buf.cells ≡ encode k v ++ rest' = d ∙ append_assoc (encode k v) _ _ in
    let next = drop-field idx k v buf rest' f d' in
    rw (
      field_at k v buf idx rest' f d' (omega arith) w p,
      unmarshal_from-encode_all ks vs buf (idx + size_of k) rest fs next (omega arith) w p,
      add_assoc idx (size_of k) (size_all ks),
    )

pub length-encode_all :
    (ks : List Kind) (vs : List Value) → FitsAll ks vs → length (encode_all ks vs) ≡ size_all ks
unfolding encode_all size_all
length-encode_all [] [] f = refl
length-encode_all [] (v ∷ vs) f = absurd f
length-encode_all (k ∷ ks) [] f = absurd f
length-encode_all (k ∷ ks) (v ∷ vs) (f, fs) = omega (
  arith,
  length-append (encode k v) (encode_all ks vs),
  length-encode k v f,
  length-encode_all ks vs fs,
)

-- Unmarshal on the bytes that it takes for the given values: a field with no case takes none.
pub unmarshal-encode_all :
    (ks : List Kind) (vs : List Value) (rest : List ℕ)
    → FitsAll ks vs
    → 0 < size_all ks
    → unmarshal ks (of_bytes (encode_all ks vs ++ rest))
      ≡ ok (record { values = vs; idx = size_all ks; is_complete = true })
unfolding unmarshal
unmarshal-encode_all ks vs rest f p =
    let whole = encode_all ks vs ++ rest in
    let long : size_all ks ≤ length whole =
      omega (arith, length-append (encode_all ks vs) rest, length-encode_all ks vs f) in
    unmarshal_from-encode_all ks vs (of_bytes whole) 0 rest f refl (omega arith) (omega arith)
      (omega arith)
    ∙ rw (zero-add (size_all ks))
