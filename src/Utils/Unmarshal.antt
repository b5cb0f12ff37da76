-- ===== src/Utils/Unmarshal.antt =====
-- utils/utils.go, Unmarshal: a struct is filled field by field, in the order of its declaration.
-- The reflected struct is a list of field kinds, and the filled fields are a list of values.
pub mod RoundTrip
pub mod Layout
pub mod Sizes
pub mod Total
use mftextractor.Base.{
  ℕ, zero, suc, ◌+◌, ◌-◌, ◌<◌, Bool, true, false, Option, none, some, List, [], ◌∷◌, ◌++◌, ltb, leb,
  ◌==◌, if◌then◌else◌, length, take, drop, replicate,
}
use mftextractor.Go.Outcome.{Outcome, ok, panic, ◌>>=◌}
use mftextractor.Go.Slice.{Slice, bytes, slice}
use mftextractor.Utils.Endian.{little_endian}

-- The cases of the switch on `field.Kind()`. `par_ref` and `child_vcn` are the uint64 fields of
-- these names. `unhandled` is every kind with no case: signed 16- and 32-bit integers, strings,
-- pointers, slices, interfaces; such a field is left alone and takes no bytes.
pub data Kind : Type 0 where
  uint8 uint16 uint32 int64 uint64 par_ref child_vcn boolean time_spec windows_time : Kind
  unhandled : Kind
  array : ℕ → Kind

-- What a field is set to. A signed integer is its bit pattern, a WindowsTime is its stamp; a
-- TimeSpec has the pattern of its seconds and its nanoseconds.
pub data Value : Type 0 where
  number : ℕ → Value
  raw : List ℕ → Value
  time : ℕ → ℕ → Value
  untouched : Value

-- binary.Read of an n-byte integer from data[idx:idx+n]
unfoldable pub read_uint : ℕ → Slice → ℕ → Outcome ℕ
read_uint n buf idx = do s ← slice buf idx (idx + n); ok (little_endian (bytes s))

abbrev read_number : ℕ → Slice → ℕ → Outcome (Option (Value × ℕ))
read_number n buf idx = do v ← read_uint n buf idx; ok (some (number v, idx + n))

-- The buffer of eight bytes into which data[idx:idx+6] is copied.
unfoldable pub read_par_ref : Slice → ℕ → Outcome (Option (Value × ℕ))
read_par_ref buf idx = do
  s ← slice buf idx (idx + 6)
  ok (some (number (little_endian (bytes s ++ 0 ∷ 0 ∷ [])), idx + 6))

-- Of a TimeSpec's twelve bytes the recursive call reads the seconds; the int32 has no case.
unfoldable pub read_time_spec : Slice → ℕ → Outcome (Option (Value × ℕ))
read_time_spec buf idx = do
  s ← slice buf idx (idx + 12)
  sec ← read_uint 8 s 0
  ok (some (time sec 0, idx + 12))

unfoldable pub read_windows_time : Slice → ℕ → Outcome (Option (Value × ℕ))
read_windows_time buf idx = do
  s ← slice buf idx (idx + 8)
  stamp ← read_uint 8 s 0
  ok (some (number stamp, idx + 8))

-- The bytes data[idx:end] at the front of an array of n zeros.
abbrev filled : ℕ → List ℕ → List ℕ
filled n bs = bs ++ replicate (n - length bs) 0

-- `reflect.TypeOf(data[0])` panics on an empty slice. An array that starts behind the data is an
-- error; one that ends behind it is filled up with zeros.
unfoldable pub read_array : ℕ → Slice → ℕ → Outcome (Option (Value × ℕ))
read_array n buf idx =
    let end = if ltb buf.len (idx + n) then buf.len else idx + n in
    if buf.len == 0
    then panic
    else if ltb end idx
    then ok none
    else (do s ← slice buf idx end; ok (some (raw (filled n (bytes s)), idx + n)))

-- One round of the loop: the field's value and the next index, or none for the error. In the case
-- of a uint64 `ChildVCN` the call `val.Elem()` on a struct panics.
unfoldable pub unmarshal_field : Kind → Slice → ℕ → Outcome (Option (Value × ℕ))
unfolding read_uint read_par_ref read_time_spec read_windows_time read_array
unmarshal_field Kind.uint8 buf idx = read_number 1 buf idx
unmarshal_field Kind.uint16 buf idx = read_number 2 buf idx
unmarshal_field Kind.uint32 buf idx = read_number 4 buf idx
unmarshal_field Kind.int64 buf idx = read_number 8 buf idx
unmarshal_field Kind.uint64 buf idx = read_number 8 buf idx
unmarshal_field Kind.par_ref buf idx = read_par_ref buf idx
unmarshal_field Kind.child_vcn buf idx = panic
unmarshal_field Kind.boolean buf idx = ok (some (number 0, idx + 1))
unmarshal_field Kind.time_spec buf idx = read_time_spec buf idx
unmarshal_field Kind.windows_time buf idx = read_windows_time buf idx
unmarshal_field Kind.unhandled buf idx = ok (some (untouched, idx))
unmarshal_field (Kind.array n) buf idx = read_array n buf idx

-- What a call leaves: the fields set so far, the index returned, and whether the error is nil.
pub record Unmarshalled : Type 0 where
  pub values : List Value
  pub idx : ℕ
  pub is_complete : Bool

unfoldable pub unmarshal_from : List Kind → Slice → ℕ → Outcome Unmarshalled
unmarshal_from [] buf idx = ok (record { values = []; idx = idx; is_complete = true })
unmarshal_from (k ∷ ks) buf idx = do
  r ← unmarshal_field k buf idx
  elim r [
    | none ↦ ok (record { values = []; idx = idx; is_complete = false })
    | some (v, idx') ↦ (do u ← unmarshal_from ks buf idx'; ok (record u { values = v ∷ u.values }))
  ]

-- Unmarshal
unfoldable pub unmarshal : List Kind → Slice → Outcome Unmarshalled
unfolding unmarshal_from unmarshal_field
unmarshal ks buf = unmarshal_from ks buf 0

-- The value of the i-th field, in a struct that was zero before the call.
abbrev pub nth_number : List Value → ℕ → ℕ
nth_number [] i = 0
nth_number (number n ∷ vs) zero = n
nth_number (raw bs ∷ vs) zero = 0
nth_number (time s n ∷ vs) zero = s
nth_number (untouched ∷ vs) zero = 0
nth_number (v ∷ vs) (suc i) = nth_number vs i

abbrev pub nth_raw : List Value → ℕ → List ℕ
nth_raw [] i = []
nth_raw (number n ∷ vs) zero = []
nth_raw (raw bs ∷ vs) zero = bs
nth_raw (time s n ∷ vs) zero = []
nth_raw (untouched ∷ vs) zero = []
nth_raw (v ∷ vs) (suc i) = nth_raw vs i

-- The step by which Unmarshal goes on behind a field. It is not the size of the declared type where
-- the type has no case: a string, a pointer or an int32 is stepped over by zero bytes.
unfoldable pub size_of : Kind → ℕ
size_of Kind.uint8 = 1
size_of Kind.uint16 = 2
size_of Kind.uint32 = 4
size_of Kind.int64 = 8
size_of Kind.uint64 = 8
size_of Kind.par_ref = 6
size_of Kind.child_vcn = 0
size_of Kind.boolean = 1
size_of Kind.time_spec = 12
size_of Kind.windows_time = 8
size_of Kind.unhandled = 0
size_of (Kind.array n) = n

unfoldable pub size_all : List Kind → ℕ
unfolding size_of
size_all [] = 0
size_all (k ∷ ks) = size_of k + size_all ks
