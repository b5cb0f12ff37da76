-- ===== src/Utils/Unmarshal/Total.antt =====
-- A buffer that holds the whole layout is decoded with neither a panic nor an error.
use mftextractor.Base.{
  ℕ, ◌+◌, ◌≤◌, ◌<◌, ◌≡◌, refl, ap, true, some, List, [], ◌∷◌, ◌++◌, length, take, drop, arith,
  length-drop,
}
use mftextractor.Go.Outcome.{ok}
use mftextractor.Go.Slice.{Slice, IsSlice, slice-add}
use mftextractor.Utils.Endian.{little_endian}
use mftextractor.Utils.Unmarshal.{
  Kind, Value, number, raw, time, untouched, read_uint, filled, unmarshal_field, unmarshal_from,
  unmarshal, size_of, size_all,
}
use native.Mathlib.Nat.{add-zero, zero-add, add_assoc}

-- A struct with no uint64 field named ChildVCN, whose case panics.
abbrev pub IsPlain : Kind → Type 0
IsPlain Kind.child_vcn = ⊥
IsPlain _ = Unit {0}

abbrev pub IsPlainAll : List Kind → Type 0
IsPlainAll [] = Unit {0}
IsPlainAll (k ∷ ks) = IsPlain k × IsPlainAll ks

abbrev pub uint_at : ℕ → Slice → ℕ → ℕ
uint_at n buf idx = little_endian (take n (drop idx buf.cells))

pub read_uint-eq :
    (n : ℕ) (buf : Slice) (idx : ℕ)
    → idx + n ≤ length buf.cells
    → read_uint n buf idx ≡ ok (uint_at n buf idx)
unfolding read_uint
read_uint-eq n buf idx h = rw (slice-add buf idx n h)

abbrev Reads : Kind → Slice → ℕ → Type 0
Reads k buf idx = (v : Value) × (unmarshal_field k buf idx ≡ ok (some (v, idx + size_of k)))

module _ (buf : Slice) (idx : ℕ) (w : IsSlice buf) (p : 0 < buf.len) where
  field-Reads : (k : Kind) → IsPlain k → idx + size_of k ≤ buf.len → Reads k buf idx
  unfolding unmarshal_field size_of
  field-Reads Kind.uint8 h l =
      (number (uint_at 1 buf idx), rw (read_uint-eq 1 buf idx (omega arith)))
  field-Reads Kind.uint16 h l =
      (number (uint_at 2 buf idx), rw (read_uint-eq 2 buf idx (omega arith)))
  field-Reads Kind.uint32 h l =
      (number (uint_at 4 buf idx), rw (read_uint-eq 4 buf idx (omega arith)))
  field-Reads Kind.int64 h l =
      (number (uint_at 8 buf idx), rw (read_uint-eq 8 buf idx (omega arith)))
  field-Reads Kind.uint64 h l =
      (number (uint_at 8 buf idx), rw (read_uint-eq 8 buf idx (omega arith)))
  field-Reads Kind.par_ref h l = (
    number (little_endian (take 6 (drop idx buf.cells) ++ 0 ∷ 0 ∷ [])),
    rw (slice-add buf idx 6 (omega arith)),
  )
  field-Reads Kind.windows_time h l =
      let tail : Slice = record { cells = drop idx buf.cells; len = 8 } in
      (
        number (uint_at 8 tail 0),
        rw (
          slice-add buf idx 8 (omega arith),
          read_uint-eq 8 tail 0 (omega (arith, length-drop idx buf.cells)),
        ),
      )
  field-Reads Kind.boolean h l = (number 0, refl)
  field-Reads Kind.time_spec h l =
      let tail : Slice = record { cells = drop idx buf.cells; len = 12 } in
      (
        time (uint_at 8 tail 0) 0,
        rw (
          slice-add buf idx 12 (omega arith),
          read_uint-eq 8 tail 0 (omega (arith, length-drop idx buf.cells)),
        ),
      )
  field-Reads Kind.unhandled h l = (untouched, rw (add-zero idx))
  field-Reads (Kind.array n) h l = (
    raw (filled n (take n (drop idx buf.cells))),
    ground (arith, slice-add buf idx n (omega arith)),
  )
  field-Reads Kind.child_vcn h l = absurd h

pub unmarshal_from_total :
    (ks : List Kind) (buf : Slice) (idx : ℕ)
    → IsPlainAll ks
    → IsSlice buf
    → 0 < buf.len
    → idx + size_all ks ≤ buf.len
    → (vs : List Value) × (unmarshal_from ks buf idx
        ≡ ok (record { values = vs; idx = idx + size_all ks; is_complete = true }))
      × (length vs ≡ length ks)
unfolding unmarshal_from size_all
unmarshal_from_total [] buf idx h w p l = ([], rw (add-zero idx), refl)
unmarshal_from_total (k ∷ ks) buf idx (h, hs) w p l =
    let (v, e) = field-Reads buf idx w p k h (omega arith) in
    let (vs, es, len) = unmarshal_from_total ks buf (idx + size_of k) hs w p (omega arith) in
    (v ∷ vs, rw (e, es, add_assoc idx (size_of k) (size_all ks)), ap ℕ.suc len)

-- On a buffer at least as long as the layout Unmarshal returns, with no error, one value for each
-- field, and as index the size of the layout.
pub unmarshal_total :
    (ks : List Kind) (buf : Slice)
    → IsPlainAll ks
    → IsSlice buf
    → 0 < buf.len
    → size_all ks ≤ buf.len
    → (vs : List Value) × (unmarshal ks buf
        ≡ ok (record { values = vs; idx = size_all ks; is_complete = true }))
      × (length vs ≡ length ks)
unfolding unmarshal
unmarshal_total ks buf h w p l =
    rw (zero-add (size_all ks)) at
      (unmarshal_from_total ks buf 0 h w p (rw (zero-add (size_all ks)) l))
