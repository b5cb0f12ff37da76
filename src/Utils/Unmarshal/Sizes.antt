-- ===== src/Utils/Unmarshal/Sizes.antt =====
-- The index that Unmarshal returns, on any buffer, for a struct with no array.
use mftextractor.Base.{ℕ, ◌+◌, ◌≡◌, refl, sym, false, Option, none, some, List, [], ◌∷◌, arith}
use mftextractor.Go.Outcome.{ok, ◌>>=◌, Returns, >>=-Returns, Returns-ok}
use mftextractor.Go.Slice.{Slice, slice}
use mftextractor.Utils.Unmarshal.{
  Kind, Value, Unmarshalled, read_uint, read_par_ref, read_time_spec, read_windows_time,
  unmarshal_field, unmarshal_from, unmarshal, size_of, size_all,
}
use native.Mathlib.Nat.{add-zero, zero-add}

abbrev pub IsScalar : Kind → Type 0
IsScalar (Kind.array n) = ⊥
IsScalar _ = Unit {0}

abbrev pub IsScalarAll : List Kind → Type 0
IsScalarAll [] = Unit {0}
IsScalarAll (k ∷ ks) = IsScalar k × IsScalarAll ks

-- A field that is set, with `n` as the next index.
abbrev GoesTo : ℕ → Option (Value × ℕ) → Type 0
GoesTo n none = ⊥
GoesTo n (some (v, i)) = i ≡ n

module _ (buf : Slice) (idx : ℕ) where
  field-GoesTo :
      (k : Kind) → IsScalar k → Returns (GoesTo (idx + size_of k)) (unmarshal_field k buf idx)
  unfolding unmarshal_field size_of read_par_ref read_time_spec read_windows_time
  field-GoesTo Kind.uint8 h = >>=-Returns (GoesTo (idx + 1)) (read_uint 1 buf idx) _ λ v _. refl
  field-GoesTo Kind.uint16 h = >>=-Returns (GoesTo (idx + 2)) (read_uint 2 buf idx) _ λ v _. refl
  field-GoesTo Kind.uint32 h = >>=-Returns (GoesTo (idx + 4)) (read_uint 4 buf idx) _ λ v _. refl
  field-GoesTo Kind.int64 h = >>=-Returns (GoesTo (idx + 8)) (read_uint 8 buf idx) _ λ v _. refl
  field-GoesTo Kind.uint64 h = >>=-Returns (GoesTo (idx + 8)) (read_uint 8 buf idx) _ λ v _. refl
  field-GoesTo Kind.par_ref h =
      >>=-Returns (GoesTo (idx + 6)) (slice buf idx (idx + 6)) _ λ s _. refl
  field-GoesTo Kind.time_spec h =
      >>=-Returns (GoesTo (idx + 12)) (slice buf idx (idx + 12)) _
        λ s _. >>=-Returns (GoesTo (idx + 12)) (read_uint 8 s 0) _ λ v _. refl
  field-GoesTo Kind.windows_time h =
      >>=-Returns (GoesTo (idx + 8)) (slice buf idx (idx + 8)) _
        λ s _. >>=-Returns (GoesTo (idx + 8)) (read_uint 8 s 0) _ λ v _. refl
  field-GoesTo Kind.boolean h = refl
  field-GoesTo Kind.unhandled h = sym (add-zero idx)
  field-GoesTo Kind.child_vcn h = tt
  field-GoesTo (Kind.array n) h = absurd h

abbrev EndsAt : ℕ → Unmarshalled → Type 0
EndsAt n u = u.idx ≡ n

unmarshal_from-EndsAt :
    (ks : List Kind) (buf : Slice) (idx : ℕ)
    → IsScalarAll ks
    → Returns (EndsAt (idx + size_all ks)) (unmarshal_from ks buf idx)
unfolding unmarshal_from size_all
unmarshal_from-EndsAt [] buf idx h = sym (add-zero idx)
unmarshal_from-EndsAt (k ∷ ks) buf idx (h, hs) =
    >>=-Returns (EndsAt (idx + (size_of k + size_all ks))) (unmarshal_field k buf idx) _ λ o e.
      after o
        (Returns-ok (GoesTo (idx + size_of k)) (unmarshal_field k buf idx) o
          (field-GoesTo buf idx k h) e)
        (λ i. unmarshal_from-EndsAt ks buf i hs)
  where
    after :
        (o : Option (Value × ℕ))
        → GoesTo (idx + size_of k) o
        → ((i : ℕ) → Returns (EndsAt (i + size_all ks)) (unmarshal_from ks buf i))
        → Returns {A = Unmarshalled} (EndsAt (idx + (size_of k + size_all ks))) (elim o [
          | none ↦ ok (record { values = []; idx = idx; is_complete = false })
          | some (v, i) ↦ (do u ← unmarshal_from ks buf i; ok (record u { values = v ∷ u.values }))
        ])
    after none g later = absurd g
    after (some (v, i)) g later =
        >>=-Returns (EndsAt (idx + (size_of k + size_all ks))) (unmarshal_from ks buf i) _ λ u e.
          omega (
            arith,
            g,
            Returns-ok (EndsAt (i + size_all ks)) (unmarshal_from ks buf i) u (later i) e,
          )

-- Whatever the buffer holds, the offset that Unmarshal returns for a struct with no array is the sum
-- of its steps, if it returns; a field with no case is a step of zero.
pub unmarshal-EndsAt :
    (ks : List Kind) (buf : Slice)
    → IsScalarAll ks
    → Returns (λ u. u.idx ≡ size_all ks) (unmarshal ks buf)
unfolding unmarshal
unmarshal-EndsAt ks buf h = rw (zero-add (size_all ks)) at (unmarshal_from-EndsAt ks buf 0 h)
