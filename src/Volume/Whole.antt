-- ===== src/Volume/Whole.antt =====
-- With no restriction ProcessMFT selects the whole area.
use mftextractor.Base.{
  ℕ, zero, suc, ◌+◌, ◌-◌, ◌*◌, ◌/◌, ◌%◌, ◌≤◌, ◌<◌, ◌≡◌, refl, sym, ap, ◌∙◌, List, [], ◌∷◌, ◌++◌,
  ltb, lt→ltb, ◌==◌, length, length-append, take, drop, drop-add, length-take, length-drop, arith,
}
use mftextractor.Base.Int.{pos, ltb_ℤ}
use mftextractor.Go.Outcome.{ok, ◌>>=◌, >>=-ok, if-true, if-false}
use mftextractor.Go.Slice.{Slice, IsSlice, bytes, slice, slice-eq}
use mftextractor.Mft.Table.{record_size}
use mftextractor.Volume.{no_first, no_last, is_in_range, write_selected, select_from, select_mft}
use mathlib.Core.List.{append_assoc, append-nil}
use native.Mathlib.Nat.{zero-add, suc-add}

take-nil : {A : Type 0} (n : ℕ) → ◌≡◌ {A = List A} (take n []) []
take-nil zero = refl
take-nil (suc n) = refl

take-add : {A : Type 0} (a b : ℕ) (xs : List A) → take (a + b) xs ≡ take a xs ++ take b (drop a xs)
take-add zero b xs = rw (zero-add b) refl
take-add (suc a) b [] = rw (suc-add a b) (sym (take-nil b))
take-add (suc a) b (x ∷ xs) = rw (suc-add a b) (ap (λ t. x ∷ t) (take-add a b xs))

-- The record at a byte.
abbrev part_at : Slice → ℕ → Slice
part_at s i = record { cells = drop i s.cells; len = i + record_size - i }

select_from_all :
    (left fuel : ℕ) (s : Slice) (i : ℕ) (buf : List ℕ)
    → i + left * record_size ≡ s.len
    → IsSlice s
    → s.len / record_size ≤ 4294967296
    → left < fuel
    → select_from fuel s [] no_first no_last i buf
      ≡ ok (buf ++ take (left * record_size) (drop i s.cells))
unfolding select_from write_selected
select_from_all left zero s i buf e w b f = absurd (omega arith)
select_from_all zero (suc fuel) s i buf e w b f =
    if-false (ltb i s.len) _ _ (ground arith) ∙ ap ok (sym (append-nil buf))
select_from_all (suc left) (suc fuel) s i buf e w b f =
    let whole : i + record_size - i ≡ record_size = omega arith in
    let part = bytes (part_at s i) in
    let long : length part ≡ record_size =
      rw whole (omega (arith, length-take record_size (drop i s.cells), length-drop i s.cells)) in
    if-true (ltb i s.len) _ _ (lt→ltb i s.len (omega arith))
    ∙ if-false (ltb_ℤ no_last (pos (i / record_size))) _ _ (ground arith)
    ∙ if-false (ltb_ℤ (pos (i / record_size)) no_first) _ _ (ground arith)
    ∙ >>=-ok (slice s i (i + record_size) >>= λ p. ok (buf ++ bytes p)) _ (
        >>=-ok (slice s i (i + record_size)) _
          (slice-eq s i (i + record_size) (omega arith) (omega arith)))
    ∙ if-false (length (buf ++ part) == 0) _ _ (ground (arith, length-append buf part, long))
    ∙ select_from_all left fuel s (i + record_size) (buf ++ part) (omega arith) w b (omega arith)
    ∙ ap ok (append_assoc buf part _ ∙ ap (λ t. buf ++ t) (joins whole))
  where
    joins :
        i + record_size - i ≡ record_size
        → bytes (part_at s i) ++ take (left * record_size) (drop (i + record_size) s.cells)
          ≡ take (suc left * record_size) (drop i s.cells)
    joins h =
        rw (h, drop-add i record_size s.cells)
          (sym (take-add record_size (left * record_size) (drop i s.cells))
            ∙ ap (λ n. take n (drop i s.cells)) (omega arith))

-- ProcessMFT with no selected entry, no first and no last one hands all the bytes of the area to
-- ProcessRecords, if they are whole records and at most 2 ^ 32 of them.
pub select_mft_whole :
    (s : Slice)
    → IsSlice s
    → s.len % record_size ≡ 0
    → s.len / record_size ≤ 4294967296
    → select_mft s [] no_first no_last ≡ ok (bytes s)
unfolding select_mft
select_mft_whole s w m b =
    if-true (is_in_range (s.len / record_size) no_first no_last) _ _ (ground arith)
    ∙ select_from_all (s.len / record_size) (suc s.len) s 0 [] (omega arith) w b (omega arith)
    ∙ ap (λ n. ok (take n s.cells)) (omega arith)
