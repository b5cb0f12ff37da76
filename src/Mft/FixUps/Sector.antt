-- ===== src/Mft/FixUps/Sector.antt =====
-- The repair of a record touches the end of its first sector only.
use mftextractor.Base.{
  ℕ, ◌≡◌, ◌≢◌, ◌⊎◌, refl, ◌∙◌, inl, inr, ◌==◌, ltb, if◌then◌else◌, length, get_elem?, set,
  get_elem?-set_ne, length-set, arith,
}
use mftextractor.Go.Outcome.{ok, or_panic, Returns, >>=-Returns, if-Returns, Returns-ok}
use mftextractor.Go.Slice.{Slice, index, store}
use mftextractor.Mft.Record.{FixUp}
use mftextractor.Mft.FixUps.{fix_first_sector, byte_at, is_at}

-- The bytes outside 510 and 511, the length and the capacity are those of the slice before.
abbrev pub SameOutside : Slice → Slice → Type 0
SameOutside bs bs' =
    ((k : ℕ) → k ≢ 510 → k ≢ 511 → get_elem? bs'.cells k ≡ get_elem? bs.cells k)
    × (bs'.len ≡ bs.len)
    × (length bs'.cells ≡ length bs.cells)

-- A store at one of the two places.
stored :
    (bs s : Slice) (i v : ℕ)
    → (i ≡ 510) ⊎ (i ≡ 511)
    → SameOutside bs s
    → Returns (SameOutside bs) (store s i v)
stored bs s i v at (h, l, c) =
    if-Returns (SameOutside bs) (ltb i s.len) _ _ (λ _. (keep, l, length-set s.cells i v ∙ c))
      (λ _. tt)
  where
    keep : (k : ℕ) → k ≢ 510 → k ≢ 511 → get_elem? (set s.cells i v) k ≡ get_elem? bs.cells k
    keep k n m =
        get_elem?-set_ne s.cells i k v
          (λ e. elim at [ inl f ↦ n (omega arith) | inr g ↦ m (omega arith) ])
        ∙ h k n m

-- The check at the end of the first sector leaves every byte other than the bytes 510 and 511 as it
-- was, those at the end of the second sector included, and keeps the length of the buffer.
pub fix_first_sector-SameOutside :
    (fix : FixUp) (bs bs' : Slice) → fix_first_sector fix bs ≡ ok bs' → SameOutside bs bs'
unfolding fix_first_sector
fix_first_sector-SameOutside fix bs bs' e = Returns-ok P (fix_first_sector fix bs) bs' whole e
  where
    P : Slice → Type 0
    P = SameOutside bs

    same : P bs
    same = (λ k n m. refl, refl, refl)

    whole : Returns P (fix_first_sector fix bs)
    whole = >>=-Returns P (byte_at fix.signature 0) _ λ s0 _. >>=-Returns P (index bs 510) _ λ b0 _.
        if-Returns P (s0 == b0) _ _
          (λ _. >>=-Returns P (byte_at fix.signature 1) _ λ s1 _.
            >>=-Returns P (index bs 511) _ λ b1 _.
              if-Returns P (s1 == b1) _ _
                (λ _. >>=-Returns P (or_panic (get_elem? fix.original_values 0)) _ λ first _.
                  >>=-Returns P (byte_at first 0) _ λ v0 _.
                    >>=-Returns P (store bs 510 v0) _ λ mid stored_first.
                      >>=-Returns P (if is_at 507 fix.place then ok v0 else byte_at first 1) _
                        λ v1 _.
                          stored bs mid 511 v1 (inr refl)
                            (Returns-ok P _ mid (stored bs bs 510 v0 (inl refl) same) stored_first))
                (λ _. same))
          (λ _. same)
