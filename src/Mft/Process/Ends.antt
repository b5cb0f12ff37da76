-- ===== src/Mft/Process/Ends.antt =====
-- When the loop over the attributes of a record ends.
use mftextractor.Base.{
  ℕ, zero, suc, ◌+◌, ◌%◌, ◌^◌, ◌≤◌, ◌<◌, ◌≡◌, ◌≢◌, refl, sym, subst, ◌∙◌, ◌⊎◌, inl, inr, none, some,
  ltb, leb, leb→le, ltb→lt, lt→ltb, Bool-cases, arith,
}
use mftextractor.Go.Outcome.{Outcome, ok, panic, stuck, ◌>>=◌, >>=-ok, if-true, if-false}
use mftextractor.Go.Slice.{Slice}
use mftextractor.Attributes.Header.{AttributeHeader}
use mftextractor.Mft.Round.{Collected}
use mftextractor.Mft.Process.{read_header, attribute_round, attributes_from}

-- Why a run over the attributes from `ptr` on does not end: at a place that it reaches stands an
-- attribute whose length, added in uint16, leads to the same place or back; or the header or
-- the content of the attribute there is itself decoded by a loop that does not end.
pub data Hangs (bs : Slice) : ℕ → Collected → Type 0 where
  in_header : (ptr : ℕ) (c : Collected) → ptr < 1024 → read_header bs ptr ≡ stuck → Hangs bs ptr c
  in_content :
      (ptr : ℕ) (c : Collected) (h : AttributeHeader)
      → ptr < 1024
      → read_header bs ptr ≡ ok (some h)
      → attribute_round bs ptr h c ≡ stuck
      → Hangs bs ptr c
  no_progress :
      (ptr : ℕ) (c : Collected) (h : AttributeHeader)
      → ptr < 1024
      → read_header bs ptr ≡ ok (some h)
      → (ptr + h.attr_len) % 2 ^ 16 ≤ ptr
      → Hangs bs ptr c
  further :
      (ptr : ℕ) (c c' : Collected) (h : AttributeHeader)
      → ptr < 1024
      → read_header bs ptr ≡ ok (some h)
      → attribute_round bs ptr h c ≡ ok c'
      → Hangs bs ((ptr + h.attr_len) % 2 ^ 16) c'
      → Hangs bs ptr c

stuck-cases {ℓ κ} :
    {A : Type ℓ} {B : Type κ} (m : Outcome A) (f : A → Outcome B)
    → (m >>= f) ≡ stuck
    → (m ≡ stuck) ⊎ ((a : A) × (m ≡ ok a) × (f a ≡ stuck))
stuck-cases (ok a) f e = inr (a, refl, e)
stuck-cases panic f e = cc
stuck-cases stuck f e = inl refl

-- With fuel for every place from `ptr` to 1024 the loop stops, or one of the reasons is there.
pub attributes_from-Hangs :
    (fuel : ℕ) (bs : Slice) (ptr : ℕ) (c : Collected)
    → 0 < fuel
    → 1024 < ptr + fuel
    → attributes_from fuel bs ptr c ≡ stuck
    → Hangs bs ptr c
unfolding attributes_from
attributes_from-Hangs zero bs ptr c p h e = absurd (omega arith)
attributes_from-Hangs (suc fuel) bs ptr c p h e = elim (Bool-cases (ltb ptr 1024)) [
  | inr past ↦ cc (if-false (ltb ptr 1024) _ _ past, e)
  | inl below ↦
      let low = ltb→lt ptr 1024 below in
      elim (stuck-cases (read_header bs ptr) _ (sym (if-true (ltb ptr 1024) _ _ below) ∙ e)) [
        | inl stops ↦ in_header ptr c low stops
        | inr (none, _, ends) ↦ cc
        | inr (some a, r, goes_on) ↦ elim (stuck-cases (attribute_round bs ptr a c) _ goes_on) [
          | inl stops ↦ in_content ptr c a low r stops
          | inr (c', decoded, later) ↦ elim (Bool-cases (leb ((ptr + a.attr_len) % 2 ^ 16) ptr)) [
            | inl back ↦ no_progress ptr c a low r (leb→le _ ptr back)
            | inr on ↦
                let ahead : ptr < (ptr + a.attr_len) % 2 ^ 16 = ground arith in
                further ptr c c' a low r decoded (
                  attributes_from-Hangs fuel bs ((ptr + a.attr_len) % 2 ^ 16) c' (omega arith)
                    (omega arith) later)
          ]
        ]
      ]
]

-- The loop of Record.Process, with the fuel that the model gives it, ends from every place from which
-- it reaches no attribute whose length leads to the same place or back, and none whose header or
-- content is itself decoded without end.
pub attributes_from_ends :
    (bs : Slice) (ptr : ℕ) (c : Collected)
    → ¬ Hangs bs ptr c
    → attributes_from 1025 bs ptr c ≢ stuck
attributes_from_ends bs ptr c n e =
    n (attributes_from-Hangs 1025 bs ptr c (omega arith) (omega arith) e)

-- The run ends at the mark of the end.
pub Hangs-mark :
    (bs : Slice) (ptr : ℕ) (c : Collected) → read_header bs ptr ≡ ok none → ¬ Hangs bs ptr c
Hangs-mark bs ptr c e (in_header _ _ l r) = cc
Hangs-mark bs ptr c e (in_content _ _ h l r s) = cc
Hangs-mark bs ptr c e (no_progress _ _ h l r p) = cc
Hangs-mark bs ptr c e (further _ _ c' h l r d t) = cc

header_unique :
    (bs : Slice) (ptr : ℕ) {g h : AttributeHeader}
    → read_header bs ptr ≡ ok (some g)
    → read_header bs ptr ≡ ok (some h)
    → g ≡ h
header_unique bs ptr e r = cc

-- The run goes on behind an attribute that is decoded and leads forward.
pub Hangs-attribute :
    (bs : Slice) (ptr : ℕ) (g : AttributeHeader) (c : Collected)
    → read_header bs ptr ≡ ok (some g)
    → ptr < (ptr + g.attr_len) % 2 ^ 16
    → attribute_round bs ptr g c ≢ stuck
    → ((d : Collected) → ¬ Hangs bs ((ptr + g.attr_len) % 2 ^ 16) d)
    → ¬ Hangs bs ptr c
Hangs-attribute bs ptr g c e f n k (in_header _ _ l r) = absurd cc
Hangs-attribute bs ptr g c e f n k (in_content _ _ h l r s) = n (rw (header_unique bs ptr e r) s)
Hangs-attribute bs ptr g c e f n k (no_progress _ _ h l r p) =
    let same = header_unique bs ptr e r in
    let f' = subst (λ (a : AttributeHeader). ptr < (ptr + a.attr_len) % 2 ^ 16) same f in
    absurd (omega (arith, f', p))
Hangs-attribute bs ptr g c e f n k (further _ _ c' h l r d t) = k c' (
    subst (λ (a : AttributeHeader). Hangs bs ((ptr + a.attr_len) % 2 ^ 16) c')
      (sym (header_unique bs ptr e r)) t)

-- An attribute whose length is a multiple of 2^16, zero included, is decoded again and again: if the
-- attribute at `ptr` can be decoded whatever was collected before, the loop ends for no fuel.
pub attributes_from-zero_length :
    (fuel : ℕ) (bs : Slice) (ptr : ℕ) (h : AttributeHeader) (c : Collected)
    → ptr < 1024
    → read_header bs ptr ≡ ok (some h)
    → h.attr_len % 2 ^ 16 ≡ 0
    → ((d : Collected) → (d' : Collected) × (attribute_round bs ptr h d ≡ ok d'))
    → attributes_from fuel bs ptr c ≡ stuck
unfolding attributes_from
attributes_from-zero_length zero bs ptr h c l r z d = refl
attributes_from-zero_length (suc fuel) bs ptr h c l r z d =
    let (c', e) = d c in
    let same : (ptr + h.attr_len) % 2 ^ 16 ≡ ptr = omega arith in
    if-true (ltb ptr 1024) _ _ (lt→ltb ptr 1024 l)
    ∙ >>=-ok (read_header bs ptr) _ r
    ∙ >>=-ok (attribute_round bs ptr h c) _ e
    ∙ rw same (attributes_from-zero_length fuel bs ptr h c' l r z d)
