-- ===== src/Utils/Endian/Laws.antt =====
-- ReadEndianUInt and ReadEndianInt against plain little-endian reading.
use mftextractor.Base.{
  ℕ, zero, suc, ◌+◌, ◌*◌, ◌/◌, ◌^◌, ◌≤◌, ◌<◌, bit_and, ◌≡◌, refl, ◌∙◌, ap, Bool, true, ◌&&◌, List,
  [], ◌∷◌, ◌==◌, ==_iff, length, All, arith,
}
use mftextractor.Base.Int.{of_pattern}
use mftextractor.Utils.Endian.{
  IsByte, little_endian, read_endian_uint_from, read_endian_uint, read_endian_int,
}
use native.Mathlib.Nat.{mod-eq_of_lt, pow-suc, pow-le-pow_right}
use native.Mathlib.Numerals.{towards_suc}

-- A test at each number under a bound, which evaluation decides.
unfoldable pub holds_under : (ℕ → Bool) → ℕ → Bool
holds_under test zero = true
holds_under test (suc bound) = holds_under test bound && test bound

pub at_each :
    (test : ℕ → Bool) (bound k : ℕ) → k < bound → holds_under test bound ≡ true → test k ≡ true
unfolding holds_under
at_each test zero k l e = absurd (omega arith)
at_each test (suc bound) k l e = ground (arith, at_each test bound k)

pub top_bit : (b : ℕ) → b < 256 → bit_and b 0x80 ≡ b / 128 * 128
unfolding holds_under
top_bit b h = (==_iff _ _).0 (at_each (λ x. bit_and x 0x80 == x / 128 * 128) 256 b h refl)

pub little_endian-lt : (bs : List ℕ) → All IsByte bs → little_endian bs < 256 ^ length bs
unfolding little_endian
little_endian-lt [] h = omega arith
little_endian-lt (b ∷ bs) (hb, hs) = omega (arith, little_endian-lt bs hs, pow-suc 256 (length bs))

shift_eight : (s : ℕ) → 2 ^ (s + 8) ≡ 256 * 2 ^ s
shift_eight s = simp towards_suc (omega arith)

shift_step : (i : ℕ) → 2 ^ (suc i * 8) ≡ 256 * 2 ^ (i * 8)
shift_step i = ap (λ (t : ℕ). 2 ^ t) (omega arith) ∙ shift_eight (i * 8)

read_endian_uint_from-eq :
    (bs : List ℕ) (index sum : ℕ)
    → sum + little_endian bs * 2 ^ (index * 8) < 2 ^ 64
    → read_endian_uint_from index sum bs ≡ sum + little_endian bs * 2 ^ (index * 8)
unfolding read_endian_uint_from little_endian
read_endian_uint_from-eq [] index sum h = omega arith
read_endian_uint_from-eq (b ∷ bs) index sum h =
    let step = shift_step index in
    let high = ap (λ (t : ℕ). little_endian bs * t) step in
    let low : b * 2 ^ (index * 8) < 2 ^ 64 = omega (arith, high) in
    let here : sum + b * 2 ^ (index * 8) < 2 ^ 64 = omega (arith, high) in
    rw (mod-eq_of_lt low, mod-eq_of_lt here)
      (read_endian_uint_from-eq bs (suc index) (sum + b * 2 ^ (index * 8)) (omega (arith, high))
        ∙ omega (arith, high))

pow-le_eight : (n : ℕ) → n ≤ 8 → 256 ^ n ≤ 2 ^ 64
pow-le_eight n h = pow-le-pow_right (omega arith) h

-- On at most eight bytes ReadEndianUInt is little-endian reading, with no overflow.
pub read_endian_uint-little_endian :
    (bs : List ℕ) → All IsByte bs → length bs ≤ 8 → read_endian_uint bs ≡ little_endian bs
unfolding read_endian_uint
read_endian_uint-little_endian bs h l =
    read_endian_uint_from-eq bs 0 0
      (omega (arith, little_endian-lt bs h, pow-le_eight (length bs) l))
    ∙ omega arith

-- On one to four bytes ReadEndianInt reads the two's complement integer of that width.
pub read_endian_int-of_pattern :
    (bs : List ℕ)
    → All IsByte bs
    → 1 ≤ length bs
    → length bs ≤ 4
    → read_endian_int bs ≡ of_pattern (256 ^ length bs) (little_endian bs)
unfolding read_endian_int
read_endian_int-of_pattern [] h l u = absurd (omega arith)
read_endian_int-of_pattern (a ∷ []) h l u = ground (arith, top_bit a)
read_endian_int-of_pattern (a ∷ b ∷ []) h l u = ground (arith, top_bit b)
read_endian_int-of_pattern (a ∷ b ∷ c ∷ []) h l u = ground (arith, top_bit c)
read_endian_int-of_pattern (a ∷ b ∷ c ∷ d ∷ []) h l u = ground (arith, top_bit d)
read_endian_int-of_pattern (a ∷ b ∷ c ∷ d ∷ e ∷ bs) h l u = absurd (omega arith)
