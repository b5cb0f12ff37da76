-- ===== src/Utils/Bytes/Reversal.antt =====
-- Bytereverse turns a slice round in place.
use mftextractor.Base.{
  ℕ, zero, suc, ◌+◌, ◌-◌, ◌<◌, ◌≡◌, ◌∙◌, inl, inr, List, ltb, leb, ◌==◌, if◌then◌else◌, Bool-cases,
  length, get_elem?, get_or, set, length-set, arith, get_elem?-set_self, get_elem?-set_ne,
  get_elem?-get_or, ltb→lt,
}
use mftextractor.Utils.Bytes.{swap, bytereverse_from, bytereverse}

length-swap : (bs : List ℕ) (i j : ℕ) → length (swap bs i j) ≡ length bs
length-swap bs i j = length-set _ j _ ∙ length-set bs i _

get_elem?-swap :
    (bs : List ℕ) (i j k : ℕ)
    → i < j
    → j < length bs
    → get_elem? (swap bs i j) k
      ≡ (if k == i then get_elem? bs j else if k == j then get_elem? bs i else get_elem? bs k)
get_elem?-swap bs i j k h l = ground (
  arith,
  get_elem?-set_self (set bs i (get_or bs j 0)) j (get_or bs i 0),
  get_elem?-set_ne (set bs i (get_or bs j 0)) j k (get_or bs i 0),
  get_elem?-set_self bs i (get_or bs j 0),
  get_elem?-set_ne bs i k (get_or bs j 0),
  get_elem?-get_or bs i 0,
  get_elem?-get_or bs j 0,
  length-set bs i (get_or bs j 0),
)

-- The segment from i to j is turned round, the rest stays.
get_elem?-bytereverse_from :
    (fuel i j : ℕ) (bs : List ℕ) (k : ℕ)
    → j < length bs
    → j < i + fuel
    → get_elem? (bytereverse_from fuel i j bs) k ≡ (
        if leb i k
        then if leb k j then get_elem? bs (i + j - k) else get_elem? bs k
        else get_elem? bs k)
unfolding bytereverse_from
get_elem?-bytereverse_from zero i j bs k l h = ground arith
get_elem?-bytereverse_from (suc fuel) i j bs k l h = elim (Bool-cases (ltb i j)) [
  | inl more ↦ rw more (
      ground (
        arith,
        ltb→lt i j,
        length-swap bs i j,
        get_elem?-bytereverse_from fuel (i + 1) (j - 1) (swap bs i j) k,
        get_elem?-swap bs i j k,
        get_elem?-swap bs i j (i + j - k),
      ))
  | inr done ↦ rw done (ground arith)
]

-- Element k of the result of Bytereverse is element k from the end of the input, for every index in
-- range.
bytereverse-reverse :
    (bs : List ℕ) (k : ℕ)
    → k < length bs
    → get_elem? (bytereverse bs) k ≡ get_elem? bs (length bs - 1 - k)
unfolding bytereverse
bytereverse-reverse bs k h =
    ground (arith, get_elem?-bytereverse_from (length bs) 0 (length bs - 1) bs k)
