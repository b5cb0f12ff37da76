-- ===== src/Utils/Bytes.antt =====
-- utils/utils.go: reversal, hexadecimal text, names in UTF-16, and the generic filter.
pub mod Reversal
use mftextractor.Base.{
  ℕ, zero, suc, ◌+◌, ◌-◌, ◌*◌, ◌/◌, ◌%◌, Bool, not, List, [], ◌∷◌, ◌++◌, ltb, ◌==◌, if◌then◌else◌,
  length, get_or, set,
}
use mftextractor.Go.Outcome.{Outcome, ok, ◌>>=◌}
use mftextractor.Go.Slice.{Slice, bytes, slice, slice_from, of_bytes}
use mftextractor.Go.Text.{GoString, codes, hex_string, utf16_string}

-- barray[i], barray[j] = barray[j], barray[i]
abbrev pub swap : List ℕ → ℕ → ℕ → List ℕ
swap bs i j = set (set bs i (get_or bs j 0)) j (get_or bs i 0)

-- The loop of Bytereverse; half of the length is fuel enough.
unfoldable pub bytereverse_from : ℕ → ℕ → ℕ → List ℕ → List ℕ
bytereverse_from zero i j bs = bs
bytereverse_from (suc fuel) i j bs =
    let rest = bytereverse_from fuel (i + 1) (j - 1) (swap bs i j) in if ltb i j then rest else bs

-- Bytereverse. On an empty slice j is -1 in the source and 0 here, and the loop has no round.
unfoldable pub bytereverse : List ℕ → List ℕ
unfolding bytereverse_from
bytereverse bs = bytereverse_from (length bs) 0 (length bs - 1) bs

-- Hexify
unfoldable pub hexify : List ℕ → GoString
unfolding hex_string
hexify = hex_string

-- StringifyGUID: the first three groups are reversed, the last two are not.
unfoldable pub stringify_guid : List ℕ → Outcome GoString
unfolding hexify bytereverse
stringify_guid barray = do
  let s = of_bytes barray
  a ← slice s 0 4
  b ← slice s 4 6
  c ← slice s 6 8
  d ← slice s 8 10
  e ← slice_from s 10
  ok (
      hexify (bytereverse (bytes a))
      ++ (codes "-"
          ++ (hexify (bytereverse (bytes b))
              ++ (codes "-"
                  ++ (hexify (bytereverse (bytes c))
                      ++ (codes "-" ++ (hexify (bytes d) ++ (codes "-" ++ hexify (bytes e)))))))))

-- RemoveNulls
unfoldable pub remove_nulls : List ℕ → GoString
remove_nulls [] = []
remove_nulls (v ∷ vs) = let rest = remove_nulls vs in if v == 0 then rest else v ∷ rest

-- The code units of DecodeUTF16: pairs of bytes, and U+FFFD for a last byte with no partner.
unfoldable pub utf16_units : List ℕ → List ℕ
utf16_units [] = []
utf16_units (b ∷ []) = 0xfffd ∷ []
utf16_units (b ∷ c ∷ bs) = (b + 256 * c) ∷ utf16_units bs

-- DecodeUTF16
unfoldable pub decode_utf16 : List ℕ → GoString
unfolding utf16_units utf16_string
decode_utf16 bs = utf16_string (utf16_units bs)

-- Filter
unfoldable pub filter {ℓ} : {A : Type ℓ} → List A → (A → Bool) → List A
filter [] f = []
filter (v ∷ vs) f = let rest = filter vs f in if f v then v ∷ rest else rest
