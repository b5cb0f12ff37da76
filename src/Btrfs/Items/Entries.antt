-- ===== src/Btrfs/Items/Entries.antt =====
-- The names of directory entries.
use mftextractor.Base.{
  ℕ, suc, ◌+◌, ◌≡◌, refl, ap, ◌∙◌, List, [], ◌∷◌, ◌++◌, ltb, lt→ltb, length, false, length-append,
  drop-append, take-append, arith,
}
use mftextractor.Go.Outcome.{ok}
use mftextractor.Go.Slice.{Slice, of_bytes, slice, slice-add}
use mftextractor.Go.Text.{GoString}
use mftextractor.Utils.Unmarshal.{Value, size_all}
use mftextractor.Utils.Unmarshal.RoundTrip.{encode_all, FitsAll, length-encode_all}
use mftextractor.Btrfs.{parse_struct}
use mftextractor.Btrfs.Items.Layout.{parse_struct-encode_all}
use mftextractor.Btrfs.Items.Names.{dir_index_fields, dir_index_of, parse_dir_index}
use native.Mathlib.Nat.{add-zero}

-- The slice of the name behind the fixed part.
slice-name :
    (front name rest : List ℕ)
    → slice (of_bytes (front ++ (name ++ rest))) (length front) (length front + length name)
      ≡ ok (record { cells = name ++ rest; len = length name })
slice-name front name rest =
    slice-add (of_bytes (front ++ (name ++ rest))) (length front) (length name)
      (omega (arith, length-append front (name ++ rest), length-append name rest))
    ∙ ap (λ cs. ok (record { cells = cs; len = length name })) (drop-append front (name ++ rest))

-- What DirIndex.Parse takes for the name.
abbrev pub kept_name : GoString → List ℕ → GoString
kept_name name [] = []
kept_name name (b ∷ rest) = name

index-size : size_all dir_index_fields ≡ 13
unfolding size_all
index-size = refl

ltb_irrefl : (n : ℕ) → ltb n n ≡ false
ltb_irrefl n = ground arith

-- The fixed part of a directory entry.
pub front : List Value → List ℕ
front vs = encode_all dir_index_fields vs

module _ (vs : List Value) (name : List ℕ) (f : FitsAll dir_index_fields vs) where
  length-front : length (front vs) ≡ 13
  unfolding front
  length-front = length-encode_all dir_index_fields vs f ∙ index-size

  length-whole :
      (rest : List ℕ) → length (front vs ++ (name ++ rest)) ≡ 13 + length name + length rest
  length-whole rest =
      omega (arith, length-front, length-append (front vs) (name ++ rest), length-append name rest)

  parse_struct-front :
      (rest : List ℕ)
      → parse_struct dir_index_fields dir_index_of (of_bytes (front vs ++ rest))
        ≡ ok (dir_index_of vs, 13)
  unfolding front
  parse_struct-front rest =
      let long = length-append (front vs) rest in
      rw index-size at (
        parse_struct-encode_all dir_index_fields vs dir_index_of (of_bytes (front vs ++ rest)) rest
          f refl (omega (arith, long, length-front, index-size)) (omega arith)
          (omega (arith, long, length-front)))

  -- Of a directory entry DirIndex.Parse reads back the name if more bytes follow it; if the name is
  -- the end of the data, as it is in a leaf, the entry is left with the empty name. It returns the
  -- end of the name in either case.
  pub parse_dir_index-name :
      (dir_index_of vs).name_len ≡ length name
      → (rest : List ℕ)
      → parse_dir_index (of_bytes (front vs ++ (name ++ rest)))
        ≡ ok (record (dir_index_of vs) { name = kept_name name rest }, 13 + length name)
  unfolding parse_dir_index
  parse_dir_index-name n [] = rw (
    parse_struct-front (name ++ []),
    n,
    length-whole [],
    add-zero (13 + length name),
    ltb_irrefl (13 + length name),
  )
  parse_dir_index-name n (b ∷ rest) =
      let part : Slice = record { cells = name ++ (b ∷ rest); len = length name } in
      let read : slice (of_bytes (front vs ++ (name ++ (b ∷ rest)))) 13 (13 + length name)
          ≡ ok part =
        rw length-front at (slice-name (front vs) name (b ∷ rest)) in
      rw (
        parse_struct-front (name ++ (b ∷ rest)),
        n,
        read,
        length-whole (b ∷ rest),
        lt→ltb (13 + length name) (13 + length name + suc (length rest)) (omega arith),
        take-append name (b ∷ rest),
      )
