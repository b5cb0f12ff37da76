-- ===== src/Go/Slice.antt =====
-- A Go byte slice: the cells from its start to the end of the backing array, and its length. The
-- capacity is the number of the cells; `s[lo:hi]` is checked against the capacity, not the length.
use mftextractor.Base.{
  ℕ, ◌+◌, ◌-◌, ◌≤◌, ◌<◌, ◌≡◌, ap, List, ◌∷◌, lt→ltb, get_or-drop, ltb, leb, if◌then◌else◌, length,
  get_or, set, take, drop, arith,
}
use mftextractor.Go.Outcome.{Outcome, ok, panic}

pub record Slice : Type 0 where
  pub cells : List ℕ
  pub len : ℕ

-- Every slice of a Go program is of this form.
abbrev pub IsSlice : Slice → Type 0
IsSlice s = s.len ≤ length s.cells

abbrev pub of_bytes : List ℕ → Slice
of_bytes bs = record { cells = bs; len = length bs }

-- What `range s` and `string(s)` see.
abbrev pub bytes : Slice → List ℕ
bytes s = take s.len s.cells

-- s[lo:hi]
abbrev pub slice : Slice → ℕ → ℕ → Outcome Slice
slice s lo hi =
    if leb lo hi
    then (if leb hi (length s.cells)
        then ok (record { cells = drop lo s.cells; len = hi - lo })
        else panic)
    else panic

-- s[lo:]
abbrev pub slice_from : Slice → ℕ → Outcome Slice
slice_from s lo =
    if leb lo s.len then ok (record { cells = drop lo s.cells; len = s.len - lo }) else panic

-- s[i]
abbrev pub index : Slice → ℕ → Outcome ℕ
index s i = if ltb i s.len then ok (get_or s.cells i 0) else panic

-- s[i] = b
abbrev pub store : Slice → ℕ → ℕ → Outcome Slice
store s i b = if ltb i s.len then ok (record s { cells = set s.cells i b }) else panic

pub slice-eq :
    (s : Slice) (lo hi : ℕ)
    → lo ≤ hi
    → hi ≤ length s.cells
    → slice s lo hi ≡ ok (record { cells = drop lo s.cells; len = hi - lo })
slice-eq s lo hi h k = ground arith

-- s[lo:lo+n], where the capacity allows it.
pub slice-add :
    (s : Slice) (lo n : ℕ)
    → lo + n ≤ length s.cells
    → slice s lo (lo + n) ≡ ok (record { cells = drop lo s.cells; len = n })
slice-add s lo n h = ground arith

-- The byte at the front of what is left from i on.
pub index-eq :
    (s : Slice) (i b : ℕ) (rest : List ℕ) → drop i s.cells ≡ b ∷ rest → i < s.len → index s i ≡ ok b
index-eq s i b rest d h = rw (lt→ltb i s.len h) (ap ok (get_or-drop s.cells i 0 d))
