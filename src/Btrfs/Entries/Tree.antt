-- ===== src/Btrfs/Entries/Tree.antt =====
-- BuildPath with its calls on the children, on entries that form trees.
use mftextractor.Base.{ℕ, suc, ◌+◌, ◌<◌, ◌≤◌, ◌≡◌, some, List, get_elem?, set, All}
use mftextractor.Go.Text.{GoString}
use mftextractor.Btrfs.Entries.{FileDirEntry}
use mftextractor.Btrfs.Entries.Paths.{IsPathTo}
use mftextractor.Btrfs.Entries.Shape.{SameButPaths, Reached, HasPath, KeptBelow}

-- What calls on the entries `is`, all from `k` on, leave.
record Built (k : ℕ) (is : List ℕ) (es fs : List FileDirEntry) : Type 0 where
  same : SameButPaths es fs
  kept : KeptBelow k es fs
  keeps : (j : ℕ) → HasPath es j → HasPath fs j
  reaches : (j : ℕ) → Reached es is j → HasPath fs j

-- The entries on which calls are made, with fuel for the depth below them.
abbrev Callable : ℕ → ℕ → ℕ → List ℕ → Type 0
Callable n fuel k is = All (λ i. (k ≤ i) × (i < n) × (n ≤ i + fuel)) is

-- The call on one entry, with those on its children, and then the calls on the others.
module _ (k i : ℕ) (is : List ℕ) (es : List FileDirEntry) (e : FileDirEntry) (path : GoString)
    (h : get_elem? es i ≡ some e) (t : IsPathTo es e.parent e.path path) (fs gs : List FileDirEntry)
    (low : k ≤ i) (b : Built (suc i) e.children (set es i (record e { path = path })) fs)
    (c : Built k is fs gs) where
  abbrev es' : List FileDirEntry
  es' = set es i (record e { path = path })
