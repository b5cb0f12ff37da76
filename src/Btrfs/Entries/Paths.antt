-- ===== src/Btrfs/Entries/Paths.antt =====
-- The path that BuildPath gives to an entry, by the pointers to the parents.
use mftextractor.Base.{
  ℕ, zero, suc, ◌<◌, ◌≡◌, refl, Option, none, some, List, [], ◌∷◌, length, arith, get_elem?, set,
}
use mftextractor.Go.Outcome.{ok}
use mftextractor.Go.Text.{GoString}
use mftextractor.Btrfs.Entries.{FileDirEntry, names_above, append_name, append_names, set_path}

-- The path from the root to a parent: to that of the parent's own parent its name is added, which
-- leaves no mark if it is empty.
pub data IsPathTo (entries : List FileDirEntry) : Option ℕ → GoString → GoString → Type 0 where
  root : (start : GoString) → IsPathTo entries none start start
  below :
      {p : ℕ} {e : FileDirEntry} {start path : GoString}
      → get_elem? entries p ≡ some e
      → IsPathTo entries e.parent start path
      → IsPathTo entries (some p) start (append_name path e.name)

-- A parent that stands in front of the entry i.
abbrev pub Precedes : ℕ → Option ℕ → Type 0
Precedes i none = Unit
Precedes i (some p) = p < i

-- Parents stand in the list in front of their children, so that no entry is above itself.
abbrev pub ParentsFirst : List FileDirEntry → Type 0
ParentsFirst entries =
    (i : ℕ) (e : FileDirEntry) → get_elem? entries i ≡ some e → Precedes i e.parent

pub elem_at {ℓ} :
    {A : Type ℓ} (xs : List A) (i : ℕ) → i < length xs → (a : A) × (get_elem? xs i ≡ some a)
elem_at [] i h = absurd (omega arith)
elem_at (x ∷ xs) zero h = (x, refl)
elem_at (x ∷ xs) (suc i) h = elem_at xs i (omega arith)

pub elem-length {ℓ} :
    {A : Type ℓ} (xs : List A) (i : ℕ) (a : A) → get_elem? xs i ≡ some a → i < length xs
elem-length [] i a h = absurd cc
elem-length (x ∷ xs) zero a h = omega arith
elem-length (x ∷ xs) (suc i) a h = omega (arith, elem-length xs i a h)

-- The steps that the way up from a parent takes.
abbrev Within : ℕ → List FileDirEntry → Option ℕ → Type 0
Within fuel entries none = 0 < fuel
Within fuel entries (some p) = (suc p < fuel) × (p < length entries)

module _ (entries : List FileDirEntry) (first : ParentsFirst entries) where
  Within-parent :
      (fuel p : ℕ) (o : Option ℕ)
      → suc p < suc fuel
      → p < length entries
      → Precedes p o
      → Within fuel entries o
  Within-parent fuel p none h l b = omega arith
  Within-parent fuel p (some q) h l b = (omega arith, omega arith)

  names_above-IsPathTo :
      (fuel : ℕ) (parent : Option ℕ) (start : GoString)
      → Within fuel entries parent
      → (names : List GoString) × (names_above fuel entries parent ≡ ok names)
        × IsPathTo entries parent start (append_names start names)
  unfolding names_above append_names
  names_above-IsPathTo zero none start w = absurd (omega (arith, w))
  names_above-IsPathTo zero (some p) start (w, l) = absurd (omega (arith, w))
  names_above-IsPathTo (suc fuel) none start w = ([], refl, root start)
  names_above-IsPathTo (suc fuel) (some p) start (w, l) =
      let (e, at) = elem_at entries p l in
      let (names, up, path) =
        names_above-IsPathTo fuel e.parent start
          (Within-parent fuel p e.parent w l (first p e at)) in
      (e.name ∷ names, rw (at, up), below at path)

  -- What BuildPath does before it goes to the children: it stores in the entry its own path with the
  -- names of its ancestors behind it, from the root down to the parent, each after a backslash, the
  -- empty names left out.
  pub set_path-IsPathTo :
      (i : ℕ) (e : FileDirEntry)
      → get_elem? entries i ≡ some e
      → (path : GoString) × (set_path entries i ≡ ok (set entries i (record e { path = path })))
        × IsPathTo entries e.parent e.path path
  unfolding set_path
  set_path-IsPathTo i e at =
      let l = elem-length entries i e at in
      let w : Within (suc (suc (length entries))) entries e.parent =
        Within-parent (suc (suc (length entries))) i e.parent (omega arith) l (first i e at) in
      let (names, up, path) = names_above-IsPathTo (suc (suc (length entries))) e.parent e.path w in
      (append_names e.path names, rw (at, up), path)
