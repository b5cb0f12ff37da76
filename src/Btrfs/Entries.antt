-- ===== src/Btrfs/Entries.antt =====
-- FS/BTRFS/filedirentry.go. The entries are a list, and a pointer to an entry is its index there.
pub mod Paths
pub mod Shape
pub mod Tree
use mftextractor.Base.{
  ℕ, zero, suc, Option, none, some, List, [], ◌∷◌, ◌++◌, if◌then◌else◌, get_elem?, length, set,
}
use mftextractor.Base.Int.{ℤ, negsuc}
use mftextractor.Go.Outcome.{Outcome, ok, stuck, or_panic, ◌>>=◌}
use mftextractor.Go.Text.{GoString, codes, empty_string, str_eq}

-- The fields of FileDirEntry that its methods work on.
pub record FileDirEntry : Type 0 where
  pub id : ℤ
  pub name : GoString
  pub children : List ℕ
  pub parent : Option ℕ
  pub path : GoString

-- FileDirEntry.GetParentId; the second result stands for the error.
unfoldable pub get_parent_id : List FileDirEntry → FileDirEntry → Outcome (ℤ × Option GoString)
get_parent_id entries e = elim e.parent [
  | none ↦ ok (negsuc 0, some (codes "no parent found"))
  | some p ↦ (do above ← or_panic (get_elem? entries p); ok (above.id, none))
]

-- The first loop of BuildPath: the names on the way up, from the parent on.
unfoldable pub names_above : ℕ → List FileDirEntry → Option ℕ → Outcome (List GoString)
names_above zero entries parent = stuck
names_above (suc fuel) entries none = ok []
names_above (suc fuel) entries (some p) = do
  e ← or_panic (get_elem? entries p)
  names ← names_above fuel entries e.parent
  ok (e.name ∷ names)

-- One round of the second loop
abbrev pub append_name : GoString → GoString → GoString
append_name path name = if str_eq name empty_string then path else path ++ (codes "\\" ++ name)

-- The second loop, which reads the names from the last one to the first one.
unfoldable pub append_names : GoString → List GoString → GoString
append_names path [] = path
append_names path (name ∷ names) = append_name (append_names path names) name

-- BuildPath without the calls on the children.
unfoldable pub set_path : List FileDirEntry → ℕ → Outcome (List FileDirEntry)
unfolding names_above append_names
set_path entries i = do
  e ← or_panic (get_elem? entries i)
  names ← names_above (suc (suc (length entries))) entries e.parent
  ok (set entries i (record e { path = append_names e.path names }))

-- BuildPath, on each entry of a list of children in turn. The fuel is the depth of the calls.
unfoldable pub build_paths : ℕ → List FileDirEntry → List ℕ → Outcome (List FileDirEntry)
unfolding set_path
build_paths fuel entries [] = ok entries
build_paths zero entries (i ∷ is) = stuck
build_paths (suc fuel) entries (i ∷ is) = do
  entries' ← set_path entries i
  e ← or_panic (get_elem? entries' i)
  entries'' ← build_paths fuel entries' e.children
  build_paths (suc fuel) entries'' is

abbrev pub build_path : List FileDirEntry → ℕ → Outcome (List FileDirEntry)
build_path entries i = build_paths (suc (length entries)) entries (i ∷ [])
