-- ===== src/Tests/Paths.antt =====
-- The path of a file in a folder.
use mftextractor.Base.{ℕ, Option, none, some, List, [], ◌∷◌}
use mftextractor.Base.Int.{pos}
use mftextractor.Go.Text.{GoString, codes}
use mftextractor.Btrfs.Entries.{FileDirEntry}

abbrev entry_with : Option ℕ → List ℕ → GoString → FileDirEntry
entry_with p cs n = record { id = pos 0; name = n; children = cs; parent = p; path = [] }

abbrev two_entries : List FileDirEntry
two_entries = entry_with none (1 ∷ []) (codes "home") ∷ entry_with (some 0) [] (codes "a") ∷ []
