-- ===== src/Filters.antt =====
-- filters/filters.go and filtermanager/manager.go with the methods of FS/NTFS/MFT/MFT.go that they
-- call: the records that the user asks for.
pub mod Passed
use mftextractor.Base.{
  ℕ, zero, suc, Bool, true, false, not, ◌&&◌, ◌||◌, Option, none, some, List, [], ◌∷◌, ◌++◌,
  if◌then◌else◌,
}
use mftextractor.Base.{length, get_elem?}
use mftextractor.Go.Outcome.{Outcome, ok, stuck, or_panic, ◌>>=◌}
use mftextractor.Go.Path.{join_path}
use mftextractor.Go.Text.{GoString, codes, str_eq, has_prefix}
use mftextractor.Attributes.Attribute.{as_fn}
use mftextractor.Mft.Record.{
  Record, find_attribute, has_attr, is_folder, is_deleted, own_fname, is_some,
}
use mftextractor.Mft.Table.{Records, path_from}

-- Filter of utils.go with a test that may panic.
unfoldable pub filter_by : Records → (Record → Outcome Bool) → Outcome Records
filter_by [] f = ok []
filter_by (r ∷ rs) f = do b ← f r; kept ← filter_by rs f; ok (if b then r ∷ kept else kept)

-- strings.HasSuffix
unfoldable pub has_suffix : GoString → GoString → Bool
unfolding str_eq
has_suffix [] t = str_eq [] t
has_suffix (b ∷ s) t = str_eq (b ∷ s) t || has_suffix s t

-- GetFname, which follows the pointers to the original records; where there is no cycle, no pointer
-- leads to a record twice.
unfoldable pub fname_from : ℕ → Records → Record → Outcome GoString
fname_from zero table r = stuck
fname_from (suc fuel) table r = elim r.origin_linked_record [
  | none ↦ own_fname r
  | some i ↦ (do o ← or_panic (get_elem? table i); fname_from fuel table o)
]

abbrev pub get_fname : Records → Record → Outcome GoString
get_fname table = fname_from (suc (length table)) table

-- GetFullPath
unfoldable pub get_full_path : Records → Record → Outcome GoString
get_full_path table r = do
  path ← path_from (get_fname table) (suc (suc (length table))) table r.parent []
  ok (join_path path)

-- The table of all records, where the pointers lead, and strings.ToUpper and strings.ToLower, which
-- follow the tables of Unicode.
module _ (table : Records) (to_upper to_lower : GoString → GoString) where
  -- HasFilename
  unfoldable pub has_filename : GoString → Record → Outcome Bool
  has_filename name r = do n ← get_fname table r; ok (str_eq n name)

  -- HasFilenames
  unfoldable pub has_filenames : List GoString → Record → Outcome Bool
  has_filenames [] r = ok false
  has_filenames (n ∷ ns) r = do b ← has_filename n r; if b then ok true else has_filenames ns r

  -- HasPath
  unfoldable pub has_path : GoString → Record → Outcome Bool
  has_path path r = do p ← get_full_path table r; ok (str_eq p path)

  -- HasFilenameExtension
  unfoldable pub has_filename_extension : GoString → Record → Outcome Bool
  has_filename_extension ext r = elim (find_attribute r (codes "FileName")) [
    | none ↦ ok false
    | some a ↦ (do
      f ← or_panic (as_fn a.content)
      ok (
          has_suffix f.fname (to_upper (codes "." ++ ext))
          || has_suffix f.fname (to_lower (codes "." ++ ext))))
  ]

  -- HasPrefix(prefix) && HasSuffix(suffix)
  unfoldable pub has_affixes : GoString → GoString → Record → Outcome Bool
  has_affixes prefix suffix r = do
    n ← get_fname table r
    if has_prefix n prefix then (do m ← get_fname table r; ok (has_suffix m suffix)) else ok false

  -- FilterByExtensions: a record with two of the extensions is there twice.
  unfoldable pub filter_by_extensions : List GoString → Records → Outcome Records
  filter_by_extensions [] rs = ok []
  filter_by_extensions (e ∷ es) rs = do
    first ← filter_by rs (has_filename_extension e)
    more ← filter_by_extensions es rs
    ok (first ++ more)

  -- The loop of PrefixesSuffixesFilter.Execute: it panics where a suffix is missing.
  unfoldable pub filter_by_affixes : List GoString → List GoString → Records → Outcome Records
  filter_by_affixes [] ss rs = ok rs
  filter_by_affixes (p ∷ ps) [] rs = Outcome.panic
  filter_by_affixes (p ∷ ps) (s ∷ ss) rs = do
    kept ← filter_by rs (has_affixes p s)
    filter_by_affixes ps ss kept

-- The types that implement Filter.
pub data Filter : Type 0 where
  names : List GoString → Filter
  path : GoString → Filter
  extensions : List GoString → Filter
  orphans deleted folders : Bool → Filter
  prefixes_suffixes : List GoString → List GoString → Filter

-- The test of FilterOrphans.
abbrev pub is_orphan : Record → Bool
is_orphan r = is_deleted r && not (is_some r.parent)

module _ (table : Records) (to_upper to_lower : GoString → GoString) where
  -- Filter.Execute
  unfoldable pub execute : Filter → Records → Outcome Records
  execute (Filter.names ns) rs = filter_by rs (has_filenames table to_upper to_lower ns)
  execute (Filter.path p) rs = filter_by rs (has_path table to_upper to_lower p)
  execute (Filter.extensions es) rs = filter_by_extensions table to_upper to_lower es rs
  execute (Filter.orphans include) rs =
      if include then filter_by rs (λ r. ok (is_orphan r)) else ok rs
  execute (Filter.deleted include) rs =
      if include then filter_by rs (λ r. ok (is_deleted r)) else ok rs
  execute (Filter.folders include) rs =
      if not include then filter_by rs (λ r. ok (not (is_folder r))) else ok rs
  execute (Filter.prefixes_suffixes ps ss) rs = filter_by_affixes table to_upper to_lower ps ss rs

  -- FilterManager.ApplyFilters
  unfoldable pub apply_filters : List Filter → Records → Outcome Records
  apply_filters [] rs = ok rs
  apply_filters (f ∷ fs) rs = do rs' ← execute f rs; apply_filters fs rs'

-- FilterManager.Register
unfoldable pub register : List Filter → Filter → List Filter
register fs f = fs ++ (f ∷ [])
