-- ===== src/Mft/Questions.antt =====
-- FS/NTFS/MFT/MFT.go: questions about the attributes of a record that no pass over the table asks.
use mftextractor.Base.{
  ℕ, Bool, true, false, not, Option, none, some, List, [], ◌∷◌, ltb, if◌then◌else◌, get_elem?,
}
use mftextractor.Go.Outcome.{Outcome, ok, or_panic, ◌>>=◌}
use mftextractor.Go.Text.{GoString, codes}
use mftextractor.Utils.Bytes.{filter}
use mftextractor.Attributes.Attribute.{Attribute, is_non_resident, as_fn}
use mftextractor.Attributes.RunList.{RunList}
use mftextractor.Mft.Record.{Record, find_in, find_attribute, is_folder, run_list_of}
use mftextractor.Mft.Table.{Records, seq_distance}

-- FilterOutFiles, FilterOutFolders
unfoldable pub filter_out_files : Records → Records
unfolding filter
filter_out_files rs = filter rs is_folder

unfoldable pub filter_out_folders : Records → Records
unfolding filter
filter_out_folders rs = filter rs (λ r. not (is_folder r))

-- FindAttributePtr, with the loop of FindAttribute over indices
unfoldable pub find_attribute_ptr : Record → GoString → Option Attribute
unfolding find_in
find_attribute_ptr r name = find_in name r.attributes

-- HasNonResidentAttr, as the code tests it: some attribute is resident.
unfoldable pub any_resident : List Attribute → Bool
any_resident [] = false
any_resident (a ∷ as_) =
    let rest = any_resident as_ in if not (is_non_resident a) then true else rest

abbrev pub has_non_resident_attr : Record → Bool
has_non_resident_attr r = any_resident r.attributes

-- GetRunLists
unfoldable pub run_lists_of : List Attribute → Outcome (List RunList)
run_lists_of [] = ok []
run_lists_of (a ∷ as_) =
    let rest = run_lists_of as_ in
    let found = do runs ← run_list_of (some a); more ← rest; ok (runs ∷ more)
    in if is_non_resident a then found else rest

abbrev pub get_run_lists : Record → Outcome (List RunList)
get_run_lists r = run_lists_of r.attributes

-- getVCNs
unfoldable pub vcns_of : List Attribute → Outcome (ℕ × ℕ)
vcns_of [] = ok (0, 0)
vcns_of (a ∷ as_) =
    let rest = vcns_of as_ in
    let found = do n ← or_panic a.header.non_resident; ok (n.start_vcn, n.last_vcn)
    in if is_non_resident a then found else rest

abbrev pub get_vcns : Record → Outcome (ℕ × ℕ)
get_vcns r = vcns_of r.attributes

-- Records.GetParent; none is its error. Without a name the type assertion panics.
unfoldable pub get_parent : Records → Record → Outcome (Option Record)
unfolding find_in
get_parent rs r = do
  a ← or_panic (find_attribute r (codes "FileName"))
  f ← or_panic (as_fn a.content)
  p ← or_panic (get_elem? rs f.par_ref)
  ok (if ltb (seq_distance p f.par_seq) 2 then some p else none)
