-- ===== src/Go/Path.antt =====
-- filepath.Join of the Go library, on Unix: the parts are joined by slashes and cleaned.
use mftextractor.Base.{Bool, true, false, List, [], ◌∷◌, ◌++◌, ◌==◌, if◌then◌else◌}
use mftextractor.Go.Text.{GoString, codes, str_eq}

-- strings.Split(s, "/"), with the part that is being read.
unfoldable pub split_from : GoString → GoString → List GoString
split_from part [] = part ∷ []
split_from part (c ∷ cs) =
    let new = part ∷ split_from [] cs in
    let more = split_from (part ++ (c ∷ [])) cs in if c == b'/' then new else more

unfoldable pub join_with_slash : List GoString → GoString
join_with_slash [] = []
join_with_slash (p ∷ []) = p
join_with_slash (p ∷ q ∷ ps) = p ++ (b'/' ∷ join_with_slash (q ∷ ps))

-- A part ".." behind the parts that are kept, newest first.
abbrev pub up : Bool → List GoString → List GoString
up true [] = []
up false [] = codes ".." ∷ []
up rooted (p ∷ ps) = if str_eq p (codes "..") then codes ".." ∷ p ∷ ps else ps

-- The loop of filepath.Clean.
unfoldable pub clean_parts : Bool → List GoString → List GoString → List GoString
clean_parts rooted kept [] = kept
clean_parts rooted kept (p ∷ ps) =
    clean_parts rooted
      (if str_eq p []
        then kept
        else if str_eq p (codes ".")
        then kept
        else if str_eq p (codes "..")
        then up rooted kept
        else p ∷ kept)
      ps

unfoldable pub reverse_onto : List GoString → List GoString → List GoString
reverse_onto [] done = done
reverse_onto (p ∷ ps) done = reverse_onto ps (p ∷ done)

abbrev pub is_rooted : GoString → Bool
is_rooted [] = false
is_rooted (c ∷ cs) = c == b'/'

-- filepath.Clean of a string that is not empty.
unfoldable pub clean : GoString → GoString
clean s =
    let path = join_with_slash (reverse_onto (clean_parts (is_rooted s) [] (split_from [] s)) []) in
    if is_rooted s then b'/' ∷ path else if str_eq path [] then codes "." else path

-- filepath.Join: the parts from the first that is not empty are joined and cleaned.
unfoldable pub join_path : List GoString → GoString
unfolding clean
join_path [] = []
join_path (p ∷ ps) =
    let rest = join_path ps in if str_eq p [] then rest else clean (join_with_slash (p ∷ ps))
