-- ===== src/Lvm/Areas.antt =====
-- The descriptors of the data areas behind the header of a physical volume.
use mftextractor.Base.{
  ℕ, zero, suc, ◌+◌, ◌-◌, ◌*◌, ◌≤◌, ◌<◌, ◌≡◌, ◌≢◌, refl, ap, sym, ◌∙◌, false, List, [], ◌∷◌, ◌++◌,
  ◌==◌, length, drop, map, All, length-append, length-drop, drop-append, drop-add, arith,
}
use mftextractor.Go.Outcome.{
  ok, stuck, >>=-ne-stuck, ok-ne-stuck, if-ne-stuck, Returns, >>=-Returns, Returns-ok,
}
use mftextractor.Go.Slice.{Slice, IsSlice, of_bytes, slice_from}
use mftextractor.Utils.Unmarshal.{Value, number, unmarshal, size_all}
use mftextractor.Utils.Unmarshal.Sizes.{unmarshal-EndsAt}
use mftextractor.Utils.Unmarshal.RoundTrip.{encode_all, FitsAll, length-encode_all}
use mftextractor.Btrfs.{parse_struct}
use mftextractor.Btrfs.Items.Ends.{slice_from-ne-stuck, parse_struct-ne-stuck}
use mftextractor.Btrfs.Items.Layout.{parse_struct-encode_all, slice_from-eq}
use mftextractor.Lvm.{
  DataAreaDescriptor, data_area_fields, data_area_of, vol_header_fields, vol_header_of,
  data_areas_from, parse_vol_header,
}
use mathlib.Core.List.{append_assoc}
use native.Mathlib.Nat.{add_assoc}

area-size : size_all data_area_fields ≡ 16
unfolding size_all
area-size = refl

header-size : size_all vol_header_fields ≡ 40
unfolding size_all
header-size = refl

abbrev TakesArea : DataAreaDescriptor × ℕ → Type 0
TakesArea (d, n) = n ≡ 16

parse_area-TakesArea :
    (s : Slice) → Returns TakesArea (parse_struct data_area_fields data_area_of s)
parse_area-TakesArea s = >>=-Returns TakesArea (unmarshal data_area_fields s) _ λ u e.
    Returns-ok (λ v. v.idx ≡ size_all data_area_fields) (unmarshal data_area_fields s) u
      (unmarshal-EndsAt data_area_fields s (tt, (tt, tt))) e
    ∙ area-size

slice_from-within : (s : Slice) (lo : ℕ) (t : Slice) → slice_from s lo ≡ ok t → lo ≤ s.len
slice_from-within s lo t h = ground arith

data_areas_from-ne-stuck :
    (fuel : ℕ) (s : Slice) (offset cur : ℕ) (d : DataAreaDescriptor)
    (found : List DataAreaDescriptor)
    → s.len + 1 < cur + fuel
    → 0 < fuel
    → data_areas_from fuel s offset cur d found ≢ stuck
unfolding data_areas_from
data_areas_from-ne-stuck zero s offset cur d found h p = absurd (omega arith)
data_areas_from-ne-stuck (suc fuel) s offset cur d found h p =
    if-ne-stuck (d.offset_b == 0) _ _ (λ _. ok-ne-stuck _)
      λ _.
        >>=-ne-stuck (slice_from s (offset + cur)) _ (slice_from-ne-stuck s (offset + cur))
          λ rest e.
            >>=-ne-stuck (parse_struct data_area_fields data_area_of rest) _
              (parse_struct-ne-stuck data_area_fields data_area_of rest)
              λ (d', n) e'.
                let l = slice_from-within s (offset + cur) rest e in
                let r : n ≡ 16 =
                  Returns-ok TakesArea (parse_struct data_area_fields data_area_of rest) (d', n)
                    (parse_area-TakesArea rest) e' in
                data_areas_from-ne-stuck fuel s offset (cur + n) d' (found ++ (d ∷ []))
                  (omega (arith, l, r)) (omega (arith, l, r))

-- PhysicalVolHeader.Parse comes to an end, or panics, on whatever data, the loop over the
-- descriptors included, which only a descriptor with the offset zero ends.
pub parse_vol_header-ne-stuck : (s : Slice) → parse_vol_header s ≢ stuck
unfolding parse_vol_header
parse_vol_header-ne-stuck s =
    >>=-ne-stuck (parse_struct vol_header_fields vol_header_of s) _
      (parse_struct-ne-stuck vol_header_fields vol_header_of s)
      λ (h, offset) _. >>=-ne-stuck (slice_from s offset) _ (slice_from-ne-stuck s offset) λ rest _.
        >>=-ne-stuck (parse_struct data_area_fields data_area_of rest) _
          (parse_struct-ne-stuck data_area_fields data_area_of rest)
          λ (d, cur) e.
            let r : cur ≡ 16 =
              Returns-ok TakesArea (parse_struct data_area_fields data_area_of rest) (d, cur)
                (parse_area-TakesArea rest) e in
            >>=-ne-stuck (data_areas_from (suc s.len) s offset cur d []) _
              (data_areas_from-ne-stuck (suc s.len) s offset cur d [] (omega (arith, r))
                (omega arith))
              λ ds _. ok-ne-stuck _

-- The bytes of the descriptors.
unfoldable pub encode_areas : List (List Value) → List ℕ
encode_areas [] = []
encode_areas (vs ∷ vss) = encode_all data_area_fields vs ++ encode_areas vss

-- A descriptor that the loop goes behind.
abbrev pub IsArea : List Value → Type 0
IsArea vs = FitsAll data_area_fields vs × ((data_area_of vs).offset_b ≢ 0)

abbrev pub last_area : List Value
last_area = number 0 ∷ number 0 ∷ []

==-false : (n : ℕ) → n ≢ 0 → (n == 0) ≡ false
==-false n h = ground arith

read_area :
    (vs : List Value) (s : Slice) (lo : ℕ) (rest : List ℕ)
    → FitsAll data_area_fields vs
    → drop lo s.cells ≡ encode_all data_area_fields vs ++ rest
    → lo + 16 ≤ s.len
    → IsSlice s
    → parse_struct data_area_fields data_area_of
        (record { cells = drop lo s.cells; len = s.len - lo })
      ≡ ok (data_area_of vs, 16)
read_area vs s lo rest f d l w = rw area-size at (
    parse_struct-encode_all data_area_fields vs data_area_of
      (record { cells = drop lo s.cells; len = s.len - lo }) rest f d (omega (arith, area-size))
      (omega (arith, length-drop lo s.cells)) (omega arith))

-- The loop, when the descriptor `vs` has been read and those of `vss` follow it at `offset + cur`.
data_areas_from-encode :
    (vss : List (List Value)) (vs : List Value) (fuel : ℕ) (s : Slice) (offset cur : ℕ)
    (rest : List ℕ) (found : List DataAreaDescriptor)
    → All IsArea (vs ∷ vss)
    → drop (offset + cur) s.cells
      ≡ encode_areas vss ++ (encode_all data_area_fields last_area ++ rest)
    → offset + cur + 16 * suc (length vss) ≤ s.len
    → IsSlice s
    → suc (length vss) < fuel
    → data_areas_from fuel s offset cur (data_area_of vs) found
      ≡ ok (found ++ map data_area_of (vs ∷ vss))
unfolding data_areas_from encode_areas
data_areas_from-encode vss vs zero s offset cur rest found f d l w h = absurd (omega arith)
data_areas_from-encode [] vs (suc zero) s offset cur rest found f d l w h = absurd (omega arith)
data_areas_from-encode [] vs (suc (suc fuel)) s offset cur rest found ((f, ne), fs) d l w h = rw (
  ==-false (data_area_of vs).offset_b ne,
  slice_from-eq s (offset + cur) (omega arith),
  read_area last_area s (offset + cur) rest (omega arith, (omega arith, tt)) d (omega arith) w,
)
data_areas_from-encode (v ∷ vss) vs (suc fuel) s offset cur rest found ((f, ne), ((g, ne'), fs)) d l
      w h =
    let tail : List ℕ = encode_all data_area_fields last_area ++ rest in
    let one = encode_all data_area_fields v in
    let d' : drop (offset + cur) s.cells ≡ one ++ (encode_areas vss ++ tail) =
      d ∙ append_assoc one (encode_areas vss) tail in
    let len_one : length one ≡ 16 = length-encode_all data_area_fields v g ∙ area-size in
    let next : drop (offset + (cur + 16)) s.cells ≡ encode_areas vss ++ tail =
      ap (λ n. drop n s.cells) (sym (add_assoc offset cur 16))
      ∙ drop-add (offset + cur) 16 s.cells
      ∙ ap (drop 16) d'
      ∙ ap (λ n. drop n (one ++ (encode_areas vss ++ tail))) (sym len_one)
      ∙ drop-append one (encode_areas vss ++ tail) in
    rw
      (
        ==-false (data_area_of vs).offset_b ne,
        slice_from-eq s (offset + cur) (omega arith),
        read_area v s (offset + cur) (encode_areas vss ++ tail) g d' (omega arith) w,
        data_areas_from-encode vss v fuel s offset (cur + 16) rest (found ++ (data_area_of vs ∷ []))
            ((g, ne'), fs) next (omega arith) w (omega arith),
      )
      (ap ok (append_assoc found (data_area_of vs ∷ []) (map data_area_of (v ∷ vss))))

length-encode_areas :
    (vss : List (List Value)) → All IsArea vss → length (encode_areas vss) ≡ 16 * length vss
unfolding encode_areas
length-encode_areas [] f = refl
length-encode_areas (vs ∷ vss) ((f, ne), fs) = omega (
  arith,
  length-append (encode_all data_area_fields vs) (encode_areas vss),
  length-encode_all data_area_fields vs f,
  area-size,
  length-encode_areas vss fs,
)

-- The bytes of a header, of the descriptors behind it and of the one that ends them.
unfoldable pub encode_header : List Value → List (List Value) → List ℕ → List ℕ
unfolding encode_areas
encode_header hs vss rest =
    encode_all vol_header_fields hs
    ++ (encode_areas vss ++ (encode_all data_area_fields last_area ++ rest))

-- PhysicalVolHeader.Parse on the values of a header and of one or more descriptors, none with the
-- offset zero, if one of zeros ends them.
pub parse_vol_header-values :
    (hs vs : List Value) (vss : List (List Value)) (rest : List ℕ)
    → FitsAll vol_header_fields hs
    → All IsArea (vs ∷ vss)
    → parse_vol_header (of_bytes (encode_header hs (vs ∷ vss) rest))
      ≡ ok (record (vol_header_of hs) { data_area_descriptors = map data_area_of (vs ∷ vss) })
unfolding parse_vol_header encode_header encode_areas
parse_vol_header-values hs vs vss rest f ((g, ne), gs) =
    let head = encode_all vol_header_fields hs in
    let one = encode_all data_area_fields vs in
    let end : List ℕ = encode_all data_area_fields last_area ++ rest in
    let tail : List ℕ = encode_areas (vs ∷ vss) ++ end in
    let buf = of_bytes (head ++ tail) in
    let len_head : length head ≡ 40 = length-encode_all vol_header_fields hs f ∙ header-size in
    let len_one : length one ≡ 16 = length-encode_all data_area_fields vs g ∙ area-size in
    let len_end : 16 ≤ length end = omega (
      arith,
      length-append (encode_all data_area_fields last_area) rest,
      length-encode_all data_area_fields last_area (omega arith, (omega arith, tt)),
      area-size,
    ) in
    let len_all : length (head ++ tail) ≡ 40 + 16 * suc (length vss) + length end = omega (
      arith,
      length-append head tail,
      length-append (encode_areas (vs ∷ vss)) end,
      len_head,
      length-encode_areas (vs ∷ vss) ((g, ne), gs),
    ) in
    let d : drop 40 buf.cells ≡ one ++ (encode_areas vss ++ end) =
      ap (λ n. drop n (head ++ tail)) (sym len_head)
      ∙ drop-append head tail
      ∙ append_assoc one (encode_areas vss) end in
    let next : drop (40 + 16) buf.cells ≡ encode_areas vss ++ end =
      drop-add 40 16 buf.cells
      ∙ ap (drop 16) d
      ∙ ap (λ n. drop n (one ++ (encode_areas vss ++ end))) (sym len_one)
      ∙ drop-append one (encode_areas vss ++ end) in
    let front : parse_struct vol_header_fields vol_header_of buf ≡ ok (vol_header_of hs, 40) =
      rw header-size at (
        parse_struct-encode_all vol_header_fields hs vol_header_of buf tail f refl
          (omega (arith, header-size, len_all)) (omega arith) (omega (arith, len_all))) in
    rw (
      front,
      slice_from-eq buf 40 (omega (arith, len_all)),
      read_area vs buf 40 (encode_areas vss ++ end) g d (omega (arith, len_all)) (omega arith),
      data_areas_from-encode vss vs (suc buf.len) buf 40 16 rest [] ((g, ne), gs) next
          (omega (arith, len_all, len_end)) (omega arith) (omega (arith, len_all)),
    )
