-- ===== src/Mft/NonResident/Kept.antt =====
-- The attributes that the file content rests on are not touched.
use mftextractor.Base.{
  ◌≡◌, refl, ap, sym, ◌∙◌, Bool, true, false, not, ◌&&◌, Option, none, some, List, [], ◌∷◌,
  if◌then◌else◌, Bool-cases, inl, inr,
}
use mftextractor.Base.Int.{ℤ}
use mftextractor.Go.Outcome.{
  Outcome, ok, panic, stuck, or_panic, ◌>>=◌, if-true, if-false, Returns, >>=-Returns, Returns-ok,
}
use mftextractor.Go.Text.{codes, str_eq}
use mftextractor.Attributes.Attribute.{Attribute, find_type, is_non_resident}
use mftextractor.Attributes.Header.{NonResidentRecord, get_type}
use mftextractor.Attributes.RunList.{RunList}
use mftextractor.Disk.Reader.{DiskReader}
use mftextractor.Mft.Record.{Record, find_in, find_attribute}
use mftextractor.Mft.NonResident.{
  read_content, process_attribute, process_attributes, process_non_resident_attributes,
}

-- The same header, and the same attribute if it is of the type DATA.
abbrev SameData : Attribute → Attribute → Type 0
SameData a b = (b.header ≡ a.header) × (str_eq (find_type a) (codes "DATA") ≡ true → b ≡ a)

abbrev HasHeader : Attribute → Attribute → Type 0
HasHeader a b = b.header ≡ a.header

abbrev is_data : Attribute → Bool
is_data a = str_eq (find_type a) (codes "DATA")

find_in-cons :
    (a b : Attribute) (as_ bs : List Attribute)
    → SameData a b
    → find_in (codes "DATA") bs ≡ find_in (codes "DATA") as_
    → find_in (codes "DATA") (b ∷ bs) ≡ find_in (codes "DATA") (a ∷ as_)
unfolding find_in
find_in-cons a b as_ bs (h, k) e = elim (Bool-cases (is_data a)) [
  | inl t ↦
      if-true (is_data b) (some b) _ (ap (λ x. str_eq (get_type x) (codes "DATA")) h ∙ t)
      ∙ ap some (k t)
      ∙ sym (if-true (is_data a) (some a) _ t)
  | inr f ↦
      if-false (is_data b) (some b) _ (ap (λ x. str_eq (get_type x) (codes "DATA")) h ∙ f)
      ∙ e
      ∙ sym (if-false (is_data a) (some a) _ f)
]

Returns-SameData :
    (a : Attribute) (m : Outcome Attribute)
    → str_eq (find_type a) (codes "DATA") ≡ false
    → Returns (HasHeader a) m
    → Returns (SameData a) m
Returns-SameData a (ok b) f h = (h, λ t. absurd (cc))
Returns-SameData a panic f h = tt
Returns-SameData a stuck f h = tt

guarded-SameData :
    (a : Attribute) (b : Bool) (m : Outcome Attribute)
    → Returns (HasHeader a) m
    → Returns (SameData a) (if b && not (is_data a) then m else ok a)
guarded-SameData a false m h = (refl, λ _. refl)
guarded-SameData a true m h = elim (Bool-cases (is_data a)) [
  | inl t ↦ rw t (refl, λ _. refl)
  | inr f ↦ rw f (Returns-SameData a m f h)
]

module _ (hd : DiskReader) (start cluster : ℤ) where
  process_attribute-HasHeader :
      (a : Attribute) → Returns (HasHeader a) (process_attribute hd start cluster a)
  unfolding process_attribute
  process_attribute-HasHeader a =
      >>=-Returns (HasHeader a) (or_panic a.header.non_resident) _ λ n _. go n.run_list n
    where
      go :
          (o : Option RunList) (n : NonResidentRecord)
          → Returns {A = Attribute} (HasHeader a) (elim o [
            | none ↦ ok a
            | some runs ↦ (do
              c ← read_content hd start cluster a.content n runs
              ok (record a { content = c }))
          ])
      go none n = refl
      go (some runs) n =
          >>=-Returns (HasHeader a) (read_content hd start cluster a.content n runs) _ λ c _. refl

  -- One step of the loop.
  abbrev step : Attribute → Outcome Attribute
  step a =
      let new = process_attribute hd start cluster a in
      if is_non_resident a && not (str_eq (find_type a) (codes "DATA")) then new else ok a

  step-SameData : (a : Attribute) → Returns (SameData a) (step a)
  step-SameData a =
      guarded-SameData a (is_non_resident a) (process_attribute hd start cluster a)
        (process_attribute-HasHeader a)

  process_attributes-find_in :
      (as_ : List Attribute)
      → Returns
          (λ bs. find_in (codes "DATA") bs ≡ find_in (codes "DATA") as_)
          (process_attributes hd start cluster as_)
  unfolding process_attributes find_in
  process_attributes-find_in [] = refl
  process_attributes-find_in (a ∷ as_) =
      let P =
        λ (bs : List Attribute). find_in (codes "DATA") bs ≡ find_in (codes "DATA") (a ∷ as_) in
      let Q = λ (bs : List Attribute). find_in (codes "DATA") bs ≡ find_in (codes "DATA") as_ in
      >>=-Returns P (step a) _ λ b e.
        >>=-Returns P (process_attributes hd start cluster as_) _ λ bs e'.
          find_in-cons a b as_ bs (Returns-ok (SameData a) (step a) b (step-SameData a) e) (
            Returns-ok Q (process_attributes hd start cluster as_) bs
              (process_attributes-find_in as_) e')

  -- When ProcessNoNResidentAttributes has read the attributes of a record from the disk, the record has
  -- the same DATA attribute as before, or as before none: its runs, from which the content of the
  -- file is read, and its bytes if it is resident.
  pub process_non_resident_attributes-find_attribute :
      (r r' : Record)
      → process_non_resident_attributes hd start cluster r ≡ ok r'
      → find_attribute r' (codes "DATA") ≡ find_attribute r (codes "DATA")
  unfolding process_non_resident_attributes
  process_non_resident_attributes-find_attribute r r' h =
      let P = λ (x : Record). find_attribute x (codes "DATA") ≡ find_attribute r (codes "DATA") in
      let Q =
        λ (bs : List Attribute). find_in (codes "DATA") bs ≡ find_in (codes "DATA") r.attributes in
      Returns-ok P (process_non_resident_attributes hd start cluster r) r'
        (>>=-Returns P (process_attributes hd start cluster r.attributes) _ λ bs e.
          Returns-ok Q (process_attributes hd start cluster r.attributes) bs
            (process_attributes-find_in r.attributes) e)
        h
