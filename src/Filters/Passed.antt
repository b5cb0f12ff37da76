-- ===== src/Filters/Passed.antt =====
-- Every record that the filters let through passes each of them.
use mftextractor.Base.{
  ◌≡◌, ap, refl, true, false, Bool, not, ◌⊎◌, inl, inr, List, [], ◌∷◌, ◌++◌, All, if◌then◌else◌,
  Bool-cases,
}
use mftextractor.Go.Outcome.{Outcome, ok, panic, stuck, Returns, >>=-Returns, Returns-ok}
use mftextractor.Go.Text.{GoString}
use mftextractor.Mft.Record.{Record, is_folder, is_deleted}
use mftextractor.Mft.Table.{Records}
use mftextractor.Filters.{
  Filter, filter_by, has_filenames, has_path, has_filename_extension, has_affixes,
  filter_by_extensions, filter_by_affixes, is_orphan, execute, apply_filters,
}

filter_by-All {κ} :
    (P : Record → Type κ) (rs : Records) (f : Record → Outcome Bool)
    → All P rs
    → Returns (All (λ r. P r × (f r ≡ ok true))) (filter_by rs f)
unfolding filter_by
filter_by-All P [] f h = tt
filter_by-All P (r ∷ rs) f (h, hs) =
    let Q : Records → Type κ = All (λ r. P r × (f r ≡ ok true)) in
    >>=-Returns Q (f r) _ λ b e. >>=-Returns Q (filter_by rs f) _ λ kept k.
      let behind = Returns-ok Q (filter_by rs f) kept (filter_by-All P rs f hs) k in
      elim (Bool-cases b) [ inl t ↦ rw t ((h, cc), behind) | inr t ↦ rw t behind ]

All-append {κ} :
    {A : Type 0} (P : A → Type κ) (xs ys : List A) → All P xs → All P ys → All P (xs ++ ys)
All-append P [] ys h k = k
All-append P (x ∷ xs) ys (h, hs) k = (h, All-append P xs ys hs k)

All-map {κ μ} :
    {A : Type 0} (P : A → Type κ) (Q : A → Type μ) (xs : List A)
    → ((x : A) → P x → Q x)
    → All P xs
    → All Q xs
All-map P Q [] f h = tt
All-map P Q (x ∷ xs) f (h, hs) = (f x h, All-map P Q xs f hs)

Returns-map {κ μ} :
    {A : Type 0} (P : A → Type κ) (Q : A → Type μ) (m : Outcome (List A))
    → ((x : A) → P x → Q x)
    → Returns (All P) m
    → Returns (All Q) m
Returns-map P Q (ok xs) f h = All-map P Q xs f h
Returns-map P Q panic f h = tt
Returns-map P Q stuck f h = tt

not-true : (b : Bool) → not b ≡ true → b ≡ false
not-true true e = cc
not-true false e = refl

module _ (table : Records) (to_upper to_lower : GoString → GoString) where
  -- One of the extensions is the record's.
  abbrev pub HasOne : List GoString → Record → Type 0
  HasOne [] r = ⊥
  HasOne (e ∷ es) r = (has_filename_extension table to_upper to_lower e r ≡ ok true) ⊎ HasOne es r

  -- Each prefix with its suffix are the record's.
  abbrev pub HasEach : List GoString → List GoString → Record → Type 0
  HasEach (p ∷ ps) (s ∷ ss) r =
      (has_affixes table to_upper to_lower p s r ≡ ok true) × HasEach ps ss r
  HasEach _ _ r = Unit

  -- What a filter asks of a record.
  abbrev pub Passes : Filter → Record → Type 0
  Passes (Filter.names ns) r = has_filenames table to_upper to_lower ns r ≡ ok true
  Passes (Filter.path p) r = has_path table to_upper to_lower p r ≡ ok true
  Passes (Filter.extensions es) r = HasOne es r
  Passes (Filter.orphans include) r = include ≡ true → is_orphan r ≡ true
  Passes (Filter.deleted include) r = include ≡ true → is_deleted r ≡ true
  Passes (Filter.folders include) r = include ≡ false → is_folder r ≡ false
  Passes (Filter.prefixes_suffixes ps ss) r = HasEach ps ss r

  abbrev pub PassesAll : List Filter → Record → Type 0
  PassesAll fs r = All (λ f. Passes f r) fs

  module _ {κ} (P : Record → Type κ) where
    extensions-HasOne :
        (es : List GoString) (rs : Records)
        → All P rs
        → Returns
            (All (λ r. P r × HasOne es r))
            (filter_by_extensions table to_upper to_lower es rs)
    unfolding filter_by_extensions
    extensions-HasOne [] rs h = tt
    extensions-HasOne (e ∷ es) rs h =
        let Q : Records → Type κ = All (λ r. P r × HasOne (e ∷ es) r) in
        let has = has_filename_extension table to_upper to_lower e in
        >>=-Returns Q (filter_by rs has) _ λ first k.
          >>=-Returns Q (filter_by_extensions table to_upper to_lower es rs) _ λ more l.
            All-append (λ r. P r × HasOne (e ∷ es) r) first more
              (All-map (λ r. P r × (has r ≡ ok true)) _ first (λ r (p, q). (p, inl q))
                (Returns-ok _ (filter_by rs has) first (filter_by-All P rs has h) k))
              (All-map (λ r. P r × HasOne es r) _ more (λ r (p, q). (p, inr q))
                (Returns-ok _ (filter_by_extensions table to_upper to_lower es rs) more
                  (extensions-HasOne es rs h) l))

  affixes-HasEach {κ} :
      (P : Record → Type κ) (ps ss : List GoString) (rs : Records)
      → All P rs
      → Returns
          (All (λ r. P r × HasEach ps ss r))
          (filter_by_affixes table to_upper to_lower ps ss rs)
  unfolding filter_by_affixes
  affixes-HasEach P [] ss rs h = All-map P _ rs (λ r p. (p, tt)) h
  affixes-HasEach P (p ∷ ps) [] rs h = tt
  affixes-HasEach P (p ∷ ps) (s ∷ ss) rs h =
      let has = has_affixes table to_upper to_lower p s in
      let P' : Record → Type κ = λ r. P r × (has r ≡ ok true) in
      >>=-Returns (All (λ r. P r × HasEach (p ∷ ps) (s ∷ ss) r)) (filter_by rs has) _ λ kept k.
        Returns-map (λ r. P' r × HasEach ps ss r) _
          (filter_by_affixes table to_upper to_lower ps ss kept) (λ r ((a, b), c). (a, (b, c)))
          (affixes-HasEach P' ps ss kept
            (Returns-ok _ (filter_by rs has) kept (filter_by-All P rs has h) k))

  -- A filter that has a switch: the test, or no test.
  switched {κ} :
      (P : Record → Type κ) (on : Bool) (test : Record → Bool) (Q : Record → Type 0) (rs : Records)
      → All P rs
      → (on ≡ true → (r : Record) → test r ≡ true → Q r)
      → (on ≡ false → (r : Record) → Q r)
      → Returns (All (λ r. P r × Q r)) (if on then filter_by rs (λ r. ok (test r)) else ok rs)
  switched P true test Q rs h f g =
      Returns-map (λ r. P r × (ok (test r) ≡ ok true)) _ (filter_by rs (λ r. ok (test r)))
        (λ r (a, b). (a, f refl r (cc b))) (filter_by-All P rs _ h)
  switched P false test Q rs h f g = All-map P _ rs (λ r a. (a, g refl r)) h

  execute-Passes {κ} :
      (P : Record → Type κ) (f : Filter) (rs : Records)
      → All P rs
      → Returns (All (λ r. P r × Passes f r)) (execute table to_upper to_lower f rs)
  unfolding execute
  execute-Passes P (Filter.names ns) rs h = filter_by-All P rs _ h
  execute-Passes P (Filter.path p) rs h = filter_by-All P rs _ h
  execute-Passes P (Filter.extensions es) rs h = extensions-HasOne P es rs h
  execute-Passes P (Filter.orphans include) rs h =
      switched P include is_orphan _ rs h (λ _ r e _. e) (λ e r k. absurd (cc (e, k)))
  execute-Passes P (Filter.deleted include) rs h =
      switched P include is_deleted _ rs h (λ _ r e _. e) (λ e r k. absurd (cc (e, k)))
  execute-Passes P (Filter.folders include) rs h =
      switched P (not include) (λ r. not (is_folder r)) _ rs h (λ _ r e _. not-true (is_folder r) e)
        (λ e r k. absurd (cc (e, ap not k)))
  execute-Passes P (Filter.prefixes_suffixes ps ss) rs h = affixes-HasEach P ps ss rs h

  apply-PassesAll {κ} :
      (P : Record → Type κ) (fs : List Filter) (rs : Records)
      → All P rs
      → Returns (All (λ r. P r × PassesAll fs r)) (apply_filters table to_upper to_lower fs rs)
  unfolding apply_filters
  apply-PassesAll P [] rs h = All-map P _ rs (λ r p. (p, tt)) h
  apply-PassesAll P (f ∷ fs) rs h =
      let P' : Record → Type κ = λ r. P r × Passes f r in
      >>=-Returns (All (λ r. P r × PassesAll (f ∷ fs) r)) (execute table to_upper to_lower f rs) _
        λ kept k.
          Returns-map (λ r. P' r × PassesAll fs r) _ (apply_filters table to_upper to_lower fs kept)
            (λ r ((a, b), c). (a, (b, c)))
            (apply-PassesAll P' fs kept (
              Returns-ok _ (execute table to_upper to_lower f rs) kept (execute-Passes P f rs h) k))

  -- Whatever holds of all the records given to ApplyFilters holds of all that it returns, and each of
  -- these passes every one of the filters, in whatever order they are registered.
  pub apply_filters-PassesAll {κ} :
      (P : Record → Type κ) (fs : List Filter) (rs rs' : Records)
      → All P rs
      → apply_filters table to_upper to_lower fs rs ≡ ok rs'
      → All (λ r. P r × PassesAll fs r) rs'
  apply_filters-PassesAll P fs rs rs' h e =
      Returns-ok _ (apply_filters table to_upper to_lower fs rs) rs' (apply-PassesAll P fs rs h) e
