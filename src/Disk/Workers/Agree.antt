-- ===== src/Disk/Workers/Agree.antt =====
-- The two workers read the same bytes.
use mftextractor.Base.{
  ℕ, ◌≡◌, refl, ap, sym, ◌∙◌, Bool, true, false, some, List, [], ◌∷◌, ◌++◌, map, ltb, if◌then◌else◌,
  get_elem?, ◌^◌,
}
use mftextractor.Base.Int.{ℤ}
use mftextractor.Go.Outcome.{Outcome, ok, panic, stuck, ◌>>=◌, >>=-ok}
use mftextractor.Data.{
  AskedFile, locate_data, locate_data_async, located_content, get_logical_file_size, is_zero_ℤ,
}
use mftextractor.Data.Fragments.{joined, located_content-locate_data_async}
use mftextractor.Disk.Reader.{DiskReader}
use mftextractor.Disk.Discovery.{Disk}
use mftextractor.Disk.Partitions.{Volume, DiskPartition}
use mftextractor.Disk.Workers.{
  sources_of, located_of, fragments_of, files_of, worker, async_worker, partition_start,
  cluster_bytes,
}
use mftextractor.Filters.{get_fname}
use mftextractor.Mft.Record.{Record, is_folder}
use mftextractor.Mft.Table.{Records}
use mathlib.Core.List.{append_assoc, append-nil}

-- The result of a chain comes from a result of its first part.
>>=-inverse {ℓ κ} :
    {A : Type ℓ} {B : Type κ} (m : Outcome A) (f : A → Outcome B) (b : B)
    → (m >>= f) ≡ ok b
    → (a : A) × (m ≡ ok a) × (f a ≡ ok b)
>>=-inverse (ok a) f b h = (a, refl, h)
>>=-inverse panic f b h = absurd cc
>>=-inverse stuck f b h = absurd cc

-- The same, in a proof that goes on from the parts.
>>=-parts {ℓ κ μ} :
    {A : Type ℓ} {B : Type κ} {C : Type μ} (m : Outcome A) (f : A → Outcome B) (b : B)
    → (m >>= f) ≡ ok b
    → ((a : A) → m ≡ ok a → f a ≡ ok b → C)
    → C
>>=-parts (ok a) f b h k = k a refl h
>>=-parts panic f b h k = absurd cc
>>=-parts stuck f b h k = absurd cc

ok-inverse {ℓ} : {A : Type ℓ} {a b : A} → ok a ≡ ok b → a ≡ b
ok-inverse h = cc

joined-append : (xs ys : List (List ℕ)) → joined (xs ++ ys) ≡ joined xs ++ joined ys
unfolding joined
joined-append [] ys = refl
joined-append (x ∷ xs) ys =
    ap (λ t. x ++ t) (joined-append xs ys) ∙ sym (append_assoc x (joined xs) (joined ys))

if-ok-inverse : (b : Bool) (f g : AskedFile) → (if b then ok f else panic) ≡ ok g → f ≡ g
if-ok-inverse true f g h = ok-inverse h
if-ok-inverse false f g h = absurd cc

-- The bytes of the files that are sent.
abbrev contents : List AskedFile → List ℕ
contents fs = joined (map (λ f. f.content) fs)

module _ (table : Records) (hd : DiskReader) (start cluster : ℤ)
    (whole : is_zero_ℤ cluster ≡ false) where
  locate_data-fragments :
      (r : Record) (f : AskedFile)
      → locate_data hd cluster table start r ≡ ok f
      → (ds : List (List ℕ)) × (locate_data_async hd cluster table start r ≡ ok ds)
        × (f.content ≡ joined ds)
  unfolding locate_data
  locate_data-fragments r f h =
      let (size, e1, h1) = >>=-inverse (get_logical_file_size table r) _ f h in
      let (content, e2, h2) = >>=-inverse (located_content hd cluster table start r) _ f h1 in
      let (name, e3, h3) = >>=-inverse (get_fname table r) _ f h2 in
      let same =
        if-ok-inverse (ltb size (2 ^ 63)) (record { fname = name; content = content; id = r.entry })
          f h3 in
      let e = sym (located_content-locate_data_async hd cluster whole table start r) ∙ e2 in
      let (ds, e4, h4) = >>=-inverse (locate_data_async hd cluster table start r) _ content e in
      (ds, e4, ap (λ (g : AskedFile). g.content) (sym same) ∙ sym (ok-inverse h4))

  located_of-fragments_of :
      (rs : Records) (fs : List AskedFile)
      → located_of table hd start cluster rs ≡ ok fs
      → (ds : List (List ℕ)) × (fragments_of table hd start cluster rs ≡ ok ds)
        × (contents fs ≡ joined ds)
  unfolding located_of fragments_of joined
  located_of-fragments_of [] fs h = ([], refl, ap contents (sym (ok-inverse h)))
  located_of-fragments_of (r ∷ rs) fs h =
      let (f, e1, h1) = >>=-inverse (locate_data hd cluster table start r) _ fs h in
      let (gs, e2, h2) = >>=-inverse (located_of table hd start cluster rs) _ fs h1 in
      let (ds, e3, c) = locate_data-fragments r f e1 in
      let (es, e4, c') = located_of-fragments_of rs gs e2 in
      (
        ds ++ es,
        rw (e3, e4),
        ap contents (sym (ok-inverse h2)) ∙ rw (c, c') (sym (joined-append ds es)),
      )

unless :
    (b : Bool) (m : Outcome (List AskedFile)) (k : Outcome (List (List ℕ))) (sent : List AskedFile)
    → (m ≡ ok sent → (ds : List (List ℕ)) × (k ≡ ok ds) × (contents sent ≡ joined ds))
    → (if b then ok [] else m) ≡ ok sent
    → (ds : List (List ℕ)) × ((if b then ok [] else k) ≡ ok ds) × (contents sent ≡ joined ds)
unless true m k sent f h = ([], refl, ap contents (sym (ok-inverse h)))
unless false m k sent f h = f h

module _ (table : Records) (hd : DiskReader) (start cluster : ℤ) (r : Record)
    (whole : is_zero_ℤ cluster ≡ false) where
  -- What AsyncWorker does for the record.
  abbrev sends : Outcome (List (List ℕ))
  sends = do
    name ← get_fname table r
    let sent = do ls ← sources_of table r; fragments_of table hd start cluster ls
    if is_folder r then ok [] else sent

  abbrev own : Outcome (List AskedFile)
  own = do ls ← sources_of table r; located_of table hd start cluster ls

  abbrev async_own : Outcome (List (List ℕ))
  async_own = do ls ← sources_of table r; fragments_of table hd start cluster ls

  own-async_own :
      (sent : List AskedFile)
      → own ≡ ok sent
      → (ds : List (List ℕ)) × (async_own ≡ ok ds) × (contents sent ≡ joined ds)
  own-async_own sent e = >>=-parts (sources_of table r) _ sent e λ ls e3 h3.
      let (ds, e4, c) = located_of-fragments_of table hd start cluster whole ls sent h3 in
      (ds, >>=-ok (sources_of table r) (fragments_of table hd start cluster) e3 ∙ e4, c)

  files_of-sends :
      (fs : List AskedFile)
      → files_of table hd start cluster (r ∷ []) ≡ ok fs
      → (ds : List (List ℕ)) × (sends ≡ ok ds) × (contents fs ≡ joined ds)
  unfolding files_of
  files_of-sends fs h = >>=-parts (get_fname table r) _ fs h λ name e1 h1.
      >>=-parts (if is_folder r then ok [] else own) _ fs h1 λ sent e2 h2.
        let (ds, e5, c) = unless (is_folder r) own async_own sent (own-async_own sent) e2 in
        (ds, rw e1 e5, ap contents (sym (ok-inverse h2)) ∙ ap contents (append-nil sent) ∙ c)

-- On a partition whose volume has clusters of a size other than zero: when Worker sends the files of
-- one record, AsyncWorker sends fragments for the record that are, one behind the other, the contents
-- of these files: nothing for a folder, and the parts of all linked records, in their order, for a
-- record with links.
pub worker-async_worker :
    (table : Records) (d : Disk) (r : Record) (number : ℕ) (p : DiskPartition) (v : Volume)
    (fs : List AskedFile)
    → get_elem? d.partitions number ≡ some p
    → p.volume ≡ some v
    → is_zero_ℤ (cluster_bytes v) ≡ false
    → worker table d (r ∷ []) number ≡ ok fs
    → (ds : List (List ℕ)) × (async_worker table d r number ≡ ok ds)
      × (joined (map (λ f. f.content) fs) ≡ joined ds)
unfolding worker async_worker
worker-async_worker table d r number p v fs e1 e2 whole h =
    let (ds, e3, c) =
      files_of-sends table d.handler (partition_start p v) (cluster_bytes v) r whole fs
        (rw (e1, e2) at h) in
    (ds, rw (e1, e2) e3, c)
