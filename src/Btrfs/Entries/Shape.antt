-- ===== src/Btrfs/Entries/Shape.antt =====
-- Lists of entries that differ in nothing but the paths.
use mftextractor.Base.{
  ℕ, ◌<◌, ◌≡◌, sym, ap, subst, ◌∙◌, Option, some, List, ◌∷◌, length, length-set, get_elem?, set,
  get_elem?-set_self, get_elem?-set_ne, All, arith, ◌==◌, ==→eq, ==→ne, Bool-cases, inl, inr,
}
use mftextractor.Go.Text.{GoString}
use mftextractor.Btrfs.Entries.{FileDirEntry}
use mftextractor.Btrfs.Entries.Paths.{
  IsPathTo, root, below, Precedes, ParentsFirst, elem_at, elem-length,
}

-- Children stand in the list behind their parent, so that no entry is among its own descendants.
abbrev pub Behind : ℕ → ℕ → List ℕ → Type 0
Behind n i cs = All (λ c. (i < c) × (c < n)) cs

abbrev pub ChildrenBehind : List FileDirEntry → Type 0
ChildrenBehind es =
    (i : ℕ) (e : FileDirEntry) → get_elem? es i ≡ some e → Behind (length es) i e.children

-- The same entries, but for their paths.
pub record SameButPaths (es fs : List FileDirEntry) : Type 0 where
  pub same_length : length fs ≡ length es
  pub same_entries :
      (i : ℕ) (e : FileDirEntry)
      → get_elem? es i ≡ some e
      → (path : GoString) × (get_elem? fs i ≡ some (record e { path = path }))

-- The entries in front of `k`, which a call on entries from `k` on leaves alone.
abbrev pub KeptBelow : ℕ → List FileDirEntry → List FileDirEntry → Type 0
KeptBelow k es fs = (j : ℕ) → j < k → get_elem? fs j ≡ get_elem? es j

-- The entries that the calls on the entries `is` come to: these and their descendants.
pub data Reached (es : List FileDirEntry) : List ℕ → ℕ → Type 0 where
  first : (i : ℕ) (is : List ℕ) (e : FileDirEntry) → get_elem? es i ≡ some e → Reached es (i ∷ is) i
  inside :
      (i : ℕ) (is : List ℕ) (j : ℕ) (e : FileDirEntry)
      → get_elem? es i ≡ some e
      → Reached es e.children j
      → Reached es (i ∷ is) j
  later : (i : ℕ) (is : List ℕ) (j : ℕ) → Reached es is j → Reached es (i ∷ is) j

-- The path of the entry is the one by its parents, behind what it was before.
abbrev pub HasPath : List FileDirEntry → ℕ → Type 0
HasPath es j =
    (e : FileDirEntry) × (start : GoString) × (get_elem? es j ≡ some e)
    × IsPathTo es e.parent start e.path

pub some-injective {ℓ} : {A : Type ℓ} {a b : A} → some a ≡ some b → a ≡ b
some-injective h = cc

pub SameButPaths-trans :
    (es fs gs : List FileDirEntry) → SameButPaths es fs → SameButPaths fs gs → SameButPaths es gs
SameButPaths-trans es fs gs s t = record {
  same_length = t.same_length ∙ s.same_length;
  same_entries =
      λ i e h. let (p, g) = s.same_entries i e h in t.same_entries i (record e { path = p }) g;
}

pub SameButPaths-set :
    (es : List FileDirEntry) (i : ℕ) (e : FileDirEntry) (path : GoString)
    → get_elem? es i ≡ some e
    → SameButPaths es (set es i (record e { path = path }))
SameButPaths-set es i e path h = record { same_length = length-set es i _; same_entries = at }
  where
    at :
        (j : ℕ) (f : FileDirEntry)
        → get_elem? es j ≡ some f
        → (p : GoString) × (get_elem? (set es i (record e { path = path })) j
            ≡ some (record f { path = p }))
    at j f g = elim (Bool-cases (i == j)) [
      | inl same ↦
          let s = ==→eq i j same in
          let t : e ≡ f = some-injective (sym h ∙ ap (get_elem? es) s ∙ g) in
          (
            path,
            ap (get_elem? (set es i (record e { path = path }))) (sym s)
                ∙ get_elem?-set_self es i (record e { path = path }) (elem-length es i e h)
                ∙ ap (λ (x : FileDirEntry). some (record x { path = path })) t,
          )
      | inr other ↦
          (f.path, get_elem?-set_ne es i j (record e { path = path }) (==→ne i j other) ∙ g)
    ]

module _ (es fs : List FileDirEntry) (same : SameButPaths es fs) where
  -- An entry of the later list is one of the earlier list with another path.
  before :
      (i : ℕ) (f : FileDirEntry)
      → get_elem? fs i ≡ some f
      → (e : FileDirEntry) × (get_elem? es i ≡ some e) × (f ≡ record e { path = f.path })
  before i f g =
      let l = elem-length fs i f g in
      let (e, h) = elem_at es i (omega (arith, same.same_length, l)) in
      let (p, q) = same.same_entries i e h in
      let t : f ≡ record e { path = p } = some-injective (sym g ∙ q) in
      (
        e,
        h,
        t
            ∙ ap (λ (s : GoString). record e { path = s })
                (ap (λ (x : FileDirEntry). x.path) (sym t)),
      )

  pub ParentsFirst-same : ParentsFirst es → ParentsFirst fs
  ParentsFirst-same above i f g =
      let (e, h, t) = before i f g in
      subst (Precedes i) (ap (λ (x : FileDirEntry). x.parent) (sym t)) (above i e h)

  pub ChildrenBehind-same : ChildrenBehind es → ChildrenBehind fs
  ChildrenBehind-same behind i f g =
      let (e, h, t) = before i f g in
      subst (λ (n : ℕ). Behind n i f.children) (sym same.same_length)
        (subst (Behind (length es) i) (ap (λ (x : FileDirEntry). x.children) (sym t))
          (behind i e h))

  pub IsPathTo-same :
      (o : Option ℕ) (start path : GoString) → IsPathTo es o start path → IsPathTo fs o start path
  IsPathTo-same _ _ _ (root start) = root start
  IsPathTo-same _ _ _ (below {p} {e} {start} {path} h t) =
      let (q, g) = same.same_entries p e h in below g (IsPathTo-same e.parent start path t)

  pub Reached-same : (is : List ℕ) (j : ℕ) → Reached es is j → Reached fs is j
  Reached-same _ _ (first i is e h) =
      let (q, g) = same.same_entries i e h in first i is (record e { path = q }) g
  Reached-same _ _ (inside i is j e h t) =
      let (q, g) = same.same_entries i e h in
      inside i is j (record e { path = q }) g (Reached-same e.children j t)
  Reached-same _ _ (later i is j t) = later i is j (Reached-same is j t)

  pub HasPath-same : (j : ℕ) → get_elem? fs j ≡ get_elem? es j → HasPath es j → HasPath fs j
  HasPath-same j u (e, start, h, t) = (e, start, u ∙ h, IsPathTo-same e.parent start e.path t)
