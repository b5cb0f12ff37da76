-- ===== src/Mft/Table/Lookup.antt =====
-- GetRecord: what it finds, and when it panics.
use mftextractor.Base.{
  ℕ, ◌+◌, ◌%◌, ◌^◌, ◌≤◌, ◌<◌, ◌≡◌, ◌≢◌, refl, subst, ap, ◌∙◌, ◌↔◌, ◌⊎◌, inl, inr, false, Option,
  none, some, List, [], ◌∷◌, ltb, ltb→lt, lt→ltb, ltb→le, length, get_elem?, Bool-cases, All, arith,
  ◌==◌, ==→eq, ==→ne,
}
use mftextractor.Go.Outcome.{Outcome, ok, panic, if-true}
use mftextractor.Mft.Record.{Record}
use mftextractor.Mft.Table.{Records, seq_distance, check_record, search_from, get_record}

pub elem_in_range {ℓ} :
    {A : Type ℓ} (xs : List A) (i : ℕ) → i < length xs → (x : A) × (get_elem? xs i ≡ some x)
elem_in_range [] i h = elim h [ ]
elem_in_range (x ∷ xs) ℕ.zero h = (x, refl)
elem_in_range (x ∷ xs) (ℕ.suc i) h = elem_in_range xs i (omega arith)

-- The record that a reference means: it stands at its own entry, and its sequence number is that of
-- the reference or the next one, as numbers of 16 bits.
pub record IsReferenced (rs : Records) (ref_entry ref_seq : ℕ) (r : Record) : Type 0 where
  pub at_entry : get_elem? rs ref_entry ≡ some r
  pub same_entry : r.entry ≡ ref_entry
  pub near_seq : (r.seq ≡ ref_seq) ⊎ (r.seq ≡ (ref_seq + 1) % 2 ^ 16)

-- The field Seq is a uint16.
abbrev pub HasSeq : Record → Type 0
HasSeq r = r.seq < 2 ^ 16

-- Some record has the entry, at whatever place.
abbrev pub HasEntry : Records → ℕ → Type 0
HasEntry rs e = (i : ℕ) × (r : Record) × (get_elem? rs i ≡ some r) × (r.entry ≡ e)

seq_distance-near :
    (r : Record) (s : ℕ)
    → HasSeq r
    → s < 2 ^ 16
    → seq_distance r s ≤ 1
    → (r.seq ≡ s) ⊎ (r.seq ≡ (s + 1) % 2 ^ 16)
seq_distance-near r s h k l = elim (Bool-cases (r.seq == s)) [
  | inl same ↦ inl (==→eq r.seq s same)
  | inr other ↦ inr (omega (arith, ==→ne r.seq s other))
]

near-seq_distance :
    (r : Record) (s : ℕ)
    → s < 2 ^ 16
    → (r.seq ≡ s) ⊎ (r.seq ≡ (s + 1) % 2 ^ 16)
    → seq_distance r s ≤ 1
near-seq_distance r s k (inl e) = omega arith
near-seq_distance r s k (inr e) = omega arith

some-injective {ℓ} : {A : Type ℓ} {a b : A} → some a ≡ some b → a ≡ b
some-injective e = cc

beyond-none {ℓ} : {A : Type ℓ} (xs : List A) (i : ℕ) → length xs ≤ i → get_elem? xs i ≡ none
beyond-none [] i h = refl
beyond-none (x ∷ xs) ℕ.zero h = absurd (omega arith)
beyond-none (x ∷ xs) (ℕ.suc i) h = beyond-none xs i (omega arith)

-- How the search ends where the referenced entry is behind the table.
data SearchEnds (xs : Records) (e : ℕ) (o : Outcome (Option ℕ)) : Type 0 where
  met : HasEntry xs e → o ≡ panic → SearchEnds xs e o
  missed : ¬ HasEntry xs e → o ≡ ok none → SearchEnds xs e o

search_from-beyond :
    (rs xs : Records) (idx e s : ℕ)
    → get_elem? rs e ≡ none
    → SearchEnds xs e (search_from rs idx xs e s)
unfolding search_from
search_from-beyond rs [] idx e s h = missed (λ (i, r, g, _). absurd cc) refl
search_from-beyond rs (x ∷ xs) idx e s h = elim (Bool-cases (x.entry == e)) [
  | inl same ↦ met (0, x, refl, ==→eq x.entry e same) (rw (same, h))
  | inr other ↦ elim (search_from-beyond rs xs (ℕ.suc idx) e s h) [
    | met (i, r, g, f) p ↦ met (ℕ.suc i, r, g, f) (rw other p)
    | missed n p ↦ missed (not_here n (==→ne x.entry e other)) (rw other p)
  ]
]
  where
    not_here : ¬ HasEntry xs e → x.entry ≢ e → ¬ HasEntry (x ∷ xs) e
    not_here n d (ℕ.zero, r, g, f) = d (ap (λ (q : Record). q.entry) (some-injective g) ∙ f)
    not_here n d (ℕ.suc i, r, g, f) = n (i, r, g, f)

get_record-direct :
    (rs : Records) (e s : ℕ) (r : Record)
    → get_elem? rs e ≡ some r
    → e < length rs
    → get_record rs e s ≡ ok (check_record r e s)
unfolding get_record
get_record-direct rs e s r g h = if-true (ltb e (length rs)) _ _ (lt→ltb e (length rs) h) ∙ rw g

get_record-beyond :
    (rs : Records) (e s : ℕ) → ltb e (length rs) ≡ false → SearchEnds rs e (get_record rs e s)
unfolding get_record
get_record-beyond rs e s h =
    rw h (search_from-beyond rs rs 0 e s (beyond-none rs e (omega (arith, ltb→le e (length rs) h))))

elem_below {ℓ} :
    {A : Type ℓ} (xs : List A) (i : ℕ) (x : A) → get_elem? xs i ≡ some x → i < length xs
elem_below [] i x h = cc
elem_below (y ∷ xs) ℕ.zero x h = omega arith
elem_below (y ∷ xs) (ℕ.suc i) x h = omega (arith, elem_below xs i x h)

All-get {ℓ κ} :
    {A : Type ℓ} (P : A → Type κ) (xs : List A) (i : ℕ) (x : A)
    → All P xs
    → get_elem? xs i ≡ some x
    → P x
All-get P [] i x h g = absurd cc
All-get P (y ∷ ys) ℕ.zero x (h, hs) g = subst P (some-injective g) h
All-get P (y ∷ ys) (ℕ.suc i) x (h, hs) g = All-get P ys i x hs g

checked :
    (rs : Records) (e s i : ℕ) (r : Record)
    → HasSeq r
    → s < 2 ^ 16
    → get_elem? rs e ≡ some r
    → check_record r e s ≡ some i
    → (i ≡ e) × ((q : Record) × IsReferenced rs e s q)
checked rs e s i r w l g h = (
  ground arith,
  (
    r,
    record {
      at_entry = g;
      same_entry = ground arith;
      near_seq = seq_distance-near r s w l (ground arith);
    },
  ),
)

-- On a table of records with 16-bit sequence numbers, and for a reference with such a number, GetRecord
-- returns a record exactly if the reference means one, that is if the record at the referenced place
-- has that entry and its sequence number is the referenced one or, with wrap-around, the next one.
-- What it returns is then the index of that place: the search behind the table never returns a record.
pub get_record-some :
    (rs : Records) (e s i : ℕ)
    → All HasSeq rs
    → s < 2 ^ 16
    → (get_record rs e s ≡ ok (some i)) ↔ ((i ≡ e) × ((r : Record) × IsReferenced rs e s r))
get_record-some rs e s i w l = (found, back)
  where
    found : get_record rs e s ≡ ok (some i) → (i ≡ e) × ((r : Record) × IsReferenced rs e s r)
    found h = elim (Bool-cases (ltb e (length rs))) [
      | inl inside ↦
          let (r, g) = elem_in_range rs e (ltb→lt e (length rs) inside) in
          checked rs e s i r (All-get HasSeq rs e r w g) l g
            (cc (get_record-direct rs e s r g (ltb→lt e (length rs) inside)))
      | inr beyond ↦ elim (get_record-beyond rs e s beyond) [
        | met _ p ↦ absurd cc
        | missed _ p ↦ absurd cc
      ]
    ]

    back : (i ≡ e) × ((r : Record) × IsReferenced rs e s r) → get_record rs e s ≡ ok (some i)
    back (j, (r, f)) =
        let near = near-seq_distance r s l f.near_seq in
        get_record-direct rs e s r f.at_entry (elem_below rs e r f.at_entry)
        ∙ ground (arith, near, f.same_entry)

-- GetRecord panics exactly if the referenced entry lies behind the end of the table and a record at
-- some place has that entry: the record that the search is meant to find makes it fail.
pub get_record-panic :
    (rs : Records) (e s : ℕ) → (get_record rs e s ≡ panic) ↔ ((length rs ≤ e) × HasEntry rs e)
get_record-panic rs e s = (panics, back)
  where
    panics : get_record rs e s ≡ panic → (length rs ≤ e) × HasEntry rs e
    panics h = elim (Bool-cases (ltb e (length rs))) [
      | inl inside ↦
          let (r, g) = elem_in_range rs e (ltb→lt e (length rs) inside) in
          absurd (cc (get_record-direct rs e s r g (ltb→lt e (length rs) inside)))
      | inr beyond ↦ elim (get_record-beyond rs e s beyond) [
        | met f p ↦ (ltb→le e (length rs) beyond, f)
        | missed _ p ↦ absurd cc
      ]
    ]

    back : (length rs ≤ e) × HasEntry rs e → get_record rs e s ≡ panic
    back (l, h) = elim (get_record-beyond rs e s (ground arith)) [
      | met _ p ↦ p
      | missed n p ↦ absurd (n h)
    ]
