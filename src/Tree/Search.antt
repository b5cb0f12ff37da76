-- ===== src/Tree/Search.antt =====
-- Searching by ranges finds what a search of the whole tree finds.
use mftextractor.Base.{
  ℕ, ◌%◌, ◌^◌, ◌<◌, ◌≡◌, refl, sym, ap, ◌∙◌, ◌⊎◌, inl, inr, Bool, true, false, not, ◌&&◌, ◌||◌,
  Option, none, some, List, [], ◌∷◌, ltb, leb, if◌then◌else◌, Bool-cases, arith,
}
use mftextractor.Go.Outcome.{
  ok, or_panic, ◌>>=◌, Returns, >>=-Returns, if-Returns, Returns-ok, if-false, if-true,
}
use mftextractor.Go.Text.{codes}
use mftextractor.Attributes.Attribute.{Attribute, as_fn}
use mftextractor.Attributes.Fields.{FnAttribute}
use mftextractor.Mft.Record.{Record, find_attribute, is_folder}
use mftextractor.Tree.{
  Node, Nodes, node, nil, cons, append_node, contains, leaf, widen, is_parent, insert, insert_nodes,
  insert_record, add_record, build,
}
use mftextractor.Tree.Ranges.{
  Within, WithinAll, AreRanged, IsRanged, if-elim, append_node-AreRanged, insert_nodes-AreRanged,
}
use native.Mathlib.Nat.{mod-eq_of_lt}

pair-eq {ℓ κ} :
    {A : Type ℓ} {B : Type κ} {a a' : A} {b b' : B}
    → a ≡ a'
    → b ≡ b'
    → ◌≡◌ {A = A × B} (a, b) (a', b')
pair-eq p q = cc (p, q)

abbrev pub children : Node → Nodes
children (node r cs lo hi) = cs

IsRanged-children : (n : Node) → IsRanged n → AreRanged (children n)
unfolding IsRanged
IsRanged-children (node r cs l h) (w, ws) = ws

module _ (f : FnAttribute) (x : Record) where
  -- insert with no look at the ranges.
  unfoldable mutual
    pub insert_all : Node → Node × Bool
    insert_all (node r cs lo hi) =
        let here = widen true r (append_node cs (leaf x)) lo hi x.entry in
        let below = (let (cs', added) = insert_all_nodes cs in widen added r cs' lo hi x.entry) in
        if not (is_folder r)
        then (node r cs lo hi, false)
        else if is_parent r f
        then here
        else below

    pub insert_all_nodes : Nodes → Nodes × Bool
    insert_all_nodes nil = (nil, false)
    insert_all_nodes (cons c cs) =
        let (c', added) = insert_all c in
        let (cs', more) = insert_all_nodes cs in (cons c' cs', added || more)

  abbrev Outside : ℕ → ℕ → Type 0
  Outside lo hi = (f.par_ref < lo) ⊎ (hi < f.par_ref)

  mutual
    unfolding insert_all Within

    -- Where the parent lies outside the bounds of a node, nothing is added below it.
    insert_all-Outside :
        (lo hi : ℕ) (n : Node) → Within lo hi n → Outside lo hi → insert_all n ≡ (n, false)
    insert_all-Outside lo hi (node r cs l h) (a, b, w) o =
        let P : Node × Bool → Type 0 = λ n. n ≡ (node r cs l h, false) in
        if-elim P (not (is_folder r)) _ _ refl (
          if-false (is_parent r f) _ _ (ground arith)
          ∙ ap (λ (d : Nodes × Bool). widen d.1 r d.0 l h x.entry)
              (insert_all_nodes-Outside lo hi cs w o))

    insert_all_nodes-Outside :
        (lo hi : ℕ) (cs : Nodes)
        → WithinAll lo hi cs
        → Outside lo hi
        → insert_all_nodes cs ≡ (cs, false)
    insert_all_nodes-Outside lo hi nil w o = refl
    insert_all_nodes-Outside lo hi (cons c cs) (w, ws) o =
        cc (insert_all-Outside lo hi c w o, insert_all_nodes-Outside lo hi cs ws o)

  child_outside :
      (c : Node)
      → IsRanged c
      → f.par_ref < 2 ^ 32
      → contains c (f.par_ref % 2 ^ 32) ≡ false
      → insert_all c ≡ (c, false)
  unfolding IsRanged
  child_outside (node r cs l h) (w, ws) p e =
      insert_all-Outside l h (node r cs l h) w (outside (rw (mod-eq_of_lt p) at e))
    where
      outside : (leb l f.par_ref && leb f.par_ref h) ≡ false → Outside l h
      outside k = ground arith

  module _ (small : f.par_ref < 2 ^ 32) where
    -- One child: it is searched, or the search would find nothing.
    child-eq_ranged :
        (c : Node)
        → IsRanged c
        → insert f x c ≡ insert_all c
        → (if contains c (f.par_ref % 2 ^ 32) then insert f x c else (c, false)) ≡ insert_all c
    child-eq_ranged c w same = elim (Bool-cases (contains c (f.par_ref % 2 ^ 32))) [
      | inl e ↦ if-true _ _ _ e ∙ same
      | inr e ↦ if-false _ _ _ e ∙ sym (child_outside c w small e)
    ]

    mutual
      unfolding insert insert_all IsRanged

      insert-eq_ranged : (n : Node) → AreRanged (children n) → insert f x n ≡ insert_all n
      insert-eq_ranged (node r cs l h) ws =
          ap
            (λ (d : Nodes × Bool).
              if not (is_folder r)
              then (node r cs l h, false)
              else if is_parent r f
              then widen true r (append_node cs (leaf x)) l h x.entry
              else widen d.1 r d.0 l h x.entry)
            (insert_nodes-eq_ranged cs ws)

      insert_nodes-eq_ranged :
          (cs : Nodes) → AreRanged cs → insert_nodes f x cs ≡ insert_all_nodes cs
      insert_nodes-eq_ranged nil w = refl
      insert_nodes-eq_ranged (cons c cs) (w, ws) =
          ap (λ (d : (Node × Bool) × (Nodes × Bool)). (cons d.0.0 d.1.0, d.0.1 || d.1.1))
            (pair-eq (child-eq_ranged c w (insert-eq_ranged c (IsRanged-children c w)))
              (insert_nodes-eq_ranged cs ws))

-- The root's range does not bound its entries, but the ranges below it do.
abbrev pub IsRooted : Option Node → Type 0
IsRooted none = Unit
IsRooted (some t) = AreRanged (children t)

insert-AreRanged :
    (f : FnAttribute) (x : Record) (n : Node)
    → AreRanged (children n)
    → AreRanged (children (insert f x n).0)
unfolding insert
insert-AreRanged f x (node r cs l h) ws =
    let P : Node × Bool → Type 0 = λ n. AreRanged (children n.0) in
    if-elim P (not (is_folder r)) _ _ ws (
      if-elim P (is_parent r f) _ _ (append_node-AreRanged cs x ws) (
        widen-children (insert_nodes f x cs).1 r (insert_nodes f x cs).0 l h
          (insert_nodes-AreRanged f x cs ws)))
  where
    widen-children :
        (added : Bool) (r : Record) (cs : Nodes) (l h : ℕ)
        → AreRanged cs
        → AreRanged (children (widen added r cs l h x.entry).0)
    widen-children true r cs l h ws = ws
    widen-children false r cs l h ws = ws

insert_record-IsRooted :
    (t : Node) (x : Record)
    → AreRanged (children t)
    → Returns (λ n. AreRanged (children n)) (insert_record t x)
unfolding insert_record
insert_record-IsRooted (node r cs l h) x ws =
    let P : Node → Type 0 = λ n. AreRanged (children n) in
    if-Returns P (not (is_folder r)) _ _ (λ _. ws)
      (λ _. named (find_attribute x (codes "FileName")))
  where
    named :
        (o : Option Attribute)
        → Returns
            (λ n. AreRanged (children n))
            (elim o [
              | none ↦ ok (node r cs l h)
              | some a ↦ (do f ← or_panic (as_fn a.content); ok (insert f x (node r cs l h)).0)
            ])
    named none = ws
    named (some a) =
        >>=-Returns (λ n. AreRanged (children n)) (or_panic (as_fn a.content)) _
          (λ f _. insert-AreRanged f x (node r cs l h) ws)

add_record-IsRooted :
    (t : Option Node) (x : Record) → IsRooted t → Returns IsRooted (add_record t x)
unfolding add_record AreRanged
add_record-IsRooted none x w = tt
add_record-IsRooted (some t) x w = >>=-Returns IsRooted (insert_record t x) _ (λ t' e.
    Returns-ok (λ n. AreRanged (children n)) (insert_record t x) t' (insert_record-IsRooted t x w)
      e)

build-IsRooted : (xs : List Record) (t : Option Node) → IsRooted t → Returns IsRooted (build xs t)
unfolding build
build-IsRooted [] t w = w
build-IsRooted (x ∷ xs) t w =
    if-Returns IsRooted (ltb x.entry 5) _ _ (λ _. build-IsRooted xs t w)
      (λ _. >>=-Returns IsRooted (add_record t x) _ (λ t' e.
        build-IsRooted xs t'
          (Returns-ok IsRooted (add_record t x) t' (add_record-IsRooted t x w) e)))

-- In a tree that Build has made from no tree, insert, which looks only below the children whose
-- range contains the parent's entry, does what a search of the whole tree does: for a record with
-- any first name whose parent reference is below 2 ^ 32 it makes the same tree and gives the same
-- answer.
pub build-insert :
    (xs : List Record) (t : Node) (f : FnAttribute) (x : Record)
    → build xs none ≡ ok (some t)
    → f.par_ref < 2 ^ 32
    → insert f x t ≡ insert_all f x t
build-insert xs t f x e small =
    insert-eq_ranged f x small t
      (Returns-ok IsRooted (build xs none) (some t) (build-IsRooted xs none tt) e)
