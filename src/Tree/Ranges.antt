-- ===== src/Tree/Ranges.antt =====
-- The ranges of the tree: below every child of a node, all entries lie in the child's range.
use mftextractor.Base.{
  ℕ, ◌≤◌, ◌≡◌, ◌^◌, arith, ◌%◌, refl, ap, Bool, true, false, not, ◌||◌, if◌then◌else◌,
}
use mftextractor.Attributes.Fields.{FnAttribute}
use mftextractor.Mft.Record.{Record, is_folder}
use mftextractor.Tree.{
  Node, Nodes, node, nil, cons, append_node, contains, lower, higher, leaf, widen, insert,
  insert_nodes, is_parent,
}

-- Every entry at and below a node lies between the two numbers.
unfoldable mutual
  pub Within : ℕ → ℕ → Node → Type 0
  Within lo hi (node r cs l h) = (lo ≤ r.entry) × (r.entry ≤ hi) × WithinAll lo hi cs

  pub WithinAll : ℕ → ℕ → Nodes → Type 0
  WithinAll lo hi nil = Unit {0}
  WithinAll lo hi (cons c cs) = Within lo hi c × WithinAll lo hi cs

-- Each of the nodes, and all below them, has its entries in its own range.
unfoldable mutual
  pub IsRanged : Node → Type 0
  IsRanged (node r cs lo hi) = Within lo hi (node r cs lo hi) × AreRanged cs

  pub AreRanged : Nodes → Type 0
  AreRanged nil = Unit {0}
  AreRanged (cons c cs) = IsRanged c × AreRanged cs

mutual
  unfolding Within

  Within-wider :
      (lo hi lo' hi' : ℕ) (n : Node) → lo' ≤ lo → hi ≤ hi' → Within lo hi n → Within lo' hi' n
  Within-wider lo hi lo' hi' (node r cs l h) p q (a, b, w) =
      (omega arith, omega arith, WithinAll-wider lo hi lo' hi' cs p q w)

  WithinAll-wider :
      (lo hi lo' hi' : ℕ) (ns : Nodes)
      → lo' ≤ lo
      → hi ≤ hi'
      → WithinAll lo hi ns
      → WithinAll lo' hi' ns
  WithinAll-wider lo hi lo' hi' nil p q w = tt
  WithinAll-wider lo hi lo' hi' (cons c cs) p q (w, ws) =
      (Within-wider lo hi lo' hi' c p q w, WithinAll-wider lo hi lo' hi' cs p q ws)

append_node-WithinAll :
    (lo hi : ℕ) (cs : Nodes) (x : Record)
    → WithinAll lo hi cs
    → lo ≤ x.entry
    → x.entry ≤ hi
    → WithinAll lo hi (append_node cs (leaf x))
unfolding Within append_node
append_node-WithinAll lo hi nil x w p q = ((p, q, tt), tt)
append_node-WithinAll lo hi (cons c cs) x (w, ws) p q = (w, append_node-WithinAll lo hi cs x ws p q)

pub append_node-AreRanged :
    (cs : Nodes) (x : Record) → AreRanged cs → AreRanged (append_node cs (leaf x))
unfolding IsRanged Within append_node
append_node-AreRanged nil x w = (((omega arith, omega arith, tt), tt), tt)
append_node-AreRanged (cons c cs) x (w, ws) = (w, append_node-AreRanged cs x ws)

-- A property of both branches.
pub if-elim {ℓ κ} :
    {A : Type ℓ} (P : A → Type κ) (b : Bool) (x y : A) → P x → P y → P (if b then x else y)
if-elim P true x y p q = p
if-elim P false x y p q = q

widen-unchanged :
    (added : Bool) (r : Record) (ds cs : Nodes) (l h e : ℕ)
    → (added ≡ false → ds ≡ cs)
    → (widen added r ds l h e).1 ≡ false
    → (widen added r ds l h e).0 ≡ node r cs l h
widen-unchanged true r ds cs l h e u k = cc
widen-unchanged false r ds cs l h e u k = ap (λ d. node r d l h) (u refl)

or-false : (a b : Bool) → (a || b) ≡ false → (a ≡ false) × (b ≡ false)
or-false true b e = cc
or-false false b e = (refl, e)

-- A node with new children that has been widened, or left alone.
widen-Within :
    (added : Bool) (r : Record) (cs : Nodes) (l h e lo hi : ℕ)
    → lo ≤ r.entry
    → r.entry ≤ hi
    → WithinAll lo hi cs
    → Within lo hi (widen added r cs l h e).0
unfolding Within
widen-Within true r cs l h e lo hi p q w = (p, q, w)
widen-Within false r cs l h e lo hi p q w = (p, q, w)

module _ (f : FnAttribute) (x : Record) where
  mutual
    unfolding insert

    -- Where nothing is added, nothing changes.
    insert-unchanged : (n : Node) → (insert f x n).1 ≡ false → (insert f x n).0 ≡ n
    insert-unchanged (node r cs l h) e =
        let P : Node × Bool → Type 0 = λ n. n.1 ≡ false → n.0 ≡ node r cs l h in
        if-elim P (not (is_folder r)) _ _ (λ _. refl)
          (if-elim P (is_parent r f) _ _ (λ k. cc)
            (widen-unchanged (insert_nodes f x cs).1 r (insert_nodes f x cs).0 cs l h x.entry
              (λ k. insert_nodes-unchanged cs k)))
          e

    insert_nodes-unchanged :
        (cs : Nodes) → (insert_nodes f x cs).1 ≡ false → (insert_nodes f x cs).0 ≡ cs
    insert_nodes-unchanged nil e = refl
    insert_nodes-unchanged (cons c cs) e =
        let P : Node × Bool → Type 0 = λ n. n.1 ≡ false → n.0 ≡ c in
        let (none_here, none_behind) = or-false _ _ e in
        let same =
          if-elim P (contains c (f.par_ref % 2 ^ 32)) _ _ (λ k. insert-unchanged c k) (λ _. refl)
            none_here in
        cc (same, insert_nodes-unchanged cs none_behind)

  mutual
    unfolding insert Within

    -- Adding a record to a node keeps the entries between bounds that hold the record's entry.
    insert-Within :
        (lo hi : ℕ) (n : Node)
        → lo ≤ x.entry
        → x.entry ≤ hi
        → Within lo hi n
        → Within lo hi (insert f x n).0
    insert-Within lo hi (node r cs l h) p q (a, b, w) =
        let P : Node × Bool → Type 0 = λ n. Within lo hi n.0 in
        if-elim P (not (is_folder r)) _ _ (a, b, w)
          (if-elim P (is_parent r f) _ _ (a, b, append_node-WithinAll lo hi cs x w p q)
            (widen-Within (insert_nodes f x cs).1 r (insert_nodes f x cs).0 l h x.entry lo hi a b
              (insert_nodes-WithinAll lo hi cs p q w)))

    insert_nodes-WithinAll :
        (lo hi : ℕ) (cs : Nodes)
        → lo ≤ x.entry
        → x.entry ≤ hi
        → WithinAll lo hi cs
        → WithinAll lo hi (insert_nodes f x cs).0
    insert_nodes-WithinAll lo hi nil p q w = tt
    insert_nodes-WithinAll lo hi (cons c cs) p q (w, ws) = (
      if-elim {A = Node × Bool} (λ n. Within lo hi n.0) (contains c (f.par_ref % 2 ^ 32)) _ _
          (insert-Within lo hi c p q w) w,
      insert_nodes-WithinAll lo hi cs p q ws,
    )

  -- A widened node is in its own range, given that its children were.
  widen-IsRanged :
      (added : Bool) (r : Record) (ds cs : Nodes) (l h : ℕ)
      → IsRanged (node r cs l h)
      → (added ≡ false → ds ≡ cs)
      → AreRanged ds
      → WithinAll (lower l x.entry) (higher h x.entry) ds
      → IsRanged (widen added r ds l h x.entry).0
  unfolding IsRanged Within
  widen-IsRanged true r ds cs l h ((a, b, w), ws) u k m = ((ground arith, ground arith, m), k)
  widen-IsRanged false r ds cs l h (w, ws) u k m = rw (u refl) (w, ws)

  mutual
    unfolding insert IsRanged Within

    insert-IsRanged : (n : Node) → IsRanged n → IsRanged (insert f x n).0
    insert-IsRanged (node r cs l h) ((a, b, w), ws) =
        let P : Node × Bool → Type 0 = λ n. IsRanged n.0 in
        let wider =
          WithinAll-wider l h (lower l x.entry) (higher h x.entry) cs (ground arith) (ground arith)
            w in
        let low : lower l x.entry ≤ x.entry = ground arith in
        let high : x.entry ≤ higher h x.entry = ground arith in
        if-elim P (not (is_folder r)) _ _ ((a, b, w), ws)
          (if-elim P (is_parent r f) _ _
            (
              (
                ground arith,
                ground arith,
                append_node-WithinAll (lower l x.entry) (higher h x.entry) cs x wider low high,
              ),
              append_node-AreRanged cs x ws,
            )
            (widen-IsRanged (insert_nodes f x cs).1 r (insert_nodes f x cs).0 cs l h ((a, b, w), ws)
              (λ k. insert_nodes-unchanged cs k) (insert_nodes-AreRanged cs ws)
              (insert_nodes-WithinAll (lower l x.entry) (higher h x.entry) cs low high wider)))

    pub insert_nodes-AreRanged : (cs : Nodes) → AreRanged cs → AreRanged (insert_nodes f x cs).0
    insert_nodes-AreRanged nil w = tt
    insert_nodes-AreRanged (cons c cs) (w, ws) = (
      if-elim {A = Node × Bool} (λ n. IsRanged n.0) (contains c (f.par_ref % 2 ^ 32)) _ _
          (insert-IsRanged c w) w,
      insert_nodes-AreRanged cs ws,
    )
