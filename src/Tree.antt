-- ===== src/Tree.antt =====
-- tree/builder.go: the records as a tree of folders. A node's pointer to its parent is the path by
-- which the functions below reach it: what the source does through the pointer is done on the way
-- back.
pub mod Ranges
pub mod Search
use mftextractor.Base.{
  ℕ, ◌+◌, ◌-◌, ◌%◌, ◌^◌, Bool, true, false, not, ◌&&◌, ◌||◌, Option, none, some, List, [], ◌∷◌, ltb,
  leb, ◌==◌, if◌then◌else◌,
}
use mftextractor.Go.Outcome.{Outcome, ok, or_panic, ◌>>=◌}
use mftextractor.Go.Text.{codes}
use mftextractor.Attributes.Attribute.{as_fn}
use mftextractor.Attributes.Fields.{FnAttribute}
use mftextractor.Mft.Record.{Record, find_attribute, is_folder}

-- Node: the record, the children, MinChildEntry and MaxChildEntry.
mutual
  pub data Node : Type 0 where
    node : Record → Nodes → ℕ → ℕ → Node

  pub data Nodes : Type 0 where
    nil : Nodes
    cons : Node → Nodes → Nodes

-- append(node.children, child)
unfoldable pub append_node : Nodes → Node → Nodes
append_node nil c = cons c nil
append_node (cons d ds) c = cons d (append_node ds c)

-- contains
abbrev pub contains : Node → ℕ → Bool
contains (node r cs lo hi) entry = leb lo entry && leb entry hi

abbrev pub lower : ℕ → ℕ → ℕ
lower lo entry = if ltb entry lo then entry else lo

abbrev pub higher : ℕ → ℕ → ℕ
higher hi entry = if ltb hi entry then entry else hi

-- The test that the record behind the name `f` is a child of `r`.
abbrev pub is_parent : Record → FnAttribute → Bool
is_parent r f = r.entry == f.par_ref && ltb ((r.seq + 2 ^ 16 - f.par_seq) % 2 ^ 16) 2

-- childNode
abbrev pub leaf : Record → Node
leaf x = node x nil x.entry x.entry

-- One round of updateEntryRange, at a node below which a record was added.
abbrev pub widen : Bool → Record → Nodes → ℕ → ℕ → ℕ → Node × Bool
widen true r cs lo hi entry = (node r cs (lower lo entry) (higher hi entry), true)
widen false r cs lo hi entry = (node r cs lo hi, false)

module _ (f : FnAttribute) (x : Record) where
  -- insert, of a record `x` whose first name is `f`: the node, and whether `x` was added at or below
  -- it. Only the children whose range contains the parent are searched.
  unfoldable mutual
    pub insert : Node → Node × Bool
    insert (node r cs lo hi) =
        let here = widen true r (append_node cs (leaf x)) lo hi x.entry in
        let below = (let (cs', added) = insert_nodes cs in widen added r cs' lo hi x.entry) in
        if not (is_folder r)
        then (node r cs lo hi, false)
        else if is_parent r f
        then here
        else below

    pub insert_nodes : Nodes → Nodes × Bool
    insert_nodes nil = (nil, false)
    insert_nodes (cons c cs) =
        let searched = insert c in
        let (c', added) = if contains c (f.par_ref % 2 ^ 32) then searched else (c, false) in
        let (cs', more) = insert_nodes cs in (cons c' cs', added || more)

-- insert on the root: a record with no name is not added.
unfoldable pub insert_record : Node → Record → Outcome Node
insert_record (node r cs lo hi) x =
    let named : Outcome Node = elim (find_attribute x (codes "FileName")) [
      | none ↦ ok (node r cs lo hi)
      | some a ↦ (do f ← or_panic (as_fn a.content); ok (insert f x (node r cs lo hi)).0)
    ] in
    if not (is_folder r) then ok (node r cs lo hi) else named

-- AddRecord: the first record becomes the root.
unfoldable pub add_record : Option Node → Record → Outcome (Option Node)
add_record none x = ok (some (node x nil 0 0))
add_record (some t) x = do t' ← insert_record t x; ok (some t')

-- Build, from a tree that may have a root.
unfoldable pub build : List Record → Option Node → Outcome (Option Node)
build [] t = ok t
build (x ∷ xs) t =
    let skip = build xs t in
    let next = do t' ← add_record t x; build xs t'
    in if ltb x.entry 5 then skip else next
