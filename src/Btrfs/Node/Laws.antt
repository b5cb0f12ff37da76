-- ===== src/Btrfs/Node/Laws.antt =====
-- What GenericNode.Parse returns, and what FilterItemsById finds in it.
use mftextractor.Base.{
  ℕ, zero, suc, ◌+◌, ◌≡◌, ◌≢◌, refl, ap, sym, ◌∙◌, Bool, true, false, Option, none, some, List, [],
  ◌∷◌, ◌==◌, if◌then◌else◌, length, arith, map, ltb, ==→eq, ==→ne,
}
use mftextractor.Go.Outcome.{
  Outcome, ok, stuck, >>=-ne-stuck, ok-ne-stuck, if-ne-stuck, Returns, >>=-Returns, if-Returns,
  Returns-ok,
}
use mftextractor.Go.Slice.{Slice, slice_from}
use mftextractor.Utils.Unmarshal.{unmarshal}
use mftextractor.Btrfs.{parse_key, parse_struct}
use mftextractor.Btrfs.Items.Ends.{slice_from-ne-stuck, parse_struct-ne-stuck, parse_key-ne-stuck}
use mftextractor.Usn.Ends.{unmarshal-ne-stuck}
use mftextractor.Btrfs.Leaf.{Item, DataItem, LeafNode, parse_leaf}
use mftextractor.Btrfs.Leaf.Laws.{
  IsLeafOf, ReadsLeafOf, parse_leaf-ReadsLeafOf, parse_leaf-ne-stuck,
}
use mftextractor.Btrfs.Node.{
  Header, BlockPointer, GenericNode, tree_header_fields, tree_header_of, block_pointer_fields,
  parse_block_pointer, value_size, block_pointers_from, parse_internal, verify_chk_sum, parse_items,
  parse_node, with_id_from, filter_items_by_id,
}

-- A node with a header, and with the items that the header counts: as a leaf on level 0 and as
-- an internal node on every other level.
abbrev IsNodeOf : Header → Option LeafNode → Option (List BlockPointer) → Type 0
IsNodeOf h (some leaf) none = (h.level ≡ 0) × IsLeafOf h.nof_items leaf
IsNodeOf h none (some items) = (h.level ≢ 0) × (length items ≡ h.nof_items)
IsNodeOf h _ _ = ⊥

abbrev HasNode : Option Header → Option LeafNode → Option (List BlockPointer) → Type 0
HasNode none leaf items = ⊥
HasNode (some h) leaf items = IsNodeOf h leaf items

abbrev pub IsNode : GenericNode → Type 0
IsNode node = HasNode node.header node.leaf_node node.internal_node

abbrev HasPointers : ℕ → List BlockPointer × ℕ → Type 0
HasPointers n (items, end) = length items ≡ n

block_pointers_from-HasPointers :
    (left : ℕ) (s : Slice) (start : ℕ)
    → Returns (HasPointers left) (block_pointers_from left s start)
unfolding block_pointers_from
block_pointers_from-HasPointers zero s start = refl
block_pointers_from-HasPointers (suc left) s start =
    >>=-Returns (HasPointers (suc left)) (slice_from s start) _ λ part _.
      >>=-Returns (HasPointers (suc left)) (parse_block_pointer part) _ λ (item, n) _.
        >>=-Returns (HasPointers (suc left)) (block_pointers_from left s (start + n)) _ λ r e.
          ap suc (
            Returns-ok (HasPointers left) (block_pointers_from left s (start + n)) r
              (block_pointers_from-HasPointers left s (start + n)) e)

parse_block_pointer-ne-stuck : (s : Slice) → parse_block_pointer s ≢ stuck
unfolding parse_block_pointer
parse_block_pointer-ne-stuck s =
    if-ne-stuck (ltb s.len value_size) _ _ (λ _. ok-ne-stuck _)
      λ _. >>=-ne-stuck (parse_key s) _ (parse_key-ne-stuck s) λ (k, n) _.
        >>=-ne-stuck (unmarshal block_pointer_fields s) _
          (unmarshal-ne-stuck block_pointer_fields s) λ u _. ok-ne-stuck _

block_pointers_from-ne-stuck :
    (left : ℕ) (s : Slice) (start : ℕ) → block_pointers_from left s start ≢ stuck
unfolding block_pointers_from
block_pointers_from-ne-stuck zero s start = ok-ne-stuck _
block_pointers_from-ne-stuck (suc left) s start =
    >>=-ne-stuck (slice_from s start) _ (slice_from-ne-stuck s start) λ part _.
      >>=-ne-stuck (parse_block_pointer part) _ (parse_block_pointer-ne-stuck part) λ (item, n) _.
        >>=-ne-stuck (block_pointers_from left s (start + n)) _
          (block_pointers_from-ne-stuck left s (start + n)) λ (items, end) _. ok-ne-stuck _

-- The node that is returned, if one is.
abbrev pub IsParsed : Option (GenericNode × ℕ) → Type 0
IsParsed none = Unit
IsParsed (some (node, end)) = IsNode node

module _ (checksum : List ℕ → List ℕ → ℕ) where
  parse_items-IsParsed :
      (h : Header) (s : Slice) (offset : ℕ) → Returns IsParsed (parse_items checksum h s offset)
  unfolding parse_items
  parse_items-IsParsed h s offset =
      if-Returns IsParsed (h.level == 0) _ _
        (λ b. >>=-Returns IsParsed (slice_from s offset) _ λ rest _.
          >>=-Returns IsParsed (parse_leaf h.nof_items rest) _ λ r e. (
            ==→eq h.level 0 b,
            Returns-ok (ReadsLeafOf h.nof_items) (parse_leaf h.nof_items rest) r
                (parse_leaf-ReadsLeafOf h.nof_items rest) e,
          ))
        (λ b. >>=-Returns IsParsed (slice_from s offset) _ λ rest _.
          >>=-Returns IsParsed (parse_internal h.nof_items rest) _ λ r e. (
            ==→ne h.level 0 b,
            Returns-ok (HasPointers h.nof_items) (parse_internal h.nof_items rest) r
                (block_pointers_from-HasPointers h.nof_items rest 0) e,
          ))

  parse_items-ne-stuck :
      (h : Header) (s : Slice) (offset : ℕ) → parse_items checksum h s offset ≢ stuck
  unfolding parse_items
  parse_items-ne-stuck h s offset =
      if-ne-stuck (h.level == 0) _ _
        (λ b. >>=-ne-stuck (slice_from s offset) _ (slice_from-ne-stuck s offset) λ rest _.
          >>=-ne-stuck (parse_leaf h.nof_items rest) _ (parse_leaf-ne-stuck h.nof_items rest)
            λ (leaf, n) _. ok-ne-stuck _)
        (λ b. >>=-ne-stuck (slice_from s offset) _ (slice_from-ne-stuck s offset) λ rest _.
          >>=-ne-stuck (parse_internal h.nof_items rest) _
            (block_pointers_from-ne-stuck h.nof_items rest 0) λ (items, n) _. ok-ne-stuck _)

  -- What GenericNode.Parse returns, on whatever data and with either value of `noverify`, is its error
  -- or a node with a header that has exactly one of the two forms: on level 0 a leaf with as many items
  -- and as many data items as the header counts, on every other level an internal node with as
  -- many items.
  pub parse_node-IsNode :
      (s : Slice) (noverify : Bool) → Returns IsParsed (parse_node checksum s noverify)
  unfolding parse_node
  parse_node-IsNode s noverify =
      >>=-Returns IsParsed (parse_struct tree_header_fields tree_header_of s) _ λ (h, offset) _.
        >>=-Returns IsParsed (if noverify then ok true else verify_chk_sum checksum h s) _
          λ b _. if-Returns IsParsed b _ _ (λ _. parse_items-IsParsed h s offset) (λ _. tt)

  -- GenericNode.Parse comes to an end, or panics, on whatever data, the loops over the items and over
  -- the checksums of a data item included.
  pub parse_node-ne-stuck : (s : Slice) (noverify : Bool) → parse_node checksum s noverify ≢ stuck
  unfolding parse_node verify_chk_sum
  parse_node-ne-stuck s noverify =
      >>=-ne-stuck (parse_struct tree_header_fields tree_header_of s) _
        (parse_struct-ne-stuck tree_header_fields tree_header_of s)
        λ (h, offset) _.
          >>=-ne-stuck (if noverify then ok true else verify_chk_sum checksum h s) _
            (if-ne-stuck noverify (ok true) (verify_chk_sum checksum h s) (λ _. ok-ne-stuck true)
              λ _.
                >>=-ne-stuck (slice_from s 32) _ (slice_from-ne-stuck s 32) λ rest _. ok-ne-stuck _)
            λ b _. if-ne-stuck b _ _ (λ _. parse_items-ne-stuck h s offset) (λ _. ok-ne-stuck none)

-- The pairs of an item with the id and its data item, in the order of the leaf.
unfoldable pub matches : ℕ → List Item → List (Option DataItem) → List (Item × Option DataItem)
matches id [] ds = []
matches id (item ∷ items) [] = []
matches id (item ∷ items) (d ∷ ds) =
    let rest = matches id items ds in if item.key.object_id == id then (item, d) ∷ rest else rest

abbrev unzip : List (Item × Option DataItem) → List Item × List (Option DataItem)
unzip ps = (map (λ p. p.0) ps, map (λ p. p.1) ps)

unzip-if :
    (b : Bool) (item : Item) (d : Option DataItem) (ps : List (Item × Option DataItem))
    → (if b then (item ∷ (unzip ps).0, d ∷ (unzip ps).1) else unzip ps)
      ≡ unzip (if b then (item, d) ∷ ps else ps)
unzip-if true item d ps = refl
unzip-if false item d ps = refl

with_id_from-matches :
    (id : ℕ) (items : List Item) (ds : List (Option DataItem))
    → length items ≡ length ds
    → with_id_from id items ds ≡ ok (unzip (matches id items ds))
unfolding with_id_from matches
with_id_from-matches id [] ds h = refl
with_id_from-matches id (item ∷ items) [] h = absurd (omega (arith, h))
with_id_from-matches id (item ∷ items) (d ∷ ds) h =
    rw (with_id_from-matches id items ds (omega (arith, h)))
      (ap ok (unzip-if (item.key.object_id == id) item d (matches id items ds)))

-- What the node's leaf holds under the id: nothing if the node is no leaf.
unfoldable pub found_in : ℕ → Option LeafNode → List Item × List (Option DataItem)
unfolding matches
found_in id none = ([], [])
found_in id (some leaf) = unzip (matches id leaf.items leaf.data_items)

-- On every node that GenericNode.Parse may return FilterItemsById does not panic; it returns the
-- items of the leaf whose keys have the object id, in their order, and beside each its own data item,
-- and nothing for an internal node.
pub filter_items_by_id-IsNode :
    (id : ℕ) (node : GenericNode)
    → IsNode node
    → filter_items_by_id id node ≡ ok (found_in id node.leaf_node)
unfolding filter_items_by_id found_in
filter_items_by_id-IsNode id node h = go node.header node.leaf_node node.internal_node h
  where
    go :
        (o : Option Header) (l : Option LeafNode) (i : Option (List BlockPointer))
        → HasNode o l i
        → ◌≡◌ {A = Outcome (List Item × List (Option DataItem))}
            (elim l [ none ↦ ok ([], []) | some leaf ↦ with_id_from id leaf.items leaf.data_items ])
            (ok (found_in id l))
    go none l i h = absurd h
    go (some x) none i h = refl
    go (some x) (some leaf) none (_, (m, n)) =
        with_id_from-matches id leaf.items leaf.data_items (m ∙ sym n)
    go (some x) (some leaf) (some i) h = absurd h
