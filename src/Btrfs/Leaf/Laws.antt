-- ===== src/Btrfs/Leaf/Laws.antt =====
-- The leaf comes out with as many data items as items, in finitely many steps.
use mftextractor.Base.{
  ℕ, zero, suc, ◌+◌, ◌%◌, ◌^◌, ◌≡◌, ◌≢◌, refl, ap, ◌∙◌, Bool, true, false, Option, none, some, List,
  [], ◌∷◌, length, All,
}
use mftextractor.Go.Outcome.{
  Outcome, ok, stuck, ◌>>=◌, >>=-ne-stuck, ok-ne-stuck, Returns, >>=-Returns, Returns-ok,
}
use mftextractor.Go.Slice.{Slice, slice, slice_from}
use mftextractor.Utils.Unmarshal.{unmarshal}
use mftextractor.Usn.Ends.{unmarshal-ne-stuck}
use mftextractor.Btrfs.{parse_key}
use mftextractor.Btrfs.Items.Ends.{
  slice-ne-stuck, parse_key-ne-stuck, slice_from-ne-stuck, parse_dev_item-ne-stuck,
  parse_inode_item-ne-stuck, parse_dev_extent_item-ne-stuck, parse_block_group_item-ne-stuck,
  parse_root_item-ne-stuck, parse_extent_item-ne-stuck, parse_extent_data-ne-stuck,
  parse_root_ref-ne-stuck, parse_inode_ref-ne-stuck, parse_dir_index-ne-stuck,
  parse_dir_item-ne-stuck, parse_chunk_item-ne-stuck, parse_checksum_item-ne-stuck,
}
use mftextractor.Btrfs.Items.{
  parse_dev_item, parse_inode_item, parse_dev_extent_item, parse_block_group_item,
}
use mftextractor.Btrfs.Items.Roots.{parse_root_item}
use mftextractor.Btrfs.Items.Extents.{parse_extent_item, parse_extent_data}
use mftextractor.Btrfs.Items.Names.{
  parse_root_ref, parse_inode_ref, parse_dir_item, parse_dir_index,
}
use mftextractor.Btrfs.Items.Chunks.{parse_chunk_item, parse_checksum_item}
use mftextractor.Btrfs.Leaf.{
  Item, DataItem, dev, chunk, inode, extent, extent_data, root, inode_ref, dir, dir_index,
  block_group, dev_extent, root_ref, root_back_ref, checksums, first_of, parsers, LeafNode,
  item_fields, parse_item, as_data_item, data_parser, items_from, parse_data_item, data_items_of,
  parse_leaf,
}

-- A parser that comes to an end on every slice, or none.
abbrev Ends : Option (Slice → Outcome DataItem) → Type 0
Ends none = Unit
Ends (some p) = (s : Slice) → p s ≢ stuck

abbrev EntryEnds : Bool × (Slice → Outcome DataItem) → Type 0
EntryEnds (b, p) = (s : Slice) → p s ≢ stuck

first_of-Ends :
    (ps : List (Bool × (Slice → Outcome DataItem))) → All EntryEnds ps → Ends (first_of ps)
first_of-Ends [] h = tt
first_of-Ends ((true, p) ∷ ps) (h, hs) = h
first_of-Ends ((false, p) ∷ ps) (h, hs) = first_of-Ends ps hs

as_data_item-ne-stuck {ℓ} :
    {A : Type ℓ} (wrap : A → DataItem) (p : Slice → Outcome (A × ℕ))
    → ((s : Slice) → p s ≢ stuck)
    → (s : Slice) → as_data_item wrap p s ≢ stuck
as_data_item-ne-stuck wrap p h s = >>=-ne-stuck (p s) _ (h s) λ (a, n) _. ok-ne-stuck _

parsers-EntryEnds : (item : Item) → All EntryEnds (parsers item)
unfolding parsers
parsers-EntryEnds item = (
  as_data_item-ne-stuck dev parse_dev_item parse_dev_item-ne-stuck,
  (
    as_data_item-ne-stuck chunk parse_chunk_item parse_chunk_item-ne-stuck,
    (
      as_data_item-ne-stuck inode parse_inode_item parse_inode_item-ne-stuck,
      (
        as_data_item-ne-stuck extent parse_extent_item parse_extent_item-ne-stuck,
        (
          as_data_item-ne-stuck extent_data parse_extent_data parse_extent_data-ne-stuck,
          (
            as_data_item-ne-stuck root parse_root_item parse_root_item-ne-stuck,
            (
              as_data_item-ne-stuck inode_ref parse_inode_ref parse_inode_ref-ne-stuck,
              (
                as_data_item-ne-stuck dir parse_dir_item parse_dir_item-ne-stuck,
                (
                  as_data_item-ne-stuck dir_index parse_dir_index parse_dir_index-ne-stuck,
                  (
                    as_data_item-ne-stuck block_group parse_block_group_item
                        parse_block_group_item-ne-stuck,
                    (
                      as_data_item-ne-stuck extent parse_extent_item parse_extent_item-ne-stuck,
                      (
                        λ s. ok-ne-stuck _,
                        (
                          as_data_item-ne-stuck dev_extent parse_dev_extent_item
                              parse_dev_extent_item-ne-stuck,
                          (
                            as_data_item-ne-stuck root_ref parse_root_ref parse_root_ref-ne-stuck,
                            (
                              as_data_item-ne-stuck root_back_ref parse_root_ref
                                  parse_root_ref-ne-stuck,
                              (
                                as_data_item-ne-stuck checksums parse_checksum_item
                                    parse_checksum_item-ne-stuck,
                                (
                                  as_data_item-ne-stuck dir parse_dir_item parse_dir_item-ne-stuck,
                                  tt,
                                ),
                              ),
                            ),
                          ),
                        ),
                      ),
                    ),
                  ),
                ),
              ),
            ),
          ),
        ),
      ),
    ),
  ),
)

data_parser-Ends : (item : Item) → Ends (data_parser item)
unfolding data_parser
data_parser-Ends item = first_of-Ends (parsers item) (parsers-EntryEnds item)

parse_item-ne-stuck : (s : Slice) → parse_item s ≢ stuck
unfolding parse_item
parse_item-ne-stuck s = >>=-ne-stuck (parse_key s) _ (parse_key-ne-stuck s) λ (k, n) _.
    >>=-ne-stuck (unmarshal item_fields s) _ (unmarshal-ne-stuck item_fields s) λ u _. ok-ne-stuck _

items_from-ne-stuck : (left : ℕ) (s : Slice) (offset : ℕ) → items_from left s offset ≢ stuck
unfolding items_from
items_from-ne-stuck zero s offset = ok-ne-stuck _
items_from-ne-stuck (suc left) s offset =
    >>=-ne-stuck (slice_from s offset) _ (slice_from-ne-stuck s offset) λ part _.
      >>=-ne-stuck (parse_item part) _ (parse_item-ne-stuck part) λ (item, n) _.
        >>=-ne-stuck (items_from left s (offset + n)) _ (items_from-ne-stuck left s (offset + n))
          λ (items, end) _. ok-ne-stuck _

parse_data_item-ne-stuck : (s : Slice) (item : Item) → parse_data_item s item ≢ stuck
unfolding parse_data_item
parse_data_item-ne-stuck s item = go (data_parser item) (data_parser-Ends item)
  where
    go :
        (o : Option (Slice → Outcome DataItem))
        → Ends o
        → ◌≢◌ {A = Outcome (Option DataItem)}
            (elim o [
              | none ↦ ok none
              | some parse ↦ (do
                part ← slice s item.data_offset ((item.data_offset + item.data_len) % 2 ^ 32)
                d ← parse part
                ok (some d))
            ])
            stuck
    go none h = ok-ne-stuck none
    go (some p) h =
        >>=-ne-stuck (slice s item.data_offset ((item.data_offset + item.data_len) % 2 ^ 32)) _
          (slice-ne-stuck s item.data_offset ((item.data_offset + item.data_len) % 2 ^ 32))
          λ part _. >>=-ne-stuck (p part) _ (h part) λ d _. ok-ne-stuck _

data_items_of-ne-stuck : (s : Slice) (items : List Item) → data_items_of s items ≢ stuck
unfolding data_items_of
data_items_of-ne-stuck s [] = ok-ne-stuck []
data_items_of-ne-stuck s (item ∷ items) =
    >>=-ne-stuck (parse_data_item s item) _ (parse_data_item-ne-stuck s item) λ d _.
      >>=-ne-stuck (data_items_of s items) _ (data_items_of-ne-stuck s items) λ ds _. ok-ne-stuck _

pub parse_leaf-ne-stuck : (n : ℕ) (s : Slice) → parse_leaf n s ≢ stuck
unfolding parse_leaf
parse_leaf-ne-stuck n s =
    >>=-ne-stuck (items_from n s 0) _ (items_from-ne-stuck n s 0) λ (items, end) _.
      >>=-ne-stuck (data_items_of s items) _ (data_items_of-ne-stuck s items) λ ds _. ok-ne-stuck _

-- A leaf with n items and as many data items.
abbrev pub IsLeafOf : ℕ → LeafNode → Type 0
IsLeafOf n leaf = (length leaf.items ≡ n) × (length leaf.data_items ≡ n)

abbrev HasItems : ℕ → List Item × ℕ → Type 0
HasItems n (items, end) = length items ≡ n

items_from-HasItems :
    (left : ℕ) (s : Slice) (offset : ℕ) → Returns (HasItems left) (items_from left s offset)
unfolding items_from
items_from-HasItems zero s offset = refl
items_from-HasItems (suc left) s offset =
    >>=-Returns (HasItems (suc left)) (slice_from s offset) _ λ part _.
      >>=-Returns (HasItems (suc left)) (parse_item part) _ λ (item, n) _.
        >>=-Returns (HasItems (suc left)) (items_from left s (offset + n)) _ λ r e. ap suc (
          Returns-ok (HasItems left) (items_from left s (offset + n)) r
            (items_from-HasItems left s (offset + n)) e)

data_items_of-length :
    (s : Slice) (items : List Item)
    → Returns (λ ds. length ds ≡ length items) (data_items_of s items)
unfolding data_items_of
data_items_of-length s [] = refl
data_items_of-length s (item ∷ items) =
    >>=-Returns (λ ds. length ds ≡ suc (length items)) (parse_data_item s item) _
      λ d _.
        >>=-Returns (λ ds. length ds ≡ suc (length items)) (data_items_of s items) _
          λ ds e. ap suc (
            Returns-ok (λ ds. length ds ≡ length items) (data_items_of s items) ds
              (data_items_of-length s items) e)

abbrev pub ReadsLeafOf : ℕ → LeafNode × ℕ → Type 0
ReadsLeafOf n (leaf, end) = IsLeafOf n leaf

pub parse_leaf-ReadsLeafOf : (n : ℕ) (s : Slice) → Returns (ReadsLeafOf n) (parse_leaf n s)
unfolding parse_leaf
parse_leaf-ReadsLeafOf n s = >>=-Returns (ReadsLeafOf n) (items_from n s 0) _ λ r e.
    let h = Returns-ok (HasItems n) (items_from n s 0) r (items_from-HasItems n s 0) e in
    >>=-Returns (ReadsLeafOf n) (data_items_of s r.0) _ λ ds e'. (
      h,
      Returns-ok (λ xs. length xs ≡ length r.0) (data_items_of s r.0) ds
            (data_items_of-length s r.0) e'
          ∙ h,
    )
