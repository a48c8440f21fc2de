-- ===== src/MetaNode/BTree.antt =====
-- metanode/btree.go: the metanode's wrapper of the ordered tree. Its lock is not modelled: every
-- method is one step.
pub mod Laws
pub mod Rebuilt
use cfs.Base.{ℕ, ◌≡◌, Bool, true, false, Option, none, some, List, if◌then◌else◌}
use cfs.GoogleBtree.{BtreeItem, BtreePackage}

module _ ⦃L : BtreePackage⦄ where
  abbrev pub BTree : (A : Type 0) ⦃o : BtreeItem A⦄ → Type 0
  BTree A ⦃o⦄ = L.Tree A o

module _ ⦃L : BtreePackage⦄ {A : Type 0} ⦃o : BtreeItem A⦄ where
  -- NewBtree
  unfoldable pub new_btree : BTree A
  new_btree = L.new A o

  -- Get
  unfoldable pub get : BTree A → A → Option A
  get b key = L.get A o b key

  -- Has
  unfoldable pub has : BTree A → A → Bool
  has b key = elim (L.get A o b key) [ none ↦ false | some _ ↦ true ]

  -- Delete: the item that was there, and the tree without it.
  unfoldable pub delete : BTree A → A → Option A × BTree A
  delete b key = (L.get A o b key, L.delete A o b key)

  insert_if_absent : Option A → BTree A → A → (Option A × Bool) × BTree A
  insert_if_absent none b key = ((none, true), L.insert A o b key)
  insert_if_absent (some item) b key = ((some item, false), b)

  -- ReplaceOrInsert: the item that was there, whether the tree has been written, and the tree.
  unfoldable pub replace_or_insert : BTree A → A → Bool → (Option A × Bool) × BTree A
  unfolding insert_if_absent
  replace_or_insert b key replace =
      if replace
      then ((L.get A o b key, true), L.insert A o b key)
      else insert_if_absent (L.get A o b key) b key

  -- Ascend, AscendRange, AscendGreaterOrEqual: the items visited, in order.
  unfoldable pub ascend : BTree A → List A
  ascend b = L.ascend A o b

  unfoldable pub ascend_range : BTree A → A → A → List A
  ascend_range b greater_or_equal less_than = L.ascend_range A o b greater_or_equal less_than

  unfoldable pub ascend_greater_or_equal : BTree A → A → List A
  ascend_greater_or_equal b pivot = L.ascend_greater_or_equal A o b pivot

  -- MaxItem
  unfoldable pub max_item : BTree A → Option A
  max_item b = L.max_item A o b

  -- Len
  unfoldable pub len : BTree A → ℕ
  len b = L.len A o b

  -- CopyGet hands out the item that the tree holds, so a write to it is a write to the tree. The
  -- fields that `less` reads are never written, and the item keeps its place.
  unfoldable pub write_back : BTree A → A → BTree A
  write_back b item = L.insert A o b item
