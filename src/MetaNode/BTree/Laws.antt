-- ===== src/MetaNode/BTree/Laws.antt =====
-- What the methods of the tree wrapper return, from the laws of the package below it.
use cfs.Base.{
  length, ap, ◌≡◌, refl, Bool, true, false, none, some, [], find, filter, get_last?, arith,
  if◌then◌else◌, not, ◌&&◌,
}
use cfs.GoogleBtree.{BtreeItem, BtreePackage, equiv, insert_sorted, remove, IsAscending}
use cfs.GoogleBtree.Order.{find-insert_sorted, find-remove, equiv_cong}
use mathlib.Core.Path.{fun_ext}
use cfs.MetaNode.BTree.{
  len, BTree, new_btree, get, delete, replace_or_insert, ascend, write_back, ascend_range,
  ascend_greater_or_equal, max_item,
}

module _ ⦃L : BtreePackage⦄ {A : Type 0} ⦃o : BtreeItem A⦄ where
  pub ascend-IsAscending : (b : BTree A) → IsAscending o (ascend b)
  unfolding ascend
  ascend-IsAscending b = L.ascend-IsAscending A o b

  pub get-ascend : (b : BTree A) (k : A) → get b k ≡ find (equiv o k) (ascend b)
  unfolding get ascend
  get-ascend b k = L.get-ascend A o b k

  pub ascend_range-ascend :
      (b : BTree A) (lo hi : A)
      → ascend_range b lo hi ≡ filter (λ x. not (o.less x lo) && o.less x hi) (ascend b)
  unfolding ascend_range ascend
  ascend_range-ascend b lo hi = L.ascend_range-ascend A o b lo hi

  pub ascend_greater_or_equal-ascend :
      (b : BTree A) (pivot : A)
      → ascend_greater_or_equal b pivot ≡ filter (λ x. not (o.less x pivot)) (ascend b)
  unfolding ascend_greater_or_equal ascend
  ascend_greater_or_equal-ascend b pivot = L.ascend_greater_or_equal-ascend A o b pivot

  pub max_item-ascend : (b : BTree A) → max_item b ≡ get_last? (ascend b)
  unfolding max_item ascend
  max_item-ascend b = L.max_item-ascend A o b

  pub len-ascend : (b : BTree A) → len b ≡ length (ascend b)
  unfolding len ascend
  len-ascend b = L.len-ascend A o b

  pub ascend-new_btree : ascend (new_btree {A = A}) ≡ []
  unfolding ascend new_btree
  ascend-new_btree = L.ascend-new A o

  pub ascend-replace :
      (b : BTree A) (a : A) → ascend (replace_or_insert b a true).1 ≡ insert_sorted o a (ascend b)
  unfolding ascend replace_or_insert
  ascend-replace b a = L.ascend-insert A o b a

  pub ascend-write_back :
      (b : BTree A) (a : A) → ascend (write_back b a) ≡ insert_sorted o a (ascend b)
  unfolding ascend write_back
  ascend-write_back b a = L.ascend-insert A o b a

  pub ascend-delete : (b : BTree A) (a : A) → ascend (delete b a).1 ≡ remove o a (ascend b)
  unfolding ascend delete
  ascend-delete b a = L.ascend-delete A o b a

  pub get-new_btree : (k : A) → get new_btree k ≡ none
  unfolding get new_btree
  get-new_btree k = rw (L.get-ascend A o (L.new A o) k, L.ascend-new A o)

  get-insert :
      (b : BTree A) (a k : A)
      → L.get A o (L.insert A o b a) k ≡ (if equiv o a k then some a else L.get A o b k)
  get-insert b a k =
      rw (L.get-ascend A o (L.insert A o b a) k, L.ascend-insert A o b a, L.get-ascend A o b k)
        (find-insert_sorted o a k (L.ascend A o b))

  get-delete-package :
      (b : BTree A) (a k : A)
      → L.get A o (L.delete A o b a) k ≡ (if equiv o a k then none else L.get A o b k)
  get-delete-package b a k =
      rw (L.get-ascend A o (L.delete A o b a) k, L.ascend-delete A o b a, L.get-ascend A o b k)
        (find-remove o a k (L.ascend A o b))

  -- Every lookup after a write through an item that CopyGet handed out.
  pub get-write_back :
      (b : BTree A) (a k : A) → get (write_back b a) k ≡ (if equiv o a k then some a else get b k)
  unfolding get write_back
  get-write_back b a k = get-insert b a k

  pub get-delete :
      (b : BTree A) (a k : A) → get (delete b a).1 k ≡ (if equiv o a k then none else get b k)
  unfolding get delete
  get-delete b a k = get-delete-package b a k

  -- Without `replace`, an item that is there stays.
  pub get-replace_or_insert :
      (b : BTree A) (a k : A) (replace : Bool)
      → get (replace_or_insert b a replace).1 k ≡ (
          if equiv o a k
          then (if replace then some a else elim (get b a) [ none ↦ some a | some item ↦ get b k ])
          else get b k)
  unfolding get replace_or_insert
  get-replace_or_insert b a k true = get-insert b a k
  get-replace_or_insert b a k false = ground (arith, get-insert b a k)

  -- Without `replace`, what the insertion reports.
  pub replace_or_insert_absent :
      (b : BTree A) (a : A) → get b a ≡ none → (replace_or_insert b a false).0 ≡ (none, true)
  unfolding get replace_or_insert
  replace_or_insert_absent b a h = ground arith

  pub replace_or_insert_present :
      (b : BTree A) (a d : A)
      → get b a ≡ some d
      → replace_or_insert b a false ≡ ((some d, false), b)
  unfolding get replace_or_insert
  replace_or_insert_present b a d h = ground arith

  pub delete-result : (b : BTree A) (a : A) → (delete b a).0 ≡ get b a
  unfolding delete get
  delete-result b a = refl

  -- A lookup does not tell apart keys that are one item of the tree.
  pub get-equiv : (b : BTree A) (k j : A) → equiv o k j ≡ true → get b k ≡ get b j
  get-equiv b k j h =
      rw (get-ascend b k, get-ascend b j)
        (ap (λ p. find p (ascend b)) (fun_ext λ x. equiv_cong o k j x h))
