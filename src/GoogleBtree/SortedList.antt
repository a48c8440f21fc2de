-- ===== src/GoogleBtree/SortedList.antt =====
-- A package of trees that are ascending lists: it meets every law of the interface, and runs.
use cfs.Base.{refl, List, [], filter, find, get_last?, length, reverse, ◌&&◌, not}
use cfs.GoogleBtree.{BtreeItem, BtreePackage, equiv, insert_sorted, remove, IsAscending}
use cfs.GoogleBtree.Order.{IsAscending-insert_sorted, IsAscending-filter}

abbrev pub Ascending : (A : Type 0) → BtreeItem A → Type 0
Ascending A o = (xs : List A) × IsAscending o xs

instance abbrev pub sorted_list : BtreePackage
sorted_list = record {
  Tree = Ascending;
  new = λ A o. ([], tt);
  get = λ A o t k. find (equiv o k) t.0;
  insert = λ A o t a. (insert_sorted o a t.0, IsAscending-insert_sorted o a t.0 t.1);
  delete = λ A o t a. (remove o a t.0, IsAscending-filter o (λ x. not (equiv o a x)) t.0 t.1);
  ascend = λ A o t. t.0;
  ascend_range = λ A o t lo hi. filter (λ x. not (o.less x lo) && o.less x hi) t.0;
  ascend_greater_or_equal = λ A o t pivot. filter (λ x. not (o.less x pivot)) t.0;
  descend_less_or_equal = λ A o t pivot. reverse (filter (λ x. not (o.less pivot x)) t.0);
  max_item = λ A o t. get_last? t.0;
  len = λ A o t. length t.0;
  ascend-IsAscending = λ A o t. t.1;
  ascend-new = λ A o. refl;
  ascend-insert = λ A o t a. refl;
  ascend-delete = λ A o t a. refl;
  get-ascend = λ A o t k. refl;
  ascend_range-ascend = λ A o t lo hi. refl;
  ascend_greater_or_equal-ascend = λ A o t pivot. refl;
  descend_less_or_equal-ascend = λ A o t pivot. refl;
  max_item-ascend = λ A o t. refl;
  len-ascend = λ A o t. refl;
}
