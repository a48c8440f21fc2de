-- ===== src/Tests/Extents.antt =====
-- The theorems on the extents of a file at concrete trees.
use cfs.Base.{ℕ, ◌≡◌, ◌≤◌, ◌==◌, some, none, arith, if◌then◌else◌}
use cfs.GoogleBtree.SortedList.{sorted_list}
use cfs.Proto.ExtentKey.{extent_item}
use cfs.MetaNode.BTree.{get, ascend, max_item, ascend_greater_or_equal}
use cfs.MetaNode.Extents
use cfs.MetaNode.Extents.{key_at, append}
use cfs.MetaNode.Extents.Append.{kept, get-append}
use cfs.MetaNode.Inode.{extents_truncate}
use cfs.MetaNode.Inode.Truncate.{IsDisjoint, cut, get-extents_truncate}
use cfs.Tests.Samples.{extent, two_extents, file}

get-append_example : get (append two_extents (extent 50 9 60)).1 (key_at 100) ≡ (
    if 50 == 100
    then some (extent 50 9 60)
    else kept (extent 50 9 60) (get two_extents (key_at 100)))
get-append_example = get-append two_extents (extent 50 9 60) 100

two_extents_size : Extents.size two_extents ≤ 150
unfolding Extents.size ascend max_item
two_extents_size = omega arith

at_keys :
    (x : ℕ)
    → get two_extents (key_at x) ≡ (
        if x == 0 then some (extent 0 7 100) else if x == 100 then some (extent 100 8 50) else none)
unfolding get
at_keys x = ground arith

two_extents-IsDisjoint : IsDisjoint two_extents
two_extents-IsDisjoint = record {
  apart = λ x y a b p q. ground (arith, at_keys x, at_keys y);
  bounded = λ x a p. ground (arith, at_keys x);
  sized = λ x a p. ground (arith, at_keys x);
}

get-extents_truncate_example :
    (get
        (extents_truncate file (ascend_greater_or_equal two_extents (key_at 120)) 120 20).extents
        (key_at 100)
      ≡ cut 120 (get two_extents (key_at 100)))
    × ((extents_truncate file (ascend_greater_or_equal two_extents (key_at 120)) 120 20).size ≡ 120)
get-extents_truncate_example =
    get-extents_truncate file 120 20 100 two_extents-IsDisjoint (omega arith)
