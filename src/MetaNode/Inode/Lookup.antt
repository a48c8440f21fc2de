-- ===== src/MetaNode/Inode/Lookup.antt =====
-- Lookups in the inode tree, by number.
use cfs.Base.{◌≡◌, ◌==◌, false, some, none, find, if◌then◌else◌, arith, ap, find-passes}
use mathlib.Core.Path.{fun_ext}
use cfs.GoogleBtree.{BtreePackage, equiv}
use cfs.MetaNode.BTree.{BTree, get, delete, replace_or_insert, write_back, ascend}
use cfs.MetaNode.BTree.Laws.{get-ascend, get-write_back, get-delete, get-replace_or_insert}
use cfs.MetaNode.Inode.{Inode}
use cfs.MetaNode.Inode.Order.{inode_item, equiv_number}

module _ ⦃L : BtreePackage⦄ (t : BTree Inode) where
  -- A lookup reads nothing of its key but the number.
  pub get-number : (k j : Inode) → k.inode ≡ j.inode → get t k ≡ get t j
  get-number k j h =
      rw (get-ascend t k, get-ascend t j)
        (ap (λ p. find p (ascend t)) (fun_ext λ x. rw (equiv_number k x, equiv_number j x, h)))

  -- What is found has the number that was looked up.
  pub get_found : (k i : Inode) → get t k ≡ some i → k.inode ≡ i.inode
  get_found k i h =
      ground (
        arith,
        equiv_number k i,
        find-passes (equiv inode_item k) (ascend t) i (rw get-ascend at h),
      )

  pub get-write_number :
      (i k : Inode) → get (write_back t i) k ≡ (if i.inode == k.inode then some i else get t k)
  get-write_number i k = rw (get-write_back t i k, equiv_number i k)

  pub get-delete_number :
      (i k : Inode) → get (delete t i).1 k ≡ (if i.inode == k.inode then none else get t k)
  get-delete_number i k = rw (get-delete t i k, equiv_number i k)

  -- An insertion without `replace` keeps the inode that is there.
  pub get-insert_number :
      (i k : Inode)
      → get (replace_or_insert t i false).1 k ≡ (
          if i.inode == k.inode
          then elim (get t i) [ none ↦ some i | some _ ↦ get t k ]
          else get t k)
  get-insert_number i k = ground (arith, get-replace_or_insert t i k false, equiv_number i k)
