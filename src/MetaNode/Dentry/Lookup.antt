-- ===== src/MetaNode/Dentry/Lookup.antt =====
-- Lookups in the dentry tree.
use cfs.Base.{◌≡◌, true, some, find-passes}
use cfs.GoogleBtree.{BtreePackage, equiv}
use cfs.MetaNode.BTree.{BTree, get, ascend}
use cfs.MetaNode.BTree.Laws.{get-ascend}
use cfs.MetaNode.Dentry.{Dentry}
use cfs.MetaNode.Dentry.Order.{dentry_item}

-- What is found is the item that was looked up.
pub get_entry :
    ⦃L : BtreePackage⦄ (t : BTree Dentry) (k d : Dentry)
    → get t k ≡ some d
    → equiv dentry_item k d ≡ true
get_entry t k d h = find-passes (equiv dentry_item k) (ascend t) d (rw get-ascend at h)
