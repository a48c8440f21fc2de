-- ===== src/MetaNode/Partition/Listing.antt =====
-- The entries of a directory: readDir.
use cfs.Base.{ℕ, ◌+◌, ◌<◌, ◌^◌, ◌≡◌, ◌==◌, not, ◌&&◌, arith, refl, List, [], ◌∷◌, map, filter, ap}
use cfs.GoogleBtree.{BtreePackage}
use cfs.Proto.{u64}
use cfs.MetaNode.BTree.{ascend}
use cfs.MetaNode.BTree.Laws.{ascend_range-ascend}
use cfs.MetaNode.Dentry.{Dentry, less}
use cfs.MetaNode.Dentry.Order.{dentry_item, name_less-empty}
use cfs.MetaNode.Inode.Order.{inode_item}
use cfs.MetaNode.Partition.{MetaPartition}
use cfs.MetaNode.Partition.DentryOps.{blank_dentry, read_dir}

module _ ⦃L : BtreePackage⦄ (mp : MetaPartition) where
  -- The range that readDir asks for holds the entries of the directory.
  in_directory :
      (parent_id : ℕ) (xs : List Dentry)
      → parent_id + 1 < 2 ^ 64
      → filter
          (λ x.
            not (less x (record blank_dentry { parent_id = parent_id }))
            && less x (record blank_dentry { parent_id = u64 (parent_id + 1) }))
          xs
        ≡ filter (λ x. x.parent_id == parent_id) xs
  unfolding less
  in_directory parent_id [] h = refl
  in_directory parent_id (x ∷ xs) h =
      ground (arith, in_directory parent_id xs h, name_less-empty x.name)

  -- readDir lists exactly the entries of the directory, in the order of the tree, if the number of
  -- the directory is not the last uint64.
  pub read_dir-children :
      (parent_id : ℕ)
      → parent_id + 1 < 2 ^ 64
      → read_dir mp parent_id
        ≡ map
            (λ d. record { inode = d.inode; type = d.type; name = d.name })
            (filter (λ d. d.parent_id == parent_id) (ascend mp.dentry_tree))
  unfolding read_dir
  read_dir-children parent_id h =
      rw
        (ascend_range-ascend mp.dentry_tree (record blank_dentry { parent_id = parent_id })
          (record blank_dentry { parent_id = u64 (parent_id + 1) }))
        (ap (map _) (in_directory parent_id (ascend mp.dentry_tree) h))
