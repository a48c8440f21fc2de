-- ===== src/MetaNode/Partition/Follows/Dentries.antt =====
-- The operations of the log on dentries, as changes of the inode tree:
-- metanode/partition_fsmop_dentry.go.
use cfs.Base.{ℕ, ◌⊎◌, ◌≡◌, false, arith, refl, inl, inr}
use cfs.GoogleBtree.{BtreePackage}
use cfs.MetaNode.BTree.{write_back}
use cfs.MetaNode.Inode.{Inode, new_inode, inc_nlink, dec_nlink}
use cfs.MetaNode.Inode.Order.{inode_item}
use cfs.Proto.ExtentKey.{extent_item}
use cfs.MetaNode.Dentry.{Dentry}
use cfs.MetaNode.Partition.{MetaPartition}
use cfs.MetaNode.Partition.DentryOps.{fsm_create_dentry, fsm_delete_dentry, fsm_update_dentry}
use cfs.MetaNode.Partition.Follows.{Evolves, Evolves-refl, Evolves-write_back, Evolves-cases}

module _ ⦃L : BtreePackage⦄ where
  pub Evolves-create_dentry :
      (mp : MetaPartition) (now : ℕ) (dentry : Dentry)
      → Evolves mp.inode_tree (fsm_create_dentry mp now dentry false).1.inode_tree
  unfolding fsm_create_dentry
  Evolves-create_dentry mp now dentry =
      Evolves-cases mp.inode_tree _ (new_inode dentry.parent_id 0 now) (λ h. ground arith)
        (λ i h m. ground arith)
        λ i h l.
          let e : ((fsm_create_dentry mp now dentry false).1.inode_tree ≡ mp.inode_tree)
              ⊎ ((fsm_create_dentry mp now dentry false).1.inode_tree
                  ≡ write_back mp.inode_tree (inc_nlink i)) =
            ground arith in
          elim e [
            | inl same ↦ rw same (Evolves-refl mp.inode_tree)
            | inr more ↦
                rw more (
                  Evolves-write_back mp.inode_tree _ i (inc_nlink i) h l (unfold inc_nlink in refl))
          ]

  dec_nlink-number : (i : Inode) → (dec_nlink i).inode ≡ i.inode
  unfolding dec_nlink
  dec_nlink-number i = ground arith

  pub Evolves-delete_dentry :
      (mp : MetaPartition) (now : ℕ) (dentry : Dentry)
      → Evolves mp.inode_tree (fsm_delete_dentry mp now dentry).1.inode_tree
  unfolding fsm_delete_dentry
  Evolves-delete_dentry mp now dentry =
      Evolves-cases mp.inode_tree _ (new_inode dentry.parent_id 0 now) (λ h. ground arith)
        (λ i h m. ground arith)
        λ i h l.
          let e : ((fsm_delete_dentry mp now dentry).1.inode_tree ≡ mp.inode_tree)
              ⊎ ((fsm_delete_dentry mp now dentry).1.inode_tree
                  ≡ write_back mp.inode_tree (dec_nlink i)) =
            ground arith in
          elim e [
            | inl same ↦ rw same (Evolves-refl mp.inode_tree)
            | inr fewer ↦
                rw fewer
                  (Evolves-write_back mp.inode_tree _ i (dec_nlink i) h l (dec_nlink-number i))
          ]

  pub update_dentry-inode_tree :
      (mp : MetaPartition) (dentry : Dentry)
      → (fsm_update_dentry mp dentry).1.inode_tree ≡ mp.inode_tree
  unfolding fsm_update_dentry
  update_dentry-inode_tree mp dentry = ground arith
