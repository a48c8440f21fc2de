-- ===== src/MetaNode/Partition/Renames.antt =====
-- Pointing a directory entry at another inode: fsmUpdateDentry.
use cfs.Base.{◌≡◌, some, if◌then◌else◌, arith, ap, ◌∙◌}
use cfs.GoogleBtree.{BtreePackage, equiv}
use cfs.Proto.{op_ok}
use cfs.MetaNode.BTree.{get, write_back}
use cfs.MetaNode.BTree.Laws.{get-equiv, get-write_back}
use cfs.MetaNode.Dentry.{Dentry, less}
use cfs.MetaNode.Dentry.Order.{dentry_item, equiv_inode}
use cfs.MetaNode.Dentry.Lookup.{get_entry}
use cfs.MetaNode.Inode.Order.{inode_item}
use cfs.MetaNode.Partition.{MetaPartition}
use cfs.MetaNode.Partition.DentryOps.{fsm_update_dentry}

module _ ⦃L : BtreePackage⦄ (mp : MetaPartition) (dentry d : Dentry)
    (found : get mp.dentry_tree dentry ≡ some d) where
  -- An update swaps the inode of the entry with that of the request, and touches nothing else.
  pub update_dentry_swaps :
      (fsm_update_dentry mp dentry ≡ (
        (op_ok, record dentry { inode = d.inode }),
        record mp { dentry_tree = write_back mp.dentry_tree (record d { inode = dentry.inode }) },
      ))
      × ((e : Dentry)
          → get (fsm_update_dentry mp dentry).1.dentry_tree e ≡ (
              if equiv dentry_item d e
              then some (record d { inode = dentry.inode })
              else get mp.dentry_tree e))
  unfolding fsm_update_dentry less
  update_dentry_swaps = (
    ground arith,
    λ e. ground (arith, get-write_back mp.dentry_tree (record d { inode = dentry.inode }) e),
  )

  swapped_entry :
      get (fsm_update_dentry mp dentry).1.dentry_tree (record dentry { inode = d.inode })
      ≡ some (record d { inode = dentry.inode })
  unfolding less
  swapped_entry = ground (
    arith,
    update_dentry_swaps.1 (record dentry { inode = d.inode }),
    get_entry mp.dentry_tree dentry d found,
  )

module _ ⦃L : BtreePackage⦄ (mp : MetaPartition) (dentry d : Dentry)
    (found : get mp.dentry_tree dentry ≡ some d) where
  -- An update of an entry that is there, and a second one with the dentry that the first answered,
  -- leave every entry as it was, and the second answers the first request.
  pub update-update_dentry :
      ((fsm_update_dentry (fsm_update_dentry mp dentry).1 (fsm_update_dentry mp dentry).0.1).0
        ≡ (op_ok, dentry))
      × ((e : Dentry)
          → get
              (fsm_update_dentry
                (fsm_update_dentry mp dentry).1
                (fsm_update_dentry mp dentry).0.1).1.dentry_tree
              e
            ≡ get mp.dentry_tree e)
  update-update_dentry =
      let first = update_dentry_swaps mp dentry d found in
      let answer : (fsm_update_dentry mp dentry).0.1 ≡ record dentry { inode = d.inode } =
        ap (λ r. r.0.1) first.0 in
      let second =
        update_dentry_swaps (fsm_update_dentry mp dentry).1 (record dentry { inode = d.inode })
          (record d { inode = dentry.inode }) (swapped_entry mp dentry d found) in
      rw answer (ap (λ r. r.0) second.0, λ e. second.1 e ∙ restored e)
    where
      restored :
          (e : Dentry)
          → (if equiv dentry_item (record d { inode = dentry.inode }) e
              then some d
              else get (fsm_update_dentry mp dentry).1.dentry_tree e)
            ≡ get mp.dentry_tree e
      restored e = ground (
        arith,
        found,
        (update_dentry_swaps mp dentry d found).1 e,
        equiv_inode d e dentry.inode,
        get_entry mp.dentry_tree dentry d found,
        get-equiv mp.dentry_tree dentry d,
        get-equiv mp.dentry_tree d e,
      )
