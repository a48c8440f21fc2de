-- ===== src/MetaNode/Partition/Links.antt =====
-- The link counts of inodes: fsmCreateLinkInode, fsmUnlinkInode and fsmEvictInode together.
use cfs.Base.{◌+◌, ◌<◌, ◌^◌, ◌≡◌, ◌==◌, true, false, leb, ◌&&◌, some, none, if◌then◌else◌, arith}
use cfs.GoogleBtree.{BtreePackage}
use cfs.Proto.{is_dir, op_ok}
use cfs.MetaNode.BTree.{get, write_back}
use cfs.MetaNode.FreeList.{push}
use cfs.MetaNode.Inode.{Inode, inc_nlink, dec_nlink, should_delete}
use cfs.MetaNode.Inode.Order.{inode_item}
use cfs.MetaNode.Inode.Lookup.{get_found, get-write_number, get-delete_number}
use cfs.MetaNode.Partition.{MetaPartition}
use cfs.MetaNode.Partition.InodeOps.{unlinked, fsm_create_link_inode, fsm_unlink_inode}

module _ ⦃L : BtreePackage⦄ (mp : MetaPartition) (k i : Inode)
    (found : get mp.inode_tree k ≡ some i) (live : should_delete i ≡ false) where
  -- A link to a live inode adds one to its count, and touches no other inode and no queue.
  pub create_link_live :
      ((fsm_create_link_inode mp k).0 ≡ (op_ok, some (inc_nlink i)))
      × ((j : Inode)
          → get (fsm_create_link_inode mp k).1.inode_tree j
            ≡ (if k.inode == j.inode then some (inc_nlink i) else get mp.inode_tree j))
      × ((fsm_create_link_inode mp k).1.free_list ≡ mp.free_list)
  unfolding fsm_create_link_inode inc_nlink
  create_link_live = (
    ground arith,
    λ j.
        ground (
          arith,
          get_found mp.inode_tree k i found,
          get-write_number mp.inode_tree (inc_nlink i) j,
        ),
    ground arith,
  )

  -- Unlinking a live directory removes its inode if it had two links or three, else writes the
  -- inode with one link less or the same; no other inode changes.
  pub get-unlink_dir :
      is_dir i.type ≡ true
      → (j : Inode)
      → get (fsm_unlink_inode mp k).1.inode_tree j ≡ (
          if k.inode == j.inode
          then (if leb 2 i.nlink && leb i.nlink 3 then none else some (unlinked i k.modify_time))
          else get mp.inode_tree j)
  unfolding fsm_unlink_inode dec_nlink
  get-unlink_dir dir j = ground (
    arith,
    get_found mp.inode_tree k i found,
    get-write_number mp.inode_tree (unlinked i k.modify_time) j,
    get-delete_number (write_back mp.inode_tree (unlinked i k.modify_time))
        (unlinked i k.modify_time) j,
  )

  -- Unlinking a live file keeps its inode, with one link less unless there was none, and queues
  -- the number of an inode that has no link left.
  pub unlink_file :
      is_dir i.type ≡ false
      → ((fsm_unlink_inode mp k).0 ≡ (op_ok, some (unlinked i k.modify_time)))
        × ((j : Inode)
            → get (fsm_unlink_inode mp k).1.inode_tree j ≡ (
                if k.inode == j.inode
                then some (unlinked i k.modify_time)
                else get mp.inode_tree j))
        × ((fsm_unlink_inode mp k).1.free_list
            ≡ (if leb i.nlink 1 then push mp.free_list i.inode else mp.free_list))
  unfolding fsm_unlink_inode dec_nlink
  unlink_file dir = (
    ground arith,
    λ j. ground (
      arith,
      get_found mp.inode_tree k i found,
      get-write_number mp.inode_tree (unlinked i k.modify_time) j,
    ),
    ground arith,
  )

module _ ⦃L : BtreePackage⦄ (mp : MetaPartition) (k i : Inode)
    (found : get mp.inode_tree k ≡ some i) (live : should_delete i ≡ false)
    (counted : i.nlink + 1 < 2 ^ 32) where
  abbrev linked : MetaPartition
  linked = (fsm_create_link_inode mp k).1

  get-linked : get linked.inode_tree k ≡ some (inc_nlink i)
  get-linked = ground (arith, (create_link_live mp k i found live).1 k)

  -- A link to a live file with a link left, whose count does not overflow, taken back by an
  -- unlink, leaves its time of modification changed and nothing else, in the inode tree and in the
  -- free list.
  pub unlink-create_link_file :
      is_dir i.type ≡ false
      → 0 < i.nlink
      → ((j : Inode)
          → get (fsm_unlink_inode linked k).1.inode_tree j ≡ (
              if k.inode == j.inode
              then some (record i { modify_time = k.modify_time })
              else get mp.inode_tree j))
        × ((fsm_unlink_inode linked k).1.free_list ≡ mp.free_list)
  unfolding inc_nlink dec_nlink
  unlink-create_link_file file pos =
      let unlink = unlink_file linked k (inc_nlink i) get-linked live file in
      let link = create_link_live mp k i found live in
      (λ j. ground (arith, unlink.1 j, link.1 j), ground (arith, unlink.2, link.2))

  -- A link to a live directory with two links, an empty one, taken back by an unlink, removes its
  -- inode and no other.
  pub unlink-create_link_empty_dir :
      is_dir i.type ≡ true
      → i.nlink ≡ 2
      → (j : Inode)
      → get (fsm_unlink_inode linked k).1.inode_tree j
        ≡ (if k.inode == j.inode then none else get mp.inode_tree j)
  unfolding inc_nlink
  unlink-create_link_empty_dir dir empty j = ground (
    arith,
    get-unlink_dir linked k (inc_nlink i) get-linked live dir j,
    (create_link_live mp k i found live).1 j,
  )
