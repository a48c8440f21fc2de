-- ===== src/MetaNode/Partition/InodeOps.antt =====
-- metanode/partition_fsmop_inode.go: the operations of the state machine on inodes.
use cfs.Base.{
  ℕ, zero, suc, Bool, false, ◌++◌, Option, none, some, Error, eof, ok, err, not, length,
  if◌then◌else◌,
}
use cfs.Bytes.{Bytes, read_uint}
use cfs.GoogleBtree.{BtreePackage}
use cfs.Proto.{Status, op_ok, op_exist_err, op_not_exist_err, op_arg_mismatch_err, is_dir}
use cfs.Proto.ExtentKey.{extent_item}
use cfs.MetaNode.BTree.{
  get, has, delete, replace_or_insert, write_back, ascend, ascend_greater_or_equal,
}
use cfs.MetaNode.Extents.{key_at}
use cfs.MetaNode.Inode.{
  Inode, new_inode, inc_nlink, dec_nlink, is_temp_file, is_empty_dir, set_delete_mark,
  should_delete, set_attr, append_extents, extents_truncate,
}
use cfs.MetaNode.Inode.Order.{inode_item}
use cfs.MetaNode.FreeList.{push}
use cfs.MetaNode.Partition.{MetaPartition}

-- SetattrRequest
pub record SetattrRequest : Type 0 where
  pub inode : ℕ
  pub mode : ℕ
  pub uid : ℕ
  pub gid : ℕ
  pub valid : ℕ

module _ ⦃L : BtreePackage⦄ where
  -- InodeResponse: Status and Msg.
  abbrev pub InodeResponse : Type 0
  InodeResponse = Status × Option Inode

  -- fsmCreateInode
  unfoldable pub fsm_create_inode : MetaPartition → Inode → Status × MetaPartition
  fsm_create_inode mp ino =
      let ((item, written), tree) = replace_or_insert mp.inode_tree ino false in
      (if written then op_ok else op_exist_err, record mp { inode_tree = tree })

  -- fsmCreateLinkInode, on what CopyGet found.
  link_found : MetaPartition → Option Inode → InodeResponse × MetaPartition
  link_found mp none = ((op_not_exist_err, none), mp)
  link_found mp (some i) = if should_delete i then ((op_not_exist_err, none), mp) else (
    (op_ok, some (inc_nlink i)),
    record mp { inode_tree = write_back mp.inode_tree (inc_nlink i) },
  )

  unfoldable pub fsm_create_link_inode : MetaPartition → Inode → InodeResponse × MetaPartition
  unfolding link_found
  fsm_create_link_inode mp ino = link_found mp (get mp.inode_tree ino)

  -- getInode, which writes the time of access.
  get_found : MetaPartition → ℕ → Option Inode → InodeResponse × MetaPartition
  get_found mp now none = ((op_not_exist_err, none), mp)
  get_found mp now (some i) =
      if should_delete i
      then ((op_not_exist_err, none), mp)
      else (let i' = record i { access_time = now } in
          ((op_ok, some i'), record mp { inode_tree = write_back mp.inode_tree i' }))

  unfoldable pub get_inode : MetaPartition → ℕ → Inode → InodeResponse × MetaPartition
  unfolding get_found
  get_inode mp now ino = get_found mp now (get mp.inode_tree ino)

  -- hasInode
  unfoldable pub has_inode : MetaPartition → Inode → Bool
  has_inode mp ino = elim (get mp.inode_tree ino) [ none ↦ false | some i ↦ not (should_delete i) ]

  -- The inode of fsmUnlinkInode after its two writes.
  abbrev pub unlinked : Inode → ℕ → Inode
  unlinked inode modify_time = dec_nlink (record inode { modify_time = modify_time })

  -- fsmUnlinkInode, on what CopyGet found.
  unlink_found : MetaPartition → ℕ → Option Inode → InodeResponse × MetaPartition
  unlink_found mp modify_time none = ((op_not_exist_err, none), mp)
  unlink_found mp modify_time (some i) =
      let inode = unlinked i modify_time in
      let tree = write_back mp.inode_tree inode in
      if should_delete i
      then ((op_not_exist_err, none), mp)
      else (if not (is_dir inode.type)
          then (
            (op_ok, some inode),
            record mp {
              inode_tree = tree;
              free_list =
                  if is_temp_file inode then push mp.free_list inode.inode else mp.free_list;
            },
          )
          else (
            (op_ok, some inode),
            record mp { inode_tree = if is_empty_dir inode then (delete tree inode).1 else tree },
          ))

  unfoldable pub fsm_unlink_inode : MetaPartition → Inode → InodeResponse × MetaPartition
  unfolding unlink_found
  fsm_unlink_inode mp ino = unlink_found mp ino.modify_time (get mp.inode_tree ino)

  -- internalHasInode
  unfoldable pub internal_has_inode : MetaPartition → Inode → Bool
  internal_has_inode mp ino = has mp.inode_tree ino

  -- internalDeleteInode
  unfoldable pub internal_delete_inode : MetaPartition → Inode → MetaPartition
  internal_delete_inode mp ino = record mp { inode_tree = (delete mp.inode_tree ino).1 }

  -- The loop of internalDelete: one number after another, until EOF. Every round reads eight bytes,
  -- so the length of the buffer and one more round for EOF are fuel enough.
  unfoldable pub delete_loop : ℕ → MetaPartition → Inode → Bytes → Option Error × MetaPartition
  delete_loop zero mp ino buf = (none, mp)
  delete_loop (suc fuel) mp ino buf = elim (read_uint 8 buf) [
    | err eof ↦ (none, mp)
    | err e ↦ (some e, mp)
    | ok (v, rest) ↦
        delete_loop fuel (internal_delete_inode mp (record ino { inode = v }))
          (record ino { inode = v }) rest
  ]

  -- internalDelete, at the time `now` of its NewInode.
  unfoldable pub internal_delete : MetaPartition → ℕ → Bytes → Option Error × MetaPartition
  unfolding delete_loop
  internal_delete mp now val = delete_loop (suc (length val)) mp (new_inode 0 0 now) val

  -- fsmAppendExtents, on what CopyGet found.
  append_found : MetaPartition → Inode → Option Inode → Status × MetaPartition
  append_found mp ino none = (op_not_exist_err, mp)
  append_found mp ino (some ino2) =
      let (items, ino2') = append_extents ino2 (ascend ino.extents) ino.modify_time in
      if should_delete ino2 then (op_not_exist_err, mp) else (
        op_ok,
        record mp { inode_tree = write_back mp.inode_tree ino2'; ext_del = mp.ext_del ++ items },
      )

  unfoldable pub fsm_append_extents : MetaPartition → Inode → Status × MetaPartition
  unfolding append_found
  fsm_append_extents mp ino = append_found mp ino (get mp.inode_tree ino)

  -- fsmExtentsTruncate, on what CopyGet found.
  truncate_found : MetaPartition → Inode → Option Inode → InodeResponse × MetaPartition
  truncate_found mp ino none = ((op_not_exist_err, none), mp)
  truncate_found mp ino (some i) =
      let del_extents = ascend_greater_or_equal i.extents (key_at ino.size) in
      let i' = extents_truncate i del_extents ino.size ino.modify_time in
      if should_delete i
      then ((op_not_exist_err, none), mp)
      else (if is_dir i.type then ((op_arg_mismatch_err, none), mp) else (
        (op_ok, none),
        record mp { inode_tree = write_back mp.inode_tree i'; ext_del = mp.ext_del ++ del_extents },
      ))

  unfoldable pub fsm_extents_truncate : MetaPartition → Inode → InodeResponse × MetaPartition
  unfolding truncate_found
  fsm_extents_truncate mp ino = truncate_found mp ino (get mp.inode_tree ino)

  -- fsmEvictInode, on what CopyGet found.
  evict_found : MetaPartition → Option Inode → InodeResponse × MetaPartition
  evict_found mp none = ((op_not_exist_err, none), mp)
  evict_found mp (some i) =
      let marked = record mp { inode_tree = write_back mp.inode_tree (set_delete_mark i) } in
      if should_delete i
      then ((op_ok, none), mp)
      else (if is_dir i.type
          then ((op_ok, none), if is_empty_dir i then marked else mp)
          else ((op_ok, none), if is_temp_file i then marked else mp))

  unfoldable pub fsm_evict_inode : MetaPartition → Inode → InodeResponse × MetaPartition
  unfolding evict_found
  fsm_evict_inode mp ino = evict_found mp (get mp.inode_tree ino)

  -- checkAndInsertFreeList
  unfoldable pub check_and_insert_free_list : MetaPartition → Inode → MetaPartition
  check_and_insert_free_list mp ino =
      if is_dir ino.type
      then mp
      else (if should_delete ino then record mp { free_list = push mp.free_list ino.inode } else mp)

  -- fsmSetAttr, on what CopyGet found; it always returns a nil error.
  set_attr_found : MetaPartition → SetattrRequest → Option Inode → MetaPartition
  set_attr_found mp req none = mp
  set_attr_found mp req (some ino) =
      let ino' = set_attr ino req.valid req.mode req.uid req.gid in
      if should_delete ino then mp else record mp { inode_tree = write_back mp.inode_tree ino' }

  unfoldable pub fsm_set_attr : MetaPartition → ℕ → SetattrRequest → MetaPartition
  unfolding set_attr_found
  fsm_set_attr mp now req =
      set_attr_found mp req (get mp.inode_tree (new_inode req.inode req.mode now))
