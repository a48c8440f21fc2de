-- ===== src/MetaNode/Partition/DentryOps.antt =====
-- metanode/partition_fsmop_dentry.go: the operations of the state machine on dentries.
use cfs.Base.{ℕ, ◌+◌, ◌==◌, Bool, false, List, [], map, Option, none, some, if◌then◌else◌}
use cfs.Bytes.{Bytes}
use cfs.GoogleBtree.{BtreePackage}
use cfs.Proto.{Status, op_ok, op_exist_err, op_not_exist_err, op_arg_mismatch_err, is_dir, u64}
use cfs.MetaNode.BTree.{BTree, get, delete, replace_or_insert, write_back, ascend_range}
use cfs.MetaNode.Dentry.{Dentry}
use cfs.MetaNode.Dentry.Order.{dentry_item}
use cfs.MetaNode.Inode.{Inode, new_inode, inc_nlink, dec_nlink, should_delete}
use cfs.MetaNode.Inode.Order.{inode_item}
use cfs.MetaNode.Partition.{MetaPartition}

-- `&Dentry{}`
abbrev pub blank_dentry : Dentry
blank_dentry = record { parent_id = 0; name = []; inode = 0; type = 0 }

-- An entry of ReadDirResp.
pub record DirEntry : Type 0 where
  pub inode : ℕ
  pub type : ℕ
  pub name : Bytes

module _ ⦃L : BtreePackage⦄ where
  -- DentryResponse: Status and Msg.
  abbrev pub DentryResponse : Type 0
  DentryResponse = Status × Dentry

  -- Whether the parent admits a new entry, before any tree is written.
  parent_status : Option Inode → Status
  parent_status none = op_not_exist_err
  parent_status (some i) =
      if should_delete i
      then op_not_exist_err
      else (if is_dir i.type then op_ok else op_arg_mismatch_err)

  add_link : MetaPartition → Option Inode → MetaPartition
  add_link mp none = mp
  add_link mp (some i) = record mp { inode_tree = write_back mp.inode_tree (inc_nlink i) }

  -- The status of an entry that is there already.
  conflict : Dentry → Option Dentry → Status
  conflict dentry none = op_exist_err
  conflict dentry (some d) = if dentry.type == d.type then op_exist_err else op_arg_mismatch_err

  -- The insertion, once the parent has been passed.
  insert_dentry : MetaPartition → Dentry → Bool → Option Inode → Status × MetaPartition
  insert_dentry mp dentry force_update parent =
      let ((item, written), tree) = replace_or_insert mp.dentry_tree dentry false in
      let mp' = record mp { dentry_tree = tree } in
      if written
      then (op_ok, if force_update then mp' else add_link mp' parent)
      else (conflict dentry item, mp')

  guarded : Status → MetaPartition → Status × MetaPartition → Status × MetaPartition
  guarded op_ok mp inserted = inserted
  guarded status mp inserted = (status, mp)

  -- fsmCreateDentry
  unfoldable pub fsm_create_dentry : MetaPartition → ℕ → Dentry → Bool → Status × MetaPartition
  unfolding parent_status add_link conflict insert_dentry guarded
  fsm_create_dentry mp now dentry force_update =
      let parent = get mp.inode_tree (new_inode dentry.parent_id 0 now) in
      let inserted = insert_dentry mp dentry force_update parent in
      if force_update then inserted else guarded (parent_status parent) mp inserted

  -- getDentry
  get_result : Option Dentry → Option Dentry × Status
  get_result none = (none, op_not_exist_err)
  get_result (some d) = (some d, op_ok)

  unfoldable pub get_dentry : MetaPartition → Dentry → Option Dentry × Status
  unfolding get_result
  get_dentry mp dentry = get_result (get mp.dentry_tree dentry)

  -- The parent of a deleted entry loses a link, unless it is gone or marked.
  drop_link : MetaPartition → Option Inode → MetaPartition
  drop_link mp none = mp
  drop_link mp (some i) =
      if should_delete i
      then mp
      else record mp { inode_tree = write_back mp.inode_tree (dec_nlink i) }

  delete_found :
      MetaPartition → ℕ → Dentry → Option Dentry × BTree Dentry → DentryResponse × MetaPartition
  delete_found mp now dentry (none, tree) =
      ((op_not_exist_err, blank_dentry), record mp { dentry_tree = tree })
  delete_found mp now dentry (some d, tree) = (
    (op_ok, d),
    drop_link (record mp { dentry_tree = tree })
        (get mp.inode_tree (new_inode dentry.parent_id 0 now)),
  )

  -- fsmDeleteDentry
  unfoldable pub fsm_delete_dentry : MetaPartition → ℕ → Dentry → DentryResponse × MetaPartition
  unfolding drop_link delete_found
  fsm_delete_dentry mp now dentry = delete_found mp now dentry (delete mp.dentry_tree dentry)

  -- fsmUpdateDentry: the entry and the request swap their inodes.
  update_found : MetaPartition → Dentry → Option Dentry → DentryResponse × MetaPartition
  update_found mp dentry none = ((op_not_exist_err, blank_dentry), mp)
  update_found mp dentry (some d) = (
    (op_ok, record dentry { inode = d.inode }),
    record mp { dentry_tree = write_back mp.dentry_tree (record d { inode = dentry.inode }) },
  )

  unfoldable pub fsm_update_dentry : MetaPartition → Dentry → DentryResponse × MetaPartition
  unfolding update_found
  fsm_update_dentry mp dentry = update_found mp dentry (get mp.dentry_tree dentry)

  -- readDir
  unfoldable pub read_dir : MetaPartition → ℕ → List DirEntry
  read_dir mp parent_id =
      map (λ d. record { inode = d.inode; type = d.type; name = d.name })
        (ascend_range mp.dentry_tree (record blank_dentry { parent_id = parent_id })
          (record blank_dentry { parent_id = u64 (parent_id + 1) }))
