-- ===== src/MetaNode/Snapshot/Iterator.antt =====
-- metanode/partition_item.go, MetaItemIterator: what the leader sends.
use cfs.Base.{
  ℕ, zero, suc, ◌+◌, ◌==◌, leb, List, [], ◌∷◌, Option, none, some, Error, eof, Result, ok, err,
  if◌then◌else◌,
}
use cfs.Bytes.{Bytes, put_uint}
use cfs.GoogleBtree.{BtreeItem, BtreePackage, equiv}
use cfs.MetaNode.BTree.{BTree, ascend, ascend_greater_or_equal, len}
use cfs.MetaNode.Dentry
use cfs.MetaNode.Dentry.{Dentry}
use cfs.MetaNode.Dentry.Order.{dentry_item}
use cfs.MetaNode.Inode.{Inode}
use cfs.MetaNode.Inode.Codec
use cfs.MetaNode.Inode.Order.{inode_item}
use cfs.MetaNode.MetaItem
use cfs.MetaNode.MetaItem.{MetaItem}
use cfs.MetaNode.Snapshot.{op_fsm_create_inode, op_fsm_create_dentry, op_extent_file_snapshot}

module _ {A : Type 0} ⦃o : BtreeItem A⦄ where
  -- The callback passes over curItem and stops at the next item.
  abbrev pub first_other : Option A → List A → Option A
  first_other cur [] = none
  first_other none (x ∷ xs) = some x
  first_other (some cur) (x ∷ xs) =
      let later = first_other (some cur) xs in if equiv o cur x then later else some x

module _ ⦃L : BtreePackage⦄ where
  -- MetaItemIterator. curItem is an inode while inodes are sent, and then nil or a dentry.
  pub record MetaItemIterator : Type 0 where
    pub apply_id : ℕ
    pub cur : ℕ
    pub cur_inode : Option Inode
    pub cur_dentry : Option Dentry
    pub ino_len : ℕ
    pub inode_tree : BTree Inode
    pub dentry_tree : BTree Dentry
    pub file_list : List Bytes
    pub total : ℕ

  -- NewMetaItemIterator
  unfoldable pub new_meta_item_iterator :
      ℕ → BTree Inode → BTree Dentry → List Bytes → MetaItemIterator
  new_meta_item_iterator apply_id ino den file_list = record {
    apply_id = apply_id;
    cur = 0;
    cur_inode = none;
    cur_dentry = none;
    ino_len = len ino;
    inode_tree = ino;
    dentry_tree = den;
    file_list = file_list;
    total = len ino + len den;
  }

  module _ {A : Type 0} ⦃o : BtreeItem A⦄ where
    -- What AscendGreaterOrEqual visits from curItem on; nil is below every item.
    abbrev pub visited : BTree A → Option A → List A
    visited t none = ascend t
    visited t (some cur) = ascend_greater_or_equal t cur

  unfoldable pub inode_data : Inode → Bytes
  inode_data ino =
      MetaItem.marshal_binary
        record { op = op_fsm_create_inode; k = Codec.marshal_key ino; v = Codec.marshal_value ino }

  unfoldable pub dentry_data : Dentry → Bytes
  dentry_data dentry = MetaItem.marshal_binary record {
    op = op_fsm_create_dentry;
    k = Dentry.marshal_key dentry;
    v = Dentry.marshal_value dentry;
  }

  next_inode : MetaItemIterator → Option Inode → (Bytes × Option Error) × MetaItemIterator
  next_inode si none = (([], none), si)
  next_inode si (some ino) =
      ((inode_data ino, none), record si { cur = si.cur + 1; cur_inode = some ino })

  -- Passing a dentry: its data is overwritten in all that follows.
  pass_dentry : MetaItemIterator → Option Dentry → MetaItemIterator
  pass_dentry si none = si
  pass_dentry si (some dentry) = record si { cur = si.cur + 1; cur_dentry = some dentry }

  step_dentry : MetaItemIterator → MetaItemIterator
  step_dentry si =
      let si' = if si.cur == si.ino_len + 1 then record si { cur_dentry = none } else si in
      if leb si'.cur si'.total
      then pass_dentry si' (first_other si'.cur_dentry (visited si'.dentry_tree si'.cur_dentry))
      else si'

  -- The files of extents to delete; MarshalBinary returns no error, and the list is not advanced.
  next_file :
      (Bytes → Result Bytes)
      → MetaItemIterator
      → List Bytes
      → (Bytes × Option Error) × MetaItemIterator
  next_file read_file si [] = (([], some eof), si)
  next_file read_file si (name ∷ names) = elim (read_file name) [
    | err e ↦ (([], some e), si)
    | ok body ↦ (
      (MetaItem.marshal_binary record { op = op_extent_file_snapshot; k = name; v = body }, none),
      si,
    )
  ]

  -- Next, with ioutil.ReadFile as `read_file`.
  unfoldable pub next :
      (Bytes → Result Bytes) → MetaItemIterator → (Bytes × Option Error) × MetaItemIterator
  unfolding next_inode pass_dentry step_dentry next_file
  next read_file si =
      if si.cur == 0
      then ((put_uint 8 si.apply_id, none), record si { cur = 1 })
      else (if leb si.cur si.ino_len
          then next_inode si (first_other si.cur_inode (visited si.inode_tree si.cur_inode))
          else next_file read_file (step_dentry si) si.file_list)

  -- Next until it fails: the data, and the error, or none if the fuel runs out first.
  unfoldable pub drain : ℕ → (Bytes → Result Bytes) → MetaItemIterator → List Bytes × Option Error
  drain zero read_file si = ([], none)
  drain (suc fuel) read_file si =
      let ((item, x), si') = next read_file si in
      let (rest, last) = drain fuel read_file si' in
      elim x [ none ↦ (item ∷ rest, last) | some e ↦ ([], some e) ]
