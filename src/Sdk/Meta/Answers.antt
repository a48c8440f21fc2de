-- ===== src/Sdk/Meta/Answers.antt =====
-- What the requests of sdk/meta/operation.go return on one partition.
use cfs.Base.{
  ℕ, ◌+◌, ◌<◌, ◌^◌, ◌∙◌, ◌≡◌, ◌≢◌, ◌==◌, false, none, some, if◌then◌else◌, arith, refl, ap,
}
use cfs.Bytes.{Bytes}
use cfs.GoogleBtree.{BtreePackage}
use cfs.Proto.{op_ok, is_dir}
use cfs.MetaNode.BTree.{get, write_back}
use cfs.MetaNode.Dentry.{Dentry}
use cfs.MetaNode.Dentry.Order.{dentry_item}
use cfs.MetaNode.Inode.{Inode, new_inode, inc_nlink, dec_nlink, should_delete}
use cfs.MetaNode.Inode.Order.{inode_item}
use cfs.MetaNode.Inode.Lookup.{get_found, get-write_number}
use cfs.MetaNode.Partition.{MetaPartition}
use cfs.MetaNode.Partition.InodeOps.{unlinked, fsm_create_link_inode, fsm_unlink_inode}
use cfs.MetaNode.Partition.DentryOps.{
  blank_dentry, get_dentry, fsm_create_dentry, fsm_delete_dentry,
}
use cfs.MetaNode.Partition.Links.{unlink_file}
use cfs.MetaNode.Requests.{blank_info, inode_info, reply_info}
use cfs.Sdk.Meta.{status_ok, parse_status, Errno}
use cfs.Sdk.Meta.Partition
use cfs.Sdk.Meta.Partition.{MetaWrapper, get_partition_by_inode}
use cfs.Sdk.Meta.Operation.{Remote, ilink, iunlink, dcreate, ddelete, lookup, bare, reading}
use cfs.Sdk.Meta.Api.{Call, at_partition}
use cfs.Sdk.Meta.OnePartition.{one_partition}

-- The name that a request looks up.
abbrev pub named : ℕ → Bytes → Dentry
named parent_id name = record blank_dentry { parent_id = parent_id; name = name }

module _ ⦃L : BtreePackage⦄ (R : Remote) (mw : MetaWrapper) {A : Type 0} where
  pub at_partition-known :
      (inode : ℕ) (e : Errno) (w : R.World) (mp : Partition.MetaPartition)
      (call : Partition.MetaPartition → Call R mw A)
      → get_partition_by_inode mw inode ≡ some mp
      → at_partition R mw inode e w call ≡ call mp
  unfolding at_partition
  at_partition-known inode e w mp call h = rw (h, at_partition) refl

module _ ⦃L : BtreePackage⦄ (now : ℕ) (w : MetaPartition) (mp : Partition.MetaPartition) where
  pub dcreate-entry :
      (parent_id : ℕ) (name : Bytes) (ino mode : ℕ)
      → parent_id ≢ ino
      → dcreate (one_partition now) w mp parent_id name ino mode ≡ (
        (
          parse_status
              (fsm_create_dentry w now
                record { parent_id = parent_id; name = name; inode = ino; type = mode }
                false).0,
          false,
        ),
        (fsm_create_dentry w now
            record { parent_id = parent_id; name = name; inode = ino; type = mode }
            false).1,
      )
  unfolding dcreate bare
  dcreate-entry parent_id name ino mode other =
      let apart : (parent_id == ino) ≡ false = ground (arith, other) in rw apart refl

  pub lookup-found :
      (parent_id : ℕ) (name : Bytes) (d : Dentry)
      → get w.dentry_tree (named parent_id name) ≡ some d
      → lookup (one_partition now) w mp parent_id name ≡ ((status_ok, (d.inode, d.type), false), w)
  unfolding lookup reading parse_status get_dentry
  lookup-found parent_id name d h = rw (h, get_dentry) refl

  pub ddelete-found :
      (parent_id : ℕ) (name : Bytes) (d : Dentry)
      → (fsm_delete_dentry w now (named parent_id name)).0 ≡ (op_ok, d)
      → ddelete (one_partition now) w mp parent_id name
        ≡ ((status_ok, d.inode, false), (fsm_delete_dentry w now (named parent_id name)).1)
  unfolding ddelete reading parse_status
  ddelete-found parent_id name d h = rw h refl

module _ ⦃L : BtreePackage⦄ (now : ℕ) (w : MetaPartition) (ino : ℕ) (i : Inode)
    (found : get w.inode_tree (new_inode ino 0 now) ≡ some i) (live : should_delete i ≡ false) where
  -- The partition after the link is added.
  abbrev pub linked : MetaPartition
  linked = record w { inode_tree = write_back w.inode_tree (inc_nlink i) }

  fsm-linked : fsm_create_link_inode w (new_inode ino 0 now) ≡ ((op_ok, some (inc_nlink i)), linked)
  unfolding fsm_create_link_inode
  fsm-linked = ground (arith, found, live)

  linked-info : reply_info (inc_nlink i) ≡ some (inode_info (inc_nlink i))
  unfolding reply_info inc_nlink
  linked-info = rw live refl

  -- What ilink returns.
  pub ilink-live :
      (mp : Partition.MetaPartition)
      → ilink (one_partition now) w mp ino
        ≡ ((status_ok, some (inode_info (inc_nlink i)), false), linked)
  unfolding ilink reading parse_status
  ilink-live mp = rw fsm-linked (
      ap (λ o. ((status_ok, some (elim o [ none ↦ blank_info | some info ↦ info ]), false), linked))
        linked-info)

  pub get-linked :
      (j : Inode)
      → get linked.inode_tree j
        ≡ (if ino == j.inode then some (inc_nlink i) else get w.inode_tree j)
  unfolding inc_nlink new_inode
  get-linked j = ground (
    arith,
    get-write_number w.inode_tree (inc_nlink i) j,
    get_found w.inode_tree (new_inode ino 0 now) i found,
  )

  -- The link is taken back from a file.
  module _ (mp : Partition.MetaPartition) (w' : MetaPartition) (file : is_dir i.type ≡ false)
      (counted : i.nlink + 1 < 2 ^ 32)
      (there : get w'.inode_tree (new_inode ino 0 now) ≡ some (inc_nlink i)) where
    unlinked-linked : unlinked (inc_nlink i) now ≡ record i { modify_time = now }
    unfolding inc_nlink dec_nlink
    unlinked-linked = ground arith

    pub iunlink-linked :
        ((j : Inode)
          → get (iunlink (one_partition now) w' mp ino).1.inode_tree j ≡ (
              if ino == j.inode
              then some (record i { modify_time = now })
              else get w'.inode_tree j))
        × ((iunlink (one_partition now) w' mp ino).1.dentry_tree ≡ w'.dentry_tree)
    unfolding iunlink inc_nlink new_inode
    iunlink-linked = (
      λ j.
          (unlink_file w' (new_inode ino 0 now) (inc_nlink i) there live file).1 j
          ∙ ap (λ o. if ino == j.inode then some o else get w'.inode_tree j) unlinked-linked,
      unfold fsm_unlink_inode in ground arith,
    )
