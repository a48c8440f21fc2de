-- ===== src/Sdk/Meta/Moves.antt =====
-- Rename_ll of sdk/meta/api.go to a new name, on a volume of one partition.
use cfs.Base.{
  ℕ, ◌+◌, ◌<◌, ◌^◌, ◌≡◌, ◌≢◌, ◌==◌, true, false, none, some, if◌then◌else◌, arith, refl, ◌∙◌, ap,
  Option-cases, inl, inr,
}
use cfs.GoogleBtree.{BtreePackage, equiv}
use cfs.Proto.{is_dir, op_ok}
use cfs.MetaNode.BTree.{get}
use cfs.MetaNode.BTree.Laws.{get-equiv}
use cfs.MetaNode.Dentry.{Dentry}
use cfs.MetaNode.Dentry.Order.{dentry_item}
use cfs.MetaNode.Inode.{Inode, new_inode, inc_nlink, should_delete}
use cfs.MetaNode.Inode.Order.{inode_item}
use cfs.MetaNode.Partition.{MetaPartition}
use cfs.MetaNode.Partition.DentryOps.{fsm_create_dentry, fsm_delete_dentry}
use cfs.MetaNode.Partition.Entries.{
  create_dentry_absent, delete_dentry_entries, delete_dentry_others,
}
use cfs.Sdk.Meta.{parse_status, status_ok, enoent}
use cfs.Sdk.Meta.Partition.{MetaWrapper, get_partition_by_inode}
use cfs.Sdk.Meta.Operation.{iunlink, lookup}
use cfs.Sdk.Meta.Api.{done, refused, is_exist}
use cfs.Sdk.Meta.Rename.{
  Rename, unlink_old, delete_source, entry_made, create_destination, link_source, rename_ll,
}
use cfs.Sdk.Meta.Answers.{
  named, linked, at_partition-known, dcreate-entry, lookup-found, ddelete-found, ilink-live,
  get-linked, iunlink-linked,
}
use cfs.Sdk.Meta.OnePartition.{one_partition}

module _ ⦃L : BtreePackage⦄ (now : ℕ) (mw : MetaWrapper) (w : MetaPartition)
    (r : Rename (one_partition now) mw) (i par : Inode) where
  abbrev pub source : Dentry
  source = named r.src_parent_id r.src_name

  -- The entry under the new name.
  abbrev pub target : Dentry
  target = record { parent_id = r.dst_parent_id; name = r.dst_name; inode = r.inode; type = r.mode }

  -- The file `i` has the old name, and the new name is free in the live directory `par`.
  pub record CanMove : Type 0 where
    pub src_parent_known : get_partition_by_inode mw r.src_parent_id ≡ some r.src_parent_mp
    pub dst_parent_known : get_partition_by_inode mw r.dst_parent_id ≡ some r.dst_parent_mp
    pub known : get_partition_by_inode mw r.inode ≡ some r.src_mp
    pub d : Dentry
    pub entry : get w.dentry_tree source ≡ some d
    pub names : (d.inode ≡ r.inode) × (d.type ≡ r.mode)
    pub free : get w.dentry_tree target ≡ none
    pub found : get w.inode_tree (new_inode r.inode 0 now) ≡ some i
    pub live : should_delete i ≡ false
    pub file : is_dir i.type ≡ false
    pub counted : i.nlink + 1 < 2 ^ 32
    pub parent : get w.inode_tree (new_inode r.dst_parent_id 0 now) ≡ some par
    pub parent_live : should_delete par ≡ false
    pub parent_dir : is_dir par.type ≡ true
    pub dst_other : r.dst_parent_id ≢ r.inode
    pub src_other : r.src_parent_id ≢ r.inode

  module _ (c : CanMove) where
    abbrev w1 : MetaPartition
    w1 = linked now w r.inode i c.found c.live

    parent-linked : get w1.inode_tree (new_inode r.dst_parent_id 0 now) ≡ some par
    unfolding new_inode
    parent-linked = ground (
      arith,
      get-linked now w r.inode i c.found c.live (new_inode r.dst_parent_id 0 now),
      c.parent,
      c.dst_other,
    )

    abbrev w2 : MetaPartition
    w2 = (fsm_create_dentry w1 now target false).1

    created :
        ((fsm_create_dentry w1 now target false).0 ≡ op_ok)
        × ((e : Dentry)
            → get w2.dentry_tree e
              ≡ (if equiv dentry_item target e then some target else get w.dentry_tree e))
        × ((j : Inode)
            → get w2.inode_tree j
              ≡ (if r.dst_parent_id == j.inode then some (inc_nlink par) else get w1.inode_tree j))
    created = create_dentry_absent w1 now target par parent-linked c.parent_live c.parent_dir c.free

    source-created : get w2.dentry_tree source ≡ some c.d
    source-created =
        ground (arith, created.1 source, get-equiv w.dentry_tree target source, c.entry, c.free)

    abbrev w3 : MetaPartition
    w3 = (fsm_delete_dentry w2 now source).1

    deleted :
        ((fsm_delete_dentry w2 now source).0 ≡ (op_ok, c.d))
        × ((e : Dentry)
            → get w3.dentry_tree e
              ≡ (if equiv dentry_item source e then none else get w2.dentry_tree e))
    deleted = delete_dentry_entries w2 now source c.d source-created

    file-deleted : get w3.inode_tree (new_inode r.inode 0 now) ≡ some (inc_nlink i)
    unfolding new_inode
    file-deleted =
        let apart : (r.src_parent_id == r.inode) ≡ false = ground (arith, c.src_other) in
        delete_dentry_others w2 now source c.d source-created (new_inode r.inode 0 now) apart
        ∙ ground (
          arith,
          created.2 (new_inode r.inode 0 now),
          get-linked now w r.inode i c.found c.live (new_inode r.inode 0 now),
          c.dst_other,
        )

    abbrev w4 : MetaPartition
    w4 = (iunlink (one_partition now) w3 r.src_mp r.inode).1

    unlink_old-none : (w' : MetaPartition) → unlink_old (one_partition now) mw w' 0 ≡ w'
    unfolding unlink_old
    unlink_old-none w' = elim (Option-cases (get_partition_by_inode mw 0)) [
      | inl e ↦ rw (e, unlink_old) refl
      | inr (mp, e) ↦ rw (e, unlink_old) refl
    ]

    looked_up :
        lookup (one_partition now) w r.src_parent_mp r.src_parent_id r.src_name
        ≡ ((status_ok, (r.inode, r.mode), false), w)
    looked_up =
        lookup-found now w r.src_parent_mp r.src_parent_id r.src_name c.d c.entry
        ∙ rw (c.names.0, c.names.1) refl

    delete_source-moved : delete_source (one_partition now) mw r w2 0 ≡ (done tt, w4)
    unfolding delete_source refused
    delete_source-moved =
        rw (ddelete-found now w2 r.src_parent_mp r.src_parent_id r.src_name c.d deleted.0)
          (ap (λ x. (done tt, x)) (unlink_old-none w4))

    create_destination-moved : create_destination (one_partition now) mw r w1 ≡ (done tt, w4)
    unfolding create_destination entry_made refused is_exist parse_status
    create_destination-moved =
        rw
          (
            dcreate-entry now w1 r.dst_parent_mp r.dst_parent_id r.dst_name r.inode r.mode
                c.dst_other,
            created.0,
          )
          delete_source-moved

    link_source-moved : link_source (one_partition now) mw r w ≡ (done tt, w4)
    unfolding link_source refused
    link_source-moved =
        rw (ilink-live now w r.inode i c.found c.live r.src_mp) create_destination-moved

    rename_ll-moved :
        rename_ll (one_partition now) mw w r.src_parent_id r.src_name r.dst_parent_id r.dst_name
        ≡ (done tt, w4)
    unfolding rename_ll refused
    rename_ll-moved =
        at_partition-known (one_partition now) mw r.src_parent_id enoent w r.src_parent_mp _
          c.src_parent_known
        ∙ at_partition-known (one_partition now) mw r.dst_parent_id enoent w r.dst_parent_mp _
            c.dst_parent_known
        ∙ rw looked_up (
            at_partition-known (one_partition now) mw r.inode enoent w r.src_mp _ c.known
            ∙ link_source-moved)

    -- On one partition that answers every request, Rename_ll of a live file, whose link count does
    -- not overflow, to a free name in a live directory succeeds: the old name is gone, the new one
    -- names the file with its type, every other entry is as it was, and the file has its links and
    -- only its time of modification changed.
    pub rename_ll-new :
        ((rename_ll
            (one_partition now)
            mw
            w
            r.src_parent_id
            r.src_name
            r.dst_parent_id
            r.dst_name).0
          ≡ done tt)
        × ((e : Dentry)
            → get
                (rename_ll
                  (one_partition now)
                  mw
                  w
                  r.src_parent_id
                  r.src_name
                  r.dst_parent_id
                  r.dst_name).1.dentry_tree
                e
              ≡ (if equiv dentry_item source e
                  then none
                  else if equiv dentry_item target e
                  then some target
                  else get w.dentry_tree e))
        × (get
              (rename_ll
                (one_partition now)
                mw
                w
                r.src_parent_id
                r.src_name
                r.dst_parent_id
                r.dst_name).1.inode_tree
              (new_inode r.inode 0 now)
            ≡ some (record i { modify_time = now }))
    rename_ll-new =
        let last =
          iunlink-linked now w r.inode i c.found c.live r.src_mp w3 c.file c.counted file-deleted in
        rw rename_ll-moved (
          refl,
          λ e.
              ap (λ t. get t e) last.1
              ∙ deleted.1 e
              ∙ ap (λ o. if equiv dentry_item source e then none else o) (created.1 e),
          last.0 (new_inode r.inode 0 now) ∙ (unfold new_inode in ground arith),
        )
