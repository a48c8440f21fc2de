-- ===== src/MetaNode/Partition/Steps.antt =====
-- The cases of Apply, metanode/partition_fsm.go, as steps of two kinds.
use cfs.Base.{
  ℕ, length, zero, suc, ◌≤◌, ◌⊎◌, ◌≡◌, false, arith, refl, Option-cases, inl, inr, Result-cases,
}
use cfs.Bytes.{Bytes, read_uint}
use cfs.GoogleBtree.{BtreePackage}
use cfs.MetaNode.BTree.{replace_or_insert}
use cfs.MetaNode.Inode.{Inode, new_inode}
use cfs.MetaNode.Inode.Codec
use cfs.MetaNode.Inode.Order.{inode_item}
use cfs.MetaNode.Dentry
use cfs.MetaNode.Dentry.{Dentry}
use cfs.MetaNode.Partition.{MetaPartition}
use cfs.MetaNode.Partition.InodeOps.{
  fsm_create_inode, fsm_create_link_inode, fsm_unlink_inode, fsm_append_extents,
  fsm_extents_truncate, fsm_evict_inode, fsm_set_attr, internal_delete, delete_loop,
  internal_delete_inode as delete_inode,
}
use cfs.MetaNode.Partition.DentryOps.{
  blank_dentry, fsm_create_dentry, fsm_delete_dentry, fsm_update_dentry,
}
use cfs.MetaNode.Partition.Apply.{
  Surroundings, Response, Op, create_inode, unlink_inode, extent_truncate, create_link_inode,
  evict_inode, set_attr, create_dentry, delete_dentry, update_dentry, update_partition, extents_add,
  store_tick, internal_delete_inode, internal_del_extent_file, internal_del_extent_cursor, other_op,
  dispatch, with_inode, with_dentry, of_status, of_inode, of_dentry, create_at_cursor,
  fsm_update_partition,
}
use cfs.MetaNode.Partition.Follows.{Evolves, Evolves-refl}
use cfs.MetaNode.Partition.Follows.Inodes.{
  Evolves-create_link, Evolves-unlink, Evolves-append_extents, Evolves-truncate, Evolves-evict,
  Evolves-set_attr, Evolves-internal_delete,
}
use cfs.MetaNode.Partition.Follows.Dentries.{
  Evolves-create_dentry, Evolves-delete_dentry, update_dentry-inode_tree,
}

module _ ⦃L : BtreePackage⦄ where
  -- A step of the state machine: the inodes follow and the cursor stays, or an inode is inserted at
  -- a number below the cursor.
  pub record Stays (mp mp' : MetaPartition) : Type 0 where
    pub follows : Evolves mp.inode_tree mp'.inode_tree
    pub same_cursor : mp'.cursor ≡ mp.cursor

  pub record Inserts (mp mp' : MetaPartition) : Type 0 where
    pub ino : Inode
    pub written : mp'.inode_tree ≡ (replace_or_insert mp.inode_tree ino false).1
    pub raised : mp.cursor ≤ mp'.cursor
    pub reached : ino.inode ≤ mp'.cursor

  -- Every operation leaves the cursor alone.
  delete_loop-cursor :
      (fuel : ℕ) (mp : MetaPartition) (ino : Inode) (buf : Bytes)
      → (delete_loop fuel mp ino buf).1.cursor ≡ mp.cursor
  unfolding delete_loop delete_inode
  delete_loop-cursor zero mp ino buf = refl
  delete_loop-cursor (suc fuel) mp ino buf = elim (Result-cases (read_uint 8 buf)) [
    | inl ((v, rest), e) ↦
        rw (e, delete_loop)
          (delete_loop-cursor fuel (delete_inode mp (record ino { inode = v }))
            (record ino { inode = v }) rest)
    | inr (x, e) ↦ ground arith
  ]

  stays :
      (mp mp' : MetaPartition)
      → Evolves mp.inode_tree mp'.inode_tree
      → mp'.cursor ≡ mp.cursor
      → Stays mp mp' ⊎ Inserts mp mp'
  stays mp mp' f c = inl (record { follows = f; same_cursor = c })

  unchanged :
      (mp mp' : MetaPartition)
      → mp'.inode_tree ≡ mp.inode_tree
      → mp'.cursor ≡ mp.cursor
      → Stays mp mp' ⊎ Inserts mp mp'
  unchanged mp mp' t c = stays mp mp' (rw t (Evolves-refl mp.inode_tree)) c

  -- A command that carries an inode or a dentry: it cannot be decoded and changes nothing, or its
  -- operation runs.
  with_inode-steps :
      (now : ℕ) (mp : MetaPartition) (v : Bytes) (handler : Inode → Response × MetaPartition)
      → ((ino : Inode) → Stays mp (handler ino).1 ⊎ Inserts mp (handler ino).1)
      → Stays mp (with_inode now mp v handler).1 ⊎ Inserts mp (with_inode now mp v handler).1
  unfolding with_inode
  with_inode-steps now mp v handler each =
      elim (Option-cases (Codec.unmarshal (new_inode 0 0 now) v).0) [
        | inl e ↦ rw (e, with_inode) (each (Codec.unmarshal (new_inode 0 0 now) v).1)
        | inr (x, e) ↦ rw (e, with_inode) (unchanged mp mp refl refl)
      ]

  with_dentry-steps :
      (mp : MetaPartition) (v : Bytes) (handler : Dentry → Response × MetaPartition)
      → ((den : Dentry) → Stays mp (handler den).1 ⊎ Inserts mp (handler den).1)
      → Stays mp (with_dentry mp v handler).1 ⊎ Inserts mp (with_dentry mp v handler).1
  unfolding with_dentry
  with_dentry-steps mp v handler each = elim (Option-cases (Dentry.unmarshal blank_dentry v).0) [
    | inl e ↦ rw (e, with_dentry) (each (Dentry.unmarshal blank_dentry v).1)
    | inr (x, e) ↦ rw (e, with_dentry) (unchanged mp mp refl refl)
  ]

  create_at_cursor-Inserts :
      (mp : MetaPartition) (ino : Inode) → Inserts mp (create_at_cursor mp ino).1
  unfolding create_at_cursor fsm_create_inode
  create_at_cursor-Inserts mp ino = record {
    ino = ino;
    written = refl;
    raised = ground arith;
    reached = ground arith;
  }

  pub dispatch-steps :
      (s : Surroundings) (mp : MetaPartition) (op : Op) (v : Bytes) (index : ℕ)
      → Stays mp (dispatch s mp op v index).1 ⊎ Inserts mp (dispatch s mp op v index).1
  unfolding dispatch
  dispatch-steps s mp create_inode v index =
      with_inode-steps s.now mp v (λ ino. of_status (create_at_cursor mp ino))
        λ ino. inr (create_at_cursor-Inserts mp ino)
  dispatch-steps s mp unlink_inode v index =
      with_inode-steps s.now mp v (λ ino. of_inode (fsm_unlink_inode mp ino))
        λ ino.
          stays mp (fsm_unlink_inode mp ino).1 (Evolves-unlink mp ino)
            (unfold fsm_unlink_inode in ground arith)
  dispatch-steps s mp extent_truncate v index =
      with_inode-steps s.now mp v (λ ino. of_inode (fsm_extents_truncate mp ino))
        λ ino.
          stays mp (fsm_extents_truncate mp ino).1 (Evolves-truncate mp ino)
            (unfold fsm_extents_truncate in ground arith)
  dispatch-steps s mp create_link_inode v index =
      with_inode-steps s.now mp v (λ ino. of_inode (fsm_create_link_inode mp ino))
        λ ino.
          stays mp (fsm_create_link_inode mp ino).1 (Evolves-create_link mp ino)
            (unfold fsm_create_link_inode in ground arith)
  dispatch-steps s mp evict_inode v index =
      with_inode-steps s.now mp v (λ ino. of_inode (fsm_evict_inode mp ino))
        λ ino.
          stays mp (fsm_evict_inode mp ino).1 (Evolves-evict mp ino)
            (unfold fsm_evict_inode in ground arith)
  dispatch-steps s mp set_attr v index = elim (Result-cases (s.setattr_of v)) [
    | inl (req, e) ↦ rw e (
        stays mp (fsm_set_attr mp s.now req) (Evolves-set_attr mp s.now req)
          (unfold fsm_set_attr in ground arith))
    | inr (x, e) ↦ rw e (unchanged mp mp refl refl)
  ]
  dispatch-steps s mp create_dentry v index =
      with_dentry-steps mp v (λ den. of_status (fsm_create_dentry mp s.now den false))
        λ den.
          stays mp (fsm_create_dentry mp s.now den false).1 (Evolves-create_dentry mp s.now den)
            (unfold fsm_create_dentry in ground arith)
  dispatch-steps s mp delete_dentry v index =
      with_dentry-steps mp v (λ den. of_dentry (fsm_delete_dentry mp s.now den))
        λ den.
          stays mp (fsm_delete_dentry mp s.now den).1 (Evolves-delete_dentry mp s.now den)
            (unfold fsm_delete_dentry in ground arith)
  dispatch-steps s mp update_dentry v index =
      with_dentry-steps mp v (λ den. of_dentry (fsm_update_dentry mp den))
        λ den.
          unchanged mp (fsm_update_dentry mp den).1 (update_dentry-inode_tree mp den)
            (unfold fsm_update_dentry in ground arith)
  dispatch-steps s mp update_partition v index =
      unchanged mp (dispatch s mp update_partition v index).1
        (unfold fsm_update_partition in ground arith) (unfold fsm_update_partition in ground arith)
  dispatch-steps s mp extents_add v index =
      with_inode-steps s.now mp v (λ ino. of_status (fsm_append_extents mp ino))
        λ ino.
          stays mp (fsm_append_extents mp ino).1 (Evolves-append_extents mp ino)
            (unfold fsm_append_extents in ground arith)
  dispatch-steps s mp store_tick v index = unchanged mp _ refl refl
  dispatch-steps s mp internal_delete_inode v index =
      stays mp (internal_delete mp s.now v).1 (Evolves-internal_delete mp s.now v)
        (unfold internal_delete in delete_loop-cursor (suc (length v)) mp (new_inode 0 0 s.now) v)
  dispatch-steps s mp internal_del_extent_file v index = unchanged mp mp refl refl
  dispatch-steps s mp internal_del_extent_cursor v index = unchanged mp mp refl refl
  dispatch-steps s mp other_op v index = unchanged mp mp refl refl
