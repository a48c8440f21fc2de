-- ===== src/MetaNode/Partition/Follows/Inodes.antt =====
-- The operations of the log on inodes, as changes of the inode tree:
-- metanode/partition_fsmop_inode.go.
use cfs.Base.{
  ℕ, length, zero, suc, ◌⊎◌, ◌≡◌, false, some, arith, refl, Result-cases, err, inl, inr, List, [],
  ◌∷◌, Error,
}
use cfs.Bytes.{Bytes, read_uint}
use cfs.GoogleBtree.{BtreePackage}
use cfs.MetaNode.BTree.{get, delete, write_back, ascend, ascend_greater_or_equal}
use cfs.MetaNode.Inode.{
  Inode, new_inode, inc_nlink, dec_nlink, should_delete, set_delete_mark, set_attr, append_extents,
  append_loop, extents_truncate,
}
use cfs.MetaNode.Inode.Order.{inode_item}
use cfs.MetaNode.Extents.{key_at}
use cfs.Proto.ExtentKey.{ExtentKey, extent_item}
use cfs.MetaNode.Partition.{MetaPartition}
use cfs.MetaNode.Partition.InodeOps.{
  SetattrRequest, unlinked, fsm_create_link_inode, fsm_unlink_inode, fsm_append_extents,
  fsm_extents_truncate, fsm_evict_inode, fsm_set_attr, internal_delete, internal_delete_inode,
  delete_loop,
}
use cfs.MetaNode.Partition.Follows.{
  Evolves, Evolves-refl, Evolves-trans, Evolves-delete, Evolves-write_back, Evolves-cases,
}

module _ ⦃L : BtreePackage⦄ where
  -- The operations on inodes, all but fsmCreateInode.
  pub Evolves-create_link :
      (mp : MetaPartition) (ino : Inode)
      → Evolves mp.inode_tree (fsm_create_link_inode mp ino).1.inode_tree
  unfolding fsm_create_link_inode inc_nlink
  Evolves-create_link mp ino =
      Evolves-cases mp.inode_tree _ ino (λ h. ground arith) (λ i h m. ground arith)
        λ i h l.
          let e : (fsm_create_link_inode mp ino).1.inode_tree
              ≡ write_back mp.inode_tree (inc_nlink i) =
            ground arith in
          rw e (Evolves-write_back mp.inode_tree ino i (inc_nlink i) h l refl)

  unlinked-number : (i : Inode) (ct : ℕ) → (unlinked i ct).inode ≡ i.inode
  unfolding dec_nlink
  unlinked-number i ct = ground arith

  unlink-tree :
      (mp : MetaPartition) (ino i : Inode)
      → get mp.inode_tree ino ≡ some i
      → should_delete i ≡ false
      → ((fsm_unlink_inode mp ino).1.inode_tree
          ≡ write_back mp.inode_tree (unlinked i ino.modify_time))
        ⊎ ((fsm_unlink_inode mp ino).1.inode_tree
            ≡ (delete
                (write_back mp.inode_tree (unlinked i ino.modify_time))
                (unlinked i ino.modify_time)).1)
  unfolding fsm_unlink_inode
  unlink-tree mp ino i h l = ground arith

  pub Evolves-unlink :
      (mp : MetaPartition) (ino : Inode)
      → Evolves mp.inode_tree (fsm_unlink_inode mp ino).1.inode_tree
  unfolding fsm_unlink_inode
  Evolves-unlink mp ino =
      Evolves-cases mp.inode_tree _ ino (λ h. ground arith) (λ i h m. ground arith)
        λ i h l.
          let written : Evolves mp.inode_tree
              (write_back mp.inode_tree (unlinked i ino.modify_time)) =
            Evolves-write_back mp.inode_tree ino i (unlinked i ino.modify_time) h l
              (unlinked-number i ino.modify_time) in
          elim (unlink-tree mp ino i h l) [
            | inl e ↦ rw e written
            | inr e ↦ rw e (
                Evolves-trans mp.inode_tree (write_back mp.inode_tree (unlinked i ino.modify_time))
                  _ written (Evolves-delete _ _))
          ]

  append_loop-number : (exts : List ExtentKey) (i : Inode) → (append_loop i exts).1.inode ≡ i.inode
  unfolding append_loop
  append_loop-number [] i = refl
  append_loop-number (ext ∷ exts) i = append_loop-number exts _

  append_extents-number :
      (i : Inode) (exts : List ExtentKey) (ct : ℕ) → (append_extents i exts ct).1.inode ≡ i.inode
  unfolding append_extents
  append_extents-number i exts ct = append_loop-number exts i

  pub Evolves-append_extents :
      (mp : MetaPartition) (ino : Inode)
      → Evolves mp.inode_tree (fsm_append_extents mp ino).1.inode_tree
  unfolding fsm_append_extents
  Evolves-append_extents mp ino =
      Evolves-cases mp.inode_tree _ ino (λ h. ground arith) (λ i h m. ground arith)
        λ i h l.
          let i' = (append_extents i (ascend ino.extents) ino.modify_time).1 in
          let e : (fsm_append_extents mp ino).1.inode_tree ≡ write_back mp.inode_tree i' =
            ground arith in
          rw e (Evolves-write_back mp.inode_tree ino i i' h l (append_extents-number i _ _))

  pub Evolves-truncate :
      (mp : MetaPartition) (ino : Inode)
      → Evolves mp.inode_tree (fsm_extents_truncate mp ino).1.inode_tree
  unfolding fsm_extents_truncate
  Evolves-truncate mp ino =
      Evolves-cases mp.inode_tree _ ino (λ h. ground arith) (λ i h m. ground arith)
        λ i h l.
          let i' =
            extents_truncate i (ascend_greater_or_equal i.extents (key_at ino.size)) ino.size
              ino.modify_time in
          let e : ((fsm_extents_truncate mp ino).1.inode_tree ≡ mp.inode_tree)
              ⊎ ((fsm_extents_truncate mp ino).1.inode_tree ≡ write_back mp.inode_tree i') =
            ground arith in
          elim e [
            | inl same ↦ rw same (Evolves-refl mp.inode_tree)
            | inr cut ↦
                rw cut
                  (Evolves-write_back mp.inode_tree ino i i' h l (unfold extents_truncate in refl))
          ]

  pub Evolves-evict :
      (mp : MetaPartition) (ino : Inode)
      → Evolves mp.inode_tree (fsm_evict_inode mp ino).1.inode_tree
  unfolding fsm_evict_inode
  Evolves-evict mp ino =
      Evolves-cases mp.inode_tree _ ino (λ h. ground arith) (λ i h m. ground arith)
        λ i h l.
          let i' = set_delete_mark i in
          let e : ((fsm_evict_inode mp ino).1.inode_tree ≡ mp.inode_tree)
              ⊎ ((fsm_evict_inode mp ino).1.inode_tree ≡ write_back mp.inode_tree i') =
            ground arith in
          elim e [
            | inl same ↦ rw same (Evolves-refl mp.inode_tree)
            | inr cut ↦
                rw cut
                  (Evolves-write_back mp.inode_tree ino i i' h l (unfold set_delete_mark in refl))
          ]

  pub Evolves-set_attr :
      (mp : MetaPartition) (now : ℕ) (req : SetattrRequest)
      → Evolves mp.inode_tree (fsm_set_attr mp now req).inode_tree
  unfolding fsm_set_attr
  Evolves-set_attr mp now req =
      Evolves-cases mp.inode_tree _ (new_inode req.inode req.mode now) (λ h. ground arith)
        (λ i h m. ground arith)
        λ i h l.
          let i' = set_attr i req.valid req.mode req.uid req.gid in
          let e : (fsm_set_attr mp now req).inode_tree ≡ write_back mp.inode_tree i' =
            ground arith in
          rw e (
            Evolves-write_back mp.inode_tree (new_inode req.inode req.mode now) i i' h l
              (unfold set_attr in refl))

  Evolves-delete_loop :
      (fuel : ℕ) (mp : MetaPartition) (ino : Inode) (buf : Bytes)
      → Evolves mp.inode_tree (delete_loop fuel mp ino buf).1.inode_tree
  unfolding delete_loop internal_delete_inode
  Evolves-delete_loop zero mp ino buf = Evolves-refl mp.inode_tree
  Evolves-delete_loop (suc fuel) mp ino buf = elim (Result-cases (read_uint 8 buf)) [
    | inl ((v, rest), e) ↦
        rw (e, delete_loop)
          (Evolves-trans mp.inode_tree (delete mp.inode_tree (record ino { inode = v })).1 _
            (Evolves-delete mp.inode_tree (record ino { inode = v }))
            (Evolves-delete_loop fuel (internal_delete_inode mp (record ino { inode = v }))
              (record ino { inode = v }) rest))
    | inr (x, e) ↦ rw (stops x e) (Evolves-refl mp.inode_tree)
  ]
    where
      stops :
          (x : Error)
          → read_uint 8 buf ≡ err x
          → (delete_loop (suc fuel) mp ino buf).1.inode_tree ≡ mp.inode_tree
      stops x e = ground arith

  pub Evolves-internal_delete :
      (mp : MetaPartition) (now : ℕ) (val : Bytes)
      → Evolves mp.inode_tree (internal_delete mp now val).1.inode_tree
  unfolding internal_delete
  Evolves-internal_delete mp now val =
      Evolves-delete_loop (suc (length val)) mp (new_inode 0 0 now) val
