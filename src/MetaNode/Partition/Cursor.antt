-- ===== src/MetaNode/Partition/Cursor.antt =====
-- The cursor and the delete marks of a partition under Apply and nextInodeID:
-- metanode/partition_fsm.go and metanode/partition.go.
use cfs.Base.{
  ap, ℕ, ◌≤◌, ◌⊎◌, ◌≡◌, ◌==◌, true, Option, some, none, if◌then◌else◌, arith, refl, ◌∙◌, Bool-cases,
  Option-cases, inl, inr, ==_iff, ok, Error,
}
use cfs.Bytes.{Bytes}
use cfs.GoogleBtree.{BtreePackage}
use cfs.MetaNode.BTree.{get}
use cfs.MetaNode.Inode.{Inode, should_delete}
use cfs.MetaNode.Inode.Order.{inode_item}
use cfs.MetaNode.Inode.Lookup.{get_found, get-number, get-insert_number}
use cfs.MetaNode.Partition.{MetaPartition, next_inode_id}
use cfs.MetaNode.Partition.Apply.{upload_apply_id, Surroundings, Response, Op, apply, dispatch}
use cfs.MetaNode.Partition.Steps.{Stays, Inserts, dispatch-steps}
use cfs.MetaNode.Partition.Follows.{Follows}

module _ ⦃L : BtreePackage⦄ where
  -- The cursor has reached every number in the inode tree.
  abbrev pub IsCovered : MetaPartition → Type 0
  IsCovered mp = (k i : Inode) → get mp.inode_tree k ≡ some i → i.inode ≤ mp.cursor

  pub Stays-IsCovered : (mp mp' : MetaPartition) → Stays mp mp' → IsCovered mp → IsCovered mp'
  Stays-IsCovered mp mp' s c k i' h = elim (Option-cases (get mp.inode_tree k)) [
    | inl e ↦ absurd (rw (e, h) at (s.follows k))
    | inr (i, e) ↦ omega (
      arith,
      c k i e,
      s.same_cursor,
      get_found mp.inode_tree k i e,
      get_found mp'.inode_tree k i' h,
    )
  ]

  Inserts-IsCovered : (mp mp' : MetaPartition) → Inserts mp mp' → IsCovered mp → IsCovered mp'
  Inserts-IsCovered mp mp' s c k i' h = elim (Bool-cases (s.ino.inode == k.inode)) [
    | inl e ↦
        omega (arith, s.reached, (==_iff s.ino.inode k.inode).0 e, get_found mp'.inode_tree k i' h)
    | inr e ↦
        omega (
          arith,
          s.raised,
          c k i' (rw (s.written, get-insert_number mp.inode_tree s.ino k, e) at h),
        )
  ]

  upload-tree :
      (index : ℕ) (r : (Response × Option Error) × MetaPartition)
      → (upload_apply_id index r).1.inode_tree ≡ r.1.inode_tree
  unfolding upload_apply_id
  upload-tree index ((resp, none), mp) = refl
  upload-tree index ((resp, some e), mp) = refl

  upload-cursor :
      (index : ℕ) (r : (Response × Option Error) × MetaPartition)
      → (upload_apply_id index r).1.cursor ≡ r.1.cursor
  unfolding upload_apply_id
  upload-cursor index ((resp, none), mp) = refl
  upload-cursor index ((resp, some e), mp) = refl

  apply-tree :
      (s : Surroundings) (mp : MetaPartition) (op : Op) (v : Bytes) (index : ℕ)
      → (apply s mp op v index).1.inode_tree ≡ (dispatch s mp op v index).1.inode_tree
  unfolding apply
  apply-tree s mp op v index = upload-tree index (dispatch s mp op v index)

  pub apply-cursor :
      (s : Surroundings) (mp : MetaPartition) (op : Op) (v : Bytes) (index : ℕ)
      → (apply s mp op v index).1.cursor ≡ (dispatch s mp op v index).1.cursor
  unfolding apply
  apply-cursor s mp op v index = upload-cursor index (dispatch s mp op v index)

  -- Where all numbers of the inode tree are at or below the cursor, they are so after every
  -- command that Apply is given, whatever its bytes and whether or not it succeeds.
  pub apply-IsCovered :
      (s : Surroundings) (mp : MetaPartition) (op : Op) (v : Bytes) (index : ℕ)
      → IsCovered mp
      → IsCovered (apply s mp op v index).1
  apply-IsCovered s mp op v index c =
      rw (apply-tree s mp op v index, apply-cursor s mp op v index)
        (elim (dispatch-steps s mp op v index) [
          | inl st ↦ Stays-IsCovered mp (dispatch s mp op v index).1 st c
          | inr st ↦ Inserts-IsCovered mp (dispatch s mp op v index).1 st c
        ])

  -- No command writes to an inode that is marked as deleted: afterwards its number stands for the
  -- same inode, or for none.
  pub apply-marked_frozen :
      (s : Surroundings) (mp : MetaPartition) (op : Op) (v : Bytes) (index : ℕ) (k i : Inode)
      → get mp.inode_tree k ≡ some i
      → should_delete i ≡ true
      → (get (apply s mp op v index).1.inode_tree k ≡ some i)
        ⊎ (get (apply s mp op v index).1.inode_tree k ≡ none)
  apply-marked_frozen s mp op v index k i h m =
      rw (apply-tree s mp op v index) (elim (dispatch-steps s mp op v index) [
        | inl st ↦ frozen (st.follows k)
        | inr st ↦ inl (rw (st.written, get-insert_number mp.inode_tree st.ino k) (kept st.ino))
      ])
    where
      frozen :
          Follows (get mp.inode_tree k) (get (dispatch s mp op v index).1.inode_tree k)
          → (get (dispatch s mp op v index).1.inode_tree k ≡ some i)
            ⊎ (get (dispatch s mp op v index).1.inode_tree k ≡ none)
      frozen f = elim (Option-cases (get (dispatch s mp op v index).1.inode_tree k)) [
        | inl e ↦ inr e
        | inr (i', e) ↦ inl (e ∙ ap some ((rw (h, e) at f) m))
      ]

      kept :
          (ino : Inode)
          → (if ino.inode == k.inode
              then elim (get mp.inode_tree ino) [ none ↦ some ino | some _ ↦ get mp.inode_tree k ]
              else get mp.inode_tree k)
            ≡ some i
      kept ino = ground (arith, get-number mp.inode_tree ino k, h)

  -- Where all numbers of the inode tree are at or below the cursor, a number that nextInodeID
  -- hands out is at most the end of the range and stands for no inode, and the cursor has reached
  -- it and still covers the tree.
  pub next_inode_id-fresh :
      (mp : MetaPartition) (n : ℕ)
      → IsCovered mp
      → (next_inode_id mp).0 ≡ ok n
      → (n ≤ mp.end)
        × ((k : Inode) → k.inode ≡ n → get mp.inode_tree k ≡ none)
        × ((next_inode_id mp).1.cursor ≡ n)
        × IsCovered (next_inode_id mp).1
  unfolding next_inode_id
  next_inode_id-fresh mp n c h = (
    ground arith,
    λ k e. elim (Option-cases (get mp.inode_tree k)) [
      | inl absent ↦ absent
      | inr (i, there) ↦ absurd (ground (arith, c k i there, get_found mp.inode_tree k i there))
    ],
    ground arith,
    λ k i there. ground (arith, c k i),
  )
