-- ===== src/MetaNode/Requests/Runs.antt =====
-- What may happen to a partition between two moments of one client: commands of the log, numbers
-- handed out, and reads, which write a time of access. metanode/partition_fsm.go,
-- metanode/partition.go and getInode.
use cfs.Base.{
  ℕ, ◌+◌, ◌≤◌, ◌<◌, ◌≡◌, none, Error, ok, err, arith, refl, inl, inr, sym, ap, subst, Result-cases,
}
use cfs.Bytes.{Bytes}
use cfs.GoogleBtree.{BtreePackage}
use cfs.MetaNode.BTree.{write_back}
use cfs.MetaNode.Inode.{Inode}
use cfs.MetaNode.Inode.Order.{inode_item}
use cfs.MetaNode.Partition.{MetaPartition, next_inode_id}
use cfs.MetaNode.Partition.InodeOps.{get_inode}
use cfs.MetaNode.Partition.Apply.{Surroundings, Response, Op, apply}
use cfs.MetaNode.Partition.Steps.{Stays, dispatch-steps}
use cfs.MetaNode.Partition.Follows.{Evolves-cases, Evolves-write_back}
use cfs.MetaNode.Partition.Cursor.{IsCovered, Stays-IsCovered, apply-cursor, apply-IsCovered}
use cfs.MetaNode.Requests.{Services}

module _ ⦃L : BtreePackage⦄ where
  pub data Runs (mp' : MetaPartition) : MetaPartition → Type 0 where
    halts : Runs mp' mp'
    applies :
        (mp : MetaPartition) (s : Surroundings) (op : Op) (v : Bytes) (index : ℕ)
        → Runs mp' (apply s mp op v index).1
        → Runs mp' mp
    numbers : (mp : MetaPartition) → Runs mp' (next_inode_id mp).1 → Runs mp' mp
    reads :
        (mp : MetaPartition) (now : ℕ) (ino : Inode)
        → Runs mp' (get_inode mp now ino).1
        → Runs mp' mp

  pub Runs-append : {mp' mp mp'' : MetaPartition} → Runs mp' mp → Runs mp'' mp' → Runs mp'' mp
  Runs-append halts q = q
  Runs-append (applies mp s op v index r) q = applies mp s op v index (Runs-append r q)
  Runs-append (numbers mp r) q = numbers mp (Runs-append r q)
  Runs-append (reads mp now ino r) q = reads mp now ino (Runs-append r q)

  get_inode-Stays : (mp : MetaPartition) (now : ℕ) (ino : Inode) → Stays mp (get_inode mp now ino).1
  unfolding get_inode
  get_inode-Stays mp now ino = record {
    follows =
        Evolves-cases mp.inode_tree _ ino (λ h. ground arith) (λ i h m. ground arith)
          λ i h l.
            let e : (get_inode mp now ino).1.inode_tree
                ≡ write_back mp.inode_tree (record i { access_time = now }) =
              ground arith in
            rw e (Evolves-write_back mp.inode_tree ino i (record i { access_time = now }) h l refl);
    same_cursor = ground arith;
  }

  next_inode_id-IsCovered : (mp : MetaPartition) → IsCovered mp → IsCovered (next_inode_id mp).1
  unfolding next_inode_id
  next_inode_id-IsCovered mp c k i h = ground (arith, c k i)

  next_inode_id-cursor : (mp : MetaPartition) → mp.cursor ≤ (next_inode_id mp).1.cursor
  unfolding next_inode_id
  next_inode_id-cursor mp = ground arith

  pub Runs-IsCovered : {mp' mp : MetaPartition} → Runs mp' mp → IsCovered mp → IsCovered mp'
  Runs-IsCovered halts c = c
  Runs-IsCovered (applies mp s op v index r) c =
      Runs-IsCovered r (apply-IsCovered s mp op v index c)
  Runs-IsCovered (numbers mp r) c = Runs-IsCovered r (next_inode_id-IsCovered mp c)
  Runs-IsCovered (reads mp now ino r) c =
      Runs-IsCovered r (Stays-IsCovered mp (get_inode mp now ino).1 (get_inode-Stays mp now ino) c)

  pub apply-cursor_le :
      (s : Surroundings) (mp : MetaPartition) (op : Op) (v : Bytes) (index : ℕ)
      → mp.cursor ≤ (apply s mp op v index).1.cursor
  apply-cursor_le s mp op v index =
      rw (apply-cursor s mp op v index) (elim (dispatch-steps s mp op v index) [
        | inl st ↦ omega (arith, st.same_cursor)
        | inr st ↦ st.raised
      ])

  pub Runs-cursor : {mp' mp : MetaPartition} → Runs mp' mp → mp.cursor ≤ mp'.cursor
  Runs-cursor halts = omega arith
  Runs-cursor (applies mp s op v index r) =
      omega (arith, apply-cursor_le s mp op v index, Runs-cursor r)
  Runs-cursor (numbers mp r) = omega (arith, next_inode_id-cursor mp, Runs-cursor r)
  Runs-cursor (reads mp now ino r) =
      omega (arith, (get_inode-Stays mp now ino).same_cursor, Runs-cursor r)

  pub next_inode_id-number :
      (mp : MetaPartition) (n : ℕ)
      → (next_inode_id mp).0 ≡ ok n
      → (n ≡ mp.cursor + 1) × ((next_inode_id mp).1.cursor ≡ n) × (n ≤ mp.end)
  unfolding next_inode_id
  next_inode_id-number mp n h = (ground arith, ground arith, ground arith)

  -- A number that nextInodeID hands out is above every number that it handed out before, whatever
  -- commands, requests for numbers and reads ran in between.
  pub next_inode_id-increasing :
      (mp mp' : MetaPartition) (n n' : ℕ)
      → (next_inode_id mp).0 ≡ ok n
      → Runs mp' (next_inode_id mp).1
      → (next_inode_id mp').0 ≡ ok n'
      → n < n'
  next_inode_id-increasing mp mp' n n' h r h' =
      omega
        (arith, (next_inode_id-number mp n h).1, Runs-cursor r, (next_inode_id-number mp' n' h').0)

  -- Raft applies a command once it is committed, after others that were before it, and answers
  -- what Apply returned if that was no error.
  pub record Applied (mp mp' : MetaPartition) (op : Op) (v : Bytes) (resp : Response) : Type 0 where
    pub before : MetaPartition
    pub earlier : Runs before mp
    pub surroundings : Surroundings
    pub index : ℕ
    pub applied : apply surroundings before op v index ≡ ((resp, none), mp')

  pub record IsRaft (svc : Services) : Type 0 where
    pub answers :
        (mp mp' : MetaPartition) (op : Op) (v : Bytes) (resp : Response)
        → svc.put mp op v ≡ (ok resp, mp')
        → Applied mp mp' op v resp
    pub fails :
        (mp mp' : MetaPartition) (op : Op) (v : Bytes) (e : Error)
        → svc.put mp op v ≡ (err e, mp')
        → Runs mp' mp

  pub put-Runs :
      (svc : Services) (raft : IsRaft svc) (mp : MetaPartition) (op : Op) (v : Bytes)
      → Runs (svc.put mp op v).1 mp
  put-Runs svc raft mp op v = elim (Result-cases (svc.put mp op v).0) [
    | inl (resp, e) ↦
        let a =
          raft.answers mp (svc.put mp op v).1 op v resp (ap (λ r. (r, (svc.put mp op v).1)) e) in
        Runs-append a.earlier (
          applies a.before a.surroundings op v a.index
            (subst (λ x. Runs (svc.put mp op v).1 x) (sym (ap (λ x. x.1) a.applied)) halts))
    | inr (x, e) ↦ raft.fails mp (svc.put mp op v).1 op v x (ap (λ r. (r, (svc.put mp op v).1)) e)
  ]
