-- ===== src/MetaNode/Snapshot/Sent.antt =====
-- What Next of metanode/partition_item.go delivers over a partition, until it fails.
use cfs.Base.{
  ℕ, zero, suc, ◌+◌, ◌≤◌, ◌<◌, ◌≡◌, Bool, true, not, List, [], ◌∷◌, map, filter, length, Option,
  none, some, eof, Error, Result, refl, arith, Bool-cases, inl, inr, ◌∙◌, subst,
}
use cfs.Bytes.{Bytes, put_uint}
use cfs.GoogleBtree.{BtreeItem, BtreePackage, Above, IsAscending}
use cfs.MetaNode.BTree.{BTree, ascend}
use cfs.MetaNode.BTree.Laws.{ascend-IsAscending, ascend_greater_or_equal-ascend, len-ascend}
use cfs.MetaNode.Dentry.{Dentry}
use cfs.MetaNode.Dentry.Order.{dentry_item}
use cfs.MetaNode.Inode.{Inode}
use cfs.MetaNode.Inode.Order.{inode_item}
use cfs.MetaNode.Snapshot.Iterator.{
  MetaItemIterator, new_meta_item_iterator, visited, first_other, inode_data, next, drain,
}

module _ {A : Type 0} (o : BtreeItem A) where
  -- Whether an item is still to be sent after `cur`.
  abbrev beyond : Option A → A → Bool
  beyond none x = true
  beyond (some cur) x = o.less cur x

  abbrev first : List A → Option A
  first [] = none
  first (x ∷ xs) = some x

  beyond-Above :
      (cur : Option A) (x : A) (xs : List A)
      → beyond cur x ≡ true
      → Above o x xs
      → filter (beyond cur) xs ≡ xs
  beyond-Above none x [] b h = refl
  beyond-Above none x (y ∷ ys) b (p, h) = ground (arith, beyond-Above none x ys b h)
  beyond-Above (some cur) x [] b h = refl
  beyond-Above (some cur) x (y ∷ ys) b (p, h) =
      ground (arith, beyond-Above (some cur) x ys b h, o.less_trans cur x y)

  Above-filter :
      (p : A → Bool) (x y : A) (xs ys : List A)
      → Above o x xs
      → filter p xs ≡ y ∷ ys
      → o.less x y ≡ true
  Above-filter p x y [] ys h e = absurd (ground arith)
  Above-filter p x y (z ∷ zs) ys (q, h) e = ground (arith, Above-filter p x y zs ys h)

  beyond-own : (x : A) (xs : List A) → Above o x xs → filter (beyond (some x)) xs ≡ xs
  beyond-own x [] h = refl
  beyond-own x (y ∷ ys) (p, h) = ground (arith, beyond-own x ys h)

  -- When the first item that is left has been sent, the others are left.
  beyond-next :
      (cur : Option A) (xs ys : List A) (y : A)
      → IsAscending o xs
      → filter (beyond cur) xs ≡ y ∷ ys
      → filter (beyond (some y)) xs ≡ ys
  beyond-next cur [] ys y h e = absurd (ground arith)
  beyond-next cur (x ∷ xs) ys y (p, h) e = elim (Bool-cases (beyond cur x)) [
    | inl b ↦
        let same : x ∷ filter (beyond cur) xs ≡ y ∷ ys = ground arith in
        let head : x ≡ y = cc in
        let tail : filter (beyond cur) xs ≡ ys = cc in
        let kept : filter (beyond (some x)) (x ∷ xs) ≡ ys =
          ground (arith, o.less_irrefl x, beyond-own x xs p, beyond-Above cur x xs b p) in
        subst (λ z. filter (beyond (some z)) (x ∷ xs) ≡ ys) head kept
    | inr b ↦
        let left : filter (beyond cur) xs ≡ y ∷ ys = ground arith in
        ground (
          arith,
          beyond-next cur xs ys y h left,
          Above-filter (beyond cur) x y xs ys p left,
          o.less_trans x y x,
          o.less_irrefl x,
        )
  ]

  -- Passing over curItem finds the first item that is left.
  first_other-visited :
      (cur : A) (xs : List A)
      → first_other ⦃o = o⦄ (some cur) (filter (λ x. not (o.less x cur)) xs)
        ≡ first (filter (beyond (some cur)) xs)
  first_other-visited cur [] = refl
  first_other-visited cur (x ∷ xs) =
      ground (arith, first_other-visited cur xs, o.less_trans cur x cur, o.less_irrefl cur)

  first_other-none : (xs : List A) → first_other ⦃o = o⦄ none xs ≡ first xs
  first_other-none [] = refl
  first_other-none (x ∷ xs) = refl

  filter-all : (xs : List A) → filter (beyond none) xs ≡ xs
  filter-all [] = refl
  filter-all (x ∷ xs) = ground (arith, filter-all xs)

module _ ⦃L : BtreePackage⦄ (t : BTree Inode) where
  next_found :
      (cur : Option Inode)
      → first_other cur (visited t cur)
        ≡ first inode_item (filter (beyond inode_item cur) (ascend t))
  next_found none = rw (filter-all inode_item (ascend t)) (first_other-none inode_item (ascend t))
  next_found (some cur) =
      rw (ascend_greater_or_equal-ascend t cur) (first_other-visited inode_item cur (ascend t))

module _ ⦃L : BtreePackage⦄ (read_file : Bytes → Result Bytes) where
  next-inode :
      (si : MetaItemIterator) (ino : Inode)
      → 1 ≤ si.cur
      → si.cur ≤ si.ino_len
      → first_other si.cur_inode (visited si.inode_tree si.cur_inode) ≡ some ino
      → next read_file si
        ≡ ((inode_data ino, none), record si { cur = si.cur + 1; cur_inode = some ino })
  unfolding next
  next-inode si ino started more found = ground arith

  -- Once the inodes are sent and no file is left, EOF: no dentry is delivered.
  pub next-eof :
      (si : MetaItemIterator)
      → si.file_list ≡ []
      → si.ino_len < si.cur
      → (next read_file si).0 ≡ ([], some eof)
  unfolding next
  next-eof si files over = ground arith

  drain-delivered :
      (fuel : ℕ) (si si' : MetaItemIterator) (item : Bytes)
      → next read_file si ≡ ((item, none), si')
      → drain (suc fuel) read_file si
        ≡ (item ∷ (drain fuel read_file si').0, (drain fuel read_file si').1)
  unfolding drain
  drain-delivered fuel si si' item h = rw (h, drain) (rw h)

  drain-failed :
      (fuel : ℕ) (si : MetaItemIterator) (e : Error)
      → (next read_file si).0 ≡ ([], some e)
      → drain (suc fuel) read_file si ≡ ([], some e)
  unfolding drain
  drain-failed fuel si e h = ground (arith, h)

  -- Without files, the inodes that are left are delivered, and then EOF.
  drain_inodes :
      (fuel : ℕ) (si : MetaItemIterator) (rest : List Inode)
      → si.file_list ≡ []
      → filter (beyond inode_item si.cur_inode) (ascend si.inode_tree) ≡ rest
      → 1 ≤ si.cur
      → si.cur + length rest ≡ si.ino_len + 1
      → length rest + 1 ≤ fuel
      → drain fuel read_file si ≡ (map inode_data rest, some eof)
  drain_inodes zero si rest files left started count enough = absurd (omega arith)
  drain_inodes (suc fuel) si [] files left started count enough =
      drain-failed fuel si eof (next-eof si files (omega arith))
  drain_inodes (suc fuel) si (ino ∷ rest) files left started count enough =
      let si' : MetaItemIterator = record si { cur = si.cur + 1; cur_inode = some ino } in
      let found : first_other si.cur_inode (visited si.inode_tree si.cur_inode) ≡ some ino =
        next_found si.inode_tree si.cur_inode ∙ rw left refl in
      let later : drain fuel read_file si' ≡ (map inode_data rest, some eof) =
        drain_inodes fuel si' rest files
          (beyond-next inode_item si.cur_inode (ascend si.inode_tree) rest ino
            (ascend-IsAscending si.inode_tree) left)
          (omega arith) (omega arith) (omega arith) in
      drain-delivered fuel si si' (inode_data ino) (next-inode si ino started (omega arith) found)
      ∙ rw later refl

module _ ⦃L : BtreePackage⦄ (read_file : Bytes → Result Bytes) (apply_id : ℕ) (ino : BTree Inode)
    (den : BTree Dentry) where
  next-started : next read_file (new_meta_item_iterator apply_id ino den []) ≡ (
    (put_uint 8 apply_id, none),
    record (new_meta_item_iterator apply_id ino den []) { cur = 1 },
  )
  unfolding next new_meta_item_iterator
  next-started = refl

  -- The iterator of a partition without files of extents to delete delivers the index, every inode
  -- in order, and then EOF; it delivers no dentry.
  pub drain-new_meta_item_iterator :
      drain (suc (suc (length (ascend ino)))) read_file (new_meta_item_iterator apply_id ino den [])
      ≡ (put_uint 8 apply_id ∷ map inode_data (ascend ino), some eof)
  unfolding new_meta_item_iterator
  drain-new_meta_item_iterator =
      let sent : MetaItemIterator = record (new_meta_item_iterator apply_id ino den []) {
        cur = 1;
      } in
      drain-delivered read_file (suc (length (ascend ino)))
        (new_meta_item_iterator apply_id ino den []) sent (put_uint 8 apply_id) next-started
      ∙ rw
          (drain_inodes read_file (suc (length (ascend ino))) sent (ascend ino) refl
            (filter-all inode_item (ascend ino)) (omega arith) (omega (arith, len-ascend ino))
            (omega arith))
          refl
