-- ===== src/Tests/Snapshot.antt =====
-- The theorems on snapshots at a concrete partition.
use cfs.Base.{◌≡◌, none, some, eof, [], ◌∷◌, ok, refl, arith, map, All, Result}
use cfs.Bytes.{Bytes, put_uint}
use cfs.GoogleBtree.SortedList.{sorted_list}
use cfs.MetaNode.BTree.{BTree, ascend, len}
use cfs.MetaNode.Dentry.{Dentry}
use cfs.MetaNode.Dentry.Order.{dentry_item}
use cfs.MetaNode.Dentry.RoundTrip.{Fits as EntryFits}
use cfs.MetaNode.Inode.{Inode}
use cfs.MetaNode.Inode.Order.{inode_item}
use cfs.MetaNode.Inode.RoundTrip.{Fits}
use cfs.MetaNode.MetaItem.{MetaItem}
use cfs.MetaNode.Snapshot.Iterator.{MetaItemIterator, new_meta_item_iterator, drain}
use cfs.MetaNode.Snapshot.Restored.{reread, highest, sent, follower, apply_snapshot-drain}
use cfs.MetaNode.Snapshot.Sent.{drain-new_meta_item_iterator}
use cfs.MetaNode.Snapshot.Iterator.{inode_data}
use cfs.MetaNode.Snapshot.Whole.{restored, apply_snapshot-whole}
use cfs.MetaNode.Snapshot.Endless.{copies, file_data, drain-endless}
use cfs.Tests.Codecs.{file-Fits}
use cfs.Tests.Samples.{partition, file, entry}

abbrev one_file : BTree Inode
one_file = (file ∷ [], (tt, tt))

abbrev one_entry : BTree Dentry
one_entry = (entry ∷ [], (tt, tt))

abbrev read_nothing : Bytes → Result Bytes
read_nothing name = ok []

abbrev item : MetaItem
item = record { op = 2; k = 1 ∷ []; v = 5 ∷ 6 ∷ [] }

one_file-Fits : All Fits (ascend one_file)
unfolding ascend
one_file-Fits = (file-Fits, tt)

one_entry-Fits : All EntryFits (ascend one_entry)
unfolding ascend
one_entry-Fits = (omega arith, tt)

drain-new_meta_item_iterator_example :
    drain 3 read_nothing (new_meta_item_iterator 4 one_file one_entry [])
    ≡ (put_uint 8 4 ∷ map inode_data (ascend one_file), some eof)
unfolding ascend
drain-new_meta_item_iterator_example =
    drain-new_meta_item_iterator read_nothing 4 one_file one_entry

apply_snapshot-drain_example :
    ((sent partition 20 read_nothing 4 one_file one_entry).1 ≡ some eof)
    × ((follower partition 20 read_nothing 4 one_file one_entry).0 ≡ none)
    × ((follower partition 20 read_nothing 4 one_file one_entry).1.apply_id ≡ 4)
    × ((follower partition 20 read_nothing 4 one_file one_entry).1.cursor
        ≡ highest 0 (ascend one_file))
    × (ascend (follower partition 20 read_nothing 4 one_file one_entry).1.inode_tree
        ≡ map reread (ascend one_file))
    × (ascend (follower partition 20 read_nothing 4 one_file one_entry).1.dentry_tree ≡ [])
apply_snapshot-drain_example =
    apply_snapshot-drain partition 20 read_nothing 4 one_file one_entry (omega arith) one_file-Fits

apply_snapshot-whole_example :
    ((restored partition 20 4 one_file one_entry).0 ≡ none)
    × ((restored partition 20 4 one_file one_entry).1.apply_id ≡ 4)
    × ((restored partition 20 4 one_file one_entry).1.cursor ≡ highest 0 (ascend one_file))
    × (ascend (restored partition 20 4 one_file one_entry).1.inode_tree
        ≡ map reread (ascend one_file))
    × (ascend (restored partition 20 4 one_file one_entry).1.dentry_tree ≡ ascend one_entry)
apply_snapshot-whole_example =
    apply_snapshot-whole partition 20 4 one_file one_entry (omega arith) one_file-Fits
      one_entry-Fits

abbrev with_file : MetaItemIterator
with_file = record (new_meta_item_iterator 4 one_file one_entry ((7 ∷ []) ∷ [])) { cur = 2 }

drain-endless_example : drain 9 read_nothing with_file ≡ (copies 9 (file_data (7 ∷ []) []), none)
unfolding new_meta_item_iterator len
drain-endless_example =
    drain-endless read_nothing (7 ∷ []) [] [] refl 9 with_file refl (omega arith)
