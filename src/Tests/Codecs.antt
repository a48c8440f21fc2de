-- ===== src/Tests/Codecs.antt =====
-- The round trips at concrete values.
use cfs.Base.{◌≡◌, none, [], refl, arith}
use cfs.Bytes.{put_uint}
use cfs.MetaNode.Inode.{Inode}
use cfs.GoogleBtree.SortedList.{sorted_list}
use cfs.Proto.ExtentKey
use cfs.Proto.ExtentKey.{extent_item}
use cfs.MetaNode.BTree.Rebuilt.{rebuilt}
use cfs.MetaNode.BTree.{ascend}
use cfs.MetaNode.Extents
use cfs.MetaNode.Extents.{ExtentsTree}
use cfs.MetaNode.Extents.RoundTrip.{unmarshal_binary-marshal_binary_tree}
use cfs.MetaNode.Dentry
use cfs.MetaNode.Dentry.RoundTrip.{unmarshal-marshal_dentry}
use cfs.MetaNode.Inode.Codec
use cfs.MetaNode.Inode.RoundTrip.{Fits, unmarshal-marshal_inode, IsBlank}
use cfs.MetaNode.Partition.DentryOps.{blank_dentry}
use cfs.Tests.Samples.{no_extents, two_extents, file, entry}

unmarshal-marshal_dentry_example :
    Dentry.unmarshal blank_dentry (Dentry.marshal entry) ≡ (none, entry, [])
unmarshal-marshal_dentry_example = unmarshal-marshal_dentry blank_dentry entry (omega arith)

unmarshal_binary-marshal_binary_tree_example :
    (Extents.unmarshal_binary no_extents (Extents.marshal_binary two_extents)
      ≡ (none, rebuilt no_extents (ascend two_extents)))
    × (ascend (rebuilt no_extents (ascend two_extents)) ≡ ascend two_extents)
unfolding ascend
unmarshal_binary-marshal_binary_tree_example =
    unmarshal_binary-marshal_binary_tree two_extents no_extents refl (omega arith)

pub file-Fits : Fits file
unfolding ascend Codec.marshal_value Codec.marshal_tail Codec.marshal_link Codec.marshal_times
    Extents.marshal_binary Extents.marshal_keys ExtentKey.marshal_binary put_uint
file-Fits = record {
  inode_fits = omega arith;
  type_fits = omega arith;
  uid_fits = omega arith;
  gid_fits = omega arith;
  size_fits = omega arith;
  generation_fits = omega arith;
  create_time_fits = omega arith;
  access_time_fits = omega arith;
  modify_time_fits = omega arith;
  link_fits = omega arith;
  nlink_fits = omega arith;
  flag_fits = omega arith;
  reserved_fits = omega arith;
  extents_fit = omega arith;
  value_fits = omega arith;
}

abbrev unread : Inode
unread = record file { link_target = []; extents = no_extents }

unread-IsBlank : IsBlank unread
unfolding ascend
unread-IsBlank = record { no_link = refl; no_extents = refl }

unmarshal-marshal_inode_example :
    (e : ExtentsTree) × (Codec.unmarshal unread (Codec.marshal file)
      ≡ (none, record file { extents = e }, []))
    × (ascend e ≡ ascend two_extents)
unmarshal-marshal_inode_example = unmarshal-marshal_inode file file-Fits unread unread-IsBlank
