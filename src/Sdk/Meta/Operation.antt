-- ===== src/Sdk/Meta/Operation.antt =====
-- sdk/meta/operation.go: one request to one partition. sendToMetaPartition and the JSON of the
-- answers are parameters. An operation returns the status, what came with it, and whether the
-- error beside it is not nil. The JSON of a request does not fail.
use cfs.Base.{ℕ, ◌==◌, Bool, true, false, List, [], Option, none, some, if◌then◌else◌}
use cfs.Bytes.{Bytes}
use cfs.Proto.{Status}
use cfs.Proto.ExtentKey.{ExtentKey}
use cfs.MetaNode.Partition.InodeOps.{SetattrRequest}
use cfs.MetaNode.Partition.DentryOps.{DirEntry}
use cfs.MetaNode.Requests.{
  InodeInfo, Answer, create_ino_resp, unlink_ino_resp, inode_get_response, batch_inode_get_response,
  link_inode_resp, delete_dentry_resp, update_dentry_resp, read_dir_resp, lookup_resp,
  get_extents_response,
}
use cfs.MetaNode.Requests.Serves.{
  Request, create_inode_request, unlink_inode_request, inode_get_request, inode_get_batch_request,
  link_inode_request, evict_inode_request, set_attr_request, create_dentry_request,
  delete_dentry_request, update_dentry_request, read_dir_request, lookup_request,
  extent_append_request, extents_list_request, extents_truncate_request,
}
use cfs.Sdk.Meta.{MetaStatus, status_unknown, status_ok, status_exist, parse_status}
use cfs.Sdk.Meta.Partition.{MetaPartition}

-- A packet that came back: its result code, and its body as UnmarshalData reads it for the request.
abbrev pub Packet : Type 0
Packet = Status × Option Answer

-- What lies behind the network: `none` is an error of sendToMetaPartition.
pub record Remote : Type 1 where
  pub World : Type 0
  pub send : World → MetaPartition → Request → Option Packet × World
  pub setattr_json : SetattrRequest → Bytes

abbrev pub Reply : Type 0 → Type 0
Reply A = MetaStatus × A × Bool

-- The end of an operation whose answer is not read.
unfoldable pub bare : Option Packet → MetaStatus × Bool
bare none = (status_unknown, true)
bare (some (code, body)) = (parse_status code, false)

-- The end of an operation that reads its answer when the status is OK.
unfoldable pub reading : {A : Type 0} → A → (Option Answer → A × Bool) → Option Packet → Reply A
reading zero read none = (status_unknown, zero, true)
reading zero read (some (code, body)) = elim (parse_status code) [
  | status_ok ↦ (status_ok, (read body).0, (read body).1)
  | s ↦ (s, zero, false)
]

-- UnmarshalData into the response of each operation: the field that is returned, and an error. A
-- body of another shape is an error.
info_of : Option Answer → Option InodeInfo × Bool
info_of (some (create_ino_resp info)) = (some info, false)
info_of (some (unlink_ino_resp info)) = (some info, false)
info_of (some (inode_get_response info)) = (some info, false)
info_of (some (link_inode_resp info)) = (some info, false)
info_of other = (none, true)

number_of : Option Answer → ℕ × Bool
number_of (some (update_dentry_resp number)) = (number, false)
number_of (some (delete_dentry_resp number)) = (number, false)
number_of other = (0, true)

entry_of : Option Answer → (ℕ × ℕ) × Bool
entry_of (some (lookup_resp number mode)) = ((number, mode), false)
entry_of other = ((0, 0), true)

children_of : Option Answer → List DirEntry × Bool
children_of (some (read_dir_resp children)) = (children, false)
children_of other = ([], true)

infos_of : Option Answer → List InodeInfo × Bool
infos_of (some (batch_inode_get_response infos)) = (infos, false)
infos_of other = ([], true)

extents_of : Option Answer → (ℕ × ℕ × List ExtentKey) × Bool
extents_of (some (get_extents_response gen size extents)) = ((gen, size, extents), false)
extents_of other = ((0, 0, []), true)

module _ (R : Remote) where
  -- What an operation returns, and the world after it.
  abbrev pub Sent : Type 0 → Type 0
  Sent A = A × R.World

  unfoldable pub icreate :
      R.World → MetaPartition → ℕ → ℕ → ℕ → Bytes → Sent (Reply (Option InodeInfo))
  unfolding reading info_of
  icreate w mp mode uid gid target =
      let (r, w') =
        R.send w mp
          (create_inode_request record { mode = mode; uid = uid; gid = gid; target = target }) in
      (reading none info_of r, w')

  unfoldable pub iunlink : R.World → MetaPartition → ℕ → Sent (Reply (Option InodeInfo))
  unfolding reading info_of
  iunlink w mp inode =
      let (r, w') = R.send w mp (unlink_inode_request inode) in (reading none info_of r, w')

  unfoldable pub ievict : R.World → MetaPartition → ℕ → Sent (MetaStatus × Bool)
  unfolding bare
  ievict w mp inode = let (r, w') = R.send w mp (evict_inode_request inode) in (bare r, w')

  unfoldable pub dcreate : R.World → MetaPartition → ℕ → Bytes → ℕ → ℕ → Sent (MetaStatus × Bool)
  unfolding bare
  dcreate w mp parent_id name inode mode =
      let (r, w') = R.send w mp (
        create_dentry_request
          record { parent_id = parent_id; name = name; inode = inode; type = mode }) in
      if parent_id == inode then ((status_exist, false), w) else (bare r, w')

  unfoldable pub dupdate : R.World → MetaPartition → ℕ → Bytes → ℕ → Sent (Reply ℕ)
  unfolding reading number_of
  dupdate w mp parent_id name new_inode =
      let (r, w') = R.send w mp (update_dentry_request parent_id name new_inode) in
      if parent_id == new_inode then ((status_exist, 0, false), w) else (reading 0 number_of r, w')

  unfoldable pub ddelete : R.World → MetaPartition → ℕ → Bytes → Sent (Reply ℕ)
  unfolding reading number_of
  ddelete w mp parent_id name =
      let (r, w') = R.send w mp (delete_dentry_request parent_id name) in
      (reading 0 number_of r, w')

  unfoldable pub lookup : R.World → MetaPartition → ℕ → Bytes → Sent (Reply (ℕ × ℕ))
  unfolding reading entry_of
  lookup w mp parent_id name =
      let (r, w') = R.send w mp (lookup_request parent_id name) in (reading (0, 0) entry_of r, w')

  unfoldable pub iget : R.World → MetaPartition → ℕ → Sent (Reply (Option InodeInfo))
  unfolding reading info_of
  iget w mp inode =
      let (r, w') = R.send w mp (inode_get_request inode) in (reading none info_of r, w')

  -- batchIget, whose infos go to a channel: none are sent on an error.
  unfoldable pub batch_iget : R.World → MetaPartition → List ℕ → Sent (List InodeInfo)
  unfolding reading infos_of
  batch_iget w mp inodes =
      let (r, w') = R.send w mp (inode_get_batch_request inodes) in ((reading [] infos_of r).1, w')

  unfoldable pub readdir : R.World → MetaPartition → ℕ → Sent (Reply (List DirEntry))
  unfolding reading children_of
  readdir w mp parent_id =
      let (r, w') = R.send w mp (read_dir_request parent_id) in (reading [] children_of r, w')

  unfoldable pub append_extent_key :
      R.World → MetaPartition → ℕ → ExtentKey → Sent (MetaStatus × Bool)
  unfolding bare
  append_extent_key w mp inode extent =
      let (r, w') = R.send w mp (extent_append_request inode extent) in (bare r, w')

  unfoldable pub get_extents : R.World → MetaPartition → ℕ → Sent (Reply (ℕ × ℕ × List ExtentKey))
  unfolding reading extents_of
  get_extents w mp inode =
      let (r, w') = R.send w mp (extents_list_request inode) in
      (reading (0, 0, []) extents_of r, w')

  unfoldable pub truncate : R.World → MetaPartition → ℕ → ℕ → Sent (MetaStatus × Bool)
  unfolding bare
  truncate w mp inode size =
      let (r, w') = R.send w mp (extents_truncate_request inode size) in (bare r, w')

  unfoldable pub ilink : R.World → MetaPartition → ℕ → Sent (Reply (Option InodeInfo))
  unfolding reading info_of
  ilink w mp inode =
      let (r, w') = R.send w mp (link_inode_request inode) in (reading none info_of r, w')

  unfoldable pub setattr : R.World → MetaPartition → SetattrRequest → Sent (MetaStatus × Bool)
  unfolding bare
  setattr w mp req =
      let (r, w') = R.send w mp (set_attr_request (R.setattr_json req)) in (bare r, w')
