-- ===== src/MetaNode/Members.antt =====
-- The members of a partition's raft group: confAddNode, confRemoveNode and confUpdateNode of
-- metanode/partition_fsmop.go, ApplyMemberChange of metanode/partition_fsm.go, and sortPeers of
-- metanode/partition.go. The goroutine that removes the partition from its own node is a flag.
pub mod Unique
use cfs.Base.{
  ℕ, ◌==◌, Bool, true, false, ltb, List, [], ◌∷◌, ◌++◌, Option, none, some, Error, Result, ok, err,
  if◌then◌else◌,
}
use cfs.Bytes.{Bytes}

pub record Peer : Type 0 where
  pub id : ℕ
  pub addr : Bytes

-- MetaPartitionDecommissionRequest
pub record DecommissionRequest : Type 0 where
  pub remove_peer : Peer
  pub add_peer : Peer

-- The fields of the partition that a change of members reads and writes. `nodes` lists what was
-- passed to AddNodeWithPort, and `removing` tells that the goroutine of confRemoveNode was started.
pub record Members : Type 0 where
  pub apply_id : ℕ
  pub node_id : ℕ
  pub peers : List Peer
  pub nodes : List Peer
  pub removing : Bool

pub data ConfChangeType : Type 0 where
  conf_add_node conf_remove_node conf_update_node : ConfChangeType

-- Whether a peer has the id.
abbrev pub has_peer : ℕ → List Peer → Bool
has_peer id [] = false
has_peer id (peer ∷ peers) = let rest = has_peer id peers in if peer.id == id then true else rest

-- The peers without the first that has the id.
abbrev pub without : ℕ → List Peer → List Peer
without id [] = []
without id (peer ∷ peers) =
    let rest = without id peers in if peer.id == id then peers else peer ∷ rest

-- confAddNode; the error is that of getRaftPort.
unfoldable pub add_node : Option Error → Members → Peer → (Bool × Option Error) × Members
add_node (some e) mp peer = ((false, some e), mp)
add_node none mp peer =
    if has_peer peer.id mp.peers
    then ((false, none), mp)
    else ((true, none), record mp { peers = mp.peers ++ peer ∷ []; nodes = mp.nodes ++ peer ∷ [] })

-- confRemoveNode
unfoldable pub remove_node : Members → Peer → (Bool × Option Error) × Members
remove_node mp peer =
    if has_peer peer.id mp.peers
    then (if peer.id == mp.node_id
        then ((false, none), record mp { removing = true })
        else ((true, none), record mp { peers = without peer.id mp.peers }))
    else ((false, none), mp)

-- sortPeers: sort.Sort by the id.
abbrev pub insert_peer : Peer → List Peer → List Peer
insert_peer p [] = p ∷ []
insert_peer p (q ∷ qs) =
    let rest = insert_peer p qs in if ltb q.id p.id then q ∷ rest else p ∷ q ∷ qs

abbrev pub sort_peers : List Peer → List Peer
sort_peers [] = []
sort_peers (p ∷ ps) = insert_peer p (sort_peers ps)

-- The switch of ApplyMemberChange.
unfoldable pub change_members :
    Option Error → Members → ConfChangeType → DecommissionRequest → (Bool × Option Error) × Members
change_members port mp conf_add_node req = add_node port mp req.add_peer
change_members port mp conf_remove_node req = remove_node mp req.remove_peer
change_members port mp conf_update_node req = ((false, none), mp)

-- What follows the switch: peers that changed are sorted and persisted, and a change without an
-- error is applied.
unfoldable pub finish_change :
    Option Error → ℕ → (Bool × Option Error) × Members → Option Error × Members
finish_change persist index ((updated, some e), mp) = (some e, mp)
finish_change none index ((updated, none), mp) = (
  none,
  record mp { peers = if updated then sort_peers mp.peers else mp.peers; apply_id = index },
)
finish_change (some e) index ((true, none), mp) =
    (some e, record mp { peers = sort_peers mp.peers })
finish_change (some e) index ((false, none), mp) = (none, record mp { apply_id = index })

-- ApplyMemberChange: `req` is the decoded context, `port` the error of getRaftPort, and `persist`
-- that of persistMetadata.
unfoldable pub apply_member_change :
    Option Error
    → Option Error
    → Members
    → ConfChangeType
    → Result DecommissionRequest
    → ℕ
    → Option Error × Members
unfolding change_members finish_change
apply_member_change port persist mp type (err e) index = (some e, mp)
apply_member_change port persist mp type (ok req) index =
    finish_change persist index (change_members port mp type req)
