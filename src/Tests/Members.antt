-- ===== src/Tests/Members.antt =====
-- The theorems on the members of a raft group at a concrete one.
use cfs.Base.{false, none, [], ◌∷◌, ok, refl, ℕ}
use cfs.MetaNode.Members.{Peer, DecommissionRequest, Members, conf_add_node, apply_member_change}
use cfs.MetaNode.Members.Unique.{IsUnique, apply_member_change-IsUnique}

abbrev peer : ℕ → Peer
peer n = record { id = n; addr = 49 ∷ [] }

abbrev two_members : Members
two_members = record {
  apply_id = 4;
  node_id = 1;
  peers = peer 1 ∷ peer 3 ∷ [];
  nodes = [];
  removing = false;
}

abbrev request : DecommissionRequest
request = record { remove_peer = peer 3; add_peer = peer 2 }

apply_member_change-IsUnique_example :
    IsUnique (apply_member_change none none two_members conf_add_node (ok request) 5).1.peers
apply_member_change-IsUnique_example =
    apply_member_change-IsUnique none none two_members conf_add_node (ok request) 5
      (refl, (refl, tt))
