-- ===== src/MetaNode/Members/Unique.antt =====
-- Every peer is a member once: ApplyMemberChange of metanode/partition_fsm.go.
use cfs.Base.{
  ℕ, ◌==◌, ◌≡◌, Bool, true, false, List, [], ◌∷◌, ◌++◌, Option, none, some, Error, Result, ok, err,
  if◌then◌else◌, arith, refl,
}
use cfs.MetaNode.Members.{
  Peer, DecommissionRequest, Members, ConfChangeType, conf_add_node, conf_remove_node,
  conf_update_node, has_peer, without, add_node, remove_node, insert_peer, sort_peers,
  change_members, finish_change, apply_member_change,
}

-- No two peers have one id.
abbrev pub IsUnique : List Peer → Type 0
IsUnique [] = Unit
IsUnique (p ∷ ps) = (has_peer p.id ps ≡ false) × IsUnique ps

has_peer-append :
    (id : ℕ) (ps : List Peer) (p : Peer)
    → has_peer id (ps ++ p ∷ []) ≡ (if p.id == id then true else has_peer id ps)
has_peer-append id [] p = refl
has_peer-append id (q ∷ qs) p = ground (arith, has_peer-append id qs p)

has_peer-without :
    (id x : ℕ) (ps : List Peer) → has_peer x ps ≡ false → has_peer x (without id ps) ≡ false
has_peer-without id x [] h = refl
has_peer-without id x (p ∷ ps) h = ground (arith, has_peer-without id x ps)

has_peer-insert_peer :
    (id : ℕ) (p : Peer) (ps : List Peer)
    → has_peer id (insert_peer p ps) ≡ (if p.id == id then true else has_peer id ps)
has_peer-insert_peer id p [] = refl
has_peer-insert_peer id p (q ∷ qs) = ground (arith, has_peer-insert_peer id p qs)

has_peer-sort_peers : (id : ℕ) (ps : List Peer) → has_peer id (sort_peers ps) ≡ has_peer id ps
has_peer-sort_peers id [] = refl
has_peer-sort_peers id (p ∷ ps) =
    ground (arith, has_peer-insert_peer id p (sort_peers ps), has_peer-sort_peers id ps)

IsUnique-append :
    (ps : List Peer) (p : Peer) → has_peer p.id ps ≡ false → IsUnique ps → IsUnique (ps ++ p ∷ [])
IsUnique-append [] p h u = (refl, tt)
IsUnique-append (q ∷ qs) p h (n, u) =
    (ground (arith, has_peer-append q.id qs p), IsUnique-append qs p (ground arith) u)

IsUnique-without : (id : ℕ) (ps : List Peer) → IsUnique ps → IsUnique (without id ps)
IsUnique-without id [] u = tt
IsUnique-without id (p ∷ ps) (n, u) =
    ground (arith, IsUnique-without id ps u, has_peer-without id p.id ps n)

IsUnique-insert_peer :
    (p : Peer) (ps : List Peer)
    → has_peer p.id ps ≡ false
    → IsUnique ps
    → IsUnique (insert_peer p ps)
IsUnique-insert_peer p [] h u = (refl, tt)
IsUnique-insert_peer p (q ∷ qs) h (n, u) =
    ground (arith, IsUnique-insert_peer p qs, has_peer-insert_peer q.id p qs)

IsUnique-sort_peers : (ps : List Peer) → IsUnique ps → IsUnique (sort_peers ps)
IsUnique-sort_peers [] u = tt
IsUnique-sort_peers (p ∷ ps) (n, u) =
    IsUnique-insert_peer p (sort_peers ps) (ground (arith, has_peer-sort_peers p.id ps))
      (IsUnique-sort_peers ps u)

change_members-IsUnique :
    (port : Option Error) (mp : Members) (type : ConfChangeType) (req : DecommissionRequest)
    → IsUnique mp.peers
    → IsUnique (change_members port mp type req).1.peers
unfolding change_members add_node remove_node
change_members-IsUnique none mp conf_add_node req u =
    ground (arith, IsUnique-append mp.peers req.add_peer)
change_members-IsUnique (some e) mp conf_add_node req u = u
change_members-IsUnique port mp conf_remove_node req u =
    ground (arith, IsUnique-without req.remove_peer.id mp.peers u)
change_members-IsUnique port mp conf_update_node req u = u

finish_change-IsUnique :
    (persist : Option Error) (index : ℕ) (r : (Bool × Option Error) × Members)
    → IsUnique r.1.peers
    → IsUnique (finish_change persist index r).1.peers
unfolding finish_change
finish_change-IsUnique persist index ((updated, some e), mp) u = u
finish_change-IsUnique none index ((true, none), mp) u = IsUnique-sort_peers mp.peers u
finish_change-IsUnique none index ((false, none), mp) u = u
finish_change-IsUnique (some e) index ((true, none), mp) u = IsUnique-sort_peers mp.peers u
finish_change-IsUnique (some e) index ((false, none), mp) u = u

-- Where no two peers have one id, none have after ApplyMemberChange, whatever the change, the
-- request and the errors of its surroundings.
pub apply_member_change-IsUnique :
    (port persist : Option Error) (mp : Members) (type : ConfChangeType)
    (req : Result DecommissionRequest) (index : ℕ)
    → IsUnique mp.peers
    → IsUnique (apply_member_change port persist mp type req index).1.peers
unfolding apply_member_change
apply_member_change-IsUnique port persist mp type (err e) index u = u
apply_member_change-IsUnique port persist mp type (ok req) index u =
    finish_change-IsUnique persist index (change_members port mp type req)
      (change_members-IsUnique port mp type req u)

without-append :
    (ps : List Peer) (p : Peer) → has_peer p.id ps ≡ false → without p.id (ps ++ p ∷ []) ≡ ps
without-append [] p h = ground arith
without-append (q ∷ qs) p h = ground (arith, without-append qs p)

-- A peer whose id no peer has, and which is not the node of the partition, is removed again after
-- it was added, and the peers are as before.
pub remove_node-add_node :
    (mp : Members) (p : Peer)
    → has_peer p.id mp.peers ≡ false
    → (p.id == mp.node_id) ≡ false
    → ((remove_node (add_node none mp p).1 p).0 ≡ (true, none))
      × ((remove_node (add_node none mp p).1 p).1.peers ≡ mp.peers)
unfolding remove_node add_node
remove_node-add_node mp p h other = (
  ground (arith, has_peer-append p.id mp.peers p),
  ground (arith, has_peer-append p.id mp.peers p, without-append mp.peers p h),
)
