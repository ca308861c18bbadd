-- ===== src/ServiceNode/Replicas.antt =====
-- Replication in src/rpc/service_node.cc: what the calls that a node sends make of the directory of
-- a peer that handles them.
use rawdishfs.Base.{Bytes, List, [], ap, arith, map, true, ◌∙◌, ◌∷◌, ◌≡◌}
use rawdishfs.Base.Keys.{bytes_key}
use rawdishfs.ServiceNode.{
  Internal, Call, call_add_peer, call_add_to_group, call_remove_from_group, count, add_member,
  add_to_group, rpc_add_to_group, drop_member, remove_from_group, rpc_remove_from_group,
}
use rawdishfs.ServiceNode.Groups.{add_to_group-groups}
use rawdishfs.ServiceNode.Events.{is_member}

-- A change of the directory, as the node that makes it and as a peer that is told of it.
pub data Change : Type 0 where
  add remove : Bytes → Bytes → Change

unfoldable pub local : Internal → Change → Internal
local s (add g n) = (add_to_group s g n).0
local s (remove g n) = (remove_from_group s g n).0

-- The call that the node sends to each peer.
unfoldable pub call_of : Change → Call
call_of (add g n) = call_add_to_group g n
call_of (remove g n) = call_remove_from_group g n

-- The directory part of the RPC server's dispatch.
unfoldable pub handle : Internal → Call → Internal
handle s (call_add_to_group g n) = (rpc_add_to_group s g n).0
handle s (call_remove_from_group g n) = (rpc_remove_from_group s g n).0
handle s (call_add_peer h p) = s

pub run_local : Internal → List Change → Internal
unfolding local
run_local s [] = s
run_local s (c ∷ cs) = run_local (local s c) cs

unfoldable pub handle_all : Internal → List Call → Internal
unfolding handle
handle_all s [] = s
handle_all s (c ∷ cs) = handle_all (handle s c) cs

-- Each name is a member of its group when it is removed.
unfoldable pub RemovesMembers : Internal → List Change → Type 0
unfolding local
RemovesMembers s [] = Unit
RemovesMembers s (add g n ∷ cs) = RemovesMembers (local s (add g n)) cs
RemovesMembers s (remove g n ∷ cs) =
    (is_member (count g n s.groups) ≡ true) × RemovesMembers (local s (remove g n)) cs

rpc_add_cong :
    (s t : Internal) (g n : Bytes)
    → s.groups ≡ t.groups
    → (rpc_add_to_group s g n).0.groups ≡ (rpc_add_to_group t g n).0.groups
unfolding rpc_add_to_group add_member
rpc_add_cong s t g n e = rw e (ground arith)

remove_cong :
    (s t : Internal) (g n : Bytes)
    → s.groups ≡ t.groups
    → is_member (count g n s.groups) ≡ true
    → (remove_from_group s g n).0.groups ≡ (rpc_remove_from_group t g n).0.groups
unfolding remove_from_group rpc_remove_from_group drop_member
remove_cong s t g n e m = ground (arith, ap (count g n) e)

-- Replicas stay equal: a peer with the directory of a node that handles, in order, the calls that
-- the node sends for its changes has the directory of the node after them, provided that names are
-- members when they are removed.
handle_all-run_local :
    (s t : Internal) (cs : List Change)
    → s.groups ≡ t.groups
    → RemovesMembers s cs
    → (run_local s cs).groups ≡ (handle_all t (map call_of cs)).groups
unfolding run_local handle_all RemovesMembers call_of
handle_all-run_local s t [] e h = e
handle_all-run_local s t (add g n ∷ cs) e h =
    handle_all-run_local (add_to_group s g n).0 (rpc_add_to_group t g n).0 cs
      (add_to_group-groups s g n g n ∙ rpc_add_cong s t g n e) h
handle_all-run_local s t (remove g n ∷ cs) e h =
    handle_all-run_local (remove_from_group s g n).0 (rpc_remove_from_group t g n).0 cs
      (remove_cong s t g n e h.0) h.1
