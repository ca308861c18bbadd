-- ===== src/ServiceNode/Methods.antt =====
-- The methods of `ServiceNode` in src/rpc/service_node.h, each of which is one of its `Internal`.
use rawdishfs.Base.{Bytes, List, Option, [], ℕ}
use rawdishfs.ServiceNode.{
  Internal, Effect, add_to_group, remove_from_group, add_group_callback, remove_group_callback,
  rpc_add_peer,
}
use rawdishfs.ServiceNode.Service.{ServiceNode}

-- `addPeer` with what `TcpSocket::connect` gives, `addToGroup`, `removeFromGroup`,
-- `addGroupCallback` and `removeGroupCallback`.
pub data NodeMethod : Type 0 where
  peer_added : Bytes → ℕ → Option ℕ → NodeMethod
  name_added : Bytes → Bytes → NodeMethod
  name_removed : Bytes → Bytes → NodeMethod
  callback_added : Bytes → ℕ → NodeMethod
  callback_removed : Bytes → NodeMethod

-- What a method does to the `Internal`; the future of `RPCAddPeer` is dropped.
unfoldable pub invoke : NodeMethod → Internal → Internal × List Effect
unfolding rpc_add_peer
invoke (peer_added host port socket) s = let r = rpc_add_peer s host port socket in (r.0, r.1)
invoke (name_added group name) s = add_to_group s group name
invoke (name_removed group name) s = remove_from_group s group name
invoke (callback_added group cb) s = add_group_callback s group cb
invoke (callback_removed group) s = (remove_group_callback s group, [])

unfoldable pub call_method : NodeMethod → ServiceNode → ServiceNode × List Effect
unfolding invoke
call_method m node = let r = invoke m node.internal in (record node { internal = r.0 }, r.1)
