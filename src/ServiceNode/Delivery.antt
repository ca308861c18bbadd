-- ===== src/ServiceNode/Delivery.antt =====
-- The start of a node of src/rpc/service_node.cc, and a call from one node to the server of another.
use rawdishfs.Base.{Bytes, List, Option, Option-cases, [], inl, inr, refl, some, true, ℕ, ◌∷◌, ◌≡◌}
use rawdishfs.Base.Keys.{address_key, bytes_key, nat_key}
use rawdishfs.Base.OrdMap.{lookup, insert}
use rawdishfs.Sockets.{Sockets}
use rawdishfs.Msgpack.{Framing}
use rawdishfs.Rpc.{Request, RpcClient, write, on_request, run_function}
use rawdishfs.Rpc.Connections.{new_server, start_server}
use rawdishfs.Rpc.Stream.{concat, receive_all}
use rawdishfs.Rpc.Server.{task_of}
use rawdishfs.Rpc.RoundTrip.{delivered}
use rawdishfs.ServiceNode.{
  Internal, Effect, Call, call_add_peer, call_add_to_group, call_remove_from_group, Answer, done,
  rpc_add_peer, rpc_add_to_group, rpc_remove_from_group,
}
use rawdishfs.ServiceNode.Replicas.{handle}
use rawdishfs.ServiceNode.Service.{
  func_add_peer, func_add_to_group, func_remove_from_group, func_name, register_func, ServiceNode,
  new_service_node, NodeCodecs, perform, func_of, pack_args, make_call,
}

-- What the called function does, and what it answers.
unfoldable pub answer_call : Option ℕ → Internal → Call → Internal × List Effect × Answer
answer_call socket s (call_add_peer host port) = rpc_add_peer s host port socket
answer_call socket s (call_add_to_group group name) =
    let r = rpc_add_to_group s group name in (r.0, r.1, done true)
answer_call socket s (call_remove_from_group group name) =
    let r = rpc_remove_from_group s group name in (r.0, r.1, done true)

-- What it does to the directory.
pub answer_call-handle :
    (socket : Option ℕ) (s : Internal) (k : Call)
    → (answer_call socket s k).0.groups ≡ (handle s k).groups
unfolding answer_call handle rpc_add_peer
answer_call-handle socket s (call_add_peer host port) =
    elim (Option-cases (lookup (host, port) s.peers)) [
      | inr (c, e) ↦ simp (e, rpc_add_peer)
      | inl e ↦ elim (Option-cases socket) [
        | inl refused ↦ simp (e, refused, rpc_add_peer)
        | inr (client, connects) ↦ simp (e, connects, rpc_add_peer)
      ]
    ]
answer_call-handle socket s (call_add_to_group group name) = refl
answer_call-handle socket s (call_remove_from_group group name) = refl

module _ (requests : Framing Request) (codecs : NodeCodecs) where
  -- However the bytes of a call that a node makes to a peer are cut, the server of the peer makes
  -- one task of them, with the function that the call names and its packed arguments; the task does
  -- to the peer what that function does at the arguments of the call, and makes of its directory
  -- what `handle` makes of it.
  pub make_call-perform :
      (k : Call) (c : RpcClient) (future : ℕ) (host : Bytes) (port : ℕ) (s : Internal)
      (socket : Option ℕ) (sent : List Bytes)
      → (make_call requests codecs c future k).1 ≡ write (concat sent) ∷ []
      → (receive_all requests on_request [] sent (new_service_node host port).rpc_server.funcs
          ≡ some (
            [],
            (new_service_node host port).rpc_server.funcs,
            run_function c.req_id (func_of k) (pack_args codecs k) ∷ [],
          ))
        × (perform codecs socket (func_of k) s (pack_args codecs k) ≡ some (answer_call socket s k))
        × ((answer_call socket s k).0.groups ≡ (handle s k).groups)
  unfolding make_call perform answer_call new_service_node func_of pack_args register_func
      new_server start_server func_name lookup insert task_of
  make_call-perform (call_add_peer h p) c future host port s socket sent sends = (
    delivered requests codecs.address c future (func_name func_add_peer) (h, p) _ sent sends,
    rw (codecs.address.unpack-pack (h, p)) refl,
    answer_call-handle socket s _,
  )
  make_call-perform (call_add_to_group g n) c future host port s socket sent sends = (
    delivered requests codecs.names c future (func_name func_add_to_group) (g, n) _ sent sends,
    rw (codecs.names.unpack-pack (g, n)) refl,
    answer_call-handle socket s _,
  )
  make_call-perform (call_remove_from_group g n) c future host port s socket sent sends = (
    delivered requests codecs.names c future (func_name func_remove_from_group) (g, n) _ sent sends,
    rw (codecs.names.unpack-pack (g, n)) refl,
    answer_call-handle socket s _,
  )
