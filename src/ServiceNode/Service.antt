-- ===== src/ServiceNode/Service.antt =====
-- `ServiceNode` itself, of src/rpc/service_node.h and src/rpc/service_node.cc: an `Internal` and the
-- server where its RPC functions are registered. A registered function is named, and what it does
-- is `perform`. A method of the node that only calls the `Internal` is that of the `Internal`.
use rawdishfs.Base.{
  Bool, Bytes, List, Option, [], map, none, some, true, u16, ℕ, ◌%◌, ◌++◌, ◌+◌, ◌>>=◌, ◌∷◌,
}
use rawdishfs.Base.Keys.{bytes_key, nat_key, Address}
use rawdishfs.Base.OrdMap.{insert}
use rawdishfs.Sockets.{Sockets, find_port}
use rawdishfs.Msgpack.{Framing, Codec}
use rawdishfs.Rpc.{Request, RpcClient, ClientEffect, call}
use rawdishfs.Rpc.Connections.{RpcServer, ServerEffect, new_server, start_server, destroy_server}
use rawdishfs.ServiceNode.{
  Internal, Effect, Call, call_add_peer, call_add_to_group, call_remove_from_group, Answer, done,
  new_internal, shutdown, rpc_add_peer, rpc_add_to_group, rpc_remove_from_group,
}

-- The bound functions.
pub data NodeFunc : Type 0 where
  func_add_peer : NodeFunc
  func_add_to_group : NodeFunc
  func_remove_from_group : NodeFunc

unfoldable pub func_name : NodeFunc → Bytes
func_name func_add_peer = b'a' ∷ b'd' ∷ b'd' ∷ b'P' ∷ b'e' ∷ b'e' ∷ b'r' ∷ []
func_name func_add_to_group =
    b'a' ∷ b'd' ∷ b'd' ∷ b'T' ∷ b'o' ∷ b'G' ∷ b'r' ∷ b'o' ∷ b'u' ∷ b'p' ∷ []
func_name func_remove_from_group =
    b'r' ∷ b'e' ∷ b'm' ∷ b'o' ∷ b'v' ∷ b'e' ∷ b'F' ∷ b'r' ∷ b'o' ∷ b'm' ∷ b'G' ∷ b'r' ∷ b'o' ∷ b'u'
    ∷ b'p' ∷ []

unfoldable pub register_func : NodeFunc → RpcServer NodeFunc → RpcServer NodeFunc
unfolding insert func_name
register_func f server = record server { funcs = insert (func_name f) f server.funcs }

pub record ServiceNode : Type 0 where
  pub rpc_server : RpcServer NodeFunc
  pub internal : Internal

-- The constructor; the `int` port becomes a `uint16_t`.
unfoldable pub new_service_node : Bytes → ℕ → ServiceNode
unfolding register_func new_server start_server new_internal
new_service_node host port = record {
  rpc_server = start_server (
      register_func func_remove_from_group
        (register_func func_add_to_group (register_func func_add_peer new_server)));
  internal = new_internal host (u16 port);
}

-- `(rand()%40000) + 1024`, in a `uint16_t`
unfoldable pub pick_port : ℕ → ℕ
pick_port r = u16 (r % 40000 + 1024)

module _ (os : Sockets) where
  -- `create` without a port, with a bound on the rounds of its loop, and with one.
  unfoldable pub create : ℕ → os.World → Bytes → Option (os.World × ServiceNode)
  unfolding find_port new_service_node pick_port
  create fuel w host = do
    found ← find_port os pick_port fuel w
    some (found.0, new_service_node host found.1)

  unfoldable pub create_at : os.World → Bytes → ℕ → os.World × Option ServiceNode
  unfolding new_service_node
  create_at w host port =
      let tried = os.listen w port in
      (tried.0, elim tried.1 [ none ↦ none | some socket ↦ some (new_service_node host port) ])

-- The destructor: `shutdown` drops the clients of the peers, whose numbers are returned, and the
-- server closes its connections. No peer is left for `~Internal` to disconnect.
pub destroy : ServiceNode → List ℕ × List (ServerEffect NodeFunc)
unfolding shutdown destroy_server
destroy node =
    let left = (shutdown node.internal).peers in
    (map (λ p. p.1) node.internal.peers ++ map (λ p. p.1) left, (destroy_server node.rpc_server).1)

-- How the arguments and the results are packed.
pub record NodeCodecs : Type 0 where
  pub address : Codec Address
  pub names : Codec (Bytes × Bytes)
  pub flag : Codec Bool

-- What a registered function does with packed arguments; `socket` is what `TcpSocket::connect`
-- gives where it is called.
unfoldable pub perform :
    NodeCodecs → Option ℕ → NodeFunc → Internal → Bytes → Option (Internal × List Effect × Answer)
unfolding rpc_add_peer rpc_add_to_group rpc_remove_from_group
perform codecs socket func_add_peer s packed = do
  args ← codecs.address.unpack packed
  some (rpc_add_peer s args.0 args.1 socket)
perform codecs socket func_add_to_group s packed = do
  args ← codecs.names.unpack packed
  let r = rpc_add_to_group s args.0 args.1
  some (r.0, r.1, done true)
perform codecs socket func_remove_from_group s packed = do
  args ← codecs.names.unpack packed
  let r = rpc_remove_from_group s args.0 args.1
  some (r.0, r.1, done true)

-- A call that a node makes to a peer, on the client of the peer.
unfoldable pub func_of : Call → NodeFunc
func_of (call_add_peer host port) = func_add_peer
func_of (call_add_to_group group name) = func_add_to_group
func_of (call_remove_from_group group name) = func_remove_from_group

unfoldable pub pack_args : NodeCodecs → Call → Bytes
pack_args codecs (call_add_peer host port) = codecs.address.pack (host, port)
pack_args codecs (call_add_to_group group name) = codecs.names.pack (group, name)
pack_args codecs (call_remove_from_group group name) = codecs.names.pack (group, name)

unfoldable pub make_call :
    Framing Request → NodeCodecs → RpcClient → ℕ → Call → RpcClient × List ClientEffect
unfolding call func_name func_of
make_call requests codecs c future (call_add_peer host port) =
    call requests codecs.address c future (func_name func_add_peer) (host, port)
make_call requests codecs c future (call_add_to_group group name) =
    call requests codecs.names c future (func_name func_add_to_group) (group, name)
make_call requests codecs c future (call_remove_from_group group name) =
    call requests codecs.names c future (func_name func_remove_from_group) (group, name)
