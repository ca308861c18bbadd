-- ===== src/BlockStoreNode/Daemon.antt =====
-- A `BlockStoreNode` of src/blockstore/blockstore_daemon.cc with its server: the constructor, `start`,
-- `addPeer`, and the RPC functions that the constructor registers. A registered function is named.
use rawdishfs.Base.{
  Bool, Bytes, List, Option, [], arith, false, none, refl, some, true, u16, ℕ, ◌<◌, ◌>>=◌, ◌^◌, ◌∷◌,
  ◌≡◌, suc,
}
use rawdishfs.Base.Keys.{bytes_key, nat_key, address_key, Address}
use rawdishfs.Base.OrdMap.{lookup, insert}
use rawdishfs.Sockets.{Sockets, find_port, tries, after, find_port_lem}
use rawdishfs.Msgpack.{Framing, Codec}
use rawdishfs.Rpc.{Request, RpcClient, write, call, on_request, run_function}
use rawdishfs.Rpc.Connections.{RpcServer, new_server, start_server}
use rawdishfs.Rpc.Stream.{concat, receive_all}
use rawdishfs.Rpc.Server.{task_of}
use rawdishfs.Rpc.RoundTrip.{delivered}
use rawdishfs.BlockStoreNode.{
  BlockStoreNode, PeerCall, Answer, done, new_node, rpc_add_peer, rpc_add_block_store,
  serve_add_block_store,
}

pub data DaemonFunc : Type 0 where
  daemon_add_peer : DaemonFunc
  daemon_add_block_store : DaemonFunc

unfoldable pub daemon_name : DaemonFunc → Bytes
daemon_name daemon_add_peer = b'a' ∷ b'd' ∷ b'd' ∷ b'P' ∷ b'e' ∷ b'e' ∷ b'r' ∷ []
daemon_name daemon_add_block_store =
    b'a' ∷ b'd' ∷ b'd' ∷ b'B' ∷ b'l' ∷ b'o' ∷ b'c' ∷ b'k' ∷ b'S' ∷ b't' ∷ b'o' ∷ b'r' ∷ b'e' ∷ []

pub record Daemon : Type 0 where
  pub node : BlockStoreNode
  pub rpc_server : RpcServer DaemonFunc
  -- whether the event loop has an `onTimer` to call
  pub timer : Bool

unfoldable pub register_daemon : DaemonFunc → RpcServer DaemonFunc → RpcServer DaemonFunc
unfolding insert daemon_name
register_daemon f server = record server { funcs = insert (daemon_name f) f server.funcs }

-- The constructor, once it has a port.
unfoldable pub new_daemon : Bytes → ℕ → Daemon
unfolding register_daemon new_server new_node
new_daemon host port = record {
  node = new_node host port;
  rpc_server = register_daemon daemon_add_block_store (register_daemon daemon_add_peer new_server);
  timer = false;
}

-- `_port = rand()`, a `uint16_t`
unfoldable pub any_port : ℕ → ℕ
any_port r = u16 r

-- The constructor, with a bound on the rounds of its loop.
unfoldable pub create_daemon : (os : Sockets) → ℕ → os.World → Bytes → Option (os.World × Daemon)
unfolding find_port new_daemon any_port
create_daemon os fuel w host = do
  found ← find_port os any_port fuel w
  some (found.0, new_daemon host found.1)

-- `start`
unfoldable pub start_daemon : Daemon → Daemon
unfolding start_server
start_daemon d = record d { rpc_server = start_server d.rpc_server; timer = true }

-- `addPeer`
unfoldable pub add_peer :
    BlockStoreNode → Bytes → ℕ → Option ℕ → Option (BlockStoreNode × List PeerCall × Answer)
unfolding rpc_add_peer
add_peer s host port socket = rpc_add_peer s host port socket

pub record DaemonCodecs : Type 0 where
  pub address : Codec Address
  pub number : Codec ℕ
  pub flag : Codec Bool

-- What a registered function does with packed arguments; `socket` is what `TcpSocket::connect`
-- gives where it is called.
unfoldable pub perform_daemon :
    DaemonCodecs
    → Option ℕ
    → DaemonFunc
    → BlockStoreNode
    → Bytes
    → Option (BlockStoreNode × List PeerCall × Answer)
unfolding rpc_add_peer serve_add_block_store
perform_daemon codecs socket daemon_add_peer s packed = do
  args ← codecs.address.unpack packed
  rpc_add_peer s args.0 args.1 socket
perform_daemon codecs socket daemon_add_block_store s packed = do
  bsid ← codecs.number.unpack packed
  r ← serve_add_block_store s bsid
  some (r.0, [], done r.1)

-- Where the round after `n` others finds a free port, the constructor with a bound of more than `n`
-- rounds returns a node with that host and with a port of 16 bits.
pub create_daemon_lem :
    (os : Sockets) (w : os.World) (host : Bytes) (n fuel socket : ℕ)
    → tries os any_port n w ≡ some socket
    → n < fuel
    → (w' : os.World) × (d : Daemon) × (create_daemon os fuel w host ≡ some (w', d))
      × (d.node.port < 2 ^ 16)
      × (d.node.host ≡ host)
unfolding create_daemon new_daemon new_node any_port
create_daemon_lem os w host n fuel socket free enough =
    let found = find_port_lem os any_port n fuel w socket free enough in
    let r = (os.rand (after os any_port found.round w)).1 in
    (
      after os any_port (suc found.round) w,
      new_daemon host (any_port r),
      simp (create_daemon, found.gives),
      omega arith,
      refl,
    )

module _ (requests : Framing Request) (codecs : DaemonCodecs) where
  -- However the bytes of a call of "addBlockStore" are cut, the server of a node makes one task of
  -- them; and where the address of the node itself is not among its peers, the task refuses the
  -- store and leaves the node as it is.
  pub add_block_store-refused :
      (c : RpcClient) (future : ℕ) (bsid : ℕ) (host : Bytes) (port : ℕ) (s : BlockStoreNode)
      (socket : Option ℕ) (sent : List Bytes)
      → (call requests codecs.number c future (daemon_name daemon_add_block_store) bsid).1
        ≡ write (concat sent) ∷ []
      → lookup (s.host, s.port) s.peers ≡ none
      → (receive_all requests on_request [] sent
            (start_daemon (new_daemon host port)).rpc_server.funcs
          ≡ some (
            [],
            (new_daemon host port).rpc_server.funcs,
            run_function c.req_id daemon_add_block_store (codecs.number.pack bsid) ∷ [],
          ))
        × (perform_daemon codecs socket daemon_add_block_store s (codecs.number.pack bsid)
            ≡ some (s, [], done false))
  unfolding perform_daemon new_daemon register_daemon new_server start_daemon start_server
      daemon_name lookup insert task_of serve_add_block_store rpc_add_block_store
  add_block_store-refused c future bsid host port s socket sent sends alone = (
    delivered requests codecs.number c future (daemon_name daemon_add_block_store) bsid _ sent
        sends,
    simp (codecs.number.unpack-pack bsid, alone, serve_add_block_store, rpc_add_block_store),
  )
