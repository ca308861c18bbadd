-- ===== src/BlockStoreNode.antt =====
-- `BlockStoreNode` of src/blockstore/blockstore_daemon.h and src/blockstore/blockstore_daemon.cc:
-- the peers of a node and the block stores that it can reach. A client is named by a number.
-- `none` is the use of a null pointer. The calls to the peers are returned in order.
pub mod Owners
pub mod Announce
pub mod Life
pub mod Daemon
mod Tests
use rawdishfs.Base.{
  Bool, Bytes, List, Option, [], false, if◌then◌else◌, ltb, none, not, some, true, ℕ, ◌++◌, ◌>>=◌,
  ◌∷◌,
}
use rawdishfs.Base.Keys.{Address, address_key, nat_key, address_eqb}
use rawdishfs.Base.OrdMap.{OrdMap, lookup, insert, erase}

-- A `FileBlockStore` with its path, or a `RemoteBlockStore` with its client and `_bsid`.
pub data Store : Type 0 where
  file_block_store : Bytes → Store
  remote_block_store : ℕ → ℕ → Store

-- `Peer`: a peer that could not be reached has no client.
pub record Peer : Type 0 where
  pub client : Option ℕ
  pub bsids : List ℕ

pub record BlockStoreNode : Type 0 where
  pub host : Bytes
  pub port : ℕ
  pub running : Bool
  pub peers : OrdMap Address Peer
  pub blockstores : OrdMap ℕ Store

-- The call of "addPeer" on a client.
pub data PeerCall : Type 0 where
  call_add_peer : ℕ → Bytes → ℕ → PeerCall

-- A result, or the future of the call to the client.
pub data Answer : Type 0 where
  done : Bool → Answer
  pending : ℕ → Answer

unfoldable pub new_node : Bytes → ℕ → BlockStoreNode
new_node host port = record {
  host = host;
  port = port;
  running = true;
  peers = [];
  blockstores = [];
}

-- `stop`, as far as `onTimer` sees it.
unfoldable pub stop : BlockStoreNode → BlockStoreNode
stop s = record s { running = false }

-- `onTimer`: the timer is set again (`true`), or the end is signalled.
pub on_timer : BlockStoreNode → Bool
on_timer s = s.running

pub add_block_store : BlockStoreNode → ℕ → Bytes → BlockStoreNode
add_block_store s bsid pathname = record s {
  blockstores = insert bsid (file_block_store pathname) s.blockstores;
}

-- `Peer::connect`; `socket` is what `TcpSocket::connect` gives, `none` for the null pointer.
pub connect : Peer → Option ℕ → Bytes → ℕ → Peer × List PeerCall × Answer
connect peer none myhost myport = (peer, [], done false)
connect peer (some client) myhost myport =
    (record peer { client = some client }, call_add_peer client myhost myport ∷ [], pending client)

-- `Peer::setDisconnectCallback`: the client that is used.
pub set_disconnect_callback : Peer → Option ℕ
set_disconnect_callback peer = peer.client

-- The calls that introduce the other peers to the client.
pub introduce_peers : ℕ → Address → OrdMap Address Peer → List PeerCall
introduce_peers client addr [] = []
introduce_peers client addr ((a, p) ∷ peers) =
    let rest = introduce_peers client addr peers in
    if address_eqb addr a then rest else call_add_peer client a.0 a.1 ∷ rest

unfoldable pub rpc_add_peer :
    BlockStoreNode → Bytes → ℕ → Option ℕ → Option (BlockStoreNode × List PeerCall × Answer)
unfolding connect set_disconnect_callback introduce_peers
rpc_add_peer s host port socket = elim (lookup (host, port) s.peers) [
  | some peer ↦ some (s, [], done true)
  | none ↦
      let connected = connect (record { client = none; bsids = [] }) socket s.host s.port in
      let peers = insert (host, port) connected.0 s.peers in
      do
        client ← set_disconnect_callback connected.0
        some (
          record s { peers = peers },
          connected.1 ++ introduce_peers client (host, port) peers,
          connected.2,
        )
]

-- `Peer::registerBlockStore`
pub register_block_store : Peer → ℕ → Peer × Option Store
register_block_store peer bsid = (
  record peer { bsids = peer.bsids ++ bsid ∷ [] },
  (peer.client >>= λ client. some (remote_block_store client bsid)),
)

unfoldable pub rpc_add_block_store : BlockStoreNode → Bytes → ℕ → ℕ → Option (BlockStoreNode × Bool)
unfolding register_block_store
rpc_add_block_store s host port bsid = elim (lookup (host, port) s.peers) [
  | none ↦ some (s, false)
  | some peer ↦ elim (lookup bsid s.blockstores) [
    | some store ↦ some (s, false)
    | none ↦ do
      store ← (register_block_store peer bsid).1
      some (
        record s {
          peers = insert (host, port) (register_block_store peer bsid).0 s.peers;
          blockstores = insert bsid store s.blockstores;
        },
        true,
      )
  ]
]

-- The RPC "addBlockStore": it is bound to the address of the node itself.
unfoldable pub serve_add_block_store : BlockStoreNode → ℕ → Option (BlockStoreNode × Bool)
unfolding rpc_add_block_store
serve_add_block_store s bsid = rpc_add_block_store s s.host s.port bsid

pub erase_all : List ℕ → OrdMap ℕ Store → OrdMap ℕ Store
erase_all [] stores = stores
erase_all (bsid ∷ bsids) stores = erase_all bsids (erase bsid stores)

-- `RemovePeer`: the null pointer of a peer that is not there is used.
pub remove_peer : BlockStoreNode → Address → Option BlockStoreNode
unfolding erase_all
remove_peer s addr = do
  peer ← lookup addr s.peers
  some (record s { peers = erase addr s.peers; blockstores = erase_all peer.bsids s.blockstores })

-- `_findBestLocation` and `_findNextBestLocation`: the null pointer.
pub find_best_location : BlockStoreNode → ℕ → Option Store
find_best_location s hash = none

pub find_next_best_location : BlockStoreNode → ℕ → Option Store
find_next_best_location s hash = none

-- `putBlockHelper`: which of the two stores gets the block, from the numbers of free blocks.
pub put_block_helper : Store → Store → ℕ → ℕ → Store
put_block_helper a b free_a free_b = if ltb free_a free_b then a else b

-- `putBlock` up to the choice of the store; the numbers of free blocks are those that the stores
-- answer.
pub put_block : BlockStoreNode → ℕ → (Store → ℕ) → Option Store
unfolding find_best_location find_next_best_location put_block_helper
put_block s hash num_free_blocks = do
  a ← find_best_location s hash
  b ← find_next_best_location s hash
  some (put_block_helper a b (num_free_blocks a) (num_free_blocks b))

-- `getBlock` always gives the null pointer.
pub get_block : BlockStoreNode → Bytes → Option Bytes
get_block s name = none
