-- ===== src/BlockStoreNode/Tests.antt =====
-- A node of src/blockstore/blockstore_daemon.h with one peer, which announces one store.
use rawdishfs.Base.{Bytes, List, Option, [], false, none, refl, some, true, ℕ, ◌↔◌, ◌∷◌, ◌≡◌}
use Prim.Native.Nat.{min}
use rawdishfs.Base.Keys.{address_key, nat_key}
use rawdishfs.Rpc.{RpcClient, write, on_request, run_function, call}
use rawdishfs.Rpc.Stream.{concat, receive_all}
use rawdishfs.Rpc.Frames.{address, requests, framed, to_request, number, flag}
use rawdishfs.BlockStoreNode.{
  done, Store, file_block_store, remote_block_store, Peer, BlockStoreNode, call_add_peer, pending,
  new_node, rpc_add_peer, rpc_add_block_store, put_block_helper, put_block,
}
use rawdishfs.BlockStoreNode.Daemon.{
  DaemonCodecs, daemon_name, daemon_add_block_store, start_daemon, new_daemon, perform_daemon,
  add_block_store-refused,
}
use rawdishfs.Base.OrdMap.{lookup, insert}
use rawdishfs.BlockStoreNode.Owners.{Owner}
use rawdishfs.BlockStoreNode.Life.{
  start, next, adds_peer, adds_remote, Owner-new_node, rpc_add_peer_fault, put_block_helper-min,
}

abbrev host : Bytes
host = b'h' ∷ []

abbrev peer_host : Bytes
peer_host = b'p' ∷ []

abbrev with_peer : BlockStoreNode
with_peer = record {
  host = host;
  port = 80;
  running = true;
  peers = ((peer_host, 81), record { client = some 5; bsids = [] }) ∷ [];
  blockstores = [];
}

abbrev peer : Peer
peer = record { client = some 5; bsids = 7 ∷ [] }

abbrev with_store : BlockStoreNode
with_store = record {
  host = host;
  port = 80;
  running = true;
  peers = ((peer_host, 81), peer) ∷ [];
  blockstores = (7, remote_block_store 5 7) ∷ [];
}

connects :
    rpc_add_peer (new_node host 80) peer_host 81 (some 5)
    ≡ some (with_peer, call_add_peer 5 host 80 ∷ [], pending 5)
unfolding rpc_add_peer new_node lookup insert
connects = refl

announces : rpc_add_block_store with_peer peer_host 81 7 ≡ some (with_store, true)
unfolding rpc_add_block_store lookup insert
announces = refl

knows_store : lookup 7 with_store.blockstores ≡ some (remote_block_store 5 7)
unfolding lookup
knows_store = refl

knows_peer : lookup (peer_host, 81) with_store.peers ≡ some peer
unfolding lookup
knows_peer = refl

-- No store is ever found for a block.
put_block_faults : put_block with_store 1 (λ store. 0) ≡ none
unfolding put_block
put_block_faults = refl

Owner-new_node_example : Owner with_store 7 5 7
Owner-new_node_example =
    Owner-new_node host 80
      (next (next start (adds_peer peer_host 81 (some 5) connects))
        (adds_remote peer_host 81 7 announces))
      7 5 7 knows_store

abbrev no_socket : Option ℕ
no_socket = none

rpc_add_peer_fault_example :
    (rpc_add_peer with_store host 82 no_socket ≡ none)
    ↔ ((lookup (host, 82) with_store.peers ≡ none) × (no_socket ≡ none))
rpc_add_peer_fault_example = rpc_add_peer_fault with_store host 82 no_socket

abbrev free_blocks : Store → ℕ
free_blocks (file_block_store path) = 3
free_blocks (remote_block_store client bsid) = 9

put_block_helper-min_example :
    free_blocks (put_block_helper (file_block_store host) (remote_block_store 5 7) 3 9) ≡ min 3 9
put_block_helper-min_example =
    put_block_helper-min (file_block_store host) (remote_block_store 5 7) free_blocks

abbrev codecs : DaemonCodecs
codecs = record { address = address; number = number; flag = flag }

abbrev a_client : RpcClient
a_client = record {
  pac = [];
  req_id = 0;
  resp_callbacks = [];
  disconnect_callback = none;
  attached = true;
}

abbrev a_call : List Bytes
a_call =
    (16 ∷ 0 ∷ 13 ∷ b'a' ∷ b'd' ∷ b'd' ∷ b'B' ∷ b'l' ∷ b'o' ∷ b'c' ∷ b'k' ∷ [])
    ∷ (b'S' ∷ b't' ∷ b'o' ∷ b'r' ∷ b'e' ∷ 7 ∷ [])
    ∷ []

a_call-sends :
    (call requests number a_client 5 (daemon_name daemon_add_block_store) 7).1
    ≡ write (concat a_call) ∷ []
unfolding call daemon_name requests framed to_request number concat
a_call-sends = refl

stranger_to_itself : lookup (with_peer.host, with_peer.port) with_peer.peers ≡ none
unfolding lookup
stranger_to_itself = refl

add_block_store-refused_example :
    (receive_all requests on_request [] a_call (start_daemon (new_daemon host 80)).rpc_server.funcs
      ≡ some (
        [],
        (new_daemon host 80).rpc_server.funcs,
        run_function 0 daemon_add_block_store (number.pack 7) ∷ [],
      ))
    × (perform_daemon codecs none daemon_add_block_store with_peer (number.pack 7)
        ≡ some (with_peer, [], done false))
add_block_store-refused_example =
    add_block_store-refused requests codecs a_client 5 7 host 80 with_peer none a_call a_call-sends
      stranger_to_itself
