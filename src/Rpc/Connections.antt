-- ===== src/Rpc/Connections.antt =====
-- `RPCServer` and its connections in src/rpc/rpc.h and src/rpc/rpc.cc, and the end of a client. A
-- connection is named by the number of its socket, and the set of connections is in the order of
-- the numbers. What a method does to a socket or gives to another object is a list of effects, in
-- order.
use rawdishfs.Base.{
  Bool, Bytes, List, Option, [], false, if◌then◌else◌, map, none, some, true, ℕ, ◌++◌, ◌>>=◌, ◌∷◌,
}
use rawdishfs.Base.Keys.{nat_key, bytes_key}
use rawdishfs.Base.OrdMap.{OrdMap, lookup, insert}
use rawdishfs.Msgpack.{Framing}
use rawdishfs.Rpc.{
  RpcClient, ClientEffect, disconnect, set_disconnect_callback, Request, Task, receive, on_request,
}

-- `RPCServer::Connection::Internal`, without its pointer to the functions of the server
pub record Connection : Type 0 where
  pub pac : Bytes
  -- whether the socket calls `onReceive` and `onDisconnect`
  pub attached : Bool
  pub disconnect_callback : Option ℕ

pub record RpcServer (F : Type 0) : Type 0 where
  pub funcs : OrdMap Bytes F
  pub connections : OrdMap ℕ Connection
  pub accept_callback : Option ℕ
  -- whether `_socket` calls `onAccept`
  pub listening : Bool

pub data ServerEffect (F : Type 0) : Type 0 where
  start_socket : ℕ → ServerEffect F
  close_socket : ℕ → ServerEffect F
  -- the accept callback is called with a connection
  hand_over : ℕ → ℕ → ServerEffect F
  notify_lost : ℕ → ServerEffect F
  -- a connection enqueues a task
  enqueue : ℕ → Task F → ServerEffect F

pub new_connection : Connection
new_connection = record { pac = []; attached = false; disconnect_callback = none }

-- `Connection::start`, `setDisconnectCallback` and `disconnect`
pub start_connection : Connection → Connection
start_connection c = record c { attached = true }

pub set_connection_callback : Connection → Option ℕ → Connection
set_connection_callback c callback = record c { disconnect_callback = callback }

pub disconnect_connection : {F : Type 0} → ℕ → Connection → Connection × List (ServerEffect F)
disconnect_connection socket c = (record c { attached = false }, close_socket socket ∷ [])

-- `onDisconnect`, which the socket calls when the connection is lost.
pub lose_connection : {F : Type 0} → Connection → List (ServerEffect F)
lose_connection c = elim c.disconnect_callback [
  | none ↦ []
  | some callback ↦ notify_lost callback ∷ []
]

-- `~Connection` of every connection of a set that is cleared.
pub close_all : {F : Type 0} → OrdMap ℕ Connection → List (ServerEffect F)
unfolding disconnect_connection
close_all [] = []
close_all ((socket, c) ∷ conns) = (disconnect_connection socket c).1 ++ close_all conns

-- `create` and the constructor
unfoldable pub new_server : {F : Type 0} → RpcServer F
new_server = record { funcs = []; connections = []; accept_callback = none; listening = false }

unfoldable pub start_server : {F : Type 0} → RpcServer F → RpcServer F
start_server s = record s { listening = true }

pub set_accept_callback :
    {F : Type 0} → RpcServer F → Option ℕ → RpcServer F × List (ServerEffect F)
unfolding close_all
set_accept_callback s callback =
    (record s { accept_callback = callback; connections = [] }, close_all s.connections)

pub on_accept : {F : Type 0} → RpcServer F → ℕ → RpcServer F × List (ServerEffect F)
unfolding new_connection start_connection insert
on_accept s socket = elim s.accept_callback [
  | some callback ↦ (s, hand_over callback socket ∷ [])
  | none ↦ (
    record s { connections = insert socket (start_connection new_connection) s.connections },
    start_socket socket ∷ [],
  )
]

-- The destructor.
unfoldable pub destroy_server : {F : Type 0} → RpcServer F → RpcServer F × List (ServerEffect F)
unfolding close_all
destroy_server s = (record s { listening = false; connections = [] }, close_all s.connections)

module _ {F : Type 0} (requests : Framing Request) where
  -- `onReceive` of the connection of a socket, if the socket calls one: the tasks that it enqueues.
  unfoldable pub serve : RpcServer F → ℕ → Bytes → Option (RpcServer F × List (ℕ × Task F))
  unfolding lookup receive on_request insert
  serve s socket chunk = elim (lookup socket s.connections) [
    | none ↦ some (s, [])
    | some c ↦
        if c.attached
        then (receive requests on_request c.pac chunk s.funcs >>= λ r. some (
          record s { connections = insert socket (record c { pac = r.0 }) s.connections },
          map (λ task. (socket, task)) r.2,
        ))
        else some (s, [])
  ]

  -- The buffers of all sockets, in the order in which they come.
  unfoldable pub serve_all :
      RpcServer F → List (ℕ × Bytes) → Option (RpcServer F × List (ℕ × Task F))
  unfolding serve
  serve_all s [] = some (s, [])
  serve_all s ((socket, chunk) ∷ events) = do
    r ← serve s socket chunk
    rest ← serve_all r.0 events
    some (rest.0, r.1 ++ rest.1)

-- `~RPCClient`
pub drop_client : RpcClient → RpcClient × List ClientEffect
unfolding disconnect
drop_client c = disconnect (set_disconnect_callback c none)
