-- ===== src/Rpc.antt =====
-- The RPC layer of src/rpc/rpc.h and src/rpc/rpc.cc over the interfaces of Msgpack. A client names
-- the future of a call by a number. What a method does to the socket, to a worker thread or to a
-- future is a list of effects, in order. `none` is an exception that leaves `onReceive`.
-- The templates for 0 to 6 arguments are one function here, with a type for the argument tuple.
-- The unpacker always reserves the room that it is asked for.
pub mod Stream
pub mod Client
pub mod Calls
pub mod Server
pub mod RoundTrip
pub mod Frames
pub mod Connections
pub mod Interleaving
mod Tests
use rawdishfs.Base.{
  Bool, Bytes, List, Option, [], false, length, map, none, some, suc, true, u64, zero, ℕ, ◌++◌, ◌+◌,
  ◌>>=◌, ◌∷◌,
}
use rawdishfs.Base.Keys.{bytes_key, nat_key}
use rawdishfs.Base.OrdMap.{OrdMap, lookup, insert, erase}
use rawdishfs.Msgpack.{more, message, malformed, Framing, Codec}

abbrev pub Request : Type 0
Request = ℕ × Bytes × Bytes

abbrev pub Response : Type 0
Response = ℕ × Bytes

module _ {M S E : Type 0} (framing : Framing M) (handle : S → M → S × List E) where
  -- The loop `while (_pac.next(&result))` over the buffer of the unpacker, which both `onReceive`
  -- share: the bytes that stay in the buffer, and what handling the objects in order has done.
  unfoldable pub drain : ℕ → Bytes → S → Option (Bytes × S × List E)
  drain zero pac s = none
  drain (suc fuel) pac s = elim (framing.decode pac) [
    | more ↦ some (pac, s, [])
    | malformed ↦ none
    | message m rest ↦ do r ← drain fuel rest (handle s m).0; some (r.0, r.1, (handle s m).1 ++ r.2)
  ]

  -- The bytes of the socket go behind those in the buffer. An object has at least one byte.
  unfoldable pub receive : Bytes → Bytes → S → Option (Bytes × S × List E)
  unfolding drain
  receive pac chunk s = drain (suc (length (pac ++ chunk))) (pac ++ chunk) s

-- `RPCClient::Internal`: the futures that wait, by the id of their call.
pub record RpcClient : Type 0 where
  pub pac : Bytes
  pub req_id : ℕ
  pub resp_callbacks : OrdMap ℕ ℕ
  pub disconnect_callback : Option ℕ
  -- whether `_socket` still calls the client
  pub attached : Bool

pub data ClientEffect : Type 0 where
  write : Bytes → ClientEffect
  -- `deserializeFuture` with the future and the buffer, `none` for the null pointer
  resume : ℕ → Option Bytes → ClientEffect
  hang_up : ClientEffect
  notify : ℕ → ClientEffect

unfoldable pub new_client : RpcClient
new_client = record {
  pac = [];
  req_id = 0;
  resp_callbacks = [];
  disconnect_callback = none;
  attached = false;
}

-- `start`, and `setDisconnectCallback`
pub start : RpcClient → RpcClient
start c = record c { attached = true }

pub set_disconnect_callback : RpcClient → Option ℕ → RpcClient
set_disconnect_callback c callback = record c { disconnect_callback = callback }

-- The result of `call`: the value in the buffer, or `A()` where the call was aborted.
unfoldable pub deserialize_future : {A : Type 0} → Codec A → A → Option Bytes → Option A
deserialize_future codec empty none = some empty
deserialize_future codec empty (some buf) = codec.unpack buf

-- The body of the loop in `onReceive`.
unfoldable pub on_response : RpcClient → Response → RpcClient × List ClientEffect
on_response c (id, body) = elim (lookup id c.resp_callbacks) [
  | none ↦ (c, [])
  | some future ↦
      (record c { resp_callbacks = erase id c.resp_callbacks }, resume future (some body) ∷ [])
]

-- `disconnect`: every call that waits is aborted.
unfoldable pub disconnect : RpcClient → RpcClient × List ClientEffect
disconnect c = (
  record c { attached = false; resp_callbacks = [] },
  hang_up ∷ map (λ e. resume e.1 none) c.resp_callbacks,
)

-- `onDisconnect`, which the socket calls when the connection is lost.
unfoldable pub on_disconnect : RpcClient → RpcClient × List ClientEffect
on_disconnect c = elim c.disconnect_callback [
  | none ↦ (c, [])
  | some callback ↦ (c, notify callback ∷ [])
]

module _ (requests : Framing Request) where
  -- `serializeArgs`
  unfoldable pub serialize_args : {A : Type 0} → Codec A → ℕ → Bytes → A → Bytes
  serialize_args codec id name args = requests.pack (id, name, codec.pack args)

  -- `call`; `future` names the future that it returns.
  unfoldable pub call :
      {A : Type 0} → Codec A → RpcClient → ℕ → Bytes → A → RpcClient × List ClientEffect
  unfolding serialize_args
  call codec c future name args = (
    record c {
      resp_callbacks = insert c.req_id future c.resp_callbacks;
      req_id = u64 (c.req_id + 1);
    },
    write (serialize_args codec c.req_id name args) ∷ [],
  )

module _ (responses : Framing Response) where
  unfoldable pub on_receive : RpcClient → Bytes → Option (RpcClient × List ClientEffect)
  unfolding receive on_response
  on_receive c chunk = do
    r ← receive responses on_response c.pac chunk c
    some (record r.1 { pac = r.0 }, r.2)

-- A registered function: the packed arguments to the packed result; `none` where it throws.
abbrev pub RpcFunc : Type 0
RpcFunc = Bytes → Option Bytes

-- `deserializeArgs` and `serializeFuture`
unfoldable pub deserialize_args : {A B : Type 0} → Codec A → Codec B → (A → B) → RpcFunc
deserialize_args argument result func args = do
  a ← argument.unpack args
  some (result.pack (func a))

unfoldable pub register_function :
    {A B : Type 0}
    → Codec A
    → Codec B
    → OrdMap Bytes RpcFunc
    → Bytes
    → (A → B)
    → OrdMap Bytes RpcFunc
unfolding deserialize_args
register_function argument result funcs name func =
    insert name (deserialize_args argument result func) funcs

-- What a connection of the server gives to a worker thread: `deferredRPCCall`, or `disconnect`.
-- `F` is the type of the registered functions.
pub data Task (F : Type 0) : Type 0 where
  run_function : ℕ → F → Bytes → Task F
  run_disconnect : Task F

-- The body of the loop in the `onReceive` of a connection.
unfoldable pub on_request : {F : Type 0} → OrdMap Bytes F → Request → OrdMap Bytes F × List (Task F)
on_request funcs (id, name, args) = elim (lookup name funcs) [
  | some func ↦ (funcs, run_function id func args ∷ [])
  | none ↦ (funcs, run_disconnect ∷ [])
]

module _ (responses : Framing Response) where
  -- `responseCallback`
  unfoldable pub response_callback : ℕ → Bytes → Bytes
  response_callback id result = responses.pack (id, result)

  -- `deferredRPCCall`: what the task writes to the socket.
  unfoldable pub run_task : Task RpcFunc → Option Bytes
  unfolding response_callback
  run_task (run_function id func args) = do result ← func args; some (response_callback id result)
  run_task run_disconnect = some []
