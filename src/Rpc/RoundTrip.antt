-- ===== src/Rpc/RoundTrip.antt =====
-- A call of src/rpc/rpc.h from the client to the server and back, over any cut of the two streams.
use rawdishfs.Base.{Bytes, List, [], ap, refl, some, some_inj, sym, ℕ, ◌∙◌, ◌∷◌, ◌≡◌}
use rawdishfs.Base.Keys.{bytes_key, nat_key}
use rawdishfs.Base.OrdMap.{OrdMap, insert, erase, lookup-insert_self, lookup-erase_self}
use mathlib.Core.List.{append-nil}
use rawdishfs.Msgpack.{Codec, Framing}
use rawdishfs.Rpc.{
  Request, Response, RpcClient, write, resume, on_response, on_request, serialize_args, call,
  deserialize_future, RpcFunc, deserialize_args, register_function, Task, run_task,
  response_callback,
}
use rawdishfs.Rpc.Stream.{wire, handle_all, concat, receive_all}
use rawdishfs.Rpc.Client.{waits, waits_in}
use rawdishfs.Rpc.Server.{task_of, receive_all-on_request, receive_chunks, receive_chunks-wire}

written : (b : Bytes) (b' : Bytes) → (write b ∷ []) ≡ (write b' ∷ []) → b ≡ b'
written b b' e = cc

module _ (requests : Framing Request) {A : Type 0} (argument : Codec A) where
  -- The server makes one task of the bytes that `call` writes.
  pub delivered :
      {F : Type 0} (c : RpcClient) (future : ℕ) (name : Bytes) (args : A) (funcs : OrdMap Bytes F)
      (sent : List Bytes)
      → (call requests argument c future name args).1 ≡ write (concat sent) ∷ []
      → receive_all requests on_request [] sent funcs
        ≡ some ([], funcs, task_of funcs (c.req_id, name, argument.pack args) ∷ [])
  unfolding call serialize_args wire
  delivered c future name args funcs sent sends =
      let packed = requests.pack (c.req_id, name, argument.pack args) in
      receive_all-on_request requests ((c.req_id, name, argument.pack args) ∷ []) sent funcs
        (sym (written packed (concat sent) sends) ∙ sym (append-nil packed))

module _ (requests : Framing Request) (responses : Framing Response) {A : Type 0}
    (argument : Codec A) where
  -- The client gives the body of the answer to the future of the call, which waits no more.
  pub answered :
      (c : RpcClient) (future : ℕ) (name : Bytes) (args : A) (body : Bytes) (answer : List Bytes)
      → c.pac ≡ []
      → concat answer ≡ responses.pack (c.req_id, body)
      → (client : RpcClient) × (receive_chunks responses
            (call requests argument c future name args).0
            answer
          ≡ some (client, resume future (some body) ∷ []))
        × (waits c.req_id client ≡ 0)
  unfolding call wire handle_all on_response
  answered c future name args body answer clear e =
      let there = lookup-insert_self c.req_id future c.resp_callbacks in
      (
        record (call requests argument c future name args).0 {
          pac = [];
          resp_callbacks = erase c.req_id (insert c.req_id future c.resp_callbacks);
        },
        receive_chunks-wire responses ((c.req_id, body) ∷ [])
              (call requests argument c future name args).0 answer clear
              (e ∙ sym (append-nil (responses.pack (c.req_id, body))))
            ∙ rw (there, handle_all, on_response) refl,
        ap waits_in (lookup-erase_self c.req_id (insert c.req_id future c.resp_callbacks)),
      )

module _ (requests : Framing Request) (responses : Framing Response) {A B : Type 0}
    (argument : Codec A) (result : Codec B) (func : A → B) where
  -- The server where `func` is registered under the name.
  abbrev pub registered : OrdMap Bytes RpcFunc → Bytes → OrdMap Bytes RpcFunc
  registered funcs name = register_function argument result funcs name func

  -- The task that the server makes of a call.
  abbrev pub task_of_call : OrdMap Bytes RpcFunc → ℕ → Bytes → A → Task RpcFunc
  task_of_call funcs id name args = task_of (registered funcs name) (id, name, argument.pack args)

  pub run_task_of_call :
      (funcs : OrdMap Bytes RpcFunc) (id : ℕ) (name : Bytes) (args : A)
      → run_task responses (task_of_call funcs id name args)
        ≡ some (responses.pack (id, result.pack (func args)))
  unfolding task_of register_function run_task response_callback deserialize_args
  run_task_of_call funcs id name args =
      rw (lookup-insert_self name (deserialize_args argument result func) funcs, task_of)
        (rw (argument.unpack-pack args, run_task, response_callback) refl)

  -- What the client has made of the answer: the future of the call has a value, no other future
  -- has, and the call waits no more.
  pub record Settled (c : RpcClient) (future : ℕ) (name : Bytes) (args : A) (empty : B)
      (answer : List Bytes) : Type 0 where
    pub client : RpcClient
    pub buf : Bytes
    pub resumed :
        receive_chunks responses (call requests argument c future name args).0 answer
        ≡ some (client, resume future (some buf) ∷ [])
    pub value : deserialize_future result empty (some buf) ≡ some (func args)
    pub waits_no_more : waits c.req_id client ≡ 0

  settles :
      (c : RpcClient) (future : ℕ) (name : Bytes) (args : A) (empty : B) (answer : List Bytes)
      → c.pac ≡ []
      → concat answer ≡ responses.pack (c.req_id, result.pack (func args))
      → Settled c future name args empty answer
  unfolding deserialize_future
  settles c future name args empty answer clear e =
      let (client, resumed, done) =
        answered requests responses argument c future name args (result.pack (func args)) answer
          clear e in
      record {
        client = client;
        buf = result.pack (func args);
        resumed = resumed;
        value = result.unpack-pack (func args);
        waits_no_more = done;
      }

  -- A call returns what the function returns: however the bytes that `call` writes are cut on their
  -- way to a server where the function is registered under the name, the server makes one task of
  -- them; and however the bytes that the task writes are cut on their way back, the future of the
  -- call gets the value of the function at the arguments, and the call waits no more.
  pub round_trip :
      (c : RpcClient) (future : ℕ) (name : Bytes) (args : A) (empty : B)
      (funcs : OrdMap Bytes RpcFunc) (sent answer : List Bytes)
      → c.pac ≡ []
      → (call requests argument c future name args).1 ≡ write (concat sent) ∷ []
      → run_task responses (task_of_call funcs c.req_id name args) ≡ some (concat answer)
      → (receive_all requests on_request [] sent (registered funcs name)
          ≡ some ([], registered funcs name, task_of_call funcs c.req_id name args ∷ []))
        × Settled c future name args empty answer
  round_trip c future name args empty funcs sent answer clear sends answers = (
    delivered requests argument c future name args (registered funcs name) sent sends,
    settles c future name args empty answer clear
        (sym (some_inj (sym (run_task_of_call funcs c.req_id name args) ∙ answers))),
  )
