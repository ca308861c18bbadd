-- ===== src/Rpc/Server.antt =====
-- The connections of `RPCServer` in src/rpc/rpc.cc: which task each request becomes, and a call
-- from the client to the server and back.
use rawdishfs.Base.{
  Bytes, List, Option, Option-cases, [], ap, arith, inl, inr, length, map, none, refl, some, suc,
  ◌++◌, ◌>>=◌, ◌∙◌, ◌∷◌, ◌≡◌,
}
use rawdishfs.Base.Keys.{bytes_key, nat_key}
use rawdishfs.Base.OrdMap.{OrdMap, lookup}
use mathlib.Core.List.{append_assoc}
use rawdishfs.Msgpack.{more, Framing}
use rawdishfs.Rpc.{
  Request, Response, receive, RpcClient, ClientEffect, on_response, on_receive, Task, run_function,
  run_disconnect, on_request,
}
use rawdishfs.Rpc.Stream.{
  wire, handle_all, partial-wire, drain-wire, handle_all-append, concat, receive_all,
  receive_all-wire,
}

-- The task that a request becomes: the function that is registered under its name, or the end of
-- the connection.
unfoldable pub task_of : {F : Type 0} → OrdMap Bytes F → Request → Task F
task_of funcs (id, name, args) = elim (lookup name funcs) [
  | some func ↦ run_function id func args
  | none ↦ run_disconnect
]

on_request_lem :
    {F : Type 0} (funcs : OrdMap Bytes F) (m : Request)
    → on_request funcs m ≡ (funcs, task_of funcs m ∷ [])
unfolding on_request task_of
on_request_lem funcs (id, name, args) = elim (Option-cases (lookup name funcs)) [
  | inl e ↦ rw (e, on_request, task_of) refl
  | inr (func, e) ↦ rw (e, on_request, task_of) refl
]

module _ (requests : Framing Request) where
  pub handle_all-on_request :
      {F : Type 0} (funcs : OrdMap Bytes F) (ms : List Request)
      → handle_all requests on_request funcs ms ≡ (funcs, map (task_of funcs) ms)
  unfolding handle_all
  handle_all-on_request funcs [] = refl
  handle_all-on_request funcs (m ∷ ms) =
      rw (on_request_lem funcs m) (rw (handle_all-on_request funcs ms) refl)

  -- However the requests of a client are cut into buffers, a connection never throws on them: each
  -- becomes one task, in order, which runs the function that is registered under its name, or which
  -- ends the connection where there is none.
  pub receive_all-on_request :
      {F : Type 0} (ms : List Request) (chunks : List Bytes) (funcs : OrdMap Bytes F)
      → concat chunks ≡ wire requests ms
      → receive_all requests on_request [] chunks funcs ≡ some ([], funcs, map (task_of funcs) ms)
  receive_all-on_request ms chunks funcs e =
      receive_all-wire requests on_request ms chunks funcs e
      ∙ rw (handle_all-on_request funcs ms) refl

module _ (responses : Framing Response) where
  -- The buffers that come to a client, one after the other.
  unfoldable pub receive_chunks : RpcClient → List Bytes → Option (RpcClient × List ClientEffect)
  receive_chunks c [] = some (c, [])
  receive_chunks c (chunk ∷ chunks) = do
    r ← on_receive responses c chunk
    rest ← receive_chunks r.0 chunks
    some (rest.0, r.1 ++ rest.1)

  -- Handling a response does not read the buffer of the unpacker.
  on_response_pac :
      (c : RpcClient) (p : Bytes) (m : Response)
      → on_response (record c { pac = p }) m
        ≡ (record (on_response c m).0 { pac = p }, (on_response c m).1)
  unfolding on_response
  on_response_pac c p (id, body) = elim (Option-cases (lookup id c.resp_callbacks)) [
    | inl e ↦ rw (e, on_response) refl
    | inr (future, e) ↦ rw (e, on_response) refl
  ]

  handle_all_pac :
      (c : RpcClient) (p : Bytes) (ms : List Response)
      → handle_all responses on_response (record c { pac = p }) ms ≡ (
        record (handle_all responses on_response c ms).0 { pac = p },
        (handle_all responses on_response c ms).1,
      )
  unfolding handle_all
  handle_all_pac c p [] = refl
  handle_all_pac c p (m ∷ ms) =
      rw (on_response_pac c p m) (rw (handle_all_pac (on_response c m).0 p ms) refl)

  receive_chunks-partial :
      (ms : List Response) (c : RpcClient) (chunks : List Bytes)
      → responses.decode c.pac ≡ more
      → c.pac ++ concat chunks ≡ wire responses ms
      → receive_chunks c chunks
        ≡ some (
          record (handle_all responses on_response c ms).0 { pac = [] },
          (handle_all responses on_response c ms).1,
        )
  unfolding receive_chunks on_receive receive concat wire handle_all
  receive_chunks-partial ms c [] waits e =
      let (none_left, empty) = partial-wire responses ms c.pac waits e in
      rw none_left (ap (λ p. some (record c { pac = p }, [])) empty)
  receive_chunks-partial ms c (chunk ∷ chunks) waits e =
      let d =
        drain-wire responses on_response ms (c.pac ++ chunk) (concat chunks)
          (suc (length (c.pac ++ chunk))) c (append_assoc c.pac chunk (concat chunks) ∙ e)
          (omega arith) in
      let now = handle_all responses on_response c d.now in
      let rest =
        receive_chunks-partial d.later (record now.0 { pac = d.left }) chunks d.partial d.remains in
      rw (d.drained, rest, handle_all_pac now.0 d.left d.later)
        (rw d.split (rw (handle_all-append responses on_response c d.now d.later) refl))

  -- A client whose buffer is empty handles the responses one by one, however the stream is cut
  -- into buffers, and never throws on them.
  pub receive_chunks-wire :
      (ms : List Response) (c : RpcClient) (chunks : List Bytes)
      → c.pac ≡ []
      → concat chunks ≡ wire responses ms
      → receive_chunks c chunks
        ≡ some (
          record (handle_all responses on_response c ms).0 { pac = [] },
          (handle_all responses on_response c ms).1,
        )
  receive_chunks-wire ms c chunks empty e =
      receive_chunks-partial ms c chunks (rw empty responses.decode_nil) (rw empty e)
