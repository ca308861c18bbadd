-- ===== src/Rpc/Tests.antt =====
-- The RPC layer with a small packing: the length of an object, then its bytes.
use rawdishfs.Rpc.Frames.{
  of_response, head_of, framed, requests, responses, number, to_request, to_response, first_only,
}
use rawdishfs.Base.OrdMap.{OrdMap, erase, lookup, insert}
use rawdishfs.Rpc.{
  deserialize_args, new_client, disconnect, drain, register_function, receive, response_callback,
  serialize_args, RpcFunc, Request, Response, RpcClient, write, resume, on_response, on_request,
  on_receive, call, run_task, Task,
}
use rawdishfs.Base.{
  ==_iff, Bool-cases, Bytes, List, Option, [], arith, false, inl, inr, map, none, refl, some,
  some_inj, suc, true, ℕ, ◌++◌, ◌+◌, ◌==◌, ◌∷◌, ◌≡◌,
}
use rawdishfs.Base.Keys.{bytes_key, nat_key}
use rawdishfs.Rpc.Connections.{Connection, RpcServer, serve_all}
use rawdishfs.Rpc.Interleaving.{serve_all-interleaved}
use rawdishfs.Rpc.Interleaving.Streams.{chunks_of, tasks_of}
use rawdishfs.Rpc.Stream.{wire, concat, receive_all}
use rawdishfs.Rpc.Client.{settled, waits}
use rawdishfs.Rpc.Calls.{Reach, created, next, calls, receives, settled-waits, settled-disconnect}
use rawdishfs.Rpc.Server.{task_of}
use rawdishfs.Rpc.RoundTrip.{registered, task_of_call, Settled, round_trip}

abbrev name : Bytes
name = b'f' ∷ []

abbrev client : RpcClient
client = record {
  pac = [];
  req_id = 3;
  resp_callbacks = (1, 1) ∷ [];
  disconnect_callback = none;
  attached = true;
}

abbrev stream : List Request
stream = (0, name, 5 ∷ []) ∷ (1, [], []) ∷ []

-- The wire of the two requests, cut inside the first.
abbrev pieces : List Bytes
pieces = (4 ∷ 0 ∷ 1 ∷ []) ∷ (b'f' ∷ 5 ∷ 2 ∷ 1 ∷ 0 ∷ []) ∷ []

pieces-wire : concat pieces ≡ wire requests stream
unfolding concat wire requests framed to_request
pieces-wire = refl

abbrev no_funcs : OrdMap Bytes RpcFunc
no_funcs = []

abbrev answers : List Response
answers = (1, 9 ∷ []) ∷ []

abbrev answer_pieces : List Bytes
answer_pieces = (2 ∷ 1 ∷ []) ∷ (9 ∷ []) ∷ []

answers-wire : concat answer_pieces ≡ wire responses answers
unfolding concat wire responses framed to_response
answers-wire = refl

-- The bytes of a call of the function with the argument 5, and of the answer 6.
abbrev sent : List Bytes
sent = (4 ∷ 3 ∷ 1 ∷ []) ∷ (b'f' ∷ 5 ∷ []) ∷ []

abbrev answer : List Bytes
answer = (2 ∷ []) ∷ (3 ∷ 6 ∷ []) ∷ []

sends : (call requests number client 7 name 5).1 ≡ write (concat sent) ∷ []
unfolding call serialize_args concat requests framed to_request number
sends = refl

replies :
    run_task responses (task_of_call requests responses number number suc [] 3 name 5)
    ≡ some (concat answer)
unfolding run_task response_callback task_of register_function deserialize_args lookup insert concat
    responses framed to_response number first_only
replies = refl

round_trip_example :
    (receive_all requests on_request [] sent
        (registered requests responses number number suc [] name)
      ≡ some (
        [],
        registered requests responses number number suc [] name,
        task_of_call requests responses number number suc [] 3 name 5 ∷ [],
      ))
    × Settled requests responses number number suc client 7 name 5 0 answer
round_trip_example =
    round_trip requests responses number number suc client 7 name 5 0 [] sent answer refl sends
      replies

abbrev after_answer : RpcClient
after_answer = record {
  pac = [];
  req_id = 1;
  resp_callbacks = [];
  disconnect_callback = none;
  attached = false;
}

answer_comes :
    on_receive responses (call requests number new_client 0 name 5).0 (2 ∷ 0 ∷ 6 ∷ [])
    ≡ some (after_answer, resume 0 (some (6 ∷ [])) ∷ [])
unfolding on_receive receive drain on_response lookup erase call new_client insert responses framed
    head_of of_response
answer_comes = refl

-- A client makes one call, which is answered.
life :
    Reach requests responses after_answer
      (([] ++ (call requests number new_client 0 name 5).1) ++ resume 0 (some (6 ∷ [])) ∷ [])
unfolding new_client
life =
    next (next created (calls number name 5 (omega arith))) (receives (2 ∷ 0 ∷ 6 ∷ []) answer_comes)

settled-waits_example :
    settled 0
        (([] ++ (call requests number new_client 0 name 5).1) ++ resume 0 (some (6 ∷ [])) ∷ [])
      + waits 0 after_answer
    ≡ 1
settled-waits_example = settled-waits requests responses life 0

settled-disconnect_example :
    (settled 0 (
        (([] ++ (call requests number new_client 0 name 5).1) ++ resume 0 (some (6 ∷ [])) ∷ [])
        ++ (disconnect after_answer).1)
      ≡ 1)
    × (waits 0 (disconnect after_answer).0 ≡ 0)
settled-disconnect_example = settled-disconnect requests responses life 0

abbrev connection : Connection
connection = record { pac = []; attached = true; disconnect_callback = none }

-- A server without functions and with the connections 1 and 2.
abbrev server : RpcServer RpcFunc
server = record {
  funcs = [];
  connections = (1, connection) ∷ (2, connection) ∷ [];
  accept_callback = none;
  listening = true;
}

-- The two pieces of the stream, the first and the last on connection 1.
abbrev mixed : List (ℕ × Bytes)
mixed =
    (1, 4 ∷ 0 ∷ 1 ∷ [])
    ∷ (2, 4 ∷ 0 ∷ 1 ∷ b'f' ∷ 5 ∷ 2 ∷ 1 ∷ 0 ∷ [])
    ∷ (1, b'f' ∷ 5 ∷ 2 ∷ 1 ∷ 0 ∷ [])
    ∷ []

abbrev both_streams : ℕ → List Request
both_streams s = stream

mixed-wire :
    (t : ℕ) (d : Connection)
    → lookup t server.connections ≡ some d
    → (d.attached ≡ true)
      × (d.pac ≡ [])
      × (concat (chunks_of t mixed) ≡ wire requests (both_streams t))
unfolding lookup concat chunks_of wire requests framed to_request
mixed-wire t d found = elim (Bool-cases (1 == t)) [
  | inl eq ↦
      let same : connection ≡ d = some_inj (rw eq at found) in
      rw (← same, ← (==_iff 1 t).0 eq) (refl, refl, refl)
  | inr other ↦ elim (Bool-cases (2 == t)) [
    | inl eq ↦
        let same : connection ≡ d = some_inj (rw (other, eq) at found) in
        rw (← same, ← (==_iff 2 t).0 eq) (refl, refl, refl)
    | inr last ↦ absurd (none_some (rw (other, last) at found))
  ]
]
  where
    none_some : ◌≡◌ {A = Option Connection} none (some d) → ⊥
    none_some e = cc

serve_all-interleaved_example :
    (server' : RpcServer RpcFunc) × (tasks : List (ℕ × Task RpcFunc)) × (serve_all requests server
        mixed
      ≡ some (server', tasks))
    × (tasks_of 2 tasks ≡ map (task_of server.funcs) stream)
unfolding lookup
serve_all-interleaved_example =
    serve_all-interleaved requests server mixed both_streams 2 connection mixed-wire refl
