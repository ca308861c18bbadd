-- ===== src/Rpc/Interleaving.antt =====
-- The connections of one server in src/rpc/rpc.cc, whose buffers come in any order.
pub mod Streams
use rawdishfs.Rpc.Interleaving.Streams.{
  chunks_of, tasks_of, Expects, still_there, tasks_of-append, tasks_of_self, tasks_of_other,
  Expects-other, Expects-self, later_of,
}
use mathlib.Core.Path.{subst}
use mathlib.Core.List.{map-append, append_assoc}
use rawdishfs.Base.{
  ==_iff, Bool-cases, Bytes, List, Option-cases, [], arith, false, if◌then◌else◌, inl, inr, length,
  map, refl, some, suc, sym, true, ℕ, ◌++◌, ◌==◌, ◌∙◌, ◌∷◌, ◌≡◌,
}
use rawdishfs.Base.Keys.{nat_key, bytes_key, eqb_refl}
use rawdishfs.Base.OrdMap.{OrdMap, lookup, insert, lookup-insert, lookup-insert_inv}
use rawdishfs.Msgpack.{Framing, more}
use rawdishfs.Rpc.{Request, Task, receive, on_request}
use rawdishfs.Rpc.Stream.{concat, wire, drain-wire, partial-wire}
use rawdishfs.Rpc.Server.{task_of, handle_all-on_request}
use rawdishfs.Rpc.Connections.{Connection, RpcServer, serve, serve_all}

module _ {F : Type 0} (requests : Framing Request) where
  abbrev pub AllExpect : RpcServer F → List (ℕ × Bytes) → (ℕ → List Request) → Type 0
  AllExpect server events ms =
      (s : ℕ) (c : Connection)
      → lookup s server.connections ≡ some c
      → Expects requests c (chunks_of s events) (ms s)

  abbrev pub Serves : RpcServer F → List (ℕ × Bytes) → (ℕ → List Request) → Type 0
  Serves server events ms =
      (server' : RpcServer F) × (tasks : List (ℕ × Task F)) × (serve_all requests server events
        ≡ some (server', tasks))
      × ((s : ℕ) (c : Connection)
          → lookup s server.connections ≡ some c
          → tasks_of s tasks ≡ map (task_of server.funcs) (ms s))

  -- A buffer of one connection: the requests that it completes, and those that are left.
  record Step (server : RpcServer F) (t : ℕ) (c : Connection) (chunk : Bytes) (chunks : List Bytes)
      (ms : List Request) : Type 0 where
    now : List Request
    later : List Request
    left : Bytes
    split : ms ≡ now ++ later
    served :
        serve requests server t chunk
        ≡ some (
          record server { connections = insert t (record c { pac = left }) server.connections },
          map (λ task. (t, task)) (map (task_of server.funcs) now),
        )
    expects : Expects requests (record c { pac = left }) chunks later

  serve-Step :
      (server : RpcServer F) (t : ℕ) (c : Connection) (chunk : Bytes) (chunks : List Bytes)
      (ms : List Request)
      → lookup t server.connections ≡ some c
      → Expects requests c (chunk ∷ chunks) ms
      → Step server t c chunk chunks ms
  unfolding serve receive concat
  serve-Step server t c chunk chunks ms found e =
      let d =
        drain-wire requests on_request ms (c.pac ++ chunk) (concat chunks)
          (suc (length (c.pac ++ chunk))) server.funcs
          (append_assoc c.pac chunk (concat chunks) ∙ e.remains) (omega arith) in
      record {
        now = d.now;
        later = d.later;
        left = d.left;
        split = d.split;
        served = simp (
          serve,
          found,
          e.attached,
          receive,
          d.drained,
          handle_all-on_request requests server.funcs d.now,
        );
        expects = record { attached = e.attached; partial = d.partial; remains = d.remains };
      }

  expects_after :
      (server : RpcServer F) (t : ℕ) (c : Connection) (chunk : Bytes) (events : List (ℕ × Bytes))
      (ms : ℕ → List Request) (st : Step server t c chunk (chunks_of t events) (ms t))
      → AllExpect server ((t, chunk) ∷ events) ms
      → AllExpect
          (record server { connections = insert t (record c { pac = st.left }) server.connections })
          events
          (later_of requests t st.later ms)
  expects_after server t c chunk events ms st expects s c' found =
      elim (lookup-insert_inv t s (record c { pac = st.left }) c' server.connections found) [
        | inl (here, same) ↦
            rw (← here, eqb_refl t)
              (subst (λ d. Expects requests d (chunks_of t events) st.later) same st.expects)
        | inr (other, there) ↦
            rw other (Expects-other requests t s c' chunk events (ms s) other (expects s c' there))
      ]

  tasks_after :
      (server : RpcServer F) (t s : ℕ) (now later : List Request) (ms : ℕ → List Request)
      (tasks : List (ℕ × Task F))
      → ms t ≡ now ++ later
      → tasks_of s tasks ≡ map (task_of server.funcs) (later_of requests t later ms s)
      → tasks_of s (map (λ task. (t, task)) (map (task_of server.funcs) now) ++ tasks)
        ≡ map (task_of server.funcs) (ms s)
  tasks_after server t s now later ms tasks split each =
      let f = task_of server.funcs in
      tasks_of-append s (map (λ task. (t, task)) (map f now)) tasks ∙ elim (Bool-cases (t == s)) [
        | inl eq ↦
            rw (tasks_of_self s t (map f now) eq, each, eq, ← (==_iff t s).0 eq)
              (rw split (sym (map-append f now later)))
        | inr other ↦ rw (tasks_of_other s t (map f now) other, each, other) refl
      ]

  serve_all_lem :
      (server : RpcServer F) (events : List (ℕ × Bytes)) (ms : ℕ → List Request)
      → AllExpect server events ms
      → Serves server events ms
  unfolding serve_all chunks_of tasks_of concat
  serve_all_lem server [] ms expects = (
    server,
    [],
    refl,
    λ s c found.
        let e = expects s c found in
        let (done, empty) = partial-wire requests (ms s) c.pac e.partial e.remains in rw done refl,
  )
  serve_all_lem server ((t, chunk) ∷ events) ms expects =
      elim (Option-cases (lookup t server.connections)) [
        | inl absent ↦
            let skipped : serve requests server t chunk ≡ some (server, []) =
              simp (serve, absent) in
            let (server', tasks, runs, each) = serve_all_lem server events ms (λ s c found.
              Expects-other requests t s c chunk events (ms s) (ground (arith, absent, found))
                (expects s c found)) in
            (server', tasks, rw (skipped, runs) refl, each)
        | inr (c, found) ↦
            let st =
              serve-Step server t c chunk (chunks_of t events) (ms t) found
                (Expects-self requests t c chunk events (ms t) (expects t c found)) in
            let (server', tasks, runs, each) =
              serve_all_lem
                (record server {
                  connections = insert t (record c { pac = st.left }) server.connections;
                })
                events (later_of requests t st.later ms)
                (expects_after server t c chunk events ms st expects) in
            (
              server',
              map (λ task. (t, task)) (map (task_of server.funcs) st.now) ++ tasks,
              rw (st.served, runs) refl,
              λ s c' there.
                  let (e, is_there) =
                    still_there t s (record c { pac = st.left }) c' server.connections there in
                  tasks_after server t s st.now st.later ms tasks st.split (each s e is_there),
            )
      ]

  -- The buffers of the clients of a server may come in any order: where the connections are new and
  -- every client sends whole requests, no buffer throws, and each connection enqueues one task for
  -- each of its own requests, in order, whatever the others send in between.
  pub serve_all-interleaved :
      (server : RpcServer F) (events : List (ℕ × Bytes)) (ms : ℕ → List Request) (s : ℕ)
      (c : Connection)
      → ((t : ℕ) (d : Connection)
          → lookup t server.connections ≡ some d
          → (d.attached ≡ true)
            × (d.pac ≡ [])
            × (concat (chunks_of t events) ≡ wire requests (ms t)))
      → lookup s server.connections ≡ some c
      → (server' : RpcServer F) × (tasks : List (ℕ × Task F)) × (serve_all requests server events
          ≡ some (server', tasks))
        × (tasks_of s tasks ≡ map (task_of server.funcs) (ms s))
  serve_all-interleaved server events ms s c streams found =
      let (server', tasks, runs, each) = serve_all_lem server events ms (λ t d there.
        let (attached, empty, whole) = streams t d there in
        record {
          attached = attached;
          partial = rw empty requests.decode_nil;
          remains = rw empty whole;
        }) in
      (server', tasks, runs, each s c found)
