-- ===== src/Benchmark/Completion.antt =====
-- The benchmark of src/rpc/rpc_benchmark.cc comes to an end, with the values that it expects.
use rawdishfs.Base.{
  Bytes, List, Option, [], ap, arith, length, map, refl, some, some_inj, suc, sym, u32, zero, ℕ,
  ◌++◌, ◌+◌, ◌<◌, ◌>>=◌, ◌^◌, ◌∙◌, ◌∷◌, ◌≡◌,
}
use native.Mathlib.Nat.{zero-add}
use rawdishfs.Base.Keys.{bytes_key, nat_key}
use rawdishfs.Base.OrdMap.{lookup}
use rawdishfs.Msgpack.{Framing, Codec}
use rawdishfs.Rpc.{
  Request, Response, RpcClient, ClientEffect, new_client, on_request, RpcFunc, Task, run_task,
}
use rawdishfs.Rpc.Stream.{wire, concat, receive_all}
use rawdishfs.Rpc.Client.{waits, waits_in}
use rawdishfs.Rpc.Server.{task_of, receive_all-on_request, receive_chunks, receive_chunks-wire}
use rawdishfs.Rpc.RoundTrip.{run_task_of_call}
use rawdishfs.Benchmark.{
  add_args2, func_name, Progress, args_of, start_rpcs, run_callbacks, benchmark_funcs,
}
use rawdishfs.Benchmark.Answers.{
  IsOrder, length-IsOrder, requests_from, written_bytes, written_bytes-start_rpcs,
  lookup-start_rpcs, start_rpcs_pac, answer_of, handle_all-answers, run_callbacks-answers,
}

-- As many signals and counts as rounds.
abbrev pub counted : ℕ → Progress
counted k = record { signals = k; global_cnt = u32 k }

-- The rounds from one on.
unfoldable pub rounds_from : ℕ → ℕ → List ℕ
rounds_from zero i = []
rounds_from (suc rounds) i = i ∷ rounds_from rounds (i + 1)

module _ (responses : Framing Response) where
  -- What tasks write that run one after the other.
  unfoldable pub run_tasks : List (Task RpcFunc) → Option Bytes
  unfolding run_task
  run_tasks [] = some []
  run_tasks (task ∷ tasks) = do
    bytes ← run_task responses task
    rest ← run_tasks tasks
    some (bytes ++ rest)

module _ (requests : Framing Request) (responses : Framing Response) (args : Codec (ℕ × ℕ))
    (number : Codec ℕ) where
  -- The task of a round.
  abbrev pub task_of_round : ℕ → Task RpcFunc
  task_of_round i = task_of (benchmark_funcs args number) (i, func_name, args.pack (args_of i))

  tasks_of_rounds :
      (rounds i : ℕ)
      → map (task_of (benchmark_funcs args number)) (requests_from args rounds i)
        ≡ map task_of_round (rounds_from rounds i)
  unfolding requests_from rounds_from
  tasks_of_rounds zero i = refl
  tasks_of_rounds (suc rounds) i = ap (◌∷◌ (task_of_round i)) (tasks_of_rounds rounds (i + 1))

  run_tasks-wire :
      (order : List ℕ)
      → run_tasks responses (map task_of_round order)
        ≡ some (wire responses (map (answer_of responses number) order))
  unfolding run_tasks wire benchmark_funcs
  run_tasks-wire [] = refl
  run_tasks-wire (i ∷ order) =
      rw
        (
          run_task_of_call requests responses args number add_args2 [] i func_name (args_of i),
          run_tasks-wire order,
        )
        refl

  -- All the calls of a client are answered, with the values that are expected: however the bytes of
  -- the `n` rounds of `StartRPCs` on a new client are cut on their way, the server makes one task of
  -- each round, in order; and in whatever order these tasks run, each once, and however the answers
  -- are cut, no `CHECK_EQ` fails, the notification gets `n` signals, the counter goes up by `n` in
  -- its 32 bits, and no call waits.
  pub start_rpcs-completes :
      (n : ℕ) (order : List ℕ) (sent answers : List Bytes)
      → n < 2 ^ 64
      → IsOrder n order
      → concat sent ≡ written_bytes (start_rpcs requests args n 0 new_client).1
      → run_tasks responses (map task_of_round order) ≡ some (concat answers)
      → (receive_all requests on_request [] sent (benchmark_funcs args number)
          ≡ some ([], benchmark_funcs args number, map task_of_round (rounds_from n 0)))
        × (c : RpcClient) × (es : List ClientEffect) × (receive_chunks responses
              (start_rpcs requests args n 0 new_client).0
              answers
            ≡ some (c, es))
        × (run_callbacks number es (counted 0) ≡ some (counted n))
        × ((i : ℕ) → waits i c ≡ 0)
  unfolding new_client lookup
  start_rpcs-completes n order sent answers small is sends runs =
      let client = (start_rpcs requests args n 0 new_client).0 in
      let stream : concat sent ≡ wire requests (requests_from args n 0) =
        sends ∙ written_bytes-start_rpcs requests args n 0 new_client refl (omega arith) in
      let back : concat answers ≡ wire responses (map (answer_of responses number) order) =
        some_inj (sym runs ∙ run_tasks-wire order) in
      let (c, handled, nothing) =
        handle_all-answers responses number order client (λ i. ground (arith, is i))
          (λ i.
            ground
              (arith, lookup-start_rpcs requests args n 0 new_client i refl (omega arith), is i)) in
      (
        receive_all-on_request requests (requests_from args n 0) sent (benchmark_funcs args number)
              stream
            ∙ rw (tasks_of_rounds n 0) refl,
        record c { pac = [] },
        _,
        receive_chunks-wire responses (map (answer_of responses number) order) client answers
              (start_rpcs_pac requests args n 0 new_client) back
            ∙ rw handled refl,
        run_callbacks-answers responses number order (counted 0) (omega arith)
            ∙ ap (λ (k : ℕ). some (counted k))
                (zero-add (length order) ∙ length-IsOrder n order is),
        λ i. ap waits_in (nothing i),
      )
