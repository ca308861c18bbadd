-- ===== src/Benchmark/Tests.antt =====
-- A run of the benchmark of src/rpc/rpc_benchmark.cc with two rounds, whose tasks run last to first.
use rawdishfs.Base.{
  Bytes, List, Option, [], arith, map, none, refl, some, suc, zero, ℕ, ◌++◌, ◌∷◌, ◌≡◌,
}
use rawdishfs.Base.Keys.{bytes_key, nat_key}
use rawdishfs.Base.OrdMap.{lookup, insert}
use rawdishfs.Msgpack.{Codec}
use rawdishfs.Rpc.{
  RpcClient, ClientEffect, new_client, on_request, call, serialize_args, run_task,
  response_callback, deserialize_args, register_function,
}
use rawdishfs.Rpc.Stream.{concat, receive_all}
use rawdishfs.Rpc.Client.{waits}
use rawdishfs.Rpc.Server.{task_of, receive_chunks}
use rawdishfs.Rpc.Frames.{requests, responses, number, framed, to_request, to_response}
use rawdishfs.Benchmark.{add_args2, func_name, start_rpcs, run_callbacks, benchmark_funcs}
use rawdishfs.Benchmark.Answers.{IsOrder, times_in, written_bytes}
use rawdishfs.Benchmark.Completion.{
  counted, rounds_from, run_tasks, task_of_round, start_rpcs-completes,
}

unfoldable two_of : Bytes → Option (ℕ × ℕ)
two_of [] = none
two_of (a ∷ []) = none
two_of (a ∷ b ∷ rest) = some (a, b)

unfoldable args : Codec (ℕ × ℕ)
unfolding two_of
args = record { pack = λ p. p.0 ∷ p.1 ∷ []; unpack = two_of; unpack-pack = λ p. refl }

abbrev order : List ℕ
order = 1 ∷ 0 ∷ []

order-IsOrder : IsOrder 2 order
unfolding times_in
order-IsOrder zero = refl
order-IsOrder (suc zero) = refl
order-IsOrder (suc (suc i)) = ground arith

-- The second request is cut in two.
abbrev sent : List Bytes
sent = (12 ∷ 0 ∷ 8 ∷ func_name ++ 0 ∷ 1 ∷ 12 ∷ 1 ∷ 8 ∷ []) ∷ (func_name ++ 1 ∷ 2 ∷ []) ∷ []

abbrev answers : List Bytes
answers = (2 ∷ 1 ∷ 3 ∷ 2 ∷ []) ∷ (0 ∷ 1 ∷ []) ∷ []

sent-written : concat sent ≡ written_bytes (start_rpcs requests args 2 0 new_client).1
unfolding concat written_bytes start_rpcs call serialize_args requests framed to_request new_client
    args insert
sent-written = refl

answers-run :
    run_tasks responses (map (task_of_round requests responses args number) order)
    ≡ some (concat answers)
unfolding concat run_tasks run_task task_of benchmark_funcs register_function deserialize_args
    response_callback add_args2 responses framed to_response args two_of number lookup insert
answers-run = refl

start_rpcs-completes_example :
    (receive_all requests on_request [] sent (benchmark_funcs args number)
      ≡ some (
        [],
        benchmark_funcs args number,
        map (task_of_round requests responses args number) (rounds_from 2 0),
      ))
    × (c : RpcClient) × (es : List ClientEffect) × (receive_chunks responses
          (start_rpcs requests args 2 0 new_client).0
          answers
        ≡ some (c, es))
    × (run_callbacks number es (counted 0) ≡ some (counted 2))
    × ((i : ℕ) → waits i c ≡ 0)
start_rpcs-completes_example =
    start_rpcs-completes requests responses args number 2 order sent answers (omega arith)
      order-IsOrder sent-written answers-run
