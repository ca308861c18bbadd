-- ===== src/Benchmark.antt =====
-- The benchmark of src/rpc/rpc_benchmark.cc: a server with one function, and clients each of which
-- calls it many times. An `int` stands as its 32 bits. The future of the call of a round is named by
-- the round, and the callback that is bound to it checks its value.
pub mod Answers
pub mod Completion
mod Tests
use rawdishfs.Base.{
  ◌>>=◌, Bytes, List, Option, [], if◌then◌else◌, none, some, suc, u32, zero, ℕ, ◌*◌, ◌++◌, ◌+◌,
  ◌==◌, ◌∷◌,
}
use rawdishfs.Base.Keys.{bytes_key}
use rawdishfs.Base.OrdMap.{OrdMap}
use rawdishfs.Msgpack.{Framing, Codec}
use rawdishfs.Rpc.{
  Request, RpcClient, ClientEffect, write, resume, hang_up, notify, call, deserialize_future,
  RpcFunc, register_function,
}

-- `addArgs2`
unfoldable pub add_args2 : ℕ × ℕ → ℕ
add_args2 (a, b) = u32 (a + b)

abbrev pub func_name : Bytes
func_name = b'a' ∷ b'd' ∷ b'd' ∷ b'A' ∷ b'r' ∷ b'g' ∷ b's' ∷ b'2' ∷ []

-- The signals that the notification has got, and the global counter.
pub record Progress : Type 0 where
  pub signals : ℕ
  pub global_cnt : ℕ

-- `checkValue`; `none` is the abort of `CHECK_EQ`.
unfoldable pub check_value : ℕ → ℕ → Progress → Option Progress
check_value expected actual p =
    if expected == actual
    then some (record p { signals = p.signals + 1; global_cnt = u32 (p.global_cnt + 1) })
    else none

-- The arguments of the call of a round, and the value that is bound to its callback.
abbrev pub args_of : ℕ → ℕ × ℕ
args_of i = (u32 i, u32 (i + 1))

abbrev pub expected_of : ℕ → ℕ
expected_of i = u32 (2 * i + 1)

module _ (requests : Framing Request) (args : Codec (ℕ × ℕ)) where
  -- The loop of `StartRPCs`, for a number of rounds from one on. The number `numCalls` and the round
  -- are of type `int`, so there are fewer than 2^31 rounds, and `2 * i + 1` is taken to wrap at 32 bits.
  unfoldable pub start_rpcs : ℕ → ℕ → RpcClient → RpcClient × List ClientEffect
  unfolding call
  start_rpcs zero i c = (c, [])
  start_rpcs (suc rounds) i c =
      let r = call requests args c i func_name (args_of i) in
      let rest = start_rpcs rounds (i + 1) r.0 in (rest.0, r.1 ++ rest.1)

-- The callbacks of the futures that are resumed.
unfoldable pub run_callbacks : Codec ℕ → List ClientEffect → Progress → Option Progress
unfolding deserialize_future check_value
run_callbacks number [] p = some p
run_callbacks number (resume i buf ∷ es) p = do
  actual ← deserialize_future number 0 buf
  p' ← check_value (expected_of i) actual p
  run_callbacks number es p'
run_callbacks number (write bytes ∷ es) p = run_callbacks number es p
run_callbacks number (hang_up ∷ es) p = run_callbacks number es p
run_callbacks number (notify callback ∷ es) p = run_callbacks number es p

-- `registerFunction` in the test.
unfoldable pub benchmark_funcs : Codec (ℕ × ℕ) → Codec ℕ → OrdMap Bytes RpcFunc
unfolding register_function add_args2
benchmark_funcs args number = register_function args number [] func_name add_args2
