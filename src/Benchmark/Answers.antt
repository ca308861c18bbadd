-- ===== src/Benchmark/Answers.antt =====
-- The calls of src/rpc/rpc_benchmark.cc and their answers, in any order.
use rawdishfs.Base.{
  Bool-cases, Bytes, List, [], ap, arith, if◌then◌else◌, inl, inr, leb, length, ltb, ltb→lt, map,
  none, refl, some, suc, sym, u32, zero, ℕ, ◌&&◌, ◌++◌, ◌+◌, ◌<◌, ◌==◌, ◌^◌, ◌∙◌, ◌∷◌, ◌≡◌, ◌≤◌,
}
use rawdishfs.Base.Sums.{sum_below, sum_below_same, sum_below_change, sum_below_zero}
use rawdishfs.Base.Keys.{bytes_key, nat_key, eqb_refl}
use rawdishfs.Base.OrdMap.{lookup, erase, lookup-insert, lookup-erase}
use rawdishfs.Msgpack.{Framing, Codec}
use rawdishfs.Rpc.{
  Request, Response, RpcClient, ClientEffect, write, resume, call, serialize_args, on_response,
  deserialize_future,
}
use rawdishfs.Rpc.Stream.{wire, handle_all}
use rawdishfs.Benchmark.{
  add_args2, func_name, Progress, check_value, args_of, expected_of, start_rpcs, run_callbacks,
}

-- How often a round stands in an order.
unfoldable pub times_in : ℕ → List ℕ → ℕ
times_in i [] = 0
times_in i (j ∷ order) = (if j == i then 1 else 0) + times_in i order

-- An order of the first rounds: each stands in it once.
abbrev pub IsOrder : ℕ → List ℕ → Type 0
IsOrder n order = (i : ℕ) → times_in i order ≡ (if ltb i n then 1 else 0)

length-times_in :
    (n : ℕ) (order : List ℕ)
    → ((i : ℕ) → n ≤ i → times_in i order ≡ 0)
    → sum_below n (λ i. times_in i order) ≡ length order
unfolding times_in
length-times_in n [] outside = sum_below_zero n (λ i. times_in i []) (λ i h. refl)
length-times_in n (j ∷ order) outside =
    let inside : j < n = inside_of (outside j) in
    let rest = length-times_in n order (λ i h. omega (arith, outside i h)) in
    let self : times_in j (j ∷ order) ≡ 1 + times_in j order = ground arith in
    omega (
      arith,
      rest,
      self,
      sum_below_change n j (λ i. times_in i (j ∷ order)) (λ i. times_in i order) inside
          (λ i away. ground arith),
    )
  where
    inside_of : (n ≤ j → times_in j (j ∷ order) ≡ 0) → j < n
    inside_of h = elim (Bool-cases (ltb j n)) [
      | inl below ↦ ltb→lt j n below
      | inr far ↦ absurd (ground (arith, far, h (ground (arith, far))))
    ]

sum_below_one : (n : ℕ) → sum_below n (λ i. 1) ≡ n
unfolding sum_below
sum_below_one zero = refl
sum_below_one (suc n) = omega (arith, sum_below_one n)

pub length-IsOrder : (n : ℕ) (order : List ℕ) → IsOrder n order → length order ≡ n
length-IsOrder n order is =
    sym (length-times_in n order (λ i far. ground (arith, is i)))
    ∙ sum_below_same n (λ i. times_in i order) (λ i. 1) (λ i below. ground (arith, is i))
    ∙ sum_below_one n

-- The requests of the rounds from one on.
unfoldable pub requests_from : Codec (ℕ × ℕ) → ℕ → ℕ → List Request
requests_from args zero i = []
requests_from args (suc rounds) i =
    (i, func_name, args.pack (args_of i)) ∷ requests_from args rounds (i + 1)

-- The bytes that a client writes.
unfoldable pub written_bytes : List ClientEffect → Bytes
written_bytes [] = []
written_bytes (write bytes ∷ es) = bytes ++ written_bytes es
written_bytes (e ∷ es) = written_bytes es

module _ (requests : Framing Request) (args : Codec (ℕ × ℕ)) where
  pub written_bytes-start_rpcs :
      (rounds i : ℕ) (c : RpcClient)
      → c.req_id ≡ i
      → i + rounds < 2 ^ 64
      → written_bytes (start_rpcs requests args rounds i c).1
        ≡ wire requests (requests_from args rounds i)
  unfolding written_bytes start_rpcs wire requests_from call serialize_args
  written_bytes-start_rpcs zero i c e small = refl
  written_bytes-start_rpcs (suc rounds) i c e small =
      let c' = (call requests args c i func_name (args_of i)).0 in
      let rest = written_bytes-start_rpcs rounds (i + 1) c' (omega (arith, e)) (omega arith) in
      ap
        (λ (x : ℕ).
          requests.pack (x, func_name, args.pack (args_of i))
          ++ written_bytes (start_rpcs requests args rounds (i + 1) c').1)
        e
      ∙ ap (◌++◌ (requests.pack (i, func_name, args.pack (args_of i)))) rest

  pub lookup-start_rpcs :
      (rounds i : ℕ) (c : RpcClient) (k : ℕ)
      → c.req_id ≡ i
      → i + rounds < 2 ^ 64
      → lookup k (start_rpcs requests args rounds i c).0.resp_callbacks
        ≡ (if leb i k && ltb k (i + rounds) then some k else lookup k c.resp_callbacks)
  unfolding start_rpcs call
  lookup-start_rpcs zero i c k e small = ground arith
  lookup-start_rpcs (suc rounds) i c k e small =
      let c' = (call requests args c i func_name (args_of i)).0 in
      ground (
        arith,
        lookup-start_rpcs rounds (i + 1) c' k (omega (arith, e)) (omega arith),
        lookup-insert c.req_id k i c.resp_callbacks,
      )

  pub start_rpcs_pac :
      (rounds i : ℕ) (c : RpcClient) → (start_rpcs requests args rounds i c).0.pac ≡ c.pac
  unfolding start_rpcs call
  start_rpcs_pac zero i c = refl
  start_rpcs_pac (suc rounds) i c =
      start_rpcs_pac rounds (i + 1) (call requests args c i func_name (args_of i)).0

same_progress :
    (p : Progress) {signals cnt : ℕ}
    → p.signals ≡ signals
    → p.global_cnt ≡ cnt
    → p ≡ record { signals = signals; global_cnt = cnt }
same_progress p a b = ground arith

-- The value that comes back is the expected one, with the wrap-around of each.
add_args2-args_of : (i : ℕ) → add_args2 (args_of i) ≡ expected_of i
unfolding add_args2
add_args2-args_of i = omega arith

module _ (responses : Framing Response) (number : Codec ℕ) where
  -- The answer to the call of a round.
  abbrev pub answer_of : ℕ → Response
  answer_of i = (i, number.pack (add_args2 (args_of i)))

  -- The answers in an order: each resumes the future of its round, and no call is left.
  pub handle_all-answers :
      (order : List ℕ) (c : RpcClient)
      → ((i : ℕ) → times_in i order ≤ 1)
      → ((i : ℕ) → lookup i c.resp_callbacks ≡ (if leb 1 (times_in i order) then some i else none))
      → (c' : RpcClient) × (handle_all responses on_response c (map answer_of order)
          ≡ (c', map (λ i. resume i (some (answer_of i).1)) order))
        × ((i : ℕ) → lookup i c'.resp_callbacks ≡ none)
  unfolding handle_all on_response times_in
  handle_all-answers [] c once there = (c, refl, λ i. there i)
  handle_all-answers (j ∷ order) c once there =
      let waits : lookup j c.resp_callbacks ≡ some j = ground (arith, there j) in
      let c'' = record c { resp_callbacks = erase j c.resp_callbacks } in
      let first : on_response c (answer_of j) ≡ (c'', resume j (some (answer_of j).1) ∷ []) =
        simp (on_response, waits) in
      let (c', runs, nothing) =
        handle_all-answers order c'' (λ i. ground (arith, once i))
          (λ i. ground (arith, lookup-erase j i c.resp_callbacks, there i, once i)) in
      (c', rw first (rw runs refl), nothing)

  pub run_callbacks-answers :
      (order : List ℕ) (p : Progress)
      → p.global_cnt < 2 ^ 32
      → run_callbacks number (map (λ i. resume i (some (answer_of i).1)) order) p
        ≡ some (record {
          signals = p.signals + length order;
          global_cnt = u32 (p.global_cnt + length order);
        })
  unfolding run_callbacks deserialize_future check_value
  run_callbacks-answers [] p small = ap some (same_progress p (omega arith) (omega arith))
  run_callbacks-answers (i ∷ order) p small =
      let p' = record p { signals = p.signals + 1; global_cnt = u32 (p.global_cnt + 1) } in
      let checks : check_value (expected_of i) (add_args2 (args_of i)) p ≡ some p' =
        rw (add_args2-args_of i, eqb_refl (expected_of i)) refl in
      rw
        (
          number.unpack-pack (add_args2 (args_of i)),
          checks,
          run_callbacks-answers order p' (omega arith),
        )
        (ap some (same_progress _ (omega arith) (omega arith)))
