-- ===== src/Sockets.antt =====
-- What the nodes of src/rpc/service_node.cc and src/blockstore/blockstore_daemon.cc use to find a
-- port: `rand` of the C library and `TcpListenSocket::create` as an interface, and their loop.
pub mod Counting
use rawdishfs.Base.{Option, ◌≤◌, Option-cases, arith, inl, inr, none, some, suc, zero, ℕ, ◌<◌, ◌≡◌}

pub record Sockets : Type 1 where
  pub World : Type 0
  pub rand : World → World × ℕ
  -- `none` is the null pointer; a socket is named by a number.
  pub listen : World → ℕ → World × Option ℕ

module _ (os : Sockets) (pick : ℕ → ℕ) where
  open os use {World, rand, listen}

  -- The loop `while (s == NULL)`: the world, the port and the socket. `pick` makes a port of a
  -- random number.
  unfoldable pub find_port : ℕ → World → Option (World × ℕ × ℕ)
  find_port zero w = none
  find_port (suc fuel) w =
      let port = pick (rand w).1 in
      let tried = listen (rand w).0 port in
      let rest = find_port fuel tried.0 in
      elim tried.1 [ none ↦ rest | some socket ↦ some (tried.0, port, socket) ]

  -- The world after some rounds of the loop.
  unfoldable pub after : ℕ → World → World
  after zero w = w
  after (suc n) w = after n (listen (rand w).0 (pick (rand w).1)).0

  -- What the round after `n` others gives.
  unfoldable pub tries : ℕ → World → Option ℕ
  tries n w = let v = after n w in (listen (rand v).0 (pick (rand v).1)).1

  -- No round before one finds a free port.
  pub AreRefused : ℕ → World → Type 0
  AreRefused n w = (j : ℕ) → j < n → tries j w ≡ none

  -- What the loop gives that ends in a round: the world after it, and the port and the socket of it,
  -- which is the first that finds a free port.
  pub record Found (n : ℕ) (w : World) (result : Option (World × ℕ × ℕ)) : Type 0 where
    pub round : ℕ
    pub socket : ℕ
    pub in_time : round ≤ n
    pub refused : AreRefused round w
    pub free : tries round w ≡ some socket
    pub gives : result ≡ some (after (suc round) w, pick (rand (after round w)).1, socket)

  -- Where some round finds a free port, the loop ends in the first one that does.
  pub find_port_lem :
      (n fuel : ℕ) (w : World) (socket : ℕ)
      → tries n w ≡ some socket
      → n < fuel
      → Found n w (find_port fuel w)
  unfolding find_port tries after AreRefused
  find_port_lem n zero w socket free enough = absurd (omega arith)
  find_port_lem zero (suc fuel) w socket free enough = record {
    round = 0;
    socket = socket;
    in_time = omega arith;
    refused = λ j below. absurd (omega arith);
    free = free;
    gives = simp (find_port, free);
  }
  find_port_lem (suc n) (suc fuel) w socket free enough =
      let tried = listen (rand w).0 (pick (rand w).1) in
      elim (Option-cases tried.1) [
        | inr (s, e) ↦ record {
          round = 0;
          socket = s;
          in_time = omega arith;
          refused = λ j below. absurd (omega arith);
          free = e;
          gives = simp (find_port, e);
        }
        | inl e ↦
            let found = find_port_lem n fuel tried.0 socket free (omega arith) in
            record {
              round = suc found.round;
              socket = found.socket;
              in_time = omega (arith, found.in_time);
              refused = one_more e found.refused;
              free = found.free;
              gives = simp (find_port, e, found.gives);
            }
      ]
    where
      one_more : {k : ℕ} → tries 0 w ≡ none → AreRefused k (after 1 w) → AreRefused (suc k) w
      one_more e later zero below = e
      one_more e later (suc j) below = later j (omega arith)
