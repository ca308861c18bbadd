-- ===== src/Rpc/Interleaving/Streams.antt =====
-- What each connection of src/rpc/rpc.cc gets of buffers that come in any order.
use rawdishfs.Base.{
  Bool-cases, Bytes, List, [], false, if◌then◌else◌, inl, inr, map, refl, some, true, ℕ, ◌++◌, ◌==◌,
  ◌∙◌, ◌∷◌, ◌≡◌,
}
use rawdishfs.Base.Keys.{nat_key, bytes_key, eqb_refl}
use rawdishfs.Base.OrdMap.{OrdMap, lookup, insert, lookup-insert}
use rawdishfs.Msgpack.{Framing, more}
use rawdishfs.Rpc.{Request, Task}
use rawdishfs.Rpc.Stream.{concat, wire}
use rawdishfs.Rpc.Connections.{Connection}

-- What one socket brings, and the tasks of its connection.
unfoldable pub chunks_of : ℕ → List (ℕ × Bytes) → List Bytes
chunks_of s [] = []
chunks_of s ((t, chunk) ∷ events) =
    let rest = chunks_of s events in if t == s then chunk ∷ rest else rest

unfoldable pub tasks_of : {F : Type 0} → ℕ → List (ℕ × Task F) → List (Task F)
tasks_of s [] = []
tasks_of s ((t, task) ∷ tasks) = let rest = tasks_of s tasks in if t == s then task ∷ rest else rest

module _ {F : Type 0} where
  pub tasks_of-append :
      (s : ℕ) (xs ys : List (ℕ × Task F)) → tasks_of s (xs ++ ys) ≡ tasks_of s xs ++ tasks_of s ys
  unfolding tasks_of
  tasks_of-append s [] ys = refl
  tasks_of-append s ((t, task) ∷ xs) ys = elim (Bool-cases (t == s)) [
    | inl eq ↦ rw (eq, tasks_of-append s xs ys) refl
    | inr other ↦ rw (other, tasks_of-append s xs ys) refl
  ]

  pub tasks_of_self :
      (s t : ℕ) (tasks : List (Task F))
      → (t == s) ≡ true
      → tasks_of s (map (λ task. (t, task)) tasks) ≡ tasks
  unfolding tasks_of
  tasks_of_self s t [] eq = refl
  tasks_of_self s t (task ∷ tasks) eq = rw (eq, tasks_of_self s t tasks eq) refl

  pub tasks_of_other :
      (s t : ℕ) (tasks : List (Task F))
      → (t == s) ≡ false
      → tasks_of s (map (λ task. (t, task)) tasks) ≡ []
  unfolding tasks_of
  tasks_of_other s t [] other = refl
  tasks_of_other s t (task ∷ tasks) other = rw (other, tasks_of_other s t tasks other) refl

-- A connection that has received a part of its stream of requests, and what is still to come.
pub record Expects (requests : Framing Request) (c : Connection) (chunks : List Bytes)
    (ms : List Request) : Type 0 where
  pub attached : c.attached ≡ true
  pub partial : requests.decode c.pac ≡ more
  pub remains : c.pac ++ concat chunks ≡ wire requests ms

pub still_there :
    (t s : ℕ) (c d : Connection) (conns : OrdMap ℕ Connection)
    → lookup s conns ≡ some d
    → (e : Connection) × (lookup s (insert t c conns) ≡ some e)
still_there t s c d conns there = elim (Bool-cases (t == s)) [
  | inl eq ↦ (c, lookup-insert t s c conns ∙ rw eq refl)
  | inr other ↦ (d, lookup-insert t s c conns ∙ rw other there)
]

module _ (requests : Framing Request) where
  -- What a connection still expects when the buffer of another, or its own, is gone.
  pub Expects-other :
      (t s : ℕ) (c : Connection) (chunk : Bytes) (events : List (ℕ × Bytes)) (ms : List Request)
      → (t == s) ≡ false
      → Expects requests c (chunks_of s ((t, chunk) ∷ events)) ms
      → Expects requests c (chunks_of s events) ms
  unfolding chunks_of
  Expects-other t s c chunk events ms other e = rw other at e

  pub Expects-self :
      (t : ℕ) (c : Connection) (chunk : Bytes) (events : List (ℕ × Bytes)) (ms : List Request)
      → Expects requests c (chunks_of t ((t, chunk) ∷ events)) ms
      → Expects requests c (chunk ∷ chunks_of t events) ms
  unfolding chunks_of
  Expects-self t c chunk events ms e = rw (eqb_refl t) at e

  abbrev pub later_of : ℕ → List Request → (ℕ → List Request) → ℕ → List Request
  later_of t later ms s = if t == s then later else ms s
