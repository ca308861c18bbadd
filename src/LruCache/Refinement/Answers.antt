-- ===== src/LruCache/Refinement/Answers.antt =====
-- Sequences of calls of the cache of src/util/lrucache.h against the list of Recency.
use rawdishfs.LruCache.Invariant.{IsCache, new_cache-IsCache}
use rawdishfs.LruCache.Recency.{
  FindsOrder, keeps_order, has_order, recent_answers, Recent, recent_step,
}
use rawdishfs.LruCache.{get, put, invalidate, new_cache, LruCache, compare_atime, held}
use rawdishfs.Base.{
  Bool, Bytes, List, Option, Option-cases, [], ap, arith, inl, inr, length, refl, some, some_inj,
  true, ℕ, ◌++◌, ◌+◌, ◌<◌, ◌>>=◌, ◌^◌, ◌∙◌, ◌∷◌, ◌≡◌, ◌≤◌,
}
use rawdishfs.Base.Keys.{bytes_key}
use rawdishfs.Base.OrdMap.{lookup}
use rawdishfs.StdHeap.{StdHeap}
use rawdishfs.LruCache.Runs.{step, run, Call, call_get, call_put, call_invalidate}
use rawdishfs.LruCache.Refinement.{Refines, Simulates, answer, Refines-get, Refines-invalidate}
use rawdishfs.LruCache.Refinement.Puts.{Refines-put}

-- What the `get`s of a sequence of calls return.
unfoldable pub answers : StdHeap → List Call → LruCache → Option (List (Option Bytes))
unfolding answer
answers std [] c = some []
answers std (call ∷ calls) c = do
  r ← answer std call c
  rest ← answers std calls r.0
  some (r.1 ++ rest)

Refines-step :
    (std : StdHeap) (o : Bool) (call : Call) (c : LruCache) (l : Recent)
    → Refines std o c l
    → 1 ≤ c.size
    → c.time_cnt + 1 < 2 ^ 64
    → has_order call l o ≡ true
    → Simulates std call c (keeps_order call l o) (recent_step c.size call l)
unfolding recent_step
Refines-step std o (call_get key) c l r one small ready = Refines-get std o key c l c.size r small
Refines-step std o (call_put key content) c l r one small ready =
    Refines-put std o key content c l r one small ready
Refines-step std o (call_invalidate key) c l r one small ready = Refines-invalidate std o key c l r

answers-from :
    (std : StdHeap) (o : Bool) (calls : List Call) (c : LruCache) (l : Recent)
    → Refines std o c l
    → 1 ≤ c.size
    → c.time_cnt + length calls < 2 ^ 64
    → FindsOrder c.size calls l o
    → answers std calls c ≡ some (recent_answers c.size calls l)
unfolding answers recent_answers FindsOrder
answers-from std o [] c l r one small ready = refl
answers-from std o (call ∷ calls) c l r one small ready =
    let (c', runs, refines, (size, time)) =
      Refines-step std o call c l r one (omega arith) ready.0 in
    let rest =
      answers-from std (keeps_order call l o) calls c' (recent_step c.size call l).0 refines
        (omega (arith, size)) (omega arith) (rw size ready.1) in
    simp (runs, rest, size)

step-answer :
    (std : StdHeap) (call : Call) (c c' : LruCache) (out : List (Option Bytes))
    → answer std call c ≡ some (c', out)
    → step std call c ≡ some c'
unfolding answer step
step-answer std (call_get key) c c' out e = elim (Option-cases (get std key c)) [
  | inl fault ↦ absurd (ground (arith, rw fault at e))
  | inr (r, runs) ↦ rw runs (ap some (ap (λ a. a.0) (some_inj (rw runs at e))))
]
step-answer std (call_put key content) c c' out e = elim (Option-cases (put std key content c)) [
  | inl fault ↦ absurd (ground (arith, rw fault at e))
  | inr (r, runs) ↦ rw runs (ap some (ap (λ a. a.0) (some_inj (rw runs at e))))
]
step-answer std (call_invalidate key) c c' out e = elim (Option-cases (invalidate std key c)) [
  | inl fault ↦ absurd (ground (arith, rw fault at e))
  | inr (r, runs) ↦ rw runs (ap some (ap (λ a. a.0) (some_inj (rw runs at e))))
]

run-from :
    (std : StdHeap) (o : Bool) (calls : List Call) (c : LruCache) (l : Recent)
    → Refines std o c l
    → 1 ≤ c.size
    → c.time_cnt + length calls < 2 ^ 64
    → FindsOrder c.size calls l o
    → (c' : LruCache) × (run std calls c ≡ some c') × IsCache c' × (c'.size ≡ c.size)
unfolding run FindsOrder
run-from std o [] c l r one small ready = (c, refl, r.well, refl)
run-from std o (call ∷ calls) c l r one small ready =
    let (c', answers, refines, (size, time)) =
      Refines-step std o call c l r one (omega arith) ready.0 in
    let (d, runs, well, same) =
      run-from std (keeps_order call l o) calls c' (recent_step c.size call l).0 refines
        (omega (arith, size)) (omega arith) (rw size ready.1) in
    let first = step-answer std call c c' (recent_step c.size call l).1 answers in
    (d, rw first runs, well, same ∙ size)

new_cache-Refines : (std : StdHeap) (n : ℕ) → Refines std true (new_cache n) []
unfolding new_cache held lookup
new_cache-Refines std n = record {
  well = new_cache-IsCache n;
  ordered = λ t. std.IsHeap_empty (compare_atime (new_cache n).cells);
  same = λ k. refl;
  recency = tt;
  size = refl;
}

-- A new cache of a capacity of at least 1, over any heap functions, answers the `get`s of a
-- sequence of fewer than 2^64 - 1 calls as a list of at most that many entries does that keeps the
-- last used one in front and drops the last; no call faults. The condition is that after a `put`
-- under a key that the cache holds then, a `get` or an `invalidate` of a key that it holds comes
-- before the next `put` under a new key.
pub answers-recent_answers :
    (std : StdHeap) (calls : List Call) (n : ℕ)
    → 1 ≤ n
    → 1 + length calls < 2 ^ 64
    → FindsOrder n calls [] true
    → answers std calls (new_cache n) ≡ some (recent_answers n calls [])
unfolding new_cache
answers-recent_answers std calls n one small ready =
    answers-from std true calls (new_cache n) [] (new_cache-Refines std n) one small ready

-- Any sequence of fewer than 2^64 - 1 calls of `get`, `put` and `invalidate` on a new cache of a
-- capacity of at least 1 runs without a fault, leaves a well-formed cache, and leaves no more entries
-- than the capacity. The condition is that after a `put` under a key that the cache holds then, a
-- `get` or an `invalidate` of a key that it holds comes before the next `put` under a new key.
pub run_bounds :
    (std : StdHeap) (calls : List Call) (n : ℕ)
    → 1 ≤ n
    → 1 + length calls < 2 ^ 64
    → FindsOrder n calls [] true
    → (c : LruCache) × (run std calls (new_cache n) ≡ some c) × IsCache c × (length c.heap ≤ n)
unfolding new_cache
run_bounds std calls n one small ready =
    let (c, runs, well, size) =
      run-from std true calls (new_cache n) [] (new_cache-Refines std n) one small ready in
    (c, runs, well, omega (arith, well.1, size))
