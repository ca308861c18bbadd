-- ===== src/LruCache/Runs.antt =====
-- Sequences of calls of a cache of src/util/lrucache.h, and its destructor.
use rawdishfs.Base.{
  Bytes, List, Option, Option-cases, [], arith, inl, inr, none, refl, some, ℕ, ◌-◌, ◌>>=◌, ◌∷◌, ◌≡◌,
  ◌≤◌,
}
use rawdishfs.StdHeap.{StdHeap, count}
use rawdishfs.LruCache.{LruCache, update, free, free_all, destroy, get, put, invalidate}
use rawdishfs.LruCache.Heap.{Cells, one_if}
use rawdishfs.LruCache.Invariant.{IsPool}

pub data Call : Type 0 where
  call_get : Bytes → Call
  call_put : Bytes → Bytes → Call
  call_invalidate : Bytes → Call

-- One call, the result of `get` dropped.
unfoldable pub step : StdHeap → Call → LruCache → Option LruCache
step std (call_get key) c = get std key c >>= λ r. some r.0
step std (call_put key content) c = put std key content c
step std (call_invalidate key) c = invalidate std key c

unfoldable pub run : StdHeap → List Call → LruCache → Option LruCache
unfolding step
run std [] c = some c
run std (call ∷ calls) c = step std call c >>= λ c'. run std calls c'

free_all_lem :
    (ps : List ℕ) (cells : Cells)
    → ((p : ℕ) → 1 ≤ count p ps → one_if (cells p) ≡ 1)
    → ((p : ℕ) → count p ps ≤ 1)
    → (cells' : Cells) × (free_all ps cells ≡ some cells')
      × ((p : ℕ) → one_if (cells' p) ≡ one_if (cells p) - count p ps)
unfolding free_all free count
free_all_lem [] cells live once = (cells, refl, λ p. omega arith)
free_all_lem (p ∷ ps) cells live once =
    let (cells', runs, left) =
      free_all_lem ps cells (λ q h. live q (ground arith)) (λ q. ground (arith, once q)) in
    elim (Option-cases (cells' p)) [
      | inl gone ↦ absurd (grind (arith, gone, left p, live p, once p))
      | inr (e, there) ↦
          (update p none cells', simp (runs, there), λ q. grind (arith, left q, live q, once q))
    ]

-- The destructor of a cache whose vector and map agree with its entries does not fault, so that it
-- frees no entry twice, and leaves no entry.
pub destroy_lem :
    (c : LruCache)
    → IsPool c
    → (cells : Cells) × (destroy c ≡ some cells) × ((p : ℕ) → cells p ≡ none)
unfolding destroy
destroy_lem c pool =
    let (cells, runs, left) =
      free_all_lem c.heap c.cells (λ p h. ground (arith, pool.holds p))
        (λ p. ground (arith, pool.holds p)) in
    (cells, runs, λ p. ground (arith, left p, pool.holds p))
