-- ===== src/LruCache/Insertion.antt =====
-- `put` for a key that is not in the cache of src/util/lrucache.h.
use rawdishfs.Base.{
  Bool-cases, Bytes, Option-cases, [], arith, false, if◌then◌else◌, inl, inr, length, length-append,
  none, refl, some, u64, ℕ, ◌++◌, ◌+◌, ◌<◌, ◌==◌, ◌^◌, ◌∙◌, ◌∷◌, ◌≡◌, ◌≤◌,
}
use rawdishfs.Base.Keys.{bytes_key, nat_key, eqb_refl, bytes_eqb}
use rawdishfs.Base.OrdMap.{lookup, insert, lookup-insert}
use rawdishfs.StdHeap.{StdHeap, count}
use rawdishfs.LruCache.{held, BlockCacheData, LruCache, update, compare_atime, add}
use rawdishfs.LruCache.Heap.{Holds, count-append, reorder_lem, compare_atime-IsOrder}
use rawdishfs.LruCache.Invariant.{IsPool, added}
use rawdishfs.LruCache.Access.{IsOrdered}

abbrev pub fresh_entry : Bytes → Bytes → ℕ → BlockCacheData
fresh_entry key content t = record { key = key; content = content; atime = t }

abbrev pub grown : StdHeap → Bytes → Bytes → LruCache → LruCache
grown std key content c =
    let cells = update c.next (some (fresh_entry key content c.time_cnt)) c.cells in
    record c {
      heap = std.push_heap (compare_atime cells) (c.heap ++ c.next ∷ []);
      map = insert key c.next c.map;
      cells = cells;
      next = c.next + 1;
      time_cnt = c.time_cnt + 1;
    }

-- The new entry changes nothing of how the others compare.
grown-IsHeap :
    (std : StdHeap) (key content : Bytes) (c : LruCache)
    → IsPool c
    → IsOrdered std c
    → std.IsHeap (compare_atime (grown std key content c).cells) c.heap
grown-IsHeap std key content c pool ordered =
    std.IsHeap_same_order (compare_atime c.cells) (compare_atime (grown std key content c).cells)
      c.heap (λ a b in_a in_b. rw (not_next a in_a, not_next b in_b) refl) ordered
  where
    not_next : (a : ℕ) → 1 ≤ count a c.heap → (c.next == a) ≡ false
    not_next a in_a = grind (arith, pool.holds a, pool.fresh a)

pub grown_counts :
    (std : StdHeap) (key content : Bytes) (c : LruCache)
    → IsPool c
    → IsOrdered std c
    → (q : ℕ)
    → count q (grown std key content c).heap ≡ count q c.heap + (if q == c.next then 1 else 0)
unfolding count
grown_counts std key content c pool ordered q =
    let cells = (grown std key content c).cells in
    let kept =
      std.count-push_heap (compare_atime cells) c.heap c.next q (compare_atime-IsOrder cells)
        (grown-IsHeap std key content c pool ordered) in
    grind (arith, kept, count-append q c.heap (c.next ∷ []))

pub grown-IsPool :
    (std : StdHeap) (key content : Bytes) (c : LruCache)
    → IsPool c
    → IsOrdered std c
    → lookup key c.map ≡ none
    → c.time_cnt + 1 < 2 ^ 64
    → IsPool (grown std key content c)
grown-IsPool std key content c pool ordered absent small =
    let e = fresh_entry key content c.time_cnt in
    let g = grown std key content c in
    added c g.heap e (c.time_cnt + 1) pool absent (grown_counts std key content c pool ordered)
      pool.counter.0 (omega arith) (omega arith) small

pub length-grown :
    (std : StdHeap) (key content : Bytes) (c : LruCache)
    → IsPool c
    → IsOrdered std c
    → length (grown std key content c).heap ≡ length c.heap + 1
length-grown std key content c pool ordered =
    let cells = (grown std key content c).cells in
    std.length-push_heap (compare_atime cells) c.heap c.next (compare_atime-IsOrder cells)
      (grown-IsHeap std key content c pool ordered)
    ∙ length-append c.heap (c.next ∷ [])

pub add_lem :
    (std : StdHeap) (key content : Bytes) (c : LruCache)
    → IsPool c
    → c.time_cnt + 1 < 2 ^ 64
    → add std key content c ≡ some (grown std key content c)
unfolding add count
add_lem std key content c pool small =
    let cells = update c.next (some (fresh_entry key content c.time_cnt)) c.cells in
    let no_wrap : u64 (c.time_cnt + 1) ≡ c.time_cnt + 1 = omega arith in
    let holds : Holds cells (c.heap ++ c.next ∷ []) =
      λ q. grind (arith, count-append q c.heap (c.next ∷ []), pool.holds q, pool.fresh q) in
    simp (
      add,
      no_wrap,
      reorder_lem std.push_heap
          (record c {
            heap = c.heap ++ c.next ∷ [];
            cells = cells;
            next = c.next + 1;
            time_cnt = c.time_cnt + 1;
          })
          holds,
    )

pub grown-IsOrdered :
    (std : StdHeap) (key content : Bytes) (c : LruCache)
    → IsPool c
    → IsOrdered std c
    → IsOrdered std (grown std key content c)
grown-IsOrdered std key content c pool ordered =
    let cells = (grown std key content c).cells in
    std.push_heap-IsHeap (compare_atime cells) c.heap c.next (compare_atime-IsOrder cells)
      (grown-IsHeap std key content c pool ordered)

pub held-grown :
    {A : Type 0} (part : BlockCacheData → A) (std : StdHeap) (key content : Bytes) (c : LruCache)
    (k : Bytes)
    → IsPool c
    → held part k (grown std key content c) ≡ (
        if bytes_eqb key k then some (part (fresh_entry key content c.time_cnt)) else held part k c)
unfolding held
held-grown part std key content c k pool = elim (Bool-cases (bytes_eqb key k)) [
  | inl eq ↦ simp (lookup-insert key k c.next c.map, eq, eqb_refl c.next)
  | inr away ↦ elim (Option-cases (lookup k c.map)) [
    | inl absent ↦ simp (lookup-insert key k c.next c.map, away, absent)
    | inr (q, found) ↦
        let (g, here, its_key) = pool.in_map k q found in
        let other : (c.next == q) ≡ false = ground (arith, pool.fresh q) in
        simp (lookup-insert key k c.next c.map, away, found, other)
  ]
]
