-- ===== src/LruCache/Eviction.antt =====
-- How an entry leaves the cache of src/util/lrucache.h: the tail of `put`, and of `invalidate`.
use rawdishfs.LruCache.{held, BlockCacheData, LruCache, update, compare_atime, free, evict}
use rawdishfs.Base.{
  Bool-cases, Bytes, List, Option-cases, arith, false, if◌then◌else◌, inl, inr, none, refl, some, ℕ,
  ◌==◌, ◌≡◌, ◌≤◌,
}
use rawdishfs.Base.Keys.{bytes_key, nat_key, bytes_eqb, bytes_eqb_refl}
use rawdishfs.Base.OrdMap.{lookup, erase, lookup-erase}
use rawdishfs.StdHeap.{StdHeap, count}
use rawdishfs.LruCache.Heap.{Pops}
use rawdishfs.LruCache.Invariant.{IsPool, removed}
use rawdishfs.LruCache.Access.{IsOrdered}

abbrev pub without : LruCache → List ℕ → ℕ → BlockCacheData → LruCache
without c qs p e = record c { heap = qs; map = erase e.key c.map; cells = update p none c.cells }

pub held-without :
    {A : Type 0} (part : BlockCacheData → A) (c : LruCache) (qs : List ℕ) (p : ℕ)
    (e : BlockCacheData) (k : Bytes)
    → IsPool c
    → c.cells p ≡ some e
    → held part k (without c qs p e) ≡ (if bytes_eqb e.key k then none else held part k c)
unfolding held
held-without part c qs p e k pool there = elim (Bool-cases (bytes_eqb e.key k)) [
  | inl eq ↦ simp (lookup-erase e.key k c.map, eq)
  | inr away ↦ elim (Option-cases (lookup k c.map)) [
    | inl absent ↦ simp (lookup-erase e.key k c.map, away, absent)
    | inr (q, found) ↦
        let (g, here, its_key) = pool.in_map k q found in
        let other : (p == q) ≡ false = ground (arith, bytes_eqb_refl k) in
        simp (lookup-erase e.key k c.map, away, found, other)
  ]
]

-- The entry that `pop` takes is one of the cache's.
pub popped_entry :
    (std : StdHeap) (c : LruCache) (qs : List ℕ) (p : ℕ)
    → IsPool c
    → Pops std c qs p
    → (e : BlockCacheData) × (c.cells p ≡ some e)
popped_entry std c qs p pool pops = elim (Option-cases (c.cells p)) [
  | inl gone ↦ absurd (grind (arith, pool.holds p, pops.counts p, gone))
  | inr there ↦ there
]

pub evict_lem :
    (std : StdHeap) (c : LruCache) (qs : List ℕ) (p : ℕ) (e : BlockCacheData)
    → Pops std c qs p
    → c.cells p ≡ some e
    → evict std c ≡ some (without c qs p e)
unfolding evict free
evict_lem std c qs p e pops there = simp (evict, pops.runs, there)

pub without-IsPool :
    (std : StdHeap) (c : LruCache) (qs : List ℕ) (p : ℕ) (e : BlockCacheData)
    → IsPool c
    → Pops std c qs p
    → c.cells p ≡ some e
    → IsPool (without c qs p e)
without-IsPool std c qs p e pool pops there = removed c qs p e pool there pops.counts

-- A heap stays one without the entry that is freed.
pub without-IsOrdered :
    (std : StdHeap) (c : LruCache) (qs : List ℕ) (p : ℕ) (e : BlockCacheData)
    → IsPool c
    → Pops std c qs p
    → std.IsHeap (compare_atime c.cells) qs
    → IsOrdered std (without c qs p e)
without-IsOrdered std c qs p e pool pops heap =
    std.IsHeap_same_order (compare_atime c.cells) (compare_atime (update p none c.cells)) qs
      (λ a b in_a in_b.
        let not_a = not_popped a in_a in let not_b = not_popped b in_b in rw (not_a, not_b) refl)
      heap
  where
    not_popped : (a : ℕ) → 1 ≤ count a qs → (p == a) ≡ false
    not_popped a in_a = elim (Option-cases (c.cells a)) [
      | inl gone ↦ grind (arith, pool.holds a, pops.counts a, gone)
      | inr (g, there) ↦ grind (arith, pool.holds a, pops.counts a, there)
    ]
