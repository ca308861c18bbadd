-- ===== src/LruCache/Invariant.antt =====
-- Well-formed caches of src/util/lrucache.h, and what a write to an entry, a change of the order
-- and the removal of an entry keep of them.
use rawdishfs.Base.{
  Bool-cases, Bytes, List, Option, arith, if◌then◌else◌, inl, inr, length, none, refl, some,
  some_inj, ℕ, ◌+◌, ◌<◌, ◌==◌, ◌^◌, ◌∙◌, ◌≡◌, ◌≤◌,
}
use rawdishfs.Base.Keys.{bytes_key, bytes_eqb_refl, bytes_eqb, bytes_eqb→eq}
use rawdishfs.Base.OrdMap.{
  lookup, insert, erase, lookup-erase, lookup-erase_inv, lookup-insert_self, lookup-insert_inv,
  lookup-insert_new,
}
use rawdishfs.StdHeap.{count}
use rawdishfs.LruCache.{BlockCacheData, LruCache, update, new_cache}
use rawdishfs.LruCache.Heap.{Holds}

-- The vector and the map agree with the allocated entries: no pointer dangles, none is lost, and no
-- access time is 0 or that of a later access.
pub record IsPool (c : LruCache) : Type 0 where
  pub holds : Holds c.cells c.heap
  pub fresh : (p : ℕ) → c.next ≤ p → c.cells p ≡ none
  pub in_map :
      (k : Bytes) (p : ℕ)
      → lookup k c.map ≡ some p
      → (e : BlockCacheData) × (c.cells p ≡ some e) × (e.key ≡ k)
  pub has_key : (p : ℕ) (e : BlockCacheData) → c.cells p ≡ some e → lookup e.key c.map ≡ some p
  pub times :
      (p : ℕ) (e : BlockCacheData) → c.cells p ≡ some e → (1 ≤ e.atime) × (e.atime < c.time_cnt)
  pub counter : (1 ≤ c.time_cnt) × (c.time_cnt < 2 ^ 64)

abbrev pub IsCache : LruCache → Type 0
IsCache c = IsPool c × (length c.heap ≤ c.size)

-- A step keeps the capacity, and the counter moves by one at most.
abbrev pub Follows : LruCache → LruCache → Type 0
Follows c d = (d.size ≡ c.size) × (d.time_cnt ≤ c.time_cnt + 1)

pub new_cache-IsCache : (n : ℕ) → IsCache (new_cache n)
unfolding new_cache lookup count
new_cache-IsCache n = (
  record {
    holds = λ p. refl;
    fresh = λ p h. refl;
    in_map = λ k p h. absurd (none_some h);
    has_key = λ p e h. absurd (none_some h);
    times = λ p e h. absurd (none_some h);
    counter = (omega arith, omega arith);
  },
  omega arith,
)
  where
    none_some : {A : Type 0} {a : A} → ◌≡◌ {A = Option A} none (some a) → ⊥
    none_some h = cc

-- The heap functions only change the order.
pub reordered :
    (c : LruCache) (ps : List ℕ)
    → IsPool c
    → ((p : ℕ) → count p ps ≡ count p c.heap)
    → IsPool (record c { heap = ps })
reordered c ps pool same = record {
  holds = λ p. same p ∙ pool.holds p;
  fresh = pool.fresh;
  in_map = pool.in_map;
  has_key = pool.has_key;
  times = pool.times;
  counter = pool.counter;
}

-- An entry is written in place, and the counter moves on.
pub written :
    (c : LruCache) (p : ℕ) (e f : BlockCacheData) (t : ℕ)
    → IsPool c
    → c.cells p ≡ some e
    → f.key ≡ e.key
    → 1 ≤ f.atime
    → f.atime < t
    → c.time_cnt ≤ t
    → t < 2 ^ 64
    → IsPool (record c { cells = update p (some f) c.cells; time_cnt = t })
written c p e f t pool there same positive before later small = record {
  holds = λ q. elim (Bool-cases (p == q)) [
    | inl here ↦ grind (arith, pool.holds q, there)
    | inr other ↦ rw other (pool.holds q)
  ];
  fresh = λ q h. grind (arith, pool.fresh q h, pool.fresh p, there);
  in_map = λ k q h.
      let (g, here, its_key) = pool.in_map k q h in
      elim (Bool-cases (p == q)) [
        | inl eq ↦ rw eq (f, refl, grind (arith))
        | inr other ↦ rw other (g, here, its_key)
      ];
  has_key = λ q g h. elim (Bool-cases (p == q)) [
    | inl eq ↦ grind (arith, pool.has_key p e there, some_inj (rw eq at h))
    | inr other ↦ pool.has_key q g (rw other at h)
  ];
  times = λ q g h. elim (Bool-cases (p == q)) [
    | inl eq ↦ (grind (arith, some_inj (rw eq at h)), grind (arith, some_inj (rw eq at h)))
    | inr other ↦ let (least, most) = pool.times q g (rw other at h) in (least, omega arith)
  ];
  counter = (omega (arith, pool.counter.0), small);
}

-- An entry is taken out of the vector, out of the map and freed.
pub removed :
    (c : LruCache) (qs : List ℕ) (p : ℕ) (e : BlockCacheData)
    → IsPool c
    → c.cells p ≡ some e
    → ((q : ℕ) → count q c.heap ≡ count q qs + (if q == p then 1 else 0))
    → IsPool (record c { heap = qs; map = erase e.key c.map; cells = update p none c.cells })
removed c qs p e pool there counts = record {
  holds = λ q. elim (Bool-cases (p == q)) [
    | inl here ↦ grind (arith, pool.holds q, there, counts q)
    | inr other ↦ rw other (grind (arith, pool.holds q, counts q))
  ];
  fresh = λ q h. grind (arith, pool.fresh q h);
  in_map = λ k q h.
      let (away, found) = lookup-erase_inv e.key k q c.map h in
      let (g, here, its_key) = pool.in_map k q found in
      elim (Bool-cases (p == q)) [
        | inl eq ↦ absurd (grind (arith, there, here, bytes_eqb_refl k))
        | inr other ↦ rw other (g, here, its_key)
      ];
  has_key = λ q g h. elim (Bool-cases (p == q)) [
    | inl eq ↦ absurd (grind (arith, rw eq at h))
    | inr other ↦
        let found = pool.has_key q g (rw other at h) in
        lookup-erase e.key g.key c.map ∙ elim (Bool-cases (bytes_eqb e.key g.key)) [
          | inl eq ↦
              absurd (grind (arith, bytes_eqb→eq e.key g.key eq, pool.has_key p e there, found))
          | inr away ↦ rw away found
        ]
  ];
  times = λ q g h. elim (Bool-cases (p == q)) [
    | inl eq ↦ absurd (grind (arith, rw eq at h))
    | inr other ↦ pool.times q g (rw other at h)
  ];
  counter = pool.counter;
}

-- A new entry is put into the vector and the map.
pub added :
    (c : LruCache) (ps : List ℕ) (e : BlockCacheData) (t : ℕ)
    → IsPool c
    → lookup e.key c.map ≡ none
    → ((q : ℕ) → count q ps ≡ count q c.heap + (if q == c.next then 1 else 0))
    → 1 ≤ e.atime
    → e.atime < t
    → c.time_cnt ≤ t
    → t < 2 ^ 64
    → IsPool (record c {
      heap = ps;
      map = insert e.key c.next c.map;
      cells = update c.next (some e) c.cells;
      next = c.next + 1;
      time_cnt = t;
    })
added c ps e t pool absent counts positive before later small = record {
  holds = λ q. elim (Bool-cases (c.next == q)) [
    | inl here ↦ grind (arith, pool.holds q, pool.fresh q, counts q)
    | inr other ↦ rw other (grind (arith, pool.holds q, counts q))
  ];
  fresh = λ q h. grind (arith, pool.fresh q);
  in_map = λ k q h. elim (lookup-insert_inv e.key k c.next q c.map h) [
    | inl (same_key, same) ↦ (e, grind (arith), same_key)
    | inr (other, found) ↦
        let (g, here, its_key) = pool.in_map k q found in
        (g, grind (arith, pool.fresh q, here), its_key)
  ];
  has_key = λ q g h. elim (Bool-cases (c.next == q)) [
    | inl eq ↦ grind (arith, some_inj (rw eq at h), lookup-insert_self e.key c.next c.map)
    | inr other ↦
        lookup-insert_new e.key g.key c.next q c.map absent (pool.has_key q g (rw other at h))
  ];
  times = λ q g h. elim (Bool-cases (c.next == q)) [
    | inl eq ↦ (grind (arith, some_inj (rw eq at h)), grind (arith, some_inj (rw eq at h)))
    | inr other ↦ let (least, most) = pool.times q g (rw other at h) in (least, omega arith)
  ];
  counter = (omega (arith, pool.counter.0), small);
}
