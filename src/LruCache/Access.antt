-- ===== src/LruCache/Access.antt =====
-- `get`, and `put` for a key that is in the cache, of src/util/lrucache.h.
use rawdishfs.LruCache.{
  content_of, atime_part, held, replace, put, BlockCacheData, LruCache, update, compare_atime,
  touch, get, find,
}
use rawdishfs.LruCache.Invariant.{Follows, reordered, IsCache, IsPool, written}
use rawdishfs.LruCache.Heap.{compare_atime-IsOrder, reorder_lem}
use rawdishfs.Base.Keys.{eqb_refl, bytes_key, nat_key, bytes_eqb, bytes_eqb_refl, bytes_eqb→eq}
use mathlib.Core.Path.{fun_ext}
use rawdishfs.Base.{
  Bool-cases, Bytes, Option-cases, ap, arith, false, if◌then◌else◌, inl, inr, refl, some, true, u64,
  ℕ, ◌+◌, ◌<◌, ◌==◌, ◌>>=◌, ◌^◌, ◌∙◌, ◌≡◌,
}
use rawdishfs.Base.OrdMap.{lookup}
use rawdishfs.StdHeap.{StdHeap}

-- The vector is a heap by access time.
abbrev pub IsOrdered : StdHeap → LruCache → Type 0
IsOrdered std c = std.IsHeap (compare_atime c.cells) c.heap

-- Two caches hold the same bytes for the same keys.
abbrev pub SameContents : LruCache → LruCache → Type 0
SameContents c d = (k : Bytes) → find k d ≡ find k c

abbrev pub with_time : BlockCacheData → ℕ → BlockCacheData
with_time e t = record e { atime = t }

abbrev pub touched : LruCache → ℕ → BlockCacheData → LruCache
touched c p e = record c {
  cells = update p (some (with_time e c.time_cnt)) c.cells;
  time_cnt = c.time_cnt + 1;
}

touch_lem :
    (c : LruCache) (p : ℕ) (e : BlockCacheData)
    → c.cells p ≡ some e
    → c.time_cnt + 1 < 2 ^ 64
    → touch p c ≡ some (touched c p e)
unfolding touch
touch_lem c p e there small =
    let no_wrap : u64 (c.time_cnt + 1) ≡ c.time_cnt + 1 = omega arith in
    rw (there, ◌>>=◌, no_wrap) refl

pub touched-IsPool :
    (c : LruCache) (p : ℕ) (e : BlockCacheData)
    → IsPool c
    → c.cells p ≡ some e
    → c.time_cnt + 1 < 2 ^ 64
    → IsPool (touched c p e)
touched-IsPool c p e pool there small =
    written c p e (with_time e c.time_cnt) (c.time_cnt + 1) pool there refl pool.counter.0
      (omega arith) (omega arith) small

-- A write to an entry changes what is found for its key only.
pub held-written :
    {A : Type 0} (part : BlockCacheData → A) (c : LruCache) (p : ℕ) (e f : BlockCacheData) (t : ℕ)
    (k : Bytes)
    → IsPool c
    → c.cells p ≡ some e
    → held part k (record c { cells = update p (some f) c.cells; time_cnt = t })
      ≡ (if bytes_eqb e.key k then some (part f) else held part k c)
unfolding held
held-written part c p e f t k pool there = elim (Option-cases (lookup k c.map)) [
  | inl absent ↦ elim (Bool-cases (bytes_eqb e.key k)) [
    | inl eq ↦ absurd (grind (arith, bytes_eqb→eq e.key k eq, pool.has_key p e there, absent))
    | inr away ↦ simp (absent, away)
  ]
  | inr (q, found) ↦
      let (g, here, its_key) = pool.in_map k q found in
      elim (Bool-cases (p == q)) [
        | inl eq ↦ simp (found, eq, own_key q g here its_key eq)
        | inr other ↦ simp (found, other, other_key q found other)
      ]
]
  where
    own_key :
        (q : ℕ) (g : BlockCacheData)
        → c.cells q ≡ some g
        → g.key ≡ k
        → (p == q) ≡ true
        → bytes_eqb e.key k ≡ true
    own_key q g here its_key eq = grind (arith, bytes_eqb_refl k, there)

    other_key : (q : ℕ) → lookup k c.map ≡ some q → (p == q) ≡ false → bytes_eqb e.key k ≡ false
    other_key q found other = elim (Bool-cases (bytes_eqb e.key k)) [
      | inl eq ↦ absurd (grind (arith, bytes_eqb→eq e.key k eq, pool.has_key p e there, found))
      | inr away ↦ away
    ]

pub get-some :
    (std : StdHeap) (key : Bytes) (c : LruCache) (p : ℕ) (e : BlockCacheData)
    → IsPool c
    → lookup key c.map ≡ some p
    → c.cells p ≡ some e
    → c.time_cnt + 1 < 2 ^ 64
    → get std key c
      ≡ some (
        record (touched c p e) {
          heap = std.make_heap (compare_atime (touched c p e).cells) c.heap;
        },
        some e.content,
      )
unfolding get
get-some std key c p e pool found there small = simp (
  found,
  get,
  touch_lem c p e there small,
  reorder_lem std.make_heap (touched c p e) (touched-IsPool c p e pool there small).holds,
  eqb_refl p,
)

pub get_lem :
    (std : StdHeap) (key : Bytes) (c : LruCache)
    → IsCache c
    → c.time_cnt + 1 < 2 ^ 64
    → (c' : LruCache) × (get std key c ≡ some (c', find key c))
      × IsCache c'
      × Follows c c'
      × SameContents c c'
      × (IsOrdered std c → IsOrdered std c')
unfolding get held
get_lem std key c (pool, bound) small = elim (Option-cases (lookup key c.map)) [
  | inl absent ↦
      (c, simp (absent, get), (pool, bound), (refl, omega arith), λ k. refl, λ ordered. ordered)
  | inr (p, found) ↦
      let (e, there, its_key) = pool.in_map key p found in
      let c' = touched c p e in
      let less = compare_atime c'.cells in
      let holds : find key c ≡ some e.content = simp (found, held, there) in
      (
        record c' { heap = std.make_heap less c.heap },
        simp (get-some std key c p e pool found there small, holds),
        (
          reordered c' (std.make_heap less c.heap) (touched-IsPool c p e pool there small)
              (std.count-make_heap less c.heap),
          omega (arith, std.length-make_heap less c.heap),
        ),
        (refl, omega arith),
        λ k. grind (
          arith,
          held-written content_of c p e (with_time e c.time_cnt) (c.time_cnt + 1) k pool there,
          holds,
          bytes_eqb→eq e.key k,
        ),
        λ ordered. std.make_heap-IsHeap less c.heap (compare_atime-IsOrder c'.cells),
      )
]

abbrev with_content : BlockCacheData → ℕ → Bytes → BlockCacheData
with_content e t content = record e { atime = t; content = content }

put-replace :
    (std : StdHeap) (key content : Bytes) (c : LruCache) (p : ℕ) (e : BlockCacheData)
    → lookup key c.map ≡ some p
    → c.cells p ≡ some e
    → c.time_cnt + 1 < 2 ^ 64
    → put std key content c
      ≡ some (record c {
        cells = update p (some (with_content e c.time_cnt content)) c.cells;
        time_cnt = c.time_cnt + 1;
      })
unfolding put replace
put-replace std key content c p e found there small =
    simp (found, put, replace, touch_lem c p e there small, eqb_refl p)
      (ap (λ cells. some (record c { cells = cells; time_cnt = c.time_cnt + 1 }))
        (fun_ext λ q. ground arith))

-- `put` for a key that is in the cache never faults: it changes what is held for that key, and
-- keeps the cache well-formed. It does not restore the order of the vector.
pub put_again :
    (std : StdHeap) (key content : Bytes) (c : LruCache) (p : ℕ)
    → IsCache c
    → lookup key c.map ≡ some p
    → c.time_cnt + 1 < 2 ^ 64
    → (c' : LruCache) × (put std key content c ≡ some c')
      × IsCache c'
      × Follows c c'
      × (c'.heap ≡ c.heap)
      × ((k : Bytes) → find k c' ≡ (if bytes_eqb key k then some content else find k c))
      × ((k : Bytes)
          → held atime_part k c'
            ≡ (if bytes_eqb key k then some c.time_cnt else held atime_part k c))
put_again std key content c p (pool, bound) found small =
    let (e, there, its_key) = pool.in_map key p found in
    let f = with_content e c.time_cnt content in
    (
      _,
      put-replace std key content c p e found there small,
      (
        written c p e f (c.time_cnt + 1) pool there refl pool.counter.0 (omega arith) (omega arith)
            small,
        bound,
      ),
      (refl, omega arith),
      refl,
      λ k. held-written content_of c p e f (c.time_cnt + 1) k pool there ∙ rw its_key refl,
      λ k. held-written atime_part c p e f (c.time_cnt + 1) k pool there ∙ rw its_key refl,
    )
