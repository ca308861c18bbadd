-- ===== src/LruCache/Oldest.antt =====
-- Which entry a full cache of src/util/lrucache.h gives up.
use rawdishfs.Base.{
  Bool-cases, Bytes, List, Option-cases, [], arith, false, if◌then◌else◌, inl, inr, length, none,
  refl, some, suc, true, ℕ, ◌+◌, ◌<◌, ◌==◌, ◌^◌, ◌∙◌, ◌∷◌, ◌≡◌, ◌≤◌,
}
use rawdishfs.Base.Keys.{bytes_key, bytes_eqb, bytes_eqb→eq}
use rawdishfs.Base.OrdMap.{lookup}
use rawdishfs.StdHeap.{StdHeap, count}
use rawdishfs.LruCache.{content_of, held, BlockCacheData, LruCache, atime_of, put, find}
use rawdishfs.LruCache.Heap.{pop_least}
use rawdishfs.LruCache.Invariant.{IsPool, IsCache}
use rawdishfs.LruCache.Access.{IsOrdered}
use rawdishfs.LruCache.Eviction.{
  without, held-without, popped_entry, evict_lem, without-IsPool, without-IsOrdered,
}
use rawdishfs.LruCache.Insertion.{
  grown_counts, fresh_entry, grown, grown-IsPool, length-grown, grown-IsOrdered, held-grown,
}
use rawdishfs.LruCache.Put.{put-full}

-- What an eviction leaves: the new content, and the old ones without that of the least recently
-- used entry `e`.
pub record Evicts (std : StdHeap) (key content : Bytes) (c c' : LruCache) (e : BlockCacheData)
    : Type 0 where
  pub was_there : find e.key c ≡ some e.content
  pub is_oldest : (q : ℕ) (g : BlockCacheData) → c.cells q ≡ some g → e.atime ≤ g.atime
  pub contents :
      (k : Bytes)
      → find k c'
        ≡ (if bytes_eqb key k then some content else if bytes_eqb e.key k then none else find k c)

some_address : (ps : List ℕ) → 1 ≤ length ps → (p : ℕ) × (1 ≤ count p ps)
unfolding count
some_address [] h = absurd (omega arith)
some_address (p ∷ ps) h = (p, ground arith)

-- The entry just put in is not the oldest of several.
oldest-not_new :
    (std : StdHeap) (key content : Bytes) (c : LruCache) (p : ℕ)
    → IsPool c
    → IsOrdered std c
    → 1 ≤ length c.heap
    → ((q : ℕ)
        → 1 ≤ count q (grown std key content c).heap
        → atime_of ((grown std key content c).cells p)
          ≤ atime_of ((grown std key content c).cells q))
    → (c.next == p) ≡ false
oldest-not_new std key content c p pool ordered one oldest =
    let g = grown std key content c in
    let (q, old) = some_address c.heap one in
    elim (Option-cases (c.cells q)) [
      | inl gone ↦ absurd (grind (arith, pool.holds q, gone))
      | inr (h, there) ↦
          let not_next : (c.next == q) ≡ false = grind (arith, pool.fresh q, there) in
          let in_heap : 1 ≤ count q g.heap =
            omega (arith, old, grown_counts std key content c pool ordered q) in
          let before = (pool.times q h there).1 in
          elim (Bool-cases (c.next == p)) [
            | inr other ↦ other
            | inl new ↦
                absurd (too_old new (rw (new, not_next, there) at (oldest q in_heap)) before)
          ]
    ]
  where
    too_old : {b : ℕ} → (c.next == p) ≡ true → c.time_cnt ≤ b → b < c.time_cnt → ⊥
    too_old new a b = omega arith

-- The entry that an eviction frees: one of the cache before, with the least access time.
pub record Evicted (std : StdHeap) (key content : Bytes) (c : LruCache) (qs : List ℕ) (p : ℕ)
    (e : BlockCacheData) : Type 0 where
  pub runs : put std key content c ≡ some (without (grown std key content c) qs p e)
  pub well : IsCache (without (grown std key content c) qs p e)
  pub ordered : IsOrdered std (without (grown std key content c) qs p e)
  pub full : suc (length qs) ≡ length (grown std key content c).heap
  pub was : c.cells p ≡ some e
  pub there : (grown std key content c).cells p ≡ some e
  pub oldest : (q : ℕ) (g : BlockCacheData) → c.cells q ≡ some g → e.atime ≤ g.atime

pub put-Evicted :
    (std : StdHeap) (key content : Bytes) (c : LruCache)
    → IsCache c
    → IsOrdered std c
    → lookup key c.map ≡ none
    → c.time_cnt + 1 < 2 ^ 64
    → 1 ≤ c.size
    → length c.heap ≡ c.size
    → (qs : List ℕ) × (p : ℕ) × (e : BlockCacheData) × Evicted std key content c qs p e
put-Evicted std key content c (pool, bound) ordered absent small one full =
    let g = grown std key content c in
    let pool' = grown-IsPool std key content c pool ordered absent small in
    let (qs, p, pops, heap, oldest) =
      pop_least std g pool'.holds (omega (arith, length-grown std key content c pool ordered))
        (grown-IsOrdered std key content c pool ordered) in
    let (e, there) = popped_entry std g qs p pool' pops in
    let old = oldest-not_new std key content c p pool ordered (omega arith) oldest in
    let was : c.cells p ≡ some e = rw old at there in
    (
      qs,
      p,
      e,
      record {
        runs =
            put-full std key content c pool ordered absent small full
            ∙ evict_lem std g qs p e pops there;
        well = (
          without-IsPool std g qs p e pool' pops there,
          omega (arith, pops.shorter, length-grown std key content c pool ordered),
        );
        ordered = without-IsOrdered std g qs p e pool' pops heap;
        full = omega (arith, pops.shorter);
        was = was;
        there = there;
        oldest = λ q h here.
            let not_next : (c.next == q) ≡ false = grind (arith, pool.fresh q, here) in
            let in_heap : 1 ≤ count q g.heap =
              grind (arith, pool.holds q, grown_counts std key content c pool ordered q, here) in
            rw (old, was, not_next, here) at (oldest q in_heap);
      },
    )

-- What is held after an eviction.
pub held-Evicted :
    {A : Type 0} (part : BlockCacheData → A) (std : StdHeap) (key content : Bytes) (c : LruCache)
    (qs : List ℕ) (p : ℕ) (e : BlockCacheData) (k : Bytes)
    → IsPool c
    → IsOrdered std c
    → lookup key c.map ≡ none
    → c.time_cnt + 1 < 2 ^ 64
    → Evicted std key content c qs p e
    → held part k (without (grown std key content c) qs p e) ≡ (
        if bytes_eqb key k
        then some (part (fresh_entry key content c.time_cnt))
        else if bytes_eqb e.key k
        then none
        else held part k c)
held-Evicted part std key content c qs p e k pool ordered absent small ev =
    held-without part (grown std key content c) qs p e k
      (grown-IsPool std key content c pool ordered absent small) ev.there
    ∙ elim (Bool-cases (bytes_eqb e.key k)) [
      | inr away ↦ rw away (held-grown part std key content c k pool)
      | inl eq ↦ elim (Bool-cases (bytes_eqb key k)) [
        | inr other ↦ rw (eq, other) refl
        | inl same ↦ absurd (
            grind (
              arith,
              bytes_eqb→eq key k same,
              bytes_eqb→eq e.key k eq,
              absent,
              pool.has_key p e ev.was,
            ))
      ]
    ]

-- A `put` of a new key into a full cache of a capacity of at least 1, whose vector is a heap and
-- whose counter of accesses does not wrap around, does not fault: it takes out one entry, whose
-- access time is least, stores the new content, changes what is held for no other key, and leaves a
-- well-formed cache whose vector is a heap.
pub put-Evicts :
    (std : StdHeap) (key content : Bytes) (c : LruCache)
    → IsCache c
    → IsOrdered std c
    → lookup key c.map ≡ none
    → c.time_cnt + 1 < 2 ^ 64
    → 1 ≤ c.size
    → length c.heap ≡ c.size
    → (c' : LruCache) × (e : BlockCacheData) × (put std key content c ≡ some c')
      × IsCache c'
      × IsOrdered std c'
      × Evicts std key content c c' e
unfolding held
put-Evicts std key content c (pool, bound) ordered absent small one full =
    let (qs, p, e, ev) =
      put-Evicted std key content c (pool, bound) ordered absent small one full in
    (
      without (grown std key content c) qs p e,
      e,
      ev.runs,
      ev.well,
      ev.ordered,
      record {
        was_there = simp (held, pool.has_key p e ev.was, ev.was);
        is_oldest = ev.oldest;
        contents =
            λ k. held-Evicted content_of std key content c qs p e k pool ordered absent small ev;
      },
    )
