-- ===== src/LruCache/Invalidate.antt =====
-- `invalidate` of src/util/lrucache.h.
use mathlib.Core.Path.{fun_ext}
use rawdishfs.Base.{
  ==_iff, Bool-cases, Bytes, List, Option-cases, ap, arith, false, if◌then◌else◌, inl, inr, length,
  none, refl, some, suc, sym, ℕ, ◌==◌, ◌∙◌, ◌≡◌, ◌≤◌,
}
use rawdishfs.Base.Keys.{bytes_key, nat_key, eqb_refl, bytes_eqb, bytes_eqb→eq}
use rawdishfs.Base.OrdMap.{lookup, erase}
use rawdishfs.StdHeap.{StdHeap, count}
use rawdishfs.LruCache.{
  atime_part, content_of, held, BlockCacheData, LruCache, update, atime_of, compare_atime, free,
  invalidate, find,
}
use rawdishfs.LruCache.Heap.{
  Holds, count-le_length, Pops, pop_least, reorder_lem, compare_atime-IsOrder,
}
use rawdishfs.LruCache.Invariant.{IsPool, IsCache, Follows, removed}
use rawdishfs.LruCache.Access.{IsOrdered}
use rawdishfs.LruCache.Eviction.{without, held-without}

abbrev aged : BlockCacheData → BlockCacheData
aged e = record e { atime = 0 }

-- The state before `make_heap`, and behind it.
abbrev marked : LruCache → ℕ → BlockCacheData → LruCache
marked c p e = record c { map = erase e.key c.map; cells = update p (some (aged e)) c.cells }

abbrev rebuilt : StdHeap → LruCache → ℕ → BlockCacheData → LruCache
rebuilt std c p e =
    let c' = marked c p e in record c' { heap = std.make_heap (compare_atime c'.cells) c'.heap }

marked-Holds :
    (c : LruCache) (p : ℕ) (e : BlockCacheData)
    → IsPool c
    → c.cells p ≡ some e
    → Holds (marked c p e).cells c.heap
marked-Holds c p e pool there q = elim (Bool-cases (p == q)) [
  | inl here ↦ grind (arith, pool.holds q, there)
  | inr other ↦ rw other (pool.holds q)
]

rebuilt-Holds :
    (std : StdHeap) (c : LruCache) (p : ℕ) (e : BlockCacheData)
    → IsPool c
    → c.cells p ≡ some e
    → Holds (rebuilt std c p e).cells (rebuilt std c p e).heap
rebuilt-Holds std c p e pool there q =
    std.count-make_heap (compare_atime (marked c p e).cells) c.heap q
    ∙ marked-Holds c p e pool there q

-- The entry whose access time is set to 0 is the one that is taken off.
popped_is_marked :
    (std : StdHeap) (c : LruCache) (p : ℕ) (e : BlockCacheData) (qs : List ℕ) (q : ℕ)
    → IsPool c
    → c.cells p ≡ some e
    → Pops std (rebuilt std c p e) qs q
    → ((r : ℕ)
        → 1 ≤ count r (rebuilt std c p e).heap
        → atime_of ((rebuilt std c p e).cells q) ≤ atime_of ((rebuilt std c p e).cells r))
    → q ≡ p
popped_is_marked std c p e qs q pool there pops least =
    let holds = rebuilt-Holds std c p e pool there in
    let in_heap : 1 ≤ count p (rebuilt std c p e).heap = grind (arith, holds p, eqb_refl p) in
    let zero_time = rw (eqb_refl p) at (least p in_heap) in
    elim (Bool-cases (p == q)) [
      | inl same ↦ sym ((==_iff p q).0 same)
      | inr other ↦ elim (Option-cases (c.cells q)) [
        | inl gone ↦ absurd (grind (arith, holds q, pops.counts q, gone))
        | inr (g, here) ↦
            absurd (too_early ((pool.times q g here).0) (rw (other, here) at zero_time))
      ]
    ]
  where
    too_early : {a : ℕ} → 1 ≤ a → a ≤ 0 → ⊥
    too_early h k = omega arith

invalidate-found :
    (std : StdHeap) (c : LruCache) (p : ℕ) (e : BlockCacheData) (qs : List ℕ)
    → IsPool c
    → lookup e.key c.map ≡ some p
    → c.cells p ≡ some e
    → Pops std (rebuilt std c p e) qs p
    → invalidate std e.key c ≡ some (without c qs p e)
unfolding invalidate free
invalidate-found std c p e qs pool found there pops =
    simp
      (
        invalidate,
        found,
        there,
        reorder_lem std.make_heap (marked c p e) (marked-Holds c p e pool there),
        pops.runs,
        eqb_refl p,
      )
      (ap (λ cells. some (record c { heap = qs; map = erase e.key c.map; cells = cells }))
        (fun_ext λ q. ground arith))

without_marked-IsOrdered :
    (std : StdHeap) (c : LruCache) (p : ℕ) (e : BlockCacheData) (qs : List ℕ)
    → std.IsHeap (compare_atime (rebuilt std c p e).cells) qs
    → ((a : ℕ) → 1 ≤ count a qs → (p == a) ≡ false)
    → IsOrdered std (without c qs p e)
without_marked-IsOrdered std c p e qs heap away =
    std.IsHeap_same_order (compare_atime (rebuilt std c p e).cells)
      (compare_atime (update p none c.cells)) qs
      (λ a b in_a in_b. rw (away a in_a, away b in_b) refl) heap

-- `invalidate` of a key that is in the cache.
pub invalidate_found :
    (std : StdHeap) (key : Bytes) (c : LruCache) (p : ℕ)
    → IsCache c
    → lookup key c.map ≡ some p
    → (c' : LruCache) × (invalidate std key c ≡ some c')
      × IsCache c'
      × IsOrdered std c'
      × (suc (length c'.heap) ≡ length c.heap)
      × Follows c c'
      × ((k : Bytes) → find k c' ≡ (if bytes_eqb key k then none else find k c))
      × ((k : Bytes)
          → held atime_part k c' ≡ (if bytes_eqb key k then none else held atime_part k c))
invalidate_found std key c p (pool, bound) found =
    let (e, there, its_key) = pool.in_map key p found in
    let r = rebuilt std c p e in
    let holds = rebuilt-Holds std c p e pool there in
    let less = compare_atime r.cells in
    let same_length = std.length-make_heap less c.heap in
    let one : 1 ≤ length r.heap =
      grind (arith, same_length, count-le_length p c.heap, pool.holds p, there) in
    let (qs, q, pops, heap, least) =
      pop_least std r holds one
        (std.make_heap-IsHeap less c.heap (compare_atime-IsOrder r.cells)) in
    let same = popped_is_marked std c p e qs q pool there pops least in
    let pops' = rw same at pops in
    (
      without c qs p e,
      ap (λ k. invalidate std k c) (sym its_key)
          ∙ invalidate-found std c p e qs pool (rw (← its_key) at found) there pops',
      (
        removed c qs p e pool there (λ a. sym (std.count-make_heap less c.heap a) ∙ pops'.counts a),
        omega (arith, same_length, pops'.shorter),
      ),
      without_marked-IsOrdered std c p e qs heap
          (λ a in_a. grind (arith, holds p, pops'.counts a, eqb_refl p)),
      omega (arith, same_length, pops'.shorter),
      (refl, omega arith),
      λ k. held-without content_of c qs p e k pool there ∙ rw its_key refl,
      λ k. held-without atime_part c qs p e k pool there ∙ rw its_key refl,
    )

-- `invalidate` of a well-formed cache does not fault: it takes out what the cache holds for the
-- key, changes what is held for no other key, and leaves a well-formed cache of the same capacity.
pub invalidate_total :
    (std : StdHeap) (key : Bytes) (c : LruCache)
    → IsCache c
    → (c' : LruCache) × (invalidate std key c ≡ some c')
      × IsCache c'
      × Follows c c'
      × ((k : Bytes) → find k c' ≡ (if bytes_eqb key k then none else find k c))
unfolding invalidate held
invalidate_total std key c well = elim (Option-cases (lookup key c.map)) [
  | inr (p, found) ↦
      let (c', runs, keeps, ordered, shorter, follows, holds, uses) =
        invalidate_found std key c p well found in
      (c', runs, keeps, follows, holds)
  | inl absent ↦ (c, simp (absent, invalidate), well, (refl, omega arith), λ k. none_there k absent)
]
  where
    none_there :
        (k : Bytes)
        → lookup key c.map ≡ none
        → find k c ≡ (if bytes_eqb key k then none else find k c)
    none_there k absent = elim (Bool-cases (bytes_eqb key k)) [
      | inr other ↦ rw other refl
      | inl same ↦
          let gone : lookup k c.map ≡ none = rw (bytes_eqb→eq key k same) at absent in
          simp (same, gone, held)
    ]
