-- ===== src/LruCache/Refinement.antt =====
-- The cache of src/util/lrucache.h against the list of Recency.
pub mod Evictions
pub mod Puts
pub mod Answers
use mathlib.Core.Path.{subst}
use rawdishfs.Base.{
  All, Bool, Bool-cases, Bytes, List, Option, Option-cases, [], arith, false, if◌then◌else◌, inl,
  inr, length, map, none, refl, some, sym, true, ℕ, ◌+◌, ◌<◌, ◌>>=◌, ◌^◌, ◌∙◌, ◌∷◌, ◌≡◌,
}
use rawdishfs.Base.Keys.{bytes_key, bytes_eqb, bytes_eqb_refl}
use rawdishfs.Base.OrdMap.{lookup, erase, lookup-erase}
use rawdishfs.StdHeap.{StdHeap}
use rawdishfs.LruCache.{
  BlockCacheData, LruCache, compare_atime, get, put, invalidate, held, content_of, atime_part, find,
}
use rawdishfs.LruCache.Heap.{compare_atime-IsOrder}
use rawdishfs.LruCache.Invariant.{IsPool, IsCache, Follows, reordered}
use rawdishfs.LruCache.Access.{
  IsOrdered, with_time, touched, touched-IsPool, held-written, get-some,
}
use rawdishfs.LruCache.Invalidate.{invalidate_found}
use rawdishfs.LruCache.Runs.{Call, call_get, call_put, call_invalidate}
use rawdishfs.LruCache.Recency.{
  keeps_order, Recent, recent_step, Descends, Descends-above, Descends-kept, Descends-erase,
  erase_others, erase_absent, length-erase, All-weaken,
}

abbrev pub time_or : Option ℕ → ℕ
time_or none = 0
time_or (some t) = t

abbrev pub last_use : LruCache → Bytes → ℕ
last_use c k = time_or (held atime_part k c)

-- A cache that holds the entries of a list, in the order of their last use; where `o` is true its
-- vector is a heap.
pub record Refines (std : StdHeap) (o : Bool) (c : LruCache) (l : Recent) : Type 0 where
  pub well : IsCache c
  pub ordered : o ≡ true → IsOrdered std c
  pub same : (k : Bytes) → find k c ≡ lookup k l
  pub recency : Descends (last_use c) l
  pub size : length l ≡ length c.heap

-- One call, and what a `get` returns.
unfoldable pub answer : StdHeap → Call → LruCache → Option (LruCache × List (Option Bytes))
answer std (call_get key) c = get std key c >>= λ r. some (r.0, r.1 ∷ [])
answer std (call_put key content) c = put std key content c >>= λ c'. some (c', [])
answer std (call_invalidate key) c = invalidate std key c >>= λ c'. some (c', [])

pub last_use-lt : (c : LruCache) (k : Bytes) → IsPool c → last_use c k < c.time_cnt
unfolding held
last_use-lt c k pool = elim (Option-cases (lookup k c.map)) [
  | inl absent ↦ rw (absent, held) (omega (arith, pool.counter.0))
  | inr (p, found) ↦
      let (e, there, its_key) = pool.in_map k p found in
      rw (found, held) (rw (there, held) (pool.times p e there).1)
]

pub absent_of : (c : LruCache) (k : Bytes) → IsPool c → find k c ≡ none → lookup k c.map ≡ none
unfolding held
absent_of c k pool gone = elim (Option-cases (lookup k c.map)) [
  | inl absent ↦ absent
  | inr (p, found) ↦
      let (e, there, its_key) = pool.in_map k p found in
      let holds : find k c ≡ some e.content = simp (held, found, there) in
      absurd (some_none (sym holds ∙ gone))
]
  where
    some_none : {a : Bytes} → some a ≡ none → ⊥
    some_none h = cc

pub held_entry :
    (c : LruCache) (p : ℕ) (e : BlockCacheData)
    → IsPool c
    → c.cells p ≡ some e
    → (find e.key c ≡ some e.content) × (last_use c e.key ≡ e.atime)
unfolding held
held_entry c p e pool there =
    (simp (held, pool.has_key p e there, there), simp (held, pool.has_key p e there, there))

-- The times of the entries of a list, where those of other keys than `k` stay.
pub others_stay :
    (c c' : LruCache) (k : Bytes) (l : Recent)
    → IsPool c
    → last_use c' k ≡ c.time_cnt
    → ((j : Bytes) → bytes_eqb k j ≡ false → last_use c j ≡ last_use c' j)
    → All (λ e. (last_use c e.0 ≡ last_use c' e.0) × (last_use c' e.0 < last_use c' k)) (erase k l)
others_stay c c' k l pool now stays =
    All-weaken (λ e. bytes_eqb k e.0 ≡ false)
      (λ e. (last_use c e.0 ≡ last_use c' e.0) × (last_use c' e.0 < last_use c' k)) (erase k l)
      (λ e away. (stays e.0 away, omega (arith, stays e.0 away, now, last_use-lt c e.0 pool)))
      (erase_others k l)

-- What is found in the list when an entry is put in front.
pub lookup-front :
    (k d j : Bytes) (l : Recent)
    → lookup j ((k, d) ∷ erase k l) ≡ (if bytes_eqb k j then some d else lookup j l)
unfolding lookup
lookup-front k d j l = elim (Bool-cases (bytes_eqb k j)) [
  | inl eq ↦ rw eq refl
  | inr other ↦ rw other (lookup-erase k j l ∙ rw other refl)
]

-- What a call does to the cache, where it makes `after` of the list.
abbrev pub Simulates : StdHeap → Call → LruCache → Bool → Recent × List (Option Bytes) → Type 0
Simulates std call c o after =
    (c' : LruCache) × (answer std call c ≡ some (c', after.1))
    × Refines std o c' after.0
    × Follows c c'

Refines-get_found :
    (std : StdHeap) (o : Bool) (c : LruCache) (l : Recent) (p : ℕ) (e : BlockCacheData)
    → Refines std o c l
    → c.time_cnt + 1 < 2 ^ 64
    → lookup e.key c.map ≡ some p
    → c.cells p ≡ some e
    → lookup e.key l ≡ some e.content
    → Simulates std
        (call_get e.key)
        c
        true
        ((e.key, e.content) ∷ erase e.key l, some e.content ∷ [])
unfolding answer held
Refines-get_found std o c l p e r small found there listed =
    let pool = r.well.0 in
    let less = compare_atime (touched c p e).cells in
    let c' = record (touched c p e) { heap = std.make_heap less c.heap } in
    let uses : (j : Bytes)
        → held atime_part j c'
          ≡ (if bytes_eqb e.key j then some c.time_cnt else held atime_part j c) =
      λ j. held-written atime_part c p e (with_time e c.time_cnt) (c.time_cnt + 1) j pool there in
    let now : last_use c' e.key ≡ c.time_cnt = rw (uses e.key, bytes_eqb_refl e.key) refl in
    (
      c',
      simp (get-some std e.key c p e pool found there small),
      record {
        well = (
          reordered (touched c p e) (std.make_heap less c.heap)
              (touched-IsPool c p e pool there small) (std.count-make_heap less c.heap),
          omega (arith, std.length-make_heap less c.heap, r.well.1),
        );
        ordered =
            λ t. std.make_heap-IsHeap less c.heap (compare_atime-IsOrder (touched c p e).cells);
        same = λ k.
            held-written content_of c p e (with_time e c.time_cnt) (c.time_cnt + 1) k pool there
            ∙ rw (r.same k) (sym (lookup-front e.key e.content k l));
        recency =
            Descends-above (last_use c) (last_use c') e.key e.content (erase e.key l)
              (others_stay c c' e.key l pool now (λ j away. rw (uses j, away) refl))
              (Descends-erase (last_use c) e.key l r.recency);
        size = omega (
          arith,
          length-erase (last_use c) e.key e.content l r.recency listed,
          r.size,
          std.length-make_heap less c.heap,
        );
      },
      (refl, omega arith),
    )

pub Refines-get :
    (std : StdHeap) (o : Bool) (key : Bytes) (c : LruCache) (l : Recent) (n : ℕ)
    → Refines std o c l
    → c.time_cnt + 1 < 2 ^ 64
    → Simulates std
        (call_get key)
        c
        (keeps_order (call_get key) l o)
        (recent_step n (call_get key) l)
unfolding answer recent_step keeps_order get held
Refines-get std o key c l n r small = elim (Option-cases (lookup key c.map)) [
  | inl absent ↦
      let gone : lookup key l ≡ none = sym (r.same key) ∙ simp (held, absent) in
      let step : recent_step n (call_get key) l ≡ (l, none ∷ []) = simp (recent_step, gone) in
      let order : keeps_order (call_get key) l o ≡ o = simp (keeps_order, gone) in
      rw (step, order) (c, simp (absent, get), r, (refl, omega arith))
  | inr (p, found) ↦
      let (e, there, its_key) = r.well.0.in_map key p found in
      let holds : find key c ≡ some e.content = simp (held, found, there) in
      let listed : lookup key l ≡ some e.content = sym (r.same key) ∙ holds in
      let step : recent_step n (call_get key) l
          ≡ ((key, e.content) ∷ erase key l, some e.content ∷ []) =
        simp (recent_step, listed) in
      let order : keeps_order (call_get key) l o ≡ true = simp (keeps_order, listed) in
      rw (step, order)
        (subst
          (λ k. Simulates std (call_get k) c true ((k, e.content) ∷ erase k l, some e.content ∷ []))
          its_key
          (Refines-get_found std o c l p e r small (rw (← its_key) at found) there
            (rw (← its_key) at listed)))
]

pub Refines-invalidate :
    (std : StdHeap) (o : Bool) (key : Bytes) (c : LruCache) (l : Recent)
    → Refines std o c l
    → Simulates std
        (call_invalidate key)
        c
        (keeps_order (call_invalidate key) l o)
        (erase key l, [])
unfolding answer keeps_order invalidate held
Refines-invalidate std o key c l r = elim (Option-cases (lookup key c.map)) [
  | inl absent ↦
      let gone : lookup key l ≡ none = sym (r.same key) ∙ simp (held, absent) in
      let order : keeps_order (call_invalidate key) l o ≡ o = simp (keeps_order, gone) in
      rw (erase_absent key l gone, order) (c, simp (absent, invalidate), r, (refl, omega arith))
  | inr (p, found) ↦
      let (e, there, its_key) = r.well.0.in_map key p found in
      let holds : find key c ≡ some e.content = simp (held, found, there) in
      let listed : lookup key l ≡ some e.content = sym (r.same key) ∙ holds in
      let (c', runs, keeps, ordered, shorter, follows, contents, uses) =
        invalidate_found std key c p r.well found in
      let order : keeps_order (call_invalidate key) l o ≡ true = simp (keeps_order, listed) in
      rw order (
        c',
        simp runs,
        record {
          well = keeps;
          ordered = λ t. ordered;
          same = λ k. contents k ∙ rw (r.same k) (sym (lookup-erase key k l));
          recency =
              Descends-kept (last_use c) (last_use c') (erase key l)
                (All-weaken (λ e. bytes_eqb key e.0 ≡ false) (λ e. last_use c e.0 ≡ last_use c' e.0)
                  (erase key l) (λ e away. rw (uses e.0, away) refl) (erase_others key l))
                (Descends-erase (last_use c) key l r.recency);
          size =
              omega (
                arith,
                length-erase (last_use c) key e.content l r.recency listed,
                r.size,
                shorter,
              );
        },
        follows,
      )
]
