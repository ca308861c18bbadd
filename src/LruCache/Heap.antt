-- ===== src/LruCache/Heap.antt =====
-- What the calls of the heap functions do to `_heap` in src/util/lrucache.h.
use rawdishfs.Base.{
  Bool, List, Option, Option-cases, [], ap, arith, false, if◌then◌else◌, inl, inr, length,
  length-append, none, refl, some, sym, true, ℕ, ◌++◌, ◌+◌, ◌==◌, ◌∷◌, ◌≡◌, ◌≤◌, ◌>>=◌,
}
use rawdishfs.StdHeap.{StdHeap, IsOrder, count}
use rawdishfs.LruCache.{
  BlockCacheData, LruCache, atime_of, compare_atime, all_live, split_back, reorder, pop,
}

abbrev pub Cells : Type 0
Cells = ℕ → Option BlockCacheData

abbrev pub one_if : Option BlockCacheData → ℕ
one_if none = 0
one_if (some e) = 1

-- A vector that holds the address of each entry once, and no other.
abbrev pub Holds : Cells → List ℕ → Type 0
Holds cells ps = (p : ℕ) → count p ps ≡ one_if (cells p)

pub count-append : (p : ℕ) (ps qs : List ℕ) → count p (ps ++ qs) ≡ count p ps + count p qs
unfolding count
count-append p [] qs = omega arith
count-append p (q ∷ ps) qs = ground (arith, count-append p ps qs)

pub count-le_length : (p : ℕ) (ps : List ℕ) → count p ps ≤ length ps
unfolding count
count-le_length p [] = omega arith
count-le_length p (q ∷ ps) = ground (arith, count-le_length p ps)

pub all_live_lem :
    (cells : Cells) (ps : List ℕ)
    → ((p : ℕ) → 1 ≤ count p ps → one_if (cells p) ≡ 1)
    → all_live cells ps ≡ true
unfolding all_live count
all_live_lem cells [] live = refl
all_live_lem cells (p ∷ ps) live = elim (Option-cases (cells p)) [
  | inl gone ↦ absurd (ground (arith, live p (ground arith)))
  | inr (e, there) ↦ rw (there, all_live) (all_live_lem cells ps (λ q h. live q (ground arith)))
]

pub Holds-all_live : (cells : Cells) (ps : List ℕ) → Holds cells ps → all_live cells ps ≡ true
Holds-all_live cells ps h = all_live_lem cells ps (λ p one. elim (Option-cases (cells p)) [
  | inl gone ↦ absurd (ground (arith, h p))
  | inr (e, there) ↦ rw there refl
])

pub reorder_lem :
    (f : (ℕ → ℕ → Bool) → List ℕ → List ℕ) (c : LruCache)
    → Holds c.cells c.heap
    → reorder f c ≡ some (record c { heap = f (compare_atime c.cells) c.heap })
unfolding reorder
reorder_lem f c h = rw (Holds-all_live c.cells c.heap h) refl

pub compare_atime-IsOrder : (cells : Cells) → IsOrder (compare_atime cells)
compare_atime-IsOrder cells = record {
  asym = λ a b h. ground arith;
  not_less_trans = λ a b c h k. ground arith;
}

pub split_back-append : (ps : List ℕ) (p : ℕ) → split_back (ps ++ p ∷ []) ≡ some (ps, p)
unfolding split_back
split_back-append [] p = refl
split_back-append (q ∷ []) p = refl
split_back-append (q ∷ r ∷ ps) p = rw (split_back-append (r ∷ ps) p) refl

pub split_back_total : (ps : List ℕ) → 1 ≤ length ps → (qs : List ℕ) × (p : ℕ) × (ps ≡ qs ++ p ∷ [])
split_back_total [] h = absurd (omega arith)
split_back_total (p ∷ []) h = ([], p, refl)
split_back_total (p ∷ q ∷ ps) h =
    let (qs, r, e) = split_back_total (q ∷ ps) (omega arith) in (p ∷ qs, r, ap (◌∷◌ p) e)

-- What `pop` does to a cache whose vector is not empty.
pub record Pops (std : StdHeap) (c : LruCache) (qs : List ℕ) (p : ℕ) : Type 0 where
  pub runs : pop std c ≡ some (record c { heap = qs }, p)
  pub counts : (q : ℕ) → count q c.heap ≡ count q qs + (if q == p then 1 else 0)
  pub shorter : length c.heap ≡ length qs + 1

pop-Pops :
    (std : StdHeap) (c : LruCache) (qs : List ℕ) (p : ℕ)
    → Holds c.cells c.heap
    → std.IsHeap (compare_atime c.cells) c.heap
    → std.pop_heap (compare_atime c.cells) c.heap ≡ qs ++ p ∷ []
    → Pops std c qs p
unfolding pop count
pop-Pops std c qs p h heap e = record {
  runs = rw (reorder_lem std.pop_heap c h, ◌>>=◌, e, split_back-append qs p) refl;
  counts = λ q. grind (
    arith,
    sym (std.count-pop_heap (compare_atime c.cells) c.heap q (compare_atime-IsOrder c.cells) heap),
    e,
    count-append q qs (p ∷ []),
  );
  shorter = omega (
    arith,
    sym (std.length-pop_heap (compare_atime c.cells) c.heap (compare_atime-IsOrder c.cells) heap),
    ap length e,
    length-append qs (p ∷ []),
  );
}

-- Of a heap, `pop` takes an entry with the least access time, and leaves a heap.
pub pop_least :
    (std : StdHeap) (c : LruCache)
    → Holds c.cells c.heap
    → 1 ≤ length c.heap
    → std.IsHeap (compare_atime c.cells) c.heap
    → (qs : List ℕ) × (p : ℕ) × Pops std c qs p
      × std.IsHeap (compare_atime c.cells) qs
      × ((q : ℕ) → 1 ≤ count q c.heap → atime_of (c.cells p) ≤ atime_of (c.cells q))
pop_least std c h one heap =
    let less = compare_atime c.cells in
    let order = compare_atime-IsOrder c.cells in
    let (p, ps, e) = first c.heap one in
    let heap' : std.IsHeap less (p ∷ ps) = rw e at heap in
    let (qs, popped, rest) = std.pop_heap-IsHeap less ps p order heap' in
    (
      qs,
      p,
      pop-Pops std c qs p h heap (rw e popped),
      rest,
      λ q there. at_most p q (std.IsHeap_front less p q ps order heap' (rw e at there)),
    )
  where
    first : (ps : List ℕ) → 1 ≤ length ps → (q : ℕ) × (qs : List ℕ) × (ps ≡ q ∷ qs)
    first [] h = absurd (omega arith)
    first (q ∷ qs) h = (q, qs, refl)

    at_most :
        (p q : ℕ) → compare_atime c.cells p q ≡ false → atime_of (c.cells p) ≤ atime_of (c.cells q)
    at_most p q h = ground arith
