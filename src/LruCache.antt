-- ===== src/LruCache.antt =====
-- `LRUCache` of src/util/lrucache.h over the interface `StdHeap`. The entries stand in a store that
-- their addresses index, since `_heap` and `_map` hold the same pointers; `none` is a fault: a read,
-- a write or a `delete` through a pointer to no entry, or a `pop_back` of an empty vector.
-- The pointer that `get` returns is modelled as the bytes it points to.
pub mod Heap
pub mod Invariant
pub mod Access
pub mod Eviction
pub mod Insertion
pub mod Put
pub mod Oldest
pub mod Invalidate
pub mod Runs
pub mod Recency
pub mod Refinement
pub mod Ranges
mod Tests
use rawdishfs.Base.{
  Bool, Bytes, List, Option, [], false, if◌then◌else◌, length, ltb, none, some, true, u64, ℕ, ◌++◌,
  ◌+◌, ◌==◌, ◌>>=◌, ◌∷◌,
}
use rawdishfs.Base.Keys.{bytes_key}
use rawdishfs.Base.OrdMap.{OrdMap, lookup, insert, erase}
use rawdishfs.StdHeap.{StdHeap}

pub record BlockCacheData : Type 0 where
  pub key : Bytes
  pub content : Bytes
  pub atime : ℕ

pub record LruCache : Type 0 where
  -- `_size`
  pub size : ℕ
  pub heap : List ℕ
  pub map : OrdMap Bytes ℕ
  pub time_cnt : ℕ
  -- the allocated entries, and the address of the next allocation
  pub cells : ℕ → Option BlockCacheData
  pub next : ℕ

-- The constructor: the `int` that it takes is not negative.
pub new_cache : ℕ → LruCache
new_cache size = record {
  size = size;
  heap = [];
  map = [];
  time_cnt = 1;
  cells = λ p. none;
  next = 0;
}

abbrev pub update :
    ℕ → Option BlockCacheData → (ℕ → Option BlockCacheData) → ℕ → Option BlockCacheData
update p e cells q = if p == q then e else cells q

abbrev pub atime_of : Option BlockCacheData → ℕ
atime_of none = 0
atime_of (some e) = e.atime

-- `Compare`
abbrev pub compare_atime : (ℕ → Option BlockCacheData) → ℕ → ℕ → Bool
compare_atime cells a b = ltb (atime_of (cells b)) (atime_of (cells a))

-- Whether each pointer of a vector can be read.
pub all_live : (ℕ → Option BlockCacheData) → List ℕ → Bool
all_live cells [] = true
all_live cells (p ∷ ps) = elim (cells p) [ none ↦ false | some e ↦ all_live cells ps ]

-- `back` and `pop_back`
pub split_back : List ℕ → Option (List ℕ × ℕ)
split_back [] = none
split_back (p ∷ []) = some ([], p)
split_back (p ∷ q ∷ ps) = do r ← split_back (q ∷ ps); some (p ∷ r.0, r.1)

-- `delete`
pub free : ℕ → (ℕ → Option BlockCacheData) → Option (ℕ → Option BlockCacheData)
free p cells = do e ← cells p; some (update p none cells)

-- A call of one of the heap functions on `_heap`, which compares through its pointers.
pub reorder : ((ℕ → ℕ → Bool) → List ℕ → List ℕ) → LruCache → Option LruCache
unfolding all_live
reorder f c =
    if all_live c.cells c.heap
    then some (record c { heap = f (compare_atime c.cells) c.heap })
    else none

-- `p->atime = _timeCnt++`
pub touch : ℕ → LruCache → Option LruCache
touch p c = do
  e ← c.cells p
  some (record c {
    cells = update p (some (record e { atime = c.time_cnt })) c.cells;
    time_cnt = u64 (c.time_cnt + 1);
  })

-- `pop_heap`, `back` and `pop_back`: the pointer that was taken off.
pub pop : StdHeap → LruCache → Option (LruCache × ℕ)
unfolding reorder split_back
pop std c = do
  c' ← reorder std.pop_heap c
  r ← split_back c'.heap
  some (record c' { heap = r.0 }, r.1)

pub invalidate : StdHeap → Bytes → LruCache → Option LruCache
unfolding lookup erase reorder pop free
invalidate std key c = elim (lookup key c.map) [
  | none ↦ some c
  | some p ↦ do
    e ← c.cells p
    c' ← reorder std.make_heap (record c {
      map = erase key c.map;
      cells = update p (some (record e { atime = 0 })) c.cells;
    })
    r ← pop std c'
    cells ← free p r.0.cells
    some (record r.0 { cells = cells })
]

-- `none` is the null pointer.
pub get : StdHeap → Bytes → LruCache → Option (LruCache × Option Bytes)
unfolding lookup touch reorder
get std key c = elim (lookup key c.map) [
  | none ↦ some (c, none)
  | some p ↦ do
    c' ← touch p c
    c'' ← reorder std.make_heap c'
    e ← c''.cells p
    some (c'', some e.content)
]

-- The branch of `put` for a key that is in the cache.
pub replace : ℕ → Bytes → LruCache → Option LruCache
unfolding touch
replace p content c = do
  c' ← touch p c
  e ← c'.cells p
  some (record c' { cells = update p (some (record e { content = content })) c'.cells })

-- The new entry, its push, and the write to `_map`.
pub add : StdHeap → Bytes → Bytes → LruCache → Option LruCache
unfolding reorder insert
add std key content c = do
  c' ← reorder std.push_heap (record c {
    heap = c.heap ++ c.next ∷ [];
    cells =
        update c.next (some (record { key = key; content = content; atime = c.time_cnt })) c.cells;
    next = c.next + 1;
    time_cnt = u64 (c.time_cnt + 1);
  })
  some (record c' { map = insert key c.next c'.map })

-- What follows when there are too many entries.
pub evict : StdHeap → LruCache → Option LruCache
unfolding pop erase free
evict std c = do
  r ← pop std c
  e ← r.0.cells r.1
  cells ← free r.1 r.0.cells
  some (record r.0 { map = erase e.key r.0.map; cells = cells })

pub put : StdHeap → Bytes → Bytes → LruCache → Option LruCache
unfolding lookup replace add evict
put std key content c = elim (lookup key c.map) [
  | some p ↦ replace p content c
  | none ↦ do
    c' ← add std key content c
    if ltb c'.size (length c'.heap) then evict std c' else some c'
]

-- The loop of the destructor, which frees from the back.
pub free_all : List ℕ → (ℕ → Option BlockCacheData) → Option (ℕ → Option BlockCacheData)
unfolding free
free_all [] cells = some cells
free_all (p ∷ ps) cells = free_all ps cells >>= λ cells'. free p cells'

pub destroy : LruCache → Option (ℕ → Option BlockCacheData)
unfolding free_all
destroy c = free_all c.heap c.cells

-- What the cache holds for a key: a part of the entry, and its content.
unfoldable pub held : {A : Type 0} → (BlockCacheData → A) → Bytes → LruCache → Option A
unfolding lookup
held part key c = do p ← lookup key c.map; e ← c.cells p; some (part e)

abbrev pub content_of : BlockCacheData → Bytes
content_of e = e.content

abbrev pub atime_part : BlockCacheData → ℕ
atime_part e = e.atime

abbrev pub find : Bytes → LruCache → Option Bytes
find key c = held content_of key c
