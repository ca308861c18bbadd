-- ===== src/LruCache/Put.antt =====
-- What `put` of src/util/lrucache.h does for a key that is not in the cache: with room, and without.
use rawdishfs.Base.{
  Bytes, arith, false, length, ltb, none, some, true, ℕ, ◌+◌, ◌<◌, ◌^◌, ◌≡◌, ◌≤◌, ◌⊎◌,
}
use rawdishfs.Base.Keys.{bytes_key}
use rawdishfs.Base.OrdMap.{lookup}
use rawdishfs.StdHeap.{StdHeap}
use rawdishfs.LruCache.{LruCache, put, evict}
use rawdishfs.LruCache.Invariant.{IsPool}
use rawdishfs.LruCache.Access.{IsOrdered}
use rawdishfs.LruCache.Insertion.{grown, length-grown, add_lem}

pub put-room :
    (std : StdHeap) (key content : Bytes) (c : LruCache)
    → IsPool c
    → IsOrdered std c
    → lookup key c.map ≡ none
    → c.time_cnt + 1 < 2 ^ 64
    → length c.heap < c.size
    → put std key content c ≡ some (grown std key content c)
unfolding put
put-room std key content c pool ordered absent small room =
    let fits : ltb c.size (length (grown std key content c).heap) ≡ false =
      ground (arith, length-grown std key content c pool ordered) in
    simp (put, absent, add_lem std key content c pool small, fits)

pub put-full :
    (std : StdHeap) (key content : Bytes) (c : LruCache)
    → IsPool c
    → IsOrdered std c
    → lookup key c.map ≡ none
    → c.time_cnt + 1 < 2 ^ 64
    → length c.heap ≡ c.size
    → put std key content c ≡ evict std (grown std key content c)
unfolding put
put-full std key content c pool ordered absent small full =
    let over : ltb c.size (length (grown std key content c).heap) ≡ true =
      ground (arith, length-grown std key content c pool ordered) in
    simp (put, absent, add_lem std key content c pool small, over)

pub full_of : (n m : ℕ) → n ≤ m → (n < m) ⊎ (n ≡ m)
full_of n m h = grind arith
