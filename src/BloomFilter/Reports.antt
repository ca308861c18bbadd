-- ===== src/BloomFilter/Reports.antt =====
-- What a filter of src/util/bloomfilter.cc reports after a history of `set` calls.
use rawdishfs.Base.{
  some_inj, Bool, Bytes, List, Option, [], ap, arith, false, refl, replicate, some, sym, true, ℕ,
  ◌++◌, ◌+◌, ◌/◌, ◌<◌, ◌>>=◌, ◌^◌, ◌||◌, ◌∙◌, ◌∷◌, ◌≡◌, ◌≤◌,
}
use rawdishfs.BloomFilter.{BloomFilter, reset, set, may_contain}
use rawdishfs.BloomFilter.Bits.{bit_at, bit_at-zeros}
use rawdishfs.BloomFilter.Membership.{
  IsValid, IsMarked, IsMarked-IsValid, set-IsMarked, may_contain-all_in, reset-IsValid, positions,
  elem, all_in,
}

-- `set` of each key of a list, in order.
pub set_all : BloomFilter → List Bytes → Option BloomFilter
set_all f [] = some f
set_all f (key ∷ keys) = do f' ← set f key; set_all f' keys

abbrev pub positions_of_all : ℕ → ℕ → List Bytes → List ℕ
positions_of_all seed size [] = []
positions_of_all seed size (key ∷ keys) = positions seed size key ++ positions_of_all seed size keys

elem-append : (q : ℕ) (xs ys : List ℕ) → elem q (xs ++ ys) ≡ (elem q xs || elem q ys)
elem-append q [] ys = refl
elem-append q (x ∷ xs) ys = ground (arith, elem-append q xs ys)

all_in_ext : (f g : ℕ → Bool) (ps : List ℕ) → ((q : ℕ) → f q ≡ g q) → all_in f ps ≡ all_in g ps
all_in_ext f g [] h = refl
all_in_ext f g (p ∷ ps) h = rw (h p, all_in_ext f g ps h) refl

-- Positions that are all among `ps`, or already set, stay set.
all_in_mono :
    (f g : ℕ → Bool) (ps : List ℕ)
    → ((q : ℕ) → f q ≡ true → g q ≡ true)
    → all_in f ps ≡ true
    → all_in g ps ≡ true
all_in_mono f g [] h e = refl
all_in_mono f g (p ∷ ps) h e = ground (arith, h p, all_in_mono f g ps h)

elem-all_in :
    (ps qs : List ℕ)
    → ((q : ℕ) → elem q ps ≡ true → elem q qs ≡ true)
    → all_in (λ q. elem q qs) ps ≡ true
elem-all_in [] qs h = refl
elem-all_in (p ∷ ps) qs h = ground (arith, h p, elem-all_in ps qs (λ q e. h q (ground arith)))

or-false : (b : Bool) → (b || false) ≡ b
or-false true = refl
or-false false = refl

elem-positions_of_all :
    (seed size : ℕ) (before : List Bytes) (key : Bytes) (after : List Bytes) (q : ℕ)
    → elem q (positions seed size key) ≡ true
    → elem q (positions_of_all seed size (before ++ key ∷ after)) ≡ true
elem-positions_of_all seed size [] key after q h =
    ground (arith, elem-append q (positions seed size key) (positions_of_all seed size after))
elem-positions_of_all seed size (k ∷ before) key after q h = ground (
  arith,
  elem-append q (positions seed size k) (positions_of_all seed size (before ++ key ∷ after)),
  elem-positions_of_all seed size before key after q h,
)

set_all-IsMarked :
    (f : BloomFilter) (keys : List Bytes)
    → IsValid f
    → (f' : BloomFilter) × (set_all f keys ≡ some f')
      × IsMarked f (positions_of_all f.seed f.size keys) f'
unfolding set_all
set_all-IsMarked f [] v = (
  f,
  refl,
  record { seed = refl; size = refl; capacity = refl; bytes = v.bytes; bits = λ q. refl },
)
set_all-IsMarked f (key ∷ keys) v =
    let (g, runs, m) = set-IsMarked f key v in
    let (f', runs', m') = set_all-IsMarked g keys (IsMarked-IsValid v m) in
    (f', rw runs runs', IsMarked_trans (rw (m.seed, m.size) at m') m)
  where
    IsMarked_trans :
        {f g h : BloomFilter} {ps qs : List ℕ}
        → IsMarked g qs h
        → IsMarked f ps g
        → IsMarked f (ps ++ qs) h
    IsMarked_trans {f} {g} {h} {ps} {qs} n m = record {
      seed = n.seed ∙ m.seed;
      size = n.size ∙ m.size;
      capacity = n.capacity ∙ m.capacity;
      bytes = n.bytes;
      bits = λ q. ground (arith, n.bits q, m.bits q, elem-append q ps qs);
    }

-- `mayContain` after the keys of a list have been set.
may_contain-set_all :
    (f f' : BloomFilter) (keys : List Bytes) (q : Bytes)
    → IsValid f
    → set_all f keys ≡ some f'
    → may_contain f' q
      ≡ some (
          all_in
            (λ p. elem p (positions_of_all f.seed f.size keys) || bit_at f.hash p)
            (positions f.seed f.size q))
may_contain-set_all f f' keys q v runs =
    let (g, runs', m) = set_all-IsMarked f keys v in
    let same : g ≡ f' = some_inj (sym runs' ∙ runs) in
    rw (← same) (
      may_contain-all_in g q (IsMarked-IsValid v m)
      ∙ rw (m.seed, m.size)
          (ap some (all_in_ext (bit_at g.hash) _ (positions f.seed f.size q) m.bits)))

-- On a usable filter, `set` of any keys in any order stays inside the buffer, and afterwards
-- `mayContain` is true of each of those keys: there is no false negative.
pub may_contain-set_all_mem :
    (f : BloomFilter) (before : List Bytes) (key : Bytes) (after : List Bytes)
    → IsValid f
    → (f' : BloomFilter) × (set_all f (before ++ key ∷ after) ≡ some f')
      × (may_contain f' key ≡ some true)
may_contain-set_all_mem f before key after v =
    let (f', runs, m) = set_all-IsMarked f (before ++ key ∷ after) v in
    (
      f',
      runs,
      may_contain-set_all f f' (before ++ key ∷ after) key v runs
          ∙ ap some (
              all_in_mono (λ p. elem p (positions f.seed f.size key))
                (λ p.
                  elem p (positions_of_all f.seed f.size (before ++ key ∷ after))
                  || bit_at f.hash p)
                (positions f.seed f.size key)
                (λ q e. ground (arith, elem-positions_of_all f.seed f.size before key after q e))
                (elem-all_in (positions f.seed f.size key) (positions f.seed f.size key)
                  (λ q e. e))),
    )

-- A key that a usable filter reports is still reported after `set` of another key.
pub may_contain-set_mono :
    (f : BloomFilter) (key q : Bytes)
    → IsValid f
    → may_contain f q ≡ some true
    → (f' : BloomFilter) × (set f key ≡ some f') × (may_contain f' q ≡ some true)
may_contain-set_mono f key q v found =
    let (f', runs, m) = set-IsMarked f key v in
    let was : all_in (bit_at f.hash) (positions f.seed f.size q) ≡ true =
      some_inj (sym (may_contain-all_in f q v) ∙ found) in
    (
      f',
      runs,
      may_contain-all_in f' q (IsMarked-IsValid v m)
          ∙ rw (m.seed, m.size)
              (ap some (
                all_in_mono (bit_at f.hash) (bit_at f'.hash) (positions f.seed f.size q)
                  (λ p e. ground (arith, m.bits p)) was)),
    )

-- After `reset` to a size that is not zero and at most 2^31 - 8, and any `set` calls, `mayContain`
-- is true of exactly those keys whose six positions are each a position of a key that was set.
pub may_contain-reset :
    (size seed : ℕ) (keys : List Bytes) (q : Bytes)
    → 0 < size
    → size + 8 ≤ 2 ^ 31
    → seed < 2 ^ 32
    → (f' : BloomFilter) × (set_all (reset size seed) keys ≡ some f')
      × (may_contain f' q
          ≡ some (all_in (λ p. elem p (positions_of_all seed size keys)) (positions seed size q)))
unfolding reset
may_contain-reset size seed keys q pos bound seeded =
    let v = reset-IsValid size seed pos (omega arith) seeded in
    let (f', runs, m) = set_all-IsMarked (reset size seed) keys v in
    (
      f',
      runs,
      may_contain-set_all (reset size seed) f' keys q v runs
          ∙ ap some (
              all_in_ext
                (λ p.
                  elem p (positions_of_all seed size keys)
                  || bit_at (replicate ((size + 7) / 8) 0) p)
                (λ p. elem p (positions_of_all seed size keys)) (positions seed size q)
                (λ p.
                  rw (bit_at-zeros ((size + 7) / 8) p)
                    (or-false (elem p (positions_of_all seed size keys))))),
    )

-- `set` on a usable filter: the filter stays usable, reports the key and all that it reported.
pub set_lem :
    (f : BloomFilter) (key : Bytes)
    → IsValid f
    → (f' : BloomFilter) × (set f key ≡ some f')
      × IsValid f'
      × (may_contain f' key ≡ some true)
      × ((q : Bytes) → may_contain f q ≡ some true → may_contain f' q ≡ some true)
unfolding set_all
set_lem f key v =
    let (f', runs, m) = set-IsMarked f key v in
    let (g, runs', found) = may_contain-set_all_mem f [] key [] v in
    let same : g ≡ f' = some_inj (sym runs' ∙ rw runs refl) in
    (
      f',
      runs,
      IsMarked-IsValid v m,
      rw same at found,
      λ q was.
          let (h, runs'', kept) = may_contain-set_mono f key q v was in
          rw (some_inj (sym runs'' ∙ runs)) at kept,
    )
