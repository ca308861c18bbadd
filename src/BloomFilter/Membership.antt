-- ===== src/BloomFilter/Membership.antt =====
-- `set` and `mayContain` of src/util/bloomfilter.cc against the set of positions that a filter
-- stands for: which keys a filter reports, with its false positives.
use rawdishfs.Base.{
  ℕ, zero, suc, ◌+◌, ◌/◌, ◌%◌, ◌^◌, ◌≤◌, ◌<◌, Bool, true, false, ◌&&◌, ◌||◌, some, List, [], ◌∷◌,
  ◌≡◌, refl, arith, length, All, ◌==◌, u32, Bytes, IsByte, length-replicate, All-replicate,
  Bool-cases, inl, inr, ◌∙◌, ap,
}
use rawdishfs.BloomFilter.{
  new_filter, BloomFilter, fnv_hash, reset, probe, set_from, set, may_contain_from, may_contain,
}
use rawdishfs.BloomFilter.Bits.{
  bit_at, marked, test_bit-bit_at, set_bit-marked, length-marked, marked-IsByte, bit_at-marked,
}

-- A filter that can be used: its size is a positive `uint32_t`, and the buffer has the room for it.
pub record IsValid (f : BloomFilter) : Type 0 where
  pub seeded : f.seed < 2 ^ 32
  pub positive : 0 < f.size
  pub bounded : f.size < 2 ^ 32
  pub room : (f.size + 7) / 8 ≤ length f.hash
  pub bytes : All IsByte f.hash

-- The position that the round `i` of `set` and `mayContain` looks at.
pub position : ℕ → ℕ → Bytes → ℕ → ℕ
position seed size key i = fnv_hash key (u32 (seed + i)) % size

abbrev pub positions_from : ℕ → ℕ → ℕ → ℕ → Bytes → List ℕ
positions_from zero i seed size key = []
positions_from (suc n) i seed size key =
    position seed size key i ∷ positions_from n (i + 1) seed size key

-- The six positions of a key.
abbrev pub positions : ℕ → ℕ → Bytes → List ℕ
positions seed size key = positions_from 6 0 seed size key

abbrev pub elem : ℕ → List ℕ → Bool
elem q [] = false
elem q (p ∷ ps) = q == p || elem q ps

abbrev pub all_in : (ℕ → Bool) → List ℕ → Bool
all_in test [] = true
all_in test (p ∷ ps) = test p && all_in test ps

probe-position :
    (f : BloomFilter) (key : Bytes) (i : ℕ)
    → 0 < f.size
    → f.size < 2 ^ 32
    → probe f key i ≡ some (position f.seed f.size key i)
unfolding probe position
probe-position f key i pos bound = ground arith

pub position-lt : (seed size : ℕ) (key : Bytes) (i : ℕ) → 0 < size → position seed size key i < size
unfolding position
position-lt seed size key i pos = omega arith

-- `f'` is `f` with the bits at `ps` set, and nothing else changed.
pub record IsMarked (f : BloomFilter) (ps : List ℕ) (f' : BloomFilter) : Type 0 where
  pub seed : f'.seed ≡ f.seed
  pub size : f'.size ≡ f.size
  pub capacity : length f'.hash ≡ length f.hash
  pub bytes : All IsByte f'.hash
  pub bits : (q : ℕ) → bit_at f'.hash q ≡ (elem q ps || bit_at f.hash q)

pub IsMarked-IsValid :
    {f f' : BloomFilter} {ps : List ℕ} → IsValid f → IsMarked f ps f' → IsValid f'
IsMarked-IsValid v m = record {
  seeded = rw m.seed v.seeded;
  positive = rw m.size v.positive;
  bounded = rw m.size v.bounded;
  room = rw (m.size, m.capacity) v.room;
  bytes = m.bytes;
}

abbrev mark : BloomFilter → ℕ → BloomFilter
mark f p = record f { hash = marked f.hash p }

mark-IsValid : (f : BloomFilter) (p : ℕ) → IsValid f → IsValid (mark f p)
mark-IsValid f p v = record {
  seeded = v.seeded;
  positive = v.positive;
  bounded = v.bounded;
  room = rw (length-marked f.hash p) v.room;
  bytes = marked-IsByte f.hash p v.bytes;
}

set_from-mark :
    (left i : ℕ) (f : BloomFilter) (key : Bytes)
    → IsValid f
    → set_from (suc left) i f key
      ≡ set_from left (i + 1) (mark f (position f.seed f.size key i)) key
unfolding set_from
set_from-mark left i f key v =
    let below : position f.seed f.size key i < f.size =
      position-lt f.seed f.size key i v.positive in
    let inside : position f.seed f.size key i / 8 < length f.hash = omega arith in
    rw
      (
        probe-position f key i v.positive v.bounded,
        set_bit-marked f.hash (position f.seed f.size key i) inside,
      )
      refl

or_swap : (a b c : Bool) → (a || (b || c)) ≡ ((b || a) || c)
or_swap true true c = refl
or_swap true false c = refl
or_swap false true c = refl
or_swap false false c = refl

set_from-IsMarked :
    (left i : ℕ) (f : BloomFilter) (key : Bytes)
    → IsValid f
    → (f' : BloomFilter) × (set_from left i f key ≡ some f')
      × IsMarked f (positions_from left i f.seed f.size key) f'
set_from-IsMarked zero i f key v = (
  f,
  unfold set_from in refl,
  record { seed = refl; size = refl; capacity = refl; bytes = v.bytes; bits = λ q. refl },
)
set_from-IsMarked (suc left) i f key v =
    let p : ℕ = position f.seed f.size key i in
    let below : position f.seed f.size key i < f.size =
      position-lt f.seed f.size key i v.positive in
    let (f', runs, m) = set_from-IsMarked left (i + 1) (mark f p) key (mark-IsValid f p v) in
    (
      f',
      set_from-mark left i f key v ∙ runs,
      record {
        seed = m.seed;
        size = m.size;
        capacity = m.capacity ∙ length-marked f.hash p;
        bytes = m.bytes;
        bits = λ q.
            m.bits q
            ∙ ap (λ b. elem q (positions_from left (i + 1) f.seed f.size key) || b)
                (bit_at-marked f.hash p q v.bytes (omega (arith, v.room)))
            ∙ or_swap (elem q (positions_from left (i + 1) f.seed f.size key)) (q == p)
                (bit_at f.hash q);
      },
    )

-- `set` on a usable filter stays inside the buffer, sets the six bits of its key, and keeps the
-- seed, the size, the allocation and every other bit.
pub set-IsMarked :
    (f : BloomFilter) (key : Bytes)
    → IsValid f
    → (f' : BloomFilter) × (set f key ≡ some f') × IsMarked f (positions f.seed f.size key) f'
unfolding set
set-IsMarked f key v = set_from-IsMarked 6 0 f key v

may_contain_from-all_in :
    (left i : ℕ) (f : BloomFilter) (key : Bytes)
    → IsValid f
    → may_contain_from left i f key
      ≡ some (all_in (bit_at f.hash) (positions_from left i f.seed f.size key))
unfolding may_contain_from
may_contain_from-all_in zero i f key v = refl
may_contain_from-all_in (suc left) i f key v =
    let below : position f.seed f.size key i < f.size =
      position-lt f.seed f.size key i v.positive in
    let inside : position f.seed f.size key i / 8 < length f.hash = omega (arith, v.room) in
    rw
      (
        probe-position f key i v.positive v.bounded,
        test_bit-bit_at f.hash (position f.seed f.size key i) inside,
      )
      (elim (Bool-cases (bit_at f.hash (position f.seed f.size key i))) [
        | inl e ↦ rw e (may_contain_from-all_in left (i + 1) f key v)
        | inr e ↦ rw e refl
      ])

-- `mayContain` on a usable filter stays inside the buffer, and says whether the six bits of the
-- key are all set.
pub may_contain-all_in :
    (f : BloomFilter) (key : Bytes)
    → IsValid f
    → may_contain f key ≡ some (all_in (bit_at f.hash) (positions f.seed f.size key))
unfolding may_contain
may_contain-all_in f key v = may_contain_from-all_in 6 0 f key v

-- A filter that `reset` made for a size that is not zero is usable.
pub reset-IsValid :
    (size seed : ℕ) → 0 < size → size < 2 ^ 32 → seed < 2 ^ 32 → IsValid (reset size seed)
unfolding reset
reset-IsValid size seed pos bound seeded = record {
  seeded = seeded;
  positive = pos;
  bounded = bound;
  room = omega (arith, length-replicate ((size + 7) / 8) (zero));
  bytes = All-replicate IsByte ((size + 7) / 8) 0 (omega arith);
}

-- The filter of the constructor is usable.
pub new_filter-IsValid : IsValid new_filter
unfolding new_filter
new_filter-IsValid = reset-IsValid (2 ^ 20) 0 (omega arith) (omega arith) (omega arith)
