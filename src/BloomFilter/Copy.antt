-- ===== src/BloomFilter/Copy.antt =====
-- Copies of a filter, and what `hash` sees of a key: src/util/bloomfilter.cc.
use rawdishfs.Base.{
  All, All-append, All-drop, All-take, Bytes, IsByte, [], ap, arith, drop, false, length,
  length-append, length-drop, length-take, refl, some, suc, take, take-take_append, true, u32, zero,
  ℕ, ◌++◌, ◌+◌, ◌∷◌, ◌≡◌, ◌≤◌,
}
use native.Mathlib.Nat.{zero-add}
use rawdishfs.BloomFilter.{
  BloomFilter, copy, assign, may_contain, may_contain_from, mix_byte, mix_string, fnv_hash, probe,
}
use rawdishfs.BloomFilter.Membership.{IsValid}
use rawdishfs.BloomFilter.Codec.Wire.{span, memcpy_lem, may_contain-eq_of_take}

-- What `src` leaves in the fresh allocation.
abbrev pub over : Bytes → Bytes → ℕ → Bytes
over fresh src n = take n src ++ drop n fresh

copy-over :
    (fresh : Bytes) (f : BloomFilter)
    → span f.size ≤ length fresh
    → span f.size ≤ length f.hash
    → copy fresh f ≡ some (record f { hash = over fresh f.hash (span f.size) })
unfolding copy
copy-over fresh f h k = rw (memcpy_lem fresh 0 f.hash (span f.size) (omega arith) k, zero-add) refl

-- A copy of a usable filter, in any fresh memory of the `_size` bytes that the constructor asks
-- for, is usable and reports the same keys; its buffer is `_size` bytes long.
pub copy-IsValid :
    (fresh : Bytes) (f : BloomFilter)
    → IsValid f
    → length fresh ≡ f.size
    → All IsByte fresh
    → (g : BloomFilter) × (copy fresh f ≡ some g)
      × IsValid g
      × (length g.hash ≡ g.size)
      × ((key : Bytes) → may_contain g key ≡ may_contain f key)
copy-IsValid fresh f v len bytes = (
  g,
  copy-over fresh f room v.room,
  valid,
  same_length,
  λ key.
      may_contain-eq_of_take g f key valid v refl refl
        (take-take_append n f.hash (drop n fresh) v.room),
)
  where
    n : ℕ
    n = span f.size

    room : n ≤ length fresh
    room = omega (arith, len, v.positive)

    g : BloomFilter
    g = record f { hash = over fresh f.hash n }

    same_length : length g.hash ≡ g.size
    same_length = omega (
      arith,
      length-append (take n f.hash) (drop n fresh),
      length-take n f.hash,
      length-drop n fresh,
      len,
      v.room,
      v.positive,
    )

    valid : IsValid g
    valid = record {
      seeded = v.seeded;
      positive = v.positive;
      bounded = v.bounded;
      room = omega (arith, same_length, v.positive);
      bytes =
          All-append IsByte (take n f.hash) (drop n fresh) (All-take IsByte n f.hash v.bytes)
            (All-drop IsByte n fresh bytes);
    }

-- Assignment to another object is a copy.
pub assign-copy : (fresh : Bytes) (f : BloomFilter) → assign false fresh f ≡ copy fresh f
unfolding assign copy
assign-copy fresh f = refl

take-append-drop : (n : ℕ) (xs : Bytes) → take n xs ++ drop n xs ≡ xs
take-append-drop zero xs = refl
take-append-drop (suc n) [] = refl
take-append-drop (suc n) (x ∷ xs) = ap (◌∷◌ x) (take-append-drop n xs)

-- A usable filter that is assigned to itself keeps its seed and size and loses its keys: the
-- buffer is the fresh allocation as it was handed out.
pub assign_self :
    (fresh : Bytes) (f : BloomFilter)
    → IsValid f
    → length fresh ≡ f.size
    → assign true fresh f ≡ some (record f { hash = fresh })
unfolding assign
assign_self fresh f v len =
    rw
      (
        memcpy_lem fresh 0 fresh (span f.size) (omega (arith, v.positive))
            (omega (arith, v.positive)),
        zero-add,
        take-append-drop,
      )
      refl

mix_string-zero : (h : ℕ) (key rest : Bytes) → mix_string h (key ++ 0 ∷ rest) ≡ mix_string h key
unfolding mix_string
mix_string-zero h [] rest = refl
mix_string-zero h (zero ∷ key) rest = refl
mix_string-zero h (suc c ∷ key) rest = mix_string-zero (mix_byte h (suc c)) key rest

pub fnv_hash-zero :
    (key rest : Bytes) (seed : ℕ) → fnv_hash (key ++ 0 ∷ rest) seed ≡ fnv_hash key seed
unfolding fnv_hash
fnv_hash-zero key rest seed = mix_string-zero _ key rest

may_contain_from-zero :
    (left i : ℕ) (f : BloomFilter) (key rest : Bytes)
    → may_contain_from left i f (key ++ 0 ∷ rest) ≡ may_contain_from left i f key
unfolding may_contain_from probe
may_contain_from-zero zero i f key rest = refl
may_contain_from-zero (suc left) i f key rest =
    rw (fnv_hash-zero key rest (u32 (f.seed + i)), may_contain_from-zero left (i + 1) f key rest)
      refl

-- A key is read up to its first null byte: keys that agree up to there are never told apart.
pub may_contain-zero :
    (f : BloomFilter) (key rest : Bytes) → may_contain f (key ++ 0 ∷ rest) ≡ may_contain f key
unfolding may_contain
may_contain-zero f key rest = may_contain_from-zero 6 0 f key rest
