-- ===== src/BloomFilter/Tests.antt =====
-- The filter of src/util/bloomfilter.cc on small inputs.
use rawdishfs.Base.{
  Bytes, [], arith, false, length, none, refl, replicate, some, true, ◌>>=◌, ◌∷◌, ◌≡◌,
}
use rawdishfs.BloomFilter.{BloomFilter, fnv_hash, reset, set, may_contain, serialize, deserialize}
use rawdishfs.BloomFilter.Bits.{bit_at}
use rawdishfs.BloomFilter.Membership.{IsValid, positions, elem, all_in, may_contain-all_in}
use rawdishfs.BloomFilter.Reports.{
  set_all, positions_of_all, may_contain-set_all_mem, may_contain-reset,
}
use rawdishfs.BloomFilter.Codec.{deserialize-serialize, deserialize-serialize_outside}

-- FNV-1a of the four null bytes of the seed 0.
fnv_hash-empty : fnv_hash [] 0 ≡ 0x4d25767f9dce13f5
unfolding fnv_hash
fnv_hash-empty = refl

abbrev key_a : Bytes
key_a = b'a' ∷ []

abbrev key_b : Bytes
key_b = b'b' ∷ []

-- A filter of 64 bits, that of 16 bits and the filter that holds "a".
abbrev small : BloomFilter
small = record { seed = 7; size = 64; hash = replicate 8 0 }

abbrev tiny : BloomFilter
tiny = record { seed = 7; size = 16; hash = replicate 2 0 }

small-reset : reset 64 7 ≡ small
unfolding reset
small-reset = refl

small-IsValid : IsValid small
small-IsValid = record {
  seeded = omega arith;
  positive = omega arith;
  bounded = omega arith;
  room = omega arith;
  bytes = omega arith;
}

a_then_b :
    ((set small key_a >>= λ f. may_contain f key_a) ≡ some true)
    × ((set small key_a >>= λ f. may_contain f key_b) ≡ some false)
unfolding set may_contain fnv_hash
a_then_b = (refl, refl)

size_zero_faults : set (record small { size = 0 }) key_a ≡ none
unfolding set
size_zero_faults = refl

sent_and_read :
    (set small key_a >>= λ f. serialize f >>= λ s. deserialize small s >>= λ g. may_contain g key_a)
    ≡ some true
unfolding set may_contain fnv_hash serialize deserialize
sent_and_read = refl

may_contain-all_in_example :
    may_contain small key_a ≡ some (all_in (bit_at (replicate 8 0)) (positions 7 64 key_a))
may_contain-all_in_example = may_contain-all_in small key_a small-IsValid

may_contain-set_all_mem_example :
    (f' : BloomFilter) × (set_all small (key_b ∷ key_a ∷ []) ≡ some f')
    × (may_contain f' key_a ≡ some true)
may_contain-set_all_mem_example = may_contain-set_all_mem small (key_b ∷ []) key_a [] small-IsValid

abbrev ones : BloomFilter
ones = record small { hash = replicate 8 255 }

ones-IsValid : IsValid ones
ones-IsValid = record {
  seeded = omega arith;
  positive = omega arith;
  bounded = omega arith;
  room = omega arith;
  bytes = omega arith;
}

may_contain-reset_example :
    (f' : BloomFilter) × (set_all (reset 64 7) (key_a ∷ []) ≡ some f')
    × (may_contain f' key_b
        ≡ some (all_in (λ p. elem p (positions_of_all 7 64 (key_a ∷ []))) (positions 7 64 key_b)))
may_contain-reset_example =
    may_contain-reset 64 7 (key_a ∷ []) key_b (omega arith) (omega arith) (omega arith)

deserialize-serialize_example :
    (sent : Bytes) × (serialize small ≡ some sent)
    × ((g' : BloomFilter) × (deserialize ones sent ≡ some g')
        × IsValid g'
        × (length g'.hash ≡ length ones.hash)
        × ((key : Bytes) → may_contain g' key ≡ may_contain small key))
deserialize-serialize_example =
    deserialize-serialize small ones small-IsValid ones-IsValid (omega arith) (omega arith)

deserialize-serialize_outside_example :
    (sent : Bytes) × (serialize small ≡ some sent) × (deserialize tiny sent ≡ none)
deserialize-serialize_outside_example =
    deserialize-serialize_outside small tiny small-IsValid (omega arith) (omega arith)
