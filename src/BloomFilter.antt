-- ===== src/BloomFilter.antt =====
-- `BloomFilter` of src/util/bloomfilter.h and src/util/bloomfilter.cc, with the memory that it
-- owns. The buffer `_hash` is the list of its allocated bytes, so that its length is the size of
-- the allocation: an access outside it, and a division by `_size` zero, are the fault `none`.
-- `p >> 3` and `p & 0x7` are `p / 8` and `p % 8`. Freeing memory is not modelled.
pub mod Bits
pub mod Membership
pub mod Reports
pub mod Codec
pub mod Copy
mod Tests
use rawdishfs.Base.{
  ℕ, zero, suc, ◌+◌, ◌*◌, ◌/◌, ◌%◌, ◌^◌, bit_and, bit_or, bit_xor, Bool, true, false, not, Option,
  none, some, [], ◌∷◌, ◌++◌, length, get_elem?, set as update, take, drop, replicate, ◌==◌, ltb,
  leb, if◌then◌else◌, ◌>>=◌, u8, u32, u64, Bytes,
}

pub record BloomFilter : Type 0 where
  pub seed : ℕ
  pub size : ℕ
  pub hash : Bytes

-- `_seed >>= 8` on the `int` with the bit pattern `s`: an arithmetic shift, which copies the sign.
unfoldable pub shift_seed : ℕ → ℕ
shift_seed s = s / 256 + (if ltb s (2 ^ 31) then 0 else 0xff00_0000)

-- One round of FNV-1a: `hash = hash ^ b; hash *= FNV_prime`, on 64 bits.
unfoldable pub mix_byte : ℕ → ℕ → ℕ
mix_byte h b = u64 (bit_xor h b * 1099511628211)

-- The loop over the bytes of the seed, with the rounds that are left.
unfoldable pub mix_seed : ℕ → ℕ → ℕ → ℕ
mix_seed zero h s = h
mix_seed (suc n) h s = mix_seed n (mix_byte h (s % 256)) (shift_seed s)

-- `while (*str)`: the loop over a string ends at its first null byte. The end of the list is the
-- terminator that `c_str()` adds.
unfoldable pub mix_string : ℕ → Bytes → ℕ
mix_string h [] = h
mix_string h (zero ∷ str) = h
mix_string h (suc c ∷ str) = mix_string (mix_byte h (suc c)) str

-- `hash(str, seed)`; the seed is the bit pattern of the `int`.
unfoldable pub fnv_hash : Bytes → ℕ → ℕ
unfolding mix_byte mix_seed mix_string shift_seed
fnv_hash str seed = mix_string (mix_seed 4 14695981039346656037 seed) str

-- `memset(_hash, 0, …)` after `new uint8_t[(size + 7) / 8]`, for `0 ≤ size ≤ 2 ^ 31 - 8`.
unfoldable pub reset : ℕ → ℕ → BloomFilter
reset size seed = record { seed = seed; size = size; hash = replicate ((size + 7) / 8) 0 }

-- The constructor: `reset()` with its default arguments.
pub new_filter : BloomFilter
unfolding reset
new_filter = reset (2 ^ 20) 0

-- `hash(key.c_str(), _seed + i) % _size`, as a `uint32_t`.
unfoldable pub probe : BloomFilter → Bytes → ℕ → Option ℕ
probe f key i = if f.size == 0 then none else some (u32 (fnv_hash key (u32 (f.seed + i)) % f.size))

-- `_hash[p>>3] |= 1 << (p & 0x7)`
unfoldable pub set_bit : Bytes → ℕ → Option Bytes
set_bit buf p = do
  x ← get_elem? buf (p / 8)
  some (update buf (p / 8) (u8 (bit_or x (2 ^ (p % 8)))))

-- `_hash[p>>3] & 1 << (p & 0x7)`, as a condition
unfoldable pub test_bit : Bytes → ℕ → Option Bool
test_bit buf p = do x ← get_elem? buf (p / 8); some (not (bit_and x (2 ^ (p % 8)) == 0))

unfoldable pub set_from : ℕ → ℕ → BloomFilter → Bytes → Option BloomFilter
set_from zero i f key = some f
set_from (suc left) i f key = do
  p ← probe f key i
  buf ← set_bit f.hash p
  set_from left (i + 1) (record f { hash = buf }) key

-- `set(key)`
unfoldable pub set : BloomFilter → Bytes → Option BloomFilter
unfolding set_from probe set_bit
set f key = set_from 6 0 f key

unfoldable pub may_contain_from : ℕ → ℕ → BloomFilter → Bytes → Option Bool
may_contain_from zero i f key = some true
may_contain_from (suc left) i f key = do
  p ← probe f key i
  bit ← test_bit f.hash p
  let rest = may_contain_from left (i + 1) f key
  if bit then rest else some false

unfoldable pub may_contain : BloomFilter → Bytes → Option Bool
unfolding may_contain_from probe test_bit
may_contain f key = may_contain_from 6 0 f key

-- `memcpy(dst + at, src, n)`; both ranges must lie in their allocations.
pub memcpy : Bytes → ℕ → Bytes → ℕ → Option Bytes
memcpy dst at src n =
    if leb (at + n) (length dst)
    then if leb n (length src) then some (take at dst ++ take n src ++ drop (at + n) dst) else none
    else none

-- A `uint32_t` in memory, the low byte first.
pub u32_bytes : ℕ → Bytes
u32_bytes n = n % 256 ∷ n / 256 % 256 ∷ n / 65536 % 256 ∷ n / 16777216 % 256 ∷ []

-- `*reinterpret_cast<const uint32_t *>(&src[at])`
pub read_u32 : Bytes → ℕ → Option ℕ
read_u32 src at = do
  a ← get_elem? src at
  b ← get_elem? src (at + 1)
  c ← get_elem? src (at + 2)
  d ← get_elem? src (at + 3)
  some (a + b * 256 + c * 65536 + d * 16777216)

-- Copy construction: `new uint8_t[_size]` gives `fresh`, of which the first `(_size + 7) / 8` bytes
-- are overwritten.
pub copy : Bytes → BloomFilter → Option BloomFilter
unfolding memcpy
copy fresh other = do
  buf ← memcpy fresh 0 other.hash ((other.size + 7) / 8)
  some (record { seed = other.seed; size = other.size; hash = buf })

-- `operator=`; `same` says that `other` is this object. Then `other._hash` is already the new
-- allocation when its bytes are copied.
pub assign : Bool → Bytes → BloomFilter → Option BloomFilter
unfolding memcpy
assign same fresh other = do
  buf ← memcpy fresh 0 (if same then fresh else other.hash) ((other.size + 7) / 8)
  some (record { seed = other.seed; size = other.size; hash = buf })

pub serialize : BloomFilter → Option Bytes
unfolding memcpy u32_bytes
serialize f = do
  let zeros = replicate ((f.size + 7) / 8 + 4 + 4) 0
  a ← memcpy zeros 0 (u32_bytes f.seed) 4
  b ← memcpy a 4 (u32_bytes f.size) 4
  memcpy b 8 f.hash ((f.size + 7) / 8)

-- The last part of `deserialize`, behind its checks.
pub load : BloomFilter → ℕ → ℕ → Bytes → Option BloomFilter
unfolding memcpy
load f seed size src = do
  buf ← memcpy f.hash 0 (drop 8 src) ((size + 7) / 8)
  some (record { seed = seed; size = size; hash = buf })

-- A vector that is refused leaves the filter as it is. The size is at most 100 MiB where the sum
-- with 7 is taken, so this does not wrap.
pub deserialize : BloomFilter → Bytes → Option BloomFilter
unfolding load read_u32
deserialize f src = if ltb (length src) 8 then some f else do
  seed ← read_u32 src 0
  size ← read_u32 src 4
  if ltb (100 * 1024 * 1024) size
      then some f
      else (if length src == (size + 7) / 8 + 4 + 4 then load f seed size src else some f)
