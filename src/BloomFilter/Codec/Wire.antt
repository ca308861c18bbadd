-- ===== src/BloomFilter/Codec/Wire.antt =====
-- The bytes that `serialize` of src/util/bloomfilter.cc writes, `memcpy`, and what `deserialize`
-- makes of them.
use rawdishfs.Base.{
  Bool, Bytes, [], ap, arith, drop, drop_of_length-le, get_or-eq_of_take, length, length-replicate,
  none, refl, replicate, some, suc, sym, take, zero, ℕ, ◌%◌, ◌*◌, ◌++◌, ◌+◌, ◌/◌, ◌<◌, ◌>>=◌, ◌^◌,
  ◌∙◌, ◌∷◌, ◌≡◌, ◌≤◌,
}
use mathlib.Core.List.{append-nil}
use native.Mathlib.Numerals.{towards_suc}
use rawdishfs.BloomFilter.{BloomFilter, memcpy, u32_bytes, serialize, deserialize, may_contain}
use rawdishfs.BloomFilter.Bits.{bit_at}
use rawdishfs.BloomFilter.Membership.{
  IsValid, position, position-lt, positions_from, all_in, may_contain-all_in,
}

-- The number of bytes that hold `size` bits.
abbrev pub span : ℕ → ℕ
span size = (size + 7) / 8

pub memcpy_lem :
    (dst : Bytes) (at : ℕ) (src : Bytes) (n : ℕ)
    → at + n ≤ length dst
    → n ≤ length src
    → memcpy dst at src n ≡ some (take at dst ++ take n src ++ drop (at + n) dst)
unfolding memcpy
memcpy_lem dst at src n h k = ground arith

pub memcpy_outside :
    (dst : Bytes) (at : ℕ) (src : Bytes) (n : ℕ) → length dst < at + n → memcpy dst at src n ≡ none
unfolding memcpy
memcpy_outside dst at src n h = ground arith

all_in_below :
    (f g : ℕ → Bool) (left i seed size : ℕ) (key : Bytes)
    → 0 < size
    → ((q : ℕ) → q < size → f q ≡ g q)
    → all_in f (positions_from left i seed size key)
      ≡ all_in g (positions_from left i seed size key)
all_in_below f g zero i seed size key pos h = refl
all_in_below f g (suc left) i seed size key pos h =
    rw
      (
        h (position seed size key i) (position-lt seed size key i pos),
        all_in_below f g left (i + 1) seed size key pos h,
      )
      refl

-- What `mayContain` reads is the seed, the size and the bytes that hold `size` bits.
pub may_contain-eq_of_take :
    (f g : BloomFilter) (key : Bytes)
    → IsValid f
    → IsValid g
    → f.seed ≡ g.seed
    → f.size ≡ g.size
    → take (span f.size) f.hash ≡ take (span f.size) g.hash
    → may_contain f key ≡ may_contain g key
may_contain-eq_of_take f g key v w seeds sizes same =
    may_contain-all_in f key v
    ∙ ap some (
        all_in_below (bit_at f.hash) (bit_at g.hash) 6 0 f.seed f.size key v.positive (λ q h.
          rw (get_or-eq_of_take (span f.size) f.hash g.hash (q / 8) 0 same (omega arith)) refl))
    ∙ rw (seeds, sizes) refl
    ∙ sym (may_contain-all_in g key w)

-- The serialized form: the seed, the size, and the bytes that hold `size` bits.
unfoldable pub wire : ℕ → ℕ → Bytes → Bytes
unfolding u32_bytes
wire seed size payload = u32_bytes seed ++ u32_bytes size ++ payload

eight_zeros :
    (n : ℕ) → replicate {A = ℕ} (n + 4 + 4) 0 ≡ 0 ∷ 0 ∷ 0 ∷ 0 ∷ 0 ∷ 0 ∷ 0 ∷ 0 ∷ replicate n 0
eight_zeros n = simp towards_suc refl

-- The three writes of `serialize`.
write_seed :
    (n seed : ℕ)
    → memcpy (replicate (n + 4 + 4) 0) 0 (u32_bytes seed) 4
      ≡ some (u32_bytes seed ++ 0 ∷ 0 ∷ 0 ∷ 0 ∷ replicate n 0)
unfolding u32_bytes
write_seed n seed = rw (eight_zeros n) (
    memcpy_lem (0 ∷ 0 ∷ 0 ∷ 0 ∷ 0 ∷ 0 ∷ 0 ∷ 0 ∷ replicate n 0) 0 (u32_bytes seed) 4 (omega arith)
      (omega arith))

write_size :
    (n seed size : ℕ)
    → memcpy (u32_bytes seed ++ 0 ∷ 0 ∷ 0 ∷ 0 ∷ replicate n 0) 4 (u32_bytes size) 4
      ≡ some (u32_bytes seed ++ u32_bytes size ++ replicate n 0)
unfolding u32_bytes
write_size n seed size =
    memcpy_lem (u32_bytes seed ++ 0 ∷ 0 ∷ 0 ∷ 0 ∷ replicate n 0) 4 (u32_bytes size) 4 (omega arith)
      (omega arith)

write_payload :
    (n seed size : ℕ) (hash : Bytes)
    → n ≤ length hash
    → memcpy (u32_bytes seed ++ u32_bytes size ++ replicate n 0) 8 hash n
      ≡ some (wire seed size (take n hash))
unfolding u32_bytes wire
write_payload n seed size hash room =
    let dst : Bytes = u32_bytes seed ++ u32_bytes size ++ replicate n 0 in
    let rest : drop (8 + n) dst ≡ [] =
      drop_of_length-le (8 + n) dst (omega (arith, length-replicate n (zero))) in
    memcpy_lem dst 8 hash n (omega (arith, length-replicate n (zero))) room
    ∙ rw (rest, append-nil) refl

pub serialize-wire :
    (f : BloomFilter)
    → span f.size ≤ length f.hash
    → serialize f ≡ some (wire f.seed f.size (take (span f.size) f.hash))
unfolding serialize
serialize-wire f room =
    rw (write_seed (span f.size) f.seed, write_size (span f.size) f.seed f.size)
      (write_payload (span f.size) f.seed f.size f.hash room)

pub u32-read :
    (n : ℕ)
    → n < 2 ^ 32
    → n % 256 + n / 256 % 256 * 256 + n / 65536 % 256 * 65536 + n / 16777216 % 256 * 16777216 ≡ n
u32-read n h = omega arith

-- `deserialize` of a serialized form of at most 100 MiB is the copy of its payload.
pub deserialize-wire :
    (g : BloomFilter) (seed size : ℕ) (payload : Bytes)
    → seed < 2 ^ 32
    → size ≤ 100 * 1024 * 1024
    → length payload ≡ span size
    → deserialize g (wire seed size payload) ≡ (
        memcpy g.hash 0 payload (span size) >>= λ buf.
        some (record { seed = seed; size = size; hash = buf }))
unfolding deserialize wire
deserialize-wire g seed size payload seeded bound fits =
    ground (arith, u32-read seed seeded, u32-read size (omega arith), fits)

-- A filter can be sent: for a usable filter of at most 100 MiB and any usable receiver whose
