-- ===== src/BloomFilter/Codec.antt =====
-- `serialize` and `deserialize` of src/util/bloomfilter.cc.
pub mod Wire
use rawdishfs.BloomFilter.Codec.Wire.{
  span, memcpy_lem, memcpy_outside, may_contain-eq_of_take, wire, serialize-wire, u32-read,
  deserialize-wire,
}
use rawdishfs.Base.{
  Bool, Bytes, [], ap, arith, drop, drop_of_length-le, get_or-eq_of_take, length, length-replicate,
  none, refl, replicate, some, suc, sym, take, zero, ℕ, ◌%◌, ◌*◌, ◌++◌, ◌+◌, ◌/◌, ◌<◌, ◌>>=◌, ◌^◌,
  ◌∙◌, ◌∷◌, ◌≡◌, ◌≤◌, All, length-take, IsByte, take_of_length-le, length-append, length-drop,
  All-append, All-take, All-drop, ◌≢◌, Bool-cases, take-take_append, ltb, inl, inr,
}
use mathlib.Core.List.{append-nil}
use native.Mathlib.Numerals.{towards_suc}
use native.Mathlib.Nat.{zero-add}
use rawdishfs.BloomFilter.{BloomFilter, memcpy, u32_bytes, serialize, deserialize, may_contain}
use rawdishfs.BloomFilter.Bits.{bit_at}
use rawdishfs.BloomFilter.Membership.{
  IsValid, position, position-lt, positions_from, all_in, may_contain-all_in,
}

-- buffer has the room, `serialize` and then `deserialize` succeed, the receiver keeps its
-- allocation and is usable, and it reports the same keys as the sender.
pub deserialize-serialize :
    (f g : BloomFilter)
    → IsValid f
    → IsValid g
    → f.size ≤ 100 * 1024 * 1024
    → span f.size ≤ length g.hash
    → (sent : Bytes) × (serialize f ≡ some sent)
      × ((g' : BloomFilter) × (deserialize g sent ≡ some g')
          × IsValid g'
          × (length g'.hash ≡ length g.hash)
          × ((key : Bytes) → may_contain g' key ≡ may_contain f key))
deserialize-serialize f g v w bound fits = (
  wire f.seed f.size payload,
  serialize-wire f v.room,
  (g', runs, valid, same_length, λ key. may_contain-eq_of_take g' f key valid v refl refl prefix),
)
  where
    n : ℕ
    n = span f.size

    payload : Bytes
    payload = take n f.hash

    len : length payload ≡ n
    len = omega (arith, length-take n f.hash, v.room)

    whole : take n payload ≡ payload
    whole = take_of_length-le n payload (omega (arith, len))

    g' : BloomFilter
    g' = record { seed = f.seed; size = f.size; hash = payload ++ drop n g.hash }

    runs : deserialize g (wire f.seed f.size payload) ≡ some g'
    runs =
        deserialize-wire g f.seed f.size payload v.seeded bound len
        ∙ rw (memcpy_lem g.hash 0 payload n (omega arith) (omega (arith, len)), whole, zero-add)
            refl

    same_length : length g'.hash ≡ length g.hash
    same_length = omega (arith, length-append payload (drop n g.hash), length-drop n g.hash, len)

    valid : IsValid g'
    valid = record {
      seeded = v.seeded;
      positive = v.positive;
      bounded = v.bounded;
      room = omega (arith, same_length);
      bytes =
          All-append IsByte payload (drop n g.hash) (All-take IsByte n f.hash v.bytes)
            (All-drop IsByte n g.hash w.bytes);
    }

    prefix : take n g'.hash ≡ take n f.hash
    prefix = take-take_append n f.hash (drop n g.hash) v.room

-- `deserialize` compares the reported size with the length of the vector and never with its own
-- buffer: a well-formed vector of at most 100 MiB for a filter that is larger than the buffer of
-- the receiver is written past the end of that buffer.
pub deserialize-serialize_outside :
    (f g : BloomFilter)
    → IsValid f
    → f.size ≤ 100 * 1024 * 1024
    → length g.hash < span f.size
    → (sent : Bytes) × (serialize f ≡ some sent) × (deserialize g sent ≡ none)
deserialize-serialize_outside f g v bound small =
    let payload : Bytes = take (span f.size) f.hash in
    (
      wire f.seed f.size payload,
      serialize-wire f v.room,
      deserialize-wire g f.seed f.size payload v.seeded bound
            (omega (arith, length-take (span f.size) f.hash, v.room))
          ∙ rw (memcpy_outside g.hash 0 payload (span f.size) (omega arith)) refl,
    )

bytes-wire :
    (src : Bytes)
    → All IsByte src
    → 8 ≤ length src
    → (seed : ℕ) × (size : ℕ) × (payload : Bytes) × (src ≡ wire seed size payload)
      × (seed < 2 ^ 32)
      × (size < 2 ^ 32)
unfolding wire
bytes-wire (a ∷ b ∷ c ∷ d ∷ e ∷ f ∷ g ∷ h ∷ payload) p long = (
  a + b * 256 + c * 65536 + d * 16777216,
  e + f * 256 + g * 65536 + h * 16777216,
  payload,
  ground arith,
  omega arith,
  omega arith,
)
bytes-wire _ p long = absurd (omega arith)

deserialize-wire_refused :
    (g : BloomFilter) (seed size : ℕ) (payload : Bytes)
    → seed < 2 ^ 32
    → size < 2 ^ 32
    → (size ≤ 104857600 → length payload ≢ span size)
    → deserialize g (wire seed size payload) ≡ some g
unfolding deserialize wire
deserialize-wire_refused g seed size payload seeded sized unfit =
    ground (arith, u32-read seed seeded, u32-read size sized, unfit)

-- A vector that is not the serialized form of any filter of at most 100 MiB leaves the receiver
-- as it was.
deserialize-refuses :
    (g : BloomFilter) (src : Bytes)
    → All IsByte src
    → ((seed size : ℕ) (payload : Bytes)
        → size ≤ 100 * 1024 * 1024
        → length payload ≡ span size
        → src ≢ wire seed size payload)
    → deserialize g src ≡ some g
deserialize-refuses g src p not_wire = elim (Bool-cases (ltb (length src) 8)) [
  | inl short ↦ unfold deserialize in rw short refl
  | inr long ↦
      let (seed, size, payload, e, seeded, sized) = bytes-wire src p (ground arith) in
      rw (← e) at (
        deserialize-wire_refused g seed size payload seeded sized
          (λ small fits. not_wire seed size payload small fits e))
]
