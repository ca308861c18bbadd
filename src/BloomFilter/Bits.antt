-- ===== src/BloomFilter/Bits.antt =====
-- The bits of the buffer of src/util/bloomfilter.cc: which bit `set` writes and `mayContain` reads.
use rawdishfs.Base.{
  sym, ℕ, zero, suc, ◌+◌, ◌*◌, ◌/◌, ◌%◌, ◌^◌, ◌<◌, bit_and, bit_or, Bool, true, false, not, ◌||◌,
  some, ◌≡◌, ◌≢◌, refl, arith, length, set as update, All, ◌==◌, u8, Bytes, IsByte, length-set,
  All-set, inl, inr, Bool-cases, get_elem?-eq-get_or, get_or, All-get_or, get_or-set_self,
  get_or-set_ne, replicate, ==_iff, if◌then◌else◌,
}
use rawdishfs.BloomFilter.{set_bit, test_bit}

-- A test that is true of each number below a bound.
holds_below : (ℕ → Bool) → ℕ → Bool
holds_below test zero = true
holds_below test (suc bound) = if test bound then holds_below test bound else false

holds_below_lem :
    (test : ℕ → Bool) (bound : ℕ)
    → holds_below test bound ≡ true
    → (n : ℕ) → n < bound
    → test n ≡ true
unfolding holds_below
holds_below_lem test zero table n small = absurd (omega arith)
holds_below_lem test (suc bound) table n small = elim (Bool-cases (n == bound)) [
  | inl last ↦ rw ((==_iff n bound).0 last) (ground arith)
  | inr before ↦ holds_below_lem test bound (ground arith) n (ground arith)
]

abbrev pub bit_of : ℕ → ℕ → Bool
bit_of x c = not (bit_and x (2 ^ c) == 0)

abbrev pub with_bit : ℕ → ℕ → ℕ
with_bit x b = u8 (bit_or x (2 ^ b))

iff_b : Bool → Bool → Bool
iff_b true b = b
iff_b false b = not b

iff_b_sound : (a b : Bool) → iff_b a b ≡ true → a ≡ b
unfolding iff_b
iff_b_sound true b h = sym h
iff_b_sound false b h = ground arith

-- Bit `c` of the byte `x` after bit `b` is set.
bit_case : ℕ → ℕ → ℕ → Bool
unfolding iff_b
bit_case x b c = iff_b (bit_of (with_bit x b) c) (c == b || bit_of x c)

abbrev nth_case : ℕ → Bool
nth_case n = bit_case (n / 64) (n / 8 % 8) (n % 8)

bit_table : holds_below nth_case 16384 ≡ true
unfolding holds_below bit_case
bit_table = refl

bit_case_sound : (x b c : ℕ) → x < 256 → b < 8 → c < 8 → bit_case x b c ≡ true
bit_case_sound x b c hx hb hc =
    let x_eq : (x * 64 + b * 8 + c) / 64 ≡ x = omega arith in
    let b_eq : (x * 64 + b * 8 + c) / 8 % 8 ≡ b = omega arith in
    let c_eq : (x * 64 + b * 8 + c) % 8 ≡ c = omega arith in
    rw (x_eq, b_eq, c_eq) at
      (holds_below_lem nth_case 16384 bit_table (x * 64 + b * 8 + c) (omega arith))

pub bit_of-with_bit :
    (x b c : ℕ) → x < 256 → b < 8 → c < 8 → bit_of (with_bit x b) c ≡ (c == b || bit_of x c)
unfolding bit_case
bit_of-with_bit x b c hx hb hc = iff_b_sound _ _ (bit_case_sound x b c hx hb hc)

-- Bit `q` of the buffer.
abbrev pub bit_at : Bytes → ℕ → Bool
bit_at buf q = bit_of (get_or buf (q / 8) 0) (q % 8)

pub test_bit-bit_at :
    (buf : Bytes) (p : ℕ) → p / 8 < length buf → test_bit buf p ≡ some (bit_at buf p)
unfolding test_bit
test_bit-bit_at buf p h = rw (get_elem?-eq-get_or buf (p / 8) 0 h) refl

-- The buffer with bit `p` set.
abbrev pub marked : Bytes → ℕ → Bytes
marked buf p = update buf (p / 8) (with_bit (get_or buf (p / 8) 0) (p % 8))

pub set_bit-marked :
    (buf : Bytes) (p : ℕ) → p / 8 < length buf → set_bit buf p ≡ some (marked buf p)
unfolding set_bit
set_bit-marked buf p h = rw (get_elem?-eq-get_or buf (p / 8) 0 h) refl

pub length-marked : (buf : Bytes) (p : ℕ) → length (marked buf p) ≡ length buf
length-marked buf p = length-set buf (p / 8) _

pub marked-IsByte : (buf : Bytes) (p : ℕ) → All IsByte buf → All IsByte (marked buf p)
marked-IsByte buf p h = All-set IsByte buf (p / 8) _ h (omega arith)

pub bit_at-marked :
    (buf : Bytes) (p q : ℕ)
    → All IsByte buf
    → p / 8 < length buf
    → bit_at (marked buf p) q ≡ (q == p || bit_at buf q)
bit_at-marked buf p q bytes room = elim (Bool-cases (q / 8 == p / 8)) [
  | inl same ↦
      let here : q / 8 ≡ p / 8 = ground arith in
      let small : get_or buf (p / 8) 0 < 256 =
        All-get_or IsByte buf (p / 8) 0 bytes (omega arith) in
      let table : bit_of (with_bit (get_or buf (p / 8) 0) (p % 8)) (q % 8)
          ≡ (q % 8 == p % 8 || bit_of (get_or buf (p / 8) 0) (q % 8)) =
        bit_of-with_bit (get_or buf (p / 8) 0) (p % 8) (q % 8) small (omega arith) (omega arith) in
      let places : (q % 8 == p % 8) ≡ (q == p) = ground arith in
      rw (here, get_or-set_self buf (p / 8) _ 0 room, table, places) refl
  | inr other ↦
      let apart : p / 8 ≢ q / 8 = λ e. ground arith in
      let places : (q == p) ≡ false = ground arith in
      rw (places, get_or-set_ne buf (p / 8) (q / 8) _ 0 apart) refl
]

get_or-zeros : (n i : ℕ) → get_or {A = ℕ} (replicate n 0) i 0 ≡ 0
get_or-zeros zero i = refl
get_or-zeros (suc n) zero = refl
get_or-zeros (suc n) (suc i) = get_or-zeros n i

zero_bits : holds_below (λ c. not (bit_of 0 c)) 8 ≡ true
unfolding holds_below
zero_bits = refl

-- A cleared buffer has no bit.
pub bit_at-zeros : (n q : ℕ) → bit_at (replicate n 0) q ≡ false
bit_at-zeros n q =
    rw (get_or-zeros n (q / 8))
      (ground (arith, holds_below_lem (λ c. not (bit_of 0 c)) 8 zero_bits (q % 8) (omega arith)))
