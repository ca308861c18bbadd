-- ===== src/Url/Digits.antt =====
-- The port of src/util/url.h in decimal: `snprintf` and `atoi`.
use rawdishfs.Base.{
  All, All-append, Bool-cases, Bytes, [], ap, arith, c_str, false, inl, inr, leb, length,
  length-append, ltb, refl, some, suc, true, zero, ℕ, ◌%◌, ◌&&◌, ◌*◌, ◌++◌, ◌+◌, ◌-◌, ◌/◌, ◌<◌,
  ◌==◌, ◌^◌, ◌∙◌, ◌∷◌, ◌≡◌, ◌≤◌, ◌⊎◌,
}
use rawdishfs.Base.Int.{pos}
use rawdishfs.Url.{scan_digits, is_space, skip_spaces, to_int, atoi, has_byte, print_nat}

-- A string of digits.
unfoldable pub IsDigits : Bytes → Type 0
IsDigits s = All (λ c. (b'0' ≤ c) × (c ≤ b'9')) s

scan_digits-append :
    (acc d : ℕ) (s : Bytes)
    → IsDigits s
    → d < 10
    → scan_digits acc (s ++ (b'0' + d) ∷ []) ≡ scan_digits acc s * 10 + d
unfolding scan_digits IsDigits
scan_digits-append acc d [] a h = ground arith
scan_digits-append acc d (c ∷ s) a h =
    let digit : (leb b'0' c && leb c b'9') ≡ true = ground (arith, a.0.0, a.0.1) in
    rw digit (scan_digits-append (acc * 10 + (c - b'0')) d s a.1 h)

pub print_nat-IsDigits : (fuel n : ℕ) → IsDigits (print_nat fuel n)
unfolding print_nat IsDigits
print_nat-IsDigits zero n = tt
print_nat-IsDigits (suc fuel) n = elim (Bool-cases (ltb n 10)) [
  | inl small ↦ rw (small, print_nat) ((omega arith, ground arith), tt)
  | inr large ↦
      rw (large, print_nat)
        (All-append _ (print_nat fuel (n / 10)) _ (print_nat-IsDigits fuel (n / 10))
          ((omega arith, omega arith), tt))
]

pub scan_digits-print_nat : (fuel n : ℕ) → n < fuel → scan_digits 0 (print_nat fuel n) ≡ n
unfolding print_nat scan_digits
scan_digits-print_nat zero n h = absurd (omega arith)
scan_digits-print_nat (suc fuel) n h = elim (Bool-cases (ltb n 10)) [
  | inl small ↦ rw (small, print_nat) (ground arith)
  | inr large ↦
      let ih = scan_digits-print_nat fuel (n / 10) (ground arith) in
      rw (large, print_nat)
        (scan_digits-append 0 (n % 10) (print_nat fuel (n / 10)) (print_nat-IsDigits fuel (n / 10))
            (omega arith)
          ∙ (rw ih (omega arith)))
]

-- 10 ^ (k + 1)
abbrev pub tens : ℕ → ℕ
tens zero = 10
tens (suc k) = tens k * 10

pub length-print_nat : (k fuel n : ℕ) → n < tens k → length (print_nat fuel n) ≤ suc k
unfolding print_nat
length-print_nat k zero n h = omega arith
length-print_nat zero (suc fuel) n h =
    let small : ltb n 10 ≡ true = ground arith in rw (small, print_nat) (omega arith)
length-print_nat (suc k) (suc fuel) n h = elim (Bool-cases (ltb n 10)) [
  | inl small ↦ rw (small, print_nat) (omega arith)
  | inr large ↦
      rw (large, print_nat)
        (omega (
          arith,
          length-append (print_nat fuel (n / 10)) ((b'0' + n % 10) ∷ []),
          length-print_nat k fuel (n / 10) (omega arith),
        ))
]

print_nat_pos : (fuel n : ℕ) → 0 < length (print_nat (suc fuel) n)
unfolding print_nat
print_nat_pos fuel n = elim (Bool-cases (ltb n 10)) [
  | inl small ↦ rw (small, print_nat) (omega arith)
  | inr large ↦
      rw (large, print_nat)
        (omega (arith, length-append (print_nat fuel (n / 10)) ((b'0' + n % 10) ∷ [])))
]

pub has_byte-IsDigits :
    (c : ℕ) (s : Bytes) → IsDigits s → (c < b'0') ⊎ (b'9' < c) → has_byte c s ≡ false
unfolding has_byte IsDigits
has_byte-IsDigits c [] a h = refl
has_byte-IsDigits c (b ∷ s) a h =
    let apart : (b == c) ≡ false = elim h [
      | inl low ↦ ground (arith, a.0.0)
      | inr high ↦ ground (arith, a.0.1)
    ] in
    rw apart (has_byte-IsDigits c s a.1 h)

c_str-IsDigits : (s : Bytes) → IsDigits s → c_str s ≡ s
unfolding IsDigits
c_str-IsDigits [] a = refl
c_str-IsDigits (zero ∷ s) a = absurd (omega (arith, a.0.0))
c_str-IsDigits (suc c ∷ s) a = ap (◌∷◌ (suc c)) (c_str-IsDigits s a.1)

atoi-IsDigits : (s : Bytes) → IsDigits s → 0 < length s → atoi s ≡ to_int false (scan_digits 0 s)
unfolding atoi skip_spaces IsDigits
atoi-IsDigits [] a h = absurd (omega arith)
atoi-IsDigits (c ∷ s) a h =
    let solid : is_space c ≡ false = ground (arith, a.0.0) in
    let no_minus : (c == b'-') ≡ false = ground (arith, a.0.0) in
    let no_plus : (c == b'+') ≡ false = ground (arith, a.0.0) in
    let kept : skip_spaces (c ∷ s) ≡ c ∷ s = rw (solid, skip_spaces) refl in
    rw (atoi, kept, no_minus, no_plus) refl

-- A port that is printed and read again.
pub atoi-print_nat : (n : ℕ) → 0 < n → n ≤ 65535 → atoi (c_str (print_nat (suc n) n)) ≡ some (pos n)
unfolding to_int
atoi-print_nat zero p h = absurd (omega arith)
atoi-print_nat (suc n) p h =
    let digits = print_nat-IsDigits (suc (suc n)) (suc n) in
    let fits : ltb (suc n) (2 ^ 31) ≡ true = ground arith in
    rw (c_str-IsDigits (print_nat (suc (suc n)) (suc n)) digits) (
      atoi-IsDigits (print_nat (suc (suc n)) (suc n)) digits (print_nat_pos (suc n) (suc n))
      ∙ rw (scan_digits-print_nat (suc (suc n)) (suc n) (omega arith), fits) refl)
