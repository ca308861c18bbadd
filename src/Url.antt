-- ===== src/Url.antt =====
-- `URL` of src/util/url.h. A string is its bytes. `none` is the overflow of an `int` in `atoi`.
pub mod Strings
pub mod Digits
pub mod RoundTrip
mod Tests
use rawdishfs.Base.{
  Bool, Bytes, Option, [], c_str, false, if◌then◌else◌, leb, ltb, none, not, some, suc, take, true,
  zero, ℕ, ◌%◌, ◌&&◌, ◌*◌, ◌++◌, ◌+◌, ◌-◌, ◌/◌, ◌==◌, ◌>>=◌, ◌^◌, ◌||◌, ◌∷◌,
}
use rawdishfs.Base.Keys.{bytes_eqb}
use rawdishfs.Base.Int.{ℤ, pos, negsuc}

pub record Url : Type 0 where
  pub scheme : Bytes
  pub host : Bytes
  pub port : ℤ
  pub path : Bytes
  pub valid : Bool

-- The string behind a prefix.
pub strip_prefix : Bytes → Bytes → Option Bytes
strip_prefix [] s = some s
strip_prefix (p ∷ pat) [] = none
strip_prefix (p ∷ pat) (c ∷ s) = let rest = strip_prefix pat s in if p == c then rest else none

-- What stands before and behind the first `pat` of a string (`find` and `substr`).
pub split_first : Bytes → Bytes → Option (Bytes × Bytes)
unfolding strip_prefix
split_first pat [] = elim (strip_prefix pat []) [ some rest ↦ some ([], rest) | none ↦ none ]
split_first pat (c ∷ s) =
    let later = split_first pat s in
    elim (strip_prefix pat (c ∷ s)) [
      | some rest ↦ some ([], rest)
      | none ↦ later >>= λ r. some (c ∷ r.0, r.1)
    ]

-- What stands before and behind the last byte `c` of a string (`rfind` and `substr`).
pub split_last : ℕ → Bytes → Option (Bytes × Bytes)
split_last c [] = none
split_last c (b ∷ s) = elim (split_last c s) [
  | some (before, behind) ↦ some (b ∷ before, behind)
  | none ↦ if b == c then some ([], s) else none
]

-- The leading digits of a string, as a number behind the digits read so far.
pub scan_digits : ℕ → Bytes → ℕ
scan_digits acc [] = acc
scan_digits acc (c ∷ s) =
    let rest = scan_digits (acc * 10 + (c - b'0')) s in
    if leb b'0' c && leb c b'9' then rest else acc

abbrev pub is_space : ℕ → Bool
is_space c = c == b' ' || (leb 9 c && leb c 13)

pub skip_spaces : Bytes → Bytes
skip_spaces [] = []
skip_spaces (c ∷ s) = let rest = skip_spaces s in if is_space c then rest else c ∷ s

-- A number with its sign, as an `int`.
pub to_int : Bool → ℕ → Option ℤ
to_int negative zero = some (pos zero)
to_int true (suc n) = if ltb n (2 ^ 31) then some (negsuc n) else none
to_int false (suc n) = if ltb (suc n) (2 ^ 31) then some (pos (suc n)) else none

-- `atoi` of the C library.
pub atoi : Bytes → Option ℤ
unfolding scan_digits skip_spaces to_int
atoi s = elim (skip_spaces s) [
  | [] ↦ some (pos 0)
  | c ∷ rest ↦
      if c == b'-'
      then to_int true (scan_digits 0 rest)
      else if c == b'+'
      then to_int false (scan_digits 0 rest)
      else to_int false (scan_digits 0 (c ∷ rest))
]

-- `_port > 0 && _port <= 65535`
abbrev pub port_in_range : ℤ → Bool
port_in_range (pos n) = ltb 0 n && leb n 65535
port_in_range (negsuc n) = false

abbrev pub separator : Bytes
separator = b':' ∷ b'/' ∷ b'/' ∷ []

abbrev pub http : Bytes
http = b'h' ∷ b't' ∷ b't' ∷ b'p' ∷ []

-- The four steps of `parse`: each takes a part off the string.
pub parse_scheme : Bytes → Bytes × Bytes
unfolding split_first
parse_scheme s = elim (split_first separator s) [
  | some (scheme, rest) ↦ (scheme, rest)
  | none ↦ (http, s)
]

-- The path, and the string before it.
pub parse_path : Bytes → Bytes × Bytes
unfolding split_first
parse_path s = elim (split_first (b'/' ∷ []) s) [
  | some (rest, path) ↦ (path, rest)
  | none ↦ ([], s)
]

-- The port, whether it is in range, and the string before it.
pub parse_port : Bytes → Option (ℤ × Bool × Bytes)
unfolding split_last atoi
parse_port s = elim (split_last b':' s) [
  | some (rest, digits) ↦ do port ← atoi (c_str digits); some (port, port_in_range port, rest)
  | none ↦ some (pos 80, true, s)
]

pub has_byte : ℕ → Bytes → Bool
has_byte c [] = false
has_byte c (b ∷ s) = b == c || has_byte c s

pub parse : Bytes → Option Url
unfolding parse_scheme parse_path parse_port has_byte
parse s = do
  p ← parse_port (parse_path (parse_scheme s).1).1
  some (record {
    scheme = (parse_scheme s).0;
    host = p.2;
    port = p.0;
    path = (parse_path (parse_scheme s).1).0;
    valid = p.1 && not (has_byte b':' p.2);
  })

-- `%d`: the digits of a number; a number has fewer digits than its value and one.
unfoldable pub print_nat : ℕ → ℕ → Bytes
print_nat zero n = []
print_nat (suc fuel) n = elim (ltb n 10) [
  | true ↦ (b'0' + n) ∷ []
  | false ↦ print_nat fuel (n / 10) ++ (b'0' + n % 10) ∷ []
]

pub print_int : ℤ → Bytes
unfolding print_nat
print_int (pos n) = print_nat (suc n) n
print_int (negsuc n) = b'-' ∷ print_nat (suc (suc n)) (suc n)

abbrev pub is_80 : ℤ → Bool
is_80 (pos n) = n == 80
is_80 (negsuc n) = false

-- The part of `toString` for the port.
pub print_port : Url → Bytes
unfolding print_int
print_port u =
    if bytes_eqb u.scheme http && is_80 u.port then [] else b':' ∷ take 30 (print_int u.port)

pub to_string : Url → Bytes
unfolding print_port
to_string u = u.scheme ++ separator ++ u.host ++ print_port u ++ b'/' ∷ u.path

-- `operator==`
pub url_eqb : Url → Url → Bool
unfolding to_string
url_eqb a b = bytes_eqb (to_string a) (to_string b)
