-- ===== src/Url/RoundTrip.antt =====
-- Printing and parsing a URL of src/util/url.h.
use rawdishfs.Base.{
  ==_iff, Bool-cases, Bytes, [], ap, arith, c_str, false, inl, inr, not, refl, some, suc, sym, take,
  take_of_length-le, true, ℕ, ◌&&◌, ◌++◌, ◌<◌, ◌∙◌, ◌∷◌, ◌≡◌, ◌≤◌, ◌⊎◌,
}
use rawdishfs.Base.Keys.{bytes_eqb}
use rawdishfs.Base.Int.{ℤ, pos}
use mathlib.Core.List.{append_assoc, append-nil}
use rawdishfs.Url.{
  Url, split_first, split_last, atoi, port_in_range, separator, http, parse_scheme, parse_path,
  parse_port, has_byte, parse, print_nat, print_int, is_80, print_port, to_string,
}
use rawdishfs.Url.Strings.{has_byte-append, split_first-append, split_last-none, split_last-append}
use rawdishfs.Url.Digits.{print_nat-IsDigits, length-print_nat, has_byte-IsDigits, atoi-print_nat}

-- A URL whose scheme and host can be told from what stands around them, with a port in range.
pub record IsUrl (u : Url) : Type 0 where
  pub scheme : has_byte b':' u.scheme ≡ false
  pub host : has_byte b':' u.host ≡ false
  pub host_path : has_byte b'/' u.host ≡ false
  pub number : ℕ
  pub port : u.port ≡ pos number
  pub positive : 0 < number
  pub bounded : number ≤ 65535
  pub valid : u.valid ≡ true

-- The digits of the port.
print_int_lem : (n : ℕ) → n ≤ 65535 → take 30 (print_int (pos n)) ≡ print_nat (suc n) n
unfolding print_int
print_int_lem n h =
    take_of_length-le 30 (print_nat (suc n) n)
      (omega (arith, length-print_nat 4 (suc n) n (omega arith)))

-- The part for the port is left out, or is a colon and the digits.
print_port-cases :
    (u : Url) (v : IsUrl u)
    → ((print_port u ≡ []) × (v.number ≡ 80))
      ⊎ (print_port u ≡ b':' ∷ print_nat (suc v.number) v.number)
unfolding print_port
print_port-cases u v = elim (Bool-cases (bytes_eqb u.scheme http && is_80 u.port)) [
  | inl left_out ↦
      let is : is_80 u.port ≡ true = ground arith in
      inl (rw left_out refl, (==_iff v.number 80).0 (rw v.port at is))
  | inr printed ↦ inr (
      rw printed (
        ap (λ p. b':' ∷ take 30 (print_int p)) v.port
        ∙ ap (◌∷◌ b':') (print_int_lem v.number v.bounded)))
]

parse_scheme_found :
    (s scheme rest : Bytes)
    → split_first separator s ≡ some (scheme, rest)
    → parse_scheme s ≡ (scheme, rest)
unfolding parse_scheme
parse_scheme_found s scheme rest e = rw (parse_scheme, e) refl

parse_path_found :
    (s rest path : Bytes)
    → split_first (b'/' ∷ []) s ≡ some (rest, path)
    → parse_path s ≡ (path, rest)
unfolding parse_path
parse_path_found s rest path e = rw (parse_path, e) refl

parse_port_found :
    (s rest digits : Bytes) (port : ℤ)
    → split_last b':' s ≡ some (rest, digits)
    → atoi (c_str digits) ≡ some port
    → parse_port s ≡ some (port, port_in_range port, rest)
unfolding parse_port
parse_port_found s rest digits port e h = rw (parse_port, e, h) refl

parse_scheme-to_string :
    (u : Url)
    → IsUrl u
    → parse_scheme (to_string u) ≡ (u.scheme, u.host ++ print_port u ++ b'/' ∷ u.path)
unfolding parse_scheme to_string
parse_scheme-to_string u v =
    let rest = u.host ++ print_port u ++ b'/' ∷ u.path in
    let found : split_first separator (u.scheme ++ (separator ++ rest)) ≡ some (u.scheme, rest) =
      split_first-append b':' (b'/' ∷ b'/' ∷ []) u.scheme rest v.scheme in
    let joined : to_string u ≡ u.scheme ++ (separator ++ rest) =
      ap (λ x. x ++ b'/' ∷ u.path) (append_assoc (u.scheme ++ separator) u.host (print_port u))
      ∙ append_assoc (u.scheme ++ separator) (u.host ++ print_port u) (b'/' ∷ u.path)
      ∙ append_assoc u.scheme separator rest in
    ap parse_scheme joined
    ∙ parse_scheme_found (u.scheme ++ (separator ++ rest)) u.scheme rest found

parse_path-to_string :
    (u : Url)
    → IsUrl u
    → parse_path (u.host ++ print_port u ++ b'/' ∷ u.path) ≡ (u.path, u.host ++ print_port u)
unfolding parse_path has_byte
parse_path-to_string u v =
    parse_path_found (u.host ++ print_port u ++ b'/' ∷ u.path) (u.host ++ print_port u) u.path (
      split_first-append b'/' [] (u.host ++ print_port u) u.path
        (has_byte-append b'/' u.host (print_port u) ∙ ground (arith, v.host_path, no_slash)))
  where
    no_slash : has_byte b'/' (print_port u) ≡ false
    no_slash = elim (print_port-cases u v) [
      | inl (left_out, eighty) ↦ rw left_out refl
      | inr printed ↦ rw printed (
          has_byte-IsDigits b'/' (print_nat (suc v.number) v.number)
            (print_nat-IsDigits (suc v.number) v.number) (inl (omega arith)))
    ]

parse_port-to_string :
    (u : Url) (v : IsUrl u) → parse_port (u.host ++ print_port u) ≡ some (u.port, true, u.host)
unfolding parse_port
parse_port-to_string u v = elim (print_port-cases u v) [
  | inl (left_out, eighty) ↦
      rw (left_out, append-nil u.host)
        (rw (split_last-none b':' u.host v.host, parse_port)
          (ap (λ p. some (p, true, u.host)) (sym (v.port ∙ ap pos eighty))))
  | inr printed ↦
      let digits = print_nat (suc v.number) v.number in
      let found : split_last b':' (u.host ++ b':' ∷ digits) ≡ some (u.host, digits) =
        split_last-append b':' u.host digits (
          has_byte-IsDigits b':' digits (print_nat-IsDigits (suc v.number) v.number)
            (inr (omega arith))) in
      let in_range : port_in_range (pos v.number) ≡ true = ground (arith, v.positive, v.bounded) in
      rw printed (
        parse_port_found (u.host ++ b':' ∷ digits) u.host digits (pos v.number) found
          (atoi-print_nat v.number v.positive v.bounded)
        ∙ rw in_range (ap (λ p. some (p, true, u.host)) (sym v.port)))
]

-- A URL whose scheme and host have no colon, whose host has no slash and whose port is between 1
-- and 65535 is printed and parsed again: `parse` of `toString` gives the same URL, and calls it valid.
pub parse-to_string : (u : Url) → IsUrl u → parse (to_string u) ≡ some u
unfolding parse
parse-to_string u v =
    rw (parse_scheme-to_string u v, parse_path-to_string u v, parse_port-to_string u v)
      (ap (λ b. some (record u { valid = b })) (ap not v.host ∙ sym v.valid))
