-- ===== src/Url/Tests.antt =====
-- URLs of src/util/url_test.cc.
use rawdishfs.Base.{Bytes, [], arith, false, refl, some, true, ◌++◌, ◌∷◌, ◌≡◌}
use rawdishfs.Base.Int.{pos}
use rawdishfs.Url.{Url, separator, http, has_byte, parse, to_string}
use rawdishfs.Url.RoundTrip.{IsUrl, parse-to_string}

-- "rawdish"
abbrev rawdish : Bytes
rawdish = b'r' ∷ b'a' ∷ b'w' ∷ b'd' ∷ b'i' ∷ b's' ∷ b'h' ∷ []

-- "s:70000/p"
abbrev too_large : Bytes
too_large = b's' ∷ b':' ∷ b'7' ∷ b'0' ∷ b'0' ∷ b'0' ∷ b'0' ∷ b'/' ∷ b'p' ∷ []

abbrev url : Url
url = record {
  scheme = rawdish;
  host = b's' ∷ [];
  port = pos 90;
  path = b'p' ∷ b'/' ∷ b'p' ∷ [];
  valid = true;
}

url-IsUrl : IsUrl url
unfolding has_byte
url-IsUrl = record {
  scheme = refl;
  host = refl;
  host_path = refl;
  number = 90;
  port = refl;
  positive = omega arith;
  bounded = omega arith;
  valid = refl;
}

default_scheme :
    parse (b's' ∷ [])
    ≡ some (record { scheme = http; host = b's' ∷ []; port = pos 80; path = []; valid = true })
unfolding parse
default_scheme = refl

port_is_too_large :
    parse too_large
    ≡ some (record {
      scheme = http;
      host = b's' ∷ [];
      port = pos 70000;
      path = b'p' ∷ [];
      valid = false;
    })
unfolding parse
port_is_too_large = refl

port_is_no_number :
    parse (b's' ∷ b':' ∷ b'b' ∷ [])
    ≡ some (record { scheme = http; host = b's' ∷ []; port = pos 0; path = []; valid = false })
unfolding parse
port_is_no_number = refl

http_needs_no_port :
    to_string (record { scheme = http; host = b's' ∷ []; port = pos 80; path = []; valid = true })
    ≡ http ++ separator ++ b's' ∷ b'/' ∷ []
unfolding to_string
http_needs_no_port = refl

parse-to_string_example : parse (to_string url) ≡ some url
parse-to_string_example = parse-to_string url url-IsUrl
