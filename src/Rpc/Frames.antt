-- ===== src/Rpc/Frames.antt =====
-- A small packing that meets the interfaces of Msgpack: the length of an object, then its bytes.
use rawdishfs.Rpc.{Request, Response}
use rawdishfs.Base.{
  Bool, Bytes, Option, [], ap, arith, drop, false, if◌then◌else◌, leb, length, length-append,
  length-take, none, refl, some, suc, take, take-append, true, zero, ℕ, ◌++◌, ◌<◌, ◌==◌, ◌∷◌, ◌≡◌,
}
use rawdishfs.Base.Keys.{bytes_key, nat_key, Address}
use rawdishfs.Msgpack.{Codec, Parse, more, message, Framing}

pub drop-append : (xs ys : Bytes) → drop (length xs) (xs ++ ys) ≡ ys
drop-append [] ys = refl
drop-append (x ∷ xs) ys = drop-append xs ys

module _ {M : Type 0} (to : M → Bytes) (of : Bytes → M) (of-to : (m : M) → of (to m) ≡ m) where
  unfoldable pub head_of : Bytes → Parse M
  head_of [] = more
  head_of (n ∷ rest) =
      if leb n (length rest) then message (of (take n rest)) (drop n rest) else more

  pub head_of-pack :
      (m : M) (rest : Bytes) → head_of (length (to m) ∷ to m ++ rest) ≡ message m rest
  unfolding head_of
  head_of-pack m rest =
      let fits : leb (length (to m)) (length (to m ++ rest)) ≡ true =
        ground (arith, length-append (to m) rest) in
      rw (fits, take-append (to m) rest, drop-append (to m) rest, of-to m) refl

  pub head_of-take :
      (m : M) (n : ℕ)
      → n < length (length (to m) ∷ to m)
      → head_of (take n (length (to m) ∷ to m)) ≡ more
  unfolding head_of
  head_of-take m zero h = refl
  head_of-take m (suc n) h =
      let short : leb (length (to m)) (length (take n (to m))) ≡ false =
        ground (arith, length-take n (to m)) in
      rw short refl

  unfoldable pub framed : Framing M
  unfolding head_of
  framed = record {
    pack = λ m. length (to m) ∷ to m;
    decode = head_of;
    decode_nil = refl;
    decode-pack = head_of-pack;
    decode-take = head_of-take;
  }

unfoldable pub to_request : Request → Bytes
to_request (id, name, args) = id ∷ length name ∷ name ++ args

unfoldable pub of_request : Bytes → Request
of_request [] = (0, [], [])
of_request (id ∷ []) = (id, [], [])
of_request (id ∷ n ∷ rest) = (id, take n rest, drop n rest)

pub of_request-to_request : (m : Request) → of_request (to_request m) ≡ m
unfolding of_request to_request
of_request-to_request (id, name, args) = rw (take-append name args, drop-append name args) refl

unfoldable pub to_response : Response → Bytes
to_response (id, body) = id ∷ body

unfoldable pub of_response : Bytes → Response
of_response [] = (0, [])
of_response (id ∷ body) = (id, body)

pub of_response-to_response : (m : Response) → of_response (to_response m) ≡ m
unfolding of_response to_response
of_response-to_response (id, body) = refl

unfoldable pub requests : Framing Request
requests = framed to_request of_request of_request-to_request

unfoldable pub responses : Framing Response
responses = framed to_response of_response of_response-to_response

unfoldable pub first_only : Bytes → Option ℕ
first_only [] = none
first_only (n ∷ bs) = some n

unfoldable pub number : Codec ℕ
unfolding first_only
number = record { pack = λ n. n ∷ []; unpack = first_only; unpack-pack = λ n. refl }

unfoldable pub tail_of : Bytes → Bytes × Bytes
tail_of [] = ([], [])
tail_of (n ∷ rest) = (take n rest, drop n rest)

pub tail_of-append : (key content : Bytes) → tail_of (length key ∷ key ++ content) ≡ (key, content)
unfolding tail_of
tail_of-append key content = rw (take-append key content, drop-append key content) refl

unfoldable pub first_is_one : Bytes → Option Bool
first_is_one [] = none
first_is_one (n ∷ bs) = some (n == 1)

unfoldable pub flag_byte : Bool → ℕ
flag_byte true = 1
flag_byte false = 0

pub first_is_one_lem : (b : Bool) → first_is_one (flag_byte b ∷ []) ≡ some b
unfolding first_is_one flag_byte
first_is_one_lem true = refl
first_is_one_lem false = refl

unfoldable pub text : Codec Bytes
text = record { pack = λ s. s; unpack = λ s. some s; unpack-pack = λ s. refl }

unfoldable pub text_pair : Codec (Bytes × Bytes)
unfolding tail_of
text_pair = record {
  pack = λ p. length p.0 ∷ p.0 ++ p.1;
  unpack = λ s. some (tail_of s);
  unpack-pack = λ p. ap some (tail_of-append p.0 p.1);
}

unfoldable pub nothing : Codec Unit
nothing = record { pack = λ u. []; unpack = λ s. some tt; unpack-pack = λ u. refl }

unfoldable pub flag : Codec Bool
unfolding first_is_one flag_byte
flag = record {
  pack = λ b. flag_byte b ∷ [];
  unpack = first_is_one;
  unpack-pack = first_is_one_lem;
}

unfoldable pub address_of : Bytes → Address
address_of [] = ([], 0)
address_of (port ∷ host) = (host, port)

-- An address as the port, and the bytes of the host behind it.
unfoldable pub address : Codec Address
unfolding address_of
address = record {
  pack = λ a. a.1 ∷ a.0;
  unpack = λ s. some (address_of s);
  unpack-pack = λ a. refl;
}
