-- ===== src/Msgpack.antt =====
-- The msgpack library as src/rpc/rpc.h and src/rpc/rpc.cc see it: interfaces with the documented
-- behaviour that they rely on. A packed object shows where it ends.
use rawdishfs.Base.{Bytes, Option, [], inl, inr, length, refl, some, take, ℕ, ◌++◌, ◌<◌, ◌≡◌, ◌⊎◌}

-- What `unpacker::next` finds at the head of its buffer: a part of an object, an object and the
-- bytes behind it, or bytes for which `next` or `convert` throws.
pub data Parse (M : Type 0) : Type 0 where
  more : Parse M
  message : M → Bytes → Parse M
  malformed : Parse M

-- Objects of one type in a stream.
pub record Framing (M : Type 0) : Type 0 where
  pub pack : M → Bytes
  pub decode : Bytes → Parse M
  pub decode_nil : decode [] ≡ more
  pub decode-pack : (m : M) (rest : Bytes) → decode (pack m ++ rest) ≡ message m rest
  pub decode-take : (m : M) (n : ℕ) → n < length (pack m) → decode (take n (pack m)) ≡ more

-- One object that fills its buffer: the arguments or the result of a call.
pub record Codec (A : Type 0) : Type 0 where
  pub pack : A → Bytes
  -- `none` where `unpack` or `convert` throws
  pub unpack : Bytes → Option A
  pub unpack-pack : (a : A) → unpack (pack a) ≡ some a

-- To split on what was found and keep the equation.
pub Parse-cases :
    {M : Type 0} (p : Parse M)
    → (p ≡ more) ⊎ ((p ≡ malformed) ⊎ ((m : M) × (rest : Bytes) × (p ≡ message m rest)))
Parse-cases more = inl refl
Parse-cases malformed = inr (inl refl)
Parse-cases (message m rest) = inr (inr (m, rest, refl))
