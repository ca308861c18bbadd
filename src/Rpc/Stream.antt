-- ===== src/Rpc/Stream.antt =====
-- The loops of `onReceive` in src/rpc/rpc.cc over a stream of objects that the socket cuts into
-- buffers.
use rawdishfs.Base.{
  Bool-cases, Bytes, List, Option, [], ap, arith, drop, inl, inr, leb, length, length-append, refl,
  some, suc, sym, take, take-append, zero, ℕ, ◌++◌, ◌+◌, ◌<◌, ◌==◌, ◌>>=◌, ◌∙◌, ◌∷◌, ◌≡◌, ◌≤◌,
}
use mathlib.Core.List.{append_assoc, append-nil}
use rawdishfs.Msgpack.{more, message, Framing}
use rawdishfs.Rpc.{drain, receive}

-- Where a list is cut twice, the longer part goes on from the shorter.
split_append :
    {A : Type 0} (a b p rest : List A)
    → p ++ rest ≡ a ++ b
    → length a ≤ length p
    → (q : List A) × (p ≡ a ++ q) × (q ++ rest ≡ b)
split_append [] b p rest e le = (p, refl, e)
split_append (x ∷ a) b [] rest e le = absurd (omega arith)
split_append (x ∷ a) b (y ∷ p) rest e le =
    let (q, whole, tail) = split_append a b p rest (ap (drop 1) e) (omega arith) in (q, cc, tail)

pub nil_of_length : {A : Type 0} (xs : List A) → length xs ≡ 0 → xs ≡ []
nil_of_length [] e = refl
nil_of_length (x ∷ xs) e = absurd (omega arith)

-- The bytes that the socket brings, in the order of its buffers.
unfoldable pub concat : List Bytes → Bytes
concat [] = []
concat (chunk ∷ chunks) = chunk ++ concat chunks

module _ {M : Type 0} (framing : Framing M) where
  -- The bytes of the objects, one behind the other.
  unfoldable pub wire : List M → Bytes
  wire [] = []
  wire (m ∷ ms) = framing.pack m ++ wire ms

  -- Where the buffer waits for more bytes and no more come, no object is left.
  pub partial-wire :
      (ms : List M) (pac : Bytes)
      → framing.decode pac ≡ more
      → pac ++ [] ≡ wire ms
      → (ms ≡ []) × (pac ≡ [])
  unfolding wire
  partial-wire [] pac waits e = (refl, sym (append-nil pac) ∙ e)
  partial-wire (m ∷ ms) pac waits e =
      let found : framing.decode pac ≡ message m (wire ms) =
        rw (sym (append-nil pac) ∙ e) (framing.decode-pack m (wire ms)) in
      absurd (clash (sym waits ∙ found))
    where
      clash : more ≡ message m (wire ms) → ⊥
      clash h = cc

module _ {M S E : Type 0} (framing : Framing M) (handle : S → M → S × List E) where
  open framing use {pack, decode, decode_nil, decode-pack, decode-take}

  -- Handling the objects one by one.
  unfoldable pub handle_all : S → List M → S × List E
  handle_all s [] = (s, [])
  handle_all s (m ∷ ms) =
      let rest = handle_all (handle s m).0 ms in (rest.0, (handle s m).1 ++ rest.1)

  -- What the loop makes of a part `p` of the stream of `ms`, before `rest`.
  pub record Drained (ms : List M) (p rest : Bytes) (fuel : ℕ) (s : S) : Type 0 where
    pub now : List M
    pub later : List M
    pub left : Bytes
    pub split : ms ≡ now ++ later
    pub drained :
        drain framing handle fuel p s ≡ some (left, (handle_all s now).0, (handle_all s now).1)
    pub remains : left ++ rest ≡ wire framing later
    pub partial : decode left ≡ more

  -- A packed object has at least one byte.
  pack_pos : (m : M) → 0 < length (pack m)
  pack_pos m = elim (Bool-cases (length (pack m) == 0)) [
    | inl empty ↦
        let absent : pack m ≡ [] = nil_of_length (pack m) (ground arith) in
        let found : decode [] ≡ message m [] = rw absent at (decode-pack m []) in
        absurd (clash (sym decode_nil ∙ found))
    | inr full ↦ ground arith
  ]
    where
      clash : more ≡ message m [] → ⊥
      clash e = cc

  drain_more :
      (fuel : ℕ) (p : Bytes) (s : S)
      → decode p ≡ more
      → drain framing handle (suc fuel) p s ≡ some (p, s, [])
  unfolding drain
  drain_more fuel p s e = rw (e, drain) refl

  drain_message :
      (fuel : ℕ) (p q : Bytes) (m : M) (s : S)
      → decode p ≡ message m q
      → drain framing handle (suc fuel) p s ≡ (
          drain framing handle fuel q (handle s m).0 >>= λ r.
          some (r.0, r.1, (handle s m).1 ++ r.2))
  unfolding drain
  drain_message fuel p q m s e = rw (e, drain) refl

  drain-pack :
      (m : M) (ms : List M) (p rest q : Bytes) (fuel : ℕ) (s : S)
      → p ≡ pack m ++ q
      → Drained ms q rest fuel (handle s m).0
      → Drained (m ∷ ms) p rest (suc fuel) s
  unfolding drain wire handle_all
  drain-pack m ms p rest q fuel s whole d = record {
    now = m ∷ d.now;
    later = d.later;
    left = d.left;
    split = ap (◌∷◌ m) d.split;
    drained = drain_message fuel p q m s (rw whole (decode-pack m q)) ∙ rw d.drained refl;
    remains = d.remains;
    partial = d.partial;
  }

  drain-part :
      (m : M) (ms : List M) (p rest : Bytes) (fuel : ℕ) (s : S)
      → p ++ rest ≡ wire framing (m ∷ ms)
      → length p < length (pack m)
      → Drained (m ∷ ms) p rest (suc fuel) s
  unfolding drain wire handle_all
  drain-part m ms p rest fuel s e short =
      let (q, whole, tail) = split_append p rest (pack m) (wire framing ms) (sym e) (omega arith) in
      let cut : take (length p) (pack m) ≡ p = rw whole (take-append p q) in
      let waits : decode p ≡ more = rw cut at (decode-take m (length p) short) in
      record {
        now = [];
        later = m ∷ ms;
        left = p;
        split = refl;
        drained = drain_more fuel p s waits;
        remains = e;
        partial = waits;
      }

  pub drain-wire :
      (ms : List M) (p rest : Bytes) (fuel : ℕ) (s : S)
      → p ++ rest ≡ wire framing ms
      → length p < fuel
      → Drained ms p rest fuel s
  unfolding drain wire handle_all
  drain-wire [] [] rest (suc fuel) s e lt = record {
    now = [];
    later = [];
    left = [];
    split = refl;
    drained = drain_more fuel [] s decode_nil;
    remains = e;
    partial = decode_nil;
  }
  drain-wire [] (b ∷ p) rest (suc fuel) s e lt = cc
  drain-wire (m ∷ ms) p rest (suc fuel) s e lt =
      elim (Bool-cases (leb (length (pack m)) (length p))) [
        | inl enough ↦
            let (q, whole, tail) =
              split_append (pack m) (wire framing ms) p rest e (ground arith) in
            let sizes : length p ≡ length (pack m) + length q =
              ap length whole ∙ length-append (pack m) q in
            drain-pack m ms p rest q fuel s whole
              (drain-wire ms q rest fuel (handle s m).0 tail (omega (arith, sizes, pack_pos m, lt)))
        | inr short ↦ drain-part m ms p rest fuel s e (ground arith)
      ]
  drain-wire ms p rest zero s e lt = absurd (omega arith)

  -- The buffers come one after the other.
  unfoldable pub receive_all : Bytes → List Bytes → S → Option (Bytes × S × List E)
  receive_all pac [] s = some (pac, s, [])
  receive_all pac (chunk ∷ chunks) s = do
    r ← receive framing handle pac chunk s
    rest ← receive_all r.0 chunks r.1
    some (rest.0, rest.1, r.2 ++ rest.2)

  pub handle_all-append :
      (s : S) (now later : List M)
      → handle_all s (now ++ later) ≡ (
        (handle_all (handle_all s now).0 later).0,
        (handle_all s now).1 ++ (handle_all (handle_all s now).0 later).1,
      )
  unfolding handle_all
  handle_all-append s [] later = refl
  handle_all-append s (m ∷ now) later = rw (handle_all-append (handle s m).0 now later) (
      ap (λ es. ((handle_all (handle_all (handle s m).0 now).0 later).0, es))
        (sym (append_assoc (handle s m).1 _ _)))

  receive_all-partial :
      (ms : List M) (pac : Bytes) (chunks : List Bytes) (s : S)
      → decode pac ≡ more
      → pac ++ concat chunks ≡ wire framing ms
      → receive_all pac chunks s ≡ some ([], (handle_all s ms).0, (handle_all s ms).1)
  unfolding receive_all receive concat wire handle_all
  receive_all-partial ms pac [] s waits e =
      let (none_left, empty) = partial-wire framing ms pac waits e in rw (none_left, empty) refl
  receive_all-partial ms pac (chunk ∷ chunks) s waits e =
      let d =
        drain-wire ms (pac ++ chunk) (concat chunks) (suc (length (pac ++ chunk))) s
          (append_assoc pac chunk (concat chunks) ∙ e) (omega arith) in
      let rest =
        receive_all-partial d.later d.left chunks (handle_all s d.now).0 d.partial d.remains in
      rw (receive, d.drained) (rw rest (rw d.split (rw (handle_all-append s d.now d.later) refl)))

  -- However a stream of packed objects is cut into buffers, no buffer throws, each object is handled
  -- once and in order, and the buffer of the unpacker ends empty.
  pub receive_all-wire :
      (ms : List M) (chunks : List Bytes) (s : S)
      → concat chunks ≡ wire framing ms
      → receive_all [] chunks s ≡ some ([], (handle_all s ms).0, (handle_all s ms).1)
  receive_all-wire ms chunks s e = receive_all-partial ms [] chunks s decode_nil e
