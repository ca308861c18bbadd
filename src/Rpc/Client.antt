-- ===== src/Rpc/Client.antt =====
-- The calls of `RPCClient` in src/rpc/rpc.h and src/rpc/rpc.cc, and the futures that they return.
use rawdishfs.Base.{
  ==_iff, All, Bool-cases, Bytes, List, Option, Option-cases, [], arith, if◌then◌else◌, inl, inr,
  map, none, refl, some, some_inj, suc, zero, ℕ, ◌++◌, ◌+◌, ◌<◌, ◌==◌, ◌∙◌, ◌∷◌, ◌≡◌, length,
}
use rawdishfs.Base.Keys.{nat_key}
use rawdishfs.Base.OrdMap.{
  OrdMap, lookup, lookup-erase, IsSorted, erase-IsSorted, lookup_before, erase-All, lookup-All,
}
use rawdishfs.Msgpack.{Parse-cases, Framing}
use rawdishfs.Rpc.{
  Response, drain, receive, RpcClient, ClientEffect, write, resume, hang_up, notify, on_response,
  disconnect, on_disconnect, on_receive,
}

-- How often a future is given its value.
unfoldable pub settled : ℕ → List ClientEffect → ℕ
settled i [] = 0
settled i (resume future buf ∷ es) = (if future == i then 1 else 0) + settled i es
settled i (write bytes ∷ es) = settled i es
settled i (hang_up ∷ es) = settled i es
settled i (notify callback ∷ es) = settled i es

-- 1 for a call that waits for its response, 0 for any other.
abbrev pub waits_in : Option ℕ → ℕ
waits_in none = 0
waits_in (some future) = 1

abbrev pub waits : ℕ → RpcClient → ℕ
waits i c = waits_in (lookup i c.resp_callbacks)

-- Each call that waits has the id by which its future is named, and that id has been given out.
pub record IsClient (c : RpcClient) : Type 0 where
  pub sorted : IsSorted c.resp_callbacks
  pub named : All (λ e. (e.1 ≡ e.0) × (e.0 < c.req_id)) c.resp_callbacks

pub settled-append :
    (i : ℕ) (es fs : List ClientEffect) → settled i (es ++ fs) ≡ settled i es + settled i fs
unfolding settled
settled-append i [] fs = omega arith
settled-append i (resume future buf ∷ es) fs = ground (arith, settled-append i es fs)
settled-append i (write bytes ∷ es) fs = settled-append i es fs
settled-append i (hang_up ∷ es) fs = settled-append i es fs
settled-append i (notify callback ∷ es) fs = settled-append i es fs

-- The step from `c` to `c'` gives values to the calls that it takes off the waiting ones.
pub record Conserves (c : RpcClient) (es : List ClientEffect) (c' : RpcClient) : Type 0 where
  pub client : IsClient c'
  pub same_id : c'.req_id ≡ c.req_id
  pub balance : (i : ℕ) → settled i es + waits i c' ≡ waits i c

pub Conserves-refl : (c : RpcClient) → IsClient c → Conserves c [] c
unfolding settled
Conserves-refl c v = record { client = v; same_id = refl; balance = λ i. omega arith }

pub Conserves-trans :
    {a b c : RpcClient} {es fs : List ClientEffect}
    → Conserves a es b
    → Conserves b fs c
    → Conserves a (es ++ fs) c
Conserves-trans {es = es} {fs = fs} p q = record {
  client = q.client;
  same_id = q.same_id ∙ p.same_id;
  balance = λ i. omega (arith, settled-append i es fs, p.balance i, q.balance i);
}

pub on_response-Conserves :
    (c : RpcClient) (m : Response)
    → IsClient c
    → Conserves c (on_response c m).1 (on_response c m).0
unfolding on_response settled
on_response-Conserves c (id, body) v = elim (Option-cases (lookup id c.resp_callbacks)) [
  | inl e ↦ rw (e, on_response) (Conserves-refl c v)
  | inr (future, e) ↦
      let named : (future ≡ id) × (id < c.req_id) =
        lookup-All _ id future c.resp_callbacks e v.named in
      rw (e, on_response)
        (record {
          client = record {
            sorted = erase-IsSorted id c.resp_callbacks v.sorted;
            named = erase-All _ id c.resp_callbacks v.named;
          };
          same_id = refl;
          balance = λ i.
              rw (lookup-erase id i c.resp_callbacks, named.0)
                (elim (Bool-cases (id == i)) [
                  | inl same ↦ rw (same, ← (==_iff id i).0 same, e) refl
                  | inr other ↦ rw other (omega arith)
                ]);
        })
]

-- What a buffer of the socket, whatever its bytes, can do.
module _ (responses : Framing Response) where
  pub drain-Conserves :
      (fuel : ℕ) (pac : Bytes) (c : RpcClient) (r : Bytes × RpcClient × List ClientEffect)
      → drain responses on_response fuel pac c ≡ some r
      → IsClient c
      → Conserves c r.2 r.1
  unfolding drain
  drain-Conserves zero pac c r e v = absurd (none_some e)
    where
      none_some : none ≡ some r → ⊥
      none_some h = cc
  drain-Conserves (suc fuel) pac c r e v = elim (Parse-cases (responses.decode pac)) [
    | inl waits ↦
        let same : (pac, c, []) ≡ r = some_inj (rw (waits, drain) at e) in
        rw (← same) (Conserves-refl c v)
    | inr (inl throws) ↦ absurd (none_some (rw (throws, drain) at e))
    | inr (inr (m, rest, found)) ↦
        let first = on_response-Conserves c m v in
        elim (Option-cases (drain responses on_response fuel rest (on_response c m).0)) [
          | inl throws ↦ absurd (none_some (rw (found, drain, throws) at e))
          | inr (t, goes_on) ↦
              let same : (t.0, t.1, (on_response c m).1 ++ t.2) ≡ r =
                some_inj (rw (found, drain, goes_on) at e) in
              rw (← same) (
                Conserves-trans first
                  (drain-Conserves fuel rest (on_response c m).0 t goes_on first.client))
        ]
  ]
    where
      none_some : none ≡ some r → ⊥
      none_some h = cc

  pub on_receive-Conserves :
      (c : RpcClient) (chunk : Bytes) (r : RpcClient × List ClientEffect)
      → on_receive responses c chunk ≡ some r
      → IsClient c
      → Conserves c r.1 r.0
  unfolding on_receive receive
  on_receive-Conserves c chunk r e v =
      elim (Option-cases (receive responses on_response c.pac chunk c)) [
        | inl throws ↦ absurd (none_some (rw (throws, on_receive) at e))
        | inr (t, runs) ↦
            let p = drain-Conserves (suc (length (c.pac ++ chunk))) (c.pac ++ chunk) c t runs v in
            let same : (record t.1 { pac = t.0 }, t.2) ≡ r =
              some_inj (rw (runs, on_receive) at e) in
            rw (← same) (record {
              client = record { sorted = p.client.sorted; named = p.client.named };
              same_id = p.same_id;
              balance = p.balance;
            })
      ]
    where
      none_some : none ≡ some r → ⊥
      none_some h = cc

pub All-lt_suc :
    (n : ℕ) (m : OrdMap ℕ ℕ)
    → All (λ e. (e.1 ≡ e.0) × (e.0 < n)) m
    → All (λ e. (e.1 ≡ e.0) × (e.0 < suc n)) m
All-lt_suc n [] a = tt
All-lt_suc n (e ∷ m) a = ((a.0.0, omega (arith, a.0.1)), All-lt_suc n m a.1)

-- An id that has not been given out is not waited for.
pub lookup_fresh :
    (n : ℕ) (m : OrdMap ℕ ℕ) → All (λ e. (e.1 ≡ e.0) × (e.0 < n)) m → lookup n m ≡ none
lookup_fresh n m a = elim (Option-cases (lookup n m)) [
  | inl e ↦ e
  | inr (future, e) ↦ absurd (omega (arith, (lookup-All _ n future m e a).1))
]

-- The aborts of `disconnect` meet each call that waits once.
pub settled-map :
    (i n : ℕ) (m : OrdMap ℕ ℕ)
    → IsSorted m
    → All (λ e. (e.1 ≡ e.0) × (e.0 < n)) m
    → settled i (map (λ e. resume e.1 none) m) ≡ waits_in (lookup i m)
unfolding settled lookup
settled-map i n [] s a = refl
settled-map i n ((id, future) ∷ m) s a = elim (Bool-cases (id == i)) [
  | inl same ↦
      let absent : lookup i m ≡ none = rw ((==_iff id i).0 same) at (lookup_before id m s.0) in
      rw (a.0.0, same, settled-map i n m s.1 a.1, absent) refl
  | inr other ↦ rw (a.0.0, other) (omega (arith, settled-map i n m s.1 a.1))
]

pub disconnect-Conserves :
    (c : RpcClient) → IsClient c → Conserves c (disconnect c).1 (disconnect c).0
unfolding disconnect settled lookup
disconnect-Conserves c v = record {
  client = record { sorted = tt; named = tt };
  same_id = refl;
  balance = λ i. omega (arith, settled-map i c.req_id c.resp_callbacks v.sorted v.named);
}

pub on_disconnect-Conserves :
    (c : RpcClient) → IsClient c → Conserves c (on_disconnect c).1 (on_disconnect c).0
unfolding on_disconnect settled
on_disconnect-Conserves c v = elim (Option-cases c.disconnect_callback) [
  | inl e ↦ simp (e, on_disconnect) (Conserves-refl c v)
  | inr (callback, e) ↦
      simp (e, on_disconnect) (record { client = v; same_id = refl; balance = λ i. omega arith })
]
