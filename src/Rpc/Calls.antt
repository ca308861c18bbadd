-- ===== src/Rpc/Calls.antt =====
-- The futures of an `RpcClient` of src/rpc/rpc.h over the whole life of the client.
use rawdishfs.Base.{
  Bool-cases, Bytes, List, Option, Option-cases, [], arith, if◌then◌else◌, inl, inr, ltb, refl,
  some, suc, u64, ℕ, ◌++◌, ◌+◌, ◌<◌, ◌==◌, ◌^◌, ◌∷◌, ◌≡◌,
}
use rawdishfs.Base.Keys.{nat_key}
use rawdishfs.Base.OrdMap.{lookup, lookup-insert, insert-IsSorted, insert-All}
use rawdishfs.Msgpack.{Codec, Framing}
use rawdishfs.Rpc.{
  Request, Response, receive, RpcClient, new_client, start, set_disconnect_callback, ClientEffect,
  write, disconnect, serialize_args, on_disconnect, call, on_receive,
}
use rawdishfs.Rpc.Client.{
  settled, waits, IsClient, settled-append, Conserves, on_receive-Conserves, All-lt_suc,
  lookup_fresh, disconnect-Conserves, on_disconnect-Conserves,
}

-- A lost connection settles no call: those that wait go on waiting.
pub waits-on_disconnect :
    (c : RpcClient) (i : ℕ)
    → (waits i (on_disconnect c).0 ≡ waits i c) × (settled i (on_disconnect c).1 ≡ 0)
unfolding on_disconnect settled
waits-on_disconnect c i = elim (Option-cases c.disconnect_callback) [
  | inl e ↦ simp (e, on_disconnect) (refl, refl)
  | inr (callback, e) ↦ simp (e, on_disconnect) (refl, refl)
]

module _ (requests : Framing Request) (responses : Framing Response) where
  -- One thing that happens to a client. The future of a call is named by the id of the call; the
  -- ids do not wrap around.
  pub data Step (c : RpcClient) : RpcClient → List ClientEffect → Type 1 where
    starts : Step c (start c) []
    sets_callback : (callback : Option ℕ) → Step c (set_disconnect_callback c callback) []
    calls :
        {A : Type 0} (codec : Codec A) (name : Bytes) (args : A)
        → c.req_id + 1 < 2 ^ 64
        → Step c
            (call requests codec c c.req_id name args).0
            (call requests codec c c.req_id name args).1
    receives :
        (chunk : Bytes) {c' : RpcClient} {es : List ClientEffect}
        → on_receive responses c chunk ≡ some (c', es)
        → Step c c' es
    loses : Step c (on_disconnect c).0 (on_disconnect c).1
    disconnects : Step c (disconnect c).0 (disconnect c).1

  pub data Reach : RpcClient → List ClientEffect → Type 1 where
    created : Reach new_client []
    next :
        {c c' : RpcClient} {es fs : List ClientEffect}
        → Reach c es
        → Step c c' fs
        → Reach c' (es ++ fs)

  record Balanced (c : RpcClient) (es : List ClientEffect) : Type 0 where
    client : IsClient c
    total : (i : ℕ) → settled i es + waits i c ≡ (if ltb i c.req_id then 1 else 0)

  conserved :
      (c : RpcClient) (es : List ClientEffect) (c' : RpcClient) (fs : List ClientEffect)
      → Balanced c es
      → Conserves c fs c'
      → Balanced c' (es ++ fs)
  conserved c es c' fs b p = record {
    client = p.client;
    total = λ i. rw (settled-append i es fs, p.same_id) (omega (arith, p.balance i, b.total i));
  }

  call-Balanced :
      {A : Type 0} (codec : Codec A) (c : RpcClient) (es : List ClientEffect) (name : Bytes)
      (args : A)
      → c.req_id + 1 < 2 ^ 64
      → Balanced c es
      → Balanced
          (call requests codec c c.req_id name args).0
          (es ++ (call requests codec c c.req_id name args).1)
  unfolding call settled
  call-Balanced codec c es name args small b =
      let id : u64 (c.req_id + 1) ≡ suc c.req_id = omega arith in
      let fresh = lookup_fresh c.req_id c.resp_callbacks b.client.named in
      record {
        client = record {
          sorted = insert-IsSorted c.req_id c.req_id c.resp_callbacks b.client.sorted;
          named = rw id (
              insert-All _ c.req_id c.req_id c.resp_callbacks (refl, omega arith)
                (All-lt_suc c.req_id c.resp_callbacks b.client.named));
        };
        total = λ i.
            rw
              (
                id,
                lookup-insert c.req_id i c.req_id c.resp_callbacks,
                settled-append i es (write (serialize_args requests codec c.req_id name args) ∷ []),
              )
              (elim (Bool-cases (c.req_id == i)) [
                | inl same ↦ ground (arith, b.total i, fresh)
                | inr other ↦ ground (arith, b.total i)
              ]);
      }

  Step-Balanced :
      {c c' : RpcClient} {es fs : List ClientEffect}
      → Step c c' fs
      → Balanced c es
      → Balanced c' (es ++ fs)
  unfolding start set_disconnect_callback settled on_receive receive
  Step-Balanced {c} {c'} {es} starts b = conserved c es (start c) [] b (record {
    client = record { sorted = b.client.sorted; named = b.client.named };
    same_id = refl;
    balance = λ i. omega arith;
  })
  Step-Balanced {c} {c'} {es} (sets_callback callback) b =
      conserved c es (set_disconnect_callback c callback) [] b (record {
        client = record { sorted = b.client.sorted; named = b.client.named };
        same_id = refl;
        balance = λ i. omega arith;
      })
  Step-Balanced {c} {c'} {es} (calls codec name args small) b =
      call-Balanced codec c es name args small b
  Step-Balanced {c} {c'} {es} {fs} (receives chunk runs) b =
      conserved c es c' fs b (on_receive-Conserves responses c chunk (c', fs) runs b.client)
  Step-Balanced {c} {c'} {es} loses b = conserved c es _ _ b (on_disconnect-Conserves c b.client)
  Step-Balanced {c} {c'} {es} disconnects b = conserved c es _ _ b (disconnect-Conserves c b.client)

  Reach-Balanced : {c : RpcClient} {es : List ClientEffect} → Reach c es → Balanced c es
  unfolding settled lookup new_client
  Reach-Balanced created = record {
    client = record { sorted = tt; named = tt };
    total = λ i. grind arith;
  }
  Reach-Balanced (next r st) = Step-Balanced st (Reach-Balanced r)

  -- Whatever the client does and whatever the socket brings, a call is settled at most once: each
  -- call that was made has been settled once or waits, and no other has been settled or waits. The
  -- ids of the calls do not wrap around.
  pub settled-waits :
      {c : RpcClient} {es : List ClientEffect}
      → Reach c es
      → (i : ℕ) → settled i es + waits i c ≡ (if ltb i c.req_id then 1 else 0)
  settled-waits r i = (Reach-Balanced r).total i

  -- After `disconnect` no call waits: each call that was ever made has been settled exactly once.
  pub settled-disconnect :
      {c : RpcClient} {es : List ClientEffect}
      → Reach c es
      → (i : ℕ)
      → (settled i (es ++ (disconnect c).1) ≡ (if ltb i c.req_id then 1 else 0))
        × (waits i (disconnect c).0 ≡ 0)
  unfolding disconnect lookup
  settled-disconnect r i =
      let total = (Reach-Balanced (next r disconnects)).total i in (omega (arith, total), refl)
