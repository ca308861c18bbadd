-- ===== src/ServiceNode/Mesh/Greeting.antt =====
-- The calls by which `RPCAddPeer` of src/rpc/service_node.cc introduces a node to a peer.
use rawdishfs.Base.{
  Bool, Bool-cases, Bytes, List, Option-cases, [], ap, arith, false, inl, inr, none, refl, some,
  some_inj, sym, true, ℕ, ◌&&◌, ◌++◌, ◌==◌, ◌||◌, ◌∙◌, ◌∷◌, ◌≡◌, ◌⊎◌,
}
use rawdishfs.Base.Keys.{
  Address, address_key, address_eqb, address_eqb_iff, bytes_key, nat_key, eqb_refl,
}
use rawdishfs.Base.OrdMap.{OrdMap, lookup, insert, lookup-insert}
use rawdishfs.Base.Int.{ℤ}
use rawdishfs.ServiceNode.{
  Internal, Effect, send, Call, call_add_peer, call_add_to_group, introduce_peers,
  introduce_members, introduce_groups, rpc_add_peer,
}
use rawdishfs.ServiceNode.Introduction.{calls_to, calls_to-append}
use rawdishfs.ServiceNode.Mesh.Telling.{
  is_some, mentions, mentions-send, mentions-append, mentions-introduce_peers, mentions_only,
  mentions-introduce_groups,
}

-- Calls to one client are none to another.
calls_to_other :
    (y z : ℕ) (c : Call) (es : List Effect)
    → (y == z) ≡ false
    → calls_to z (send y c ∷ es) ≡ calls_to z es
unfolding calls_to
calls_to_other y z c es other = rw other refl

introduce_peers_elsewhere :
    (y z : ℕ) (a : Address) (peers : OrdMap Address ℕ)
    → (y == z) ≡ false
    → calls_to z (introduce_peers y a peers) ≡ []
unfolding introduce_peers calls_to
introduce_peers_elsewhere y z a [] other = refl
introduce_peers_elsewhere y z a ((d, c) ∷ peers) other =
    let rest = introduce_peers_elsewhere y z a peers other in
    elim (Bool-cases (address_eqb a d)) [
      | inl same ↦ rw same rest
      | inr new ↦
          rw new
            (calls_to_other y z (call_add_peer d.0 d.1) (introduce_peers y a peers) other ∙ rest)
    ]

introduce_members_elsewhere :
    (y z : ℕ) (g : Bytes) (ms : OrdMap Bytes ℤ)
    → (y == z) ≡ false
    → calls_to z (introduce_members y g ms) ≡ []
unfolding introduce_members calls_to
introduce_members_elsewhere y z g [] other = refl
introduce_members_elsewhere y z g ((n, c) ∷ ms) other =
    calls_to_other y z (call_add_to_group g n) (introduce_members y g ms) other
    ∙ introduce_members_elsewhere y z g ms other

introduce_groups_elsewhere :
    (y z : ℕ) (groups : OrdMap Bytes (OrdMap Bytes ℤ))
    → (y == z) ≡ false
    → calls_to z (introduce_groups y groups) ≡ []
unfolding introduce_groups calls_to
introduce_groups_elsewhere y z [] other = refl
introduce_groups_elsewhere y z ((g, ms) ∷ groups) other =
    calls_to-append z (introduce_members y g ms) (introduce_groups y groups)
    ∙ rw (introduce_members_elsewhere y z g ms other, introduce_groups_elsewhere y z groups other)
        refl

-- What `RPCAddPeer` does for an address where `TcpSocket::connect` gives a socket.
pub record Greets (s : Internal) (a : Address) (y : ℕ) (r : Internal × List Effect) : Type 0 where
  pub same_host : r.0.host ≡ s.host
  pub same_port : r.0.port ≡ s.port
  pub knows :
      (b : Address) → is_some (lookup b r.0.peers) ≡ (is_some (lookup b s.peers) || address_eqb a b)
  pub clients :
      (b : Address) (c : ℕ)
      → lookup b r.0.peers ≡ some c
      → (lookup b s.peers ≡ some c) ⊎ ((b ≡ a) × (c ≡ y))
  pub tells_only :
      (b : Address) (z : ℕ)
      → mentions b (calls_to z r.1) ≡ true
      → (b ≡ (s.host, s.port)) ⊎ (is_some (lookup b r.0.peers) ≡ true)
  pub tells_self :
      is_some (lookup a s.peers) ≡ false → mentions (s.host, s.port) (calls_to y r.1) ≡ true
  pub tells_others :
      (b : Address)
      → is_some (lookup a s.peers) ≡ false
      → address_eqb a b ≡ false
      → is_some (lookup b s.peers) ≡ true
      → mentions b (calls_to y r.1) ≡ true
  -- Calls go to the new client only.
  pub elsewhere : (z : ℕ) → (y == z) ≡ false → calls_to z r.1 ≡ []
  pub peers_are : (r.0.peers ≡ s.peers) ⊎ (r.0.peers ≡ insert a y s.peers)

module _ (s : Internal) (a : Address) (y : ℕ) where
  -- The calls to a new peer, and whom they tell of what.
  abbrev greeting : List Effect
  greeting =
      send y (call_add_peer s.host s.port) ∷ introduce_peers y a (insert a y s.peers)
      ++ introduce_groups y s.groups

  mentions-greeting :
      (b : Address) (z : ℕ)
      → mentions b (calls_to z greeting) ≡ (
          (y == z) && address_eqb (s.host, s.port) b
          || mentions b (calls_to z (introduce_peers y a (insert a y s.peers))))
  mentions-greeting b z =
      let peers = introduce_peers y a (insert a y s.peers) in
      mentions-send b y z (call_add_peer s.host s.port) (peers ++ introduce_groups y s.groups)
      ∙ ap (λ (x : Bool). (y == z) && address_eqb (s.host, s.port) b || x)
          (ap (mentions b) (calls_to-append z peers (introduce_groups y s.groups))
            ∙ mentions-append b (calls_to z peers) (calls_to z (introduce_groups y s.groups))
            ∙ rw (mentions-introduce_groups b y z s.groups)
                (or_false (mentions b (calls_to z peers))))
    where
      or_false : (x : Bool) → (x || false) ≡ x
      or_false true = refl
      or_false false = refl

  -- The peers with the new one.
  is_some-insert :
      (b : Address)
      → is_some (lookup b (insert a y s.peers)) ≡ (is_some (lookup b s.peers) || address_eqb a b)
  is_some-insert b = rw (lookup-insert a b y s.peers) (elim (Bool-cases (address_eqb a b)) [
    | inl same ↦ rw same (ground arith)
    | inr other ↦ rw other (ground arith)
  ])

  known-Greets : (c : ℕ) → lookup a s.peers ≡ some c → Greets s a y (s, [])
  unfolding mentions calls_to
  known-Greets c e = record {
    same_host = refl;
    same_port = refl;
    knows = λ b. elim (Bool-cases (address_eqb a b)) [
      | inl same ↦ rw (same, ← (address_eqb_iff a b).0 same, e) refl
      | inr other ↦ rw other (ground arith)
    ];
    clients = λ b d e'. inl e';
    tells_only = λ b z e'. absurd (ground (arith, e'));
    tells_self = λ new. absurd (ground (arith, rw e at new));
    tells_others = λ b new. absurd (ground (arith, rw e at new));
    elsewhere = λ z other. refl;
    peers_are = inl refl;
  }

  new-Greets :
      lookup a s.peers ≡ none → Greets s a y (record s { peers = insert a y s.peers }, greeting)
  unfolding calls_to
  new-Greets e = record {
    same_host = refl;
    same_port = refl;
    knows = is_some-insert;
    clients = λ b d e'. elim (Bool-cases (address_eqb a b)) [
      | inl same ↦ inr (
        sym ((address_eqb_iff a b).0 same),
        sym (some_inj (sym (lookup-insert a b y s.peers ∙ rw same refl) ∙ e')),
      )
      | inr other ↦ inl (sym (lookup-insert a b y s.peers ∙ rw other refl) ∙ e')
    ];
    tells_only = λ b z e'. elim (Bool-cases (address_eqb (s.host, s.port) b)) [
      | inl itself ↦ inl (sym ((address_eqb_iff (s.host, s.port) b).0 itself))
      | inr other ↦ inr (
          mentions_only b a y z (insert a y s.peers)
            (ground (arith, rw (mentions-greeting b z) at e', other)))
    ];
    tells_self = λ new.
        mentions-greeting (s.host, s.port) y
        ∙ rw (eqb_refl y, (address_eqb_iff (s.host, s.port) (s.host, s.port)).1 refl) refl;
    tells_others = λ b new away there.
        mentions-greeting b y
        ∙ rw (mentions-introduce_peers b a y (insert a y s.peers), is_some-insert b, there, away)
            (ground arith);
    elsewhere = λ z other. rw other (
        calls_to-append z (introduce_peers y a (insert a y s.peers)) (introduce_groups y s.groups)
        ∙ rw
            (
              introduce_peers_elsewhere y z a (insert a y s.peers) other,
              introduce_groups_elsewhere y z s.groups other,
            )
            refl);
    peers_are = inr refl;
  }

pub rpc_add_peer-Greets :
    (s : Internal) (host : Bytes) (port y : ℕ)
    → Greets s
        (host, port)
        y
        ((rpc_add_peer s host port (some y)).0, (rpc_add_peer s host port (some y)).1)
unfolding rpc_add_peer
rpc_add_peer-Greets s host port y = elim (Option-cases (lookup (host, port) s.peers)) [
  | inr (c, e) ↦ rw (e, rpc_add_peer) (known-Greets s (host, port) y c e)
  | inl e ↦ rw (e, rpc_add_peer) (new-Greets s (host, port) y e)
]
