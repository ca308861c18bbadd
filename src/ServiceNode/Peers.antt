-- ===== src/ServiceNode/Peers.antt =====
-- `RPCAddPeer` and `RemovePeer` of src/rpc/service_node.cc.
use rawdishfs.Base.{
  Bool-cases, Bytes, List, Option, Option-cases, [], ap, arith, if◌then◌else◌, inl, inr, map, none,
  refl, some, true, ℕ, ◌++◌, ◌∙◌, ◌∷◌, ◌≡◌,
}
use rawdishfs.Base.Keys.{eqb_ne, Address, address_eqb, address_ltb, address_key, eqb_refl}
use rawdishfs.Base.OrdMap.{OrdMap, lookup, insert, lookup-erase, lookup-insert_self}
use rawdishfs.ServiceNode.{
  Internal, Effect, send, call_add_peer, introduce_peers, introduce_groups, done, pending,
  rpc_add_peer, remove_peer,
}

-- One call for each peer, in the order of the map, which names the peer.
abbrev introductions : ℕ → OrdMap Address ℕ → List Effect
introductions client peers = map (λ p. send client (call_add_peer p.0.0 p.0.1)) peers

introduce_peers_absent :
    (client : ℕ) (addr : Address) (peers : OrdMap Address ℕ)
    → lookup addr peers ≡ none
    → introduce_peers client addr peers ≡ introductions client peers
unfolding introduce_peers lookup
introduce_peers_absent client addr [] e = refl
introduce_peers_absent client addr ((a, c) ∷ peers) e = elim (Bool-cases (address_eqb a addr)) [
  | inl same ↦ absurd (ground (arith, e))
  | inr other ↦ rw (eqb_ne a addr other) (
      ap (◌∷◌ (send client (call_add_peer a.0 a.1)))
        (introduce_peers_absent client addr peers (rw other at e)))
]

introduce_peers_self :
    (client : ℕ) (addr : Address) (peers : OrdMap Address ℕ)
    → introduce_peers client addr ((addr, client) ∷ peers) ≡ introduce_peers client addr peers
unfolding introduce_peers
introduce_peers_self client addr peers = rw (eqb_refl addr) refl

introduce_peers-insert :
    (client : ℕ) (addr : Address) (peers : OrdMap Address ℕ)
    → lookup addr peers ≡ none
    → introduce_peers client addr (insert addr client peers) ≡ introductions client peers
unfolding introduce_peers lookup insert
introduce_peers-insert client addr [] e = rw (eqb_refl addr) refl
introduce_peers-insert client addr ((a, c) ∷ peers) e = elim (Bool-cases (address_eqb a addr)) [
  | inl same ↦ absurd (ground (arith, e))
  | inr other ↦ elim (Bool-cases (address_ltb addr a)) [
    | inl before ↦
        rw (other, before)
          (introduce_peers_self client addr ((a, c) ∷ peers)
            ∙ introduce_peers_absent client addr ((a, c) ∷ peers) e)
    | inr behind ↦
        rw (other, behind)
          (rw (eqb_ne a addr other) (
            ap (◌∷◌ (send client (call_add_peer a.0 a.1)))
              (introduce_peers-insert client addr peers (rw other at e))))
  ]
]

-- `RPCAddPeer` for an unknown peer that can be connected to: it records the client under the
-- address and sends only to that client: first its own address, then the address of each other
-- peer, once and in order, then the members of its groups. The answer is that of the first call.
rpc_add_peer_new :
    (s : Internal) (host : Bytes) (port client : ℕ)
    → lookup (host, port) s.peers ≡ none
    → rpc_add_peer s host port (some client) ≡ (
      record s { peers = insert (host, port) client s.peers },
      send client (call_add_peer s.host s.port) ∷ introductions client s.peers
          ++ introduce_groups client s.groups,
      pending client,
    )
unfolding rpc_add_peer
rpc_add_peer_new s host port client e =
    rw (e, rpc_add_peer, introduce_peers-insert client (host, port) s.peers e) refl

rpc_add_peer_known :
    (s : Internal) (host : Bytes) (port c : ℕ) (socket : Option ℕ)
    → lookup (host, port) s.peers ≡ some c
    → rpc_add_peer s host port socket ≡ (s, [], done true)
unfolding rpc_add_peer
rpc_add_peer_known s host port c socket e = rw (e, rpc_add_peer) refl

-- `RPCAddPeer` twice for one address: whatever the second connection would give, the second call
-- changes nothing and sends nothing, if the first one could connect.
pub rpc_add_peer_again :
    (s : Internal) (host : Bytes) (port client : ℕ) (socket : Option ℕ)
    → rpc_add_peer (rpc_add_peer s host port (some client)).0 host port socket
      ≡ ((rpc_add_peer s host port (some client)).0, [], done true)
rpc_add_peer_again s host port client socket = elim (Option-cases (lookup (host, port) s.peers)) [
  | inl e ↦ rw (rpc_add_peer_new s host port client e) (
      rpc_add_peer_known (record s { peers = insert (host, port) client s.peers }) host port client
        socket (lookup-insert_self (host, port) client s.peers))
  | inr (c, e) ↦
      rw (rpc_add_peer_known s host port c (some client) e)
        (rpc_add_peer_known s host port c socket e)
]

-- A lost connection removes its peer and no other, and leaves the directory.
pub remove_peer_lem :
    (s : Internal) (addr a : Address)
    → (lookup a (remove_peer s addr).peers
        ≡ (if address_eqb addr a then none else lookup a s.peers))
      × ((remove_peer s addr).groups ≡ s.groups)
unfolding remove_peer
remove_peer_lem s addr a = (lookup-erase addr a s.peers, refl)
