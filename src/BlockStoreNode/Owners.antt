-- ===== src/BlockStoreNode/Owners.antt =====
-- Which peer each remote store of src/blockstore/blockstore_daemon.h belongs to.
use rawdishfs.Base.{
  Bool, Bool-cases, Bytes, List, [], ap, arith, false, if◌then◌else◌, inl, inr, none, refl, some,
  some_inj, sym, true, ℕ, ◌++◌, ◌==◌, ◌||◌, ◌∙◌, ◌∷◌, ◌≡◌,
}
use rawdishfs.Base.Keys.{Address, address_key, address_eqb, address_eqb_iff, nat_key}
use rawdishfs.Base.OrdMap.{
  OrdMap, lookup, insert, erase, lookup-insert, lookup-erase, lookup-insert_inv, lookup-insert_new,
}
use rawdishfs.BlockStoreNode.{
  Store, file_block_store, remote_block_store, Peer, BlockStoreNode, add_block_store, erase_all,
}

abbrev pub listed : ℕ → List ℕ → Bool
listed q [] = false
listed q (bsid ∷ bsids) = bsid == q || listed q bsids

pub listed-append :
    (q bsid : ℕ) (bsids : List ℕ) → listed q (bsids ++ bsid ∷ []) ≡ (listed q bsids || bsid == q)
listed-append q bsid [] = ground arith
listed-append q bsid (b ∷ bsids) = ground (arith, listed-append q bsid bsids)

pub lookup-erase_all :
    (q : ℕ) (bsids : List ℕ) (stores : OrdMap ℕ Store)
    → lookup q (erase_all bsids stores) ≡ (if listed q bsids then none else lookup q stores)
unfolding erase_all
lookup-erase_all q [] stores = refl
lookup-erase_all q (bsid ∷ bsids) stores =
    rw (lookup-erase_all q bsids (erase bsid stores), lookup-erase bsid q stores) (ground arith)

-- The peer that a remote store is reached through: it is known, the store uses its client, and it
-- has announced the store.
pub record Owner (s : BlockStoreNode) (bsid client b : ℕ) : Type 0 where
  pub addr : Address
  pub peer : Peer
  pub known : lookup addr s.peers ≡ some peer
  pub speaks : peer.client ≡ some client
  pub same : b ≡ bsid
  pub announced : listed bsid peer.bsids ≡ true

pub record IsNode (s : BlockStoreNode) : Type 0 where
  pub owned :
      (bsid client b : ℕ)
      → lookup bsid s.blockstores ≡ some (remote_block_store client b)
      → Owner s bsid client b
  pub connected :
      (addr : Address) (peer : Peer)
      → lookup addr s.peers ≡ some peer
      → (client : ℕ) × (peer.client ≡ some client)

pub not_some : {A : Type 0} {a : A} → none ≡ some a → ⊥
not_some e = cc

file_remote :
    {path : Bytes} {client b : ℕ}
    → some (file_block_store path) ≡ some (remote_block_store client b)
    → ⊥
file_remote e = cc

pub add_block_store-IsNode :
    (s : BlockStoreNode) (bsid : ℕ) (path : Bytes) → IsNode s → IsNode (add_block_store s bsid path)
unfolding add_block_store
add_block_store-IsNode s bsid path v = record {
  owned = λ q client b e.
      let e' = rw (lookup-insert bsid q (file_block_store path) s.blockstores) at e in
      elim (Bool-cases (bsid == q)) [
        | inl same ↦ absurd (file_remote (rw same at e'))
        | inr other ↦
            let o = v.owned q client b (rw other at e') in
            record {
              addr = o.addr;
              peer = o.peer;
              known = o.known;
              speaks = o.speaks;
              same = o.same;
              announced = o.announced;
            }
      ];
  connected = v.connected;
}

-- A peer at a new address.
pub insert-IsNode :
    (s : BlockStoreNode) (addr : Address) (peer : Peer) (client : ℕ)
    → IsNode s
    → lookup addr s.peers ≡ none
    → peer.client ≡ some client
    → IsNode (record s { peers = insert addr peer s.peers })
insert-IsNode s addr peer client v absent speaks = record {
  owned = λ q c b e.
      let o = v.owned q c b e in
      record {
        addr = o.addr;
        peer = o.peer;
        known = lookup-insert_new addr o.addr peer o.peer s.peers absent o.known;
        speaks = o.speaks;
        same = o.same;
        announced = o.announced;
      };
  connected = λ a p e. elim (lookup-insert_inv addr a peer p s.peers e) [
    | inl (here, same) ↦ (client, ap (λ p. p.client) (sym same) ∙ speaks)
    | inr (other, there) ↦ v.connected a p there
  ];
}

-- An address that is not the one of the peer in question.
other_addr :
    (addr a : Address) (p q : Peer) (peers : OrdMap Address Peer)
    → lookup addr peers ≡ some p
    → lookup a peers ≡ some q
    → (p ≡ q → ⊥)
    → address_eqb addr a ≡ false
other_addr addr a p q peers e f apart = elim (Bool-cases (address_eqb addr a)) [
  | inl same ↦ absurd (apart (some_inj (sym e ∙ rw ((address_eqb_iff addr a).0 same) f)))
  | inr other ↦ other
]

pub remove_peer-IsNode :
    (s : BlockStoreNode) (addr : Address) (peer : Peer)
    → IsNode s
    → lookup addr s.peers ≡ some peer
    → IsNode
        (record s { peers = erase addr s.peers; blockstores = erase_all peer.bsids s.blockstores })
remove_peer-IsNode s addr peer v known = record {
  owned = λ q c b e.
      let e' = rw (lookup-erase_all q peer.bsids s.blockstores) at e in
      elim (Bool-cases (listed q peer.bsids)) [
        | inl gone ↦ absurd (not_some (rw gone at e'))
        | inr kept ↦
            let o = v.owned q c b (rw kept at e') in
            let apart : peer ≡ o.peer → ⊥ =
              λ same. true_false (sym (rw (← same) at (o.announced)) ∙ kept) in
            let away = other_addr addr o.addr peer o.peer s.peers known o.known apart in
            record {
              addr = o.addr;
              peer = o.peer;
              known = rw (lookup-erase addr o.addr s.peers, away) o.known;
              speaks = o.speaks;
              same = o.same;
              announced = o.announced;
            }
      ];
  connected = λ a p e.
      let e' = rw (lookup-erase addr a s.peers) at e in
      elim (Bool-cases (address_eqb addr a)) [
        | inl same ↦ absurd (not_some (rw same at e'))
        | inr other ↦ v.connected a p (rw other at e')
      ];
}
  where
    true_false : true ≡ false → ⊥
    true_false e = cc
