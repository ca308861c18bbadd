-- ===== src/BlockStoreNode/Announce.antt =====
-- The owners of the stores of src/blockstore/blockstore_daemon.h when a store is announced.
use rawdishfs.Base.{
  ==_iff, Bool-cases, [], ap, arith, inl, inr, some, some_inj, sym, ℕ, ◌++◌, ◌∙◌, ◌∷◌, ◌≡◌,
}
use rawdishfs.Base.Keys.{Address, address_key, address_eqb, address_eqb_iff, nat_key}
use rawdishfs.Base.OrdMap.{
  OrdMap, lookup, insert, lookup-insert, lookup-insert_inv, lookup-insert_self,
}
use rawdishfs.BlockStoreNode.{Store, remote_block_store, Peer, BlockStoreNode}
use rawdishfs.BlockStoreNode.Owners.{listed, listed-append, Owner, IsNode}

remote_inj :
    {client bsid c b : ℕ}
    → remote_block_store client bsid ≡ remote_block_store c b
    → (client ≡ c) × (bsid ≡ b)
remote_inj e = (cc, cc)

-- A peer that announces one more store keeps those it has announced.
announce-Owner :
    (s : BlockStoreNode) (stores : OrdMap ℕ Store) (addr : Address) (peer : Peer) (bsid q c b : ℕ)
    → lookup addr s.peers ≡ some peer
    → Owner s q c b
    → Owner
        (record s {
          peers = insert addr (record peer { bsids = peer.bsids ++ bsid ∷ [] }) s.peers;
          blockstores = stores;
        })
        q
        c
        b
announce-Owner s stores addr peer bsid q c b known o =
    let more = record peer { bsids = peer.bsids ++ bsid ∷ [] } in
    elim (Bool-cases (address_eqb addr o.addr)) [
      | inl here ↦
          let same : peer ≡ o.peer =
            some_inj (sym known ∙ rw ((address_eqb_iff addr o.addr).0 here) o.known) in
          record {
            addr = addr;
            peer = more;
            known = lookup-insert_self addr more s.peers;
            speaks = ap (λ p. p.client) same ∙ o.speaks;
            same = o.same;
            announced = ground (
              arith,
              listed-append q bsid peer.bsids,
              ap (λ p. listed q p.bsids) same ∙ o.announced,
            );
          }
      | inr away ↦ record {
        addr = o.addr;
        peer = o.peer;
        known = rw (lookup-insert addr o.addr more s.peers, away) o.known;
        speaks = o.speaks;
        same = o.same;
        announced = o.announced;
      }
    ]

-- A store that a known peer announces, and that is new.
pub announce-IsNode :
    (s : BlockStoreNode) (addr : Address) (peer : Peer) (bsid client : ℕ)
    → IsNode s
    → lookup addr s.peers ≡ some peer
    → peer.client ≡ some client
    → IsNode (record s {
      peers = insert addr (record peer { bsids = peer.bsids ++ bsid ∷ [] }) s.peers;
      blockstores = insert bsid (remote_block_store client bsid) s.blockstores;
    })
announce-IsNode s addr peer bsid client v known speaks = record {
  owned = λ q c b e.
      elim (lookup-insert_inv bsid q (remote_block_store client bsid) (remote_block_store c b)
        s.blockstores e) [
          | inl (here, same) ↦ record {
            addr = addr;
            peer = record peer { bsids = peer.bsids ++ bsid ∷ [] };
            known = lookup-insert_self addr _ s.peers;
            speaks = rw (← (remote_inj same).0) speaks;
            same = sym (remote_inj same).1 ∙ here;
            announced = ground (arith, listed-append q bsid peer.bsids, (==_iff bsid q).1 here);
          }
          | inr (other, there) ↦ announce-Owner s _ addr peer bsid q c b known (v.owned q c b there)
        ];
  connected = λ a p e.
      elim (lookup-insert_inv addr a (record peer { bsids = peer.bsids ++ bsid ∷ [] }) p s.peers
        e) [
          | inl (here, same) ↦ (client, ap (λ p. p.client) (sym same) ∙ speaks)
          | inr (other, there) ↦ v.connected a p there
        ];
}
