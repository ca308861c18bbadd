-- ===== src/BlockStoreNode/Life.antt =====
-- What the methods of src/blockstore/blockstore_daemon.h do in every state that a node can reach.
use rawdishfs.Base.{
  Bool, Bytes, List, Option, Option-cases, [], ap, arith, false, if◌then◌else◌, inl, inr, none,
  refl, some, some_inj, sym, true, ℕ, ◌++◌, ◌>>=◌, ◌↔◌, ◌∙◌, ◌∷◌, ◌≡◌, ◌⊎◌,
}
use Prim.Native.Nat.{min}
use rawdishfs.Base.Keys.{Address, address_key, address_eqb, nat_key}
use rawdishfs.Base.OrdMap.{lookup, insert, erase, lookup-erase}
use rawdishfs.BlockStoreNode.{
  Store, remote_block_store, Peer, BlockStoreNode, PeerCall, call_add_peer, Answer, done, pending,
  introduce_peers, connect, set_disconnect_callback, register_block_store, new_node,
  add_block_store, rpc_add_peer, rpc_add_block_store, remove_peer, erase_all, put_block_helper,
}
use rawdishfs.BlockStoreNode.Owners.{
  listed, Owner, IsNode, not_some, lookup-erase_all, add_block_store-IsNode, insert-IsNode,
  remove_peer-IsNode,
}
use rawdishfs.BlockStoreNode.Announce.{announce-IsNode}

-- `RPCAddPeer` on its three branches.
rpc_add_peer_known :
    (s : BlockStoreNode) (host : Bytes) (port : ℕ) (socket : Option ℕ) (peer : Peer)
    → lookup (host, port) s.peers ≡ some peer
    → rpc_add_peer s host port socket ≡ some (s, [], done true)
unfolding rpc_add_peer
rpc_add_peer_known s host port socket peer e = rw (e, rpc_add_peer) refl

rpc_add_peer_unreachable :
    (s : BlockStoreNode) (host : Bytes) (port : ℕ)
    → lookup (host, port) s.peers ≡ none
    → rpc_add_peer s host port none ≡ none
unfolding rpc_add_peer connect set_disconnect_callback
rpc_add_peer_unreachable s host port e = rw (e, rpc_add_peer) refl

abbrev peer_of : ℕ → Peer
peer_of client = record { client = some client; bsids = [] }

rpc_add_peer_new :
    (s : BlockStoreNode) (host : Bytes) (port client : ℕ)
    → lookup (host, port) s.peers ≡ none
    → rpc_add_peer s host port (some client)
      ≡ some (
        record s { peers = insert (host, port) (peer_of client) s.peers },
        call_add_peer client s.host s.port
            ∷ introduce_peers client (host, port) (insert (host, port) (peer_of client) s.peers),
        pending client,
      )
unfolding rpc_add_peer connect set_disconnect_callback
rpc_add_peer_new s host port client e = rw (e, rpc_add_peer) refl

-- `RPCAddPeer` faults exactly where the peer is not known and cannot be reached.
pub rpc_add_peer_fault :
    (s : BlockStoreNode) (host : Bytes) (port : ℕ) (socket : Option ℕ)
    → (rpc_add_peer s host port socket ≡ none)
      ↔ ((lookup (host, port) s.peers ≡ none) × (socket ≡ none))
rpc_add_peer_fault s host port none = (
  λ fault. elim (Option-cases (lookup (host, port) s.peers)) [
    | inl e ↦ (e, refl)
    | inr (peer, e) ↦ absurd (not_some (sym fault ∙ rpc_add_peer_known s host port none peer e))
  ],
  λ h. rpc_add_peer_unreachable s host port h.0,
)
rpc_add_peer_fault s host port (some client) = (
  λ fault. elim (Option-cases (lookup (host, port) s.peers)) [
    | inl e ↦ absurd (not_some (sym fault ∙ rpc_add_peer_new s host port client e))
    | inr (peer, e) ↦
        absurd (not_some (sym fault ∙ rpc_add_peer_known s host port (some client) peer e))
  ],
  λ h. absurd (not_some (sym h.1)),
)

rpc_add_peer-IsNode :
    (s : BlockStoreNode) (host : Bytes) (port : ℕ) (socket : Option ℕ) {t : BlockStoreNode}
    {calls : List PeerCall} {answer : Answer}
    → IsNode s
    → rpc_add_peer s host port socket ≡ some (t, calls, answer)
    → IsNode t
rpc_add_peer-IsNode s host port socket v runs = elim (Option-cases (lookup (host, port) s.peers)) [
  | inr (peer, e) ↦
      rw (ap (λ r. r.0) (some_inj (sym (rpc_add_peer_known s host port socket peer e) ∙ runs))) at v
  | inl e ↦ elim (Option-cases socket) [
    | inl unreachable ↦
        absurd (not_some (sym (rpc_add_peer_unreachable s host port e) ∙ (rw unreachable at runs)))
    | inr (client, reached) ↦
        rw
          (ap (λ r. r.0)
            (some_inj (sym (rpc_add_peer_new s host port client e) ∙ (rw reached at runs))))
          at (insert-IsNode s (host, port) (peer_of client) client v e refl)
  ]
]

-- What `RPCAddBlockStore` does: it makes a new store that is reached through the peer, where the
-- peer is known and the id is new.
Added : BlockStoreNode → Address → ℕ → BlockStoreNode → Bool → Type 0
Added s addr bsid t ok =
    (peer : Peer) × (client : ℕ) × (lookup addr s.peers ≡ some peer)
    × (peer.client ≡ some client)
    × (lookup bsid s.blockstores ≡ none)
    × (ok ≡ true)
    × (t ≡ record s {
      peers = insert addr (record peer { bsids = peer.bsids ++ bsid ∷ [] }) s.peers;
      blockstores = insert bsid (remote_block_store client bsid) s.blockstores;
    })

rpc_add_block_store_cases :
    (s : BlockStoreNode) (host : Bytes) (port bsid : ℕ)
    → IsNode s
    → (t : BlockStoreNode) × (ok : Bool) × (rpc_add_block_store s host port bsid ≡ some (t, ok))
      × (((t ≡ s) × (ok ≡ false)) ⊎ Added s (host, port) bsid t ok)
unfolding rpc_add_block_store register_block_store Added
rpc_add_block_store_cases s host port bsid v = elim (Option-cases (lookup (host, port) s.peers)) [
  | inl e ↦ (s, false, rw (e, rpc_add_block_store) refl, inl (refl, refl))
  | inr (peer, e) ↦ elim (Option-cases (lookup bsid s.blockstores)) [
    | inr (store, taken) ↦ (s, false, rw (e, rpc_add_block_store, taken) refl, inl (refl, refl))
    | inl free ↦
        let (client, speaks) = v.connected (host, port) peer e in
        (
          record s {
            peers = insert (host, port) (record peer { bsids = peer.bsids ++ bsid ∷ [] }) s.peers;
            blockstores = insert bsid (remote_block_store client bsid) s.blockstores;
          },
          true,
          rw (e, rpc_add_block_store, free)
              (ap
                (λ c. (c >>= λ n. some (remote_block_store n bsid)) >>= λ store. some (
                  record s {
                    peers =
                        insert (host, port) (record peer { bsids = peer.bsids ++ bsid ∷ [] })
                          s.peers;
                    blockstores = insert bsid store s.blockstores;
                  },
                  true,
                ))
                speaks),
          inr (peer, client, e, speaks, free, refl, refl),
        )
  ]
]

-- One thing that happens to a node.
pub data Step (s : BlockStoreNode) : BlockStoreNode → Type 0 where
  adds_store : (bsid : ℕ) (path : Bytes) → Step s (add_block_store s bsid path)
  adds_peer :
      (host : Bytes) (port : ℕ) (socket : Option ℕ) {t : BlockStoreNode} {calls : List PeerCall}
      {answer : Answer}
      → rpc_add_peer s host port socket ≡ some (t, calls, answer)
      → Step s t
  adds_remote :
      (host : Bytes) (port bsid : ℕ) {t : BlockStoreNode} {ok : Bool}
      → rpc_add_block_store s host port bsid ≡ some (t, ok)
      → Step s t
  loses_peer : (addr : Address) {t : BlockStoreNode} → remove_peer s addr ≡ some t → Step s t

pub data Reach (s : BlockStoreNode) : BlockStoreNode → Type 0 where
  start : Reach s s
  next : {t u : BlockStoreNode} → Reach s t → Step t u → Reach s u

Step-IsNode : {s t : BlockStoreNode} → Step s t → IsNode s → IsNode t
unfolding Added remove_peer
Step-IsNode {s} (adds_store bsid path) v = add_block_store-IsNode s bsid path v
Step-IsNode {s} (adds_peer host port socket runs) v = rpc_add_peer-IsNode s host port socket v runs
Step-IsNode {s} {t} (adds_remote host port bsid {ok = ok} runs) v =
    let (u, said, goes, effect) = rpc_add_block_store_cases s host port bsid v in
    let same : u ≡ t = ap (λ r. r.0) (some_inj (sym goes ∙ runs)) in
    elim effect [
      | inl (kept, refused) ↦ rw (sym kept ∙ same) at v
      | inr (peer, client, e, speaks, free, accepted, changed) ↦
          rw (sym changed ∙ same) at (announce-IsNode s (host, port) peer bsid client v e speaks)
    ]
Step-IsNode {s} {t} (loses_peer addr runs) v = elim (Option-cases (lookup addr s.peers)) [
  | inl e ↦ absurd (not_some (rw (e, remove_peer) at runs))
  | inr (peer, e) ↦
      rw (some_inj (rw (e, remove_peer) at runs)) at (remove_peer-IsNode s addr peer v e)
]

Reach-IsNode : {s t : BlockStoreNode} → IsNode s → Reach s t → IsNode t
Reach-IsNode v start = v
Reach-IsNode v (next r st) = Step-IsNode st (Reach-IsNode v r)

new_node-IsNode : (host : Bytes) (port : ℕ) → IsNode (new_node host port)
unfolding new_node lookup
new_node-IsNode host port = record {
  owned = λ bsid client b e. absurd (not_some e);
  connected = λ addr peer e. absurd (not_some e);
}

-- In every state that a new node can reach, each remote store is reached through the client of a
-- known peer which has announced it under the same id: no store outlives the connection to its peer.
pub Owner-new_node :
    (host : Bytes) (port : ℕ) {t : BlockStoreNode}
    → Reach (new_node host port) t
    → (bsid client b : ℕ) → lookup bsid t.blockstores ≡ some (remote_block_store client b)
    → Owner t bsid client b
Owner-new_node host port r = (Reach-IsNode (new_node-IsNode host port) r).owned

-- A peer whose connection is lost is removed with exactly the stores that it has announced: every
-- other peer and every other store stays.
pub lookup-remove_peer :
    (s : BlockStoreNode) (addr a : Address) (peer : Peer) (bsid : ℕ)
    → lookup addr s.peers ≡ some peer
    → (t : BlockStoreNode) × (remove_peer s addr ≡ some t)
      × (lookup a t.peers ≡ (if address_eqb addr a then none else lookup a s.peers))
      × (lookup bsid t.blockstores
          ≡ (if listed bsid peer.bsids then none else lookup bsid s.blockstores))
unfolding remove_peer
lookup-remove_peer s addr a peer bsid e = (
  record s { peers = erase addr s.peers; blockstores = erase_all peer.bsids s.blockstores },
  rw (e, remove_peer) refl,
  lookup-erase addr a s.peers,
  lookup-erase_all bsid peer.bsids s.blockstores,
)

-- Of two stores, `putBlockHelper` chooses one with the smaller number of free blocks.
pub put_block_helper-min :
    (a b : Store) (num_free_blocks : Store → ℕ)
    → num_free_blocks (put_block_helper a b (num_free_blocks a) (num_free_blocks b))
      ≡ min (num_free_blocks a) (num_free_blocks b)
unfolding put_block_helper
put_block_helper-min a b num_free_blocks = ground arith
