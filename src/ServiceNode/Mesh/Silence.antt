-- ===== src/ServiceNode/Mesh/Silence.antt =====
-- The steps of a mesh of the nodes of src/rpc/service_node.h that tell nobody of an address.
use rawdishfs.Base.{
  ==_iff, Bool-cases, Bytes, List, Option, Option-cases, [], ap, arith, false, inl, inr, none, refl,
  replicate, some, some_inj, suc, sym, zero, ℕ, ◌&&◌, ◌==◌, ◌||◌, ◌∙◌, ◌∷◌, ◌≡◌,
}
use rawdishfs.Base.Keys.{Address, address_key, bytes_key, nat_key}
use rawdishfs.ServiceNode.{
  Internal, Effect, Call, call_add_peer, call_add_to_group, call_remove_from_group, add_to_group,
  remove_from_group, add_member, drop_member, remove_missing, rpc_add_to_group,
  rpc_remove_from_group, count,
}
use rawdishfs.Base.Int.{ℤ, is_one}
use rawdishfs.ServiceNode.Replicas.{Change, add, remove, call_of}
use rawdishfs.ServiceNode.Introduction.{calls_to}
use rawdishfs.ServiceNode.Delivery.{answer_call}
use rawdishfs.ServiceNode.Mesh.{Mesh, change_by, post, take_at, with_link}
use rawdishfs.ServiceNode.Mesh.Entries.{change_by_peers, answer_call_peers, IsChange, times}
use rawdishfs.ServiceNode.Mesh.Telling.{tells_of, mentions, mentions-append}
use rawdishfs.ServiceNode.Mesh.Spread.{known, Reaches, Spreads, IsSpread}

mentions-replicate :
    (b : Address) (k : ℕ) (c : Change) → mentions b (replicate k (call_of c)) ≡ false
unfolding mentions call_of
mentions-replicate b zero c = refl
mentions-replicate b (suc k) (add g n) = mentions-replicate b k (add g n)
mentions-replicate b (suc k) (remove g n) = mentions-replicate b k (remove g n)

mentions-take_at :
    (b : Address) (k : ℕ) (cs : List Call) (c : Call) (rest : List Call)
    → take_at k cs ≡ some (c, rest)
    → mentions b cs ≡ (tells_of b c || mentions b rest)
unfolding mentions take_at
mentions-take_at b k [] c rest e = absurd (ground (arith, e))
mentions-take_at b zero (d ∷ cs) c rest e =
    let same = some_inj e in
    let head : d ≡ c = ap (λ r. r.0) same in
    let tail : cs ≡ rest = ap (λ r. r.1) same in rw (head, tail) refl
mentions-take_at b (suc k) (d ∷ cs) c rest e = elim (Option-cases (take_at k cs)) [
  | inl nothing ↦ absurd (ground (arith, rw nothing at e))
  | inr (r, there) ↦
      let same = some_inj (rw there at e) in
      let head : r.0 ≡ c = ap (λ r. r.0) same in
      let tail : d ∷ r.1 ≡ rest = ap (λ r. r.1) same in
      rw (← tail) (ground (arith, mentions-take_at b k cs c r.1 (there ∙ rw head refl)))
]

-- The node keeps its address and its peers, and tells nobody of an address.
pub record IsSilent (s : Internal) (r : Internal × List Effect) : Type 0 where
  pub same_host : r.0.host ≡ s.host
  pub same_port : r.0.port ≡ s.port
  pub same_peers : r.0.peers ≡ s.peers
  pub tells_nobody : (b : Address) (y : ℕ) → mentions b (calls_to y r.1) ≡ false

-- The address of the node stays.
Stays : Internal → Internal → Type 0
Stays s t = (t.host ≡ s.host) × (t.port ≡ s.port)

add_member-Stays : (s : Internal) (g n : Bytes) (o : Option ℤ) → Stays s (add_member s g n o).0
unfolding add_member Stays
add_member-Stays s g n none = (refl, refl)
add_member-Stays s g n (some c) = (refl, refl)

drop_member-Stays : (s : Internal) (g n : Bytes) (c : ℤ) → Stays s (drop_member s g n c).0
unfolding drop_member Stays
drop_member-Stays s g n c = elim (Bool-cases (is_one c)) [
  | inl one ↦ rw one (refl, refl)
  | inr more ↦ rw more (refl, refl)
]

change_by-Stays : (s : Internal) (c : Change) → Stays s (change_by s c).0
unfolding change_by add_to_group remove_from_group remove_missing Stays
change_by-Stays s (add g n) =
    let stays = add_member-Stays s g n (count g n s.groups) in
    elim (Option-cases (count g n s.groups)) [
      | inl e ↦ rw (e, add_to_group) stays
      | inr (c, e) ↦ rw (e, add_to_group) stays
    ]
change_by-Stays s (remove g n) = elim (Option-cases (count g n s.groups)) [
  | inl e ↦ rw (e, remove_from_group) (refl, refl)
  | inr (c, e) ↦ rw (e, remove_from_group) (drop_member-Stays s g n c)
]

answer_call-Stays :
    (socket : Option ℕ) (s : Internal) (c : Call) → IsChange c → Stays s (answer_call socket s c).0
unfolding answer_call rpc_add_to_group rpc_remove_from_group Stays
answer_call-Stays socket s (call_add_to_group g n) is = add_member-Stays s g n (count g n s.groups)
answer_call-Stays socket s (call_remove_from_group g n) is =
    elim (Option-cases (count g n s.groups)) [
      | inl e ↦ rw (e, rpc_remove_from_group) (refl, refl)
      | inr (c, e) ↦ rw (e, rpc_remove_from_group) (drop_member-Stays s g n c)
    ]
answer_call-Stays socket s (call_add_peer host port) is = absurd is

pub change_by-IsSilent : (s : Internal) (c : Change) → IsSilent s (change_by s c)
unfolding Stays
change_by-IsSilent s c = record {
  same_host = (change_by-Stays s c).0;
  same_port = (change_by-Stays s c).1;
  same_peers = (change_by_peers 0 s c).1;
  tells_nobody =
      λ b y. ap (mentions b) (change_by_peers y s c).0 ∙ mentions-replicate b (times y s.peers) c;
}

pub answer_call-IsSilent :
    (socket : Option ℕ) (s : Internal) (c : Call)
    → IsChange c
    → IsSilent s ((answer_call socket s c).0, (answer_call socket s c).1)
unfolding mentions Stays
answer_call-IsSilent socket s c is = record {
  same_host = (answer_call-Stays socket s c is).0;
  same_port = (answer_call-Stays socket s c is).1;
  same_peers = (answer_call_peers 0 socket s c is).1;
  tells_nobody = λ b y. ap (mentions b) (answer_call_peers y socket s c is).0;
}

-- A node that tells nobody.
module _ (i : ℕ) (r : Internal × List Effect) (m : Mesh) (silent : IsSilent (m.nodes i) r) where
  peers-silent : (x : ℕ) → ((post i r m).nodes x).peers ≡ (m.nodes x).peers
  peers-silent x = elim (Bool-cases (i == x)) [
    | inl same ↦ rw (same, silent.same_peers, (==_iff i x).0 same) refl
    | inr other ↦ rw other refl
  ]

  pub known-silent : (x : ℕ) (b : Address) → known (post i r m) x b ≡ known m x b
  known-silent x b = rw (peers-silent x) refl

  mentions-silent :
      (b : Address) (k y : ℕ) → mentions b ((post i r m).links k y) ≡ mentions b (m.links k y)
  mentions-silent b k y = elim (Bool-cases (i == k)) [
    | inr other ↦ rw other refl
    | inl same ↦
        rw (same, mentions-append b (m.links k y) (calls_to y r.1), silent.tells_nobody b y)
          (ground arith)
  ]

  Reaches-silent : (b : Address) (y : ℕ) → Reaches m b y → Reaches (post i r m) b y
  Reaches-silent b y (inl there) = inl (known-silent y b ∙ there)
  Reaches-silent b y (inr (k, there)) = inr (k, mentions-silent b k y ∙ there)

  pub silent-IsSpread :
      (home : Address → ℕ) (address : ℕ → Address)
      → IsSpread home address m
      → IsSpread home address (post i r m)
  silent-IsSpread home address v = record {
    place = λ x. elim (Bool-cases (i == x)) [
      | inr other ↦ rw other (v.place x)
      | inl same ↦ rw (same, silent.same_host, silent.same_port, (==_iff i x).0 same) (v.place x)
    ];
    clients = λ x b c there. v.clients x b c (rw (peers-silent x) at there);
    told = λ k y b e. v.told k y b (sym (mentions-silent b k y) ∙ e);
    symmetric = λ x y ne e.
        Reaches-silent (address x) y (v.symmetric x y ne (sym (known-silent x (address y)) ∙ e));
    shared = λ w x y ne e f.
        elim (v.shared w x y ne (sym (known-silent w (address x)) ∙ e)
          (sym (known-silent w (address y)) ∙ f)) [
            | inl a ↦ inl (Reaches-silent (address x) y a)
            | inr b ↦ inr (Reaches-silent (address y) x b)
          ];
  }

-- A call is taken from a link.
module _ (i j k : ℕ) (c : Call) (rest : List Call) (m : Mesh)
    (there : take_at k (m.links i j) ≡ some (c, rest)) where
  pub mentions-with_link :
      (b : Address) (x y : ℕ)
      → mentions b (m.links x y)
        ≡ (mentions b ((with_link i j rest m).links x y) || (i == x) && (j == y) && tells_of b c)
  mentions-with_link b x y = elim (Bool-cases (i == x)) [
    | inr other ↦ rw other (ground arith)
    | inl same ↦ elim (Bool-cases (j == y)) [
      | inr other' ↦ rw (same, other') (ground arith)
      | inl same' ↦
          rw
            (
              same,
              same',
              ← (==_iff i x).0 same,
              ← (==_iff j y).0 same',
              mentions-take_at b k (m.links i j) c rest there,
            )
            (ground arith)
    ]
  ]

  pub with_link-Spreads :
      (home : Address → ℕ) (address : ℕ → Address) (R : Address → ℕ → Type 0)
      → IsSpread home address m
      → ((b : Address) (y : ℕ) → Reaches m b y → R b y)
      → Spreads home address R (with_link i j rest m)
  with_link-Spreads home address R v reach = record {
    place = v.place;
    clients = v.clients;
    told = λ x y b e. v.told x y b (mentions-with_link b x y ∙ rw e refl);
    symmetric = λ x y ne e. reach (address x) y (v.symmetric x y ne e);
    shared = λ w x y ne e f. elim (v.shared w x y ne e f) [
      | inl a ↦ inl (reach (address x) y a)
      | inr b ↦ inr (reach (address y) x b)
    ];
  }

  -- The call tells nobody of an address.
  pub with_link-IsSpread :
      (home : Address → ℕ) (address : ℕ → Address)
      → ((b : Address) → tells_of b c ≡ false)
      → IsSpread home address m
      → IsSpread home address (with_link i j rest m)
  with_link-IsSpread home address tells_nobody v =
      with_link-Spreads home address (Reaches (with_link i j rest m)) v still
    where
      still : (b : Address) (y : ℕ) → Reaches m b y → Reaches (with_link i j rest m) b y
      still b y (inl had) = inl had
      still b y (inr (x, told)) =
          inr (x, ground (arith, sym (mentions-with_link b x y) ∙ told, tells_nobody b))
