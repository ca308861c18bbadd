-- ===== src/ServiceNode/Mesh/Within.antt =====
-- A mesh of so many nodes of src/rpc/service_node.h, who know and tell of no others.
use rawdishfs.Base.{
  ==_iff, All, Bool-cases, Bytes, List, Option, Option-cases, [], ap, arith, inl, inr, ltb, ltb→lt,
  refl, replicate, some, sym, true, ℕ, ◌<◌, ◌==◌, ◌∙◌, ◌∷◌, ◌≡◌, ◌≤◌, ◌⊎◌,
}
use mathlib.Core.Path.{subst}
use rawdishfs.Base.Keys.{Address, address_key, address_eqb_iff, bytes_key, nat_key, eqb_refl}
use rawdishfs.Base.OrdMap.{OrdMap, lookup, insert-All, lookup-All}
use rawdishfs.Base.Sums.{ne→==-false}
use rawdishfs.ServiceNode.{
  Internal, Effect, Call, call_add_peer, call_add_to_group, call_remove_from_group,
}
use rawdishfs.ServiceNode.Replicas.{call_of}
use rawdishfs.ServiceNode.Introduction.{calls_to}
use rawdishfs.ServiceNode.Delivery.{answer_call}
use rawdishfs.ServiceNode.Mesh.{
  Mesh, MeshEvent, changes, joins, delivers, change_by, post, take_at, with_link, mesh_step,
}
use rawdishfs.ServiceNode.Mesh.Entries.{times, change_by_peers, answer_call_peers}
use rawdishfs.ServiceNode.Mesh.Telling.{tells_of, mentions, mentions-append}
use rawdishfs.ServiceNode.Mesh.Spread.{IsSpread, greet, greet-Greets}
use rawdishfs.ServiceNode.Mesh.Silence.{
  IsSilent, change_by-IsSilent, answer_call-IsSilent, mentions-with_link,
}
use rawdishfs.ServiceNode.Mesh.Discovery.{AnswersWell, IsConnecting, told-IsSpread, joined-IsSpread}

module _ (size : ℕ) where
  abbrev Below : Address × ℕ → Type 0
  Below p = p.1 < size

  abbrev pub AreWithin : OrdMap Address ℕ → Type 0
  AreWithin peers = All Below peers

  times-AreWithin :
      (y : ℕ) (peers : OrdMap Address ℕ) → AreWithin peers → size ≤ y → times y peers ≡ 0
  unfolding times
  times-AreWithin y [] all far = refl
  times-AreWithin y ((a, c) ∷ peers) all far =
      rw (ne→==-false c y (λ e. omega (arith, e, all.0, far))) (times-AreWithin y peers all.1 far)

  module _ (home : Address → ℕ) (address : ℕ → Address) where
    pub record IsWithin (m : Mesh) : Type 0 where
      pub inside : (i j : ℕ) → (size ≤ i) ⊎ (size ≤ j) → m.links i j ≡ []
      pub clients_within : (i : ℕ) → AreWithin (m.nodes i).peers
      pub told_within : (i j : ℕ) (a : Address) → mentions a (m.links i j) ≡ true → home a < size

    -- A node of the mesh that tells only nodes of the mesh, and only of such nodes.
    module _ (i : ℕ) (r : Internal × List Effect) (m : Mesh) (i_within : i < size) (w : IsWithin m)
        (peers : AreWithin r.0.peers) (elsewhere : (z : ℕ) → size ≤ z → calls_to z r.1 ≡ [])
        (tells : (a : Address) (z : ℕ) → mentions a (calls_to z r.1) ≡ true → home a < size) where
      pub post-IsWithin : IsWithin (post i r m)
      post-IsWithin = record {
        inside = λ x y far. elim (Bool-cases (i == x)) [
          | inr other ↦ rw other (w.inside x y far)
          | inl same ↦
              let far' : size ≤ y = elim far [
                | inl beyond ↦ absurd (omega (arith, beyond, (==_iff i x).0 same, i_within))
                | inr beyond ↦ beyond
              ] in
              rw (same, w.inside x y far, elsewhere y far') refl
        ];
        clients_within = λ x. elim (Bool-cases (i == x)) [
          | inr other ↦ rw other (w.clients_within x)
          | inl same ↦ rw same peers
        ];
        told_within = λ x y a told. elim (Bool-cases (i == x)) [
          | inr other ↦ w.told_within x y a (rw other at told)
          | inl same ↦
              let both =
                rw (mentions-append a (m.links x y) (calls_to y r.1)) at (rw same at told) in
              elim (Bool-cases (mentions a (m.links x y))) [
                | inl old ↦ w.told_within x y a old
                | inr none_old ↦ tells a y (ground (arith, both, none_old))
              ]
        ];
      }

    silent-IsWithin :
        (i : ℕ) (r : Internal × List Effect) (m : Mesh)
        → i < size
        → IsWithin m
        → IsSilent (m.nodes i) r
        → ((z : ℕ) → size ≤ z → calls_to z r.1 ≡ [])
        → IsWithin (post i r m)
    silent-IsWithin i r m i_within w silent elsewhere =
        post-IsWithin i r m i_within w
          (subst AreWithin (sym silent.same_peers) (w.clients_within i)) elsewhere
          (λ a z told. absurd (ground (arith, silent.tells_nobody a z, told)))

    -- A node of the mesh calls `RPCAddPeer` for the address of one.
    greet-IsWithin :
        (i : ℕ) (host : Bytes) (port : ℕ) (m : Mesh)
        → i < size
        → IsWithin m
        → home (host, port) < size
        → home ((m.nodes i).host, (m.nodes i).port) ≡ i
        → IsSpread home address (post i (greet home i host port m) m)
        → IsWithin (post i (greet home i host port m) m)
    greet-IsWithin i host port m i_within w target own v =
        let r = greet home i host port m in
        let greets = greet-Greets home i host port m in
        let peers : AreWithin r.0.peers = elim greets.peers_are [
          | inl same ↦ subst AreWithin (sym same) (w.clients_within i)
          | inr more ↦ subst AreWithin (sym more) (
              insert-All Below (host, port) (home (host, port)) (m.nodes i).peers target
                (w.clients_within i))
        ] in
        let clients : (a : Address) (c : ℕ) → lookup a r.0.peers ≡ some c → c ≡ home a =
          λ a c found. (v.clients i a c (rw (eqb_refl i) found)).0 in
        post-IsWithin i r m i_within w peers
          (λ z far.
            greets.elsewhere z
              (ne→==-false (home (host, port)) z (λ e. omega (arith, e, target, far))))
          (λ a z told. elim (greets.tells_only a z told) [
            | inl itself ↦ rw (itself, own) i_within
            | inr there ↦ elim (Option-cases (lookup a r.0.peers)) [
              | inl nothing ↦ absurd (ground (arith, rw nothing at there))
              | inr (c, found) ↦
                  rw (← clients a c found) (lookup-All Below a c r.0.peers found peers)
            ]
          ])

    -- A call is taken from a link.
    module _ (i j k : ℕ) (c : Call) (rest : List Call) (m : Mesh)
        (there : take_at k (m.links i j) ≡ some (c, rest)) (w : IsWithin m) where
      pub link-within : (i < size) × (j < size)
      unfolding take_at
      link-within = (
        elim (Bool-cases (ltb i size)) [
          | inl below ↦ ltb→lt i size below
          | inr beyond ↦ absurd (nothing (inl (ground (arith, beyond))))
        ],
        elim (Bool-cases (ltb j size)) [
          | inl below ↦ ltb→lt j size below
          | inr beyond ↦ absurd (nothing (inr (ground (arith, beyond))))
        ],
      )
        where
          nothing : (size ≤ i) ⊎ (size ≤ j) → ⊥
          nothing far = ground (arith, rw (w.inside i j far) at there)

      pub with_link-IsWithin : IsWithin (with_link i j rest m)
      with_link-IsWithin = record {
        inside = λ x y far. elim (Bool-cases (i == x)) [
          | inr other ↦ rw other (w.inside x y far)
          | inl same ↦ elim (Bool-cases (j == y)) [
            | inr other ↦ rw (same, other) (w.inside x y far)
            | inl same' ↦ absurd (elim far [
              | inl beyond ↦ omega (arith, beyond, (==_iff i x).0 same, link-within.0)
              | inr beyond ↦ omega (arith, beyond, (==_iff j y).0 same', link-within.1)
            ])
          ]
        ];
        clients_within = w.clients_within;
        told_within = λ x y a told.
            w.told_within x y a (mentions-with_link i j k c rest m there a x y ∙ rw told refl);
      }

      -- It tells of a node of the mesh.
      pub told-within : (a : Address) → tells_of a c ≡ true → home a < size
      told-within a tells = w.told_within i j a (
          mentions-with_link i j k c rest m there a i j
          ∙ rw (eqb_refl i, eqb_refl j, tells) (ground arith))

    -- The nodes that act, and those whose addresses are given.
    abbrev pub EventWithin : MeshEvent → Type 0
    EventWithin (changes i c) = i < size
    EventWithin (joins i host port socket) = (i < size) × (home (host, port) < size)
    EventWithin (delivers i j k socket) = Unit

    module _ (home-address : (i : ℕ) → home (address i) ≡ i) where
      delivers-IsWithin :
          (i j k : ℕ) (socket : Option ℕ) (c : Call) (rest : List Call) (m : Mesh)
          → take_at k (m.links i j) ≡ some (c, rest)
          → AnswersWell home address socket c
          → IsSpread home address m
          → IsWithin m
          → IsWithin (
              post j
                ((answer_call socket (m.nodes j) c).0, (answer_call socket (m.nodes j) c).1)
                (with_link i j rest m))
      unfolding answer_call greet
      delivers-IsWithin i j k socket (call_add_peer host port) rest m there connects v w =
          let c = call_add_peer host port in
          rw connects (
            greet-IsWithin j host port (with_link i j rest m) (link-within i j k c rest m there w).1
              (with_link-IsWithin i j k c rest m there w)
              (told-within i j k c rest m there w (host, port)
                ((address_eqb_iff (host, port) (host, port)).1 refl))
              (ap home (v.place j) ∙ home-address j)
              (told-IsSpread home address home-address i j k host port rest m there v))
      delivers-IsWithin i j k socket (call_add_to_group g n) rest m there connects v w =
          let c = call_add_to_group g n in
          silent-IsWithin j
            ((answer_call socket (m.nodes j) c).0, (answer_call socket (m.nodes j) c).1)
            (with_link i j rest m) (link-within i j k c rest m there w).1
            (with_link-IsWithin i j k c rest m there w)
            (answer_call-IsSilent socket (m.nodes j) c tt)
            (λ z far. (answer_call_peers z socket (m.nodes j) c tt).0)
      delivers-IsWithin i j k socket (call_remove_from_group g n) rest m there connects v w =
          let c = call_remove_from_group g n in
          silent-IsWithin j
            ((answer_call socket (m.nodes j) c).0, (answer_call socket (m.nodes j) c).1)
            (with_link i j rest m) (link-within i j k c rest m there w).1
            (with_link-IsWithin i j k c rest m there w)
            (answer_call-IsSilent socket (m.nodes j) c tt)
            (λ z far. (answer_call_peers z socket (m.nodes j) c tt).0)

      pub mesh_step-IsWithin :
          (e : MeshEvent) (m : Mesh)
          → EventWithin e
          → IsConnecting home address e m
          → IsSpread home address m
          → IsWithin m
          → IsWithin (mesh_step e m)
      unfolding IsConnecting mesh_step greet
      mesh_step-IsWithin (changes i c) m within connects v w =
          silent-IsWithin i (change_by (m.nodes i) c) m within w (change_by-IsSilent (m.nodes i) c)
            (λ z far.
              (change_by_peers z (m.nodes i) c).0
              ∙ ap (λ (k : ℕ). replicate k (call_of c))
                  (times-AreWithin z (m.nodes i).peers (w.clients_within i) far))
      mesh_step-IsWithin (joins i host port socket) m within connects v w = rw connects.0 (
          greet-IsWithin i host port m within.0 w within.1 (ap home (v.place i) ∙ home-address i)
            (joined-IsSpread home address home-address i host port m connects.1 v))
      mesh_step-IsWithin (delivers i j k socket) m within connects v w =
          elim (Option-cases (take_at k (m.links i j))) [
            | inl nothing ↦ rw (nothing, mesh_step) w
            | inr ((c, rest), there) ↦
                rw (there, mesh_step)
                  (delivers-IsWithin i j k socket c rest m there
                    (rw (there, IsConnecting) at connects) v w)
          ]
