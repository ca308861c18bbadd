-- ===== src/ServiceNode/Mesh/Discovery.antt =====
-- The discovery of peers of src/rpc/service_node.h: one address is enough to know the whole mesh.
use rawdishfs.ServiceNode.Mesh.Silence.{
  with_link-IsSpread, answer_call-IsSilent, known-silent, silent-IsSpread, change_by-IsSilent,
  mentions-with_link, with_link-Spreads,
}
use rawdishfs.ServiceNode.{
  Effect, Internal, Call, call_add_peer, call_add_to_group, call_remove_from_group,
}
use rawdishfs.ServiceNode.Delivery.{answer_call}
use rawdishfs.ServiceNode.Mesh.{
  change_by, Mesh, MeshEvent, changes, joins, delivers, post, take_at, with_link, mesh_step,
}
use rawdishfs.Base.{
  ==_iff, Bool-cases, Bytes, List, Option, [], arith, inl, inr, none, refl, some, sym, true, ℕ,
  ◌&&◌, ◌==◌, ◌||◌, ◌∙◌, ◌∷◌, ◌≡◌, Option-cases, false,
}
use rawdishfs.Base.Keys.{
  Address, address_key, address_eqb, address_eqb_iff, bytes_key, nat_key, eqb_refl,
}
use rawdishfs.Base.OrdMap.{lookup}
use rawdishfs.ServiceNode.Mesh.Telling.{tells_of, mentions}
use rawdishfs.ServiceNode.Mesh.Entries.{IsChange}
use rawdishfs.ServiceNode.Mesh.Spread.{
  known, Reaches, ReachesBut, Spreads, IsSpread, greet, known_after, greeted-IsSpread,
}

-- A node stays known.
unfoldable pub StillKnown : Mesh → Mesh → Type 0
StillKnown m m' = (x : ℕ) (b : Address) → known m x b ≡ true → known m' x b ≡ true

module _ (home : Address → ℕ) (address : ℕ → Address) where
  -- A connection to an address of a node is made.
  abbrev pub Connects : Bytes → ℕ → Option ℕ → Type 0
  Connects host port socket =
      (socket ≡ some (home (host, port))) × (address (home (host, port)) ≡ (host, port))

  abbrev pub AnswersWell : Option ℕ → Call → Type 0
  AnswersWell socket (call_add_peer host port) = socket ≡ some (home (host, port))
  AnswersWell socket (call_add_to_group g n) = Unit
  AnswersWell socket (call_remove_from_group g n) = Unit

  -- The calls of `TcpSocket::connect` in an event give sockets to the nodes with the addresses, and
  -- an address that a node is given is that of a node.
  unfoldable pub IsConnecting : MeshEvent → Mesh → Type 0
  unfolding take_at
  IsConnecting (changes i c) m = Unit
  IsConnecting (joins i host port socket) m = Connects host port socket
  IsConnecting (delivers i j k socket) m = elim (take_at k (m.links i j)) [
    | none ↦ Unit
    | some (c, rest) ↦ AnswersWell socket c
  ]

  unfoldable pub AllConnecting : List MeshEvent → Mesh → Type 0
  unfolding IsConnecting mesh_step
  AllConnecting [] m = Unit
  AllConnecting (e ∷ es) m = IsConnecting e m × AllConnecting es (mesh_step e m)

  -- No node has a peer, and no call is on its way.
  pub record IsUnconnected (m : Mesh) : Type 0 where
    pub place : (i : ℕ) → ((m.nodes i).host, (m.nodes i).port) ≡ address i
    pub alone : (i : ℕ) → (m.nodes i).peers ≡ []
    pub quiet : (i j : ℕ) → m.links i j ≡ []

  pub IsUnconnected-IsSpread : (m : Mesh) → IsUnconnected m → IsSpread home address m
  unfolding mentions lookup
  IsUnconnected-IsSpread m u = record {
    place = u.place;
    clients = λ i a c there. absurd (ground (arith, rw (u.alone i) at there));
    told = λ k y a there. absurd (ground (arith, rw (u.quiet k y) at there));
    symmetric = λ x y ne there. absurd (ground (arith, rw (u.alone x) at there));
    shared = λ w x y ne there there'. absurd (ground (arith, rw (u.alone w) at there));
  }

  module _ (home-address : (i : ℕ) → home (address i) ≡ i) where
    -- A call that tells a node of an address.
    module _ (i j k : ℕ) (host : Bytes) (port : ℕ) (rest : List Call) (m : Mesh)
        (there : take_at k (m.links i j) ≡ some (call_add_peer host port, rest))
        (v : IsSpread home address m) where
      abbrev taken : Mesh
      taken = with_link i j rest m

      told_there :
          (b : Address) (x y : ℕ)
          → mentions b (m.links x y)
            ≡ (mentions b (taken.links x y) || (i == x) && (j == y) && address_eqb (host, port) b)
      told_there = mentions-with_link i j k (call_add_peer host port) rest m there

      pub told_valid : address (home (host, port)) ≡ (host, port)
      told_valid =
          v.told i j (host, port)
            (told_there (host, port) i j
              ∙ rw (eqb_refl i, eqb_refl j, (address_eqb_iff (host, port) (host, port)).1 refl)
                  (ground arith))

      reached_but : (b : Address) (y : ℕ) → Reaches m b y → ReachesBut (host, port) j taken b y
      reached_but b y (inl had) = inl (inl had)
      reached_but b y (inr (x, told)) = elim (Bool-cases (mentions b (taken.links x y))) [
        | inl still ↦ inl (inr (x, still))
        | inr gone ↦
            let both : (i == x) && (j == y) && address_eqb (host, port) b ≡ true =
              rw gone at (sym (told_there b x y) ∙ told) in
            inr (
              sym ((address_eqb_iff (host, port) b).0 (ground (arith, both))),
              sym ((==_iff j y).0 (ground (arith, both))),
            )
      ]

      told-Spreads : Spreads home address (ReachesBut (host, port) j taken) taken
      told-Spreads =
          with_link-Spreads i j k (call_add_peer host port) rest m there home address
            (ReachesBut (host, port) j taken) v reached_but

      pub told-IsSpread : IsSpread home address (post j (greet home j host port taken) taken)
      told-IsSpread =
          greeted-IsSpread home address home-address j host port taken told_valid told-Spreads

      pub known_told :
          (x : ℕ) (b : Address)
          → known (post j (greet home j host port taken) taken) x b
            ≡ (known m x b || (j == x) && address_eqb (host, port) b)
      known_told = known_after home address home-address j host port taken told_valid told-Spreads

      told-StillKnown : StillKnown m (post j (greet home j host port taken) taken)
      unfolding StillKnown
      told-StillKnown x b e = known_told x b ∙ rw e refl

    -- A node that is given an address.
    module _ (i : ℕ) (host : Bytes) (port : ℕ) (m : Mesh)
        (valid : address (home (host, port)) ≡ (host, port)) (v : IsSpread home address m) where
      joined-Spreads : Spreads home address (ReachesBut (host, port) i m) m
      joined-Spreads = record {
        place = v.place;
        clients = v.clients;
        told = v.told;
        symmetric = λ x y ne e. inl (v.symmetric x y ne e);
        shared = λ w x y ne e f. elim (v.shared w x y ne e f) [
          | inl a ↦ inl (inl a)
          | inr b ↦ inr (inl b)
        ];
      }

      pub joined-IsSpread : IsSpread home address (post i (greet home i host port m) m)
      joined-IsSpread =
          greeted-IsSpread home address home-address i host port m valid joined-Spreads

      pub known_joined :
          (x : ℕ) (b : Address)
          → known (post i (greet home i host port m) m) x b
            ≡ (known m x b || (i == x) && address_eqb (host, port) b)
      known_joined = known_after home address home-address i host port m valid joined-Spreads

    -- What a step keeps.
    abbrev pub Keeps : Mesh → Mesh → Type 0
    Keeps m m' = IsSpread home address m' × StillKnown m m'

    change_call-Keeps :
        (i j k : ℕ) (socket : Option ℕ) (c : Call) (rest : List Call) (m : Mesh)
        → take_at k (m.links i j) ≡ some (c, rest)
        → IsChange c
        → ((b : Address) → tells_of b c ≡ false)
        → IsSpread home address m
        → Keeps m (
            post j
              ((answer_call socket (m.nodes j) c).0, (answer_call socket (m.nodes j) c).1)
              (with_link i j rest m))
    unfolding StillKnown
    change_call-Keeps i j k socket c rest m there is tells_nobody v =
        let r : Internal × List Effect =
          ((answer_call socket (m.nodes j) c).0, (answer_call socket (m.nodes j) c).1) in
        let silent = answer_call-IsSilent socket (m.nodes j) c is in
        (
          silent-IsSpread j r (with_link i j rest m) silent home address
              (with_link-IsSpread i j k c rest m there home address tells_nobody v),
          λ x b e. known-silent j r (with_link i j rest m) silent x b ∙ e,
        )

    delivers-Keeps :
        (i j k : ℕ) (socket : Option ℕ) (c : Call) (rest : List Call) (m : Mesh)
        → take_at k (m.links i j) ≡ some (c, rest)
        → AnswersWell socket c
        → IsSpread home address m
        → Keeps m (
            post j
              ((answer_call socket (m.nodes j) c).0, (answer_call socket (m.nodes j) c).1)
              (with_link i j rest m))
    unfolding answer_call greet StillKnown
    delivers-Keeps i j k socket (call_add_peer host port) rest m there connects v = rw connects (
      told-IsSpread i j k host port rest m there v,
      told-StillKnown i j k host port rest m there v,
    )
    delivers-Keeps i j k socket (call_add_to_group g n) rest m there connects v =
        change_call-Keeps i j k socket (call_add_to_group g n) rest m there tt (λ b. refl) v
    delivers-Keeps i j k socket (call_remove_from_group g n) rest m there connects v =
        change_call-Keeps i j k socket (call_remove_from_group g n) rest m there tt (λ b. refl) v

    pub mesh_step-Keeps :
        (e : MeshEvent) (m : Mesh)
        → IsConnecting e m
        → IsSpread home address m
        → Keeps m (mesh_step e m)
    unfolding IsConnecting mesh_step StillKnown greet
    mesh_step-Keeps (changes i c) m connects v =
        let silent = change_by-IsSilent (m.nodes i) c in
        (
          silent-IsSpread i (change_by (m.nodes i) c) m silent home address v,
          λ x b e. known-silent i (change_by (m.nodes i) c) m silent x b ∙ e,
        )
    mesh_step-Keeps (joins i host port socket) m connects v = rw connects.0 (
      joined-IsSpread i host port m connects.1 v,
      λ x b e. known_joined i host port m connects.1 v x b ∙ rw e refl,
    )
    mesh_step-Keeps (delivers i j k socket) m connects v =
        elim (Option-cases (take_at k (m.links i j))) [
          | inl nothing ↦ rw (nothing, mesh_step) (v, λ x b e. e)
          | inr ((c, rest), there) ↦
              rw (there, mesh_step)
                (delivers-Keeps i j k socket c rest m there (rw (there, IsConnecting) at connects)
                  v)
        ]
